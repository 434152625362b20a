-- ===== src/Token/State/Advance.antt =====
-- Where the moves of the tokeniser leave it: what is left of the text, and the line count.
use eyot.Prelude.{
  ℕ, ◌+◌, ◌≡◌, ap, ◌∙◌, none, some, [], ◌∷◌, ◌++◌, length, drop, ◌==◌, if◌then◌else◌, arith,
  drop-add, drop-length-append, get_elem?-drop, length-append,
}
use eyot.Token.State.{Runes, Tokeniser, get_next_rune, peek_next_rune, backup}

abbrev pub newlines : Runes → ℕ
newlines [] = 0
newlines (c ∷ cs) = (if c == b'\n' then 1 else 0) + newlines cs

pub newlines-append : (xs ys : Runes) → newlines (xs ++ ys) ≡ newlines xs + newlines ys
newlines-append [] ys = omega arith
newlines-append (x ∷ xs) ys = omega (arith, newlines-append xs ys)

-- The text that has not been read.
abbrev pub remaining : Tokeniser → Runes
remaining t = drop t.position t.src

-- The tokeniser after reading the runes `w`.
abbrev pub advance : Tokeniser → Runes → Tokeniser
advance t w = record t {
  state = record { line = t.line + newlines w; position = t.position + length w };
}

pub advance-nil : (t : Tokeniser) → advance t [] ≡ t
advance-nil t = ground arith

pub advance-append : (t : Tokeniser) (v w : Runes) → advance (advance t v) w ≡ advance t (v ++ w)
advance-append t v w = ground (arith, newlines-append v w, length-append v w)

-- `backup` undoes `getNextRune` on every rune, the count of lines included.
pub backup-get_next_rune :
    (t t' : Tokeniser) (r : ℕ) → get_next_rune t ≡ some (r, t') → backup t' ≡ t
unfolding get_next_rune backup peek_next_rune
backup-get_next_rune t t' r h = ground (arith)

pub get_next_rune-nil : (t : Tokeniser) → remaining t ≡ [] → get_next_rune t ≡ none
unfolding get_next_rune
get_next_rune-nil t h = ground (arith, get_elem?-drop t.position t.src)

pub get_next_rune-cons :
    (t : Tokeniser) {r : ℕ} {xs : Runes}
    → remaining t ≡ r ∷ xs
    → get_next_rune t ≡ some (r, advance t (r ∷ []))
unfolding get_next_rune
get_next_rune-cons t {r} {xs} h = ground (arith, get_elem?-drop t.position t.src)

pub remaining-advance :
    (t : Tokeniser) (w : Runes) {xs : Runes} → remaining t ≡ w ++ xs → remaining (advance t w) ≡ xs
remaining-advance t w {xs} h =
    drop-add t.position (length w) t.src ∙ ap (drop (length w)) h ∙ drop-length-append w xs
