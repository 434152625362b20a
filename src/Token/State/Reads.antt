-- ===== src/Token/State/Reads.antt =====
-- What every move of the tokeniser keeps: it reads a part of the text that is left, counts its
-- newlines, and touches neither the source nor the tokens that wait.
use eyot.Prelude.{
  ◌⊎◌, inl, inr, true, ℕ, ◌+◌, ◌≡◌, refl, sym, ap, ◌∙◌, Bool, Option, none, some, [], ◌∷◌, ◌++◌,
  length, take_while, arith, append_assoc, length-append, if◌then◌else◌,
}
use eyot.Token.Kinds.{ends_statement}
use eyot.Token.State.{Runes, Tokeniser, get_next_rune}
use eyot.Token.State.Advance.{
  newlines, newlines-append, remaining, advance, remaining-advance, get_next_rune-cons,
  get_next_rune-nil,
}
use eyot.Token.State.Gather.{gather, eat2, gather-take_while, eat2-eaten2, eaten2}

pub record Reads (t t' : Tokeniser) : Type 0 where
  pub read : Runes
  pub splits : remaining t ≡ read ++ remaining t'
  pub position_is : t'.position ≡ t.position + length read
  pub line_is : t'.line ≡ t.line + newlines read
  pub same_src : t'.src ≡ t.src
  pub same_pending : t'.pending_token ≡ t.pending_token
  pub same_last : t'.last_token_type ≡ t.last_token_type
  pub semicolon :
      t'.pending_semicolon ≡ true
      → (t.pending_semicolon ≡ true) ⊎ (ends_statement t.last_token_type ≡ true)

pub Reads-refl : (t : Tokeniser) → Reads t t
Reads-refl t = record {
  read = [];
  splits = refl;
  position_is = omega arith;
  line_is = omega arith;
  same_src = refl;
  same_pending = refl;
  same_last = refl;
  semicolon = inl;
}

pub Reads-trans : {t u v : Tokeniser} → Reads t u → Reads u v → Reads t v
Reads-trans a b = record {
  read = a.read ++ b.read;
  splits = a.splits ∙ ap (λ l. a.read ++ l) b.splits ∙ sym (append_assoc a.read b.read _);
  position_is = omega (arith, a.position_is, b.position_is, length-append a.read b.read);
  line_is = omega (arith, a.line_is, b.line_is, newlines-append a.read b.read);
  same_src = b.same_src ∙ a.same_src;
  same_pending = b.same_pending ∙ a.same_pending;
  same_last = b.same_last ∙ a.same_last;
  semicolon = λ h. elim (b.semicolon h) [
    | inl before ↦ a.semicolon before
    | inr ends ↦ inr (ap ends_statement (sym a.same_last) ∙ ends)
  ];
}

pub Reads-advance : (t : Tokeniser) (w xs : Runes) → remaining t ≡ w ++ xs → Reads t (advance t w)
Reads-advance t w xs h = record {
  read = w;
  splits = h ∙ ap (λ l. w ++ l) (sym (remaining-advance t w h));
  position_is = refl;
  line_is = refl;
  same_src = refl;
  same_pending = refl;
  same_last = refl;
  semicolon = inl;
}

pub Reads-left :
    {t t' : Tokeniser} (m : Reads t t')
    → length (remaining t) ≡ length m.read + length (remaining t')
Reads-left {t'} m = ap length m.splits ∙ length-append m.read (remaining t')

-- The part of a text behind its longest prefix that passes.
abbrev pub drop_while : (ℕ → Bool) → Runes → Runes
drop_while p [] = []
drop_while p (x ∷ xs) = if p x then drop_while p xs else x ∷ xs

pub take_while-drop_while : (p : ℕ → Bool) (xs : Runes) → xs ≡ take_while p xs ++ drop_while p xs
take_while-drop_while p [] = refl
take_while-drop_while p (x ∷ xs) = ground (arith, take_while-drop_while p xs)

pub gather-Reads : (t : Tokeniser) (rs : Option Runes) (p : ℕ → Bool) → Reads t (gather t rs p).1
gather-Reads t rs p =
    rw gather-take_while
      (Reads-advance t _ (drop_while p (remaining t)) (take_while-drop_while p (remaining t)))

pub remaining-gather :
    (t : Tokeniser) (rs : Option Runes) (p : ℕ → Bool)
    → remaining (gather t rs p).1 ≡ drop_while p (remaining t)
remaining-gather t rs p =
    rw gather-take_while (remaining-advance t _ (take_while-drop_while p (remaining t)))

-- What `eat2` leaves.
abbrev pub left2 : (ℕ → ℕ → Bool) → Runes → Runes
left2 test [] = []
left2 test (c ∷ []) = c ∷ []
left2 test (c ∷ d ∷ xs) = if test c d then xs else left2 test (d ∷ xs)

pub eaten2-left2 : (test : ℕ → ℕ → Bool) (xs : Runes) → xs ≡ eaten2 test xs ++ left2 test xs
eaten2-left2 test [] = refl
eaten2-left2 test (c ∷ []) = refl
eaten2-left2 test (c ∷ d ∷ xs) = ground (arith, eaten2-left2 test (d ∷ xs))

pub eat2-Reads : (t : Tokeniser) (test : ℕ → ℕ → Bool) → Reads t (eat2 t test)
eat2-Reads t test =
    rw eat2-eaten2 (Reads-advance t _ (left2 test (remaining t)) (eaten2-left2 test (remaining t)))

pub remaining-eat2 :
    (t : Tokeniser) (test : ℕ → ℕ → Bool) → remaining (eat2 t test) ≡ left2 test (remaining t)
remaining-eat2 t test = rw eat2-eaten2 (remaining-advance t _ (eaten2-left2 test (remaining t)))

-- The text that is left is empty, or its first rune can be read.
pub remaining-cases :
    (t : Tokeniser)
    → ((remaining t ≡ []) × (get_next_rune t ≡ none))
      ⊎ ((r : ℕ) × (xs : Runes) × (remaining t ≡ r ∷ xs)
          × (get_next_rune t ≡ some (r, advance t (r ∷ []))))
remaining-cases t = go (remaining t) refl
  where
    go :
        (xs : Runes)
        → remaining t ≡ xs
        → ((remaining t ≡ []) × (get_next_rune t ≡ none))
          ⊎ ((r : ℕ) × (xs : Runes) × (remaining t ≡ r ∷ xs)
              × (get_next_rune t ≡ some (r, advance t (r ∷ []))))
    go [] h = inl (h, get_next_rune-nil t h)
    go (r ∷ xs) h = inr (r, xs, h, get_next_rune-cons t h)

-- A rune that was read.
pub get_next_rune-Reads :
    (t : Tokeniser) {r : ℕ} {t' : Tokeniser}
    → get_next_rune t ≡ some (r, t')
    → Reads t t' × (remaining t ≡ r ∷ remaining t')
get_next_rune-Reads t {r} {t'} h = elim (remaining-cases t) [
  | inl (_, e) ↦ absurd (ground (arith))
  | inr (c, xs, split, e) ↦
      let same : t' ≡ advance t (c ∷ []) = ground arith in
      let rune : c ≡ r = ground arith in
      let left = remaining-advance t (c ∷ []) split in
      (rw same (Reads-advance t (c ∷ []) xs split), rw (same, left, ← rune) split)
]
