-- ===== src/Token/Junk/Whitespace.antt =====
-- `eatWhitespace` of src/token/tokeniser.go, and a description of the blanks and the newlines.
use eyot.Prelude.{
  ◌==◌, none, some, ◌≢◌, returned, returned-some, not_none, ◌⊎◌, inl, inr, &&-true, Bool-cases, ℕ,
  zero, suc, ◌<◌, ◌≡◌, refl, Bool, true, false, ◌&&◌, ◌||◌, [], ◌∷◌, length, take_while, arith,
  length-drop,
}
use eyot.Token.Kinds.{ends_statement}
use eyot.Token.Junk.{is_blank, is_newline, note_newline, eat_whitespace_loop}
use eyot.Token.State.Advance.{
  remaining, advance, backup-get_next_rune, get_next_rune-nil, get_next_rune-cons,
  remaining-advance,
}
use eyot.Token.State.Reads.{Reads, Reads-advance, Reads-trans, drop_while, take_while-drop_while}
use eyot.Token.State.{Runes, Tokeniser, contains_rune}

-- The language's white space: a blank, a tab, and the two characters that end a line.
abbrev pub is_space : ℕ → Bool
is_space r = r == b' ' || (r == b'\t' || (r == b'\r' || r == b'\n'))

abbrev pub has_newline : Runes → Bool
has_newline [] = false
has_newline (r ∷ rs) = (r == b'\r' || r == b'\n') || has_newline rs

-- The tokeniser after reading the white space `w`.
abbrev pub settle : Tokeniser → Runes → Tokeniser
settle t w = record (advance t w) {
  pending_semicolon = t.pending_semicolon || (ends_statement t.last_token_type && has_newline w);
}

is_space-code : (r : ℕ) → is_space r ≡ (is_blank r || is_newline r)
unfolding is_blank is_newline contains_rune
is_space-code r = ground arith

settle-nil : (t : Tokeniser) → settle t [] ≡ t
settle-nil t = ground arith

settle-cons : (t : Tokeniser) (r : ℕ) (w : Runes) → settle (settle t (r ∷ [])) w ≡ settle t (r ∷ w)
settle-cons t r w = ground arith

settle-blank : (t : Tokeniser) (r : ℕ) → is_blank r ≡ true → advance t (r ∷ []) ≡ settle t (r ∷ [])
unfolding is_blank contains_rune
settle-blank t r h = ground arith

settle-newline :
    (t : Tokeniser) (r : ℕ)
    → is_blank r ≡ false
    → is_newline r ≡ true
    → note_newline (advance t (r ∷ [])) ≡ settle t (r ∷ [])
unfolding is_blank is_newline contains_rune
settle-newline t r h k = ground arith

eat_whitespace_loop-settle :
    (xs : Runes) (fuel : ℕ) (t : Tokeniser)
    → remaining t ≡ xs
    → length xs < fuel
    → eat_whitespace_loop fuel t ≡ some (settle t (take_while is_space xs))
unfolding eat_whitespace_loop
eat_whitespace_loop-settle xs zero t h lt = absurd (omega arith)
eat_whitespace_loop-settle [] (suc fuel) t h lt =
    ground (arith, get_next_rune-nil t h, settle-nil t)
eat_whitespace_loop-settle (r ∷ xs) (suc fuel) t h lt =
    let first = get_next_rune-cons t h in
    let left = remaining-advance t (r ∷ []) h in
    ground (
      arith,
      first,
      is_space-code r,
      backup-get_next_rune t _ r first,
      settle-nil t,
      settle-blank t r,
      settle-newline t r,
      settle-cons t r (take_while is_space xs),
      eat_whitespace_loop-settle xs fuel (settle t (r ∷ [])) left,
    )

eat_whitespace_loop-fuel :
    (t : Tokeniser)
    → eat_whitespace_loop (suc (length t.src)) t
      ≡ some (settle t (take_while is_space (remaining t)))
eat_whitespace_loop-fuel t =
    eat_whitespace_loop-settle (remaining t) _ t refl (omega (arith, length-drop t.position t.src))

-- The fuel does not run out.
pub eat_whitespace_loop_returns :
    (t : Tokeniser) → eat_whitespace_loop (suc (length t.src)) t ≢ none
eat_whitespace_loop_returns t = not_none (eat_whitespace_loop-fuel t)

unfoldable pub eat_whitespace : Tokeniser → Tokeniser
eat_whitespace t =
    returned (eat_whitespace_loop (suc (length t.src)) t) (eat_whitespace_loop_returns t)

-- `eatWhitespace` reads exactly the leading white space, and notes a semicolon exactly where a
-- newline is in it and the last token can end a statement.
pub eat_whitespace-settle :
    (t : Tokeniser) → eat_whitespace t ≡ settle t (take_while is_space (remaining t))
unfolding eat_whitespace
eat_whitespace-settle t = returned-some _ _ (eat_whitespace_loop-fuel t)

settle_semicolon :
    (t : Tokeniser) (w : Runes)
    → (settle t w).pending_semicolon ≡ true
    → (t.pending_semicolon ≡ true) ⊎ (ends_statement t.last_token_type ≡ true)
settle_semicolon t w h = elim (Bool-cases t.pending_semicolon) [
  | inl old ↦ inl old
  | inr new ↦ inr (&&-true (ends_statement t.last_token_type) (has_newline w) (rw new at h)).0
]

Reads-settle : (t : Tokeniser) (w : Runes) → Reads (advance t w) (settle t w)
Reads-settle t w = record {
  read = [];
  splits = refl;
  position_is = omega arith;
  line_is = omega arith;
  same_src = refl;
  same_pending = refl;
  same_last = refl;
  semicolon = settle_semicolon t w;
}

pub eat_whitespace-Reads : (t : Tokeniser) → Reads t (eat_whitespace t)
eat_whitespace-Reads t =
    let w = take_while is_space (remaining t) in
    let split = take_while-drop_while is_space (remaining t) in
    rw eat_whitespace-settle
      (Reads-trans (Reads-advance t w (drop_while is_space (remaining t)) split) (Reads-settle t w))

pub remaining-eat_whitespace :
    (t : Tokeniser) → remaining (eat_whitespace t) ≡ drop_while is_space (remaining t)
remaining-eat_whitespace t = rw eat_whitespace-settle (
    remaining-advance t (take_while is_space (remaining t))
      (take_while-drop_while is_space (remaining t)))
