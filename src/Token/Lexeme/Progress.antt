-- ===== src/Token/Lexeme/Progress.antt =====
-- What `getNextInner` of src/token/tokeniser.go reads for each form of token.
use eyot.Prelude.{
  Bool-cases, Option-cases, inl, inr, ◌⊎◌, ℕ, ◌<◌, ◌≡◌, refl, ap, true, false, some, [], ◌∷◌,
  length, arith, Post, returns, fails, Post-bind, Post-weaken, Post-any, ◌==◌,
}
use eyot.Token.Kinds.{Token, is_eof}
use eyot.Token.Junk.Stop.{eat_junk, eat_junk-Stops}
use eyot.Token.Lexeme.{
  TokenError, runes_of, skip_rune, lex_number, lex_word, unescape, rune_or, literal_rune,
  close_character, lex_character, lex_string, current_surround, lex_other, lex_rune, get_next_inner,
}
use eyot.Token.Tables.{
  keyword_map, multichar_map, rune_map, find_multichar, find_rune, find_keyword,
}
use eyot.Token.Tables.NoEof.{
  no_eof_tables, find_multichar-is_eof, find_rune-is_eof, find_keyword-is_eof,
}
use eyot.Token.State.Advance.{remaining, advance, remaining-advance}
use eyot.Token.State.Reads.{
  Reads, Reads-refl, Reads-advance, Reads-trans, Reads-left, gather-Reads, remaining-cases,
}
use eyot.Token.State.{
  Tokeniser, is_digit, is_zero, is_identifier, not_end_string, is_identifier_start, peek_next_rune,
}
use eyot.Token.State.Gather.{gather}

skip_rune-Reads : (t : Tokeniser) → Reads t (skip_rune t)
unfolding skip_rune
skip_rune-Reads t = elim (remaining-cases t) [
  | inl (_, e) ↦ rw (e, skip_rune) (Reads-refl t)
  | inr (r, xs, split, e) ↦ rw (e, skip_rune) (Reads-advance t (r ∷ []) xs split)
]

-- A token other than `eof`, behind a part of the text.
abbrev Lexes : Tokeniser → Token × Tokeniser → Type 0
Lexes t (tk, t') = Reads t t' × (is_eof tk.type ≡ false)

Lexes-after : {t u : Tokeniser} (p : Token × Tokeniser) → Reads t u → Lexes u p → Lexes t p
Lexes-after p m (n, e) = (Reads-trans m n, e)

lex_number-Lexes : (r : ℕ) (t : Tokeniser) → Lexes t (lex_number r t)
unfolding lex_number is_eof
lex_number-Lexes r t =
    let t1 = (gather t (some (r ∷ [])) is_digit).1 in
    let m1 = gather-Reads t (some (r ∷ [])) is_digit in
    let m2 = Reads-trans m1 (skip_rune-Reads t1) in
    let m3 = gather-Reads (skip_rune t1) (some []) is_zero in
    let t3 = (gather (skip_rune t1) (some []) is_zero).1 in
    let m4 = Reads-trans m2 (Reads-trans m3 (gather-Reads t3 (some []) is_digit)) in
    let t4 = (gather t3 (some []) is_digit).1 in
    elim (Bool-cases (peek_next_rune t1 == b'.')) [
      | inl dot ↦ elim (Bool-cases (peek_next_rune t4 == b'f')) [
        | inl f ↦ rw (dot, f) (Reads-trans m4 (skip_rune-Reads t4), refl)
        | inr no_f ↦ rw (dot, no_f) (m4, refl)
      ]
      | inr no_dot ↦ elim (Bool-cases (peek_next_rune t1 == b'f')) [
        | inl f ↦ rw (no_dot, f) (m2, refl)
        | inr no_f ↦ rw (no_dot, no_f) (m1, refl)
      ]
    ]

lex_word-Lexes : (r : ℕ) (t : Tokeniser) → Lexes t (lex_word r t)
unfolding lex_word is_eof
lex_word-Lexes r t =
    let (rs, t') = gather t (some (r ∷ [])) is_identifier in
    let m = gather-Reads t (some (r ∷ [])) is_identifier in
    elim (Option-cases (find_keyword keyword_map (runes_of rs))) [
      | inl e ↦ rw (e, lex_word) (m, refl)
      | inr (kw, e) ↦
          rw (e, lex_word) (m, find_keyword-is_eof keyword_map (runes_of rs) no_eof_tables.0 e)
    ]

rune_or-Post : (e : TokenError) (t : Tokeniser) → Post (λ p. Reads t p.1) (rune_or e t)
rune_or-Post e t = elim (remaining-cases t) [
  | inl (_, end) ↦ rw (end, rune_or) fails
  | inr (r, xs, split, next) ↦ rw (next, rune_or) (returns (Reads-advance t (r ∷ []) xs split))
]

literal_rune-Post : (chr : ℕ) (t : Tokeniser) → Post (λ p. Reads t p.1) (literal_rune chr t)
unfolding literal_rune
literal_rune-Post chr t = elim (Bool-cases (chr == b'\\')) [
  | inl escaped ↦ rw escaped (
      Post-bind (rune_or-Post TokenError.no_escape t)
        λ (esc, t1) m. Post-bind (Post-any (unescape esc)) λ ichr _. returns m)
  | inr plain ↦ rw plain (returns (Reads-refl t))
]

close_character-Post :
    (ichr close : ℕ) (t : Tokeniser) → Post (Lexes t) (close_character ichr close t)
unfolding close_character is_eof
close_character-Post ichr close t = elim (Bool-cases (close == b'\'')) [
  | inl closed ↦ rw closed (returns (Reads-refl t, refl))
  | inr other ↦ rw other fails
]

lex_character-Post : (t : Tokeniser) → Post (Lexes t) (lex_character t)
unfolding lex_character
lex_character-Post t = Post-bind (rune_or-Post TokenError.nothing_after_quote t) λ (chr, t1) m1.
    Post-bind (literal_rune-Post chr t1) λ (ichr, t2) m2.
      Post-bind (rune_or-Post TokenError.no_end_rune t2) λ (close, t3) m3.
        Post-weaken (λ p. Lexes-after p (Reads-trans m1 (Reads-trans m2 m3)))
          (close_character-Post ichr close t3)

lex_string-Post : (t : Tokeniser) → Post (Lexes t) (lex_string t)
unfolding lex_string is_eof
lex_string-Post t =
    let t' = (gather t (some []) not_end_string).1 in
    elim (remaining-cases t') [
      | inl (_, end) ↦ rw (end, lex_string) fails
      | inr (r, xs, split, next) ↦
          rw (next, lex_string)
            (returns (
              Reads-trans (gather-Reads t (some []) not_end_string)
                  (Reads-advance t' (r ∷ []) xs split),
              refl,
            ))
    ]

lex_other-Post : (r : ℕ) (t : Tokeniser) → Post (Lexes t) (lex_other r t)
unfolding lex_other
lex_other-Post r t = elim (Bool-cases (is_digit r)) [
  | inl digit ↦ rw digit (returns (lex_number-Lexes r t))
  | inr no_digit ↦ elim (Bool-cases (is_identifier_start r)) [
    | inl start ↦ rw (no_digit, start) (returns (lex_word-Lexes r t))
    | inr no_start ↦ elim (Bool-cases (r == b'\'')) [
      | inl quote ↦ rw (no_digit, no_start, quote) (lex_character-Post t)
      | inr no_quote ↦ elim (Bool-cases (r == b'"')) [
        | inl text ↦ rw (no_digit, no_start, no_quote, text) (lex_string-Post t)
        | inr other ↦
            rw (no_digit, no_start, no_quote, other)
              (Post-bind (Post-any (current_surround t)) λ _ _. fails)
      ]
    ]
  ]
]

lex_rune-Post : (r : ℕ) (t : Tokeniser) → Post (Lexes t) (lex_rune r t)
unfolding lex_rune
lex_rune-Post r t = elim (Option-cases (find_multichar multichar_map r (peek_next_rune t))) [
  | inr (ty, e) ↦
      rw (e, lex_rune)
        (returns (skip_rune-Reads t, find_multichar-is_eof multichar_map r _ no_eof_tables.1 e))
  | inl no_pair ↦ elim (Option-cases (find_rune rune_map r)) [
    | inr (ty, e) ↦
        rw (no_pair, lex_rune, e)
          (returns (Reads-refl t, find_rune-is_eof rune_map r no_eof_tables.2 e))
    | inl no_rune ↦ rw (no_pair, lex_rune, no_rune) (lex_other-Post r t)
  ]
]

-- The token is `eof`, and nothing is left; or it is not, and less is left than before.
abbrev pub Steps : Tokeniser → Token × Tokeniser → Type 0
Steps t (tk, t') =
    Reads t t'
    × (((is_eof tk.type ≡ true) × (remaining t' ≡ []))
        ⊎ ((is_eof tk.type ≡ false) × (length (remaining t') < length (remaining t))))

-- A token that `getNextInner` returns is `eof` at the end of the text alone, and any other takes at
-- least one rune. The runes that are read count the lines; nothing else changes but, with the last
-- token one that ends a statement, the semicolon that is noted.
pub get_next_inner-Post : (t : Tokeniser) → Post (Steps t) (get_next_inner t)
unfolding get_next_inner is_eof
get_next_inner-Post t =
    let t0 = eat_junk t in
    let junk = (eat_junk-Stops t).reads in
    elim (remaining-cases t0) [
      | inl (nothing, end) ↦ rw (end, get_next_inner) (returns (junk, inl (refl, nothing)))
      | inr (r, xs, split, next) ↦
          rw (next, get_next_inner)
            (Post-weaken
              (λ p (m, not_eof).
                let first = Reads-advance t0 (r ∷ []) xs split in
                (
                  Reads-trans junk (Reads-trans first m),
                  inr (
                    not_eof,
                    omega (
                      arith,
                      Reads-left junk,
                      Reads-left m,
                      ap length split,
                      ap length (remaining-advance t0 (r ∷ []) split),
                    ),
                  ),
                ))
              (lex_rune-Post r (advance t0 (r ∷ []))))
    ]
