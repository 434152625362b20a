-- ===== src/Parser/Calls/Semicolons.antt =====
-- src/parser/parser.go: what `EatSemicolons` skips.
use eyot.Prelude.{
  ℕ, zero, suc, ◌+◌, ◌<◌, ◌≤◌, List, [], ◌∷◌, length, length-drop, drop, drop-suc, get_elem?,
  get_elem?-drop, if◌then◌else◌, Bool-cases, ◌≡◌, refl, ap, ◌∙◌, inl, inr, arith,
}
use eyot.Token.Kinds.{Token, TokenType}
use eyot.Token.Printed.{same_type}
use eyot.Parser.State.{ParserState, Run, done, over, save, accept, reject}
use eyot.Parser.State.Moves.{token-some, token-none}
use eyot.Parser.Calls.{eat_semicolons, eat_semicolons_loop}

-- The semicolons that the tokens begin with
abbrev pub semicolons : List Token → ℕ
semicolons [] = 0
semicolons (tok ∷ toks) =
    if same_type tok.type TokenType.semicolon then suc (semicolons toks) else 0

semicolons-length : (toks : List Token) → semicolons toks ≤ length toks
semicolons-length [] = omega arith
semicolons-length (tok ∷ toks) = ground (arith, semicolons-length toks)

module _ (p : ParserState) (fs : List ℕ) where
  abbrev skipped : ℕ → Run (Unit {0})
  skipped i = done tt (over p (i ∷ fs))

  eat_semicolons_loop_lem :
      (toks : List Token) (n i : ℕ)
      → drop i p.tokens ≡ toks
      → semicolons toks < n
      → eat_semicolons_loop n (over p (i ∷ fs)) ≡ done tt (over p ((i + semicolons toks) ∷ fs))
  unfolding eat_semicolons_loop save accept reject
  eat_semicolons_loop_lem toks zero i d lt = absurd (omega (arith, lt))
  eat_semicolons_loop_lem [] (suc n) i d lt =
      let gone = get_elem?-drop i p.tokens ∙ ap (λ ts. get_elem? ts 0) d in
      rw (token-none p i gone (i ∷ fs) TokenType.semicolon) (ap (skipped) (omega arith))
  eat_semicolons_loop_lem (tok ∷ toks) (suc n) i d lt =
      let here = get_elem?-drop i p.tokens ∙ ap (λ ts. get_elem? ts 0) d in
      let next = drop-suc i p.tokens ∙ ap (drop 1) d in
      elim (Bool-cases (same_type tok.type TokenType.semicolon)) [
        | inl e ↦
            let count = ap (λ b. if b then suc (semicolons toks) else 0) e in
            rw (token-some p i here (i ∷ fs) TokenType.semicolon, e)
              (eat_semicolons_loop_lem toks n (suc i) next (omega (arith, lt, count))
                ∙ ap skipped (omega (arith, count)))
        | inr e ↦
            let count = ap (λ b. if b then suc (semicolons toks) else 0) e in
            rw (token-some p i here (i ∷ fs) TokenType.semicolon, e)
              (ap skipped (omega (arith, count)))
      ]

-- `EatSemicolons` always returns: it moves over the semicolons that stand at the current position, all
-- of them and nothing else, and leaves the outer positions alone.
eat_semicolons_lem :
    (p : ParserState) (i : ℕ) (fs : List ℕ)
    → eat_semicolons (over p (i ∷ fs)) ≡ done tt (over p ((i + semicolons (drop i p.tokens)) ∷ fs))
unfolding eat_semicolons
eat_semicolons_lem p i fs =
    eat_semicolons_loop_lem p fs (drop i p.tokens) (suc (length p.tokens)) i refl
      (omega (arith, semicolons-length (drop i p.tokens), length-drop i p.tokens))
