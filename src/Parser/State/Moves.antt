-- ===== src/Parser/State/Moves.antt =====
-- src/parser/parser.go: what one call of `Token` does to the positions.
use eyot.Prelude.{ℕ, suc, none, some, List, ◌∷◌, get_elem?, if◌then◌else◌, ◌≡◌, arith}
use eyot.Token.Kinds.{Token, TokenType}
use eyot.Token.Printed.{same_type}
use eyot.Parser.State.{
  ParserState, token, done, over, kind_at, save, get_token, position, accept, reject,
}

-- `token ty` finds the token at the current position exactly where it has the kind, and then moves
-- over it; elsewhere it finds none and changes nothing.
pub token_lem :
    (p : ParserState) (i : ℕ) (fs : List ℕ) (ty : TokenType)
    → token ty (over p (i ∷ fs)) ≡ elim (kind_at p ty i) [
      | none ↦ done none (over p (i ∷ fs))
      | some tok ↦ done (some tok) (over p (suc i ∷ fs))
    ]
unfolding token save get_token position accept reject
token_lem p i fs ty = ground arith

module _ (p : ParserState) (i : ℕ) where
  pub token-some :
      {tok : Token}
      → get_elem? p.tokens i ≡ some tok
      → (fs : List ℕ) (ty : TokenType)
      → token ty (over p (i ∷ fs)) ≡ (
          if same_type tok.type ty
          then done (some tok) (over p (suc i ∷ fs))
          else done none (over p (i ∷ fs)))
  token-some h fs ty = ground (arith, token_lem p i fs ty)

  pub token-none :
      get_elem? p.tokens i ≡ none
      → (fs : List ℕ) (ty : TokenType) → token ty (over p (i ∷ fs)) ≡ done none (over p (i ∷ fs))
  token-none h fs ty = ground (arith, token_lem p i fs ty)
