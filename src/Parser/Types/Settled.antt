-- ===== src/Parser/Types/Settled.antt =====
-- src/parser/parser.go: calls that always return, and change nothing but the current position and the
-- log of errors.
use eyot.Prelude.{
  ℕ, suc, ◌<◌, ◌≤◌, Option, Option-cases, none, some, List, ◌∷◌, length, get_elem?, get_elem?-bound,
  Text, Bool-cases, inl, inr, arith,
}
use eyot.Token.Kinds.{TokenType}
use eyot.Token.Printed.{same_type}
use eyot.Errors.{Errors}
use eyot.Parser.State.{
  ParserState, Run, Parse, token, done, fail_with, log_error, current_location, position,
  location_at, bind,
}
use eyot.Parser.State.Moves.{token-some, token-none}

-- The state with other positions and another log
abbrev pub with_log : ParserState → List ℕ → Errors → ParserState
with_log p frames es = record p { frames = frames; es = es }

-- A call at position i has returned: what was found lies ahead; where nothing was found, tokens may
-- have been read all the same.
module _ {A : Type 0} (p : ParserState) (fs : List ℕ) where
  pub data Settled : ℕ → Run (Option A) → Type 0 where
    finds :
        {i : ℕ} (a : A) (j : ℕ) (es : Errors)
        → i < j
        → j ≤ length p.tokens
        → Settled i (done (some a) (with_log p (j ∷ fs) es))
    misses :
        {i : ℕ} (j : ℕ) (es : Errors)
        → i ≤ j
        → j ≤ length p.tokens
        → Settled i (done none (with_log p (j ∷ fs) es))

module _ {A B : Type 0} (p : ParserState) (fs : List ℕ) where
  -- A call, and what goes on from there for a caller that began at `start`
  pub Settled-bind :
      {start i : ℕ} {gs : List ℕ} {r : Run (Option A)} (k : Option A → Parse (Option B))
      → Settled p gs i r
      → ((j : ℕ) (es : Errors)
          → i ≤ j
          → j ≤ length p.tokens
          → Settled p fs start (k none (with_log p (j ∷ gs) es)))
      → ((a : A) (j : ℕ) (es : Errors)
          → i < j
          → j ≤ length p.tokens
          → Settled p fs start (k (some a) (with_log p (j ∷ gs) es)))
      → Settled p fs start (bind r k)
  Settled-bind k (Settled.finds a j es lt b) n y = y a j es lt b
  Settled-bind k (Settled.misses j es le b) n y = n j es le b

module _ (p : ParserState) (fs : List ℕ) where
  pub Settled-token :
      (ty : TokenType) (i : ℕ) (es : Errors)
      → i ≤ length p.tokens
      → Settled p fs i (token ty (with_log p (i ∷ fs) es))
  Settled-token ty i es b = elim (Option-cases (get_elem? p.tokens i)) [
    | inl n ↦ rw (token-none (record p { es = es }) i n fs ty) (Settled.misses i es (omega arith) b)
    | inr (tok, h) ↦
        let bound = get_elem?-bound p.tokens i h in
        elim (Bool-cases (same_type tok.type ty)) [
          | inl e ↦
              rw (token-some (record p { es = es }) i h fs ty, e)
                (Settled.finds tok (suc i) es (omega arith) (omega (arith, bound)))
          | inr e ↦
              rw (token-some (record p { es = es }) i h fs ty, e)
                (Settled.misses i es (omega arith) b)
        ]
  ]

  pub Settled-fail :
      {A : Type 0} {start : ℕ} (description : Text) (i : ℕ) (es : Errors)
      → start ≤ i
      → i ≤ length p.tokens
      → Settled p fs start (fail_with {A = A} description (with_log p (i ∷ fs) es))
  unfolding log_error current_location position location_at
  Settled-fail description i es le b = Settled.misses i _ le b
