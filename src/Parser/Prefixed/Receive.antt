-- ===== src/Parser/Prefixed/Receive.antt =====
-- src/parser/parser.go: the error of `receive` without a closing bracket.
use eyot.Prelude.{ℕ, suc, none, some, List, ◌∷◌, codes, get_elem?, ◌≡◌, false}
use eyot.Token.Kinds.{Token, TokenType}
use eyot.Token.Printed.{same_type, type_code}
use eyot.Errors.{errorf, set_current_location}
use eyot.Parser.State.{
  ParserState, done, over, save, accept, reject, location_at, log_error, current_location, position,
}
use eyot.Parser.State.Moves.{token-some}
use eyot.Parser.Types.Starts.{Spelled}
use eyot.Parser.Types.Written.{mark}
use eyot.Ast.Syntax.{Expression}
use eyot.Parser.Calls.{Calls}
use eyot.Parser.Operators.{allocation_expression}
use eyot.Parser.Operators.Precedence.{Reads}
use eyot.Parser.Prefixed.{prefixed_expression, receive_expression}

module _ (c : Calls) (p : ParserState) (i j : ℕ) where
  -- `receive(pipe` with another token than `)` behind it is an error, and takes the caller's position
  -- away with its own: whatever positions lie below are all that is left.
  pub prefixed_expression-receive :
      (fs : List ℕ) (e : Expression) (tok : Token)
      → Spelled p i (mark TokenType.receive)
      → Spelled p (suc i) (mark TokenType.open_curved)
      → Reads p (allocation_expression c) (suc (suc i)) j e
      → get_elem? p.tokens j ≡ some tok
      → same_type tok.type TokenType.close_curved ≡ false
      → prefixed_expression c (over p (i ∷ fs))
        ≡ done none (record (over p fs) {
          es =
              errorf
                (set_current_location p.es (location_at p j))
                (codes "Expecting ')' after expression in 'receive'");
        })
  unfolding prefixed_expression receive_expression type_code save accept reject Spelled log_error
      current_location position location_at
  prefixed_expression-receive fs e tok (tok1, h1) (tok2, h2) (le, read) h k = simp (
    token-some p i h1 (i ∷ fs),
    token-some p (suc i) h2 (i ∷ fs),
    read (i ∷ fs),
    token-some p j h fs,
    k,
  )
