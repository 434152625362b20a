-- ===== src/Parser/Calls.antt =====
-- src/parser/parser.go: what the functions of the grammar share. The grammar is recursive in three
-- of its functions, which the others take as calls; `grammar` of Parser.Module ties the knot.
pub mod Semicolons
use eyot.Prelude.{ℕ, zero, suc, Option, none, some, List, [], ◌∷◌, ◌++◌, length, Text, codes}
use eyot.Token.Kinds.{TokenType}
use eyot.Token.Printed.{Format, token_string}
use eyot.Ast.Syntax.{Expression, Block}
use eyot.Ast.Types.{Ty}
use eyot.Parser.State.{
  Parse, Find, ◌>>=◌, ◌>>◌, pure, expect, not_found, found, token, debug_peek_token, log_error,
  stops, save, accept, reject,
}

pub record Calls : Type 0 where
  pub format : Format
  pub expression : Find Expression
  pub type : Find Ty
  pub statement_block : Find Block

-- A loop that takes a token in each round has as many rounds as there are tokens, and one more.
abbrev pub with_rounds : {A : Type 0} → (ℕ → Parse A) → Parse A
with_rounds loop p = loop (suc (length p.tokens)) p

-- A message that is put together first is taken for a format by `LogError`.
unfoldable pub log_description : Calls → Text → Parse (Unit {0})
log_description c description = log_error (c.format.sprintf description)

unfoldable pub log_expecting_error : Calls → Text → Text → Parse (Unit {0})
unfolding log_description
log_expecting_error c expecting context = debug_peek_token >>= λ t. log_description c (
    codes "Expecting '"
    ++ (expecting ++ (codes "' in " ++ (context ++ (codes ", have " ++ token_string c.format t)))))

-- The error of a token that is missing
abbrev pub fail_expecting : {A : Type 0} → Calls → Text → Text → Find A
fail_expecting c expecting context = log_expecting_error c expecting context >> not_found

-- An error after which the source goes on
abbrev pub log_unless_found : {A : Type 0} → Find A → Text → Parse (Unit {0})
log_unless_found m description = expect m (log_error description) λ _. pure tt

-- The first of the kinds that is the next token, with what it stands for
unfoldable pub token_among : {A : Type 0} → List (TokenType × A) → Find A
token_among [] = not_found
token_among ((ty, a) ∷ kinds) = expect (token ty) (token_among kinds) λ _. found a

unfoldable pub eat_semicolons_loop : ℕ → Parse (Unit {0})
eat_semicolons_loop zero = stops
eat_semicolons_loop (suc fuel) =
    save
    >> (token TokenType.semicolon >>= λ o. elim o [
      | none ↦ reject
      | some _ ↦ accept >> eat_semicolons_loop fuel
    ])

unfoldable pub eat_semicolons : Parse (Unit {0})
unfolding eat_semicolons_loop
eat_semicolons = with_rounds eat_semicolons_loop
