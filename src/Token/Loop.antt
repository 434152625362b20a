-- ===== src/Token/Loop.antt =====
-- src/token/tokeniser.go: semicolon insertion around one token, and the whole text.
pub mod Total
pub mod Semicolons
use eyot.Prelude.{
  ℕ, zero, suc, ◌+◌, ◌*◌, Bool, true, false, Option, none, some, List, [], ◌∷◌, ◌++◌, length,
  if◌then◌else◌, Outcome, ok, err, panic, ◌>>=◌,
}
use eyot.Token.Kinds.{Token, TokenType, is_eof}
use eyot.Token.Lexeme.{Lexed, TokenError, token_of, get_next_inner}
use eyot.Token.State.{Runes, Tokeniser}

-- What `getNext` does with the token that `getNextInner` returned, by `pendingSemicolon`.
unfoldable pub deliver : Bool → Token × Tokeniser → Token × Tokeniser
deliver true (tk, t) =
    (token_of TokenType.semicolon, record t { pending_token = some tk; pending_semicolon = false })
deliver false (tk, t) = (tk, record t { last_token_type = tk.type })

-- `getNext` by `pendingToken`.
unfoldable pub next_of : Option Token → Tokeniser → Lexed
unfolding deliver
next_of (some tk) t = ok (tk, record t { pending_token = none })
next_of none t = get_next_inner t >>= λ (tk, t'). ok (deliver t'.pending_semicolon (tk, t'))

unfoldable pub get_next : Tokeniser → Lexed
unfolding next_of
get_next t = next_of t.pending_token t

abbrev pub initial : Runes → Tokeniser
initial text = record {
  src = text;
  state = record { line = 1; position = 0 };
  pending_token = none;
  pending_semicolon = false;
  last_token_type = TokenType.eof;
}

-- `none` where the fuel runs out. The list is `tkns`, the tokens so far.
unfoldable pub tokenise_loop : ℕ → Tokeniser → List Token → Option (Outcome TokenError (List Token))
tokenise_loop zero t tkns = none
tokenise_loop (suc fuel) t tkns = elim (get_next t) [
  | panic ↦ some panic
  | err e ↦ some (err e)
  | ok (tkn, t') ↦
      let tkns' = tkns ++ (record tkn { line = t'.line }) ∷ [] in
      elim (is_eof tkn.type) [ true ↦ some (ok tkns') | false ↦ tokenise_loop fuel t' tkns' ]
]

unfoldable pub tokenise : Runes → Option (Outcome TokenError (List Token))
tokenise text = tokenise_loop (2 * length text + 3) (initial text) []
