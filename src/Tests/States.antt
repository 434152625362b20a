-- ===== src/Tests/States.antt =====
-- States of the parser over short lists of tokens.
use eyot.Prelude.{ℕ, List, [], ◌∷◌, Text, codes, ℤ}
use eyot.Token.Kinds.{Token, TokenType}
use eyot.Token.Printed.{Format}
use eyot.Errors.{new_errors}
use eyot.Ast.Scope.{new_scope}
use eyot.Parser.State.{ParserState}

abbrev pub spelled : TokenType → Text → Token
spelled ty text = record { type = ty; tval = text; ival = 0; fval_zeros = 0; fval = 0; line = 1 }

abbrev pub mark_token : TokenType → Token
mark_token ty = spelled ty []

abbrev pub number : ℕ → Token
number n = record {
  type = TokenType.integer;
  tval = [];
  ival = n;
  fval_zeros = 0;
  fval = 0;
  line = 1;
}

abbrev pub parser_at : List Token → ParserState
parser_at toks = record {
  tokens = toks;
  imports = [];
  frames = 0 ∷ [];
  scope = new_scope [];
  struct_literal_ok = ℤ.pos 0;
  break_ok = 0;
  file_name = codes "main";
  id = codes "main" ∷ [];
  es = new_errors;
  disallowed_ids = [];
}

-- Stands for the formatting of package fmt.
abbrev pub some_format : Format
some_format = record {
  int = λ n. n ∷ [];
  int64 = λ n. n ∷ [];
  sprintf = λ text. text;
  texts = λ texts. [];
}
