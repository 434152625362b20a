-- ===== src/Token/Kinds.antt =====
-- src/token/tokens.go: the kinds of token, and the token that the tokeniser hands to the parser.
use eyot.Prelude.{ℕ, Bool, true, false, List}

-- Spelled as in the source; a name that the language reserves, or that a Boolean has, ends in
-- `_keyword`.
pub data TokenType : Type 0 where
  integer float32 float64 identifier string character eof : TokenType
  equals semicolon comma open_curly close_curly open_curved close_curved : TokenType
  open_square close_square plus minus multiply divide less_than greater_than : TokenType
  colon dot percent : TokenType
  equality inequality less_than_or_equal greater_than_or_equal : TokenType
  plus_equals minus_equals times_equals divide_equals scope_resolution : TokenType
  null export function gpu_builtin break pipeline as_keyword range : TokenType
  true_keyword false_keyword let_keyword const : TokenType
  integer_keyword float32_keyword float64_keyword bool_keyword char_keyword : TokenType
  string_keyword struct return if_keyword else_keyword else_if while and or : TokenType
  not_keyword self new send receive drain foreach cpu gpu worker partial : TokenType
  placeholder import : TokenType

unfoldable pub is_eof : TokenType → Bool
is_eof TokenType.eof = true
is_eof _ = false

-- `shouldInsertSemicolon`, by the last token.
unfoldable pub ends_statement : TokenType → Bool
ends_statement TokenType.integer = true
ends_statement TokenType.float64 = true
ends_statement TokenType.float32 = true
ends_statement TokenType.identifier = true
ends_statement TokenType.character = true
ends_statement TokenType.string = true
ends_statement TokenType.close_curly = true
ends_statement TokenType.close_curved = true
ends_statement TokenType.colon = true
ends_statement TokenType.true_keyword = true
ends_statement TokenType.false_keyword = true
ends_statement TokenType.integer_keyword = true
ends_statement TokenType.float32_keyword = true
ends_statement TokenType.float64_keyword = true
ends_statement TokenType.bool_keyword = true
ends_statement TokenType.char_keyword = true
ends_statement TokenType.string_keyword = true
ends_statement TokenType.self = true
ends_statement _ = false

-- `ival` and `fval` are the bit patterns of `int64` values.
pub record Token : Type 0 where
  pub type : TokenType
  pub tval : List ℕ
  pub ival : ℕ
  pub fval_zeros : ℕ
  pub fval : ℕ
  pub line : ℕ
