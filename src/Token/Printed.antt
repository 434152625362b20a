-- ===== src/Token/Printed.antt =====
-- src/token/tokens.go: the order of the kinds of token, and how a token is printed in a message.
use eyot.Prelude.{ℕ, Bool, Option, none, some, List, ◌++◌, Text, codes, ◌==◌}
use eyot.Token.Kinds.{Token, TokenType}

-- The place of a kind in the source's enumeration.
unfoldable pub type_code : TokenType → ℕ
type_code TokenType.integer = 0
type_code TokenType.float32 = 1
type_code TokenType.float64 = 2
type_code TokenType.identifier = 3
type_code TokenType.string = 4
type_code TokenType.character = 5
type_code TokenType.eof = 6
type_code TokenType.equals = 7
type_code TokenType.semicolon = 8
type_code TokenType.comma = 9
type_code TokenType.open_curly = 10
type_code TokenType.close_curly = 11
type_code TokenType.open_curved = 12
type_code TokenType.close_curved = 13
type_code TokenType.open_square = 14
type_code TokenType.close_square = 15
type_code TokenType.plus = 16
type_code TokenType.minus = 17
type_code TokenType.multiply = 18
type_code TokenType.divide = 19
type_code TokenType.less_than = 20
type_code TokenType.greater_than = 21
type_code TokenType.colon = 22
type_code TokenType.dot = 23
type_code TokenType.percent = 24
type_code TokenType.equality = 25
type_code TokenType.inequality = 26
type_code TokenType.less_than_or_equal = 27
type_code TokenType.greater_than_or_equal = 28
type_code TokenType.plus_equals = 29
type_code TokenType.minus_equals = 30
type_code TokenType.times_equals = 31
type_code TokenType.divide_equals = 32
type_code TokenType.scope_resolution = 33
type_code TokenType.null = 34
type_code TokenType.export = 35
type_code TokenType.function = 36
type_code TokenType.gpu_builtin = 37
type_code TokenType.break = 38
type_code TokenType.pipeline = 39
type_code TokenType.as_keyword = 40
type_code TokenType.range = 41
type_code TokenType.true_keyword = 42
type_code TokenType.false_keyword = 43
type_code TokenType.let_keyword = 44
type_code TokenType.const = 45
type_code TokenType.integer_keyword = 46
type_code TokenType.float32_keyword = 47
type_code TokenType.float64_keyword = 48
type_code TokenType.bool_keyword = 49
type_code TokenType.char_keyword = 50
type_code TokenType.string_keyword = 51
type_code TokenType.struct = 52
type_code TokenType.return = 53
type_code TokenType.if_keyword = 54
type_code TokenType.else_keyword = 55
type_code TokenType.else_if = 56
type_code TokenType.while = 57
type_code TokenType.and = 58
type_code TokenType.or = 59
type_code TokenType.not_keyword = 60
type_code TokenType.self = 61
type_code TokenType.new = 62
type_code TokenType.send = 63
type_code TokenType.receive = 64
type_code TokenType.drain = 65
type_code TokenType.foreach = 66
type_code TokenType.cpu = 67
type_code TokenType.gpu = 68
type_code TokenType.worker = 69
type_code TokenType.partial = 70
type_code TokenType.placeholder = 71
type_code TokenType.import = 72

abbrev pub same_type : TokenType → TokenType → Bool
same_type a b = type_code a == type_code b

-- Package fmt: `%v` of an int, of the bit pattern of an int64 and of a slice, and a text taken for a
-- format with no arguments.
pub record Format : Type 0 where
  pub int : ℕ → Text
  pub int64 : ℕ → Text
  pub sprintf : Text → Text
  pub texts : List Text → Text

-- The kinds that are printed by their name alone
unfoldable pub plain_name : TokenType → Option Text
plain_name TokenType.eof = some (codes "Eof")
plain_name TokenType.equals = some (codes "Equals")
plain_name TokenType.semicolon = some (codes "Semicolon")
plain_name TokenType.comma = some (codes "Comma")
plain_name TokenType.open_curly = some (codes "OpenCurly")
plain_name TokenType.close_curly = some (codes "CloseCurly")
plain_name TokenType.open_curved = some (codes "OpenCurved")
plain_name TokenType.close_curved = some (codes "CloseCurved")
plain_name TokenType.less_than = some (codes "LessThan")
plain_name TokenType.greater_than = some (codes "GreaterThan")
plain_name TokenType.equality = some (codes "Equality")
plain_name TokenType.inequality = some (codes "Inequality")
plain_name TokenType.less_than_or_equal = some (codes "LessThanOrEqual")
plain_name TokenType.greater_than_or_equal = some (codes "GreaterThanOrEqual")
plain_name TokenType.plus_equals = some (codes "PlusEquals")
plain_name TokenType.minus_equals = some (codes "MinusEquals")
plain_name TokenType.times_equals = some (codes "TimesEquals")
plain_name TokenType.divide_equals = some (codes "DivideEquals")
plain_name TokenType.scope_resolution = some (codes "ScopeResolution")
plain_name TokenType.null = some (codes "Null")
plain_name TokenType.export = some (codes "Export")
plain_name TokenType.function = some (codes "Function")
plain_name TokenType.gpu_builtin = some (codes "GpuBuiltin")
plain_name TokenType.pipeline = some (codes "Pipeline")
plain_name TokenType.as_keyword = some (codes "As")
plain_name TokenType.range = some (codes "Range")
plain_name TokenType.true_keyword = some (codes "True")
plain_name TokenType.false_keyword = some (codes "False")
plain_name TokenType.let_keyword = some (codes "Let")
plain_name TokenType.const = some (codes "Const")
plain_name TokenType.struct = some (codes "Struct")
plain_name TokenType.return = some (codes "Return")
plain_name TokenType.send = some (codes "Send")
plain_name TokenType.receive = some (codes "Receive")
plain_name TokenType.cpu = some (codes "Cpu")
plain_name TokenType.gpu = some (codes "Gpu")
plain_name TokenType.worker = some (codes "Worker")
plain_name TokenType.partial = some (codes "Partial")
plain_name TokenType.placeholder = some (codes "Placeholder")
plain_name _ = none

abbrev pub in_brackets : Text → Text → Text
in_brackets name text = name ++ (codes "(" ++ (text ++ codes ")"))

-- The `switch` of `Token.String`
unfoldable pub kind_string : Format → TokenType → Token → Text
unfolding plain_name type_code
kind_string f TokenType.integer t = in_brackets (codes "Integer") (f.int64 t.ival)
kind_string f TokenType.float32 t =
    in_brackets (codes "Float32") (f.int64 t.ival ++ (codes "." ++ f.int64 t.fval))
kind_string f TokenType.float64 t =
    in_brackets (codes "Float64") (f.int64 t.ival ++ (codes "." ++ f.int64 t.fval))
kind_string f TokenType.identifier t = in_brackets (codes "Identifier") t.tval
kind_string f TokenType.character t = in_brackets (codes "Character") (f.int64 t.ival)
kind_string f TokenType.string t = in_brackets (codes "String") t.tval
kind_string f ty t = elim (plain_name ty) [
  | some name ↦ name
  | none ↦ in_brackets (codes "Unknown") (f.int (type_code ty))
]

unfoldable pub token_string : Format → Token → Text
unfolding kind_string
token_string f t = kind_string f t.type t ++ (codes "[" ++ (f.int t.line ++ codes "]"))
