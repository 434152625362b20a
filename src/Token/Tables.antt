-- ===== src/Token/Tables.antt =====
-- src/token/tokeniser.go: the three tables of `Tokenise`, and the look-ups of `getNextInner` in them.
pub mod NoEof
use eyot.Prelude.{
  ℕ, Bool, true, false, ◌&&◌, Option, none, some, List, [], ◌∷◌, codes, ◌==◌, text_eq,
  if◌then◌else◌,
}
use eyot.Token.Kinds.{TokenType}
use eyot.Token.State.{Runes}

abbrev pub keyword_map : List (Runes × TokenType)
keyword_map =
    (codes "partial", TokenType.partial)
    ∷ (codes "_", TokenType.placeholder)
    ∷ (codes "struct", TokenType.struct)
    ∷ (codes "self", TokenType.self)
    ∷ (codes "as", TokenType.as_keyword)
    ∷ (codes "new", TokenType.new)
    ∷ (codes "fn", TokenType.function)
    ∷ (codes "gpubuiltin", TokenType.gpu_builtin)
    ∷ (codes "null", TokenType.null)
    ∷ (codes "break", TokenType.break)
    ∷ (codes "range", TokenType.range)
    ∷ (codes "let", TokenType.let_keyword)
    ∷ (codes "const", TokenType.const)
    ∷ (codes "true", TokenType.true_keyword)
    ∷ (codes "false", TokenType.false_keyword)
    ∷ (codes "i64", TokenType.integer_keyword)
    ∷ (codes "f32", TokenType.float32_keyword)
    ∷ (codes "f64", TokenType.float64_keyword)
    ∷ (codes "bool", TokenType.bool_keyword)
    ∷ (codes "char", TokenType.char_keyword)
    ∷ (codes "string", TokenType.string_keyword)
    ∷ (codes "return", TokenType.return)
    ∷ (codes "if", TokenType.if_keyword)
    ∷ (codes "else", TokenType.else_keyword)
    ∷ (codes "elseif", TokenType.else_if)
    ∷ (codes "while", TokenType.while)
    ∷ (codes "and", TokenType.and)
    ∷ (codes "not", TokenType.not_keyword)
    ∷ (codes "or", TokenType.or)
    ∷ (codes "send", TokenType.send)
    ∷ (codes "receive", TokenType.receive)
    ∷ (codes "pipeline", TokenType.pipeline)
    ∷ (codes "cpu", TokenType.cpu)
    ∷ (codes "gpu", TokenType.gpu)
    ∷ (codes "worker", TokenType.worker)
    ∷ (codes "drain", TokenType.drain)
    ∷ (codes "import", TokenType.import)
    ∷ (codes "export", TokenType.export)
    ∷ (codes "for", TokenType.foreach)
    ∷ []

abbrev pub multichar_map : List (Runes × TokenType)
multichar_map =
    (codes "==", TokenType.equality)
    ∷ (codes "!=", TokenType.inequality)
    ∷ (codes "<=", TokenType.less_than_or_equal)
    ∷ (codes ">=", TokenType.greater_than_or_equal)
    ∷ (codes "+=", TokenType.plus_equals)
    ∷ (codes "-=", TokenType.minus_equals)
    ∷ (codes "*=", TokenType.times_equals)
    ∷ (codes "/=", TokenType.divide_equals)
    ∷ (codes "::", TokenType.scope_resolution)
    ∷ []

abbrev pub rune_map : List (ℕ × TokenType)
rune_map =
    (b'=', TokenType.equals)
    ∷ (b'(', TokenType.open_curved)
    ∷ (b')', TokenType.close_curved)
    ∷ (b'[', TokenType.open_square)
    ∷ (b']', TokenType.close_square)
    ∷ (b'{', TokenType.open_curly)
    ∷ (b'}', TokenType.close_curly)
    ∷ (b',', TokenType.comma)
    ∷ (b';', TokenType.semicolon)
    ∷ (b'+', TokenType.plus)
    ∷ (b'-', TokenType.minus)
    ∷ (b'*', TokenType.multiply)
    ∷ (b'/', TokenType.divide)
    ∷ (b'<', TokenType.less_than)
    ∷ (b'>', TokenType.greater_than)
    ∷ (b':', TokenType.colon)
    ∷ (b'.', TokenType.dot)
    ∷ (b'%', TokenType.percent)
    ∷ []

-- `runes[0] == r && runes[1] == nextRune`
abbrev pub spells : Runes → ℕ → ℕ → Bool
spells (a ∷ b ∷ _) r next = a == r && b == next
spells _ r next = false

-- The loop over the map: its keys differ, so that the order in which Go visits them is immaterial.
unfoldable pub find_multichar : List (Runes × TokenType) → ℕ → ℕ → Option TokenType
find_multichar [] r next = none
find_multichar ((str, ty) ∷ m) r next =
    if spells str r next then some ty else find_multichar m r next

unfoldable pub find_rune : List (ℕ × TokenType) → ℕ → Option TokenType
find_rune [] r = none
find_rune ((c, ty) ∷ m) r = if c == r then some ty else find_rune m r

unfoldable pub find_keyword : List (Runes × TokenType) → Runes → Option TokenType
find_keyword [] ident = none
find_keyword ((k, ty) ∷ m) ident = if text_eq k ident then some ty else find_keyword m ident
