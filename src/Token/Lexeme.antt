-- ===== src/Token/Lexeme.antt =====
-- src/token/tokeniser.go: the reading of one token.
pub mod Progress
pub mod Numbers
pub mod Surround
use eyot.Prelude.{
  ℕ, zero, suc, ◌+◌, ◌-◌, ◌*◌, ◌%◌, ◌^◌, Bool, true, false, ◌&&◌, Option, none, some, List, [], ◌∷◌,
  length, codes, take, drop, ◌==◌, ltb, leb, text_eq, if◌then◌else◌, Outcome, ok, err, panic, ◌>>=◌,
}
use eyot.Token.Kinds.{Token, TokenType}
use eyot.Token.Junk.Stop.{eat_junk}
use eyot.Token.Tables.{
  keyword_map, multichar_map, rune_map, find_multichar, find_rune, find_keyword,
}
use eyot.Token.State.{
  Runes, Tokeniser, is_identifier_start, is_identifier, is_digit, is_zero, not_end_string,
  get_next_rune, peek_next_rune,
}
use eyot.Token.State.Gather.{gather}

-- An `int64` is kept as its bit pattern, and `r - '0'` is taken modulo 2^64.
abbrev pub i64_mod : ℕ
i64_mod = 2 ^ 64

unfoldable pub digit_value : ℕ → ℕ
digit_value r = (r + i64_mod - b'0') % i64_mod

unfoldable pub convert_number_from : ℕ → Runes → ℕ
convert_number_from val [] = val
convert_number_from val (r ∷ rs) = convert_number_from ((val * 10 + digit_value r) % i64_mod) rs

unfoldable pub convert_number : Runes → ℕ
convert_number = convert_number_from 0

pub data TokenError : Type 0 where
  nothing_after_quote no_escape no_end_rune no_end_character eof_in_string : TokenError
  unknown_escape : ℕ → TokenError
  unable_to_tokenise : Runes → Runes → Runes → TokenError

abbrev pub Lexed : Type 0
Lexed = Outcome TokenError (Token × Tokeniser)

abbrev pub blank_token : Token
blank_token = record {
  type = TokenType.integer;
  tval = [];
  ival = 0;
  fval_zeros = 0;
  fval = 0;
  line = 0;
}

abbrev pub token_of : TokenType → Token
token_of ty = record blank_token { type = ty }

-- A call of `getNextRune` whose rune is not looked at.
unfoldable pub skip_rune : Tokeniser → Tokeniser
skip_rune t = elim (get_next_rune t) [ none ↦ t | some (_, t') ↦ t' ]

abbrev pub runes_of : Option Runes → Runes
runes_of none = []
runes_of (some rs) = rs

-- The branch of `getNextInner` for a number that begins with `r`.
unfoldable pub lex_number : ℕ → Tokeniser → Token × Tokeniser
lex_number r t =
    let (rs, t1) = gather t (some (r ∷ [])) is_digit in
    let nr = peek_next_rune t1 in
    let (zs, t3) = gather (skip_rune t1) (some []) is_zero in
    let (nrs, t4) = gather t3 (some []) is_digit in
    let is_single = peek_next_rune t4 == b'f' in
    if nr == b'.'
    then (
      record {
        type = if is_single then TokenType.float32 else TokenType.float64;
        tval = [];
        ival = convert_number (runes_of rs);
        fval_zeros = length (runes_of zs);
        fval = convert_number (runes_of nrs);
        line = 0;
      },
      if is_single then skip_rune t4 else t4,
    )
    else if nr == b'f'
    then (record (token_of TokenType.float32) { ival = convert_number (runes_of rs) }, skip_rune t1)
    else (record (token_of TokenType.integer) { ival = convert_number (runes_of rs) }, t1)

-- The branch for an identifier or a keyword.
unfoldable pub lex_word : ℕ → Tokeniser → Token × Tokeniser
lex_word r t =
    let (rs, t') = gather t (some (r ∷ [])) is_identifier in
    elim (find_keyword keyword_map (runes_of rs)) [
      | some kw ↦ (token_of kw, t')
      | none ↦ (record (token_of TokenType.identifier) { tval = runes_of rs }, t')
    ]

unfoldable pub unescape : ℕ → Outcome TokenError ℕ
unescape esc =
    if esc == b'n'
    then ok 10
    else if esc == b'r'
    then ok 13
    else if esc == b't'
    then ok 9
    else err (TokenError.unknown_escape esc)

-- `getNextRune`, with the error that the caller returns at the end of the text.
abbrev pub rune_or : TokenError → Tokeniser → Outcome TokenError (ℕ × Tokeniser)
rune_or e t = elim (get_next_rune t) [ none ↦ err e | some p ↦ ok p ]

-- The rune that `chr` stands for, with what follows a backslash read.
unfoldable pub literal_rune : ℕ → Tokeniser → Outcome TokenError (ℕ × Tokeniser)
unfolding unescape
literal_rune chr t =
    if chr == b'\\'
    then (do (esc, t') ← rune_or TokenError.no_escape t; ichr ← unescape esc; ok (ichr, t'))
    else ok (chr, t)

-- The test of the closing quote.
unfoldable pub close_character : ℕ → ℕ → Tokeniser → Lexed
close_character ichr close t =
    if close == b'\''
    then ok (record (token_of TokenType.character) { ival = ichr }, t)
    else err TokenError.no_end_character

-- The branch for a character literal, behind its opening quote.
unfoldable pub lex_character : Tokeniser → Lexed
unfolding literal_rune close_character
lex_character t = do
  (chr, t1) ← rune_or TokenError.nothing_after_quote t
  (ichr, t2) ← literal_rune chr t1
  (close, t3) ← rune_or TokenError.no_end_rune t2
  close_character ichr close t3

-- The branch for a string, behind its opening quote.
unfoldable pub lex_string : Tokeniser → Lexed
lex_string t =
    let (contents, t') = gather t (some []) not_end_string in
    elim (get_next_rune t') [
      | none ↦ err TokenError.eof_in_string
      | some (_, t'') ↦ ok (record (token_of TokenType.string) { tval = runes_of contents }, t'')
    ]

-- `xs[a:b]`, which panics unless `a <= b` and `b` is in range.
unfoldable pub slice : Runes → ℕ → ℕ → Outcome TokenError Runes
slice xs a b = if leb a b && leb b (length xs) then ok (take (b - a) (drop a xs)) else panic

abbrev pub surround_size : ℕ
surround_size = 10

-- An index that reaches the end of the text is put back to `len(t.src) - 1`.
abbrev pub clamp_index : Tokeniser → ℕ → ℕ
clamp_index t i = if leb (length t.src) i then length t.src - 1 else i

unfoldable pub current_surround : Tokeniser → Outcome TokenError (Runes × Runes × Runes)
unfolding slice
current_surround t =
    let la = t.position - surround_size in
    let lb = t.position in
    let ra = clamp_index t (t.position + 1) in
    let rb = clamp_index t (t.position + 1 + surround_size) in
    do lead ← slice t.src la lb; c ← slice t.src lb ra; tail ← slice t.src ra rb; ok (lead, c, tail)

-- What `getNextInner` does with a rune that the tables do not have.
unfoldable pub lex_other : ℕ → Tokeniser → Lexed
lex_other r t =
    if is_digit r
    then ok (lex_number r t)
    else if is_identifier_start r
    then ok (lex_word r t)
    else if r == b'\''
    then lex_character t
    else if r == b'"'
    then lex_string t
    else (current_surround t >>= λ (lead, c, tail). err (TokenError.unable_to_tokenise lead c tail))

-- What `getNextInner` does with the rune `r` that it has read.
unfoldable pub lex_rune : ℕ → Tokeniser → Lexed
lex_rune r t = elim (find_multichar multichar_map r (peek_next_rune t)) [
  | some ty ↦ ok (token_of ty, skip_rune t)
  | none ↦ elim (find_rune rune_map r) [ some ty ↦ ok (token_of ty, t) | none ↦ lex_other r t ]
]

unfoldable pub get_next_inner : Tokeniser → Lexed
unfolding lex_rune lex_other
get_next_inner t =
    let t0 = eat_junk t in
    elim (get_next_rune t0) [
      | none ↦ ok (token_of TokenType.eof, t0)
      | some (r, t1) ↦ lex_rune r t1
    ]
