-- ===== src/Token/Junk.antt =====
-- src/token/tokeniser.go: white space, what opens and ends a comment, and when a newline calls for a
-- semicolon.
pub mod Whitespace
pub mod Stop
pub mod Comments
use eyot.Prelude.{
  ℕ, zero, suc, Bool, true, false, ◌&&◌, Option, none, some, codes, ◌==◌, if◌then◌else◌,
}
use eyot.Token.Kinds.{ends_statement}
use eyot.Token.State.{Tokeniser, contains_rune, get_next_rune, backup}

abbrev pub should_insert_semicolon : Tokeniser → Bool
should_insert_semicolon t = ends_statement t.last_token_type

abbrev pub note_newline : Tokeniser → Tokeniser
note_newline t = if should_insert_semicolon t then record t { pending_semicolon = true } else t

unfoldable pub is_blank : ℕ → Bool
is_blank = contains_rune (codes " \t")

unfoldable pub is_newline : ℕ → Bool
is_newline = contains_rune (codes "\r\n")

-- `none` where the fuel runs out.
unfoldable pub eat_whitespace_loop : ℕ → Tokeniser → Option Tokeniser
eat_whitespace_loop zero t = none
eat_whitespace_loop (suc fuel) t = elim (get_next_rune t) [
  | none ↦ some t
  | some (r, t') ↦ elim (is_blank r) [
    | true ↦ eat_whitespace_loop fuel t'
    | false ↦ elim (is_newline r) [
      | true ↦ eat_whitespace_loop fuel (note_newline t')
      | false ↦ some (backup t')
    ]
  ]
]

unfoldable pub ends_comment : ℕ → ℕ → Bool
ends_comment r1 r2 = r1 == b'*' && r2 == b'/'

-- What two runes begin: a line comment, a block comment, or neither.
pub data Opening : Type 0 where
  line_comment block_comment neither : Opening

unfoldable pub opening : ℕ → ℕ → Opening
opening r1 r2 =
    if r1 == b'/' && r2 == b'/'
    then Opening.line_comment
    else if r1 == b'/' && r2 == b'*'
    then Opening.block_comment
    else Opening.neither
