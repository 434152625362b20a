-- ===== src/Token/State.antt =====
-- src/token/tokeniser.go: the state of the tokeniser, and the moves over the source text.
pub mod Advance
pub mod Gather
pub mod Reads
use eyot.Prelude.{
  ℕ, zero, suc, ◌+◌, ◌-◌, Bool, true, false, ◌||◌, Option, none, some, List, [], ◌∷◌, ◌++◌, length,
  get_elem?, codes, ◌==◌, if◌then◌else◌, map,
}
use eyot.Token.Kinds.{Token, TokenType}
use mathlib.Core.Option

-- Runes are code points; a Go string of runes is the list of them.
abbrev pub Runes : Type 0
Runes = List ℕ

pub record TokeniserState : Type 0 where
  pub line : ℕ
  pub position : ℕ

-- `tkns` is the accumulator of `tokenise_loop`, and the three maps are constants of Lexeme.
pub record Tokeniser : Type 0 where
  pub src : Runes
  pub state : TokeniserState
  pub open state use *
  pub pending_token : Option Token
  pub pending_semicolon : Bool
  pub last_token_type : TokenType

-- `strings.ContainsRune`
unfoldable pub contains_rune : Runes → ℕ → Bool
contains_rune [] r = false
contains_rune (c ∷ cs) r = c == r || contains_rune cs r

unfoldable pub is_identifier_start : ℕ → Bool
is_identifier_start = contains_rune (codes "ABCDEFGHIJKLMNOPQRSTUVWXYZabcdefghijklmnopqrstuvwxyz_")

unfoldable pub is_zero : ℕ → Bool
is_zero r = r == b'0'

unfoldable pub is_digit : ℕ → Bool
is_digit = contains_rune (codes "0123456789")

unfoldable pub is_identifier : ℕ → Bool
is_identifier r = is_identifier_start r || is_digit r

unfoldable pub not_end_string : ℕ → Bool
not_end_string r = if r == b'"' then false else true

unfoldable pub is_not_eol : ℕ → Bool
is_not_eol r = if r == b'\n' || r == b'\r' then false else true

-- The rune and the advanced tokeniser, or `none` at the end, where nothing changes.
unfoldable pub get_next_rune : Tokeniser → Option (ℕ × Tokeniser)
get_next_rune t = elim (get_elem? t.src t.position) [
  | none ↦ none
  | some r ↦ some (
    r,
    record t {
      state = record {
        line = if r == b'\n' then t.line + 1 else t.line;
        position = t.position + 1;
      };
    },
  )
]

abbrev pub get_save_point : Tokeniser → TokeniserState
get_save_point t = t.state

abbrev pub restore_save_point : Tokeniser → TokeniserState → Tokeniser
restore_save_point t s = record t { state = s }

-- The rune alone, or 0: the source restores the save point on the path that moved.
unfoldable pub peek_next_rune : Tokeniser → ℕ
peek_next_rune t = elim (get_next_rune t) [ none ↦ 0 | some (r, _) ↦ r ]

unfoldable pub backup : Tokeniser → Tokeniser
unfolding peek_next_rune
backup t =
    let t' = restore_save_point t (record { line = t.line; position = t.position - 1 }) in
    if peek_next_rune t' == b'\n'
    then restore_save_point t' (record { line = t'.line - 1; position = t'.position })
    else t'
