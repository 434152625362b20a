-- ===== src/Tests/Tokens.antt =====
-- The tokeniser of src/token on short texts.
use eyot.Prelude.{
  Option, none, Bool, ℕ, ◌≢◌, returned, ◌+◌, ◌≡◌, ◌↔◌, refl, true, some, List, codes, length,
  take_while, arith, Outcome, ok, panic, Post, ◌%◌,
}
use eyot.Token.Kinds.{Token, TokenType, ends_statement}
use eyot.Token.State.Gather.{gather_loop, eat2_loop}
use eyot.Token.State.{Runes, Tokeniser, contains_rune, get_next_rune, backup}
use eyot.Token.State.Advance.{newlines, remaining, advance, backup-get_next_rune}
use eyot.Token.Junk.{opening, eat_whitespace_loop, is_blank, is_newline, should_insert_semicolon}
use eyot.Token.Junk.Whitespace.{is_space, settle, eat_whitespace, eat_whitespace-settle}
use eyot.Token.Junk.Stop.{Stops, eat_junk_loop, eat_junk, eat_junk-Stops, inner_loops_return}
use eyot.Token.Junk.Comments.{eat_junk-closed, eat_junk-Unclosed}
use eyot.Token.Tables.{find_multichar, find_rune}
use eyot.Token.Lexeme.{
  TokenError, get_next_inner, convert_number, i64_mod, current_surround, token_of,
}
use eyot.Token.Lexeme.Progress.{Steps, get_next_inner-Post}
use eyot.Token.Lexeme.Numbers.{decimal_from, convert_number-decimal_from}
use eyot.Token.Lexeme.Surround.{current_surround-panic}
use eyot.Token.Loop.{initial, get_next, tokenise}
use eyot.Token.Loop.Total.{Closed, tokenise-Closed}
use eyot.Token.Loop.Semicolons.{semicolon_after_held}

abbrev program : Runes
program = codes "fn f() {\n  let a = 12 // twelve\n}\n"

tokenise-Closed_example :
    (o : Outcome TokenError (List Token)) × (tokenise program ≡ some o)
    × Post (Closed 1 (1 + newlines program)) o
tokenise-Closed_example = tokenise-Closed program

abbrev junk_text : Tokeniser
junk_text = initial (codes " \t/*a*/ // b\n x")

eat_junk-Stops_example : Stops junk_text (eat_junk junk_text)
eat_junk-Stops_example = eat_junk-Stops junk_text

eat_whitespace-settle_example :
    eat_whitespace junk_text ≡ settle junk_text (take_while is_space (remaining junk_text))
eat_whitespace-settle_example = eat_whitespace-settle junk_text

-- A block comment without an end
abbrev open_comment : Tokeniser
open_comment = initial (codes "x /* y")

inner_loops_return_example :
    ((rs : Option Runes) (test : ℕ → Bool) → gather_loop 7 open_comment rs test ≢ none)
    × ((test : ℕ → ℕ → Bool) → eat2_loop 7 open_comment test ≢ none)
    × (eat_whitespace_loop 7 open_comment ≢ none)
    × (eat_junk_loop 7 open_comment ≢ none)
inner_loops_return_example = inner_loops_return open_comment

eat_junk-closed_example : remaining (eat_junk (initial (codes "/*a*/x"))) ≡ codes "x"
eat_junk-closed_example =
    eat_junk-closed (initial (codes "/*a*/x")) (codes "a") (codes "x") refl (refl, tt) refl

eat_junk-Unclosed_example : remaining (eat_junk (initial (codes "/*ab"))) ≡ codes "b"
eat_junk-Unclosed_example =
    eat_junk-Unclosed (initial (codes "/*ab")) (codes "a") b'b' refl (refl, tt) refl

backup-get_next_rune_example :
    backup (advance (initial (codes "\nb")) (codes "\n")) ≡ initial (codes "\nb")
unfolding get_next_rune
backup-get_next_rune_example =
    backup-get_next_rune (initial (codes "\nb")) (advance (initial (codes "\nb")) (codes "\n"))
      b'\n' refl

get_next_inner-Post_example :
    Post (Steps (initial (codes "ab 1"))) (get_next_inner (initial (codes "ab 1")))
get_next_inner-Post_example = get_next_inner-Post (initial (codes "ab 1"))

convert_number-decimal_from_example :
    convert_number (codes "907") ≡ decimal_from 0 (codes "907") % i64_mod
convert_number-decimal_from_example =
    convert_number-decimal_from (codes "907")
      ((omega arith, omega arith), ((omega arith, omega arith), ((omega arith, omega arith), tt)))

abbrev at_end : Tokeniser
at_end = advance (initial (codes "@")) (codes "@")

current_surround-panic_example :
    (current_surround at_end ≡ panic) ↔ (at_end.position ≡ length at_end.src)
current_surround-panic_example = current_surround-panic at_end (omega arith) (omega arith)

-- An identifier was read, and a line with one token follows.
abbrev before_line : Tokeniser
before_line = record (initial (codes "\n)\n")) { last_token_type = TokenType.identifier }

abbrev holds_curved : Tokeniser
holds_curved = record (advance before_line (codes "\n)")) {
  pending_token = some (token_of TokenType.close_curved);
}

semicolon_after_held_example :
    (TokenType.semicolon ≡ TokenType.semicolon)
    × (ends_statement TokenType.identifier ≡ true)
    × (t2 : Tokeniser) × (get_next holds_curved ≡ ok (token_of TokenType.close_curved, t2))
    × (should_insert_semicolon t2 ≡ true)
unfolding get_next get_next_inner get_next_rune eat_junk eat_junk_loop eat_whitespace
    eat_whitespace_loop is_blank contains_rune is_newline ends_statement backup opening
    find_multichar find_rune returned
semicolon_after_held_example =
    semicolon_after_held before_line holds_curved (token_of TokenType.semicolon)
      (token_of TokenType.close_curved) refl refl refl refl
