-- ===== src/Token/Lexeme/Surround.antt =====
-- The message about a rune that no table has: `currentSurround` slices the text around it.
use eyot.Prelude.{◌<◌, ◌≤◌, ◌≡◌, ◌↔◌, length, arith, panic}
use eyot.Token.Lexeme.{current_surround}
use eyot.Token.State.{Tokeniser}

-- With a text that is not empty, and the position in it or at its end, `currentSurround` panics
-- exactly at the end of the text: there it slices from the length to the length less one.
pub current_surround-panic :
    (t : Tokeniser)
    → 0 < length t.src
    → t.position ≤ length t.src
    → (current_surround t ≡ panic) ↔ (t.position ≡ length t.src)
unfolding current_surround
current_surround-panic t h le = ground arith
