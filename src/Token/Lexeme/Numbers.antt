-- ===== src/Token/Lexeme/Numbers.antt =====
-- `convertNumber` of src/token/tokeniser.go and the value of a decimal numeral.
use eyot.Prelude.{ℕ, ◌+◌, ◌-◌, ◌*◌, ◌%◌, ◌≤◌, ◌≡◌, [], ◌∷◌, All, arith}
use eyot.Token.Lexeme.{digit_value, convert_number_from, convert_number, i64_mod}
use eyot.Token.State.{Runes}

-- The number that decimal digits stand for, read on from `acc`.
abbrev pub decimal_from : ℕ → Runes → ℕ
decimal_from acc [] = acc
decimal_from acc (r ∷ rs) = decimal_from (acc * 10 + (r - b'0')) rs

abbrev pub IsNumeral : Runes → Type 0
IsNumeral = All (λ r. (b'0' ≤ r) × (r ≤ b'9'))

convert_number_from-decimal_from :
    (rs : Runes) (val acc : ℕ)
    → IsNumeral rs
    → val ≡ acc % i64_mod
    → convert_number_from val rs ≡ decimal_from acc rs % i64_mod
unfolding convert_number_from digit_value
convert_number_from-decimal_from [] val acc h e = e
convert_number_from-decimal_from (r ∷ rs) val acc h e =
    convert_number_from-decimal_from rs _ (acc * 10 + (r - b'0')) h.1 (omega arith)

-- `convertNumber` of decimal digits is their number modulo 2^64, whatever their count.
pub convert_number-decimal_from :
    (rs : Runes) → IsNumeral rs → convert_number rs ≡ decimal_from 0 rs % i64_mod
unfolding convert_number
convert_number-decimal_from rs h = convert_number_from-decimal_from rs 0 0 h (omega arith)
