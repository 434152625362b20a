-- ===== src/Tests/Lines.antt =====
-- The error log of src/errors, and the writer of src/output, at concrete values.
use eyot.Prelude.{Text, [], ◌∷◌, ℤ}

-- Stands for the `%v` of package fmt.
abbrev format_int : ℤ → Text
format_int (ℤ.pos n) = n ∷ []
format_int (ℤ.negsuc n) = b'-' ∷ n ∷ []
