-- ===== src/Token/Junk/Comments.antt =====
-- `eatJunk` of src/token/tokeniser.go against the relation `Junk`, and the ends of block comments.
use eyot.Prelude.{ℕ, ◌≡◌, ◌≢◌, refl, true, false, [], ◌∷◌, ◌++◌, ◌==◌, ◌&&◌, arith}
use eyot.Token.Junk.Stop.{
  opens_comment, behind_block, StartsToken, Junk, done, space, line, block, eat_junk,
  eat_junk-Stops,
}
use eyot.Token.Junk.Whitespace.{is_space}
use eyot.Token.State.Advance.{remaining}
use eyot.Token.State.{Runes, Tokeniser}

StartsToken-head : (c : ℕ) (xs : Runes) → StartsToken (c ∷ xs) → is_space c ≡ false
StartsToken-head c [] s = s
StartsToken-head c (d ∷ xs) s = s.0

-- White space is no comment, and the two comments differ.
white-slash : {c d e : ℕ} → is_space c ≡ true → ¬ ((c ≡ b'/') × (d ≡ e))
white-slash h (k, _) = ground (arith, h, k)

line-block : {c d : ℕ} → (c ≡ b'/') × (d ≡ b'/') → ¬ ((c ≡ b'/') × (d ≡ b'*'))
line-block (_, h) (_, k) = omega (arith, h, k)

line-opens : {c d : ℕ} → (c ≡ b'/') × (d ≡ b'/') → opens_comment c d ≢ false
line-opens (h, k) e = ground (arith, h, k, e)

block-opens : {c d : ℕ} → (c ≡ b'/') × (d ≡ b'*') → opens_comment c d ≢ false
block-opens (h, k) e = ground (arith, h, k, e)

Junk-unique :
    {xs ys zs : Runes} → Junk xs ys → Junk xs zs → StartsToken ys → StartsToken zs → ys ≡ zs
Junk-unique done done s u = refl
Junk-unique (done {xs = c ∷ xs}) (space h k) s u = cc (StartsToken-head c xs s)
Junk-unique done (line h k) s u = absurd (line-opens h s.1)
Junk-unique done (block h k) s u = absurd (block-opens h s.1)
Junk-unique (space {c} {xs} h j) done s u = cc (StartsToken-head c xs u)
Junk-unique (space h j) (space h' k) s u = Junk-unique j k s u
Junk-unique (space h j) (line h' k) s u = absurd (white-slash h h')
Junk-unique (space h j) (block h' k) s u = absurd (white-slash h h')
Junk-unique (line h j) done s u = absurd (line-opens h u.1)
Junk-unique (line h j) (space h' k) s u = absurd (white-slash h' h)
Junk-unique (line h j) (line h' k) s u = Junk-unique j k s u
Junk-unique (line h j) (block h' k) s u = absurd (line-block h h')
Junk-unique (block h j) done s u = absurd (block-opens h u.1)
Junk-unique (block h j) (space h' k) s u = absurd (white-slash h' h)
Junk-unique (block h j) (line h' k) s u = absurd (line-block h' h)
Junk-unique (block h j) (block h' k) s u = Junk-unique j k s u

-- `eatJunk` leaves what stands behind the white space and the comments at the front of the text, where
-- a block comment without an end leaves its last rune.
remaining-eat_junk :
    (t : Tokeniser) (ys : Runes)
    → Junk (remaining t) ys
    → StartsToken ys
    → remaining (eat_junk t) ≡ ys
remaining-eat_junk t ys j s =
    let stops = eat_junk-Stops t in Junk-unique stops.skips j stops.starts s

-- No `*/` stands in the text.
abbrev pub Unclosed : Runes → Type 0
Unclosed [] = Unit
Unclosed (c ∷ []) = Unit
Unclosed (c ∷ d ∷ xs) = (c == b'*' && d == b'/' ≡ false) × Unclosed (d ∷ xs)

behind_block-Unclosed :
    (xs : Runes) (c : ℕ) → Unclosed (xs ++ c ∷ []) → behind_block (xs ++ c ∷ []) ≡ c ∷ []
behind_block-Unclosed [] c u = refl
behind_block-Unclosed (a ∷ []) c u = rw u.0
behind_block-Unclosed (a ∷ b ∷ xs) c u = rw u.0 (behind_block-Unclosed (b ∷ xs) c u.1)

behind_block-closed :
    (xs rest : Runes) → Unclosed (xs ++ b'*' ∷ []) → behind_block (xs ++ b'*' ∷ b'/' ∷ rest) ≡ rest
behind_block-closed [] rest u = refl
behind_block-closed (a ∷ []) rest u = rw u.0
behind_block-closed (a ∷ b ∷ xs) rest u = rw u.0 (behind_block-closed (b ∷ xs) rest u.1)

-- A block comment goes on to the first `*/`. What stands behind it is read next, if that begins a
-- token.
pub eat_junk-closed :
    (t : Tokeniser) (xs rest : Runes)
    → remaining t ≡ b'/' ∷ b'*' ∷ (xs ++ b'*' ∷ b'/' ∷ rest)
    → Unclosed (xs ++ b'*' ∷ [])
    → StartsToken rest
    → remaining (eat_junk t) ≡ rest
eat_junk-closed t xs rest h u s =
    remaining-eat_junk t rest (rw h (block (refl, refl) (rw (behind_block-closed xs rest u) done)))
      s

-- A block comment without an end does not take the rest of the text: its last rune is read as a
-- token, if it is no white space.
pub eat_junk-Unclosed :
    (t : Tokeniser) (xs : Runes) (c : ℕ)
    → remaining t ≡ b'/' ∷ b'*' ∷ (xs ++ c ∷ [])
    → Unclosed (xs ++ c ∷ [])
    → is_space c ≡ false
    → remaining (eat_junk t) ≡ c ∷ []
eat_junk-Unclosed t xs c h u s =
    remaining-eat_junk t (c ∷ [])
      (rw h (block (refl, refl) (rw (behind_block-Unclosed xs c u) done))) s
