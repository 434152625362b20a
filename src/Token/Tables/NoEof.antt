-- ===== src/Token/Tables/NoEof.antt =====
-- The kind `eof` and the tables of `Tokenise` in src/token/tokeniser.go.
use eyot.Prelude.{
  &&-true, not-true, Bool-cases, inl, inr, ℕ, ◌≡◌, refl, Bool, true, false, not, ◌&&◌, some, List,
  [], ◌∷◌, text_eq, ◌==◌,
}
use eyot.Token.Kinds.{TokenType, is_eof}
use eyot.Token.State.{Runes}
use eyot.Token.Tables.{
  keyword_map, multichar_map, rune_map, spells, find_multichar, find_rune, find_keyword,
}

-- No entry of the table is `eof`.
pub no_eof {ℓ} : {A : Type ℓ} → List (A × TokenType) → Bool
no_eof [] = true
no_eof ((_, ty) ∷ m) = not (is_eof ty) && no_eof m

pub no_eof_tables :
    (no_eof keyword_map ≡ true) × (no_eof multichar_map ≡ true) × (no_eof rune_map ≡ true)
unfolding no_eof is_eof
no_eof_tables = (refl, refl, refl)

pub find_multichar-is_eof :
    (m : List (Runes × TokenType)) (r next : ℕ) {ty : TokenType}
    → no_eof m ≡ true
    → find_multichar m r next ≡ some ty
    → is_eof ty ≡ false
unfolding no_eof find_multichar
find_multichar-is_eof [] r next h e = cc
find_multichar-is_eof ((s, k) ∷ m) r next {ty} h e =
    let (here, there) = &&-true (not (is_eof k)) (no_eof m) h in
    elim (Bool-cases (spells s r next)) [
      | inl hit ↦
          let same : some k ≡ some ty = rw hit at e in
          let kind : k ≡ ty = cc in rw kind at (not-true (is_eof k) here)
      | inr miss ↦ find_multichar-is_eof m r next there (rw miss at e)
    ]

pub find_rune-is_eof :
    (m : List (ℕ × TokenType)) (r : ℕ) {ty : TokenType}
    → no_eof m ≡ true
    → find_rune m r ≡ some ty
    → is_eof ty ≡ false
unfolding no_eof find_rune
find_rune-is_eof [] r h e = cc
find_rune-is_eof ((s, k) ∷ m) r {ty} h e =
    let (here, there) = &&-true (not (is_eof k)) (no_eof m) h in
    elim (Bool-cases (s == r)) [
      | inl hit ↦
          let same : some k ≡ some ty = rw hit at e in
          let kind : k ≡ ty = cc in rw kind at (not-true (is_eof k) here)
      | inr miss ↦ find_rune-is_eof m r there (rw miss at e)
    ]

pub find_keyword-is_eof :
    (m : List (Runes × TokenType)) (w : Runes) {ty : TokenType}
    → no_eof m ≡ true
    → find_keyword m w ≡ some ty
    → is_eof ty ≡ false
unfolding no_eof find_keyword
find_keyword-is_eof [] w h e = cc
find_keyword-is_eof ((s, k) ∷ m) w {ty} h e =
    let (here, there) = &&-true (not (is_eof k)) (no_eof m) h in
    elim (Bool-cases (text_eq s w)) [
      | inl hit ↦
          let same : some k ≡ some ty = rw hit at e in
          let kind : k ≡ ty = cc in rw kind at (not-true (is_eof k) here)
      | inr miss ↦ find_keyword-is_eof m w there (rw miss at e)
    ]
