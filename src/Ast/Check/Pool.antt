-- ===== src/Ast/Check/Pool.antt =====
-- `GetStringId` in src/ast/check.go and `GetStringPool` in src/program/program.go: the pool that
-- gives every string literal of the program a number.
use eyot.Prelude.{
  ℕ, zero, suc, ◌<◌, ◌≤◌, ◌≡◌, ◌≢◌, refl, sym, ap, ◌∙◌, Option, none, some, List, [], ◌∷◌, ◌++◌,
  length, get_elem?, All, length-append, Text, text_eq_iff, lookup, insert, lookup-insert, arith,
  Outcome, ok, panic, ◌>>=◌, NoError,
}

-- The map of the strings to their numbers
abbrev pub StringPool : Type 0
StringPool = List (Text × ℕ)

unfoldable pub id_or_next : StringPool → Text → Option ℕ → ℕ × StringPool
id_or_next pool s (some id) = (id, pool)
id_or_next pool s none = (length pool, insert s (length pool) pool)

unfoldable pub get_string_id : StringPool → Text → ℕ × StringPool
unfolding id_or_next
get_string_id pool s = id_or_next pool s (lookup s pool)

-- `pool[id] = s`, out of range a panic
unfoldable pub set_at : List Text → ℕ → Text → Outcome NoError (List Text)
set_at [] id s = panic
set_at (x ∷ xs) zero s = ok (s ∷ xs)
set_at (x ∷ xs) (suc id) s = set_at xs id s >>= λ ys. ok (x ∷ ys)

-- The loop over the map
unfoldable pub fill : StringPool → List Text → Outcome NoError (List Text)
unfolding set_at
fill [] texts = ok texts
fill ((s, id) ∷ pool) texts = set_at texts id s >>= fill pool

-- `make([]string, len(p.Strings))`
abbrev pub blanks : StringPool → List Text
blanks [] = []
blanks (_ ∷ pool) = [] ∷ blanks pool

unfoldable pub get_string_pool : StringPool → Outcome NoError (List Text)
unfolding fill
get_string_pool pool = fill pool (blanks pool)

-- Numbers below the bound, no two the same.
abbrev pub Apart : StringPool → Type 0
Apart [] = Unit
Apart ((s, id) ∷ pool) = All (λ e. id ≢ e.1) pool × Apart pool

abbrev pub IsPool : StringPool → Type 0
IsPool pool = All (λ e. e.1 < length pool) pool × Apart pool

after_head :
    (s x : Text) (xs : List Text) (j : ℕ) → 0 ≢ j → get_elem? (s ∷ xs) j ≡ get_elem? (x ∷ xs) j
after_head s x xs zero n = absurd (n refl)
after_head s x xs (suc j) n = refl

behind_head :
    (x : Text) (r xs : List Text) (id : ℕ)
    → ((j : ℕ) → id ≢ j → get_elem? r j ≡ get_elem? xs j)
    → (j : ℕ) → suc id ≢ j
    → get_elem? (x ∷ r) j ≡ get_elem? (x ∷ xs) j
behind_head x r xs id kept zero n = refl
behind_head x r xs id kept (suc j) n = kept j λ p. n (ap suc p)

set_at-get_elem? :
    (texts : List Text) (id : ℕ) (s : Text)
    → id < length texts
    → (r : List Text) × (set_at texts id s ≡ ok r)
      × (get_elem? r id ≡ some s)
      × (length r ≡ length texts)
      × ((j : ℕ) → id ≢ j → get_elem? r j ≡ get_elem? texts j)
unfolding set_at
set_at-get_elem? [] id s h = absurd (omega arith)
set_at-get_elem? (x ∷ xs) zero s h = (s ∷ xs, refl, refl, refl, after_head s x xs)
set_at-get_elem? (x ∷ xs) (suc id) s h =
    let (r, e, found, len, kept) = set_at-get_elem? xs id s (omega arith) in
    (x ∷ r, ap (λ m. m >>= λ ys. ok (x ∷ ys)) e, found, ap suc len, behind_head x r xs id kept)

fill-All :
    (pool : StringPool) (texts : List Text)
    → All (λ e. e.1 < length texts) pool
    → Apart pool
    → (r : List Text) × (fill pool texts ≡ ok r)
      × All (λ e. get_elem? r (e.1) ≡ some (e.0)) pool
      × ((j : ℕ) → All (λ e. j ≢ e.1) pool → get_elem? r j ≡ get_elem? texts j)
unfolding fill
fill-All [] texts below apart = (texts, refl, tt, λ j a. refl)
fill-All ((s, id) ∷ pool) texts (h, below) (fresh, apart) =
    let (mid, e, found, len, kept) = set_at-get_elem? texts id s h in
    let (r, e', all, kept') = fill-All pool mid (rw len below) apart in
    (
      r,
      ap (λ m. m >>= fill pool) e ∙ e',
      (kept' id fresh ∙ found, all),
      λ j (n, ns). kept' j ns ∙ kept j (λ p. n (sym p)),
    )

length-blanks : (pool : StringPool) → length (blanks pool) ≡ length pool
length-blanks [] = refl
length-blanks (_ ∷ pool) = ap suc (length-blanks pool)

-- Where the numbers of the strings are below their count and apart, `GetStringPool` does not panic
-- and has every string at its number.
pub get_string_pool-All :
    (pool : StringPool)
    → IsPool pool
    → (r : List Text) × (get_string_pool pool ≡ ok r)
      × All (λ e. get_elem? r (e.1) ≡ some (e.0)) pool
unfolding get_string_pool
get_string_pool-All pool (below, apart) =
    let (r, e, all, _) = fill-All pool (blanks pool) (rw (length-blanks pool) below) apart in
    (r, e, all)

insert-fresh :
    (s : Text) (n : ℕ) (pool : StringPool)
    → lookup s pool ≡ none
    → insert s n pool ≡ pool ++ ((s, n) ∷ [])
unfolding lookup insert
insert-fresh s n [] h = refl
insert-fresh s n ((t, id) ∷ pool) h = ground (arith, insert-fresh s n pool)

All-below :
    (n m : ℕ) (pool : StringPool) → n ≤ m → All (λ e. e.1 < n) pool → All (λ e. e.1 < m) pool
All-below n m [] h a = tt
All-below n m (_ ∷ pool) h (b, a) = (omega arith, All-below n m pool h a)

All-append :
    (P : Text × ℕ → Type 0) (pool : StringPool) (x : Text × ℕ)
    → All P pool
    → P x
    → All P (pool ++ (x ∷ []))
All-append P [] x a p = (p, tt)
All-append P (_ ∷ pool) x (q, a) p = (q, All-append P pool x a p)

Apart-append :
    (pool : StringPool) (s : Text) (n : ℕ)
    → All (λ e. e.1 < n) pool
    → Apart pool
    → Apart (pool ++ ((s, n) ∷ []))
Apart-append [] s n below apart = (tt, tt)
Apart-append ((t, id) ∷ pool) s n (h, below) (fresh, apart) = (
  All-append _ pool (s, n) fresh (λ e. absurd (omega (arith, e))),
  Apart-append pool s n below apart,
)

IsPool-append :
    (pool : StringPool) (s : Text) → IsPool pool → IsPool (pool ++ ((s, length pool) ∷ []))
IsPool-append pool s (below, apart) = (
  rw (length-append pool ((s, length pool) ∷ [])) (
      All-append _ pool (s, length pool) (All-below (length pool) _ pool (omega arith) below)
        (omega arith)),
  Apart-append pool s (length pool) below apart,
)

abbrev pub HasId : StringPool → Text → ℕ × StringPool → Type 0
HasId pool s (id, pool') =
    IsPool pool'
    × (lookup s pool' ≡ some id)
    × ((t : Text) → t ≢ s → lookup t pool' ≡ lookup t pool)

id_or_next-HasId :
    (pool : StringPool) (s : Text) (o : Option ℕ)
    → lookup s pool ≡ o
    → IsPool pool
    → HasId pool s (id_or_next pool s o)
unfolding id_or_next
id_or_next-HasId pool s (some id) e good = (good, e, λ t n. refl)
id_or_next-HasId pool s none e good = (
  rw (insert-fresh s (length pool) pool e) (IsPool-append pool s good),
  lookup-insert s s (length pool) pool ∙ ground (arith, text_eq_iff s s),
  λ t n. lookup-insert s t (length pool) pool ∙ ground (arith, text_eq_iff s t),
)

-- `GetStringId` on a pool whose numbers are below the count and apart: the pool stays so, the
-- string has the number that is returned, and every other string is found as before.
pub get_string_id-HasId :
    (pool : StringPool) (s : Text) → IsPool pool → HasId pool s (get_string_id pool s)
unfolding get_string_id
get_string_id-HasId pool s good = id_or_next-HasId pool s (lookup s pool) refl good
