-- ===== src/Ast/Functions/Entries.antt =====
-- `FunctionEntries` of src/ast/functions.go: the numbers by which functions are called.
use eyot.Prelude.{
  ℕ, ◌+◌, ◌≡◌, refl, Option, none, some, List, [], ◌∷◌, ◌++◌, length, Text, arith, lookup,
}
use eyot.Ast.Functions.{
  FunctionSet, FunctionGroup, FunctionEntry, ids_at, location_entries, set_entries, found_entries,
  key_entries, function_entries, function_locations, sorted_keys,
}
use eyot.Ast.Ids.{FunctionId}
use eyot.Ast.Types.{FunctionLocation}

-- Numbered from `n` on, without a gap.
abbrev pub IsNumbered : ℕ → List FunctionEntry → Type 0
IsNumbered n [] = Unit
IsNumbered n (e ∷ es) = (e.id ≡ n) × IsNumbered (n + 1) es

IsNumbered-append :
    (n m : ℕ) (es fs : List FunctionEntry)
    → IsNumbered n es
    → n + length es ≡ m
    → IsNumbered m fs
    → IsNumbered n (es ++ fs)
IsNumbered-append n m [] fs h e k = let same : m ≡ n = omega arith in rw same at k
IsNumbered-append n m (x ∷ es) fs h e k =
    (h.0, IsNumbered-append (n + 1) m es fs h.1 (omega arith) k)

location_entries-IsNumbered :
    (n : ℕ) (loc : FunctionLocation) (ids : List FunctionId)
    → IsNumbered n (location_entries n loc ids)
unfolding location_entries
location_entries-IsNumbered n loc [] = tt
location_entries-IsNumbered n loc (id ∷ ids) = (refl, location_entries-IsNumbered (n + 1) loc ids)

set_entries-IsNumbered :
    (n : ℕ) (locs : List FunctionLocation) (fs : FunctionSet) → IsNumbered n (set_entries n locs fs)
unfolding set_entries
set_entries-IsNumbered n [] fs = tt
set_entries-IsNumbered n (loc ∷ locs) fs =
    let ids = ids_at loc fs.all_ids in
    IsNumbered-append n _ (location_entries n loc ids) _ (location_entries-IsNumbered n loc ids)
      refl (set_entries-IsNumbered (n + length (location_entries n loc ids)) locs fs)

found_entries-IsNumbered : (n : ℕ) (o : Option FunctionSet) → IsNumbered n (found_entries n o)
unfolding found_entries
found_entries-IsNumbered n none = tt
found_entries-IsNumbered n (some fs) = set_entries-IsNumbered n function_locations fs

key_entries-IsNumbered :
    (n : ℕ) (ks : List Text) (fg : FunctionGroup) → IsNumbered n (key_entries n ks fg)
unfolding key_entries
key_entries-IsNumbered n [] fg = tt
key_entries-IsNumbered n (k ∷ ks) fg =
    IsNumbered-append n _ (found_entries n (lookup k fg)) _
      (found_entries-IsNumbered n (lookup k fg)) refl
      (key_entries-IsNumbered (n + length (found_entries n (lookup k fg))) ks fg)

-- The entries of a group are numbered 0, 1, 2, … in their order: no number is given twice.
pub function_entries-IsNumbered : (fg : FunctionGroup) → IsNumbered 0 (function_entries fg)
unfolding function_entries
function_entries-IsNumbered fg = key_entries-IsNumbered 0 (sorted_keys fg) fg
