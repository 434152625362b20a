-- ===== src/Ast/Functions.antt =====
-- src/ast/functions.go: signatures, and the functions of a program grouped by their signatures.
pub mod Group
pub mod Entries
use eyot.Prelude.{
  ℕ, zero, suc, ◌+◌, Bool, true, false, not, ◌&&◌, ◌||◌, Option, none, some, List, [], ◌∷◌, ◌++◌,
  codes, text_eq, Text, ltb, length, ◌==◌, lookup, insert, if◌then◌else◌, Outcome, ok, err, panic,
  ◌>>=◌, NoError,
}
use eyot.Ast.Ids.{FunctionId, function_is_equal}
use eyot.Ast.Types.Names.{Written, raw_identifier}
use eyot.Ast.Types.{Types, nil, cons, FunctionLocation, FunctionSignature, count_types}

-- The identifiers of the parameters, with `_` between them.
unfoldable pub write_parameters : Text → Types → Written
write_parameters sep nil = ok []
write_parameters sep (cons t ts) =
    raw_identifier t >>= λ a. write_parameters (codes "_") ts >>= λ b. ok (sep ++ (a ++ b))

unfoldable pub map_key : FunctionSignature → Written
unfolding write_parameters
map_key fs = raw_identifier fs.return_type >>= λ r.
    write_parameters [] fs.types >>= λ ps. ok (r ++ (codes "__" ++ ps))

unfoldable pub signature_is_equal : FunctionSignature → FunctionSignature → Outcome NoError Bool
signature_is_equal fs ofs = map_key fs >>= λ a. map_key ofs >>= λ b. ok (text_eq a b)

abbrev pub function_locations : List FunctionLocation
function_locations = FunctionLocation.cpu ∷ FunctionLocation.gpu ∷ FunctionLocation.anywhere ∷ []

-- `map[FunctionLocation][]FunctionId`: `NewFunctionSet` gives it all three keys.
pub record AllIds : Type 0 where
  pub at_cpu : List FunctionId
  pub at_gpu : List FunctionId
  pub at_anywhere : List FunctionId

abbrev pub ids_at : FunctionLocation → AllIds → List FunctionId
ids_at FunctionLocation.cpu a = a.at_cpu
ids_at FunctionLocation.gpu a = a.at_gpu
ids_at FunctionLocation.anywhere a = a.at_anywhere

abbrev pub set_ids : FunctionLocation → List FunctionId → AllIds → AllIds
set_ids FunctionLocation.cpu ids a = record a { at_cpu = ids }
set_ids FunctionLocation.gpu ids a = record a { at_gpu = ids }
set_ids FunctionLocation.anywhere ids a = record a { at_anywhere = ids }

pub record FunctionSet : Type 0 where
  pub signature : FunctionSignature
  pub all_ids : AllIds

abbrev pub new_function_set : FunctionSignature → FunctionSet
new_function_set sig = record {
  signature = sig;
  all_ids = record { at_cpu = []; at_gpu = []; at_anywhere = [] };
}

-- `FunctionSet.MergeIn`, with the keys of the two signatures
unfoldable pub merge_sets : FunctionSet → FunctionSet → Outcome NoError FunctionSet
merge_sets fs ofs = signature_is_equal fs.signature ofs.signature >>= λ same.
    if same
    then ok (record fs {
      all_ids = record {
        at_cpu = fs.all_ids.at_cpu ++ ofs.all_ids.at_cpu;
        at_gpu = fs.all_ids.at_gpu ++ ofs.all_ids.at_gpu;
        at_anywhere = fs.all_ids.at_anywhere ++ ofs.all_ids.at_anywhere;
      };
    })
    else panic

-- `map[string]*FunctionSet`
abbrev pub FunctionGroup : Type 0
FunctionGroup = List (Text × FunctionSet)

-- `FunctionGroup.MergeIn`, for one key
unfoldable pub merge_set :
    Option FunctionSet → Text → FunctionSet → FunctionGroup → Outcome NoError FunctionGroup
unfolding merge_sets
merge_set none k v fg = ok (insert k v fg)
merge_set (some fs) k v fg = merge_sets fs v >>= λ fs'. ok (insert k fs' fg)

unfoldable pub merge_groups : FunctionGroup → FunctionGroup → Outcome NoError FunctionGroup
unfolding merge_set
merge_groups fg [] = ok fg
merge_groups fg ((k, v) ∷ mfg) = merge_set (lookup k fg) k v fg >>= λ fg'. merge_groups fg' mfg

unfoldable pub contains_id : FunctionId → List FunctionId → Bool
contains_id id [] = false
contains_id id (fid ∷ fids) = function_is_equal fid id || contains_id id fids

unfoldable pub set_contains : FunctionId → FunctionSet → Bool
unfolding contains_id
set_contains id fs =
    contains_id id fs.all_ids.at_cpu
    || (contains_id id fs.all_ids.at_gpu || contains_id id fs.all_ids.at_anywhere)

-- The sets are looked through in the order of the list, where the order of a Go map is open; `Add` puts
-- a function under one key only.
unfoldable pub find_signature : FunctionGroup → FunctionId → Option FunctionSignature
unfolding set_contains
find_signature [] id = none
find_signature ((_, fs) ∷ fg) id =
    if set_contains id fs then some fs.signature else find_signature fg id

-- The error that `Add` returns, with the signature found.
pub data AddError : Type 0 where
  inconsistent_signature : FunctionSignature → AddError

abbrev pub lift : {A : Type 0} → Outcome NoError A → Outcome AddError A
lift (ok a) = ok a
lift (err e) = elim e [ ]
lift panic = panic

-- The guard of `Add`: a signature that is already known has the same key.
unfoldable pub check_signature :
    Option FunctionSignature → FunctionSignature → Outcome AddError (Unit {0})
check_signature none fs = ok tt
check_signature (some sig) fs = lift (signature_is_equal sig fs) >>= λ same.
    if same then ok tt else err (inconsistent_signature sig)

abbrev pub set_or_new : Option FunctionSet → FunctionSignature → FunctionSet
set_or_new none fs = new_function_set fs
set_or_new (some fsv) fs = fsv

unfoldable pub append_id : FunctionId → FunctionLocation → FunctionSet → FunctionSet
append_id id loc fsv =
    let ids = ids_at loc fsv.all_ids in
    if contains_id id ids
    then fsv
    else record fsv { all_ids = set_ids loc (ids ++ id ∷ []) fsv.all_ids }

-- `FunctionGroup.Add`
unfoldable pub add :
    FunctionGroup
    → FunctionId
    → FunctionSignature
    → FunctionLocation
    → Outcome AddError FunctionGroup
unfolding check_signature append_id
add fg id fs loc = check_signature (find_signature fg id) fs >>= λ _. lift (map_key fs) >>= λ key.
    ok (insert key (append_id id loc (set_or_new (lookup key fg) fs)) fg)

unfoldable pub max_arg_count_from : ℕ → FunctionGroup → ℕ
max_arg_count_from m [] = m
max_arg_count_from m ((_, fs) ∷ rest) =
    let count = count_types fs.signature.types in
    max_arg_count_from (if ltb m count then count else m) rest

unfoldable pub max_arg_count : FunctionGroup → ℕ
unfolding max_arg_count_from
max_arg_count fg = max_arg_count_from 0 fg

-- The order of Go strings.
unfoldable pub text_le : Text → Text → Bool
text_le [] ys = true
text_le (x ∷ xs) [] = false
text_le (x ∷ xs) (y ∷ ys) = if ltb x y then true else if x == y then text_le xs ys else false

-- `sort.Strings`
unfoldable pub insert_sorted : Text → List Text → List Text
insert_sorted k [] = k ∷ []
insert_sorted k (j ∷ ks) = if text_le k j then k ∷ j ∷ ks else j ∷ insert_sorted k ks

unfoldable pub sorted_keys : FunctionGroup → List Text
unfolding insert_sorted text_le
sorted_keys [] = []
sorted_keys ((k, _) ∷ fg) = insert_sorted k (sorted_keys fg)

pub record FunctionEntry : Type 0 where
  pub id : ℕ
  pub fid : FunctionId
  pub location : FunctionLocation

-- The entries of one set at one location, numbered from `runningId` on.
unfoldable pub location_entries : ℕ → FunctionLocation → List FunctionId → List FunctionEntry
location_entries running_id loc [] = []
location_entries running_id loc (fid ∷ fids) =
    record { id = running_id; fid = fid; location = loc }
    ∷ location_entries (running_id + 1) loc fids

unfoldable pub set_entries : ℕ → List FunctionLocation → FunctionSet → List FunctionEntry
unfolding location_entries
set_entries running_id [] fs = []
set_entries running_id (loc ∷ locs) fs =
    let fes = location_entries running_id loc (ids_at loc fs.all_ids) in
    fes ++ set_entries (running_id + length fes) locs fs

-- The keys are those of the map, so that each is found.
unfoldable pub found_entries : ℕ → Option FunctionSet → List FunctionEntry
unfolding set_entries
found_entries running_id none = []
found_entries running_id (some fs) = set_entries running_id function_locations fs

unfoldable pub key_entries : ℕ → List Text → FunctionGroup → List FunctionEntry
unfolding found_entries
key_entries running_id [] fg = []
key_entries running_id (k ∷ ks) fg =
    let fes = found_entries running_id (lookup k fg) in
    fes ++ key_entries (running_id + length fes) ks fg

unfoldable pub function_entries : FunctionGroup → List FunctionEntry
unfolding key_entries sorted_keys
function_entries fg = key_entries 0 (sorted_keys fg) fg
