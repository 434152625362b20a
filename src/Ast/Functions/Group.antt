-- ===== src/Ast/Functions/Group.antt =====
-- `FunctionGroup.Add` of src/ast/functions.go and the keys of the sets.
use eyot.Prelude.{
  ◌≡◌, refl, sym, ap, ◌∙◌, Bool, true, false, Option, none, some, List, [], ◌∷◌, ◌++◌, All, ◌≢◌,
  text_eq, text_eq_iff, Text, arith, lookup, insert, if◌then◌else◌, Bool-cases, inl, inr, Outcome,
  ok, err, panic, ◌>>=◌, NoError, Post, returns, fails, panics, Post-bind, of_ok,
}
use eyot.Ast.Functions.{
  FunctionSet, FunctionGroup, map_key, signature_is_equal, contains_id, set_contains,
  find_signature, inconsistent_signature, lift, check_signature, set_or_new, append_id, add,
}
use eyot.Ast.Ids.Laws.{function_is_equal_iff}
use eyot.Ast.Ids.{FunctionId}
use eyot.Ast.Types.{FunctionLocation, FunctionSignature}

-- Each set stands under the key of its signature.
abbrev pub IsKeyed : FunctionGroup → Type 0
IsKeyed = All (λ e. map_key e.1.signature ≡ ok e.0)

insert-IsKeyed :
    (k : Text) (v : FunctionSet) (fg : FunctionGroup)
    → map_key v.signature ≡ ok k
    → IsKeyed fg
    → IsKeyed (insert k v fg)
unfolding insert
insert-IsKeyed k v [] h g = (h, tt)
insert-IsKeyed k v ((j, w) ∷ fg) h g = elim (Bool-cases (text_eq j k)) [
  | inl same ↦ rw same (h, g.1)
  | inr other ↦ rw other (g.0, insert-IsKeyed k v fg h g.1)
]

lookup-IsKeyed :
    (k : Text) (fg : FunctionGroup) {v : FunctionSet}
    → IsKeyed fg
    → lookup k fg ≡ some v
    → map_key v.signature ≡ ok k
unfolding lookup
lookup-IsKeyed k [] g h = cc
lookup-IsKeyed k ((j, w) ∷ fg) {v} g h = elim (Bool-cases (text_eq j k)) [
  | inl same ↦
      let e : some w ≡ some v = rw same at h in
      let here : w ≡ v = cc in rw (← here, ← (text_eq_iff j k).0 same) g.0
  | inr other ↦ lookup-IsKeyed k fg g.1 (rw other at h)
]

-- What is known of the signature under which a function stands.
abbrev HasKey : Option FunctionSignature → Text → Type 0
HasKey none k = Unit
HasKey (some sig) k = map_key sig ≡ ok k

find_signature-insert :
    (k : Text) (v : FunctionSet) (fg : FunctionGroup) (id : FunctionId)
    → IsKeyed fg
    → set_contains id v ≡ true
    → HasKey (find_signature fg id) k
    → map_key v.signature ≡ ok k
    → (sig : FunctionSignature) × (find_signature (insert k v fg) id ≡ some sig)
      × (map_key sig ≡ ok k)
unfolding find_signature insert
find_signature-insert k v [] id g c h e = (v.signature, rw c, e)
find_signature-insert k v ((j, w) ∷ fg) id g c h e = elim (Bool-cases (text_eq j k)) [
  | inl same ↦ rw same (v.signature, rw c, e)
  | inr other ↦ elim (Bool-cases (set_contains id w)) [
    | inl here ↦
        let there : map_key w.signature ≡ ok k = rw here at h in
        let keys : ok j ≡ ok k = sym g.0 ∙ there in
        let clash : j ≡ k = cc in absurd (cc ((text_eq_iff j k).1 clash))
    | inr not_here ↦
        rw (other, not_here) (find_signature-insert k v fg id g.1 c (rw not_here at h) e)
  ]
]

contains_id-append :
    (id : FunctionId) (ids : List FunctionId) → contains_id id (ids ++ id ∷ []) ≡ true
unfolding contains_id
contains_id-append id [] = ground (arith, function_is_equal_iff id id)
contains_id-append id (fid ∷ ids) = ground (arith, contains_id-append id ids)

append_id-set_contains :
    (id : FunctionId) (loc : FunctionLocation) (v : FunctionSet)
    → set_contains id (append_id id loc v) ≡ true
unfolding append_id set_contains
append_id-set_contains id FunctionLocation.cpu v =
    ground (arith, contains_id-append id v.all_ids.at_cpu)
append_id-set_contains id FunctionLocation.gpu v =
    ground (arith, contains_id-append id v.all_ids.at_gpu)
append_id-set_contains id FunctionLocation.anywhere v =
    ground (arith, contains_id-append id v.all_ids.at_anywhere)

append_id-signature :
    (id : FunctionId) (loc : FunctionLocation) (v : FunctionSet)
    → (append_id id loc v).signature ≡ v.signature
unfolding append_id
append_id-signature id loc v = ground arith

set_or_new-map_key :
    (o : Option FunctionSet) (fs : FunctionSignature) (fg : FunctionGroup) (k : Text)
    → lookup k fg ≡ o
    → IsKeyed fg
    → map_key fs ≡ ok k
    → map_key (set_or_new o fs).signature ≡ ok k
set_or_new-map_key none fs fg k h g e = e
set_or_new-map_key (some v) fs fg k h g e = lookup-IsKeyed k fg g h

lift-Post : {A : Type 0} (m : Outcome NoError A) → Post (λ a. m ≡ ok a) (lift m)
lift-Post (ok a) = returns refl
lift-Post (err e) = elim e [ ]
lift-Post panic = panics

same_key :
    (a b : Outcome NoError Text) (k : Text)
    → (a >>= λ x. b >>= λ y. ok (text_eq x y)) ≡ ok true
    → b ≡ ok k
    → a ≡ ok k
same_key (ok x) (ok y) k h e = ground (arith, text_eq_iff x y)
same_key (ok x) (err z) k h e = cc
same_key (ok x) panic k h e = cc
same_key (err z) b k h e = elim z [ ]
same_key panic b k h e = cc

check_same-Post :
    (sig fs : FunctionSignature) (same : Bool)
    → signature_is_equal sig fs ≡ ok same
    → Post
        (λ _. (k : Text) → map_key fs ≡ ok k → map_key sig ≡ ok k)
        (if same then ok (tt {0}) else err (inconsistent_signature sig))
unfolding signature_is_equal
check_same-Post sig fs true e = returns (λ k h. same_key (map_key sig) (map_key fs) k e h)
check_same-Post sig fs false e = fails

check_signature-Post :
    (o : Option FunctionSignature) (fs : FunctionSignature)
    → Post (λ _. (k : Text) → map_key fs ≡ ok k → HasKey o k) (check_signature o fs)
unfolding check_signature
check_signature-Post none fs = returns (λ k h. tt)
check_signature-Post (some sig) fs =
    Post-bind (lift-Post (signature_is_equal sig fs)) (check_same-Post sig fs)

-- What `Add` leaves: sets under the keys of their signatures, and the function found again, with a
-- signature that has the key of the one added.
pub record Added (id : FunctionId) (fs : FunctionSignature) (fg : FunctionGroup) : Type 0 where
  pub keyed : IsKeyed fg
  pub key : Text
  pub key_is : map_key fs ≡ ok key
  pub found : FunctionSignature
  pub finds : find_signature fg id ≡ some found
  pub found_key : map_key found ≡ ok key

-- In a group whose sets stand under the keys of their signatures: where `Add` succeeds, that still
-- holds, and `FindSignature` finds the function with a signature of the same key.
pub add-Added :
    (fg : FunctionGroup) (id : FunctionId) (fs : FunctionSignature) (loc : FunctionLocation)
    → IsKeyed fg
    → Post (Added id fs) (add fg id fs loc)
unfolding add
add-Added fg id fs loc g = Post-bind (check_signature-Post (find_signature fg id) fs) λ _ same.
    Post-bind (lift-Post (map_key fs)) λ key e.
      let v = set_or_new (lookup key fg) fs in
      let k =
        ap map_key (append_id-signature id loc v)
        ∙ set_or_new-map_key (lookup key fg) fs fg key refl g e in
      let (sig, finds, found_key) =
        find_signature-insert key (append_id id loc v) fg id g (append_id-set_contains id loc v)
          (same key e) k in
      returns (record {
        keyed = insert-IsKeyed key (append_id id loc v) fg k g;
        key = key;
        key_is = e;
        found = sig;
        finds = finds;
        found_key = found_key;
      })

add_inconsistent :
    (fg : FunctionGroup) (id : FunctionId) (fs sig : FunctionSignature) (loc : FunctionLocation)
    (k j : Text)
    → find_signature fg id ≡ some sig
    → map_key sig ≡ ok k
    → map_key fs ≡ ok j
    → k ≢ j
    → add fg id fs loc ≡ err (inconsistent_signature sig)
unfolding add check_signature signature_is_equal
add_inconsistent fg id fs sig loc k j h e e' ne = ground (arith, text_eq_iff k j)

add_consistent :
    (fg : FunctionGroup) (id : FunctionId) (fs sig : FunctionSignature) (loc : FunctionLocation)
    (k : Text)
    → find_signature fg id ≡ some sig
    → map_key sig ≡ ok k
    → map_key fs ≡ ok k
    → (fg' : FunctionGroup) × (add fg id fs loc ≡ ok fg')
unfolding add check_signature signature_is_equal
add_consistent fg id fs sig loc k h e e' = (
  insert k (append_id id loc (set_or_new (lookup k fg) fs)) fg,
  rw (h, e, e', (text_eq_iff k k).1 refl) refl,
)

-- In a group whose sets stand under the keys of their signatures: once `Add` has put a function into it,
-- `Add` takes the function again, for whatever location, under a signature of the same key, and refuses
-- it under one of another key, with an error that has a signature of the first key.
pub add-add :
    (fg fg' : FunctionGroup) (id : FunctionId) (fs fs' : FunctionSignature)
    (loc loc' : FunctionLocation) (k j : Text)
    → IsKeyed fg
    → add fg id fs loc ≡ ok fg'
    → map_key fs ≡ ok k
    → map_key fs' ≡ ok j
    → (k ≡ j → (fg'' : FunctionGroup) × (add fg' id fs' loc' ≡ ok fg''))
      × (k ≢ j
          → (sig : FunctionSignature) × (map_key sig ≡ ok k)
            × (add fg' id fs' loc' ≡ err (inconsistent_signature sig)))
add-add fg fg' id fs fs' loc loc' k j g h e e' =
    let a : Added id fs fg' = of_ok (rw h at (add-Added fg id fs loc g)) in
    let same : a.key ≡ k = cc (a.key_is, e) in
    let found_key : map_key a.found ≡ ok k = a.found_key ∙ ap ok same in
    (
      λ eq. add_consistent fg' id fs' a.found loc' k a.finds found_key (e' ∙ ap ok (sym eq)),
      λ ne. (
        a.found,
        found_key,
        add_inconsistent fg' id fs' a.found loc' k j a.finds found_key e' ne,
      ),
    )
