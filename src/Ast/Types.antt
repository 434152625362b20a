-- ===== src/Ast/Types.antt =====
-- src/ast/types.go: the types of the language, their equality, their assignments and their names.
pub mod Names
pub mod Printed
pub mod Shapes
pub mod Equality
pub mod Assignment
pub mod Fuel
use eyot.Prelude.{
  ℕ, zero, suc, ◌+◌, Bool, true, false, not, ◌&&◌, ◌||◌, Option, none, some, List, [], ◌∷◌, ◌++◌,
  length, text_eq, Text, ◌==◌, if◌then◌else◌, Outcome, ok, err, panic, ◌>>=◌,
}
use eyot.Ast.Ids.{StructId, blank_struct_id, struct_is_equal}

pub data TypeSelector : Type 0 where
  integer string boolean character float void null function closure tuple : TypeSelector
  struct pointer vector worker : TypeSelector

pub data FunctionLocation : Type 0 where
  cpu anywhere gpu : FunctionLocation

-- The struct `Type`, with its fields in the order of the source: `Selector`, `Types`, `StructId`,
-- `Return`, `Builtin`, `BoundStructName`, `Location` and `Width`.
mutual
  pub data Ty : Type 0 where
    type_of : TypeSelector → Types → StructId → Pointee → Bool → Text → FunctionLocation → ℕ → Ty

  pub data Types : Type 0 where
    nil : Types
    cons : Ty → Types → Types

  -- `*Type`, which may be nil.
  pub data Pointee : Type 0 where
    nothing : Pointee
    points_to : Ty → Pointee

abbrev pub selector : Ty → TypeSelector
selector (type_of s _ _ _ _ _ _ _) = s

abbrev pub types : Ty → Types
types (type_of _ ts _ _ _ _ _ _) = ts

abbrev pub struct_id : Ty → StructId
struct_id (type_of _ _ sid _ _ _ _ _) = sid

abbrev pub return_type : Ty → Pointee
return_type (type_of _ _ _ r _ _ _ _) = r

abbrev pub bound_struct_name : Ty → Text
bound_struct_name (type_of _ _ _ _ _ b _ _) = b

abbrev pub location : Ty → FunctionLocation
location (type_of _ _ _ _ _ _ l _) = l

abbrev pub width : Ty → ℕ
width (type_of _ _ _ _ _ _ _ w) = w

-- A type with the given selector and types, and every other field at its zero value.
abbrev pub plain : TypeSelector → Types → Ty
plain s ts = type_of s ts blank_struct_id nothing false [] FunctionLocation.cpu 0

abbrev pub make_void : Ty
make_void = plain TypeSelector.void nil

abbrev pub make_pointer : Ty → Ty
make_pointer ty = plain TypeSelector.pointer (cons ty nil)

abbrev pub make_vector : Ty → Ty
make_vector ty = make_pointer (plain TypeSelector.vector (cons ty nil))

abbrev pub count_types : Types → ℕ
count_types nil = 0
count_types (cons t ts) = suc (count_types ts)

-- `FunctionSignature`, of src/ast/functions.go
pub record FunctionSignature : Type 0 where
  pub location : FunctionLocation
  pub return_type : Ty
  pub types : Types

unfoldable pub is_callable : Ty → Bool
is_callable ty = elim (selector ty) [
  | TypeSelector.function ↦ true
  | TypeSelector.closure ↦ true
  | _ ↦ false
]

unfoldable pub is_numeric : Ty → Bool
is_numeric ty = elim (selector ty) [
  | TypeSelector.integer ↦ true
  | TypeSelector.float ↦ true
  | _ ↦ false
]

-- The loops below may also stop because the fuel of the model is used up.
pub data OutOfFuel : Type 0 where
  out_of_fuel : OutOfFuel

abbrev pub Checked : Type 0 → Type 0
Checked A = Outcome OutOfFuel A

unfoldable pub signature : Ty → Checked FunctionSignature
unfolding is_callable
signature ty =
    if is_callable ty
    then elim (return_type ty) [
      | nothing ↦ panic
      | points_to r ↦ ok (record { location = location ty; return_type = r; types = types ty })
    ]
    else panic

-- `ty.Types[i]`, which panics out of range.
abbrev pub first_type : {E : Type 0} → Types → Outcome E Ty
first_type nil = panic
first_type (cons t _) = ok t

abbrev pub second_type : {E : Type 0} → Types → Outcome E Ty
second_type (cons _ (cons t _)) = ok t
second_type _ = panic

abbrev pub pointed : {E : Type 0} → Pointee → Outcome E Ty
pointed nothing = panic
pointed (points_to t) = ok t

unfoldable pub unwrapped : {E : Type 0} → Ty → Outcome E Ty
unwrapped ty = elim (selector ty) [ TypeSelector.pointer ↦ first_type (types ty) | _ ↦ ok ty ]

-- The place of a selector in the source's enumeration.
unfoldable pub selector_code : TypeSelector → ℕ
selector_code TypeSelector.integer = 0
selector_code TypeSelector.string = 1
selector_code TypeSelector.boolean = 2
selector_code TypeSelector.character = 3
selector_code TypeSelector.float = 4
selector_code TypeSelector.void = 5
selector_code TypeSelector.null = 6
selector_code TypeSelector.function = 7
selector_code TypeSelector.closure = 8
selector_code TypeSelector.tuple = 9
selector_code TypeSelector.struct = 10
selector_code TypeSelector.pointer = 11
selector_code TypeSelector.vector = 12
selector_code TypeSelector.worker = 13

abbrev pub same_selector : Ty → Ty → Bool
same_selector a b = selector_code (selector a) == selector_code (selector b)

-- `&&` between calls that may panic: the second is made only where the first is true.
abbrev pub and_then : Checked Bool → Checked Bool → Checked Bool
and_then m k = m >>= λ b. if b then k else ok false

-- The loop over two lists of types, whose lengths are compared first.
unfoldable pub each_equal : (Ty → Ty → Checked Bool) → Types → Types → Checked Bool
each_equal eq (cons l ls) (cons r rs) = and_then (eq l r) (each_equal eq ls rs)
each_equal eq _ _ = ok true

unfoldable pub types_equal : (Ty → Ty → Checked Bool) → Types → Types → Checked Bool
unfolding each_equal
types_equal eq ls rs =
    if not (count_types ls == count_types rs) then ok false else each_equal eq ls rs

-- `Equal` of two types with the same selector, over the call for their parts.
unfoldable pub equal_parts : (Ty → Ty → Checked Bool) → TypeSelector → Ty → Ty → Checked Bool
unfolding types_equal
equal_parts eq TypeSelector.float lhs rhs = ok (width lhs == width rhs)
equal_parts eq TypeSelector.integer lhs rhs = ok true
equal_parts eq TypeSelector.boolean lhs rhs = ok true
equal_parts eq TypeSelector.string lhs rhs = ok true
equal_parts eq TypeSelector.character lhs rhs = ok true
equal_parts eq TypeSelector.void lhs rhs = ok true
equal_parts eq TypeSelector.vector lhs rhs =
    first_type (types rhs) >>= λ r. first_type (types lhs) >>= λ l. eq r l
equal_parts eq TypeSelector.pointer lhs rhs =
    first_type (types rhs) >>= λ r. first_type (types lhs) >>= λ l. eq r l
equal_parts eq TypeSelector.worker lhs rhs =
    and_then (first_type (types rhs) >>= λ r. first_type (types lhs) >>= λ l. eq r l)
      (second_type (types rhs) >>= λ r. second_type (types lhs) >>= λ l. eq r l)
equal_parts eq TypeSelector.function lhs rhs =
    and_then (pointed (return_type lhs) >>= λ l. pointed (return_type rhs) >>= λ r. eq l r) (
      if not (text_eq (bound_struct_name lhs) (bound_struct_name rhs))
      then ok false
      else types_equal eq (types lhs) (types rhs))
equal_parts eq TypeSelector.closure lhs rhs =
    and_then (pointed (return_type lhs) >>= λ l. pointed (return_type rhs) >>= λ r. eq l r) (
      if not (text_eq (bound_struct_name lhs) (bound_struct_name rhs))
      then ok false
      else types_equal eq (types lhs) (types rhs))
equal_parts eq TypeSelector.struct lhs rhs = ok (struct_is_equal (struct_id rhs) (struct_id lhs))
equal_parts eq TypeSelector.tuple lhs rhs = types_equal eq (types lhs) (types rhs)
equal_parts eq TypeSelector.null lhs rhs = panic

unfoldable pub equal_fuel : ℕ → Ty → Ty → Checked Bool
unfolding equal_parts
equal_fuel zero lhs rhs = err out_of_fuel
equal_fuel (suc fuel) lhs rhs =
    let parts = equal_parts (equal_fuel fuel) (selector lhs) lhs rhs in
    if not (same_selector lhs rhs) then ok false else parts

abbrev mutual
  pub depth : Ty → ℕ
  depth (type_of _ ts _ r _ _ _ _) = suc (depth_types ts + depth_pointee r)

  pub depth_types : Types → ℕ
  depth_types nil = 0
  depth_types (cons t ts) = depth t + depth_types ts

  pub depth_pointee : Pointee → ℕ
  depth_pointee nothing = 0
  depth_pointee (points_to t) = depth t

-- The fuel: each call is made on parts of both types.
unfoldable pub equal : Ty → Ty → Checked Bool
unfolding equal_fuel
equal lhs rhs = equal_fuel (suc (depth lhs + depth rhs)) lhs rhs

unfoldable pub numerically_compatible : Ty → Ty → Checked Bool
numerically_compatible lhs rhs = equal lhs rhs >>= λ same.
    if same then ok true else elim (selector lhs) [
      | TypeSelector.float ↦ elim (selector rhs) [ TypeSelector.float ↦ ok true | _ ↦ ok false ]
      | _ ↦ ok false
    ]

-- What `CanAssignTo` says by the two selectors alone.
unfoldable pub assigns : TypeSelector → TypeSelector → Bool
assigns TypeSelector.integer TypeSelector.float = true
assigns TypeSelector.float TypeSelector.integer = true
assigns TypeSelector.pointer TypeSelector.null = true
assigns _ _ = false

abbrev is_tuple : Ty → Bool
is_tuple ty = elim (selector ty) [ TypeSelector.tuple ↦ true | _ ↦ false ]

unfoldable pub can_assign_fuel : ℕ → Ty → Ty → Checked Bool
unfolding assigns types_equal
can_assign_fuel zero lhs rhs = err out_of_fuel
can_assign_fuel (suc fuel) lhs rhs =
    let components = types_equal (can_assign_fuel fuel) (types lhs) (types rhs) in
    numerically_compatible lhs rhs >>= λ compatible.
    if compatible
    then ok true
    else if is_tuple lhs && is_tuple rhs
    then components
    else ok (assigns (selector lhs) (selector rhs))

unfoldable pub can_assign_to : Ty → Ty → Checked Bool
unfolding can_assign_fuel
can_assign_to lhs rhs = can_assign_fuel (suc (depth lhs + depth rhs)) lhs rhs
