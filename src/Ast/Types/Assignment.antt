-- ===== src/Ast/Types/Assignment.antt =====
-- `Type.CanAssignTo` of src/ast/types.go, and the shapes with numbers taken for one.
use eyot.Prelude.{Option, none, some, Text, ℕ, ◌+◌, ◌<◌, ◌≡◌, Bool, true, false, ok}
use eyot.Ast.Types.Shapes.{
  Shape, Shapes, same, same_all, Represents, integer, float, function, closure, tuple, pointer,
  worker,
}
use eyot.Ast.Ids.{StructId}
use eyot.Ast.Types.{type_of, Pointee, FunctionLocation, Ty, Types, TypeSelector, Checked, depth}

-- Integers and floats of all widths become one, also in the components of tuples.
abbrev mutual
  pub collapse : Shape → Shape
  collapse Shape.integer = Shape.float 0
  collapse (Shape.float w) = Shape.float 0
  collapse (Shape.tuple ss) = Shape.tuple (collapse_all ss)
  collapse s = s

  pub collapse_all : Shapes → Shapes
  collapse_all Shapes.none = Shapes.none
  collapse_all (Shapes.more s ss) = Shapes.more (collapse s) (collapse_all ss)

abbrev alike : Shape → Shape → Bool
alike s t = same (collapse s) (collapse t)

abbrev alike_all : Shapes → Shapes → Bool
alike_all ss ts = same_all (collapse_all ss) (collapse_all ts)

abbrev Decides : ℕ → (Ty → Ty → Checked Bool) → Type 0
Decides n eq =
    (l r : Ty) (s t : Shape)
    → Represents l s
    → Represents r t
    → depth l + depth r < n
    → eq l r ≡ ok (alike s t)

-- Kinds of which equal types alone are assigned to one another.
abbrev is_strict : TypeSelector → Bool
is_strict TypeSelector.function = true
is_strict TypeSelector.closure = true
is_strict TypeSelector.worker = true
is_strict _ = false

-- What a value may have as type: a shape, or none of its own, which `null` has.
pub data Source : Ty → Option Shape → Type 0 where
  of_shape : {r : Ty} {t : Shape} → Represents r t → Source r (some t)
  null :
      {ts : Types} {i : StructId} {p : Pointee} {b : Bool} {n : Text} {l : FunctionLocation} {w : ℕ}
      → Source (type_of TypeSelector.null ts i p b n l w) none

-- A place of one shape takes the value.
abbrev pub Takes : Shape → Option Shape → Type 0
Takes s (some t) = collapse s ≡ collapse t
Takes s none = (t : Shape) × (s ≡ Shape.pointer t)

abbrev is_pointer : Shape → Bool
is_pointer (Shape.pointer t) = true
is_pointer _ = false
