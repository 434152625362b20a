-- ===== src/Ast/Types/Shapes.antt =====
-- What a well-formed type stands for: its shape, without the fields that its kind does not use.
use eyot.Prelude.{
  ℕ, ◌≡◌, ◌↔◌, refl, ap, Bool, true, false, ◌&&◌, text_eq, text_eq_iff, &&-true, Text, ◌==◌, ==_iff,
  arith,
}
use eyot.Ast.Ids.Laws.{struct_is_equal_iff}
use eyot.Ast.Ids.{StructId, struct_is_equal}
use eyot.Ast.Types.{Ty, type_of, Types, points_to, TypeSelector, FunctionLocation, Pointee}

mutual
  pub data Shape : Type 0 where
    integer string boolean character void : Shape
    float : ℕ → Shape
    function closure : Shape → Text → Shapes → Shape
    tuple : Shapes → Shape
    struct : StructId → Shape
    pointer vector : Shape → Shape
    worker : Shape → Shape → Shape

  pub data Shapes : Type 0 where
    none : Shapes
    more : Shape → Shapes → Shapes

unfoldable mutual
  unfolding struct_is_equal

  pub same : Shape → Shape → Bool
  same integer integer = true
  same string string = true
  same boolean boolean = true
  same character character = true
  same void void = true
  same (float w) (float v) = w == v
  same (function r b ts) (function r' b' ts') = same r r' && (text_eq b b' && same_all ts ts')
  same (closure r b ts) (closure r' b' ts') = same r r' && (text_eq b b' && same_all ts ts')
  same (tuple ts) (tuple ts') = same_all ts ts'
  same (struct i) (struct j) = struct_is_equal i j
  same (pointer t) (pointer t') = same t t'
  same (vector t) (vector t') = same t t'
  same (worker a b) (worker a' b') = same a a' && same b b'
  same _ _ = false

  pub same_all : Shapes → Shapes → Bool
  same_all none none = true
  same_all (more t ts) (more t' ts') = same t t' && same_all ts ts'
  same_all _ _ = false

mutual
  unfolding same

  sound : (s t : Shape) → same s t ≡ true → s ≡ t
  sound integer integer h = refl
  sound string string h = refl
  sound boolean boolean h = refl
  sound character character h = refl
  sound void void h = refl
  sound (float w) (float v) h = ap float ((==_iff w v).0 h)
  sound (function r b ts) (function r' b' ts') h =
      let (p, h') = &&-true (same r r') (text_eq b b' && same_all ts ts') h in
      let (q, t) = &&-true (text_eq b b') (same_all ts ts') h' in
      cc (sound r r' p, (text_eq_iff b b').0 q, sound_all ts ts' t)
  sound (closure r b ts) (closure r' b' ts') h =
      let (p, h') = &&-true (same r r') (text_eq b b' && same_all ts ts') h in
      let (q, t) = &&-true (text_eq b b') (same_all ts ts') h' in
      cc (sound r r' p, (text_eq_iff b b').0 q, sound_all ts ts' t)
  sound (tuple ts) (tuple ts') h = ap tuple (sound_all ts ts' h)
  sound (struct i) (struct j) h = ap struct ((struct_is_equal_iff i j).0 h)
  sound (pointer t) (pointer t') h = ap pointer (sound t t' h)
  sound (vector t) (vector t') h = ap vector (sound t t' h)
  sound (worker a b) (worker a' b') h =
      let (p, q) = &&-true (same a a') (same b b') h in cc (sound a a' p, sound b b' q)
  sound _ _ h = cc

  sound_all : (s t : Shapes) → same_all s t ≡ true → s ≡ t
  sound_all none none h = refl
  sound_all (more t ts) (more t' ts') h =
      let (p, q) = &&-true (same t t') (same_all ts ts') h in cc (sound t t' p, sound_all ts ts' q)
  sound_all _ _ h = cc

mutual
  unfolding same

  complete : (s : Shape) → same s s ≡ true
  complete integer = refl
  complete (float w) = ground arith
  complete (function r b ts) = ground (arith, complete r, text_eq_iff b b, complete_all ts)
  complete (closure r b ts) = ground (arith, complete r, text_eq_iff b b, complete_all ts)
  complete (tuple ts) = complete_all ts
  complete (struct i) = (struct_is_equal_iff i i).1 refl
  complete (pointer t) = complete t
  complete (vector t) = complete t
  complete (worker a b) = ground (arith, complete a, complete b)
  complete _ = refl

  complete_all : (s : Shapes) → same_all s s ≡ true
  complete_all none = refl
  complete_all (more t ts) = ground (arith, complete t, complete_all ts)

pub same_iff : (s t : Shape) → (same s t ≡ true) ↔ (s ≡ t)
same_iff s t = (sound s t, λ e. rw e (complete t))

pub same_comm : (s t : Shape) → same s t ≡ same t s
same_comm s t = ground (arith, same_iff s t, same_iff t s)

-- A type that the checks can compare, and its shape. Where a vector or a pointer has types, the
-- first alone counts, and of a worker the first two.
mutual
  pub data Represents : Ty → Shape → Type 0 where
    integer :
        {ts : Types} {i : StructId} {r : Pointee} {b : Bool} {n : Text} {l : FunctionLocation}
        {w : ℕ}
        → Represents (type_of TypeSelector.integer ts i r b n l w) Shape.integer
    string :
        {ts : Types} {i : StructId} {r : Pointee} {b : Bool} {n : Text} {l : FunctionLocation}
        {w : ℕ}
        → Represents (type_of TypeSelector.string ts i r b n l w) Shape.string
    boolean :
        {ts : Types} {i : StructId} {r : Pointee} {b : Bool} {n : Text} {l : FunctionLocation}
        {w : ℕ}
        → Represents (type_of TypeSelector.boolean ts i r b n l w) Shape.boolean
    character :
        {ts : Types} {i : StructId} {r : Pointee} {b : Bool} {n : Text} {l : FunctionLocation}
        {w : ℕ}
        → Represents (type_of TypeSelector.character ts i r b n l w) Shape.character
    void :
        {ts : Types} {i : StructId} {r : Pointee} {b : Bool} {n : Text} {l : FunctionLocation}
        {w : ℕ}
        → Represents (type_of TypeSelector.void ts i r b n l w) Shape.void
    float :
        {ts : Types} {i : StructId} {r : Pointee} {b : Bool} {n : Text} {l : FunctionLocation}
        {w : ℕ}
        → Represents (type_of TypeSelector.float ts i r b n l w) (Shape.float w)
    function :
        {ts : Types} {i : StructId} {r : Ty} {b : Bool} {n : Text} {l : FunctionLocation} {w : ℕ}
        {s : Shape} {ss : Shapes}
        → Represents r s
        → RepresentsAll ts ss
        → Represents
            (type_of TypeSelector.function ts i (points_to r) b n l w)
            (Shape.function s n ss)
    closure :
        {ts : Types} {i : StructId} {r : Ty} {b : Bool} {n : Text} {l : FunctionLocation} {w : ℕ}
        {s : Shape} {ss : Shapes}
        → Represents r s
        → RepresentsAll ts ss
        → Represents
            (type_of TypeSelector.closure ts i (points_to r) b n l w)
            (Shape.closure s n ss)
    tuple :
        {ts : Types} {i : StructId} {r : Pointee} {b : Bool} {n : Text} {l : FunctionLocation}
        {w : ℕ} {ss : Shapes}
        → RepresentsAll ts ss
        → Represents (type_of TypeSelector.tuple ts i r b n l w) (Shape.tuple ss)
    struct :
        {ts : Types} {i : StructId} {r : Pointee} {b : Bool} {n : Text} {l : FunctionLocation}
        {w : ℕ}
        → Represents (type_of TypeSelector.struct ts i r b n l w) (Shape.struct i)
    pointer :
        {t : Ty} {ts : Types} {i : StructId} {r : Pointee} {b : Bool} {n : Text}
        {l : FunctionLocation} {w : ℕ} {s : Shape}
        → Represents t s
        → Represents (type_of TypeSelector.pointer (Types.cons t ts) i r b n l w) (Shape.pointer s)
    vector :
        {t : Ty} {ts : Types} {i : StructId} {r : Pointee} {b : Bool} {n : Text}
        {l : FunctionLocation} {w : ℕ} {s : Shape}
        → Represents t s
        → Represents (type_of TypeSelector.vector (Types.cons t ts) i r b n l w) (Shape.vector s)
    worker :
        {t u : Ty} {ts : Types} {i : StructId} {r : Pointee} {b : Bool} {n : Text}
        {l : FunctionLocation} {w : ℕ} {s s' : Shape}
        → Represents t s
        → Represents u s'
        → Represents
            (type_of TypeSelector.worker (Types.cons t (Types.cons u ts)) i r b n l w)
            (Shape.worker s s')

  pub data RepresentsAll : Types → Shapes → Type 0 where
    nil : RepresentsAll Types.nil Shapes.none
    cons :
        {t : Ty} {ts : Types} {s : Shape} {ss : Shapes}
        → Represents t s
        → RepresentsAll ts ss
        → RepresentsAll (Types.cons t ts) (Shapes.more s ss)
