-- ===== src/Ast/Types/Equality.antt =====
-- `Type.Equal` of src/ast/types.go and the shapes of types.
use eyot.Prelude.{
  ℕ, zero, suc, ◌+◌, ◌<◌, ◌≡◌, ◌↔◌, refl, ap, ◌∙◌, Bool, true, false, not, ◌&&◌, Text, text_eq,
  arith, ok, panic, ◌==◌, if◌then◌else◌,
}
use eyot.Ast.Ids.Laws.{struct_is_equal_iff}
use eyot.Ast.Types.Shapes.{
  Shape, Shapes, same, same_all, same_iff, same_comm, Represents, RepresentsAll, integer, string,
  boolean, character, void, float, function, closure, tuple, struct, pointer, vector, worker, nil,
  cons,
}
use eyot.Ast.Types.{
  Ty, Types, TypeSelector, Checked, selector_code, and_then, each_equal, types_equal, count_types,
  equal_fuel, equal, selector, depth, depth_types,
}

-- What is assumed of the call for the parts.
abbrev Decides : ℕ → (Ty → Ty → Checked Bool) → Type 0
Decides n eq =
    (l r : Ty) (s t : Shape)
    → Represents l s
    → Represents r t
    → depth l + depth r < n
    → eq l r ≡ ok (same s t)

-- One round of the loop over two lists.
pub each_step :
    (e e' x y : Bool) (m k : Checked Bool)
    → e ≡ e'
    → m ≡ ok x
    → (if not e then ok false else k) ≡ ok y
    → (if not e' then ok false else and_then m k) ≡ ok (x && y)
each_step false e' x y m k p q h = ground arith
each_step true e' true y m k p q h = rw (← p, q) h
each_step true e' false y m k p q h = rw (← p, q)

pub suc-== : (a b : ℕ) → (a == b) ≡ (suc a == suc b)
suc-== a b = ground arith

each_equal-same_all :
    (n : ℕ) (eq : Ty → Ty → Checked Bool)
    → Decides n eq
    → (ls rs : Types) (ss ts : Shapes) → RepresentsAll ls ss
    → RepresentsAll rs ts
    → depth_types ls + depth_types rs < n
    → types_equal eq ls rs ≡ ok (same_all ss ts)
unfolding types_equal same
each_equal-same_all n eq dec ls rs ss ts nil nil lt = refl
each_equal-same_all n eq dec ls rs ss ts nil (cons b bs) lt = ground arith
each_equal-same_all n eq dec ls rs ss ts (cons a xs) nil lt = ground arith
each_equal-same_all n eq dec ls rs ss ts (cons {t} {ts = us} {s = s1} {ss = ss1} a xs)
      (cons {t = u} {ts = vs} {s = s2} {ss = ss2} b bs) lt =
    each_step (count_types us == count_types vs) _ (same s1 s2) (same_all ss1 ss2) (eq t u)
      (each_equal eq us vs) (suc-== (count_types us) (count_types vs))
      (dec t u s1 s2 a b (omega arith))
      (each_equal-same_all n eq dec us vs ss1 ss2 xs bs (omega arith))

module _ (n : ℕ) (eq : Ty → Ty → Checked Bool) (dec : Decides n eq) where
  -- The parts of two function types, or of two closure types.
  callable_parts :
      (r r' : Ty) (s s' : Shape) (b b' : Text) (ts ts' : Types) (ss ss' : Shapes)
      → Represents r s
      → Represents r' s'
      → RepresentsAll ts ss
      → RepresentsAll ts' ss'
      → depth_types ts + depth r + (depth_types ts' + depth r') < n
      → and_then (eq r r') (if not (text_eq b b') then ok false else types_equal eq ts ts')
        ≡ ok (same s s' && (text_eq b b' && same_all ss ss'))
  callable_parts r r' s s' b b' ts ts' ss ss' p p' q q' lt = ground (
    arith,
    dec r r' s s' p p' (omega arith),
    each_equal-same_all n eq dec ts ts' ss ss' q q' (omega arith),
  )

  -- The parts are compared the other way round.
  part_swapped :
      (l r : Ty) (s t : Shape)
      → Represents l s
      → Represents r t
      → depth l + depth r < n
      → eq r l ≡ ok (same s t)
  part_swapped l r s t p q lt = dec r l t s q p (omega arith) ∙ ap ok (same_comm t s)

equal_fuel-same :
    (n : ℕ) (l r : Ty) (s t : Shape)
    → Represents l s
    → Represents r t
    → depth l + depth r < n
    → equal_fuel n l r ≡ ok (same s t)
unfolding equal_fuel selector_code same
equal_fuel-same zero l r s t p q lt = absurd (omega arith)
equal_fuel-same (suc n) l r s t integer integer lt = refl
equal_fuel-same (suc n) l r s t string string lt = refl
equal_fuel-same (suc n) l r s t boolean boolean lt = refl
equal_fuel-same (suc n) l r s t character character lt = refl
equal_fuel-same (suc n) l r s t void void lt = refl
equal_fuel-same (suc n) l r s t float float lt = refl
equal_fuel-same (suc n) l r s t (function {ts = us} {r = u} {n = b} {s = v} {ss = vs} p ps)
      (function {ts = us'} {r = u'} {n = b'} {s = v'} {ss = vs'} q qs) lt =
    callable_parts n (equal_fuel n) (equal_fuel-same n) u u' v v' b b' us us' vs vs' p q ps qs
      (omega arith)
equal_fuel-same (suc n) l r s t (closure {ts = us} {r = u} {n = b} {s = v} {ss = vs} p ps)
      (closure {ts = us'} {r = u'} {n = b'} {s = v'} {ss = vs'} q qs) lt =
    callable_parts n (equal_fuel n) (equal_fuel-same n) u u' v v' b b' us us' vs vs' p q ps qs
      (omega arith)
equal_fuel-same (suc n) l r s t (tuple {ts = us} {ss = vs} ps) (tuple {ts = us'} {ss = vs'} qs) lt =
    each_equal-same_all n (equal_fuel n) (equal_fuel-same n) us us' vs vs' ps qs (omega arith)
equal_fuel-same (suc n) l r s t (struct {i}) (struct {i = j}) lt =
    ground (arith, struct_is_equal_iff i j, struct_is_equal_iff j i)
equal_fuel-same (suc n) l r s t (pointer {t = u} {s = v} p) (pointer {t = u'} {s = v'} q) lt =
    part_swapped n (equal_fuel n) (equal_fuel-same n) u u' v v' p q (omega arith)
equal_fuel-same (suc n) l r s t (vector {t = u} {s = v} p) (vector {t = u'} {s = v'} q) lt =
    part_swapped n (equal_fuel n) (equal_fuel-same n) u u' v v' p q (omega arith)
equal_fuel-same (suc n) l r s t (worker {t = u} {u = w} {s = v} {s' = z} p p')
      (worker {t = u'} {u = w'} {s = v'} {s' = z'} q q') lt =
    ground (
      arith,
      part_swapped n (equal_fuel n) (equal_fuel-same n) u u' v v' p q (omega arith),
      part_swapped n (equal_fuel n) (equal_fuel-same n) w w' z z' p' q' (omega arith),
    )
equal_fuel-same (suc n) l r s t p q lt = refl

pub equal-is_same :
    (l r : Ty) (s t : Shape) → Represents l s → Represents r t → equal l r ≡ ok (same s t)
unfolding equal
equal-is_same l r s t p q = equal_fuel-same (suc (depth l + depth r)) l r s t p q (omega arith)

-- Two well-formed types: `Equal` does not panic, its calls end, and it is true exactly where the
-- types have one shape. `Location`, `Builtin` and the fields of other kinds do not count.
pub equal-same :
    (l r : Ty) (s t : Shape)
    → Represents l s
    → Represents r t
    → (b : Bool) × (equal l r ≡ ok b) × ((b ≡ true) ↔ (s ≡ t))
equal-same l r s t p q = (same s t, equal-is_same l r s t p q, same_iff s t)

-- `Equal` panics on two types of null, whatever their other fields.
equal_null :
    (l r : Ty) → selector l ≡ TypeSelector.null → selector r ≡ TypeSelector.null → equal l r ≡ panic
unfolding equal equal_fuel selector_code
equal_null l r p q = ground arith
