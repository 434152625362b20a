-- ===== src/Ast/Types/Fuel.antt =====
-- src/ast/types.go: the comparisons of any two types, well-formed or not, have fuel enough.
use eyot.Prelude.{
  ℕ, zero, suc, ◌+◌, ◌<◌, ◌≤◌, Bool, true, false, not, ok, ◌>>=◌, Safe, Safe-bind, if◌then◌else◌,
  ◌==◌, arith,
}
use eyot.Ast.Types.{
  Ty, type_of, Types, nil, cons, Pointee, nothing, points_to, TypeSelector, Checked, OutOfFuel,
  selector, first_type, second_type, pointed, and_then, each_equal, types_equal, equal_parts,
  equal_fuel, equal, numerically_compatible, can_assign_fuel, can_assign_to, depth, depth_types,
  depth_pointee, same_selector, count_types,
}

-- A call that does not end for want of fuel.
abbrev pub Ends : {A : Type 0} → Checked A → Type 0
Ends m = Safe (λ _. Unit {0}) m

abbrev EndsBelow : ℕ → (Ty → Ty → Checked Bool) → Type 0
EndsBelow n eq = (l r : Ty) → depth l + depth r < n → Ends (eq l r)

and_then-Ends : (m k : Checked Bool) → Ends m → Ends k → Ends (and_then m k)
and_then-Ends m k em ek = Safe-bind em λ b _. branch b
  where
    branch : (b : Bool) → Ends (if b then k else ok false)
    branch true = ek
    branch false = Safe.returns tt

if-Ends : {A : Type 0} (b : Bool) (x y : Checked A) → Ends x → Ends y → Ends (if b then x else y)
if-Ends true x y p q = p
if-Ends false x y p q = q

first_type-depth :
    (ts : Types) → Safe (λ t. depth t ≤ depth_types ts) (first_type {E = OutOfFuel} ts)
first_type-depth nil = Safe.panics
first_type-depth (cons t ts) = Safe.returns (omega arith)

second_type-depth :
    (ts : Types) → Safe (λ t. depth t ≤ depth_types ts) (second_type {E = OutOfFuel} ts)
second_type-depth nil = Safe.panics
second_type-depth (cons t nil) = Safe.panics
second_type-depth (cons t (cons u ts)) = Safe.returns (omega arith)

pointed-depth : (p : Pointee) → Safe (λ t. depth t ≤ depth_pointee p) (pointed {E = OutOfFuel} p)
pointed-depth nothing = Safe.panics
pointed-depth (points_to t) = Safe.returns (omega arith)

module _ (n : ℕ) (eq : Ty → Ty → Checked Bool) (ends : EndsBelow n eq) where
  each_equal-Ends :
      (ls rs : Types) → depth_types ls + depth_types rs < n → Ends (each_equal eq ls rs)
  unfolding each_equal
  each_equal-Ends nil rs h = Safe.returns tt
  each_equal-Ends (cons l ls) nil h = Safe.returns tt
  each_equal-Ends (cons l ls) (cons r rs) h =
      and_then-Ends (eq l r) (each_equal eq ls rs) (ends l r (omega arith))
        (each_equal-Ends ls rs (omega arith))

  types_equal-Ends :
      (ls rs : Types) → depth_types ls + depth_types rs < n → Ends (types_equal eq ls rs)
  unfolding types_equal
  types_equal-Ends ls rs h =
      if-Ends (not (count_types ls == count_types rs)) (ok false) (each_equal eq ls rs)
        (Safe.returns tt) (each_equal-Ends ls rs h)

  -- Two parts of the types, the right one looked up first
  both-Ends :
      (a b : Checked Ty) (x y : ℕ)
      → Safe (λ t. depth t ≤ x) a
      → Safe (λ t. depth t ≤ y) b
      → x + y < n
      → Ends (a >>= λ r. b >>= λ l. eq r l)
  both-Ends a b x y sa sb h = Safe-bind sa λ r p. Safe-bind sb λ l q. ends r l (omega arith)

  callable-Ends :
      (p q : Pointee) (ls rs : Types) (b : Bool)
      → depth_pointee p + depth_pointee q < n
      → depth_types ls + depth_types rs < n
      → Ends (
          and_then
            (pointed p >>= λ l. pointed q >>= λ r. eq l r)
            (if b then ok false else types_equal eq ls rs))
  callable-Ends p q ls rs b h h' =
      and_then-Ends _ _
        (both-Ends (pointed p) (pointed q) _ _ (pointed-depth p) (pointed-depth q) h)
        (if-Ends b (ok false) (types_equal eq ls rs) (Safe.returns tt) (types_equal-Ends ls rs h'))

  equal_parts-Ends :
      (s : TypeSelector) (l r : Ty) → depth l + depth r ≤ n → Ends (equal_parts eq s l r)
  unfolding equal_parts
  equal_parts-Ends TypeSelector.float l r h = Safe.returns tt
  equal_parts-Ends TypeSelector.integer l r h = Safe.returns tt
  equal_parts-Ends TypeSelector.boolean l r h = Safe.returns tt
  equal_parts-Ends TypeSelector.string l r h = Safe.returns tt
  equal_parts-Ends TypeSelector.character l r h = Safe.returns tt
  equal_parts-Ends TypeSelector.void l r h = Safe.returns tt
  equal_parts-Ends TypeSelector.struct l r h = Safe.returns tt
  equal_parts-Ends TypeSelector.null l r h = Safe.panics
  equal_parts-Ends TypeSelector.vector (type_of s ts i p b m c w) (type_of s' us i' q b' m' c' w')
        h =
      both-Ends _ _ _ _ (first_type-depth us) (first_type-depth ts) (omega arith)
  equal_parts-Ends TypeSelector.pointer (type_of s ts i p b m c w) (type_of s' us i' q b' m' c' w')
        h =
      both-Ends _ _ _ _ (first_type-depth us) (first_type-depth ts) (omega arith)
  equal_parts-Ends TypeSelector.worker (type_of s ts i p b m c w) (type_of s' us i' q b' m' c' w')
        h =
      and_then-Ends _ _
        (both-Ends _ _ _ _ (first_type-depth us) (first_type-depth ts) (omega arith))
        (both-Ends _ _ _ _ (second_type-depth us) (second_type-depth ts) (omega arith))
  equal_parts-Ends TypeSelector.function (type_of s ts i p b m c w) (type_of s' us i' q b' m' c' w')
        h =
      callable-Ends p q ts us _ (omega arith) (omega arith)
  equal_parts-Ends TypeSelector.closure (type_of s ts i p b m c w) (type_of s' us i' q b' m' c' w')
        h =
      callable-Ends p q ts us _ (omega arith) (omega arith)
  equal_parts-Ends TypeSelector.tuple (type_of s ts i p b m c w) (type_of s' us i' q b' m' c' w')
        h =
      types_equal-Ends ts us (omega arith)

equal_fuel-Ends : (n : ℕ) → EndsBelow n (equal_fuel n)
unfolding equal_fuel
equal_fuel-Ends zero l r h = absurd (omega arith)
equal_fuel-Ends (suc n) l r h =
    if-Ends (not (same_selector l r)) (ok false) _ (Safe.returns tt)
      (equal_parts-Ends n (equal_fuel n) (equal_fuel-Ends n) (selector l) l r (omega arith))

pub equal-Ends : (l r : Ty) → Ends (equal l r)
unfolding equal
equal-Ends l r = equal_fuel-Ends (suc (depth l + depth r)) l r (omega arith)

floats-Ends :
    (a b : TypeSelector)
    → Ends (elim a [
      | TypeSelector.float ↦ elim b [ TypeSelector.float ↦ ok true | _ ↦ ok false ]
      | _ ↦ ok false
    ])
floats-Ends TypeSelector.float TypeSelector.float = Safe.returns tt
floats-Ends _ _ = Safe.returns tt

pub numerically_compatible-Ends : (l r : Ty) → Ends (numerically_compatible l r)
unfolding numerically_compatible
numerically_compatible-Ends l r =
    Safe-bind (equal-Ends l r)
      λ same _. if-Ends same (ok true) _ (Safe.returns tt) (floats-Ends (selector l) (selector r))

can_assign_fuel-Ends : (n : ℕ) → EndsBelow n (can_assign_fuel n)
unfolding can_assign_fuel
can_assign_fuel-Ends zero l r h = absurd (omega arith)
can_assign_fuel-Ends (suc n) (type_of s ts i p b m c w) (type_of s' us i' q b' m' c' w') h =
    Safe-bind
      (numerically_compatible-Ends (type_of s ts i p b m c w) (type_of s' us i' q b' m' c' w'))
      λ same _. if-Ends same (ok true) _ (Safe.returns tt) (
        if-Ends _ _ _
          (types_equal-Ends n (can_assign_fuel n) (can_assign_fuel-Ends n) ts us (omega arith))
          (Safe.returns tt))

-- `Equal`, `NumericallyCompatible` and `CanAssignTo` of any two types return or panic: the fuel does
-- not run out.
pub comparison-Ends :
    (l r : Ty) → Ends (equal l r) × Ends (numerically_compatible l r) × Ends (can_assign_to l r)
unfolding can_assign_to
comparison-Ends l r = (
  equal-Ends l r,
  numerically_compatible-Ends l r,
  can_assign_fuel-Ends (suc (depth l + depth r)) l r (omega arith),
)
