-- ===== src/Ast/Values/Defaults.antt =====
-- src/ast/types.go: which values DefaultValueExpression returns.
use eyot.Prelude.{
  ℕ, zero, suc, false, Option, none, some, List, [], ◌∷◌, ◌+◌, ◌≤◌, ap, sym, arith, Post, Post-bind,
  of_ok, ◌↔◌, ok, ◌>>=◌, ◌≡◌, refl,
}
use eyot.Ast.Structs.{StructDefinition, StructField}
use eyot.Ast.Types.{Ty, OutOfFuel, Checked, TypeSelector, selector, struct_id}
use eyot.Ast.Scope.{Scope, lookup_struct_definition}
use eyot.Ast.Syntax.{
  Expression, Pairs, no_pairs, pair, null_literal, boolean, character, integer, string, float,
  struct_literal,
}
use eyot.Ast.Values.{Default, default_pairs, default_struct, default_of, default_value_expression}

-- The literals that stand for zero, by the selector of the type
abbrev pub zero_literal : TypeSelector → Option Expression
zero_literal TypeSelector.integer = some (integer 0)
zero_literal TypeSelector.string = some (string [])
zero_literal TypeSelector.boolean = some (boolean false)
zero_literal TypeSelector.character = some (character 0)
zero_literal TypeSelector.float = some (float 0 1 0 0)
zero_literal TypeSelector.pointer = some null_literal
zero_literal TypeSelector.null = some null_literal
zero_literal _ = none

-- An expression is the zero of a type: its literal, or the literal of the struct that the scope
-- finds, with the zero of each field under its name, in the order of the fields.
mutual
  pub data IsZero (s : Scope) : Ty → Expression → Type 0 where
    literal : {ty : Ty} {e : Expression} → zero_literal (selector ty) ≡ some e → IsZero s ty e
    struct :
        {ty : Ty} {sd : StructDefinition} {pairs : Pairs}
        → selector ty ≡ TypeSelector.struct
        → lookup_struct_definition s (struct_id ty) ≡ some sd
        → AreZeros s sd.fields pairs
        → IsZero s ty (struct_literal (struct_id ty) pairs)

  pub data AreZeros (s : Scope) : List StructField → Pairs → Type 0 where
    no_fields : AreZeros s [] no_pairs
    field :
        {f : StructField} {fs : List StructField} {e : Expression} {pairs : Pairs}
        → IsZero s f.type e
        → AreZeros s fs pairs
        → AreZeros s (f ∷ fs) (pair f.name e pairs)

-- What is said of a result: nothing, where there is none
abbrev Found : {A : Type 0} → (A → Type 0) → Option A → Type 0
Found P none = Unit {0}
Found P (some a) = P a

module _ {A B : Type 0} (P : A → Type 0) (Q : B → Type 0) (k : A → Checked (Option B)) where
  abbrev and_then : Option A → Checked (Option B)
  and_then none = ok none
  and_then (some a) = k a

  Post-and_then :
      {m : Checked (Option A)}
      → Post (Found P) m
      → ((a : A) → P a → Post (Found Q) (k a))
      → Post (Found Q) (m >>= and_then)
  Post-and_then post h = Post-bind post cases
    where
      cases : (o : Option A) → Found P o → Post (Found Q) (and_then o)
      cases none z = Post.returns tt
      cases (some a) z = h a z

module _ (s : Scope) where
  module _ (default : Ty → Default) (h : (ty : Ty) → Post (Found (IsZero s ty)) (default ty)) where
    default_pairs-Post :
        (fs : List StructField) → Post (Found (AreZeros s fs)) (default_pairs default fs)
    unfolding default_pairs
    default_pairs-Post [] = Post.returns AreZeros.no_fields
    default_pairs-Post (f ∷ fs) =
        Post-and_then (IsZero s f.type) (AreZeros s (f ∷ fs)) _ (h f.type) λ e z.
          Post-and_then (AreZeros s fs) (AreZeros s (f ∷ fs)) _ (default_pairs-Post fs)
            λ pairs zs. Post.returns (AreZeros.field z zs)

    default_struct-Post :
        (ty : Ty) (o : Option StructDefinition)
        → selector ty ≡ TypeSelector.struct
        → lookup_struct_definition s (struct_id ty) ≡ o
        → Post (Found (IsZero s ty)) (default_struct default (struct_id ty) o)
    unfolding default_struct
    default_struct-Post ty none e found = Post.returns tt
    default_struct-Post ty (some sd) e found =
        Post-and_then (AreZeros s sd.fields) (IsZero s ty) _ (default_pairs-Post sd.fields)
          λ pairs zs. Post.returns (IsZero.struct e found zs)

    default_of-Post :
        (ty : Ty) (sel : TypeSelector)
        → selector ty ≡ sel
        → Post (Found (IsZero s ty)) (default_of default s sel ty)
    unfolding default_of
    default_of-Post ty TypeSelector.integer e = Post.returns (IsZero.literal (ap zero_literal e))
    default_of-Post ty TypeSelector.string e = Post.returns (IsZero.literal (ap zero_literal e))
    default_of-Post ty TypeSelector.boolean e = Post.returns (IsZero.literal (ap zero_literal e))
    default_of-Post ty TypeSelector.character e = Post.returns (IsZero.literal (ap zero_literal e))
    default_of-Post ty TypeSelector.float e = Post.returns (IsZero.literal (ap zero_literal e))
    default_of-Post ty TypeSelector.pointer e = Post.returns (IsZero.literal (ap zero_literal e))
    default_of-Post ty TypeSelector.null e = Post.returns (IsZero.literal (ap zero_literal e))
    default_of-Post ty TypeSelector.struct e = default_struct-Post ty _ e refl
    default_of-Post ty TypeSelector.closure e = Post.returns tt
    default_of-Post ty TypeSelector.function e = Post.returns tt
    default_of-Post ty TypeSelector.worker e = Post.returns tt
    default_of-Post ty TypeSelector.vector e = Post.returns tt
    default_of-Post ty TypeSelector.void e = Post.panics
    default_of-Post ty TypeSelector.tuple e = Post.panics

  default_value-Post :
      (fuel : ℕ) (ty : Ty) → Post (Found (IsZero s ty)) (default_value_expression fuel s ty)
  unfolding default_value_expression
  default_value-Post zero ty = Post.fails
  default_value-Post (suc fuel) ty =
      default_of-Post (default_value_expression fuel s) (default_value-Post fuel) ty (selector ty)
        refl

  default_of-zero_literal :
      (default : Ty → Default) (sel : TypeSelector) (ty : Ty) {e : Expression}
      → zero_literal sel ≡ some e
      → default_of default s sel ty ≡ ok (some e)
  unfolding default_of
  default_of-zero_literal default TypeSelector.integer ty z = ap ok z
  default_of-zero_literal default TypeSelector.string ty z = ap ok z
  default_of-zero_literal default TypeSelector.boolean ty z = ap ok z
  default_of-zero_literal default TypeSelector.character ty z = ap ok z
  default_of-zero_literal default TypeSelector.float ty z = ap ok z
  default_of-zero_literal default TypeSelector.pointer ty z = ap ok z
  default_of-zero_literal default TypeSelector.null ty z = ap ok z
  default_of-zero_literal default TypeSelector.struct ty z = cc
  default_of-zero_literal default TypeSelector.closure ty z = cc
  default_of-zero_literal default TypeSelector.function ty z = cc
  default_of-zero_literal default TypeSelector.worker ty z = cc
  default_of-zero_literal default TypeSelector.vector ty z = cc
  default_of-zero_literal default TypeSelector.void ty z = cc
  default_of-zero_literal default TypeSelector.tuple ty z = cc

  -- The nodes of a zero
  mutual
    height : {ty : Ty} {e : Expression} → IsZero s ty e → ℕ
    height (IsZero.literal z) = 1
    height (IsZero.struct a b zs) = suc (heights zs)

    heights : {fs : List StructField} {pairs : Pairs} → AreZeros s fs pairs → ℕ
    heights AreZeros.no_fields = 0
    heights (AreZeros.field z zs) = height z + heights zs

  mutual
    unfolding default_value_expression default_of default_struct default_pairs height

    zero-default :
        {ty : Ty} {e : Expression} (z : IsZero s ty e) (fuel : ℕ)
        → height z ≤ fuel
        → default_value_expression fuel s ty ≡ ok (some e)
    zero-default {ty} {e} (IsZero.literal z) zero le = absurd (omega (arith, le))
    zero-default {ty} {e} (IsZero.literal z) (suc fuel) le =
        default_of-zero_literal (default_value_expression fuel s) (selector ty) ty z
    zero-default {ty} {e} (IsZero.struct a b zs) zero le = absurd (omega (arith, le))
    zero-default {ty} {e} (IsZero.struct a b zs) (suc fuel) le =
        rw (a, b, zeros-default zs fuel (omega (arith, le))) refl

    zeros-default :
        {fs : List StructField} {pairs : Pairs} (zs : AreZeros s fs pairs) (fuel : ℕ)
        → heights zs ≤ fuel
        → default_pairs (default_value_expression fuel s) fs ≡ ok (some pairs)
    zeros-default AreZeros.no_fields fuel le = refl
    zeros-default (AreZeros.field z zs) fuel le =
        rw (zero-default z fuel (omega (arith, le)), zeros-default zs fuel (omega (arith, le))) refl

-- `DefaultValueExpression` returns an expression exactly where the type has a zero in the scope, and
-- it is that zero: a literal, or a struct literal with the zero of each field of the struct that the
-- scope finds, in their order. Fuel enough for the zero is given, however deep the structs are.
pub default_value_expression-IsZero :
    (s : Scope) (ty : Ty) (e : Expression)
    → IsZero s ty e ↔ ((fuel : ℕ) × (default_value_expression fuel s ty ≡ ok (some e)))
default_value_expression-IsZero s ty e = (
  λ z. (height s z, zero-default s z (height s z) (omega arith)),
  λ (fuel, h).
      let post : Post {E = OutOfFuel} (Found (IsZero s ty)) (ok (some e)) =
        rw (sym h) (default_value-Post s fuel ty) in
      of_ok post,
)
