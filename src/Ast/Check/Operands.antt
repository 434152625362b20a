-- ===== src/Ast/Check/Operands.antt =====
-- src/ast/expressions.go, closure.go and worker-expressions.go: what the parts of an expression must be
-- of, for the expression to have a type.
use eyot.Prelude.{
  ◌≡◌, Bool, true, false, Option, none, some, List, [], ◌∷◌, Text, ◌==◌, Outcome, ok, NoError,
}
use eyot.Ast.Structs.{StructDefinition, StructField, get_field}
use eyot.Ast.Types.{
  Ty, Types, nil, TypeSelector, types, struct_id, return_type, plain, make_pointer, count_types,
  is_callable, is_numeric, first_type, second_type, pointed, unwrapped, equal,
  numerically_compatible, can_assign_to,
}
use eyot.Ast.Scope.{Scope, lookup_struct_definition}
use eyot.Ast.Syntax.{BinaryOperator, UnaryOperator}
use eyot.Ast.Check.Pass.Steps.{Extended}
use eyot.Ast.Check.Nodes.{Typed, has_selector}
use eyot.Ast.Check.Operators.{boolean_type, arithmetic_type_combine, null_and_pointer}
use eyot.Ast.Check.Parts.{string_method, vector_method}
use eyot.Ast.Check.Expressions.{cons_type}

abbrev pub is_arithmetic : BinaryOperator → Bool
is_arithmetic BinaryOperator.add = true
is_arithmetic BinaryOperator.subtract = true
is_arithmetic BinaryOperator.multiply = true
is_arithmetic BinaryOperator.divide = true
is_arithmetic _ = false

-- `==` and `!=`
abbrev pub is_equality : BinaryOperator → Bool
is_equality BinaryOperator.equality = true
is_equality BinaryOperator.inequality = true
is_equality _ = false

abbrev pub is_comparison : BinaryOperator → Bool
is_comparison BinaryOperator.add = false
is_comparison BinaryOperator.subtract = false
is_comparison BinaryOperator.multiply = false
is_comparison BinaryOperator.divide = false
is_comparison BinaryOperator.modulo = false
is_comparison _ = true

-- The types that a binary operator takes, and the type that it gives.
pub data Combines (op : BinaryOperator) (lt rt : Ty) : Ty → Type 0 where
  arithmetic :
      is_arithmetic op ≡ true
      → numerically_compatible lt rt ≡ ok true
      → Combines op lt rt (arithmetic_type_combine lt rt)
  modulo :
      op ≡ BinaryOperator.modulo
      → has_selector TypeSelector.integer lt ≡ true
      → has_selector TypeSelector.integer rt ≡ true
      → Combines op lt rt lt
  comparison : is_comparison op ≡ true → equal lt rt ≡ ok true → Combines op lt rt boolean_type
  null_left : is_equality op ≡ true → null_and_pointer lt rt ≡ true → Combines op lt rt boolean_type
  null_right :
      is_equality op ≡ true → null_and_pointer rt lt ≡ true → Combines op lt rt boolean_type

pub data Applies (ty : Ty) : UnaryOperator → Ty → Type 0 where
  negation : has_selector TypeSelector.boolean ty ≡ true → Applies ty UnaryOperator.not boolean_type
  address : Applies ty UnaryOperator.address_of (make_pointer ty)
  negative : is_numeric ty ≡ true → Applies ty UnaryOperator.negate ty

-- The type of a member of a value
pub data MemberOf (s : Scope) (name : Text) (ty : Ty) : Ty → Type 0 where
  field :
      (sd : StructDefinition) (fd : StructField)
      → has_selector TypeSelector.struct ty ≡ true
      → lookup_struct_definition s (struct_id ty) ≡ some sd
      → get_field sd name ≡ some fd
      → MemberOf s name ty fd.type
  of_string :
      (t : Ty)
      → has_selector TypeSelector.string ty ≡ true
      → string_method name ≡ some t
      → MemberOf s name ty t
  of_vector :
      (t : Ty)
      → has_selector TypeSelector.vector ty ≡ true
      → vector_method name ≡ some t
      → MemberOf s name ty t

pub data ElementOf (ty : Ty) : Ty → Type 0 where
  of_vector :
      (t : Ty)
      → has_selector TypeSelector.vector ty ≡ true
      → first_type {E = NoError} (types ty) ≡ ok t
      → ElementOf ty t
  of_string :
      has_selector TypeSelector.string ty ≡ true → ElementOf ty (plain TypeSelector.character nil)

-- The scope where something is called.
pub data MethodScope (s : Scope) : Option Typed → Scope → Type 0 where
  no_access : MethodScope s none s
  not_vector :
      (accessed ty : Ty)
      → unwrapped {E = NoError} accessed ≡ ok ty
      → has_selector TypeSelector.vector ty ≡ false
      → MethodScope s (some (ok accessed)) s
  of_vector :
      (accessed ty element : Ty) (s' : Scope)
      → unwrapped {E = NoError} accessed ≡ ok ty
      → first_type {E = NoError} (types ty) ≡ ok element
      → Extended element s s'
      → MethodScope s (some (ok accessed)) s'

pub data AllAssign (element : Ty) : List Typed → Type 0 where
  no_elements : AllAssign element []
  next_element :
      (ty : Ty) (ts : List Typed)
      → can_assign_to ty element ≡ ok true
      → AllAssign element ts
      → AllAssign element (ok ty ∷ ts)

-- The callee of a worker: one parameter, and what it returns.
pub record Serves (ty send receive : Ty) : Type 0 where
  pub callable : is_callable ty ≡ true
  pub one_parameter : (count_types (types ty) == 1) ≡ true
  pub parameter : first_type {E = NoError} (types ty) ≡ ok send
  pub returned : pointed {E = NoError} (return_type ty) ≡ ok receive

pub record Joins (lty rty send receive : Ty) : Type 0 where
  pub left_worker : has_selector TypeSelector.worker lty ≡ true
  pub right_worker : has_selector TypeSelector.worker rty ≡ true
  pub intermediate : Ty
  pub input : Ty
  pub sends : first_type {E = NoError} (types lty) ≡ ok send
  pub passes_on : second_type {E = NoError} (types lty) ≡ ok intermediate
  pub receives : second_type {E = NoError} (types rty) ≡ ok receive
  pub takes : first_type {E = NoError} (types rty) ≡ ok input
  pub same : equal input intermediate ≡ ok true

-- The types of the parts of a tuple
abbrev pub collect : List Typed → Outcome NoError Types
collect [] = ok nil
collect (t ∷ ts) = cons_type t (collect ts)
