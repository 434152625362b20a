-- ===== src/Ast/Check/Nodes.antt =====
-- src/ast/expressions.go, closure.go and worker-expressions.go: what a node says of its type, before
-- and after its check, and the parts of `Check` that do not call it again.
use eyot.Prelude.{
  ℕ, Bool, true, false, ◌||◌, Option, none, some, [], codes, text_eq, Text, ◌==◌, if◌then◌else◌,
  Outcome, ok, panic, ◌>>=◌, NoError,
}
use eyot.Ast.Ids.{blank_struct_id}
use eyot.Ast.Structs.{struct_type}
use eyot.Ast.Types.{
  Ty, type_of, Types, nil, cons, TypeSelector, FunctionLocation, Pointee, points_to, selector,
  types, return_type, plain, make_void, make_pointer, make_vector, first_type, second_type,
  selector_code,
}
use eyot.Ast.Scope.{blank_type}
use eyot.Ast.Syntax.{
  Expression, Expressions, no_expressions, entry, nil_entry, null_literal, self_terminal, cast,
  boolean, character, integer, string, gpu_builtin, identifier, float, struct_literal, tuple,
  access, binary, unary, index, call, new, dereference, vector_literal, range, closure,
  create_worker, receive_worker, create_pipeline,
}

-- What a call of `Type` comes to, which may be a panic.
abbrev pub Typed : Type 0
Typed = Outcome NoError Ty

-- A node after its check: what its `Type` comes to and, of an access, what that of the expression
-- that is accessed comes to.
pub record Node : Type 0 where
  pub type : Typed
  pub accessed : Option Typed

abbrev pub own : Typed → Node
own t = record { type = t; accessed = none }

abbrev pub has_selector : TypeSelector → Ty → Bool
has_selector s ty = selector_code s == selector_code (selector ty)

abbrev pub function_type : Types → Ty → FunctionLocation → Ty
function_type ts r l = type_of TypeSelector.function ts blank_struct_id (points_to r) false [] l 0

-- `voidFunction` with the location that `print` has
abbrev pub print_type : Ty
print_type = function_type nil make_void FunctionLocation.anywhere

abbrev pub float_type : ℕ → Ty
float_type w =
    type_of TypeSelector.float nil blank_struct_id Pointee.nothing false [] FunctionLocation.cpu w

abbrev f32 : Ty
f32 = float_type 32

-- `calculateType`: the type, and whether there is such a function.
unfoldable pub builtin_type : Text → Ty × Bool
builtin_type name =
    if text_eq name (codes "sqrt") || text_eq name (codes "exp")
    then (function_type (cons f32 nil) f32 FunctionLocation.gpu, true)
    else (
      type_of TypeSelector.function nil blank_struct_id Pointee.nothing false []
          FunctionLocation.gpu 0,
      false,
    )

-- The loop of `ClosureExpression.Type`: the types at the placeholders.
unfoldable pub placeholder_types : Expressions → Types → Outcome NoError Types
placeholder_types no_expressions ts = ok nil
placeholder_types (entry _ es) nil = placeholder_types es nil
placeholder_types (entry _ es) (cons _ ts) = placeholder_types es ts
placeholder_types (nil_entry es) nil = panic
placeholder_types (nil_entry es) (cons t ts) = placeholder_types es ts >>= λ rest. ok (cons t rest)

abbrev pub closure_type : Expressions → Ty → Typed
closure_type es cet = placeholder_types es (types cet) >>= λ ts. ok (
    type_of TypeSelector.closure ts blank_struct_id (return_type cet) false [] FunctionLocation.cpu
      0)

abbrev pub count_expressions : Expressions → ℕ
count_expressions no_expressions = 0
count_expressions (entry _ es) = ℕ.suc (count_expressions es)
count_expressions (nil_entry es) = ℕ.suc (count_expressions es)

abbrev pub worker_type : Ty → Ty → Ty
worker_type send receive = plain TypeSelector.worker (cons send (cons receive nil))

-- `ReceiveWorkerExpression.Type`
unfoldable pub received_type : Bool → Ty → Typed
received_type all worker = second_type (types worker) >>= λ ty.
    if has_selector TypeSelector.void ty
    then ok make_void
    else ok (if all then make_vector ty else ty)

abbrev pub pointer_to : Ty → Typed
pointer_to ty = ok (make_pointer ty)

abbrev pub pointed_at : Ty → Typed
pointed_at ty = first_type (types ty)

-- `Type` of a node that no pass has set
unfoldable mutual
  unfolding builtin_type placeholder_types received_type

  pub fresh_type : Expression → Typed
  fresh_type null_literal = ok (plain TypeSelector.null nil)
  fresh_type self_terminal = ok blank_type
  fresh_type (cast ty e) = ok ty
  fresh_type (boolean b) = ok (plain TypeSelector.boolean nil)
  fresh_type (character c) = ok (plain TypeSelector.character nil)
  fresh_type (integer n) = ok blank_type
  fresh_type (string s) = ok (plain TypeSelector.string nil)
  fresh_type (gpu_builtin name) = ok (builtin_type name).0
  fresh_type (identifier name none) = ok blank_type
  fresh_type (identifier name (some r)) = ok r.cached_type
  fresh_type (float l z r w) = ok (float_type w)
  fresh_type (struct_literal id ps) = ok (struct_type id)
  fresh_type (tuple es) = fresh_types es >>= λ ts. ok (plain TypeSelector.tuple ts)
  fresh_type (access e name) = ok blank_type
  fresh_type (binary op l r) = ok blank_type
  fresh_type (unary op e) = ok blank_type
  fresh_type (index e i) = ok blank_type
  fresh_type (call e es) = ok blank_type
  fresh_type (new e) = fresh_type e >>= pointer_to
  fresh_type (dereference e) = fresh_type e >>= pointed_at
  fresh_type (vector_literal ty es) = ok (make_vector ty)
  fresh_type (range c s t) = ok (make_vector blank_type)
  fresh_type (closure e es) = fresh_type e >>= closure_type es
  fresh_type (create_worker e d) = ok (worker_type blank_type blank_type)
  fresh_type (receive_worker e all) = fresh_type e >>= received_type all
  fresh_type (create_pipeline l r) = ok (worker_type blank_type blank_type)

  pub fresh_types : Expressions → Outcome NoError Types
  fresh_types no_expressions = ok nil
  fresh_types (entry e es) = fresh_type e >>= λ t. fresh_types es >>= λ ts. ok (cons t ts)
  fresh_types (nil_entry es) = panic
