-- ===== src/Ast/Check/Parts.antt =====
-- src/ast/expressions.go, closure.go and worker-expressions.go: what `Check` does with a node whose
-- parts are checked, in the pass KPassSetTypes.
use eyot.Prelude.{
  [], Bool, true, false, not, ◌||◌, Option, none, some, List, ◌∷◌, ◌++◌, codes, text_eq, Text, ◌==◌,
  if◌then◌else◌, ok, ◌>>=◌,
}
use eyot.Token.Printed.{Format}
use eyot.Ast.Ids.{StructId, struct_key}
use eyot.Ast.Structs.{StructDefinition, StructField, get_field}
use eyot.Ast.Types.{
  Ty, nil, TypeSelector, FunctionLocation, types, struct_id, return_type, location, plain,
  make_void, count_types, is_callable, first_type, second_type, pointed, unwrapped, equal,
  can_assign_to,
}
use eyot.Ast.Types.Printed.{type_string}
use eyot.Ast.Values.{rough_type_name}
use eyot.Ast.Scope.{VariableBinding, blank_type, lookup_variable_type, lookup_struct_definition}
use eyot.Ast.Syntax.{
  Expression, Expressions, BinaryOperator, UnaryOperator, PipeDestination, identifier,
}
use eyot.Ast.Check.Nodes.{
  Typed, Node, own, has_selector, function_type, builtin_type, closure_type, count_expressions,
  worker_type,
}
use eyot.Ast.Check.Pass.{
  Pass, pure, ◌>>>=◌, ◌>>>◌, force, demand, fail, get_scope, note_cpu, note_gpu, require_gpu,
  take_temporary_name, require_vector_of, require,
}
use eyot.Ast.Check.Operators.{
  Verdict, accepts, rejects, integer_type, binary_verdict, unary_verdict,
}

abbrev pub nothing : Pass (Unit {0})
nothing = pure tt

-- A type that an access, or a method of a string or a vector, has.
unfoldable pub string_method : Text → Option Ty
string_method name =
    if text_eq name (codes "resize")
    then some (function_type nil make_void FunctionLocation.cpu)
    else if text_eq name (codes "length")
    then some (function_type nil integer_type FunctionLocation.anywhere)
    else none

unfoldable pub vector_method : Text → Option Ty
vector_method name =
    if text_eq name (codes "append")
      || (text_eq name (codes "resize") || text_eq name (codes "erase"))
    then some (function_type nil make_void FunctionLocation.cpu)
    else if text_eq name (codes "length")
    then some (function_type nil integer_type FunctionLocation.cpu)
    else none

-- `IsPrintLn`
unfoldable pub is_print : Expression → Bool
is_print (identifier name r) = text_eq name (codes "print_ln") || text_eq name (codes "print")
is_print _ = false

-- An error leaves the cached type as it was.
abbrev pub complain : Text → Pass Node
complain message = fail message >>> pure (own (ok blank_type))

-- A method, whose type is not required
unfoldable pub method_node : Text → Option Ty → Pass Node
method_node message (some ty) = pure (own (ok ty))
method_node message none = complain message

abbrev pub of_access : Typed → Node → Pass Node
of_access accessed n = pure (record { type = n.type; accessed = some accessed })

abbrev pub runs_on_cpu : Ty → Bool
runs_on_cpu ty = elim (location ty) [ FunctionLocation.cpu ↦ true | _ ↦ false ]

abbrev pub blank_worker : Ty
blank_worker = worker_type blank_type blank_type

abbrev pub complain_worker : Text → Pass Node
complain_worker message = fail message >>> pure (own (ok blank_worker))

abbrev pub gpu_destination : PipeDestination → Pass (Unit {0})
gpu_destination PipeDestination.cpu = nothing
gpu_destination PipeDestination.gpu = require_gpu

-- `type_text` is what the `%v` of package fmt writes of a type.
module _ (f : Format) (type_text : Ty → Text) where
  abbrev pub finish : Ty → Pass Node
  finish ty = require f.int ty >>> pure (own (ok ty))

  unfoldable pub settle : Verdict → Pass Node
  settle (accepts ty) = finish ty
  settle (rejects message) = complain message

  -- A look-up of a variable; a type that is not found is the zero value, which is required too.
  unfoldable pub variable_node : Text → Option VariableBinding → Pass Node
  variable_node message (some b) = finish b.variable_type
  variable_node message none = fail message >>> finish blank_type

  unfoldable pub check_variable : Text → Text → Pass Node
  unfolding variable_node
  check_variable message name =
      get_scope >>>= λ s. variable_node message (lookup_variable_type s name)

  unfoldable pub check_builtin : Text → Pass Node
  check_builtin name =
      (if (builtin_type name).1 then nothing else fail (codes "No such gpu builtin " ++ name))
      >>> note_gpu (codes "gpu builtin")
      >>> pure (own (ok (builtin_type name).0))

  -- `lt` and `rt` of the message
  abbrev pub mismatch : Ty → Ty → Text
  mismatch lt rt =
      codes "Mismatched types in binary operator '"
      ++ (type_text lt ++ (codes "' vs '" ++ (type_text rt ++ codes "'")))

  unfoldable pub check_binary : BinaryOperator → Typed → Typed → Pass Node
  unfolding settle binary_verdict
  check_binary op l r = demand l >>>= λ lt.
      demand r >>>= λ rt. force (binary_verdict (mismatch lt rt) op lt rt) >>>= settle

  unfoldable pub check_unary : UnaryOperator → Typed → Pass Node
  unfolding settle unary_verdict
  check_unary op e = demand e >>>= λ ty. settle (unary_verdict op ty)

  abbrev pub not_found : Text → Ty → Text
  not_found name accessed =
      codes "Do not recognise field '" ++ (name ++ (codes "' on type " ++ type_text accessed))

  unfoldable pub field_node : Text → Option StructField → Pass Node
  field_node message (some field) = finish field.type
  field_node message none = complain message

  unfoldable pub struct_node : Text → StructId → Text → Option StructDefinition → Pass Node
  unfolding field_node
  struct_node message id name (some sd) = field_node message (get_field sd name)
  struct_node message id name none =
      complain (codes "Could not find struct named " ++ struct_key id)

  -- `AccessExpression.Check` on the unwrapped type `ty` of what is accessed
  unfoldable pub access_node : Text → Text → Ty → Pass Node
  unfolding struct_node method_node
  access_node message name ty =
      if has_selector TypeSelector.struct ty
      then (get_scope >>>= λ s.
          struct_node message (struct_id ty) name (lookup_struct_definition s (struct_id ty)))
      else if has_selector TypeSelector.string ty
      then method_node message (string_method name)
      else if has_selector TypeSelector.vector ty
      then method_node message (vector_method name)
      else (demand (type_string f ty) >>>= λ text.
          complain (
            codes "Tried to take a field value of a non-struct type in access expression: "
            ++ text))

  unfoldable pub check_access : Typed → Text → Pass Node
  unfolding access_node
  check_access e name = demand e >>>= λ accessed. demand (unwrapped accessed) >>>= λ ty.
      access_node (not_found name accessed) name ty >>>= of_access e

  -- The index is looked at after the type of the elements is set.
  unfoldable pub index_with : Typed → Ty → Pass Node
  index_with i ty = demand i >>>= λ it.
      if has_selector TypeSelector.integer it
      then finish ty
      else (fail (codes "Attempting to access a vector using non-integer " ++ type_text it)
          >>> pure (own (ok ty)))

  unfoldable pub check_index : Typed → Typed → Pass Node
  unfolding index_with
  check_index e i = demand e >>>= λ ty. demand (unwrapped ty) >>>= λ at.
      if has_selector TypeSelector.vector at
      then (demand (first_type (types at)) >>>= index_with i)
      else if has_selector TypeSelector.string at
      then index_with i (plain TypeSelector.character nil)
      else complain (codes "Attempting to access a non-vector type " ++ type_text at)

  -- Where a method of a vector is called, the vector is required.
  unfoldable pub require_method : Option Typed → Pass (Unit {0})
  require_method none = nothing
  require_method (some t) = demand t >>>= λ accessed. demand (unwrapped accessed) >>>= λ ty.
      if has_selector TypeSelector.vector ty
      then (demand (first_type (types ty)) >>>= require_vector_of)
      else nothing

  unfoldable pub check_called : Typed → Pass Node
  check_called t = demand t >>>= λ ty.
      if is_callable ty
      then ((if runs_on_cpu ty then note_cpu (codes "function call") else nothing)
          >>> demand (pointed (return_type ty))
          >>>= λ r. pure (own (ok r)))
      else complain (codes "Expression not callable: is of type '" ++ (type_text ty ++ codes "'"))

  -- The loop over the initialisers of a vector, which ends at the first bad type
  unfoldable pub check_elements : Ty → List Typed → Pass (Unit {0})
  check_elements element [] = nothing
  check_elements element (t ∷ ts) =
      let rest = check_elements element ts in
      demand t >>>= λ ty. force (can_assign_to ty element) >>>= λ good.
      if good
      then rest
      else fail (
          codes "Bad type in vector literal. Have "
          ++ (type_text ty ++ (codes ", expecting " ++ type_text element)))

  unfoldable pub assert_type : TypeSelector → Typed → Pass (Unit {0})
  assert_type s t = demand t >>>= λ ty.
      if has_selector s ty
      then nothing
      else fail (
          codes "Mismatched types: expecting "
          ++ (rough_type_name s ++ (codes ", got " ++ type_text ty)))

  unfoldable pub check_closure : Expressions → Typed → Pass Node
  check_closure es t =
      let applied = own (t >>= closure_type es) in
      demand t >>>= λ cet.
      if count_types (types cet) == count_expressions es
      then take_temporary_name >>> pure applied
      else (fail (
            codes "Cannot partially apply "
            ++ (f.int (count_expressions es)
                ++ (codes " arguments to a function of "
                    ++ (f.int (count_types (types cet)) ++ codes " arguments"))))
          >>> pure applied)

  unfoldable pub check_worker : PipeDestination → Typed → Pass Node
  check_worker d t = gpu_destination d >>> demand t >>>= λ lty.
      if not (is_callable lty)
      then complain_worker (codes "A create channel expression must be passed something callable")
      else if not (count_types (types lty) == 1)
      then complain_worker
          (codes "A create channel expression must be passed a function with a single parameter")
      else ((if has_selector TypeSelector.function lty then nothing else take_temporary_name)
          >>> demand (first_type (types lty))
          >>>= λ send. demand (pointed (return_type lty)) >>>= λ receive.
              pure (own (ok (worker_type send receive))))

  unfoldable pub check_pipeline : Typed → Typed → Pass Node
  check_pipeline l r = demand l >>>= λ lty.
      if not (has_selector TypeSelector.worker lty)
      then complain_worker (codes "First argument to pipeline keyword must be a worker expression")
      else demand r >>>= λ rty.
          if not (has_selector TypeSelector.worker rty)
          then complain_worker
              (codes "Second argument to pipeline keyword must be a worker expression")
          else demand (first_type (types lty)) >>>= λ send.
              demand (second_type (types lty)) >>>= λ intermediate.
              demand (second_type (types rty)) >>>= λ receive.
              demand (first_type (types rty)) >>>= λ input.
              force (equal input intermediate) >>>= λ good.
              if good
              then pure (own (ok (worker_type send receive)))
              else (fail (
                    codes
                      "Output from first argument to pipeline must be the same as the input to the second")
                  >>> pure (own (ok (worker_type send receive))))
