-- ===== src/Ast/Check/Definitions.antt =====
-- src/ast/functions.go, structs.go, tles.go and module.go: `Check` of the elements of a module, in the
-- pass KPassSetTypes; and the test that a function ends with a return.
use eyot.Prelude.{
  Bool, true, false, ◌&&◌, Option, none, some, List, [], ◌∷◌, codes, Text, if◌then◌else◌, Outcome,
  ok, panic, ◌>>=◌, NoError,
}
use eyot.Errors.{set_current_location}
use eyot.Token.Printed.{Format}
use eyot.Ast.Ids.{module_blank}
use eyot.Ast.Structs.{FunctionDefinition, FunctionParameter, StructDefinition, struct_type}
use eyot.Ast.Types.{Ty, FunctionLocation, make_pointer}
use eyot.Ast.Scope.{Scope, set_variable, set_struct, set_module}
use eyot.Ast.Syntax.{
  LValue, Statement, Block, no_statements, statement, Segments, no_segments, segment, else_segment,
  FunctionSyntax, StructSyntax, Element, struct_element, function_element, const_element,
  import_element, dummy_element, if_statement, return_void, return_value,
}
use eyot.Ast.Check.Context.{
  enter_gpu_block, leave_gpu_block, enter_cpu_block, leave_cpu_block, push_return_type,
  pop_return_type, get_elements_for_insert,
}
use eyot.Ast.Check.Pass.{
  Pass, ◌>>>=◌, ◌>>>◌, demand, guarded, require, change, attempt, rescope, within_scope,
}
use eyot.Ast.Check.Parts.{nothing}
use eyot.Ast.Check.Statements.{check_assign, check_statements}

-- `CheckStatementBlockEndsWithReturn`: the last statement returns, or is an `if` whose segments all
-- end with a return.
unfoldable mutual
  pub ends_with_return : Block → Bool
  ends_with_return no_statements = false
  ends_with_return (statement s no_statements) = returns_last s
  ends_with_return (statement s (statement s' b)) = ends_with_return (statement s' b)

  pub returns_last : Statement → Bool
  returns_last return_void = true
  returns_last (return_value e) = true
  returns_last (if_statement segs) = segments_return segs
  returns_last _ = false

  pub segments_return : Segments → Bool
  segments_return no_segments = true
  segments_return (segment e b segs) = ends_with_return b && segments_return segs
  segments_return (else_segment b segs) = ends_with_return b && segments_return segs

-- The parser has put the parameters into the scope that the block stands in.
unfoldable pub bind_parameters : List FunctionParameter → Scope → Outcome NoError Scope
bind_parameters [] s = ok s
bind_parameters (p ∷ ps) s = set_variable s p.name p.type true >>= bind_parameters ps

-- The block of CPU or GPU code that a function opens, which `defer` closes
unfoldable pub in_location : FunctionLocation → Pass (Unit {0}) → Pass (Unit {0})
in_location FunctionLocation.gpu m = change enter_gpu_block >>> m >>> attempt leave_gpu_block
in_location FunctionLocation.cpu m = change enter_cpu_block >>> m >>> attempt leave_cpu_block
in_location FunctionLocation.anywhere m = m

abbrev pub last_name : List Text → Outcome NoError Text
last_name [] = panic
last_name (n ∷ []) = ok n
last_name (n ∷ m ∷ ns) = last_name (m ∷ ns)

-- The struct that the methods belong to
unfoldable pub definition_of : StructSyntax → StructDefinition
definition_of s = record { fields = s.fields; functions = definitions s.functions }
  where
    definitions : List FunctionSyntax → List FunctionDefinition
    definitions [] = []
    definitions (fs ∷ fss) = fs.definition ∷ definitions fss

module _ (f : Format) (type_text : Ty → Text) (lvalue_text : LValue → Text) where
  abbrev pub require_parameters : List FunctionParameter → Pass (Unit {0})
  require_parameters [] = nothing
  require_parameters (p ∷ ps) = require f.int p.type >>> require_parameters ps

  -- A block that is missing is a nil pointer.
  unfoldable pub check_body : Option Block → Pass (Unit {0})
  unfolding check_statements
  check_body none = demand panic
  check_body (some b) = within_scope (check_statements f type_text lvalue_text b)

  unfoldable pub check_function : FunctionSyntax → Pass (Unit {0})
  unfolding in_location check_body bind_parameters
  check_function fs =
      let fd = fs.definition in
      if module_blank fd.id.module_id
      then demand panic
      else in_location fd.location (
          require f.int fd.return_type
          >>> guarded tt (
              require_parameters fd.parameters
              >>> change (λ cc. push_return_type cc fd.return_type)
              >>> within_scope (rescope (bind_parameters fd.parameters) >>> check_body fs.block)
              >>> attempt pop_return_type))

  abbrev pub check_functions : List FunctionSyntax → Pass (Unit {0})
  check_functions [] = nothing
  check_functions (fs ∷ fss) = check_function fs >>> check_functions fss

  -- The scope of the methods has the object, which the parser puts there.
  unfoldable pub check_struct : StructSyntax → Pass (Unit {0})
  unfolding check_function definition_of
  check_struct s =
      rescope (λ scope. ok (set_struct scope s.id (definition_of s)))
      >>> require f.int (struct_type s.id)
      >>> within_scope (
          rescope
            (λ scope. set_variable scope (codes "__self__") (make_pointer (struct_type s.id)) false)
          >>> check_functions s.functions)

  unfoldable pub check_element : Element → Pass (Unit {0})
  unfolding check_struct check_function check_assign
  check_element (struct_element s) = check_struct s
  check_element (function_element fs) = check_function fs
  check_element (const_element a) = check_assign f type_text lvalue_text a
  check_element (import_element i) =
      demand (last_name i.names) >>>= λ ident. rescope (λ s. ok (set_module s ident i.names))
  check_element (dummy_element location) =
      change (λ cc. record cc { errors = set_current_location cc.errors location })

  -- `Module.Check`: no element is inserted in this pass, and those that are left are dropped.
  unfoldable pub check_module : List Element → Pass (Unit {0})
  unfolding check_element
  check_module [] = nothing
  check_module (e ∷ es) =
      check_element e
      >>> guarded tt (change (λ cc. (get_elements_for_insert cc).1) >>> check_module es)
