-- ===== src/Tests/Checks.antt =====
-- The pass KPassSetTypes of src/ast over small trees.
use eyot.Prelude.{◌≡◌, refl, true, false, some, none, List, [], ◌∷◌, Text, codes, Safe}
use eyot.Errors.{new_errors, clean}
use eyot.Ast.Ids.{blank_struct_id}
use eyot.Ast.Types.{Ty, nil, cons, TypeSelector, FunctionLocation, plain}
use eyot.Ast.Types.Fuel.{Ends, comparison-Ends}
use eyot.Ast.Types.{equal, numerically_compatible, can_assign_to}
use eyot.Ast.Scope.{Frame, empty_frame}
use eyot.Ast.Syntax.{
  Expression, Expressions, LValue, BinaryOperator, AssignType, Statement, Block, Segments, Element,
  FunctionSyntax, to_block,
}
use eyot.Ast.Check.Context.{CheckPass, new_check_context}
use eyot.Ast.Check.Pass.{PassState, within_scope, parents}
use eyot.Ast.Check.Pass.Rules.{Kept}
use eyot.Ast.Check.Nodes.{function_type}
use eyot.Ast.Check.Operators.{integer_type}
use eyot.Ast.Check.Expressions.{check}
use eyot.Ast.Check.Statements.{check_statements}
use eyot.Ast.Check.Definitions.{check_module}
use eyot.Ast.Check.Typing.{Infers}
use eyot.Ast.Check.Typing.Sound.{check-Infers}
use eyot.Ast.Check.Nesting.Statements.{check_block-closes}
use eyot.Ast.Check.Nesting.Definitions.{check_module-closes}
use eyot.Ast.Check.Returns.{Passes, PassesAll, PassesSome, ends_with_return-PassesAll}
use eyot.Ast.Check.Definitions.{ends_with_return}
use eyot.Ast.Check.Supplied.{SameHoles, check_closure-SameHoles}
use eyot.Tests.States.{some_format}

abbrev some_type_text : Ty → Text
some_type_text ty = []

abbrev some_lvalue_text : LValue → Text
some_lvalue_text l = []

abbrev vector_of_nothing : Ty
vector_of_nothing = plain TypeSelector.vector nil

-- Two types that no source has: a vector without its type
comparison-Ends_example :
    Ends (equal vector_of_nothing vector_of_nothing)
    × Ends (numerically_compatible vector_of_nothing vector_of_nothing)
    × Ends (can_assign_to vector_of_nothing vector_of_nothing)
comparison-Ends_example = comparison-Ends vector_of_nothing vector_of_nothing

abbrev one_variable : Frame
one_variable = record empty_frame {
  variable_bindings =
      (codes "x", record { variable_type = integer_type; assignable = true })
      ∷ (
        codes "g",
        record {
          variable_type =
              function_type (cons integer_type (cons integer_type nil)) integer_type
                FunctionLocation.anywhere;
          assignable = false;
        },
      )
      ∷ [];
}

abbrev at_start : PassState
at_start = record {
  context = record (new_check_context new_errors []) {
    pass = CheckPass.set_types;
    current_module = some (codes "m" ∷ []);
  };
  scope = one_variable ∷ [];
}

abbrev x_plus_one : Expression
x_plus_one =
    Expression.binary BinaryOperator.add (Expression.identifier (codes "x") none)
      (Expression.integer 1)

check-Infers_example :
    Safe
      (λ (n, st').
        clean st'.context.errors ≡ true
        → (clean at_start.context.errors ≡ true)
          × Kept at_start.context st'.context
          × Infers at_start.scope x_plus_one n st'.scope)
      (check some_format some_type_text x_plus_one at_start)
check-Infers_example = check-Infers some_format some_type_text x_plus_one at_start

-- `let y = x + 1` and a loop that declares another variable
abbrev some_block : Block
some_block = to_block (
    Statement.assign
      (record { type = AssignType.let_like; lhs = LValue.identifier (codes "y"); rhs = x_plus_one })
    ∷ Statement.while (Expression.boolean true) (
        to_block (
          Statement.assign (record {
            type = AssignType.const;
            lhs = LValue.identifier (codes "z");
            rhs = Expression.integer 2;
          })
          ∷ Statement.break
          ∷ []))
    ∷ [])

check_block-closes_example :
    Safe
      (λ (_, st').
        clean st'.context.errors ≡ true
        → (clean at_start.context.errors ≡ true)
          × Kept at_start.context st'.context
          × (st'.scope ≡ at_start.scope))
      (within_scope
        (check_statements some_format some_type_text some_lvalue_text some_block)
        at_start)
check_block-closes_example =
    check_block-closes some_format some_type_text some_lvalue_text some_block at_start

-- `if x == x { return x } else { return 1 }`
abbrev both_return : Block
both_return = to_block (
    Statement.if_statement (
      Segments.segment
        (Expression.binary BinaryOperator.equality (Expression.identifier (codes "x") none)
          (Expression.identifier (codes "x") none))
        (to_block (Statement.return_value (Expression.identifier (codes "x") none) ∷ []))
        (Segments.else_segment (to_block (Statement.return_value (Expression.integer 1) ∷ []))
          Segments.no_segments))
    ∷ [])

both_return-ends : ends_with_return both_return ≡ true
unfolding ends_with_return
both_return-ends = refl

ends_with_return-PassesAll_example : ¬ PassesAll both_return
ends_with_return-PassesAll_example = ends_with_return-PassesAll both_return both_return-ends refl

abbrev some_function : FunctionSyntax
some_function = record {
  definition = record {
    id = record { module_id = codes "m" ∷ []; struct_id = blank_struct_id; name = codes "f" };
    return_type = integer_type;
    avoid_check_phase = false;
    location = FunctionLocation.cpu;
    exported = false;
    parameters = record { name = codes "x"; type = integer_type } ∷ [];
  };
  block = some both_return;
}

abbrev some_module : List Element
some_module = Element.function_element some_function ∷ []

check_module-closes_example :
    Safe
      (λ (_, st').
        clean st'.context.errors ≡ true
        → (clean at_start.context.errors ≡ true)
          × Kept at_start.context st'.context
          × (parents st'.scope ≡ parents at_start.scope))
      (check_module some_format some_type_text some_lvalue_text some_module at_start)
check_module-closes_example =
    check_module-closes some_format some_type_text some_lvalue_text some_module at_start

-- A name that is bound nowhere is taken as well as a number.
check_closure-SameHoles_example :
    check some_format some_type_text
      (Expression.closure (Expression.identifier (codes "g") none) (
        Expressions.entry
          (Expression.integer 1)
          (Expressions.nil_entry Expressions.no_expressions)))
      at_start
    ≡ check some_format some_type_text
        (Expression.closure (Expression.identifier (codes "g") none) (
          Expressions.entry
            (Expression.identifier (codes "nowhere") none)
            (Expressions.nil_entry Expressions.no_expressions)))
        at_start
check_closure-SameHoles_example =
    check_closure-SameHoles some_format some_type_text (Expression.identifier (codes "g") none) _ _
      at_start (SameHoles.supplied (SameHoles.placeholder SameHoles.none))

-- An `if` without an `else` passes the test of the source, and control comes out at its end.
abbrev lone_if : Block
lone_if = to_block (
    Statement.if_statement (
      Segments.segment (Expression.boolean true)
        (to_block (Statement.return_value (Expression.integer 1) ∷ [])) Segments.no_segments)
    ∷ [])

lone_if-passes : (ends_with_return lone_if ≡ true) × PassesAll lone_if
unfolding ends_with_return
lone_if-passes =
    (refl, PassesAll.step (Passes.taken (PassesSome.there PassesSome.none_taken)) PassesAll.end)
