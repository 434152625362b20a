-- ===== src/Ast/Check/Statements.antt =====
-- src/ast/statements.go: `Check` of the statements that the parser builds, in the pass KPassSetTypes.
use eyot.Prelude.{
  Bool, true, false, not, Option, none, some, ◌++◌, codes, Text, if◌then◌else◌, Outcome, ok, ◌>>=◌,
  NoError,
}
use eyot.Errors.{set_current_location}
use eyot.Token.Printed.{Format}
use eyot.Ast.Types.{Ty, TypeSelector, types, first_type, unwrapped, can_assign_to}
use eyot.Ast.Types.Printed.{type_string}
use eyot.Ast.Scope.{blank_type, set_variable}
use eyot.Ast.Syntax.{
  LValue, Statement, Element, Block, no_statements, statement, Segments, no_segments, segment,
  else_segment, Assign, AssignType, let_like, const, normal, assign, expression, if_statement,
  dummy, break, while, return_void, return_value, send_pipe, foreach, modify_in_place,
}
use eyot.Ast.Check.Context.{
  CheckContext, current_return_type, start_statement_collection_block,
  stop_statement_collection_block, should_remove_statement,
}
use eyot.Ast.Check.Pass.{
  Pass, pure, ◌>>>=◌, ◌>>>◌, force, demand, fail, guarded, get_scope, put_scope, get_context,
  note_cpu, require, change, attempt, rescope, within_scope,
}
use eyot.Ast.Check.Nodes.{Typed, has_selector}
use eyot.Ast.Check.Parts.{nothing}
use eyot.Ast.Check.Expressions.{check}
use eyot.Ast.Check.LValues.{update_scope, check_assignable}

-- What `UpdateScope` returns is an error of the check.
abbrev pub note_update : Option Text → Pass (Unit {0})
note_update none = nothing
note_update (some e) = fail (codes "Unable to update scope: " ++ e)

unfoldable pub update_lvalue : LValue → Ty → Bool → Pass (Unit {0})
unfolding update_scope
update_lvalue l ty assignable = get_scope >>>= λ s.
    demand (update_scope l ty assignable s) >>>= λ (s', error). put_scope s' >>> note_update error

-- The switch over `as.Type`
unfoldable pub declare : AssignType → LValue → Ty → Pass (Unit {0})
unfolding update_lvalue
declare let_like l ty = update_lvalue l ty true
declare const l ty = update_lvalue l ty false
declare normal l ty = nothing

-- Outside of a function the type that is returned is the zero value.
abbrev pub returned_or_blank : Option Ty → Ty
returned_or_blank (some ty) = ty
returned_or_blank none = blank_type

abbrev pub in_function : Option Ty → Pass (Unit {0})
in_function (some ty) = nothing
in_function none = fail (codes "Trying to return when not in a function")

-- The statements that a pass inserts or removes are looked at after each statement; this pass does
-- neither, so that the block stays as it is.
abbrev pub close_statement :
    CheckContext Statement Element → Outcome NoError (CheckContext Statement Element)
close_statement cc =
    stop_statement_collection_block cc >>= λ (_, cc'). ok (should_remove_statement cc').1

module _ (f : Format) (type_text : Ty → Text) (lvalue_text : LValue → Text) where
  unfoldable pub check_assign : Assign → Pass (Unit {0})
  unfolding check declare check_assignable
  check_assign a = check f type_text a.rhs >>>= λ n. guarded tt (
      demand n.type >>>= λ ty.
      require f.int ty
      >>> declare a.type a.lhs ty
      >>> check_assignable f type_text lvalue_text a.lhs
      >>> pure tt)

  unfoldable pub return_nothing : Option Ty → Pass (Unit {0})
  return_nothing returned =
      in_function returned
      >>> (if has_selector TypeSelector.void (returned_or_blank returned)
          then nothing
          else (demand (type_string f (returned_or_blank returned)) >>>= λ text. fail (
              codes "Mismatched return types cannot return void in a function returning '"
              ++ (text ++ codes "'"))))

  unfoldable pub return_typed : Typed → Option Ty → Pass (Unit {0})
  return_typed t returned = in_function returned >>> demand t >>>= λ ty.
      force (can_assign_to ty (returned_or_blank returned)) >>>= λ good.
      if good
      then nothing
      else (demand (type_string f ty) >>>= λ a.
          demand (type_string f (returned_or_blank returned)) >>>= λ b.
          fail (codes "Mismatched return types '" ++ (a ++ (codes "' != '" ++ (b ++ codes "'")))))

  abbrev pub bad_sent : Ty → Text → Pass (Unit {0})
  bad_sent ty why =
      demand (type_string f ty) >>>= λ text. fail (codes "Sent value type " ++ (text ++ why))

  unfoldable pub check_sent : Typed → Typed → Pass (Unit {0})
  check_sent pipe value = demand pipe >>>= λ worker.
      demand (first_type (types worker)) >>>= λ sends. demand value >>>= λ ty.
      if not (has_selector TypeSelector.pointer ty)
      then bad_sent ty (codes " was not a pointer")
      else demand (first_type (types ty)) >>>= λ pointee.
          if not (has_selector TypeSelector.vector pointee)
          then bad_sent pointee (codes " was not a vector")
          else demand (first_type (types pointee)) >>>= λ element.
              force (can_assign_to element sends) >>>= λ good.
              if good
              then nothing
              else (demand (type_string f element) >>>= λ a. demand (type_string f sends) >>>= λ b.
                  fail (
                    codes "Sent value type "
                    ++ (a ++ (codes " does not match the send type of the pipe: " ++ b))))

  -- The type of the elements that a `foreach` goes over
  unfoldable pub iterated_type : Typed → Pass Ty
  iterated_type t = demand t >>>= λ iterable. demand (unwrapped iterable) >>>= λ fst.
      (if has_selector TypeSelector.vector fst
        then nothing
        else fail
            (codes "Attempting to iterate over something that is not a vector: " ++ type_text fst))
      >>> demand (first_type (types fst))

  abbrev pub condition : Typed → Pass (Unit {0})
  condition t = demand t >>>= λ ty.
      if has_selector TypeSelector.boolean ty
      then nothing
      else fail (codes "IfStatement condition not of boolean type")

  unfoldable mutual
    unfolding check check_assign check_assignable return_nothing return_typed check_sent
        iterated_type

    pub check_statement : Statement → Pass (Unit {0})
    check_statement (assign a) = check_assign a
    check_statement (expression e) = check f type_text e >>> nothing
    check_statement (if_statement segs) = check_segments segs
    check_statement (dummy location) =
        change (λ cc. record cc { errors = set_current_location cc.errors location })
    check_statement break = nothing
    check_statement (while e b) = check f type_text e >>> within_scope (check_statements b)
    check_statement return_void = get_context >>>= λ cc. return_nothing (current_return_type cc)
    check_statement (return_value e) = check f type_text e >>>= λ n.
        get_context >>>= λ cc. return_typed n.type (current_return_type cc)
    check_statement (send_pipe pipe value) =
        note_cpu (codes "send pipe") >>> check f type_text pipe >>>= λ n.
        check f type_text value >>>= λ m. guarded tt (check_sent n.type m.type)
    check_statement (foreach name e b) = check f type_text e >>>= λ n. guarded tt (
        iterated_type n.type >>>= λ ty.
        within_scope (rescope (λ s. set_variable s name ty true) >>> check_statements b))
    check_statement (modify_in_place op l e) = check_assignable f type_text lvalue_text l >>>= λ a.
        if a.assignable
        then check f type_text e >>> nothing
        else fail (codes "Unable to reassign " ++ lvalue_text l)

    -- `StatementBlock.Check`, in the scope of the block
    pub check_statements : Block → Pass (Unit {0})
    check_statements no_statements = nothing
    check_statements (statement s b) =
        change start_statement_collection_block
        >>> check_statement s
        >>> guarded tt (attempt close_statement >>> check_statements b)

    -- The segments of an `if`, up to the first that leaves an error
    pub check_segments : Segments → Pass (Unit {0})
    check_segments no_segments = nothing
    check_segments (segment e b segs) = check f type_text e >>>= λ n. guarded tt (
        condition n.type
        >>> guarded tt (within_scope (check_statements b) >>> guarded tt (check_segments segs)))
    check_segments (else_segment b segs) =
        within_scope (check_statements b) >>> guarded tt (check_segments segs)
