-- ===== src/Ast/Check/Nesting/Statements.antt =====
-- src/ast/statements.go: a block that is checked leaves the scope that it stands in as it was.
use eyot.Prelude.{
  ◌≡◌, refl, ap, ◌∙◌, Bool, true, false, not, Option, none, some, Text, ok, err, panic, ◌>>=◌, Safe,
  Post, Post-bind, Post-weaken, ◌==◌, if◌then◌else◌,
}
use eyot.Errors.{SourceLocation, set_current_location, clean}
use eyot.Token.Printed.{Format}
use eyot.Ast.Types.{
  Ty, Types, nil, cons, TypeSelector, types, count_types, first_type, unwrapped, can_assign_to,
}
use eyot.Ast.Types.Fuel.{comparison-Ends}
use eyot.Ast.Types.Printed.{type_string}
use eyot.Ast.Scope.{Scope, set_variable}
use eyot.Ast.Syntax.{LValue, LValues, Statement, Element, Block, Segments, Assign, AssignType}
use eyot.Ast.Check.Context.{CheckContext}
use eyot.Ast.Check.Pass.{
  PassState, Pass, ◌>>>=◌, ◌>>>◌, change, within_scope, parents, put_scope, get_context, demand,
}
use eyot.Ast.Check.Pass.Rules.{Does, Does-guarded, Does-if, Does-fail, Does-bind, Does-demand, Kept}
use eyot.Ast.Check.Pass.Sequence.{demand-then, force-then, scope-then}
use eyot.Ast.Check.Pass.Steps.{Does-put_scope, Does-get_context, Does-note_cpu, Does-require}
use eyot.Ast.Check.Pass.Brackets.{
  Inner, Inner-then, within_scope-Does, rescope-Does, set_variable-parents,
}
use eyot.Ast.Check.Nodes.{Typed, has_selector}
use eyot.Ast.Check.LValues.{count_lvalues, Updated, updated, update_scope, update_all}
use eyot.Ast.Check.Statements.{
  update_lvalue, declare, note_update, in_function, check_assign, return_nothing, return_typed,
  check_sent, iterated_type, check_statement, check_statements, check_segments, returned_or_blank,
  bad_sent, condition,
}
use eyot.Ast.Check.Nesting.Undone.{collected-then}
use eyot.Ast.Check.Nesting.Scopes.{
  quiet-Inner, within-Inner, pure-Inner, check-Inner, check_assignable-Inner,
}

-- `UpdateScope` touches the innermost level alone.
abbrev KeepsParents : Scope → Updated → Type 0
KeepsParents s m = Post (λ (s', _). parents s' ≡ parents s) m

keeps-if :
    (s : Scope) (b : Bool) (x y : Updated)
    → KeepsParents s x
    → KeepsParents s y
    → KeepsParents s (if b then x else y)
keeps-if s true x y p q = p
keeps-if s false x y p q = q

set-KeepsParents :
    (s : Scope) (name : Text) (ty : Ty) (assignable : Bool)
    → KeepsParents s (set_variable s name ty assignable >>= updated)
set-KeepsParents s name ty assignable =
    Post-bind (set_variable-parents s name ty assignable) λ s' q. Post.returns q

go_on :
    (s s' : Scope) (error : Option Text) (k : Updated)
    → parents s' ≡ parents s
    → KeepsParents s' k
    → KeepsParents s (elim error [ none ↦ k | some e ↦ ok (s', some e) ])
go_on s s' none k q p = Post-weaken (λ (s2, _) r. r ∙ q) p
go_on s s' (some e) k q p = Post.returns q

mutual
  unfolding update_scope

  update_scope-KeepsParents :
      (l : LValue) (ty : Ty) (assignable : Bool) (s : Scope)
      → KeepsParents s (update_scope l ty assignable s)
  update_scope-KeepsParents (LValue.identifier name) ty assignable s =
      keeps-if s _ _ _ (Post.returns refl) (set-KeepsParents s name ty assignable)
  update_scope-KeepsParents LValue.self ty assignable s = set-KeepsParents s _ _ assignable
  update_scope-KeepsParents (LValue.deref l) ty assignable s = Post.returns refl
  update_scope-KeepsParents (LValue.accessor l name) ty assignable s = Post.returns refl
  update_scope-KeepsParents (LValue.index l e) ty assignable s = Post.returns refl
  update_scope-KeepsParents (LValue.multiple ls) ty assignable s =
      keeps-if s (not (has_selector TypeSelector.tuple ty)) _ _
        (Post.returns {a = (s, some _)} refl)
        (keeps-if s (not (count_lvalues ls == count_types (types ty))) _ _
          (Post.returns {a = (s, some _)} refl)
          (update_all-KeepsParents ls (types ty) assignable s))

  update_all-KeepsParents :
      (ls : LValues) (tys : Types) (assignable : Bool) (s : Scope)
      → KeepsParents s (update_all ls tys assignable s)
  update_all-KeepsParents ls nil assignable s = Post.returns refl
  update_all-KeepsParents LValues.no_lvalues (cons ty tys) assignable s = Post.panics
  update_all-KeepsParents (LValues.lvalue l ls) (cons ty tys) assignable s =
      Post-bind (update_scope-KeepsParents l ty assignable s)
        λ (s', error) q. go_on s s' error _ q (update_all-KeepsParents ls tys assignable s')

put_scope-after :
    (s : Scope) (m : Updated)
    → KeepsParents s m
    → Does
        (λ st _ st'. s ≡ st.scope → parents st'.scope ≡ parents st.scope)
        (demand m >>>= λ (s', error). put_scope s' >>> note_update error)
put_scope-after s (ok (s', error)) (Post.returns q) = demand-then (ok (s', error)) λ (s2, error2) e.
    Does-bind {K = λ _ st1 _ st2. parents st2.scope ≡ parents st1.scope} (Does-put_scope s2)
      (λ _. noted error2)
      λ st st1 st2 _ _ _ p r h.
        r ∙ (ap parents p ∙ (ap (λ m. parents m) (first_of e) ∙ (q ∙ ap parents h)))
  where
    first_of : {a b : Scope × Option Text} → ◌≡◌ {A = Updated} (ok a) (ok b) → b.0 ≡ a.0
    first_of e = cc e

    noted : (o : Option Text) → Does Inner (note_update o)
    noted none = pure-Inner tt
    noted (some e) = Does-fail _
put_scope-after s (err x) p = elim x [ ]
put_scope-after s panic p = demand-then panic λ _ e. absurd (cc e)

declare-Inner : (t : AssignType) (l : LValue) (ty : Ty) → Does Inner (declare t l ty)
unfolding declare update_lvalue
declare-Inner AssignType.let_like l ty =
    scope-then λ s. put_scope-after s _ (update_scope-KeepsParents l ty true s)
declare-Inner AssignType.const l ty =
    scope-then λ s. put_scope-after s _ (update_scope-KeepsParents l ty false s)
declare-Inner AssignType.normal l ty = pure-Inner tt

in_function-Inner : (o : Option Ty) → Does Inner (in_function o)
in_function-Inner (some ty) = pure-Inner tt
in_function-Inner none = Does-fail _

pub Does-set_location :
    (location : SourceLocation)
    → Does Inner (change λ cc. record cc { errors = set_current_location cc.errors location })
unfolding change set_current_location clean
Does-set_location location = record { run = λ st. Safe.returns λ h. (h, refl, refl) }

context-Inner :
    {A : Type 0} {k : CheckContext Statement Element → Pass A}
    → ((c : CheckContext Statement Element) → Does Inner (k c))
    → Does Inner (get_context >>>= k)
context-Inner d = Does-bind Does-get_context d λ st st1 st2 _ _ _ (_, q) r. r ∙ ap parents q

module _ (f : Format) (type_text : Ty → Text) (lvalue_text : LValue → Text) where
  pub check_assign-Inner : (a : Assign) → Does Inner (check_assign f type_text lvalue_text a)
  unfolding check_assign
  check_assign-Inner a = Inner-then (check-Inner f type_text a.rhs) λ n. Does-guarded _ (
      demand-then n.type λ ty _. Inner-then (quiet-Inner (Does-require f.int ty)) λ _.
        Inner-then (declare-Inner a.type a.lhs ty)
          λ _. Inner-then (check_assignable-Inner f type_text lvalue_text a.lhs) λ _. pure-Inner tt)

  return_nothing-Inner : (o : Option Ty) → Does Inner (return_nothing f type_text lvalue_text o)
  unfolding return_nothing
  return_nothing-Inner o = Inner-then (in_function-Inner o) λ _.
      Does-if (has_selector TypeSelector.void (returned_or_blank o)) _ _ (λ _. pure-Inner tt)
        λ _. demand-then (type_string f (returned_or_blank o)) λ text _. Does-fail _

  return_typed-Inner :
      (t : Typed) (o : Option Ty) → Does Inner (return_typed f type_text lvalue_text t o)
  unfolding return_typed
  return_typed-Inner t o = Inner-then (in_function-Inner o) λ _. demand-then t λ ty _.
      force-then (can_assign_to ty (returned_or_blank o)) (comparison-Ends ty _).2 λ good _ _.
        Does-if good _ _ (λ _. pure-Inner tt)
          λ _.
            demand-then (type_string f ty)
              λ a _. demand-then (type_string f (returned_or_blank o)) λ b _. Does-fail _

  bad_sent-Inner : (ty : Ty) (why : Text) → Does Inner (bad_sent f type_text lvalue_text ty why)
  bad_sent-Inner ty why = demand-then (type_string f ty) λ text _. Does-fail _

  check_sent-Inner :
      (pipe value : Typed) → Does Inner (check_sent f type_text lvalue_text pipe value)
  unfolding check_sent
  check_sent-Inner pipe value = demand-then pipe λ worker _.
      demand-then (first_type (types worker)) λ sends _. demand-then value λ ty _.
        Does-if (not (has_selector TypeSelector.pointer ty)) _ _ (λ _. bad_sent-Inner ty _)
          λ _. demand-then (first_type (types ty)) λ pointee _.
            Does-if (not (has_selector TypeSelector.vector pointee)) _ _
              (λ _. bad_sent-Inner pointee _)
              λ _. demand-then (first_type (types pointee)) λ element _.
                force-then (can_assign_to element sends) (comparison-Ends element sends).2
                  λ good _ _.
                    Does-if good _ _ (λ _. pure-Inner tt)
                      λ _.
                        demand-then (type_string f element)
                          λ a _. demand-then (type_string f sends) λ b _. Does-fail _

  iterated_type-Inner : (t : Typed) → Does Inner (iterated_type f type_text lvalue_text t)
  unfolding iterated_type
  iterated_type-Inner t = demand-then t λ iterable _. demand-then (unwrapped iterable) λ fst _.
      Inner-then
        (Does-if (has_selector TypeSelector.vector fst) _ _ (λ _. pure-Inner tt) λ _. Does-fail _)
        λ _. Does-demand λ st ty _. refl

  condition-Inner : (t : Typed) → Does Inner (condition f type_text lvalue_text t)
  condition-Inner t = demand-then t λ ty _.
      Does-if (has_selector TypeSelector.boolean ty) _ _ (λ _. pure-Inner tt) λ _. Does-fail _

  mutual
    unfolding check_statement check_statements check_segments

    pub check_statement-Inner :
        (s : Statement) → Does Inner (check_statement f type_text lvalue_text s)
    check_statement-Inner (Statement.assign a) = check_assign-Inner a
    check_statement-Inner (Statement.expression e) =
        Inner-then (check-Inner f type_text e) λ _. pure-Inner tt
    check_statement-Inner (Statement.if_statement segs) = check_segments-Inner segs
    check_statement-Inner (Statement.dummy location) = Does-set_location location
    check_statement-Inner Statement.break = pure-Inner tt
    check_statement-Inner (Statement.while e b) =
        Inner-then (check-Inner f type_text e) λ _. within-Inner (check_statements-Inner b)
    check_statement-Inner Statement.return_void = context-Inner λ c. return_nothing-Inner _
    check_statement-Inner (Statement.return_value e) =
        Inner-then (check-Inner f type_text e) λ n. context-Inner λ c. return_typed-Inner n.type _
    check_statement-Inner (Statement.send_pipe pipe value) =
        Inner-then (quiet-Inner (Does-note_cpu _)) λ _.
          Inner-then (check-Inner f type_text pipe) λ n.
            Inner-then (check-Inner f type_text value)
              λ m. Does-guarded _ (check_sent-Inner n.type m.type)
    check_statement-Inner (Statement.foreach name e b) = Inner-then (check-Inner f type_text e) λ n.
        Does-guarded _ (
          Inner-then (iterated_type-Inner n.type) λ ty. quiet-Inner (
            within_scope-Does (
              Inner-then (rescope-Does _ λ s. set_variable-parents s name ty true)
                λ _. check_statements-Inner b)))
    check_statement-Inner (Statement.modify_in_place op l e) =
        Inner-then (check_assignable-Inner f type_text lvalue_text l) λ a.
          Does-if a.assignable _ _ (λ _. Inner-then (check-Inner f type_text e) λ _. pure-Inner tt)
            λ _. Does-fail _

    pub check_statements-Inner :
        (b : Block) → Does Inner (check_statements f type_text lvalue_text b)
    check_statements-Inner Block.no_statements = pure-Inner tt
    check_statements-Inner (Block.statement s b) =
        collected-then (check_statement-Inner s) (check_statements-Inner b)

    check_segments-Inner :
        (segs : Segments) → Does Inner (check_segments f type_text lvalue_text segs)
    check_segments-Inner Segments.no_segments = pure-Inner tt
    check_segments-Inner (Segments.segment e b segs) = Inner-then (check-Inner f type_text e) λ n.
        Does-guarded _ (
          Inner-then (condition-Inner n.type) λ _. Does-guarded _ (
            Inner-then (within-Inner (check_statements-Inner b))
              λ _. Does-guarded _ (check_segments-Inner segs)))
    check_segments-Inner (Segments.else_segment b segs) =
        Inner-then (within-Inner (check_statements-Inner b))
          λ _. Does-guarded _ (check_segments-Inner segs)

  -- The check of a block, in a level of the scope of its own, returns or panics. Where it leaves the
  -- log of the errors clean, the scope that the block stands in is as it was, so that nothing which
  -- the block declares is seen behind it, and the statements that the passes collect, the types that
  -- the functions around it return and the counts of CPU and GPU code are as they were.
  pub check_block-closes :
      (b : Block) (st : PassState)
      → Safe
          (λ (_, st').
            clean st'.context.errors ≡ true
            → (clean st.context.errors ≡ true)
              × Kept st.context st'.context
              × (st'.scope ≡ st.scope))
          (within_scope (check_statements f type_text lvalue_text b) st)
  check_block-closes b st = (within_scope-Does (check_statements-Inner b)).run st
