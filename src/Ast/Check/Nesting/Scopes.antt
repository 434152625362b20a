-- ===== src/Ast/Check/Nesting/Scopes.antt =====
-- src/ast/expressions.go and lvalues.go: the levels of the scope that a check leaves as they were.
use eyot.Prelude.{
  ◌≡◌, refl, ap, ◌∙◌, Bool, false, Option, none, some, List, Text, Outcome, ok, err, panic, NoError,
  Safe-weaken, Post,
}
use eyot.Token.Printed.{Format}
use eyot.Ast.Structs.{StructDefinition, StructField}
use eyot.Ast.Types.{Ty, TypeSelector, types, first_type, unwrapped}
use eyot.Ast.Types.Printed.{type_string}
use eyot.Ast.Scope.{Scope, VariableBinding, add_c_function}
use eyot.Ast.Syntax.{Expression, Expressions, Pairs, LValue, LValues}
use eyot.Ast.Check.Pass.{Pass, pure, ◌>>>=◌, parents, get_scope, within_scope}
use eyot.Ast.Check.Pass.Rules.{Does, Does-pure, Does-weaken, Does-guarded, Does-if, Does-fail}
use eyot.Ast.Check.Pass.Sequence.{demand-then, scope-then, fail-pure}
use eyot.Ast.Check.Pass.Steps.{Extended}
use eyot.Ast.Check.Pass.Brackets.{within_scope-Does, Inner, Inner-then, set_variable-parents}
use eyot.Ast.Check.Nodes.{Typed, Node, has_selector}
use eyot.Ast.Check.Operands.{MethodScope}
use eyot.Ast.Check.Expressions.{check}
use eyot.Ast.Check.Typing.{Infers, InfersPairs, InfersEach}
use eyot.Ast.Check.Typing.Sound.{check-Infers}
use eyot.Ast.Check.LValues.{
  Assigned, assigned_variable, assigned_self, assigned_field, assigned_member, check_deref,
  check_accessor, check_indexed, check_assignable, check_list, behind_pointer,
}

at_ok :
    (s s' : Scope) (m : Outcome NoError Scope)
    → m ≡ ok s'
    → Post (λ r. parents r ≡ parents s) m
    → parents s' ≡ parents s
at_ok s s' (ok r) e (Post.returns p) = cc (e, p)
at_ok s s' (err x) e p = elim x [ ]
at_ok s s' panic e p = cc e

Extended-parents : {ty : Ty} {s s' : Scope} → Extended ty s s' → parents s' ≡ parents s
unfolding add_c_function
Extended-parents (Extended.known e) = ap parents e
Extended-parents {s = s} {s' = s'} (Extended.added name _ e) =
    at_ok s s' _ e (set_variable-parents s name _ false)

MethodScope-parents :
    {o : Option Typed} {s s' : Scope} → MethodScope s o s' → parents s' ≡ parents s
MethodScope-parents MethodScope.no_access = refl
MethodScope-parents (MethodScope.not_vector _ _ _ _) = refl
MethodScope-parents (MethodScope.of_vector _ _ _ _ _ _ ext) = Extended-parents ext

mutual
  Infers-parents :
      {s s' : Scope} {e : Expression} {n : Node} → Infers s e n s' → parents s' ≡ parents s
  Infers-parents Infers.null_literal = refl
  Infers-parents (Infers.cast d) = Infers-parents d
  Infers-parents (Infers.self_terminal b e) = refl
  Infers-parents Infers.boolean = refl
  Infers-parents Infers.character = refl
  Infers-parents Infers.integer = refl
  Infers-parents Infers.string = refl
  Infers-parents Infers.float = refl
  Infers-parents (Infers.gpu_builtin t) = refl
  Infers-parents Infers.reference = refl
  Infers-parents (Infers.variable b e) = refl
  Infers-parents (Infers.struct_literal ds) = pairs-parents ds
  Infers-parents (Infers.tuple tys ds e) = each-parents ds
  Infers-parents (Infers.access _ _ _ d _ _ _) = Infers-parents d
  Infers-parents (Infers.binary _ _ _ d1 d2 _ _ _) = Infers-parents d2 ∙ Infers-parents d1
  Infers-parents (Infers.unary _ _ d _ _) = Infers-parents d
  Infers-parents (Infers.index _ _ _ _ d1 d2 _ _ _ _ _) = Infers-parents d2 ∙ Infers-parents d1
  Infers-parents (Infers.print _ ds) = each-parents ds
  Infers-parents (Infers.call _ _ _ d m ds _ _ _) =
      each-parents ds ∙ (MethodScope-parents m ∙ Infers-parents d)
  Infers-parents (Infers.new _ d _) = Infers-parents d
  Infers-parents (Infers.dereference d) = Infers-parents d
  Infers-parents (Infers.vector_literal ds _) = each-parents ds
  Infers-parents (Infers.range _ _ _ d1 d2 d3 _ _ _ _ _ _) =
      Infers-parents d3 ∙ (Infers-parents d2 ∙ Infers-parents d1)
  Infers-parents (Infers.closure _ d _ _) = Infers-parents d
  Infers-parents (Infers.create_worker _ _ _ d _ _) = Infers-parents d
  Infers-parents (Infers.receive_worker _ d _ _) = Infers-parents d
  Infers-parents (Infers.create_pipeline _ _ _ _ d1 d2 _ _ _) =
      Infers-parents d2 ∙ Infers-parents d1

  pairs-parents : {s s' : Scope} {ps : Pairs} → InfersPairs s ps s' → parents s' ≡ parents s
  pairs-parents InfersPairs.no_pairs = refl
  pairs-parents (InfersPairs.pair d ds) = pairs-parents ds ∙ Infers-parents d

  each-parents :
      {s s' : Scope} {es : Expressions} {ts : List Typed}
      → InfersEach s es ts s'
      → parents s' ≡ parents s
  each-parents InfersEach.no_expressions = refl
  each-parents (InfersEach.entry d ds) = each-parents ds ∙ Infers-parents d

-- A call that leaves the scope as it was leaves the levels around it.
pub quiet-Inner :
    {A : Type 0} {m : Pass A} → Does (λ st _ st'. st'.scope ≡ st.scope) m → Does Inner m
quiet-Inner d = Does-weaken (λ st st' _ q. ap parents q) d

pub within-Inner : {m : Pass (Unit {0})} → Does Inner m → Does Inner (within_scope m)
within-Inner d = quiet-Inner (within_scope-Does d)

pub pure-Inner : {A : Type 0} (a : A) → Does Inner (pure a)
pure-Inner a = Does-pure a λ st. refl

pub scope-Inner :
    {A : Type 0} {k : Scope → Pass A}
    → ((s : Scope) → Does Inner (k s))
    → Does Inner (get_scope >>>= k)
scope-Inner d = scope-then λ s. Does-weaken (λ st st' _ q _. q) (d s)

assigned_variable-Inner :
    (message : Text) (o : Option VariableBinding) → Does Inner (assigned_variable message o)
unfolding assigned_variable
assigned_variable-Inner message (some b) = pure-Inner _
assigned_variable-Inner message none = fail-pure message _

assigned_self-Inner : (o : Option VariableBinding) → Does Inner (assigned_self o)
unfolding assigned_self
assigned_self-Inner (some b) = pure-Inner _
assigned_self-Inner none = fail-pure _ _

assigned_field-Inner :
    (name : Text) (assignable : Bool) (o : Option StructField)
    → Does Inner (assigned_field name assignable o)
unfolding assigned_field
assigned_field-Inner name assignable (some fd) = pure-Inner _
assigned_field-Inner name assignable none = fail-pure _ _

assigned_member-Inner :
    (ty : Ty) (name : Text) (assignable : Bool) (o : Option StructDefinition)
    → Does Inner (assigned_member ty name assignable o)
unfolding assigned_member
assigned_member-Inner ty name assignable (some sd) = assigned_field-Inner name assignable _
assigned_member-Inner ty name assignable none = fail-pure _ _

check_deref-Inner : (a : Assigned) → Does Inner (check_deref a)
unfolding check_deref
check_deref-Inner a = demand-then a.type λ ty _.
    Inner-then
      (Does-if (has_selector TypeSelector.pointer ty) _ _ (λ _. pure-Inner tt) λ _. Does-fail _)
      λ _. pure-Inner _

module _ (f : Format) (type_text : Ty → Text) where
  pub check-Inner : (e : Expression) → Does Inner (check f type_text e)
  check-Inner e = record {
    run = λ st.
        Safe-weaken (λ (n, st') h c. let (c0, kept, d) = h c in (c0, kept, Infers-parents d))
          (check-Infers f type_text e st);
  }

-- `type_text` and `lvalue_text` as for `check_assignable`
module _ (f : Format) (type_text : Ty → Text) (lvalue_text : LValue → Text) where
  check_accessor-Inner :
      (assignable : Bool) (name : Text) (t : Typed)
      → Does Inner (check_accessor f type_text lvalue_text assignable name t)
  unfolding check_accessor
  check_accessor-Inner assignable name t = demand-then t λ inner _.
      demand-then (unwrapped inner) λ it _.
        Does-if (has_selector TypeSelector.struct it) _ _
          (λ _. scope-Inner λ s. assigned_member-Inner it name assignable _)
          λ _. demand-then (type_string f it) λ text _. fail-pure _ _

  check_indexed-Inner :
      (l : LValue) (a : Assigned) → Does Inner (check_indexed f type_text lvalue_text l a)
  unfolding check_indexed
  check_indexed-Inner l a = demand-then a.type λ ty _. demand-then (behind_pointer ty) λ ity _.
      Does-if (has_selector TypeSelector.vector ity) _ _
        (λ _. demand-then (first_type (types ity)) λ element _. pure-Inner _)
        λ _.
          Does-if (has_selector TypeSelector.string ity) _ _ (λ _. pure-Inner _) λ _. fail-pure _ _

  mutual
    unfolding check_assignable

    pub check_assignable-Inner :
        (l : LValue) → Does Inner (check_assignable f type_text lvalue_text l)
    check_assignable-Inner (LValue.identifier name) = scope-Inner λ s. assigned_variable-Inner _ _
    check_assignable-Inner LValue.self = scope-Inner λ s. assigned_self-Inner _
    check_assignable-Inner (LValue.deref l) =
        Inner-then (check_assignable-Inner l) check_deref-Inner
    check_assignable-Inner (LValue.accessor l name) =
        Inner-then (check_assignable-Inner l)
          λ a. Does-guarded _ (check_accessor-Inner _ name a.type)
    check_assignable-Inner (LValue.index l e) =
        Inner-then (check-Inner f type_text e)
          λ _. Inner-then (check_assignable-Inner l) λ a. Does-guarded _ (check_indexed-Inner l a)
    check_assignable-Inner (LValue.multiple ls) = Inner-then (check_list-Inner ls) λ _. pure-Inner _

    check_list-Inner : (ls : LValues) → Does Inner (check_list f type_text lvalue_text ls)
    check_list-Inner LValues.no_lvalues = pure-Inner _
    check_list-Inner (LValues.lvalue l ls) =
        Inner-then (check_assignable-Inner l)
          λ a. Inner-then (check_list-Inner ls) λ _. pure-Inner _
