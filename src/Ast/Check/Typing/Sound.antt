-- ===== src/Ast/Check/Typing/Sound.antt =====
-- src/ast/expressions.go, closure.go and worker-expressions.go: `Check` against the rules of the types.
use eyot.Prelude.{
  ◌≡◌, refl, sym, ap, ◌∙◌, Bool, true, false, Option, none, some, List, [], ◌∷◌, Text, ok, NoError,
  Safe, if◌then◌else◌,
}
use eyot.Errors.{clean}
use eyot.Token.Printed.{Format}
use eyot.Ast.Structs.{struct_type}
use eyot.Ast.Types.{Ty, TypeSelector, make_void, return_type, pointed, is_callable}
use eyot.Ast.Scope.{Scope}
use eyot.Ast.Syntax.{Expression, Expressions, Pairs}
use eyot.Ast.Check.Pass.{PassState, Pass, ◌>>>=◌, ◌>>>◌, guarded}
use eyot.Ast.Check.Pass.Rules.{Does, Does-pure, Does-guarded, Does-weaken, Does-demand, Kept}
use eyot.Ast.Check.Pass.Sequence.{quiet-then, fact-then, follow}
use eyot.Ast.Check.Pass.Steps.{Does-note_cpu}
use eyot.Ast.Check.Nodes.{Typed, Node, own, print_type}
use eyot.Ast.Check.Operands.{collect, MethodScope}
use eyot.Ast.Check.Parts.{is_print, require_method, check_called, finish}
use eyot.Ast.Check.Expressions.{
  check, check_pairs, check_parts, check_arguments, check_all, cons_type, blank_node,
}
use eyot.Ast.Check.Typing.{Infers, InfersPairs, InfersEach}
use eyot.Ast.Check.Typing.Nodes.{
  Yields, finish-Does, check_binary-Does, check_unary-Does, check_variable-Does, check_builtin-Does,
  check_access-Does, check_index-Does,
}
use eyot.Ast.Check.Typing.Calls.{
  require_method-Does, check_called-Does, check_elements-Does, assert_type-Does, check_closure-Does,
  check_worker-Does, check_pipeline-Does, check_new-Does, check_receive-Does, check_tuple-Does,
}

-- What the check of a call does once the callee is checked.
record Called (s : Scope) (n : Node) (es : Expressions) (m : Node) (s' : Scope) : Type 0 where
  scope : Scope
  arguments : List Typed
  type : Ty
  returned : Ty
  method : MethodScope s n.accessed scope
  each : InfersEach scope es arguments s'
  is : n.type ≡ ok type
  callable : is_callable type ≡ true
  pointed_to : pointed {E = NoError} (return_type type) ≡ ok returned
  same : m ≡ own (ok returned)

no_access-scope : {s s' : Scope} → MethodScope s none s' → s' ≡ s
no_access-scope MethodScope.no_access = refl

no_method-scope : {s s' : Scope} (o : Option Typed) → o ≡ none → MethodScope s o s' → s' ≡ s
no_method-scope (some t) e m = cc e
no_method-scope none e m = no_access-scope m

from : {s1 s s' : Scope} {e : Expression} {n : Node} → s1 ≡ s → Infers s1 e n s' → Infers s e n s'
from q d = rw (sym q) d

each-from :
    {s1 s s' : Scope} {es : Expressions} {ts : List Typed}
    → s1 ≡ s
    → InfersEach s1 es ts s'
    → InfersEach s es ts s'
each-from q d = rw (sym q) d

Infers-print :
    {s s' : Scope} {e : Expression} {es : Expressions} {n m : Node}
    → is_print e ≡ true
    → n ≡ own (ok print_type)
    → Called s n es m s'
    → Infers s (Expression.call e es) m s'
Infers-print {n = n} p q c =
    rw (c.same, returns_void)
      (Infers.print p
        (each-from (no_method-scope n.accessed (ap (λ n. n.accessed) q) c.method) c.each))
  where
    returns_void : c.returned ≡ make_void
    returns_void = cc (c.is, c.pointed_to, q)

Infers-call :
    {s0 s s' : Scope} {e : Expression} {es : Expressions} {n m : Node}
    → is_print e ≡ false
    → Infers s0 e n s
    → Called s n es m s'
    → Infers s0 (Expression.call e es) m s'
Infers-call p d c =
    rw c.same (Infers.call c.type c.returned p d c.method c.each c.is c.callable c.pointed_to)

module _ (f : Format) (type_text : Ty → Text) where
  abbrev Sound : Expression → Type 0
  Sound e = Does (λ st n st'. Infers st.scope e n st'.scope) (check f type_text e)

  -- A node whose type is required, or is always the same
  leaf :
      {e : Expression} (ty : Ty)
      → ((s : Scope) → Infers s e (own (ok ty)) s)
      → Yields (λ st n st'. Infers st.scope e n st'.scope) ty
  leaf ty i st st' q = rw q (i st.scope)

  abbrev rest : Expressions → Node → Pass Node
  rest es n = guarded blank_node (
      require_method f type_text n.accessed
      >>> guarded blank_node
          (check_arguments f type_text es >>> guarded blank_node (check_called f type_text n.type)))

  rest-Does :
      (es : Expressions) (n : Node)
      → Does
          (λ st _ st'. (ts : List Typed) × InfersEach st.scope es ts st'.scope)
          (check_arguments f type_text es)
      → Does (λ st m st'. Called st.scope n es m st'.scope) (rest es n)
  rest-Does es n arguments = Does-guarded _ (
      follow (λ s _ s1. MethodScope s n.accessed s1) (require_method-Does f type_text n.accessed)
        λ _. Does-guarded _ (
          follow (λ s _ s1. (ts : List Typed) × InfersEach s es ts s1) arguments
            λ _. Does-guarded _ (
              check_called-Does f type_text n.type λ ty r p c e st st' q st2 (ts, each) st1 method.
                record {
                  scope = st2.scope;
                  arguments = ts;
                  type = ty;
                  returned = r;
                  method = method;
                  each = rw q each;
                  is = p;
                  callable = c;
                  pointed_to = e;
                  same = refl;
                })))

  call-Sound :
      (e : Expression) (es : Expressions) (b : Bool)
      → is_print e ≡ b
      → Sound e
      → Does
          (λ st _ st'. (ts : List Typed) × InfersEach st.scope es ts st'.scope)
          (check_arguments f type_text es)
      → Does
          (λ st m st'. Infers st.scope (Expression.call e es) m st'.scope)
          ((if b then finish f type_text print_type else check f type_text e) >>>= rest es)
  call-Sound e es true p d arguments =
      follow (λ s n s1. (n ≡ own (ok print_type)) × (s1 ≡ s))
        (finish-Does f type_text print_type λ st st' q. (refl, q))
        λ n.
          Does-weaken (λ st1 st2 m c st (same, q). rw (sym q) (Infers-print p same c))
            (rest-Does es n arguments)
  call-Sound e es false p d arguments =
      follow (λ s n s1. Infers s e n s1) d
        λ n. Does-weaken (λ st1 st2 m c st i. Infers-call p i c) (rest-Does es n arguments)

  mutual
    unfolding check

    sound : (e : Expression) → Sound e
    sound Expression.null_literal = Does-pure _ λ st. Infers.null_literal
    sound (Expression.cast ty e) =
        follow (λ s n s1. Infers s e n s1) (sound e)
          λ n. Does-guarded _ (finish-Does f type_text ty λ st st' q s d. rw q (Infers.cast d))
    sound Expression.self_terminal =
        check_variable-Does f type_text _ _ λ st st' b e q. rw q (Infers.self_terminal b e)
    sound (Expression.boolean b) = finish-Does f type_text _ (leaf _ λ s. Infers.boolean)
    sound (Expression.character c) = finish-Does f type_text _ (leaf _ λ s. Infers.character)
    sound (Expression.integer n) = finish-Does f type_text _ (leaf _ λ s. Infers.integer)
    sound (Expression.string t) = finish-Does f type_text _ (leaf _ λ s. Infers.string)
    sound (Expression.float l z r w) = finish-Does f type_text _ (leaf _ λ s. Infers.float)
    sound (Expression.gpu_builtin name) =
        check_builtin-Does f type_text name λ t. leaf _ λ s. Infers.gpu_builtin t
    sound (Expression.identifier name (some r)) = Does-pure _ λ st. Infers.reference
    sound (Expression.identifier name none) =
        check_variable-Does f type_text _ _ λ st st' b e q. rw q (Infers.variable b e)
    sound (Expression.struct_literal id ps) =
        follow (λ s _ s1. InfersPairs s ps s1) (sound_pairs ps)
          λ _. Does-guarded _ (
            finish-Does f type_text (struct_type id) λ st st' q s d. rw q (Infers.struct_literal d))
    sound (Expression.tuple es) =
        follow (λ s m s1. (ts : List Typed) × InfersEach s es ts s1 × (m ≡ collect ts))
          (sound_parts es)
          λ m.
            check_tuple-Does f type_text m
              λ tys p st st' q s (ts, each, same). rw q (Infers.tuple tys each (sym same ∙ p))
    sound (Expression.access e name) =
        follow (λ s n s1. Infers s e n s1) (sound e)
          λ n. Does-guarded _ (
            check_access-Does f type_text n.type name
              λ st st' accessed ty t p q m q' s d. rw q' (Infers.access accessed ty t d p q m))
    sound (Expression.binary op l r) =
        follow (λ s n s1. Infers s l n s1) (sound l)
          λ n.
            follow (λ s n s1. Infers s r n s1) (sound r)
              λ m. Does-guarded _ (
                check_binary-Does f type_text op n.type m.type
                  λ lt rt ty p q c st st' q' s1 d2 s d1. rw q' (Infers.binary lt rt ty d1 d2 p q c))
    sound (Expression.unary op e) =
        follow (λ s n s1. Infers s e n s1) (sound e)
          λ n. Does-guarded _ (
            check_unary-Does f type_text op n.type
              λ ty t p a st st' q s d. rw q (Infers.unary ty t d p a))
    sound (Expression.index e i) =
        follow (λ s n s1. Infers s e n s1) (sound e)
          λ n. Does-guarded _ (
            follow (λ s n s1. Infers s i n s1) (sound i)
              λ m. Does-guarded _ (
                check_index-Does f type_text n.type m.type
                  λ indexed ty it t p q el r r' st st' q' s1 d2 s d1.
                    rw q' (Infers.index indexed ty it t d1 d2 p q el r r')))
    sound (Expression.call e es) = call-Sound e es (is_print e) refl (sound e) (sound_arguments es)
    sound (Expression.new e) = quiet-then (Does-note_cpu _) (
        follow (λ s n s1. Infers s e n s1) (sound e)
          λ n.
            check_new-Does f type_text n.type
              λ ty p st st' q s1 d s q0. rw q (Infers.new ty (from q0 d) p))
    sound (Expression.dereference e) =
        follow (λ s n s1. Infers s e n s1) (sound e) λ n. Does-pure _ λ st s d. Infers.dereference d
    sound (Expression.vector_literal ty es) = quiet-then (Does-note_cpu _) (
        follow (λ s ts s1. InfersEach s es ts s1) (sound_all es)
          λ ts. fact-then (check_elements-Does f type_text ty ts) (
            Does-pure _
              λ st3 st2 q all st1 each st q0. rw q (Infers.vector_literal (each-from q0 each) all)))
    sound (Expression.range c b t) =
        follow (λ s n s1. Infers s c n s1) (sound c)
          λ n.
            follow (λ s n s1. Infers s b n s1) (sound b)
              λ m.
                follow (λ s n s1. Infers s t n s1) (sound t)
                  λ k. fact-then (assert_type-Does f type_text TypeSelector.integer n.type) (
                    fact-then (assert_type-Does f type_text TypeSelector.integer m.type) (
                      fact-then (assert_type-Does f type_text TypeSelector.integer k.type) (
                        Does-pure _ λ st5 st4 q3 z st3 q2 y st2 q1 x sb d3 sa d2 s d1.
                          rw (q3 ∙ q2 ∙ q1) (
                            Infers.range x.type y.type z.type d1 d2 d3 x.is y.is z.is x.kind y.kind
                              z.kind))))
    sound (Expression.closure e es) =
        follow (λ s n s1. Infers s e n s1) (sound e)
          λ n. Does-guarded _ (
            check_closure-Does f type_text es n.type
              λ st st' ty p h q s d. rw q (Infers.closure ty d p h))
    sound (Expression.create_worker e d) = quiet-then (Does-note_cpu _) (
        follow (λ s n s1. Infers s e n s1) (sound e)
          λ n. Does-guarded _ (
            check_worker-Does f type_text d n.type λ ty send receive p w st st' q s1 i s q0.
              rw q (Infers.create_worker ty send receive (from q0 i) p w)))
    sound (Expression.receive_worker e all) = quiet-then (Does-note_cpu _) (
        follow (λ s n s1. Infers s e n s1) (sound e)
          λ n.
            check_receive-Does f type_text all n.type
              λ st st' ty p h q s1 d s q0. rw q (Infers.receive_worker ty (from q0 d) p h))
    sound (Expression.create_pipeline l r) = quiet-then (Does-note_cpu _) (
        follow (λ s n s1. Infers s l n s1) (sound l)
          λ n.
            follow (λ s n s1. Infers s r n s1) (sound r)
              λ m. Does-guarded _ (
                check_pipeline-Does f type_text n.type m.type
                  λ lt rt send receive p q j st st' q' s2 d2 s1 d1 s q0.
                    rw q' (Infers.create_pipeline lt rt send receive (from q0 d1) d2 p q j)))

    sound_pairs :
        (ps : Pairs)
        → Does (λ st _ st'. InfersPairs st.scope ps st'.scope) (check_pairs f type_text ps)
    sound_pairs Pairs.no_pairs = Does-pure _ λ st. InfersPairs.no_pairs
    sound_pairs (Pairs.pair name e ps) =
        follow (λ s n s1. Infers s e n s1) (sound e)
          λ n.
            Does-guarded _
              (Does-weaken (λ st1 st2 _ ds st d. InfersPairs.pair d ds) (sound_pairs ps))

    sound_parts :
        (es : Expressions)
        → Does
            (λ st m st'. (ts : List Typed) × InfersEach st.scope es ts st'.scope × (m ≡ collect ts))
            (check_parts f type_text es)
    sound_parts Expressions.no_expressions = Does-pure _ λ st. ([], InfersEach.no_expressions, refl)
    sound_parts (Expressions.entry e es) =
        follow (λ s n s1. Infers s e n s1) (sound e)
          λ n. Does-guarded _ (
            follow (λ s m s1. (ts : List Typed) × InfersEach s es ts s1 × (m ≡ collect ts))
              (sound_parts es)
              λ m. Does-pure _ λ st2 st1 (ts, each, same) st d.
                (n.type ∷ ts, InfersEach.entry d each, ap (cons_type n.type) same))
    sound_parts (Expressions.nil_entry es) = Does-demand λ _ _ p. absurd (cc p)

    sound_arguments :
        (es : Expressions)
        → Does
            (λ st _ st'. (ts : List Typed) × InfersEach st.scope es ts st'.scope)
            (check_arguments f type_text es)
    sound_arguments Expressions.no_expressions = Does-pure _ λ st. ([], InfersEach.no_expressions)
    sound_arguments (Expressions.entry e es) =
        follow (λ s n s1. Infers s e n s1) (sound e)
          λ n. Does-guarded _ (
            Does-weaken (λ st1 st2 _ (ts, each) st d. (n.type ∷ ts, InfersEach.entry d each))
              (sound_arguments es))
    sound_arguments (Expressions.nil_entry es) = Does-demand λ _ _ p. absurd (cc p)

    sound_all :
        (es : Expressions)
        → Does (λ st ts st'. InfersEach st.scope es ts st'.scope) (check_all f type_text es)
    sound_all Expressions.no_expressions = Does-pure _ λ st. InfersEach.no_expressions
    sound_all (Expressions.entry e es) =
        follow (λ s n s1. Infers s e n s1) (sound e)
          λ n.
            follow (λ s ts s1. InfersEach s es ts s1) (sound_all es)
              λ ts. Does-pure _ λ st2 st1 each st d. InfersEach.entry d each
    sound_all (Expressions.nil_entry es) = Does-demand λ _ _ p. absurd (cc p)

  -- The check of an expression in the pass KPassSetTypes returns or panics, and its comparisons of
  -- types do not run out of fuel. Where it leaves the log of the errors clean, the log was clean
  -- before, what the passes hold open is as it was, and the node that comes out, with its type, is
  -- one that the rules infer for the expression, from the scope before to the scope after.
  pub check-Infers :
      (e : Expression) (st : PassState)
      → Safe
          (λ (n, st').
            clean st'.context.errors ≡ true
            → (clean st.context.errors ≡ true)
              × Kept st.context st'.context
              × Infers st.scope e n st'.scope)
          (check f type_text e st)
  check-Infers e st = (sound e).run st
