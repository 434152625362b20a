-- ===== src/Ast/Check/Typing/Calls.antt =====
-- src/ast/expressions.go, closure.go and worker-expressions.go: what the check of a node whose parts
-- are checked does, for any judgement that its success gives: calls, literals, closures and workers.
use eyot.Prelude.{
  ◌≡◌, refl, sym, ap, ◌∙◌, Bool, true, not, not-false, Option, none, some, List, [], ◌∷◌, Text,
  Outcome, ok, err, panic, NoError, if◌then◌else◌, ◌==◌,
}
use eyot.Token.Printed.{Format}
use eyot.Ast.Types.{
  Ty, Types, TypeSelector, types, return_type, plain, make_pointer, count_types, is_callable,
  first_type, second_type, pointed, unwrapped, equal, can_assign_to,
}
use eyot.Ast.Types.Fuel.{comparison-Ends}
use eyot.Ast.Syntax.{PipeDestination, Expressions}
use eyot.Ast.Check.Pass.{PassState, pure, note_cpu, take_temporary_name}
use eyot.Ast.Check.Pass.Rules.{
  Judgement, Does, Does-pure, Does-fail, Does-if, Does-guarded, Does-weaken,
}
use eyot.Ast.Check.Pass.Sequence.{quiet-then, fact-then, demand-then, force-then, fail-pure}
use eyot.Ast.Check.Pass.Steps.{
  Quiet, Does-note_cpu, Does-require_gpu, Does-take_temporary_name, Does-require_vector,
  Does-require,
}
use eyot.Ast.Check.Nodes.{
  Typed, Node, own, has_selector, closure_type, count_expressions, worker_type, received_type,
}
use eyot.Ast.Check.Operands.{MethodScope, AllAssign, Serves, Joins}
use eyot.Ast.Check.Parts.{
  nothing, require_method, runs_on_cpu, check_called, check_elements, assert_type, check_closure,
  gpu_destination, check_worker, check_pipeline,
}
use eyot.Ast.Check.Expressions.{check_new, check_receive, check_tuple, tuple_of}
use eyot.Ast.Check.Typing.Nodes.{Yields, finish-Does}

ok-injective : {a b : Ty} → ◌≡◌ {A = Outcome NoError Ty} (ok a) (ok b) → a ≡ b
ok-injective e = cc e

-- A type of one kind
pub record OfKind (s : TypeSelector) (t : Typed) : Type 0 where
  pub type : Ty
  pub is : t ≡ ok type
  pub kind : has_selector s type ≡ true

-- Doing nothing, where something holds
quiet-pure : {P : Type 0} → P → Does (λ st _ st'. (st'.scope ≡ st.scope) × P) nothing
quiet-pure p = Does-pure tt λ st. (refl, p)

yield :
    {J : Judgement Node} (ty : Ty)
    → Yields J ty
    → Does (λ st1 n st2. (st : PassState) → st1.scope ≡ st.scope → J st n st2) (pure (own (ok ty)))
yield ty y = Does-pure (own (ok ty)) λ st1 st q. y st st1 q

module _ (f : Format) (type_text : Ty → Text) where
  pub require_method-Does :
      (o : Option Typed)
      → Does (λ st _ st'. MethodScope st.scope o st'.scope) (require_method f type_text o)
  unfolding require_method
  require_method-Does none = Does-pure tt λ st. MethodScope.no_access
  require_method-Does (some t) = demand-then t λ accessed p.
      demand-then (unwrapped accessed) λ ty q.
        Does-if (has_selector TypeSelector.vector ty) _ _
          (λ h. demand-then (first_type (types ty)) λ element e.
            Does-weaken
              (λ st st' _ ext. rw p (MethodScope.of_vector accessed ty element st'.scope q e ext))
              (Does-require_vector element))
          λ h. Does-pure tt λ st. rw p (MethodScope.not_vector accessed ty q h)

  note_if-Does : (b : Bool) (message : Text) → Does Quiet (if b then note_cpu message else nothing)
  note_if-Does b message = Does-if b _ _ (λ _. Does-note_cpu message) λ _. Does-pure tt λ st. refl

  pub check_called-Does :
      {J : Judgement Node} (t : Typed)
      → ((ty r : Ty)
          → t ≡ ok ty
          → is_callable ty ≡ true
          → pointed {E = NoError} (return_type ty) ≡ ok r
          → Yields J r)
      → Does J (check_called f type_text t)
  unfolding check_called
  check_called-Does t y = demand-then t λ ty p.
      Does-if (is_callable ty) _ _
        (λ h.
          quiet-then (note_if-Does (runs_on_cpu ty) _)
            (demand-then (pointed (return_type ty)) λ r e. yield r (y ty r p h e)))
        λ _. fail-pure _ _

  pub check_elements-Does :
      (element : Ty) (ts : List Typed)
      → Does
          (λ st _ st'. (st'.scope ≡ st.scope) × AllAssign element ts)
          (check_elements f type_text element ts)
  unfolding check_elements
  check_elements-Does element [] = quiet-pure AllAssign.no_elements
  check_elements-Does element (t ∷ ts) = demand-then t λ ty p.
      force-then (can_assign_to ty element) (comparison-Ends ty element).2 λ good _ e.
        Does-if good _ _
          (λ h.
            Does-weaken
              (λ st st' _ (q, all). (q, rw p (AllAssign.next_element ty ts (e ∙ ap ok h) all)))
              (check_elements-Does element ts))
          λ _. Does-fail _

  pub assert_type-Does :
      (s : TypeSelector) (t : Typed)
      → Does (λ st _ st'. (st'.scope ≡ st.scope) × OfKind s t) (assert_type f type_text s t)
  unfolding assert_type
  assert_type-Does s t = demand-then t λ ty p.
      Does-if (has_selector s ty) _ _
        (λ h. Does-pure tt λ st. (refl, record { type = ty; is = p; kind = h })) λ _. Does-fail _

  pub check_closure-Does :
      {J : Judgement Node} (es : Expressions) (t : Typed)
      → ((st st' : PassState) (ty : Ty)
          → t ≡ ok ty
          → (count_types (types ty) == count_expressions es) ≡ true
          → st'.scope ≡ st.scope
          → J st (own (closure_type es ty)) st')
      → Does J (check_closure f type_text es t)
  unfolding check_closure
  check_closure-Does es t y = demand-then t λ ty p.
      Does-if (count_types (types ty) == count_expressions es) _ _
        (λ h.
          quiet-then Does-take_temporary_name (Does-pure _ λ st1 st q. rw p (y st st1 ty p h q)))
        λ _. fail-pure _ _

  gpu_destination-Does : (d : PipeDestination) → Does Quiet (gpu_destination d)
  gpu_destination-Does PipeDestination.cpu = Does-pure tt λ st. refl
  gpu_destination-Does PipeDestination.gpu = Does-require_gpu

  temporary-Does : (b : Bool) → Does Quiet (if b then nothing else take_temporary_name)
  temporary-Does b = Does-if b _ _ (λ _. Does-pure tt λ st. refl) λ _. Does-take_temporary_name

  pub check_worker-Does :
      {J : Judgement Node} (d : PipeDestination) (t : Typed)
      → ((ty send receive : Ty)
          → t ≡ ok ty
          → Serves ty send receive
          → Yields J (worker_type send receive))
      → Does J (check_worker f type_text d t)
  unfolding check_worker
  check_worker-Does d t y = quiet-then (gpu_destination-Does d) (
      demand-then t λ ty p.
        Does-if (not (is_callable ty)) _ _ (λ _. fail-pure _ _)
          λ c.
            Does-if (not (count_types (types ty) == 1)) _ _ (λ _. fail-pure _ _)
              λ one. quiet-then (temporary-Does (has_selector TypeSelector.function ty)) (
                demand-then (first_type (types ty)) λ send e.
                  demand-then (pointed (return_type ty)) λ receive r. Does-pure _ λ st2 st1 q1 st q.
                    y ty send receive p
                      (record {
                        callable = not-false _ c;
                        one_parameter = not-false _ one;
                        parameter = e;
                        returned = r;
                      })
                      st st2 (q1 ∙ q)))

  pub check_pipeline-Does :
      {J : Judgement Node} (l r : Typed)
      → ((lt rt send receive : Ty)
          → l ≡ ok lt
          → r ≡ ok rt
          → Joins lt rt send receive
          → Yields J (worker_type send receive))
      → Does J (check_pipeline f type_text l r)
  unfolding check_pipeline
  check_pipeline-Does l r y = demand-then l λ lt p.
      Does-if (not (has_selector TypeSelector.worker lt)) _ _ (λ _. fail-pure _ _)
        λ wl. demand-then r λ rt q.
          Does-if (not (has_selector TypeSelector.worker rt)) _ _ (λ _. fail-pure _ _)
            λ wr. demand-then (first_type (types lt)) λ send e1.
              demand-then (second_type (types lt)) λ intermediate e2.
                demand-then (second_type (types rt)) λ receive e3.
                  demand-then (first_type (types rt)) λ input e4.
                    force-then (equal input intermediate) (comparison-Ends input intermediate).0
                      λ good _ e5.
                        Does-if good _ _
                          (λ h. Does-pure _ λ st.
                            y lt rt send receive p q
                              (record {
                                left_worker = not-false _ wl;
                                right_worker = not-false _ wr;
                                intermediate = intermediate;
                                input = input;
                                sends = e1;
                                passes_on = e2;
                                receives = e3;
                                takes = e4;
                                same = e5 ∙ ap ok h;
                              })
                              st st refl)
                          λ _. fail-pure _ _

  pub check_new-Does :
      {J : Judgement Node} (t : Typed)
      → ((ty : Ty) → t ≡ ok ty → Yields J (make_pointer ty))
      → Does J (check_new f type_text t)
  unfolding check_new
  check_new-Does t y = Does-guarded _ (
      demand-then t
        λ ty p. quiet-then (Does-require f.int ty) (Does-pure _ λ st1 st q. rw p (y ty p st st1 q)))

  pub check_receive-Does :
      {J : Judgement Node} (all : Bool) (t : Typed)
      → ((st st' : PassState) (ty : Ty)
          → t ≡ ok ty
          → has_selector TypeSelector.worker ty ≡ true
          → st'.scope ≡ st.scope
          → J st (own (received_type all ty)) st')
      → Does J (check_receive f type_text all t)
  unfolding check_receive
  check_receive-Does {J} all t y = Does-guarded _ (
      demand-then t λ ty p.
        fact-then
          (Does-if (has_selector TypeSelector.worker ty) _ _ (λ h. quiet-pure h) λ _. Does-fail _)
          (Does-pure _ λ st1 st q h. rw p (y st st1 ty p h q)))

  pub check_tuple-Does :
      {J : Judgement Node} (ts : Outcome NoError Types)
      → ((tys : Types) → ts ≡ ok tys → Yields J (plain TypeSelector.tuple tys))
      → Does J (check_tuple f type_text ts)
  unfolding check_tuple
  check_tuple-Does (ok tys) y = Does-guarded _ (
      demand-then (tuple_of (ok tys)) λ ty e.
        finish-Does f type_text ty λ st st' q. rw (sym (ok-injective e)) (y tys refl st st' q))
  check_tuple-Does (err e) y = elim e [ ]
  check_tuple-Does panic y = Does-guarded _ (demand-then panic λ ty e. absurd (cc e))
