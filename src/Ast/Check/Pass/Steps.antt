-- ===== src/Ast/Check/Pass/Steps.antt =====
-- src/ast/check.go: what the operations on the context do in a call of `Check`.
use eyot.Prelude.{
  ℕ, ◌≡◌, refl, ◌∙◌, Bool, true, false, Option, none, some, Text, Outcome, ok, NoError, Safe,
  Safe-bind, Post, returns, fails, panics, Post-bind, Post-any, Post-weaken, Post-self,
  if◌then◌else◌, ◌==◌, lookup, [], List,
}
use eyot.Errors.{errorf, clean}
use eyot.Errors.Log.{log_errors-errorf}
use eyot.Ast.Types.{Ty, cons, nil, selector, width, make_void}
use eyot.Ast.Types.Names.{raw_identifier, tuple_identifier, vector_add_name}
use eyot.Ast.Structs.{StructDefinition}
use eyot.Ast.Scope.{Scope, add_c_function}
use eyot.Ast.Syntax.{Statement, Element}
use eyot.Ast.Check.Context.{
  CheckContext, RequiredStruct, note_cpu_required, note_gpu_required, get_unique_id,
  set_gpu_required,
}
use eyot.Ast.Check.Require.{
  require_type, require_aggregate, require_named, require_vector, require_unless_known,
  note_wide_float, is_wide_float, is_set_types, is_aggregate, is_tuple, is_required, module_id_of,
}
use eyot.Ast.Check.Pass.{
  widen, get_scope, put_scope, get_context, note_cpu, note_gpu, require_gpu, take_temporary_name,
  require_vector_of, require,
}
use eyot.Ast.Check.Pass.Rules.{Kept, Judgement, Does}

abbrev Context : Type 0
Context = CheckContext Statement Element

-- Nothing that the passes hold open changes, and the log does not become clean.
record Steps (c c' : Context) : Type 0 where
  back : clean c'.errors ≡ true → (clean c.errors ≡ true) × Kept c c'

Steps-refl : (c : Context) → Steps c c
Steps-refl c = record { back = λ h. (h, refl) }

Steps-trans : {a b c : Context} → Steps a b → Steps b c → Steps a c
Steps-trans p q = record {
  back = λ h. let (h', k') = q.back h in let (h'', k) = p.back h' in (h'', k' ∙ k);
}

Steps-errorf :
    (c : Context) (message : Text) → Steps c (record c { errors = errorf c.errors message })
Steps-errorf c message = record {
  back = λ h. absurd (cc (h, (log_errors-errorf (λ _. []) c.errors message).0));
}

Steps-if : (b : Bool) (c x y : Context) → Steps c x → Steps c y → Steps c (if b then x else y)
Steps-if true c x y p q = p
Steps-if false c x y p q = q

Steps-note_cpu : (c : Context) (message : Text) → Steps c (note_cpu_required c message)
unfolding note_cpu_required
Steps-note_cpu c message =
    Steps-if (c.in_cpu_method_count == 0) c _ c (Steps-errorf c _) (Steps-refl c)

Steps-note_gpu : (c : Context) (message : Text) → Steps c (note_gpu_required c message)
unfolding note_gpu_required
Steps-note_gpu c message =
    Steps-if (c.in_gpu_method_count == 0) c _ c (Steps-errorf c _) (Steps-refl c)

Steps-wide_float : (c : Context) (ty : Ty) → Steps c (note_wide_float c ty)
Steps-wide_float c ty =
    Steps-if (is_wide_float (selector ty) (width ty)) c _ c (Steps-note_cpu c _) (Steps-refl c)

Steps-structs :
    (c : Context) (structs : List RequiredStruct) → Steps c (record c { structs = structs })
Steps-structs c structs = record { back = λ h. (h, refl) }

Steps-named :
    (c : Context) (tyid : Text) (ty : Ty) (o : Option StructDefinition)
    → Steps c (require_named c tyid ty o)
unfolding require_named
Steps-named c tyid ty (some sd) = Steps-structs c _
Steps-named c tyid ty none = Steps-trans (Steps-errorf c _) (Steps-structs _ _)

Post-if :
    {P : Context → Type 0} (b : Bool) (x y : Outcome NoError Context)
    → Post P x
    → Post P y
    → Post P (if b then x else y)
Post-if true x y p q = p
Post-if false x y p q = q

module _ (format_nat : ℕ → Text) where
  Steps-aggregate :
      (c : Context) (tyid : Text) (ty : Ty) (s : Scope)
      → Post (Steps c) (require_aggregate format_nat c tyid ty s)
  unfolding require_aggregate
  Steps-aggregate c tyid ty s = Post-if (is_required tyid c.structs) _ _ (returns (Steps-refl c)) (
      Post-if (is_tuple (selector ty)) _ _
        (Post-bind (Post-any (module_id_of c)) λ mid _. returns (Steps-structs c _))
        (returns (Steps-named c tyid ty _)))

  Steps-require :
      (c : Context) (ty : Ty) (s : Scope) → Post (Steps c) (require_type format_nat c ty s)
  unfolding require_type
  Steps-require c ty s =
      Post-if (is_set_types c.pass) _ _
        (Post-if (is_aggregate (selector ty)) _ _
          (Post-bind (Post-any (tuple_identifier ty)) λ tyid _.
            Post-weaken (λ c' st. Steps-trans (Steps-wide_float c ty) st)
              (Steps-aggregate (note_wide_float c ty) tyid ty s))
          (returns (Steps-wide_float c ty)))
        panics

-- The scope where a vector type is required: as it was, or with the function that appends to it.
pub data Extended (ty : Ty) (s s' : Scope) : Type 0 where
  known : s' ≡ s → Extended ty s s'
  added :
      (name : Text)
      → vector_add_name ty ≡ ok name
      → add_c_function s name make_void (cons ty nil) ≡ ok s'
      → Extended ty s s'

Steps-vector :
    (c : Context) (id : Text) (ty : Ty) (s : Scope) (o : Option Ty)
    → Post (λ (c', s'). Steps c c' × Extended ty s s') (require_unless_known c id ty s o)
unfolding require_unless_known
Steps-vector c id ty s (some v) = returns (Steps-refl c, known refl)
Steps-vector c id ty s none = Post-bind (Post-self (vector_add_name ty)) λ name e.
    Post-bind (Post-self (add_c_function s name make_void (cons ty nil)))
      λ s' e'. returns (record { back = λ h. (h, refl) }, added name e e')

widen-Safe : {A : Type 0} {P : A → Type 0} {m : Outcome NoError A} → Post P m → Safe P (widen m)
widen-Safe (returns p) = Safe.returns p
widen-Safe {P} (fails {e}) = elim e [ ]
widen-Safe panics = Safe.panics

-- A call that leaves the scope as it was.
abbrev pub Quiet : Judgement (Unit {0})
Quiet st _ st' = st'.scope ≡ st.scope

pub Does-note_cpu : (message : Text) → Does Quiet (note_cpu message)
unfolding note_cpu
Does-note_cpu message = record {
  run = λ st.
      Safe.returns λ h. let (h', k) = (Steps-note_cpu st.context message).back h in (h', k, refl);
}

pub Does-note_gpu : (message : Text) → Does Quiet (note_gpu message)
unfolding note_gpu
Does-note_gpu message = record {
  run = λ st.
      Safe.returns λ h. let (h', k) = (Steps-note_gpu st.context message).back h in (h', k, refl);
}

pub Does-require_gpu : Does Quiet require_gpu
unfolding require_gpu set_gpu_required
Does-require_gpu = record { run = λ st. Safe.returns λ h. (h, refl, refl) }

pub Does-take_temporary_name : Does Quiet take_temporary_name
unfolding take_temporary_name get_unique_id
Does-take_temporary_name = record { run = λ st. Safe.returns λ h. (h, refl, refl) }

pub Does-get_scope : Does (λ st s st'. (s ≡ st.scope) × (st'.scope ≡ st.scope)) get_scope
unfolding get_scope
Does-get_scope = record { run = λ st. Safe.returns λ h. (h, refl, (refl, refl)) }

pub Does-put_scope : (s : Scope) → Does (λ st _ st'. st'.scope ≡ s) (put_scope s)
unfolding put_scope
Does-put_scope s = record { run = λ st. Safe.returns λ h. (h, refl, refl) }

pub Does-get_context : Does (λ st c st'. (c ≡ st.context) × (st'.scope ≡ st.scope)) get_context
unfolding get_context
Does-get_context = record { run = λ st. Safe.returns λ h. (h, refl, (refl, refl)) }

pub Does-require_vector :
    (ty : Ty) → Does (λ st _ st'. Extended ty st.scope st'.scope) (require_vector_of ty)
unfolding require_vector_of require_vector
Does-require_vector ty = record {
  run = λ st.
      Safe-bind
        (widen-Safe (
          Post-bind (Post-any (raw_identifier ty))
            λ id _. Steps-vector st.context id ty st.scope (lookup id st.context.vectors)))
        λ (c, s) (steps, ext). Safe.returns λ h. let (h', k) = steps.back h in (h', k, ext);
}

pub Does-require : (format_nat : ℕ → Text) (ty : Ty) → Does Quiet (require format_nat ty)
unfolding require
Does-require format_nat ty = record {
  run = λ st.
      Safe-bind (widen-Safe (Steps-require format_nat st.context ty st.scope))
        λ c steps. Safe.returns λ h. let (h', k) = steps.back h in (h', k, refl);
}
