-- ===== src/Ast/Check/Pass/Rules.antt =====
-- Rules for what a call of `Check` does: a panic, or a state in which the log of the errors is clean
-- only where it was before, and then with what the passes hold open as it was.
use eyot.Prelude.{
  ℕ, Option, List, [], ◌≡◌, refl, ◌∙◌, Bool, true, false, Text, Outcome, ok, err, panic,
  if◌then◌else◌, NoError, Safe, Safe-bind, Safe-weaken,
}
use eyot.Errors.{clean}
use eyot.Errors.Log.{log_errors-errorf}
use eyot.Ast.Types.{Ty, Checked}
use eyot.Ast.Syntax.{Statement, Element}
use eyot.Ast.Ids.{ModuleId}
use eyot.Ast.Check.Context.{CheckContext, CheckPass}
use eyot.Ast.Check.Pass.{
  PassState, Pass, pure, ◌>>>=◌, ◌>>>◌, force, demand, fail, is_clean, guarded,
}

-- What a call leaves as it was.
pub record Held : Type 0 where
  pub pass : CheckPass
  pub insert_statements : List (List Statement)
  pub return_types : List Ty
  pub cpu_count : ℕ
  pub gpu_count : ℕ
  pub current_module : Option ModuleId

abbrev pub held : CheckContext Statement Element → Held
held c = record {
  pass = c.pass;
  insert_statements = c.insert_statements;
  return_types = c.return_types;
  cpu_count = c.in_cpu_method_count;
  gpu_count = c.in_gpu_method_count;
  current_module = c.current_module;
}

abbrev pub Kept : CheckContext Statement Element → CheckContext Statement Element → Type 0
Kept c c' = held c' ≡ held c

abbrev pub Judgement : Type 0 → Type 1
Judgement A = PassState → A → PassState → Type 0

abbrev pub Cleanly : {A : Type 0} → Judgement A → PassState → A × PassState → Type 0
Cleanly J st (a, st') =
    clean st'.context.errors ≡ true
    → (clean st.context.errors ≡ true) × Kept st.context st'.context × J st a st'

pub record Does {A : Type 0} (J : Judgement A) (m : Pass A) : Type 0 where
  pub run : (st : PassState) → Safe (Cleanly J st) (m st)

pub Does-pure :
    {A : Type 0} {J : Judgement A} (a : A) → ((st : PassState) → J st a st) → Does J (pure a)
unfolding pure
Does-pure a j = record { run = λ st. Safe.returns λ c. (c, refl, j st) }

pub Does-bind :
    {A B : Type 0} {J : Judgement A} {K : A → Judgement B} {L : Judgement B} {m : Pass A}
    {k : A → Pass B}
    → Does J m
    → ((a : A) → Does (K a) (k a))
    → ((st st1 st2 : PassState) (a : A) (b : B)
        → Kept st.context st1.context
        → J st a st1
        → K a st1 b st2
        → L st b st2)
    → Does L (m >>>= k)
unfolding ◌>>>=◌
Does-bind dm dk join = record {
  run = λ st. Safe-bind (dm.run st) λ (a, st1) h.
      Safe-weaken
        (λ (b, st2) h' c.
          let (c1, kept2, kk) = h' c in
          let (c0, kept1, jj) = h c1 in (c0, kept2 ∙ kept1, join st st1 st2 a b kept1 jj kk))
        ((dk a).run st1);
}

pub Does-weaken :
    {A : Type 0} {J K : Judgement A} {m : Pass A}
    → ((st st' : PassState) (a : A) → J st a st' → K st a st')
    → Does J m
    → Does K m
Does-weaken w d = record {
  run = λ st.
      Safe-weaken (λ (a, st') h c. let (c0, kept, j) = h c in (c0, kept, w st st' a j)) (d.run st);
}

pub Does-force :
    {A : Type 0} {P : A → Type 0} {J : Judgement A} {m : Checked A}
    → Safe P m
    → ((st : PassState) (a : A) → P a → J st a st)
    → Does J (force m)
unfolding force
Does-force s w = record { run = λ st. Safe-bind s λ a p. Safe.returns λ c. (c, refl, w st a p) }

pub Does-demand :
    {A : Type 0} {J : Judgement A} {m : Outcome NoError A}
    → ((st : PassState) (a : A) → m ≡ ok a → J st a st)
    → Does J (demand m)
unfolding demand
Does-demand {m = ok a} w = record { run = λ st. Safe.returns λ c. (c, refl, w st a refl) }
Does-demand {m = err e} w = elim e [ ]
Does-demand {m = panic} w = record { run = λ st. Safe.panics }

-- A call that logs an error
pub Does-fail : {J : Judgement (Unit {0})} (message : Text) → Does J (fail message)
unfolding fail
Does-fail message = record {
  run = λ st.
      Safe.returns λ c. absurd (cc (c, (log_errors-errorf (λ _. []) st.context.errors message).0));
}

branch_of :
    {A : Type 0} (J : Judgement A) (k : Pass A) (early : A) (st : PassState) (b : Bool)
    → clean st.context.errors ≡ b
    → Safe (Cleanly J st) (k st)
    → Safe (Cleanly J st) ((if b then k else pure early) st)
unfolding pure
branch_of J k early st true e s = s
branch_of J k early st false e s = Safe.returns λ c. absurd (cc (c, e))

-- Where the log is clean at the end, the guard let the rest run.
pub Does-guarded :
    {A : Type 0} {J : Judgement A} {k : Pass A} (early : A) → Does J k → Does J (guarded early k)
unfolding guarded is_clean ◌>>>=◌
Does-guarded {J} {k} early d = record {
  run = λ st. branch_of J k early st (clean st.context.errors) refl (d.run st);
}

pub Does-if :
    {A : Type 0} {J : Judgement A} (b : Bool) (m k : Pass A)
    → (b ≡ true → Does J m)
    → (b ≡ false → Does J k)
    → Does J (if b then m else k)
Does-if true m k p q = p refl
Does-if false m k p q = q refl

-- What follows an error does not matter.
pub Does-fail->>> :
    {A : Type 0} {J : Judgement A} {K : Judgement A} {k : Pass A} (message : Text)
    → Does K k
    → Does J (fail message >>> k)
Does-fail->>> message d =
    Does-bind {J = λ _ _ _. ⊥} (Does-fail message) (λ _. d) λ _ _ _ _ _ _ e _. absurd e
