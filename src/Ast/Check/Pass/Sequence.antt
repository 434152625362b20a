-- ===== src/Ast/Check/Pass/Sequence.antt =====
-- src/ast: rules for one call of `Check` after another.
use eyot.Prelude.{◌≡◌, refl, Outcome, ok, err, panic, NoError, Safe, Safe-weaken, Text}
use eyot.Ast.Types.{Checked}
use eyot.Ast.Scope.{Scope}
use eyot.Ast.Check.Pass.{PassState, Pass, pure, ◌>>>=◌, ◌>>>◌, force, demand, fail, get_scope}
use eyot.Ast.Check.Pass.Rules.{Judgement, Does, Does-pure, Does-bind, Does-fail->>>}

module _ {A B : Type 0} {J : Judgement B} where
  -- After a call that leaves the scope as it was
  pub quiet-then :
      {m : Pass A} {k : Pass B}
      → Does (λ st _ st'. st'.scope ≡ st.scope) m
      → Does (λ st1 b st2. (st : PassState) → st1.scope ≡ st.scope → J st b st2) k
      → Does J (m >>> k)
  quiet-then d e = Does-bind d (λ _. e) λ st st1 st2 _ b _ q k. k st q

  -- The same, where the call ends cleanly only with a fact
  pub fact-then :
      {P : Type 0} {m : Pass A} {k : Pass B}
      → Does (λ st _ st'. (st'.scope ≡ st.scope) × P) m
      → Does (λ st1 b st2. (st : PassState) → st1.scope ≡ st.scope → P → J st b st2) k
      → Does J (m >>> k)
  fact-then d e = Does-bind d (λ _. e) λ st st1 st2 _ b _ (q, p) k. k st q p

  pub demand-then :
      (m : Outcome NoError A) {k : A → Pass B}
      → ((a : A) → m ≡ ok a → Does J (k a))
      → Does J (demand m >>>= k)
  unfolding demand ◌>>>=◌
  demand-then (ok a) w = record { run = (w a refl).run }
  demand-then (err e) w = elim e [ ]
  demand-then panic w = record { run = λ st. Safe.panics }

  pub force-then :
      {P : A → Type 0} (m : Checked A) {k : A → Pass B}
      → Safe P m
      → ((a : A) → P a → m ≡ ok a → Does J (k a))
      → Does J (force m >>>= k)
  unfolding force ◌>>>=◌
  force-then (ok a) (Safe.returns p) w = record { run = (w a p refl).run }
  force-then (err e) s w = elim s [ ]
  force-then panic Safe.panics w = record { run = λ st. Safe.panics }

-- After a call with a judgement on the scopes
module _ {A B : Type 0} (R : Scope → A → Scope → Type 0) {J : Judgement B} where
  pub follow :
      {m : Pass A} {k : A → Pass B}
      → Does (λ st a st'. R st.scope a st'.scope) m
      → ((a : A) → Does (λ st1 b st2. (st : PassState) → R st.scope a st1.scope → J st b st2) (k a))
      → Does J (m >>>= k)
  follow d e = Does-bind d e λ st st1 st2 a b _ r k. k st r

module _ {B : Type 0} {J : Judgement B} where
  pub scope-then :
      {k : Scope → Pass B}
      → ((s : Scope) → Does (λ st b st'. s ≡ st.scope → J st b st') (k s))
      → Does J (get_scope >>>= k)
  unfolding get_scope ◌>>>=◌
  scope-then w = record {
    run = λ st.
        Safe-weaken (λ (b, st') h c. let (c0, kept, j) = h c in (c0, kept, j refl))
          ((w st.scope).run st);
  }

  -- An error, and then anything that needs no more
  pub fail-pure : (message : Text) (b : B) → Does J (fail message >>> pure b)
  fail-pure message b = Does-fail->>> {K = λ _ _ _. Unit {0}} message (Does-pure b λ _. tt)
