-- ===== src/Ast/Check/Pass/Brackets.antt =====
-- src/ast: rules for what a call of `Check` opens and closes again: blocks of the context and levels of
-- the scope.
use eyot.Prelude.{
  ◌≡◌, refl, sym, ap, ◌∙◌, Bool, true, false, [], ◌∷◌, Outcome, ok, err, panic, ◌>>=◌, NoError,
  Safe, Safe-bind, Safe-weaken, Post, Post-any, Post-bind, Text, lookup, if◌then◌else◌,
}
use eyot.Errors.{clean}
use eyot.Ast.Types.{Ty}
use eyot.Ast.Scope.{Scope, new_scope, set_variable, new_binding}
use eyot.Ast.Syntax.{Statement, Element}
use eyot.Ast.Check.Context.{CheckContext}
use eyot.Ast.Check.Pass.{
  PassState, Pass, pure, ◌>>>=◌, ◌>>>◌, widen, change, attempt, rescope, within_scope, parents,
  guarded, is_clean,
}
use eyot.Ast.Check.Pass.Rules.{Held, held, Kept, Judgement, Cleanly, Does, Does-bind}

abbrev Context : Type 0
Context = CheckContext Statement Element

-- A call that leaves the levels around the innermost one as they were.
abbrev pub Inner : {A : Type 0} → Judgement A
Inner st _ st' = parents st'.scope ≡ parents st.scope

pub Inner-then :
    {A B : Type 0} {m : Pass A} {k : A → Pass B}
    → Does Inner m
    → ((a : A) → Does Inner (k a))
    → Does Inner (m >>>= k)
Inner-then d e = Does-bind d e λ st st1 st2 a b _ p q. q ∙ p

-- A call that closes something takes `undo` of what is held, and leaves the errors.
abbrev pub Undoes : (Held → Held) → (Context → Outcome NoError Context) → Type 0
Undoes undo h =
    (c : Context) → Post (λ c'. (held c' ≡ undo (held c)) × (c'.errors ≡ c.errors)) (h c)

closed :
    (st st' : PassState) (undo : Held → Held) (F : Type 0) (m : Outcome NoError Context)
    → Post (λ c'. (held c' ≡ undo (held st'.context)) × (c'.errors ≡ st'.context.errors)) m
    → (clean st'.context.errors ≡ true
        → (clean st.context.errors ≡ true) × (undo (held st'.context) ≡ held st.context) × F)
    → Safe
        (Cleanly (λ _ _ st2. (st2.scope ≡ st'.scope) × F) st)
        (widen m >>= λ c. ok (tt, record st' { context = c }))
closed st st' undo F (ok c) (Post.returns (k, e)) f =
    Safe.returns λ h. let (h', k', x) = f (ap clean (sym e) ∙ h) in (h', k ∙ k', (refl, x))
closed st st' undo F (err e) p f = elim e [ ]
closed st st' undo F panic p f = Safe.panics

-- What follows a guard runs where the log is clean.
unless :
    (J : Judgement (Unit {0})) (st st' : PassState) (k : Pass (Unit {0})) (b : Bool)
    → clean st'.context.errors ≡ b
    → Safe (Cleanly J st) (k st')
    → Safe (Cleanly J st) ((if b then k else pure tt) st')
unfolding pure
unless J st st' k true e s = s
unless J st st' k false e s = Safe.returns λ c. absurd (cc (c, e))

module _ (g : Context → Context) (h : Context → Outcome NoError Context) (undo : Held → Held)
    (back : (c : Context) → undo (held (g c)) ≡ held c)
    (same : (c : Context) → (g c).errors ≡ c.errors) (undoes : Undoes undo h) where
  close :
      (st st' : PassState) (F : Type 0)
      → (clean st'.context.errors ≡ true
          → (clean (g st.context).errors ≡ true) × Kept (g st.context) st'.context × F)
      → Safe
          (Cleanly (λ _ _ st2. (st2.scope ≡ st'.scope) × F) st)
          (widen (h st'.context) >>= λ c. ok (tt, record st' { context = c }))
  close st st' F f = closed st st' undo F (h st'.context) (undoes st'.context) λ c.
      let (c0, kept, x) = f c in
      (ap clean (sym (same st.context)) ∙ c0, ap undo kept ∙ back st.context, x)

  -- Something that is opened before a call and closed behind it
  pub bracket :
      {m : Pass (Unit {0})}
      → Does (λ st _ st'. st'.scope ≡ st.scope) m
      → Does (λ st _ st'. st'.scope ≡ st.scope) (change g >>> m >>> attempt h)
  unfolding change attempt ◌>>>=◌
  bracket d = record {
    run = λ st. Safe-bind (d.run (record st { context = g st.context })) λ (_, st') f.
        Safe-weaken (λ (_, st2) f2 c. let (c0, kept, (q, x)) = f2 c in (c0, kept, q ∙ x))
          (close st st' (st'.scope ≡ st.scope) f);
  }

  -- The same, where it is closed behind a guard, and something follows
  pub bracket-then :
      {m k : Pass (Unit {0})}
      → Does Inner m
      → Does Inner k
      → Does Inner (change g >>> m >>> guarded tt (attempt h >>> k))
  unfolding change attempt ◌>>>=◌ guarded is_clean
  bracket-then {m} {k} d e = record {
    run = λ st. Safe-bind (d.run (record st { context = g st.context })) λ (_, st') f.
        unless Inner st st' (attempt h >>> k) (clean st'.context.errors) refl (
          Safe-bind (close st st' (parents st'.scope ≡ parents st.scope) f) λ (_, st2) f2.
            Safe-weaken
              (λ (_, st3) f3 c.
                let (c2, kept3, q3) = f3 c in
                let (c0, kept2, (q2, x)) = f2 c2 in (c0, kept3 ∙ kept2, q3 ∙ (ap parents q2 ∙ x)))
              (e.run st2));
  }

-- A level of the scope
pub within_scope-Does :
    {m : Pass (Unit {0})} → Does Inner m → Does (λ st _ st'. st'.scope ≡ st.scope) (within_scope m)
unfolding within_scope
within_scope-Does d = record {
  run = λ st.
      Safe-bind (d.run (record st { scope = new_scope st.scope }))
        λ (_, st') f. Safe.returns λ c. let (c0, kept, q) = f c in (c0, kept, q);
}

pub set_variable-parents :
    (s : Scope) (name : Text) (ty : Ty) (assignable : Bool)
    → Post (λ s'. parents s' ≡ parents s) (set_variable s name ty assignable)
unfolding set_variable
set_variable-parents [] name ty assignable = Post.panics
set_variable-parents (f ∷ parent) name ty assignable =
    Post-bind (Post-any (new_binding (lookup name f.variable_bindings) ty assignable))
      λ b _. Post.returns refl

rescoped :
    (st : PassState) (m : Outcome NoError Scope)
    → Post (λ s'. parents s' ≡ parents st.scope) m
    → Safe (Cleanly Inner st) (widen m >>= λ s. ok (tt, record st { scope = s }))
rescoped st (ok s) (Post.returns p) = Safe.returns λ c. (c, refl, p)
rescoped st (err e) p = elim e [ ]
rescoped st panic p = Safe.panics

pub rescope-Does :
    (g : Scope → Outcome NoError Scope)
    → ((s : Scope) → Post (λ s'. parents s' ≡ parents s) (g s))
    → Does Inner (rescope g)
unfolding rescope
rescope-Does g p = record { run = λ st. rescoped st (g st.scope) (p st.scope) }
