-- ===== src/Ast/Check/Nesting/Undone.antt =====
-- src/ast/check.go: what closes a block of the context takes back what opens it.
use eyot.Prelude.{
  ℕ, zero, suc, ◌≡◌, refl, sym, ap, Bool, true, false, ◌&&◌, List, [], ◌∷◌, ok, panic, ◌>>=◌,
  NoError, Post, if◌then◌else◌, ltb,
}
use eyot.Ast.Types.{Ty, FunctionLocation}
use eyot.Ast.Syntax.{Statement, Element}
use eyot.Ast.Check.Context.{
  CheckContext, enter_gpu_block, leave_gpu_block, enter_cpu_block, leave_cpu_block,
  validate_cpu_gpu_count, push_return_type, pop_return_type, start_statement_collection_block,
  stop_statement_collection_block, should_remove_statement,
}
use eyot.Ast.Check.Pass.{Pass, ◌>>>◌, change, attempt, guarded}
use eyot.Ast.Check.Statements.{close_statement}
use eyot.Ast.Check.Pass.Rules.{Held, held, Does}
use eyot.Ast.Check.Pass.Brackets.{Undoes, Inner, bracket, bracket-then}
use eyot.Ast.Check.Definitions.{in_location}

abbrev Context : Type 0
Context = CheckContext Statement Element

abbrev pub tail_types : List Ty → List Ty
tail_types [] = []
tail_types (_ ∷ tys) = tys

pub pop_return_type-Undoes :
    Undoes (λ h. record h { return_types = tail_types h.return_types }) pop_return_type
unfolding pop_return_type
pop_return_type-Undoes c = at c.return_types refl
  where
    at :
        (tys : List Ty)
        → c.return_types ≡ tys
        → Post {E = NoError}
            (λ c'.
              (held c' ≡ record (held c) { return_types = tail_types c.return_types })
              × (c'.errors ≡ c.errors))
            (elim tys [ [] ↦ panic | _ ∷ rest ↦ ok (record c { return_types = rest }) ])
    at [] e = Post.panics
    at (ty ∷ tys) e =
        Post.returns (ap (λ r. record (held c) { return_types = tail_types r }) (sym e), refl)

abbrev pub tail_blocks : List (List Statement) → List (List Statement)
tail_blocks [] = []
tail_blocks (_ ∷ blocks) = blocks

pub close_statement-Undoes :
    Undoes (λ h. record h { insert_statements = tail_blocks h.insert_statements }) close_statement
unfolding stop_statement_collection_block should_remove_statement
close_statement-Undoes c = at c.insert_statements refl
  where
    at :
        (bs : List (List Statement))
        → c.insert_statements ≡ bs
        → Post {E = NoError}
            (λ c'.
              (held c' ≡ record (held c) { insert_statements = tail_blocks c.insert_statements })
              × (c'.errors ≡ c.errors))
            (elim bs [ [] ↦ panic | b ∷ rest ↦ ok (b, record c { insert_statements = rest }) ]
              >>= λ (_, cc'). ok (should_remove_statement cc').1)
    at [] e = Post.panics
    at (b ∷ bs) e =
        Post.returns (ap (λ r. record (held c) { insert_statements = tail_blocks r }) (sym e), refl)

abbrev pub less_one : ℕ → ℕ
less_one zero = zero
less_one (suc n) = n

validated :
    (c c' : Context) (h : Held)
    → held c' ≡ h
    → c'.errors ≡ c.errors
    → Post (λ c2. (held c2 ≡ h) × (c2.errors ≡ c.errors)) (validate_cpu_gpu_count c')
unfolding validate_cpu_gpu_count
validated c c' h k e = at (ltb 0 c'.in_cpu_method_count && ltb 0 c'.in_gpu_method_count)
  where
    at :
        (b : Bool)
        → Post {E = NoError}
            (λ c2. (held c2 ≡ h) × (c2.errors ≡ c.errors))
            (if b then panic else ok c')
    at true = Post.panics
    at false = Post.returns (k, e)

pub leave_gpu-Undoes : Undoes (λ h. record h { gpu_count = less_one h.gpu_count }) leave_gpu_block
unfolding leave_gpu_block
leave_gpu-Undoes c = at c.in_gpu_method_count refl
  where
    at :
        (n : ℕ)
        → c.in_gpu_method_count ≡ n
        → Post {E = NoError}
            (λ c'.
              (held c' ≡ record (held c) { gpu_count = less_one c.in_gpu_method_count })
              × (c'.errors ≡ c.errors))
            (elim n [
              | zero ↦ panic
              | suc n ↦ validate_cpu_gpu_count (record c { in_gpu_method_count = n })
            ])
    at zero e = Post.panics
    at (suc n) e =
        validated c _ _ (ap (λ r. record (held c) { gpu_count = less_one r }) (sym e)) refl

pub leave_cpu-Undoes : Undoes (λ h. record h { cpu_count = less_one h.cpu_count }) leave_cpu_block
unfolding leave_cpu_block
leave_cpu-Undoes c = at c.in_cpu_method_count refl
  where
    at :
        (n : ℕ)
        → c.in_cpu_method_count ≡ n
        → Post {E = NoError}
            (λ c'.
              (held c' ≡ record (held c) { cpu_count = less_one c.in_cpu_method_count })
              × (c'.errors ≡ c.errors))
            (elim n [
              | zero ↦ panic
              | suc n ↦ validate_cpu_gpu_count (record c { in_cpu_method_count = n })
            ])
    at zero e = Post.panics
    at (suc n) e =
        validated c _ _ (ap (λ r. record (held c) { cpu_count = less_one r }) (sym e)) refl

-- A statement, with those that are inserted before it
pub collected-then :
    {m k : Pass (Unit {0})}
    → Does Inner m
    → Does Inner k
    → Does Inner (
        change start_statement_collection_block
        >>> m
        >>> guarded tt (attempt close_statement >>> k))
unfolding start_statement_collection_block
collected-then d e =
    bracket-then start_statement_collection_block close_statement
      (λ h. record h { insert_statements = tail_blocks h.insert_statements }) (λ c. refl)
      (λ c. refl) close_statement-Undoes d e

-- The block of a function that returns the type
pub returning :
    {m : Pass (Unit {0})} (ty : Ty)
    → Does (λ st _ st'. st'.scope ≡ st.scope) m
    → Does
        (λ st _ st'. st'.scope ≡ st.scope)
        (change (λ cc. push_return_type cc ty) >>> m >>> attempt pop_return_type)
unfolding push_return_type
returning ty d =
    bracket (λ cc. push_return_type cc ty) pop_return_type
      (λ h. record h { return_types = tail_types h.return_types }) (λ c. refl) (λ c. refl)
      pop_return_type-Undoes d

pub in_location-Quiet :
    {m : Pass (Unit {0})} (l : FunctionLocation)
    → Does (λ st _ st'. st'.scope ≡ st.scope) m
    → Does (λ st _ st'. st'.scope ≡ st.scope) (in_location l m)
unfolding in_location enter_gpu_block enter_cpu_block
in_location-Quiet FunctionLocation.gpu d =
    bracket enter_gpu_block leave_gpu_block (λ h. record h { gpu_count = less_one h.gpu_count })
      (λ c. refl) (λ c. refl) leave_gpu-Undoes d
in_location-Quiet FunctionLocation.cpu d =
    bracket enter_cpu_block leave_cpu_block (λ h. record h { cpu_count = less_one h.cpu_count })
      (λ c. refl) (λ c. refl) leave_cpu-Undoes d
in_location-Quiet FunctionLocation.anywhere d = d
