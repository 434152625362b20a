-- ===== src/Ast/Scope/Gpu/Complete.antt =====
-- The fuel of `CanPassToGpu` of src/ast/scope.go on a type that is safe.
use eyot.Prelude.{ℕ, zero, suc, ◌+◌, ◌<◌, ◌≡◌, refl, true, arith, ok}
use eyot.Ast.Scope.{
  Scope, Passes, all_pass, field_types, pass_struct, pass_of, can_pass_to_gpu, blank_type,
}
use eyot.Ast.Scope.Gpu.{
  is_plain, GpuSafe, AllSafe, simple, float, tuple, struct, none_left, one_more,
}
use eyot.Ast.Types.{Ty, Types, cons, TypeSelector, selector, types}

abbrev pub Accepted : Passes → Type 0
Accepted m = (ty : Ty) × (m ≡ ok (true, ty))

-- From some fuel on, the call accepts.
abbrev pub Accepts : Scope → Ty → Type 0
Accepts s ty = (n : ℕ) × ((fuel : ℕ) → n < fuel → Accepted (can_pass_to_gpu fuel s ty))

abbrev AcceptsAll : Scope → Types → Type 0
AcceptsAll s ts =
    (n : ℕ) × ((fuel : ℕ) → n < fuel → Accepted (all_pass (can_pass_to_gpu fuel s) ts))

pass_of-is_plain :
    (pass : Ty → Passes) (s : Scope) (ty : Ty) (k : TypeSelector)
    → is_plain k ≡ true
    → Accepted (pass_of pass s k ty)
unfolding pass_of
pass_of-is_plain pass s ty TypeSelector.integer h = (blank_type, refl)
pass_of-is_plain pass s ty TypeSelector.string h = (blank_type, refl)
pass_of-is_plain pass s ty TypeSelector.boolean h = (blank_type, refl)
pass_of-is_plain pass s ty TypeSelector.void h = (blank_type, refl)
pass_of-is_plain pass s ty _ h = absurd (ground arith)

-- One more call, where the answer is known on all fuel from some point on.
one_call :
    (s : Scope) (ty : Ty) (n : ℕ)
    → ((fuel : ℕ) → n < fuel → Accepted (pass_of (can_pass_to_gpu fuel s) s (selector ty) ty))
    → Accepts s ty
unfolding can_pass_to_gpu
one_call s ty n h = (suc n, after)
  where
    after : (fuel : ℕ) → suc n < fuel → Accepted (can_pass_to_gpu fuel s ty)
    after zero lt = absurd (omega arith)
    after (suc fuel) lt = h fuel (omega arith)

both_pass :
    (pass : Ty → Passes) (t : Ty) (ts : Types)
    → Accepted (pass t)
    → Accepted (all_pass pass ts)
    → Accepted (all_pass pass (cons t ts))
unfolding all_pass
both_pass pass t ts (ty, e) (ty', e') = (ty', rw e e')

mutual
  unfolding pass_of pass_struct all_pass

  accepts : (s : Scope) (ty : Ty) → GpuSafe s ty → Accepts s ty
  accepts s ty (simple h) =
      one_call s ty 0 λ fuel lt. pass_of-is_plain (can_pass_to_gpu fuel s) s ty (selector ty) h
  accepts s ty (float e w) = one_call s ty 0 λ fuel lt. (ty, rw (e, w))
  accepts s ty (tuple e a) =
      let (n, h) = all_accept s (types ty) a in one_call s ty n λ fuel lt. rw e (h fuel lt)
  accepts s ty (struct {sd = sd} e found a) =
      let (n, h) = all_accept s (field_types sd.fields) a in
      one_call s ty n λ fuel lt. rw (e, found) (h fuel lt)

  all_accept : (s : Scope) (ts : Types) → AllSafe s ts → AcceptsAll s ts
  all_accept s ts none_left = (0, λ fuel lt. (blank_type, refl))
  all_accept s ts (one_more {t} {ts = us} g a) =
      let (n, h) = accepts s t g in
      let (m, k) = all_accept s us a in
      (
        n + m,
        λ fuel lt.
            both_pass (can_pass_to_gpu fuel s) t us (h fuel (omega arith)) (k fuel (omega arith)),
      )
