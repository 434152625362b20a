-- ===== src/Ast/Scope/Gpu.antt =====
-- `CanPassToGpu` of src/ast/scope.go, and the types that are safe for the GPU.
pub mod Complete
use eyot.Prelude.{
  ℕ, zero, suc, ◌≡◌, refl, inl, inr, Bool, true, false, Option, none, some, ==_iff, Post, returns,
  fails, panics, Post-bind, Post-weaken, Bool-cases,
}
use eyot.Ast.Scope.{
  Scope, Passes, lookup_struct_definition, all_pass, field_types, pass_struct, pass_of,
  can_pass_to_gpu,
}
use eyot.Ast.Structs.{StructDefinition}
use eyot.Ast.Types.{Ty, Types, nil, cons, TypeSelector, selector, types, width, struct_id}

-- The kinds that may always be passed.
abbrev pub is_plain : TypeSelector → Bool
is_plain TypeSelector.integer = true
is_plain TypeSelector.string = true
is_plain TypeSelector.boolean = true
is_plain TypeSelector.void = true
is_plain _ = false

mutual
  pub data GpuSafe (s : Scope) : Ty → Type 0 where
    simple : {ty : Ty} → is_plain (selector ty) ≡ true → GpuSafe s ty
    float : {ty : Ty} → selector ty ≡ TypeSelector.float → width ty ≡ 32 → GpuSafe s ty
    tuple : {ty : Ty} → selector ty ≡ TypeSelector.tuple → AllSafe s (types ty) → GpuSafe s ty
    struct :
        {ty : Ty} {sd : StructDefinition}
        → selector ty ≡ TypeSelector.struct
        → lookup_struct_definition s (struct_id ty) ≡ some sd
        → AllSafe s (field_types sd.fields)
        → GpuSafe s ty

  pub data AllSafe (s : Scope) : Types → Type 0 where
    none_left : AllSafe s nil
    one_more : {t : Ty} {ts : Types} → GpuSafe s t → AllSafe s ts → AllSafe s (cons t ts)

abbrev Sound : Scope → Ty → Bool × Ty → Type 0
Sound s ty p = p.0 ≡ true → GpuSafe s ty

module _ (s : Scope) (pass : Ty → Passes) (ok_parts : (t : Ty) → Post (Sound s t) (pass t)) where
  all_pass-Post : (ts : Types) → Post (λ p. p.0 ≡ true → AllSafe s ts) (all_pass pass ts)
  unfolding all_pass
  all_pass-Post nil = returns (λ _. none_left)
  all_pass-Post (cons t ts) = Post-bind (ok_parts t) λ (good, ty) safe. elim (Bool-cases good) [
    | inl yes_good ↦
        rw yes_good (Post-weaken (λ p h k. one_more (safe yes_good) (h k)) (all_pass-Post ts))
    | inr not_good ↦ rw not_good (returns λ k. cc)
  ]

  pass_struct-Post :
      (ty : Ty)
      → selector ty ≡ TypeSelector.struct
      → (o : Option StructDefinition) → lookup_struct_definition s (struct_id ty) ≡ o
      → Post (Sound s ty) (pass_struct pass o)
  unfolding pass_struct
  pass_struct-Post ty e none found = panics
  pass_struct-Post ty e (some sd) found =
      Post-weaken (λ p h k. struct e found (h k)) (all_pass-Post (field_types sd.fields))

  pass_of-Post :
      (ty : Ty) → (k : TypeSelector) → selector ty ≡ k → Post (Sound s ty) (pass_of pass s k ty)
  unfolding pass_of pass_struct
  pass_of-Post ty TypeSelector.tuple e =
      Post-weaken (λ p h k. tuple e (h k)) (all_pass-Post (types ty))
  pass_of-Post ty TypeSelector.struct e =
      pass_struct-Post ty e (lookup_struct_definition s (struct_id ty)) refl
  pass_of-Post ty TypeSelector.float e = returns λ k. float e ((==_iff (width ty) 32).0 k)
  pass_of-Post ty TypeSelector.integer e = returns λ k. simple (rw e refl)
  pass_of-Post ty TypeSelector.string e = returns λ k. simple (rw e refl)
  pass_of-Post ty TypeSelector.boolean e = returns λ k. simple (rw e refl)
  pass_of-Post ty TypeSelector.void e = returns λ k. simple (rw e refl)
  pass_of-Post ty TypeSelector.closure e = returns λ k. cc
  pass_of-Post ty TypeSelector.function e = returns λ k. cc
  pass_of-Post ty TypeSelector.pointer e = returns λ k. cc
  pass_of-Post ty TypeSelector.vector e = returns λ k. cc
  pass_of-Post ty TypeSelector.worker e = returns λ k. cc
  pass_of-Post ty TypeSelector.null e = panics
  pass_of-Post ty TypeSelector.character e = panics

-- Whatever `CanPassToGpu` accepts is safe for the GPU: at any depth it holds plain values and
-- floats of 32 bits only.
pub can_pass_to_gpu-GpuSafe :
    (fuel : ℕ) (s : Scope) (ty : Ty)
    → Post (λ p. p.0 ≡ true → GpuSafe s ty) (can_pass_to_gpu fuel s ty)
unfolding can_pass_to_gpu
can_pass_to_gpu-GpuSafe zero s ty = fails
can_pass_to_gpu-GpuSafe (suc fuel) s ty =
    pass_of-Post s (can_pass_to_gpu fuel s) (can_pass_to_gpu-GpuSafe fuel s) ty (selector ty) refl
