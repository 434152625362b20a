-- ===== src/Ast/Check/Blocks.antt =====
-- Nested blocks of the check: CPU and GPU code, and the statements that a block collects.
use eyot.Prelude.{
  ℕ, suc, ◌||◌, ◌≡◌, refl, sym, ap, ◌∙◌, Bool, true, false, List, [], ◌∷◌, ◌++◌, append_assoc,
  append-nil, Outcome, ok, panic, ◌>>=◌, NoError, if◌then◌else◌, ltb, ◌&&◌,
}
use eyot.Ast.Check.Context.{
  CheckContext, enter_gpu_block, leave_gpu_block, enter_cpu_block, leave_cpu_block,
  validate_cpu_gpu_count, insert_statement_before, start_statement_collection_block,
  stop_statement_collection_block,
}

-- The calls that open and close blocks.
pub data Block : Type 0 where
  enter_gpu : Block
  leave_gpu : Block
  enter_cpu : Block
  leave_cpu : Block

-- Every block that is opened is closed, the innermost first.
pub data Balanced : List Block → Type 0 where
  no_block : Balanced []
  gpu_block :
      {inside after : List Block}
      → Balanced inside
      → Balanced after
      → Balanced (Block.enter_gpu ∷ (inside ++ (Block.leave_gpu ∷ after)))
  cpu_block :
      {inside after : List Block}
      → Balanced inside
      → Balanced after
      → Balanced (Block.enter_cpu ∷ (inside ++ (Block.leave_cpu ∷ after)))

-- Inside of `c` CPU blocks and `g` GPU blocks: does one of the blocks stand inside blocks of both
-- kinds?
abbrev pub mixed : {bs : List Block} → Balanced bs → ℕ → ℕ → Bool
mixed no_block c g = false
mixed (gpu_block b b') c g = mixed b c (suc g) || (ltb 0 c && ltb 0 g || mixed b' c g)
mixed (cpu_block b b') c g = mixed b (suc c) g || (ltb 0 c && ltb 0 g || mixed b' c g)

-- Nested blocks of the GPU alone.
pub data NestedGpu : List Block → Type 0 where
  no_gpu : NestedGpu []
  gpu_in_gpu :
      {inside after : List Block}
      → NestedGpu inside
      → NestedGpu after
      → NestedGpu (Block.enter_gpu ∷ (inside ++ (Block.leave_gpu ∷ after)))

module _ {S E : Type 0} where
  unfoldable pub run_block : Block → CheckContext S E → Outcome NoError (CheckContext S E)
  run_block Block.enter_gpu cc = ok (enter_gpu_block cc)
  run_block Block.leave_gpu cc = leave_gpu_block cc
  run_block Block.enter_cpu cc = ok (enter_cpu_block cc)
  run_block Block.leave_cpu cc = leave_cpu_block cc

  unfoldable pub run_blocks : List Block → CheckContext S E → Outcome NoError (CheckContext S E)
  unfolding run_block
  run_blocks [] cc = ok cc
  run_blocks (b ∷ bs) cc = run_block b cc >>= run_blocks bs

  bind_run-append :
      (xs ys : List Block)
      → ((c : CheckContext S E) → run_blocks (xs ++ ys) c ≡ run_blocks xs c >>= run_blocks ys)
      → (m : Outcome NoError (CheckContext S E))
      → m >>= run_blocks (xs ++ ys) ≡ m >>= run_blocks xs >>= run_blocks ys
  bind_run-append xs ys same (ok c) = same c
  bind_run-append xs ys same (Outcome.err e) = refl
  bind_run-append xs ys same panic = refl

  run_blocks-append :
      (xs ys : List Block) (cc : CheckContext S E)
      → run_blocks (xs ++ ys) cc ≡ run_blocks xs cc >>= run_blocks ys
  unfolding run_blocks
  run_blocks-append [] ys cc = refl
  run_blocks-append (x ∷ xs) ys cc =
      bind_run-append xs ys (run_blocks-append xs ys) (run_block x cc)

  leave_gpu-enter_gpu :
      (cc : CheckContext S E)
      → leave_gpu_block (enter_gpu_block cc)
        ≡ (if ltb 0 cc.in_cpu_method_count && ltb 0 cc.in_gpu_method_count then panic else ok cc)
  unfolding leave_gpu_block enter_gpu_block validate_cpu_gpu_count
  leave_gpu-enter_gpu cc = refl

  leave_cpu-enter_cpu :
      (cc : CheckContext S E)
      → leave_cpu_block (enter_cpu_block cc)
        ≡ (if ltb 0 cc.in_cpu_method_count && ltb 0 cc.in_gpu_method_count then panic else ok cc)
  unfolding leave_cpu_block enter_cpu_block validate_cpu_gpu_count
  leave_cpu-enter_cpu cc = refl

  -- A block that panics or is entered and left, and what stands behind it.
  three_parts :
      (c inner : CheckContext S E) (x y z : Bool)
      (leave rest : CheckContext S E → Outcome NoError (CheckContext S E))
      → leave inner ≡ (if y then panic else ok c)
      → rest c ≡ (if z then panic else ok c)
      → (if x then panic else ok inner) >>= (λ i. leave i >>= rest)
        ≡ (if x || (y || z) then panic else ok c)
  three_parts c inner true y z leave rest h k = refl
  three_parts c inner false true z leave rest h k = ap (λ m. m >>= rest) h
  three_parts c inner false false z leave rest h k = ap (λ m. m >>= rest) h ∙ k

  -- Properly nested GPU and CPU blocks leave the context as they found it, unless one of them stands
  -- inside blocks of both kinds: then, and only then, they panic.
  pub run_blocks-Balanced :
      (bs : List Block) (b : Balanced bs) (cc : CheckContext S E)
      → run_blocks bs cc
        ≡ (if mixed b cc.in_cpu_method_count cc.in_gpu_method_count then panic else ok cc)
  unfolding run_blocks run_block enter_gpu_block enter_cpu_block
  run_blocks-Balanced _ no_block cc = refl
  run_blocks-Balanced _ (gpu_block {inside} {after} b b') cc =
      run_blocks-append inside (Block.leave_gpu ∷ after) (enter_gpu_block cc)
      ∙ ap (λ m. m >>= run_blocks (Block.leave_gpu ∷ after))
          (run_blocks-Balanced inside b (enter_gpu_block cc))
      ∙ three_parts cc _ _ _ _ _ (run_blocks after) (leave_gpu-enter_gpu cc)
          (run_blocks-Balanced after b' cc)
  run_blocks-Balanced _ (cpu_block {inside} {after} b b') cc =
      run_blocks-append inside (Block.leave_cpu ∷ after) (enter_cpu_block cc)
      ∙ ap (λ m. m >>= run_blocks (Block.leave_cpu ∷ after))
          (run_blocks-Balanced inside b (enter_cpu_block cc))
      ∙ three_parts cc _ _ _ _ _ (run_blocks after) (leave_cpu-enter_cpu cc)
          (run_blocks-Balanced after b' cc)

  -- The statements inserted one after the other
  unfoldable pub insert_all : List S → CheckContext S E → Outcome NoError (CheckContext S E)
  insert_all [] cc = ok cc
  insert_all (s ∷ ss) cc = insert_statement_before cc s >>= insert_all ss

  abbrev with_blocks : CheckContext S E → List (List S) → CheckContext S E
  with_blocks cc blocks = record cc { insert_statements = blocks }

  insert_all-top :
      (ss block : List S) (blocks : List (List S)) (cc : CheckContext S E)
      → insert_all ss (with_blocks cc (block ∷ blocks))
        ≡ ok (with_blocks cc ((block ++ ss) ∷ blocks))
  unfolding insert_all insert_statement_before
  insert_all-top [] block blocks cc =
      ap (λ b. ok (with_blocks cc (b ∷ blocks))) (sym (append-nil block))
  insert_all-top (s ∷ ss) block blocks cc =
      insert_all-top ss (block ++ (s ∷ [])) blocks cc
      ∙ ap (λ b. ok (with_blocks cc (b ∷ blocks))) (append_assoc block (s ∷ []) ss)

  -- A block of statements that is started, filled and stopped gives back what was inserted, in
  -- order, and leaves the context as it was.
  pub stop-insert_all :
      (ss : List S) (cc : CheckContext S E)
      → insert_all ss (start_statement_collection_block cc) >>= stop_statement_collection_block
        ≡ ok (ss, cc)
  unfolding start_statement_collection_block stop_statement_collection_block
  stop-insert_all ss cc =
      ap (λ m. m >>= stop_statement_collection_block) (insert_all-top ss [] cc.insert_statements cc)
