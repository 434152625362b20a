-- ===== src/Tests/Contexts.antt =====
-- The context of the checks of src/ast/check.go at concrete values.
use eyot.Prelude.{
  panic, ℕ, ◌≡◌, true, some, List, [], ◌∷◌, All, get_elem?, Text, codes, ok, Post, ◌>>=◌, arith,
}
use eyot.Errors.{new_errors}
use eyot.Ast.Types.{Ty, nil, cons, TypeSelector, plain, selector}
use eyot.Ast.Types.Names.{tuple_identifier}
use eyot.Ast.Scope.{empty_frame}
use eyot.Ast.Check.Pool.{
  StringPool, IsPool, get_string_id, get_string_pool, HasId, get_string_id-HasId,
  get_string_pool-All,
}
use eyot.Ast.Check.Context.{
  CheckContext, CheckPass, new_check_context, start_statement_collection_block,
  stop_statement_collection_block,
}
use eyot.Ast.Check.Blocks.{
  Block, no_block, gpu_block, run_blocks, cpu_block, run_blocks-Balanced, insert_all,
  stop-insert_all,
}
use eyot.Ast.Check.Require.{require_type, require_vector, is_required, is_aggregate}
use eyot.Ast.Check.Require.Once.{AreApart, require_type-Once, require_vector-again}

abbrev two_strings : StringPool
two_strings = (codes "a", 1) ∷ (codes "b", 0) ∷ []

abbrev two_strings-IsPool : IsPool two_strings
two_strings-IsPool = ((omega arith, (omega arith, tt)), (((λ e. omega (arith, e)), tt), (tt, tt)))

get_string_pool-All_example :
    (r : List Text) × (get_string_pool two_strings ≡ ok r)
    × All (λ e. get_elem? r (e.1) ≡ some (e.0)) two_strings
get_string_pool-All_example = get_string_pool-All two_strings two_strings-IsPool

get_string_id-HasId_example : HasId two_strings (codes "c") (get_string_id two_strings (codes "c"))
get_string_id-HasId_example = get_string_id-HasId two_strings (codes "c") two_strings-IsPool

-- Statements and elements are numbers here.
abbrev context : CheckContext ℕ ℕ
context = record (new_check_context new_errors []) {
  pass = CheckPass.set_types;
  current_module = some (codes "m" ∷ []);
}

abbrev gpu_twice : List Block
gpu_twice = Block.enter_gpu ∷ Block.enter_gpu ∷ Block.leave_gpu ∷ Block.leave_gpu ∷ []

-- GPU code in CPU code in GPU code
abbrev gpu_in_cpu : List Block
gpu_in_cpu =
    Block.enter_gpu ∷ Block.enter_cpu ∷ Block.enter_gpu ∷ Block.leave_gpu ∷ Block.leave_cpu
    ∷ Block.leave_gpu ∷ []

run_blocks-Balanced_example : run_blocks gpu_in_cpu context ≡ panic
run_blocks-Balanced_example =
    run_blocks-Balanced gpu_in_cpu
      (gpu_block (cpu_block (gpu_block no_block no_block) no_block) no_block) context

stop-insert_all_example :
    insert_all (1 ∷ 2 ∷ []) (start_statement_collection_block context)
      >>= stop_statement_collection_block
    ≡ ok (1 ∷ 2 ∷ [], context)
stop-insert_all_example = stop-insert_all (1 ∷ 2 ∷ []) context

abbrev integer_pair : Ty
integer_pair =
    plain TypeSelector.tuple
      (cons (plain TypeSelector.integer nil) (cons (plain TypeSelector.integer nil) nil))

require_type-Once_example :
    Post
      (λ c'.
        AreApart c'.structs
        × ((tyid : Text)
            → is_aggregate (selector integer_pair) ≡ true
            → tuple_identifier integer_pair ≡ ok tyid
            → is_required tyid c'.structs ≡ true))
      (require_type (λ n. n ∷ []) context integer_pair (empty_frame ∷ []))
require_type-Once_example =
    require_type-Once (λ n. n ∷ []) context integer_pair (empty_frame ∷ []) tt

require_vector-again_example :
    Post
      (λ p. require_vector (p.0) integer_pair (p.1) ≡ ok p)
      (require_vector context integer_pair (empty_frame ∷ []))
require_vector-again_example = require_vector-again context integer_pair (empty_frame ∷ [])
