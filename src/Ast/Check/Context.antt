-- ===== src/Ast/Check/Context.antt =====
-- src/ast/check.go: `CheckContext` and the operations that change one part of it.
use eyot.Prelude.{
  ℕ, zero, suc, Bool, true, false, ◌&&◌, Option, none, some, List, [], ◌∷◌, ◌++◌, Text, codes, ltb,
  ◌==◌, if◌then◌else◌, Outcome, ok, panic, NoError,
}
use eyot.Errors.{Errors, errorf}
use eyot.Ast.Ids.{ModuleId, StructId}
use eyot.Ast.Types.{Ty}
use eyot.Ast.Functions.{FunctionGroup}
use eyot.Ast.Structs.{StructDefinition}
use eyot.Ast.Check.Pool.{StringPool, get_string_id}

pub record RequiredStruct : Type 0 where
  pub generated_for_tuple : Bool
  pub type_id : Text
  pub id : StructId
  pub definition : StructDefinition

pub data CheckPass : Type 0 where
  set_tle_types : CheckPass
  set_types : CheckPass
  mutate : CheckPass
  check_types : CheckPass

-- `CheckContext`. `S` and `E` stand for the statements and elements that a pass inserts, which are
-- only passed through. A stack has its top first. The counts of blocks are never left negative.
pub record CheckContext (S E : Type 0) : Type 0 where
  pub pass : CheckPass
  pub errors : Errors
  pub structs : List RequiredStruct
  pub vectors : List (Text × Ty)
  pub insert_statements : List (List S)
  pub insert_elements : List E
  pub return_types : List Ty
  pub temp_count : ℕ
  pub remove_statement : Bool
  pub maximum_closure_size : ℕ
  pub functions : FunctionGroup
  pub in_cpu_method_count : ℕ
  pub in_gpu_method_count : ℕ
  pub gpu_required : Bool
  pub strings : StringPool
  pub current_module : Option ModuleId

module _ {S E : Type 0} where
  abbrev pub new_check_context : Errors → StringPool → CheckContext S E
  new_check_context es sp = record {
    pass = CheckPass.set_tle_types;
    errors = es;
    structs = [];
    vectors = [];
    insert_statements = [];
    insert_elements = [];
    return_types = [];
    temp_count = 0;
    remove_statement = false;
    maximum_closure_size = 0;
    functions = [];
    in_cpu_method_count = 0;
    in_gpu_method_count = 0;
    gpu_required = false;
    strings = sp;
    current_module = none;
  }

  -- `GetStringId`, on the context
  abbrev pub context_string_id : CheckContext S E → Text → ℕ × CheckContext S E
  context_string_id ctx s =
      let (id, pool) = get_string_id ctx.strings s in (id, record ctx { strings = pool })

  unfoldable pub require_closure_size : CheckContext S E → ℕ → CheckContext S E
  require_closure_size ctx size =
      if ltb ctx.maximum_closure_size size then record ctx { maximum_closure_size = size } else ctx

  unfoldable pub set_gpu_required : CheckContext S E → CheckContext S E
  set_gpu_required cc = record cc { gpu_required = true }

  unfoldable pub get_unique_id : CheckContext S E → ℕ × CheckContext S E
  get_unique_id cc = (suc cc.temp_count, record cc { temp_count = suc cc.temp_count })

  -- `validateCpuGpuCount`, of counts that are not negative
  unfoldable pub validate_cpu_gpu_count : CheckContext S E → Outcome NoError (CheckContext S E)
  validate_cpu_gpu_count cc =
      if ltb 0 cc.in_cpu_method_count && ltb 0 cc.in_gpu_method_count then panic else ok cc

  unfoldable pub enter_gpu_block : CheckContext S E → CheckContext S E
  enter_gpu_block cc = record cc { in_gpu_method_count = suc cc.in_gpu_method_count }

  -- A count that would go below 0 is a panic of the validation.
  unfoldable pub leave_gpu_block : CheckContext S E → Outcome NoError (CheckContext S E)
  unfolding validate_cpu_gpu_count
  leave_gpu_block cc = elim cc.in_gpu_method_count [
    | zero ↦ panic
    | suc n ↦ validate_cpu_gpu_count (record cc { in_gpu_method_count = n })
  ]

  unfoldable pub enter_cpu_block : CheckContext S E → CheckContext S E
  enter_cpu_block cc = record cc { in_cpu_method_count = suc cc.in_cpu_method_count }

  unfoldable pub leave_cpu_block : CheckContext S E → Outcome NoError (CheckContext S E)
  unfolding validate_cpu_gpu_count
  leave_cpu_block cc = elim cc.in_cpu_method_count [
    | zero ↦ panic
    | suc n ↦ validate_cpu_gpu_count (record cc { in_cpu_method_count = n })
  ]

  unfoldable pub note_cpu_required : CheckContext S E → Text → CheckContext S E
  note_cpu_required cc msg =
      if cc.in_cpu_method_count == 0
      then record cc {
        errors = errorf cc.errors (codes "CPU is required for this statement: " ++ msg);
      }
      else cc

  unfoldable pub note_gpu_required : CheckContext S E → Text → CheckContext S E
  note_gpu_required cc msg =
      if cc.in_gpu_method_count == 0
      then record cc {
        errors = errorf cc.errors (codes "GPU is required for this statement: " ++ msg);
      }
      else cc

  unfoldable pub current_return_type : CheckContext S E → Option Ty
  current_return_type cc = elim cc.return_types [ [] ↦ none | ty ∷ _ ↦ some ty ]

  unfoldable pub push_return_type : CheckContext S E → Ty → CheckContext S E
  push_return_type cc ty = record cc { return_types = ty ∷ cc.return_types }

  unfoldable pub pop_return_type : CheckContext S E → Outcome NoError (CheckContext S E)
  pop_return_type cc = elim cc.return_types [
    | [] ↦ panic
    | _ ∷ rest ↦ ok (record cc { return_types = rest })
  ]

  unfoldable pub insert_statement_before : CheckContext S E → S → Outcome NoError (CheckContext S E)
  insert_statement_before cc s = elim cc.insert_statements [
    | [] ↦ panic
    | block ∷ blocks ↦ ok (record cc { insert_statements = (block ++ (s ∷ [])) ∷ blocks })
  ]

  unfoldable pub insert_element_before : CheckContext S E → E → CheckContext S E
  insert_element_before cc tle = record cc { insert_elements = cc.insert_elements ++ (tle ∷ []) }

  unfoldable pub remove_this_statement : CheckContext S E → CheckContext S E
  remove_this_statement cc = record cc { remove_statement = true }

  unfoldable pub should_remove_statement : CheckContext S E → Bool × CheckContext S E
  should_remove_statement cc = (cc.remove_statement, record cc { remove_statement = false })

  unfoldable pub start_statement_collection_block : CheckContext S E → CheckContext S E
  start_statement_collection_block cc = record cc { insert_statements = [] ∷ cc.insert_statements }

  -- The nil that is returned for no statements is the empty list.
  unfoldable pub stop_statement_collection_block :
      CheckContext S E → Outcome NoError (List S × CheckContext S E)
  stop_statement_collection_block cc = elim cc.insert_statements [
    | [] ↦ panic
    | block ∷ blocks ↦ ok (block, record cc { insert_statements = blocks })
  ]

  unfoldable pub get_elements_for_insert : CheckContext S E → List E × CheckContext S E
  get_elements_for_insert cc = (cc.insert_elements, record cc { insert_elements = [] })

  unfoldable pub prepare_for_pass : CheckContext S E → Option ModuleId → CheckContext S E
  prepare_for_pass cc mod_id = record cc { structs = []; vectors = []; current_module = mod_id }
