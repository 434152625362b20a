-- ===== src/Tests/Functions.antt =====
-- Groups of functions and scopes of src/ast at concrete values.
use eyot.Prelude.{
  panic, ◌≢◌, ◌⊎◌, false, ◌≡◌, refl, true, some, [], ◌∷◌, codes, text_eq, lookup, insert, ok, err,
  Post, if◌then◌else◌,
}
use eyot.Ast.Ids.{FunctionId, function_is_equal, blank_struct_id}
use eyot.Ast.Types.{
  Ty, type_of, points_to, nil, TypeSelector, FunctionLocation, FunctionSignature, plain, make_void,
}
use eyot.Ast.Types.Names.{write_id, namespaced_identifier}
use eyot.Ast.Functions.{
  FunctionGroup, signature_is_equal, inconsistent_signature, map_key, find_signature, add,
  function_entries,
}
use eyot.Ast.Functions.Group.{Added, add-Added, add-add}
use eyot.Ast.Functions.Entries.{IsNumbered, function_entries-IsNumbered}
use eyot.Ast.Scope.{VariableBinding, Scope, Frame, empty_frame, lookup_variable_type, set_variable}
use eyot.Ast.Scope.Variables.{Binds, Clashes, set_variable-lookup}

abbrev run_id : FunctionId
run_id = record { module_id = codes "m" ∷ []; struct_id = blank_struct_id; name = codes "run" }

abbrev void_signature : FunctionSignature
void_signature = record { location = FunctionLocation.cpu; return_type = make_void; types = nil }

abbrev integer_signature : FunctionSignature
integer_signature = record {
  location = FunctionLocation.cpu;
  return_type = plain TypeSelector.integer nil;
  types = nil;
}

-- One function, for the CPU
abbrev one_function : FunctionGroup
one_function =
    (
      codes "v__",
      record {
        signature = void_signature;
        all_ids = record { at_cpu = run_id ∷ []; at_gpu = []; at_anywhere = [] };
      },
    )
    ∷ []

add-Added_example :
    Post (Added run_id void_signature) (add one_function run_id void_signature FunctionLocation.gpu)
unfolding map_key namespaced_identifier write_id text_eq
add-Added_example = add-Added one_function run_id void_signature FunctionLocation.gpu (refl, tt)

-- The function for the CPU and the GPU
abbrev both_locations : FunctionGroup
both_locations =
    (
      codes "v__",
      record {
        signature = void_signature;
        all_ids = record { at_cpu = run_id ∷ []; at_gpu = run_id ∷ []; at_anywhere = [] };
      },
    )
    ∷ []

add-add_example :
    (codes "v__" ≡ codes "i__"
      → (fg : FunctionGroup) × (add both_locations run_id integer_signature FunctionLocation.cpu
          ≡ ok fg))
    × (codes "v__" ≢ codes "i__"
        → (sig : FunctionSignature) × (map_key sig ≡ ok (codes "v__"))
          × (add both_locations run_id integer_signature FunctionLocation.cpu
              ≡ err (inconsistent_signature sig)))
unfolding add find_signature map_key function_is_equal namespaced_identifier write_id text_eq
    signature_is_equal insert lookup
add-add_example =
    add-add one_function both_locations run_id void_signature integer_signature FunctionLocation.gpu
      FunctionLocation.cpu (codes "v__") (codes "i__") (refl, tt) refl refl refl

function_entries-IsNumbered_example : IsNumbered 0 (function_entries one_function)
function_entries-IsNumbered_example = function_entries-IsNumbered one_function

abbrev callable : FunctionLocation → Ty
callable l = type_of TypeSelector.function nil blank_struct_id (points_to make_void) false [] l 0

-- A name with a function for the CPU
abbrev cpu_frame : Frame
cpu_frame = record empty_frame {
  variable_bindings =
      (codes "x", record { variable_type = callable FunctionLocation.cpu; assignable = false })
      ∷ [];
}

set_variable-lookup_example :
    ((set_variable (cpu_frame ∷ []) (codes "x") (callable FunctionLocation.gpu) true ≡ panic)
      × Clashes (callable FunctionLocation.gpu) (lookup (codes "x") cpu_frame.variable_bindings))
    ⊎ ((s : Scope) × (b : VariableBinding) × (set_variable
            (cpu_frame ∷ [])
            (codes "x")
            (callable FunctionLocation.gpu)
            true
          ≡ ok s)
        × Binds
            (callable FunctionLocation.gpu)
            true
            (lookup (codes "x") cpu_frame.variable_bindings)
            b
        × (lookup_variable_type s (codes "x") ≡ (
            if text_eq (codes "x") (codes "x")
            then some b
            else lookup_variable_type (cpu_frame ∷ []) (codes "x"))))
set_variable-lookup_example =
    set_variable-lookup cpu_frame [] (codes "x") (codes "x") (callable FunctionLocation.gpu) true
