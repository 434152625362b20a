-- ===== src/Ast/Ids/Laws.antt =====
-- `IsEqual` of the identifiers of src/ast/ids.go and src/ast/functions.go.
use eyot.Prelude.{◌≡◌, ◌↔◌, true, ◌∷◌, text_eq_iff, arith}
use eyot.Ast.Ids.{
  ModuleId, module_is_equal, StructId, struct_is_equal, FunctionId, function_is_equal,
}

pub module_is_equal_iff : (a b : ModuleId) → (module_is_equal a b ≡ true) ↔ (a ≡ b)
unfolding module_is_equal
module_is_equal_iff (x ∷ a) (y ∷ b) = ground (arith, text_eq_iff x y, module_is_equal_iff a b)
module_is_equal_iff _ _ = ground arith

pub struct_is_equal_iff : (a b : StructId) → (struct_is_equal a b ≡ true) ↔ (a ≡ b)
unfolding struct_is_equal
struct_is_equal_iff a b =
    ground (arith, text_eq_iff a.name b.name, module_is_equal_iff a.module_id b.module_id)

-- `FunctionId.IsEqual` decides equality of the identifiers.
pub function_is_equal_iff : (a b : FunctionId) → (function_is_equal a b ≡ true) ↔ (a ≡ b)
unfolding function_is_equal
function_is_equal_iff a b = ground (
  arith,
  text_eq_iff a.name b.name,
  struct_is_equal_iff a.struct_id b.struct_id,
  module_is_equal_iff a.module_id b.module_id,
)
