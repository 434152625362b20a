-- ===== src/Output/Namespacing.antt =====
-- src/output/cwriter/namespacing.go: the C names of the program's structs and functions.
pub mod Collisions
use eyot.Prelude.{
  ◌≡◌, refl, sym, ap, ◌∙◌, Bool, true, false, List, [], ◌∷◌, ◌++◌, append_assoc, Text, codes,
  if◌then◌else◌, Outcome, ok, ◌>>=◌, NoError,
}
use eyot.Ast.Ids.{
  ModuleId, StructId, FunctionId, replace_all, struct_blank, is_builtin, module_namespace,
}

unfoldable pub escape_module_cpt : Text → Text
unfolding replace_all
escape_module_cpt = replace_all b'-' b'_'

-- The loop of `namespaceStructId`: an underscore before every component but the first
unfoldable pub escaped_components : Bool → ModuleId → Text
unfolding escape_module_cpt
escaped_components is_first [] = []
escaped_components is_first (cpt ∷ cpts) =
    let rest = escaped_components false cpts in
    if is_first then escape_module_cpt cpt ++ rest else b'_' ∷ escape_module_cpt cpt ++ rest

unfoldable pub namespace_struct_id : StructId → Text
unfolding escaped_components
namespace_struct_id sid = escaped_components true sid.module_id ++ (codes "__" ++ sid.name)

unfoldable pub namespace_function_core : FunctionId → Outcome NoError Text
unfolding namespace_struct_id
namespace_function_core fid =
    if struct_blank fid.struct_id
    then if is_builtin fid.module_id
      then ok fid.name
      else (module_namespace fid.module_id >>= λ ns. ok (ns ++ (codes "___unbound___" ++ fid.name)))
    else ok (namespace_struct_id fid.struct_id ++ (codes "___bound___" ++ fid.name))

unfoldable pub prefixed : Text → FunctionId → Outcome NoError Text
unfolding namespace_function_core
prefixed prefix fid = namespace_function_core fid >>= λ core. ok (prefix ++ core)

unfoldable pub namespace_function_id : FunctionId → Outcome NoError Text
unfolding prefixed
namespace_function_id = prefixed (codes "ey_function_")

unfoldable pub namespace_function_caller_id : FunctionId → Outcome NoError Text
unfolding prefixed
namespace_function_caller_id = prefixed (codes "ey_function_caller_")

unfoldable pub namespace_function_enum_id : FunctionId → Outcome NoError Text
unfolding prefixed
namespace_function_enum_id = prefixed (codes "k_ey_function_")

unfoldable pub namespace_struct : StructId → Text
unfolding namespace_struct_id
namespace_struct sid =
    if is_builtin sid.module_id then sid.name else codes "ey_struct_" ++ namespace_struct_id sid
