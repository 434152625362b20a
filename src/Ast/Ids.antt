-- ===== src/Ast/Ids.antt =====
-- src/ast/ids.go and src/ast/functions.go: the identifiers of modules, structs and functions.
pub mod Laws
use eyot.Prelude.{
  ℕ, Bool, true, false, not, ◌&&◌, List, [], ◌∷◌, ◌++◌, map, codes, text_eq, Text, ◌==◌,
  if◌then◌else◌, Outcome, ok, panic, NoError,
}

abbrev pub ModuleId : Type 0
ModuleId = List Text

-- `strings.Join`
unfoldable pub join : Text → List Text → Text
join sep [] = []
join sep (x ∷ []) = x
join sep (x ∷ y ∷ xs) = x ++ (sep ++ join sep (y ∷ xs))

-- `strings.ReplaceAll` of one rune by another
unfoldable pub replace_all : ℕ → ℕ → Text → Text
replace_all from to [] = []
replace_all from to (r ∷ rs) = (if r == from then to else r) ∷ replace_all from to rs

unfoldable pub module_key : ModuleId → Text
unfolding join
module_key mid = join (codes "::") mid

unfoldable pub module_blank : ModuleId → Bool
module_blank [] = true
module_blank (_ ∷ _) = false

unfoldable pub module_namespace : ModuleId → Outcome NoError Text
unfolding replace_all join
module_namespace [] = panic
module_namespace (c ∷ cs) = ok (replace_all b'-' b'_' (join (codes "__") (c ∷ cs)))

abbrev pub builtin_module_id : ModuleId
builtin_module_id = codes "______builtin______" ∷ []

unfoldable pub is_builtin : ModuleId → Bool
is_builtin (c ∷ []) = text_eq c (codes "______builtin______")
is_builtin _ = false

-- The lengths are compared as the components are.
unfoldable pub module_is_equal : ModuleId → ModuleId → Bool
module_is_equal [] [] = true
module_is_equal (l ∷ ls) (r ∷ rs) = text_eq l r && module_is_equal ls rs
module_is_equal _ _ = false

pub record StructId : Type 0 where
  pub module_id : ModuleId
  pub name : Text

abbrev pub blank_struct_id : StructId
blank_struct_id = record { module_id = []; name = [] }

unfoldable pub struct_blank : StructId → Bool
struct_blank si = text_eq si.name []

-- `String`, which `Key` returns
unfoldable pub struct_key : StructId → Text
unfolding module_key
struct_key si =
    codes "StructId(" ++ (module_key si.module_id ++ (codes "::" ++ (si.name ++ codes ")")))

unfoldable pub struct_is_equal : StructId → StructId → Bool
unfolding module_is_equal
struct_is_equal si rhs =
    if not (text_eq si.name rhs.name)
    then false
    else if not (module_is_equal si.module_id rhs.module_id)
    then false
    else true

pub record FunctionId : Type 0 where
  pub module_id : ModuleId
  pub struct_id : StructId
  pub name : Text

unfoldable pub function_is_equal : FunctionId → FunctionId → Bool
unfolding struct_is_equal
function_is_equal lhs rhs =
    if not (text_eq lhs.name rhs.name)
    then false
    else if not (struct_is_equal lhs.struct_id rhs.struct_id)
    then false
    else if not (module_is_equal lhs.module_id rhs.module_id)
    then false
    else true
