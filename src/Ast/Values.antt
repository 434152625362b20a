-- ===== src/Ast/Values.antt =====
-- src/ast/types.go: RoughTypeName, EstimateCSize, DefaultValueExpression, writeCType and String, which
-- need the scopes and the nodes of expressions.
pub mod Defaults
use eyot.Prelude.{
  ℕ, zero, suc, ◌+◌, Bool, true, false, Option, none, some, List, [], ◌∷◌, ◌++◌, Text, codes, ◌==◌,
  if◌then◌else◌, Outcome, ok, err, panic, ◌>>=◌,
}
use eyot.Ast.Ids.{StructId, module_key, struct_key}
use eyot.Ast.Structs.{StructDefinition, StructField}
use eyot.Ast.Types.{
  Ty, Types, nil, cons, TypeSelector, FunctionLocation, selector, types, width, struct_id, Checked,
  out_of_fuel,
}
use eyot.Ast.Scope.{Scope, lookup_struct_definition}
use eyot.Ast.Syntax.{
  Expression, Pairs, no_pairs, pair, null_literal, boolean, character, integer, string, float,
  struct_literal,
}

unfoldable pub rough_type_name : TypeSelector → Text
rough_type_name TypeSelector.null = codes "null"
rough_type_name TypeSelector.integer = codes "integer"
rough_type_name TypeSelector.string = codes "string"
rough_type_name TypeSelector.boolean = codes "boolean"
rough_type_name TypeSelector.character = codes "character"
rough_type_name TypeSelector.float = codes "float"
rough_type_name TypeSelector.void = codes "void"
rough_type_name TypeSelector.function = codes "function"
rough_type_name TypeSelector.closure = codes "closure"
rough_type_name TypeSelector.struct = codes "struct"
rough_type_name TypeSelector.vector = codes "vector"
rough_type_name TypeSelector.worker = codes "worker"
rough_type_name TypeSelector.pointer = codes "pointer"
rough_type_name TypeSelector.tuple = codes "tuple"

module _ (size : Ty → Checked ℕ) where
  -- The sum over the types of a tuple
  unfoldable pub sum_sizes : Types → Checked ℕ
  sum_sizes nil = ok 0
  sum_sizes (cons t ts) = size t >>= λ n. sum_sizes ts >>= λ rest. ok (n + rest)

  -- The sum over the fields of a struct
  unfoldable pub sum_fields : List StructField → Checked ℕ
  sum_fields [] = ok 0
  sum_fields (f ∷ fs) = size f.type >>= λ n. sum_fields fs >>= λ rest. ok (n + rest)

  unfoldable pub struct_size : Option StructDefinition → Checked ℕ
  unfolding sum_fields
  struct_size none = panic
  struct_size (some sd) = sum_fields sd.fields

  -- The cases of `EstimateCSize`, over the sizes of the parts
  unfoldable pub size_of : Scope → TypeSelector → Ty → Checked ℕ
  unfolding sum_sizes struct_size
  size_of s TypeSelector.float ty = ok (if width ty == 64 then 8 else 4)
  size_of s TypeSelector.integer ty = ok 8
  size_of s TypeSelector.boolean ty = ok 8
  size_of s TypeSelector.character ty = ok 8
  size_of s TypeSelector.void ty = ok 0
  size_of s TypeSelector.tuple ty = sum_sizes (types ty)
  size_of s TypeSelector.struct ty = struct_size (lookup_struct_definition s (struct_id ty))
  size_of s TypeSelector.string ty = panic
  size_of s TypeSelector.null ty = panic
  size_of s TypeSelector.function ty = panic
  size_of s TypeSelector.closure ty = panic
  size_of s TypeSelector.pointer ty = panic
  size_of s TypeSelector.vector ty = panic
  size_of s TypeSelector.worker ty = panic

-- `EstimateCSize`, with fuel for structs that hold themselves
unfoldable pub estimate_c_size : ℕ → Scope → Ty → Checked ℕ
unfolding size_of
estimate_c_size zero s ty = err out_of_fuel
estimate_c_size (suc fuel) s ty = size_of (estimate_c_size fuel s) s (selector ty) ty

-- What `DefaultValueExpression` comes to: an expression, or none
abbrev pub Default : Type 0
Default = Checked (Option Expression)

module _ (default : Ty → Default) where
  -- The loop over the fields of a struct, which ends at a field without a default value
  unfoldable pub default_pairs : List StructField → Checked (Option Pairs)
  default_pairs [] = ok (some no_pairs)
  default_pairs (f ∷ fs) = default f.type >>= λ o. elim o [
    | none ↦ ok none
    | some dve ↦ default_pairs fs >>= λ o'. elim o' [
      | none ↦ ok none
      | some pairs ↦ ok (some (pair f.name dve pairs))
    ]
  ]

  unfoldable pub default_struct : StructId → Option StructDefinition → Default
  unfolding default_pairs
  default_struct sid none = ok none
  default_struct sid (some sd) = default_pairs sd.fields >>= λ o. elim o [
    | none ↦ ok none
    | some pairs ↦ ok (some (struct_literal sid pairs))
  ]

  -- The cases of `DefaultValueExpression`, over the values of the parts
  unfoldable pub default_of : Scope → TypeSelector → Ty → Default
  unfolding default_struct
  default_of s TypeSelector.integer ty = ok (some (integer 0))
  default_of s TypeSelector.string ty = ok (some (string []))
  default_of s TypeSelector.boolean ty = ok (some (boolean false))
  default_of s TypeSelector.character ty = ok (some (character 0))
  default_of s TypeSelector.float ty = ok (some (float 0 1 0 0))
  default_of s TypeSelector.pointer ty = ok (some null_literal)
  default_of s TypeSelector.null ty = ok (some null_literal)
  default_of s TypeSelector.struct ty =
      default_struct (struct_id ty) (lookup_struct_definition s (struct_id ty))
  default_of s TypeSelector.closure ty = ok none
  default_of s TypeSelector.function ty = ok none
  default_of s TypeSelector.worker ty = ok none
  default_of s TypeSelector.vector ty = ok none
  default_of s TypeSelector.void ty = panic
  default_of s TypeSelector.tuple ty = panic

-- `DefaultValueExpression`, with fuel for structs that hold themselves
unfoldable pub default_value_expression : ℕ → Scope → Ty → Default
unfolding default_of
default_value_expression zero s ty = err out_of_fuel
default_value_expression (suc fuel) s ty =
    default_of (default_value_expression fuel s) s (selector ty) ty
