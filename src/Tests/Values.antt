-- ===== src/Tests/Values.antt =====
-- The default values of src/ast/types.go at concrete types.
use eyot.Prelude.{ℕ, some, [], ◌∷◌, codes, ◌↔◌, ◌≡◌, ok, refl, lookup, insert, text_eq}
use eyot.Ast.Ids.{StructId, struct_key}
use eyot.Ast.Structs.{struct_type}
use eyot.Ast.Types.{TypeSelector, plain, nil, make_pointer}
use eyot.Ast.Scope.{Scope, empty_frame, set_struct, lookup_struct_definition}
use eyot.Ast.Syntax.{Expression, struct_literal, pair, no_pairs, integer, null_literal}
use eyot.Ast.Values.{default_value_expression, default_of, default_struct, default_pairs}
use eyot.Ast.Values.Defaults.{IsZero, default_value_expression-IsZero}

abbrev list_id : StructId
list_id = record { module_id = codes "m" ∷ []; name = codes "List" }

-- `struct List { head i64; tail *List }`
abbrev list_scope : Scope
list_scope = set_struct (empty_frame ∷ []) list_id (record {
  fields =
      record { name = codes "head"; type = plain TypeSelector.integer nil }
      ∷ record { name = codes "tail"; type = make_pointer (struct_type list_id) }
      ∷ [];
  functions = [];
})

abbrev empty_list : Expression
empty_list =
    struct_literal list_id
      (pair (codes "head") (integer 0) (pair (codes "tail") null_literal no_pairs))

default_value_expression-IsZero_example : IsZero list_scope (struct_type list_id) empty_list ↔ (
    (fuel : ℕ) × (default_value_expression fuel list_scope (struct_type list_id)
      ≡ ok (some empty_list)))
default_value_expression-IsZero_example =
    default_value_expression-IsZero list_scope (struct_type list_id) empty_list

-- The default is there.
empty_list_default :
    default_value_expression 2 list_scope (struct_type list_id) ≡ ok (some empty_list)
unfolding default_value_expression default_of default_struct default_pairs lookup_struct_definition
    set_struct struct_key lookup insert text_eq
empty_list_default = refl
