-- ===== src/Ast/Check/Require.antt =====
-- src/ast/check.go: the types, structs and vectors that a module requires.
pub mod Once
use eyot.Prelude.{
  ℕ, zero, suc, ◌+◌, ◌≡◌, ◌≢◌, refl, sym, ap, ◌∙◌, Bool, true, false, not, ◌&&◌, Option, none, some,
  List, [], ◌∷◌, ◌++◌, All, Text, codes, text_eq, text_eq_iff, lookup, insert, lookup-insert, ◌==◌,
  arith, if◌then◌else◌, Outcome, ok, err, panic, ◌>>=◌, NoError, Post, returns, fails, panics,
  Post-bind, Post-any, Bool-cases, inl, inr,
}
use eyot.Errors.{Errors, errorf}
use eyot.Ast.Ids.{ModuleId, StructId, struct_key}
use eyot.Ast.Types.{
  Ty, Types, nil, cons, TypeSelector, selector, types, width, struct_id, make_void,
}
use eyot.Ast.Types.Names.{tuple_identifier, raw_identifier, vector_add_name}
use eyot.Ast.Structs.{StructDefinition, StructField}
use eyot.Ast.Scope.{Scope, add_c_function, lookup_struct_definition}
use eyot.Ast.Check.Context.{CheckContext, CheckPass, RequiredStruct, note_cpu_required}

abbrev pub is_set_types : CheckPass → Bool
is_set_types CheckPass.set_types = true
is_set_types _ = false

abbrev pub is_aggregate : TypeSelector → Bool
is_aggregate TypeSelector.tuple = true
is_aggregate TypeSelector.struct = true
is_aggregate _ = false

abbrev pub is_tuple : TypeSelector → Bool
is_tuple TypeSelector.tuple = true
is_tuple _ = false

abbrev pub is_wide_float : TypeSelector → ℕ → Bool
is_wide_float TypeSelector.float width = not (width == 32)
is_wide_float _ width = false

-- The search of `RequireType` over the structs that are required already
unfoldable pub is_required : Text → List RequiredStruct → Bool
is_required tyid [] = false
is_required tyid (rs ∷ structs) = if text_eq rs.type_id tyid then true else is_required tyid structs

abbrev pub named_struct : Text → Ty → StructDefinition → RequiredStruct
named_struct tyid ty sd = record {
  generated_for_tuple = false;
  type_id = tyid;
  id = struct_id ty;
  definition = sd;
}

-- `format_nat` is the `%v` of package fmt for an index.
module _ (format_nat : ℕ → Text) where
  unfoldable pub tuple_field_name : ℕ → Text
  tuple_field_name i = codes "f" ++ format_nat i

  -- The loop over the types of a tuple, from an index
  unfoldable pub tuple_fields : ℕ → Types → List StructField
  unfolding tuple_field_name
  tuple_fields i nil = []
  tuple_fields i (cons ty tys) =
      record { name = tuple_field_name i; type = ty } ∷ tuple_fields (suc i) tys

  -- The struct behind a tuple, in the current module
  unfoldable pub tuple_struct : Text → ModuleId → Ty → RequiredStruct
  unfolding tuple_fields
  tuple_struct tyid mid ty = record {
    generated_for_tuple = true;
    type_id = tyid;
    id = record { module_id = mid; name = tyid };
    definition = record { fields = tuple_fields 0 (types ty); functions = [] };
  }

module _ {S E : Type 0} where
  unfoldable pub module_id_of : CheckContext S E → Outcome NoError ModuleId
  module_id_of cc = elim cc.current_module [ some mid ↦ ok mid | none ↦ panic ]

  abbrev pub require_struct : CheckContext S E → RequiredStruct → CheckContext S E
  require_struct cc rs = record cc { structs = cc.structs ++ (rs ∷ []) }

  abbrev pub note_missing : CheckContext S E → Ty → CheckContext S E
  note_missing cc ty = record cc {
    errors = errorf cc.errors (
        codes "Failed to find struct definition for '" ++ (struct_key (struct_id ty) ++ codes "'"));
  }

  -- A struct that is not found is an error, and is required without fields.
  unfoldable pub require_named :
      CheckContext S E → Text → Ty → Option StructDefinition → CheckContext S E
  require_named cc tyid ty (some sd) = require_struct cc (named_struct tyid ty sd)
  require_named cc tyid ty none =
      require_struct (note_missing cc ty)
        (named_struct tyid ty (record { fields = []; functions = [] }))

  abbrev pub note_wide_float : CheckContext S E → Ty → CheckContext S E
  note_wide_float cc ty =
      if is_wide_float (selector ty) (width ty)
      then note_cpu_required cc (codes "64 bit float")
      else cc

  -- The `vector_add_` function is put into the scope with the vector's first use.
  abbrev pub require_new_vector :
      CheckContext S E → Text → Ty → Scope → Outcome NoError (CheckContext S E × Scope)
  require_new_vector cc id ty scope = vector_add_name ty >>= λ name.
      add_c_function scope name make_void (cons ty nil) >>= λ scope'.
      ok (record cc { vectors = insert id ty cc.vectors }, scope')

  unfoldable pub require_unless_known :
      CheckContext S E → Text → Ty → Scope → Option Ty → Outcome NoError (CheckContext S E × Scope)
  require_unless_known cc id ty scope (some _) = ok (cc, scope)
  require_unless_known cc id ty scope none = require_new_vector cc id ty scope

  unfoldable pub require_vector :
      CheckContext S E → Ty → Scope → Outcome NoError (CheckContext S E × Scope)
  unfolding require_unless_known
  require_vector cc ty scope =
      raw_identifier ty >>= λ id. require_unless_known cc id ty scope (lookup id cc.vectors)

module _ {S E : Type 0} (format_nat : ℕ → Text) where
  unfoldable pub require_aggregate :
      CheckContext S E → Text → Ty → Scope → Outcome NoError (CheckContext S E)
  unfolding is_required module_id_of require_named tuple_struct
  require_aggregate cc tyid ty scope =
      if is_required tyid cc.structs
      then ok cc
      else if is_tuple (selector ty)
      then (module_id_of cc >>= λ mid. ok (require_struct cc (tuple_struct format_nat tyid mid ty)))
      else ok (require_named cc tyid ty (lookup_struct_definition scope (struct_id ty)))

  unfoldable pub require_type : CheckContext S E → Ty → Scope → Outcome NoError (CheckContext S E)
  unfolding require_aggregate
  require_type cc ty scope =
      if is_set_types cc.pass
      then if is_aggregate (selector ty)
        then (tuple_identifier ty >>= λ tyid.
            require_aggregate (note_wide_float cc ty) tyid ty scope)
        else ok (note_wide_float cc ty)
      else panic
