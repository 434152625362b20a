-- ===== src/Ast/Scope.antt =====
-- src/ast/scope.go: nested scopes of variables, modules and structs.
pub mod Variables
pub mod Gpu
use eyot.Prelude.{
  ℕ, zero, suc, ◌+◌, Bool, true, false, ◌&&◌, Option, none, some, List, [], ◌∷◌, Text, lookup,
  insert, ◌==◌, if◌then◌else◌, Outcome, ok, err, panic, ◌>>=◌, NoError,
}
use eyot.Ast.Ids.{ModuleId, StructId, struct_key, blank_struct_id}
use eyot.Ast.Structs.{StructDefinition, StructField}
use eyot.Ast.Types.{
  Ty, type_of, Types, nil, cons, TypeSelector, FunctionLocation, selector, types, width, struct_id,
  location, plain, make_void, is_callable, Checked, OutOfFuel, out_of_fuel, Pointee, points_to,
}

pub record VariableBinding : Type 0 where
  pub variable_type : Ty
  pub assignable : Bool

-- One level. Modules stand for their identifiers.
pub record Frame : Type 0 where
  pub variable_bindings : List (Text × VariableBinding)
  pub module_bindings : List (Text × ModuleId)
  pub struct_bindings : List (Text × StructDefinition)

-- A level and its parents; the source's nil parent is the empty list.
abbrev pub Scope : Type 0
Scope = List Frame

abbrev pub empty_frame : Frame
empty_frame = record { variable_bindings = []; module_bindings = []; struct_bindings = [] }

abbrev pub new_scope : Scope → Scope
new_scope parent = empty_frame ∷ parent

-- A map of some level, or of the levels above it.
unfoldable pub lookup_up : {V : Type 0} → (Frame → List (Text × V)) → Scope → Text → Option V
lookup_up bindings [] key = none
lookup_up bindings (f ∷ parent) key = elim (lookup key (bindings f)) [
  | some v ↦ some v
  | none ↦ lookup_up bindings parent key
]

unfoldable pub lookup_module : Scope → Text → Option ModuleId
unfolding lookup_up
lookup_module = lookup_up (λ f. f.module_bindings)

unfoldable pub lookup_variable_type : Scope → Text → Option VariableBinding
unfolding lookup_up
lookup_variable_type = lookup_up (λ f. f.variable_bindings)

unfoldable pub lookup_struct_definition : Scope → StructId → Option StructDefinition
unfolding lookup_up
lookup_struct_definition s ident = lookup_up (λ f. f.struct_bindings) s (struct_key ident)

unfoldable pub cannot_be_defined_at_this_level : Scope → Text → Bool
cannot_be_defined_at_this_level [] ident = false
cannot_be_defined_at_this_level (f ∷ _) ident = elim (lookup ident f.variable_bindings) [
  | some _ ↦ true
  | none ↦ false
]

abbrev pub set_location : FunctionLocation → Ty → Ty
set_location l (type_of s ts sid r b n _ w) = type_of s ts sid r b n l w

-- The new binding of a callable: over an old one for the other processor the old type stays, and
-- runs anywhere.
unfoldable pub rebind : Option VariableBinding → Ty → Bool → Outcome NoError VariableBinding
rebind none ty assignable = ok (record { variable_type = ty; assignable = assignable })
rebind (some old) ty assignable =
    let fresh : VariableBinding = record { variable_type = ty; assignable = assignable } in
    let shared = record old {
      variable_type = set_location FunctionLocation.anywhere old.variable_type;
    } in
    if is_callable old.variable_type
    then elim (location old.variable_type) [
      | FunctionLocation.cpu ↦ elim (location ty) [
        | FunctionLocation.gpu ↦ ok shared
        | _ ↦ ok fresh
      ]
      | FunctionLocation.gpu ↦ elim (location ty) [
        | FunctionLocation.cpu ↦ ok shared
        | _ ↦ ok fresh
      ]
      | FunctionLocation.anywhere ↦ ok fresh
    ]
    else panic

-- What `SetVariable` puts under the name.
unfoldable pub new_binding : Option VariableBinding → Ty → Bool → Outcome NoError VariableBinding
unfolding rebind
new_binding old ty assignable =
    if is_callable ty
    then rebind old ty assignable
    else ok (record { variable_type = ty; assignable = assignable })

-- `SetVariable`, on the innermost level
unfoldable pub set_variable : Scope → Text → Ty → Bool → Outcome NoError Scope
unfolding new_binding
set_variable [] ident ty assignable = panic
set_variable (f ∷ parent) ident ty assignable =
    new_binding (lookup ident f.variable_bindings) ty assignable >>= λ b.
    ok (record f { variable_bindings = insert ident b f.variable_bindings } ∷ parent)

unfoldable pub set_module : Scope → Text → ModuleId → Scope
set_module [] ident mod_id = []
set_module (f ∷ parent) ident mod_id =
    record f { module_bindings = insert ident mod_id f.module_bindings } ∷ parent

unfoldable pub set_struct : Scope → StructId → StructDefinition → Scope
set_struct [] id sd = []
set_struct (f ∷ parent) id sd =
    record f { struct_bindings = insert (struct_key id) sd f.struct_bindings } ∷ parent

-- `AddCFunction` of a runtime function
unfoldable pub add_c_function : Scope → Text → Ty → Types → Outcome NoError Scope
unfolding set_variable
add_c_function s name return_type argument_types =
    set_variable s name
      (type_of TypeSelector.function argument_types blank_struct_id (points_to return_type) true []
        FunctionLocation.cpu 0)
      false

-- `CanPassToGpu`: the answer, and the type that cannot be passed. A struct may hold itself, so the
-- depth of the calls is bounded by fuel.
abbrev pub Passes : Type 0
Passes = Checked (Bool × Ty)

abbrev pub blank_type : Ty
blank_type = plain TypeSelector.integer nil

-- The loops over the types of a tuple and over the fields of a struct
unfoldable pub all_pass : (Ty → Passes) → Types → Passes
all_pass pass nil = ok (true, blank_type)
all_pass pass (cons t ts) =
    pass t >>= λ (good, ty). if good then all_pass pass ts else ok (false, ty)

abbrev pub field_types : List StructField → Types
field_types [] = nil
field_types (f ∷ fs) = cons f.type (field_types fs)

unfoldable pub pass_struct : (Ty → Passes) → Option StructDefinition → Passes
unfolding all_pass
pass_struct pass none = panic
pass_struct pass (some sd) = all_pass pass (field_types sd.fields)

unfoldable pub pass_of : (Ty → Passes) → Scope → TypeSelector → Ty → Passes
unfolding pass_struct
pass_of pass s TypeSelector.tuple ty = all_pass pass (types ty)
pass_of pass s TypeSelector.struct ty = pass_struct pass (lookup_struct_definition s (struct_id ty))
pass_of pass s TypeSelector.float ty = ok (width ty == 32, ty)
pass_of pass s TypeSelector.integer ty = ok (true, blank_type)
pass_of pass s TypeSelector.string ty = ok (true, blank_type)
pass_of pass s TypeSelector.boolean ty = ok (true, blank_type)
pass_of pass s TypeSelector.void ty = ok (true, blank_type)
pass_of pass s TypeSelector.closure ty = ok (false, ty)
pass_of pass s TypeSelector.function ty = ok (false, ty)
pass_of pass s TypeSelector.pointer ty = ok (false, ty)
pass_of pass s TypeSelector.vector ty = ok (false, ty)
pass_of pass s TypeSelector.worker ty = ok (false, ty)
pass_of pass s TypeSelector.null ty = panic
pass_of pass s TypeSelector.character ty = panic

unfoldable pub can_pass_to_gpu : ℕ → Scope → Ty → Passes
unfolding pass_of
can_pass_to_gpu zero s ty = err out_of_fuel
can_pass_to_gpu (suc fuel) s ty = pass_of (can_pass_to_gpu fuel s) s (selector ty) ty
