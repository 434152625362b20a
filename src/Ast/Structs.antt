-- ===== src/Ast/Structs.antt =====
-- src/ast/structs.go, src/ast/module.go and the definition of a function in src/ast/functions.go:
-- what a struct and a module hold, and how their members are looked up.
use eyot.Prelude.{
  Bool, false, Option, none, some, List, [], ◌∷◌, codes, text_eq, Text, if◌then◌else◌,
}
use eyot.Ast.Ids.{FunctionId, StructId, struct_blank, blank_struct_id}
use eyot.Ast.Types.{
  Ty, type_of, Types, nil, cons, TypeSelector, FunctionLocation, FunctionSignature, Pointee,
  points_to, make_pointer,
}

pub record FunctionParameter : Type 0 where
  pub name : Text
  pub type : Ty

-- `FunctionDefinition` without its block and its scope
pub record FunctionDefinition : Type 0 where
  pub id : FunctionId
  pub return_type : Ty
  pub avoid_check_phase : Bool
  pub location : FunctionLocation
  pub exported : Bool
  pub parameters : List FunctionParameter

abbrev pub parameter_types : List FunctionParameter → Types
parameter_types [] = nil
parameter_types (p ∷ ps) = cons p.type (parameter_types ps)

abbrev pub struct_type : StructId → Ty
struct_type sid =
    type_of TypeSelector.struct nil sid Pointee.nothing false [] FunctionLocation.cpu 0

-- `FunctionDefinition.Signature`: a method takes a pointer to its struct first.
unfoldable pub definition_signature : FunctionDefinition → FunctionSignature
definition_signature fd = record {
  location = fd.location;
  return_type = fd.return_type;
  types =
      if struct_blank fd.id.struct_id
      then parameter_types fd.parameters
      else cons (make_pointer (struct_type fd.id.struct_id)) (parameter_types fd.parameters);
}

-- `OurType`
unfoldable pub our_type : FunctionDefinition → Ty
our_type fd =
    type_of TypeSelector.function (parameter_types fd.parameters) blank_struct_id
      (points_to fd.return_type) false [] fd.location 0

unfoldable pub effective_parameters :
    FunctionDefinition → FunctionParameter → List FunctionParameter
effective_parameters fd execution_context_parameter =
    execution_context_parameter
    ∷ (if struct_blank fd.id.struct_id
        then fd.parameters
        else record { name = codes "ey_self"; type = make_pointer (struct_type fd.id.struct_id) }
          ∷ fd.parameters)

pub record StructField : Type 0 where
  pub name : Text
  pub type : Ty

-- `StructDefinition` without its scope
pub record StructDefinition : Type 0 where
  pub fields : List StructField
  pub functions : List FunctionDefinition

unfoldable pub find_field : Text → List StructField → Option StructField
find_field name [] = none
find_field name (f ∷ fs) = if text_eq f.name name then some f else find_field name fs

-- The type of a method as a field: bound to the struct, by the method's name.
abbrev pub method_field : Text → FunctionDefinition → StructField
method_field name fn = record {
  name = name;
  type =
      type_of TypeSelector.function (parameter_types fn.parameters) blank_struct_id
        (points_to fn.return_type) false name fn.location 0;
}

unfoldable pub find_method : Text → List FunctionDefinition → Option StructField
find_method name [] = none
find_method name (fn ∷ fns) =
    if text_eq fn.id.name name then some (method_field name fn) else find_method name fns

unfoldable pub get_field : StructDefinition → Text → Option StructField
unfolding find_field find_method
get_field sd name = elim (find_field name sd.fields) [
  | some f ↦ some f
  | none ↦ find_method name sd.functions
]

-- The elements of a module that its look-ups tell apart; a struct has its identifier and whether it
-- is exported.
pub data TopLevelElement : Type 0 where
  function_definition : FunctionDefinition → TopLevelElement
  struct_definition : StructId → Bool → TopLevelElement
  other_element : TopLevelElement

-- `FunctionDefinitionTle` elements with the name, in order
unfoldable pub functions_named : Text → List TopLevelElement → List FunctionDefinition
functions_named name [] = []
functions_named name (TopLevelElement.function_definition fd ∷ els) =
    if text_eq fd.id.name name then fd ∷ functions_named name els else functions_named name els
functions_named name (TopLevelElement.struct_definition _ _ ∷ els) = functions_named name els
functions_named name (TopLevelElement.other_element ∷ els) = functions_named name els

-- One function for the CPU and one for the GPU, in either order, are one that runs anywhere.
unfoldable pub join_locations : FunctionLocation → FunctionLocation → FunctionLocation
join_locations FunctionLocation.cpu FunctionLocation.gpu = FunctionLocation.anywhere
join_locations FunctionLocation.gpu FunctionLocation.cpu = FunctionLocation.anywhere
join_locations l _ = l

-- `Module.LookupFunction`: the loop ends at the second function of the name.
unfoldable pub lookup_function : List TopLevelElement → Text → Option FunctionDefinition
unfolding functions_named join_locations
lookup_function els name = elim (functions_named name els) [
  | [] ↦ none
  | def ∷ rest ↦ elim rest [
    | [] ↦ some def
    | this_def ∷ _ ↦ some (record def { location = join_locations def.location this_def.location })
  ]
]

-- `Module.LookupStruct`: whether the struct is exported
unfoldable pub lookup_struct : List TopLevelElement → Text → Option Bool
lookup_struct [] name = none
lookup_struct (TopLevelElement.struct_definition sid exported ∷ els) name =
    if text_eq sid.name name then some exported else lookup_struct els name
lookup_struct (TopLevelElement.function_definition _ ∷ els) name = lookup_struct els name
lookup_struct (TopLevelElement.other_element ∷ els) name = lookup_struct els name
