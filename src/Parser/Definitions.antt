-- ===== src/Parser/Definitions.antt =====
-- src/parser/parser.go: parameters, functions, structs and constants.
use eyot.Prelude.{
  ℕ, zero, suc, Bool, true, false, Option, none, some, List, [], ◌∷◌, ◌++◌, map, Text, codes,
  Outcome, ok, err, panic, NoError,
}
use eyot.Token.Kinds.{TokenType}
use eyot.Ast.Ids.{StructId, blank_struct_id}
use eyot.Ast.Scope.{Scope, set_variable}
use eyot.Ast.Structs.{FunctionParameter, StructField, struct_type}
use eyot.Ast.Syntax.{FunctionSyntax, StructSyntax, Element, AssignType}
use eyot.Ast.Types.{Ty, FunctionLocation, make_void, make_pointer}
use eyot.Parser.State.{
  Parse, Find, ◌>>=◌, ◌>>◌, pure, reads, stops, expect, when_found, not_found, found, token,
  fail_with, save, accept, reject, log_error, start_scope, end_scope, done, crash,
}
use eyot.Parser.Calls.{Calls, with_rounds, eat_semicolons}
use eyot.Parser.Statements.{let_like_statement}

-- `SetVariable` on the scope of the parser
abbrev pub with_scope : Outcome NoError Scope → Parse (Unit {0})
with_scope (ok s) p = done tt (record p { scope = s })
with_scope (err e) p = elim e [ ]
with_scope panic p = crash p

unfoldable pub set_parser_variable : Text → Ty → Bool → Parse (Unit {0})
set_parser_variable name ty assignable p = with_scope (set_variable p.scope name ty assignable) p

-- `defer p.EndScope()` behind `p.StartScope()`
abbrev pub in_scope : {A : Type 0} → Parse A → Parse A
in_scope m = start_scope >> (m >>= λ a. end_scope >> pure a)

unfoldable pub set_parameters : List FunctionParameter → Parse (Unit {0})
unfolding set_parser_variable
set_parameters [] = pure tt
set_parameters (fp ∷ fps) = set_parser_variable fp.name fp.type true >> set_parameters fps

abbrev pub typed : Ty → Text → FunctionParameter
typed ty name = record { name = name; type = ty }

-- The loop over names and commas
unfoldable pub parameter_names : ℕ → List Text → Find (List Text)
parameter_names zero names = stops
parameter_names (suc fuel) names = expect (token TokenType.comma) (found names) λ _.
    expect (token TokenType.identifier)
      (fail_with (codes "Expecting identifier after command in parameter list"))
      λ name. parameter_names fuel (names ++ name.tval ∷ [])

abbrev pub field_of : FunctionParameter → StructField
field_of fp = record { name = fp.name; type = fp.type }

-- The location that a keyword before `fn` gives
unfoldable pub location_keyword : Parse FunctionLocation
location_keyword =
    when_found (token TokenType.cpu) (λ _. pure FunctionLocation.cpu)
      (when_found (token TokenType.gpu) (λ _. pure FunctionLocation.gpu)
        (pure FunctionLocation.anywhere))

abbrev pub is_some : {A : Type 0} → Option A → Bool
is_some none = false
is_some (some _) = true

module _ (c : Calls) where
  unfoldable pub parameter_list_segment : Find (List FunctionParameter)
  unfolding parameter_names
  parameter_list_segment = expect (token TokenType.identifier) (found []) λ leading.
      expect (with_rounds λ fuel. parameter_names fuel (leading.tval ∷ [])) not_found λ names.
        expect c.type (fail_with (codes "Expecting type after parameters in parameter list"))
          λ ty. found (map (typed ty) names)

  unfoldable pub more_parameters : ℕ → List FunctionParameter → Find (List FunctionParameter)
  unfolding parameter_list_segment
  more_parameters zero ps = stops
  more_parameters (suc fuel) ps = expect (token TokenType.comma) (found ps) λ _.
      expect parameter_list_segment
        (fail_with (codes "Expecting parameters after command in parameter list"))
        λ segment. more_parameters fuel (ps ++ segment)

  abbrev pub after_leading : List FunctionParameter → Find (List FunctionParameter)
  after_leading [] = found []
  after_leading (p ∷ ps) = with_rounds λ fuel. more_parameters fuel (p ∷ ps)

  -- A leading segment that fails is an empty list.
  unfoldable pub parameter_list : Find (List FunctionParameter)
  unfolding more_parameters
  parameter_list = parameter_list_segment >>= λ o. elim o [
    | none ↦ found []
    | some leading ↦ after_leading leading
  ]

  -- What follows the parameters; a missing block is logged, and is nil.
  unfoldable pub function_rest : Bool → FunctionLocation → Text → Find FunctionSyntax
  unfolding parameter_list set_parameters
  function_rest exported location name =
      expect (token TokenType.open_curved)
        (fail_with (codes "FunctionDefinition(): No open paren found"))
        λ _. expect parameter_list not_found λ parameters.
          set_parameters parameters
          >> expect (token TokenType.close_curved)
              (fail_with (codes "FunctionDefinition(): No close curved found"))
              λ _. c.type >>= λ returned. c.statement_block >>= λ block.
                elim block [
                  | none ↦
                      log_error (
                        codes "FunctionDefinition(): No statement block found following definition")
                  | some _ ↦ pure tt
                ]
                >> (reads (λ p. p.id) >>= λ module_id. found (record {
                  definition = record {
                    id = record { module_id = module_id; struct_id = blank_struct_id; name = name };
                    return_type = elim returned [ none ↦ make_void | some ty ↦ ty ];
                    avoid_check_phase = false;
                    location = location;
                    exported = exported;
                    parameters = parameters;
                  };
                  block = block;
                }))

  unfoldable pub function_definition : Find FunctionSyntax
  unfolding function_rest location_keyword
  function_definition =
      save
      >> (token TokenType.export >>= λ exported. location_keyword >>= λ location.
          expect (token TokenType.function) (reject >> not_found) λ _.
            accept
            >> in_scope (
                expect (token TokenType.identifier)
                  (fail_with (codes "FunctionDefinition(): No identifier found"))
                  λ ident. function_rest (is_some exported) location ident.tval))

  abbrev pub bound_to : StructId → FunctionSyntax → FunctionSyntax
  bound_to sid fn = record fn {
    definition = record fn.definition { id = record fn.definition.id { struct_id = sid } };
  }

  -- The loop over the methods and fields of a struct
  unfoldable pub struct_members :
      ℕ
      → StructId
      → List StructField
      → List FunctionSyntax
      → Parse (List StructField × List FunctionSyntax)
  unfolding function_definition parameter_list_segment
  struct_members zero sid fields functions = stops
  struct_members (suc fuel) sid fields functions =
      eat_semicolons
      >> when_found function_definition
          (λ fn. struct_members fuel sid fields (functions ++ bound_to sid fn ∷ []))
          (parameter_list_segment >>= λ o. elim o [
            | none ↦ pure (fields, functions)
            | some fps ↦ elim fps [
              | [] ↦ pure (fields, functions)
              | fp ∷ rest ↦ struct_members fuel sid (fields ++ map field_of (fp ∷ rest)) functions
            ]
          ])

  -- The body of a struct, in its scope
  unfoldable pub struct_body : Bool → StructId → Find StructSyntax
  unfolding struct_members set_parser_variable
  struct_body exported sid =
      set_parser_variable (codes "__self__") (make_pointer (struct_type sid)) false
      >> expect (token TokenType.open_curly) (fail_with (codes "Expecting '{' after struct name"))
          λ _. (with_rounds λ fuel. struct_members fuel sid [] []) >>= λ (fields, functions).
            eat_semicolons
            >> expect (token TokenType.close_curly) (fail_with (codes "Expecting '}' after struct"))
                λ _.
                  found (record {
                    exported = exported;
                    id = sid;
                    fields = fields;
                    functions = functions;
                  })

  unfoldable pub struct_definition : Find Element
  unfolding struct_body
  struct_definition =
      save
      >> (token TokenType.export >>= λ exported.
          expect (token TokenType.struct) (reject >> not_found) λ _.
            accept
            >> expect (token TokenType.identifier)
                (fail_with (codes "Expecting identifier after struct keyword"))
                λ name. reads (λ p. p.id) >>= λ module_id.
                  expect
                    (in_scope (
                      struct_body (is_some exported)
                        (record { module_id = module_id; name = name.tval })))
                    not_found λ s. found (Element.struct_element s))

  unfoldable pub const_tle : Find Element
  const_tle =
      expect (let_like_statement c TokenType.const AssignType.const) not_found
        λ cs. found (Element.const_element cs)

  unfoldable pub function_definition_tle : Find Element
  unfolding function_definition
  function_definition_tle =
      expect function_definition not_found λ fd. found (Element.function_element fd)
