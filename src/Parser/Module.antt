-- ===== src/Parser/Module.antt =====
-- src/parser/parser.go: imports, the module, and the grammar tied to itself.
use eyot.Prelude.{
  ℕ, zero, suc, Bool, false, Option, none, some, List, [], ◌∷◌, ◌++◌, Text, codes, text_eq, ◌||◌,
  Outcome, ok, ◌>>=◌ as ◌>>=ₒ◌, NoError, if◌then◌else◌, ℤ,
}
use eyot.Token.Kinds.{Token, TokenType}
use eyot.Token.Printed.{Format, token_string}
use eyot.Errors.{Errors, clean}
use eyot.Ast.Check.Context.{RequiredStruct}
use eyot.Ast.Ids.{ModuleId, join, module_key}
use eyot.Ast.Scope.{Scope, new_scope, add_c_function, set_struct}
use eyot.Ast.Syntax.{Element, ImportElement}
use eyot.Ast.Types.{Ty, Types}
use eyot.Parser.State.{
  Run, Parse, Find, ParserState, ImportedModule, ◌>>=◌, ◌>>◌, pure, reads, writes, stops, expect,
  when_found, not_found, found, token, fail_with, log_error, current_location, zero_token,
}
use eyot.Parser.Calls.{Calls, with_rounds, fail_expecting, eat_semicolons}
use eyot.Parser.Types.{type_over}
use eyot.Parser.Prefixed.{expression_over}
use eyot.Parser.Statements.{statement_block_over}
use eyot.Parser.Definitions.{in_scope, struct_definition, function_definition_tle, const_tle}

-- `GetModule`, of the program, which logs errors of its own.
abbrev pub ModuleProvider : Type 0
ModuleProvider = ModuleId → List Text → Errors → Option ImportedModule × Errors

-- `CFunction`
pub record CFunction : Type 0 where
  pub name : Text
  pub return_type : Ty
  pub argument_types : Types

unfoldable pub add_c_functions : Scope → List CFunction → Outcome NoError Scope
add_c_functions s [] = ok s
add_c_functions s (cf ∷ cfs) =
    add_c_function s cf.name cf.return_type cf.argument_types >>=ₒ λ s'. add_c_functions s' cfs

unfoldable pub new_parser :
    ModuleId → List Token → Errors → List Text → List CFunction → Outcome NoError ParserState
unfolding add_c_functions
new_parser id tkns es no_import_ids ffi = add_c_functions (new_scope []) ffi >>=ₒ λ root_scope.
    ok (record {
      tokens = tkns;
      imports = [];
      frames = 0 ∷ [];
      scope = root_scope;
      struct_literal_ok = ℤ.pos 0;
      break_ok = 0;
      file_name = module_key id;
      id = id;
      es = es;
      disallowed_ids = no_import_ids;
    })

unfoldable pub is_disallowed : List Text → Text → Bool
is_disallowed [] key = false
is_disallowed (k ∷ ks) key = text_eq k key || is_disallowed ks key

unfoldable pub set_structs : Scope → List RequiredStruct → Scope
set_structs s [] = s
set_structs s (rs ∷ structs) = set_structs (set_struct s rs.id rs.definition) structs

-- The loop over `::` and names; a name that is missing is logged, and is empty.
unfoldable pub import_names : ℕ → ImportElement → Parse ImportElement
import_names zero ie = stops
import_names (suc fuel) ie =
    when_found (token TokenType.scope_resolution)
      (λ _.
        expect (token TokenType.identifier)
          (log_error (codes "Expecting identifer after dot in import") >> pure [])
          (λ id. pure id.tval)
        >>= λ name. import_names fuel (record { names = ie.names ++ name ∷ []; import_as = name }))
      (pure ie)

module _ (c : Calls) (provider : ModuleProvider) where
  -- `as` and a name
  unfoldable pub import_as_clause : ImportElement → Find ImportElement
  import_as_clause ie =
      when_found (token TokenType.as_keyword)
        (λ _.
          expect (token TokenType.identifier)
            (fail_expecting c (codes "identifier") (codes "import statement"))
            λ id. found (record ie { import_as = id.tval }))
        (found ie)

  abbrev pub ask_provider : ImportElement → Find ImportedModule
  ask_provider ie p =
      let (answer, es) = provider ie.names p.disallowed_ids p.es in
      Run.done answer (record p { es = es })

  abbrev pub add_import : ImportElement → ImportedModule → Parse (Unit {0})
  add_import ie imported = writes λ p. record p {
    imports = p.imports ++ (ie.import_as, imported) ∷ [];
    scope = set_structs p.scope imported.structs;
  }

  -- After the names of an import
  unfoldable pub import_rest : ImportElement → Find Element
  unfolding import_as_clause is_disallowed
  import_rest ie = reads (λ p. is_disallowed p.disallowed_ids (module_key ie.names)) >>= λ cycle.
      reads (λ p. p.id) >>= λ id.
      if cycle
      then fail_with (
          codes "Import cycle found when importing '"
          ++ (c.format.texts ie.names ++ (codes "' from '" ++ (c.format.texts id ++ codes "'"))))
      else expect (import_as_clause ie) not_found λ ie'.
        expect (ask_provider ie')
          (fail_with (codes "Parser failed to find module " ++ join (codes ".") ie'.names))
          λ imported. add_import ie' imported >> found (Element.import_element ie')

  unfoldable pub import_line : Find Element
  unfolding import_names import_rest
  import_line = expect (token TokenType.import) not_found λ _.
      expect (token TokenType.identifier) (fail_with (codes "Expecting identifer after import"))
        λ id.
          (with_rounds
            λ fuel. import_names fuel (record { names = id.tval ∷ []; import_as = id.tval }))
          >>= import_rest

  -- The elements that are tried, in this order
  abbrev pub element_kinds : List (Find Element)
  element_kinds = struct_definition c ∷ function_definition_tle c ∷ const_tle c ∷ import_line ∷ []

  unfoldable pub first_element : List (Find Element) → Find Element
  first_element [] = eat_semicolons >> not_found
  first_element (kind ∷ kinds) = eat_semicolons >> expect kind (first_element kinds) found

  unfoldable pub top_level_element : Find Element
  unfolding first_element import_line
  top_level_element = first_element element_kinds

  -- The loop of `Module`; `none` where an error was logged
  unfoldable pub module_elements : ℕ → List Element → Find (List Element)
  unfolding top_level_element
  module_elements zero els = stops
  module_elements (suc fuel) els = current_location >>= λ loc. top_level_element >>= λ o. elim o [
    | none ↦ found els
    | some tle ↦ reads (λ p. clean p.es) >>= λ is_clean.
        let rest = module_elements fuel (els ++ Element.dummy_element loc ∷ tle ∷ []) in
        if is_clean then rest else not_found
  ]

  -- `Module`, in a scope of its own
  unfoldable pub parse_module : Find (List Element)
  unfolding module_elements
  parse_module = in_scope (
      expect (with_rounds λ fuel. module_elements fuel []) not_found λ els.
        expect (token TokenType.eof)
          (fail_with (codes "Expecting EOF, got " ++ token_string c.format zero_token))
          λ _. found els)

-- The calls of the grammar, with fuel for their depth
unfoldable pub grammar : ℕ → Format → Calls
unfolding expression_over type_over statement_block_over
grammar zero f = record { format = f; expression = stops; type = stops; statement_block = stops }
grammar (suc fuel) f =
    let c = grammar fuel f in
    record {
      format = f;
      expression = expression_over c;
      type = type_over c.type;
      statement_block = statement_block_over c;
    }
