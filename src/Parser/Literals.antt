-- ===== src/Parser/Literals.antt =====
-- src/parser/parser.go: lists of expressions, struct literals and the terminals of an expression.
use eyot.Prelude.{
  ℕ, zero, suc, Bool, true, false, Option, none, some, List, [], ◌∷◌, ◌++◌, Text, codes,
  if◌then◌else◌, is_negative,
}
use eyot.Token.Kinds.{Token, TokenType}
use eyot.Ast.Ids.{ModuleId, module_key}
use eyot.Ast.Structs.{FunctionDefinition, our_type, lookup_function, lookup_struct}
use eyot.Ast.Syntax.{
  Expression, Expressions, to_expressions, to_pairs, null_literal, self_terminal, boolean,
  character, integer, string, gpu_builtin, identifier, float, struct_literal, vector_literal,
}
use eyot.Parser.State.{
  Parse, Find, ImportedModule, ◌>>=◌, ◌>>◌, pure, reads, stops, expect, when_found, not_found,
  found, token, fail_with, save, accept, reject, log_error, find_import,
}
use eyot.Parser.Calls.{
  Calls, with_rounds, fail_expecting, log_description, log_unless_found, eat_semicolons,
}

-- `ResolvedId` without the name that it returns where nothing is found
unfoldable pub resolved_id : Find (ImportedModule × Text)
resolved_id =
    save
    >> expect (token TokenType.identifier) (reject >> not_found) λ tok.
      expect (token TokenType.scope_resolution) (reject >> not_found) λ _.
        expect (token TokenType.identifier)
          (log_error (codes "No identifier found after scope resolution operator")
            >> (reject >> not_found))
          λ sym. reads (λ p. find_import p.imports tok.tval) >>= λ o. elim o [
            | none ↦
                log_error (codes "Parser failed to find module " ++ tok.tval)
                >> (reject >> not_found)
            | some imported ↦ accept >> found (imported, sym.tval)
          ]

module _ (c : Calls) where
  -- An identifier, a colon and an expression
  unfoldable pub literal_pair : Find (Text × Expression)
  literal_pair = expect (token TokenType.identifier) not_found λ ident.
      expect (token TokenType.colon)
        (log_description c
            (codes "Expecting colon after identifier in struct (" ++ (ident.tval ++ codes ")"))
          >> not_found)
        λ _.
          expect c.expression (fail_with (codes "Expecting expression after colon in struct"))
            λ e. found (ident.tval, e)

  abbrev pub add_pair :
      List (Text × Expression) → Option (Text × Expression) → List (Text × Expression)
  add_pair pairs none = pairs
  add_pair pairs (some p) = pairs ++ p ∷ []

  -- What stands before a pair: a comma, unless it is the first
  unfoldable pub pair_separator : Bool → List (Text × Expression) → Find (Unit {0})
  pair_separator first_pass [] =
      if first_pass
      then found tt
      else fail_expecting c (codes "value or closing '}'") (codes "struct literal")
  pair_separator first_pass (_ ∷ _) =
      eat_semicolons
      >> expect (token TokenType.comma) (fail_expecting c (codes "comma") (codes "struct literal"))
          λ _. found tt

  -- The loop of `StructLiteralBody`
  unfoldable pub struct_pairs :
      ℕ → Bool → List (Text × Expression) → Find (List (Text × Expression))
  unfolding literal_pair pair_separator
  struct_pairs zero first_pass pairs = stops
  struct_pairs (suc fuel) first_pass pairs =
      eat_semicolons
      >> when_found (token TokenType.close_curly) (λ _. found pairs)
          (expect (pair_separator first_pass pairs) not_found λ _.
            eat_semicolons >> (literal_pair >>= λ o. struct_pairs fuel false (add_pair pairs o)))

  unfoldable pub struct_literal_body : ModuleId → Text → Find Expression
  unfolding struct_pairs
  struct_literal_body module_id name = expect (token TokenType.open_curly) not_found λ _.
      expect (with_rounds λ fuel. struct_pairs (suc fuel) true []) not_found λ pairs.
        found (struct_literal (record { module_id = module_id; name = name }) (to_pairs pairs))

  -- An expression or, where that is allowed, a placeholder, which is a nil entry
  unfoldable pub list_entry : Bool → Find (Option Expression)
  list_entry allow_placeholders =
      let expression : Find (Option Expression) =
        expect c.expression not_found λ e. found (some e) in
      if allow_placeholders
      then when_found (token TokenType.placeholder) (λ _. found none) expression
      else expression

  -- The loop of `ExpressionList`
  unfoldable pub more_entries :
      ℕ → Bool → Bool → List (Option Expression) → Find (List (Option Expression))
  unfolding list_entry
  more_entries zero allow_placeholders allow_trailing_comma el = stops
  more_entries (suc fuel) allow_placeholders allow_trailing_comma el =
      expect (token TokenType.comma) (found el) λ _.
        expect (list_entry allow_placeholders)
          (if allow_trailing_comma
            then found el
            else fail_with (codes "Expecting expression after command in expression list"))
          λ e. more_entries fuel allow_placeholders allow_trailing_comma (el ++ e ∷ [])

  -- An empty list is a valid list.
  unfoldable pub expression_list : Bool → Bool → Find Expressions
  unfolding more_entries list_entry
  expression_list allow_placeholders allow_trailing_comma =
      expect (list_entry allow_placeholders) (found (to_expressions [])) λ e.
        expect
          (with_rounds λ fuel. more_entries fuel allow_placeholders allow_trailing_comma (e ∷ []))
          not_found λ el. found (to_expressions el)

  -- The terminals that are one token
  abbrev pub terminal_kinds : List (TokenType × (Token → Expression))
  terminal_kinds =
      (TokenType.integer, λ tok. integer tok.ival)
      ∷ (TokenType.null, λ _. null_literal)
      ∷ (TokenType.self, λ _. self_terminal)
      ∷ (TokenType.float32, λ tok. float tok.ival tok.fval_zeros tok.fval 32)
      ∷ (TokenType.float64, λ tok. float tok.ival tok.fval_zeros tok.fval 64)
      ∷ (TokenType.string, λ tok. string tok.tval)
      ∷ (TokenType.character, λ tok. character tok.ival)
      ∷ (TokenType.true_keyword, λ _. boolean true)
      ∷ (TokenType.false_keyword, λ _. boolean false)
      ∷ []

  unfoldable pub terminal : List (TokenType × (Token → Expression)) → Find Expression
  terminal [] = not_found
  terminal ((ty, build) ∷ kinds) = expect (token ty) (terminal kinds) λ tok. found (build tok)

  -- After `gpubuiltin`
  unfoldable pub gpu_builtin_terminal : Find Expression
  gpu_builtin_terminal =
      expect (token TokenType.scope_resolution) (fail_expecting c (codes "::") (codes "gpubuiltin"))
        λ _.
          expect (token TokenType.identifier)
            (fail_expecting c (codes "identifier") (codes "gpubuiltin"))
            λ it. found (gpu_builtin it.tval)

  -- A message about a name of a module that is not exported
  abbrev pub not_exported : Text → Text → ModuleId → Find Expression
  not_exported what name module_id = fail_with (
      what ++ (name ++ (codes " in module " ++ (module_key module_id ++ codes " is not exported"))))

  abbrev pub foreign_function : Text → FunctionDefinition → ImportedModule → Find Expression
  foreign_function name def imported =
      if def.exported
      then found (identifier name (some (record { fid = def.id; cached_type = our_type def })))
      else not_exported (codes "Function ") name imported.module_id

  abbrev pub foreign_struct : Text → ImportedModule → Find Expression
  foreign_struct name imported = struct_literal_body imported.module_id name >>= λ o. elim o [
    | none ↦ fail_with (codes "Do not recognise the scoped identifier in this context")
    | some sl ↦ elim (lookup_struct imported.elements name) [
      | none ↦ fail_with (codes "Do not recognise the scoped identifier in this context")
      | some exported ↦
          if exported then found sl else not_exported (codes "struct ") name imported.module_id
    ]
  ]

  abbrev pub may_not_be_struct : Parse Bool
  may_not_be_struct = reads λ p. is_negative p.struct_literal_ok

  -- A name of another module: a function, or the literal of a struct
  unfoldable pub foreign_name : ImportedModule × Text → Find Expression
  unfolding struct_literal_body
  foreign_name (imported, name) = elim (lookup_function imported.elements name) [
    | some def ↦ foreign_function name def imported
    | none ↦ may_not_be_struct >>= λ forbidden.
        if forbidden
        then fail_with (
            codes
              "Cannot parse a struct literal in this context (not a function, so interpreted that way)")
        else foreign_struct name imported
  ]

  -- A name of this module, or a struct literal behind it
  unfoldable pub local_name : Token → Find Expression
  unfolding struct_literal_body
  local_name tok = may_not_be_struct >>= λ forbidden.
      if forbidden
      then found (identifier tok.tval none)
      else (reads (λ p. p.id) >>= λ module_id.
          expect (struct_literal_body module_id tok.tval) (found (identifier tok.tval none)) found)

  -- After `[`; an error about the brackets does not end the literal.
  unfoldable pub vector_literal_body : Find Expression
  unfolding expression_list
  vector_literal_body = expect c.type (fail_with (codes "No type found after '['")) λ ity.
      log_unless_found (token TokenType.close_square)
        (codes "No close square found for vector type")
      >> (log_unless_found (token TokenType.open_curly)
            (codes "No open curly found for vector type")
          >> (expression_list false true >>= λ es.
              elim es [
                | none ↦ log_error (codes "Expecting expression list in vector literal")
                | some _ ↦ pure tt
              ]
              >> (log_unless_found (token TokenType.close_curly)
                    (codes "Expecting closed curly after vector literal")
                  >> found
                      (vector_literal ity (elim es [ none ↦ to_expressions [] | some l ↦ l ])))))

  unfoldable pub literal_value_expression : Find Expression
  unfolding terminal gpu_builtin_terminal resolved_id foreign_name local_name vector_literal_body
  literal_value_expression = when_found (terminal terminal_kinds) found (
      when_found (token TokenType.gpu_builtin) (λ _. gpu_builtin_terminal)
        (when_found resolved_id foreign_name (
          when_found (token TokenType.identifier) local_name
            (when_found (token TokenType.open_square) (λ _. vector_literal_body) not_found))))

  unfoldable pub primary_expression : Find Expression
  unfolding literal_value_expression
  primary_expression =
      when_found (token TokenType.open_curved)
        (λ _.
          expect c.expression
            (fail_with (codes "Expecting an expression after the curved brackets"))
            λ inner.
              expect (token TokenType.close_curved)
                (fail_with (codes "Missing closing curved bracket")) λ _. found inner)
        literal_value_expression
