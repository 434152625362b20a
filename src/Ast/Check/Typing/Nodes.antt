-- ===== src/Ast/Check/Typing/Nodes.antt =====
-- src/ast/expressions.go: what the check of a node whose parts are checked does, for any judgement
-- that its success gives: variables, operators, accesses and indices.
use eyot.Prelude.{◌≡◌, refl, sym, ap, ◌∙◌, true, Option, none, some, Text, ok, NoError}
use eyot.Token.Printed.{Format}
use eyot.Ast.Structs.{StructDefinition, StructField, get_field}
use eyot.Ast.Types.{Ty, TypeSelector, types, struct_id, first_type, unwrapped}
use eyot.Ast.Types.Printed.{type_string}
use eyot.Ast.Scope.{
  Scope, VariableBinding, lookup_variable_type, lookup_struct_definition, blank_type,
}
use eyot.Ast.Syntax.{BinaryOperator, UnaryOperator}
use eyot.Ast.Check.Pass.{PassState}
use eyot.Ast.Check.Pass.Rules.{
  Judgement, Does, Does-pure, Does-bind, Does-fail, Does-fail->>>, Does-if,
}
use eyot.Ast.Check.Pass.Sequence.{
  quiet-then, fact-then, demand-then, force-then, scope-then, fail-pure,
}
use eyot.Ast.Check.Pass.Steps.{Does-note_gpu, Does-require}
use eyot.Ast.Check.Nodes.{Typed, Node, own, has_selector, builtin_type}
use eyot.Ast.Check.Operands.{Combines, Applies, MemberOf, ElementOf}
use eyot.Ast.Check.Typing.Verdicts.{Accepted, binary_verdict-Accepted, unary_verdict-Accepted}
use eyot.Ast.Check.Operators.{Verdict, accepts, rejects, binary_verdict, unary_verdict}
use eyot.Ast.Check.Parts.{
  string_method, vector_method, finish, settle, variable_node, check_variable, check_builtin,
  check_binary, check_unary, method_node, field_node, struct_node, access_node, check_access,
  index_with, check_index, mismatch, not_found,
}

-- A node of the type may come out where the scope is as it was.
abbrev pub Yields : Judgement Node → Ty → Type 0
Yields J ty = (st st' : PassState) → st'.scope ≡ st.scope → J st (own (ok ty)) st'

module _ (f : Format) (type_text : Ty → Text) where
  pub finish-Does : {J : Judgement Node} (ty : Ty) → Yields J ty → Does J (finish f type_text ty)
  finish-Does ty y =
      quiet-then (Does-require f.int ty) (Does-pure (own (ok ty)) λ st st0 e. y st0 st e)

  settle-Does :
      {J : Judgement Node} {P : Ty → Type 0} (v : Verdict)
      → Accepted P v
      → ((ty : Ty) → P ty → Yields J ty)
      → Does J (settle f type_text v)
  unfolding settle
  settle-Does (accepts ty) (Accepted.accepting p) y = finish-Does ty (y ty p)
  settle-Does (rejects message) Accepted.rejecting y = fail-pure message _

  pub check_binary-Does :
      {J : Judgement Node} (op : BinaryOperator) (l r : Typed)
      → ((lt rt ty : Ty) → l ≡ ok lt → r ≡ ok rt → Combines op lt rt ty → Yields J ty)
      → Does J (check_binary f type_text op l r)
  unfolding check_binary
  check_binary-Does op l r y = demand-then l λ lt p. demand-then r λ rt q.
      force-then (binary_verdict (mismatch f type_text lt rt) op lt rt)
        (binary_verdict-Accepted _ op lt rt) λ v a _. settle-Does v a λ ty c. y lt rt ty p q c

  pub check_unary-Does :
      {J : Judgement Node} (op : UnaryOperator) (e : Typed)
      → ((ty t : Ty) → e ≡ ok ty → Applies ty op t → Yields J t)
      → Does J (check_unary f type_text op e)
  unfolding check_unary
  check_unary-Does op e y =
      demand-then e
        λ ty p. settle-Does (unary_verdict op ty) (unary_verdict-Accepted op ty) λ t a. y ty t p a

  variable_node-Does :
      {J : Judgement Node} (message : Text) (o : Option VariableBinding)
      → ((b : VariableBinding) → o ≡ some b → Yields J b.variable_type)
      → Does J (variable_node f type_text message o)
  unfolding variable_node
  variable_node-Does message (some b) y = finish-Does b.variable_type (y b refl)
  variable_node-Does message none y =
      Does-fail->>> message (finish-Does {J = λ _ _ _. Unit {0}} blank_type λ _ _ _. tt)

  pub check_variable-Does :
      {J : Judgement Node} (message name : Text)
      → ((st st' : PassState) (b : VariableBinding)
          → lookup_variable_type st.scope name ≡ some b
          → st'.scope ≡ st.scope
          → J st (own (ok b.variable_type)) st')
      → Does J (check_variable f type_text message name)
  unfolding check_variable
  check_variable-Does message name y = scope-then λ s.
      variable_node-Does message (lookup_variable_type s name)
        λ b e st st' q p. y st st' b (ap (λ s. lookup_variable_type s name) (sym p) ∙ e) q

  pub check_builtin-Does :
      {J : Judgement Node} (name : Text)
      → ((builtin_type name).1 ≡ true → Yields J (builtin_type name).0)
      → Does J (check_builtin f type_text name)
  unfolding check_builtin
  check_builtin-Does name y =
      fact-then
        (Does-if {J = λ st _ st'. (st'.scope ≡ st.scope) × ((builtin_type name).1 ≡ true)}
          (builtin_type name).1 _ _ (λ t. Does-pure tt λ st. (refl, t)) λ _. Does-fail _)
        (quiet-then (Does-note_gpu _) (Does-pure _ λ st2 st1 q st p t. y t st st2 (q ∙ p)))

  method_node-Does :
      {J : Judgement Node} (message : Text) (o : Option Ty)
      → ((t : Ty) → o ≡ some t → Yields J t)
      → Does J (method_node message o)
  unfolding method_node
  method_node-Does message (some ty) y = Does-pure _ λ st. y ty refl st st refl
  method_node-Does message none y = fail-pure message _

  -- The member that the access finds in the scope `s`
  abbrev Finds : Judgement Node → Scope → Text → Ty → Type 0
  Finds J s name ty = (t : Ty) → MemberOf s name ty t → Yields J t

  struct_node-Does :
      {J : Judgement Node} (message name : Text) (s : Scope) (ty : Ty)
      → has_selector TypeSelector.struct ty ≡ true
      → Finds J s name ty
      → Does J (
          struct_node f type_text message
            (struct_id ty)
            name
            (lookup_struct_definition s (struct_id ty)))
  unfolding struct_node field_node
  struct_node-Does {J} message name s ty h y =
      split_struct (lookup_struct_definition s (struct_id ty)) refl
    where
      split_field :
          (sd : StructDefinition)
          → lookup_struct_definition s (struct_id ty) ≡ some sd
          → (o : Option StructField) → get_field sd name ≡ o
          → Does J (field_node f type_text message o)
      split_field sd e (some fd) e' = finish-Does fd.type (y fd.type (MemberOf.field sd fd h e e'))
      split_field sd e none e' = fail-pure message _

      split_struct :
          (o : Option StructDefinition)
          → lookup_struct_definition s (struct_id ty) ≡ o
          → Does J (struct_node f type_text message (struct_id ty) name o)
      split_struct (some sd) e = split_field sd e (get_field sd name) refl
      split_struct none e = fail-pure _ _

  access_node-Does :
      {J : Judgement Node} (message name : Text) (ty : Ty)
      → ((st st' : PassState) (t : Ty)
          → MemberOf st.scope name ty t
          → st'.scope ≡ st.scope
          → J st (own (ok t)) st')
      → Does J (access_node f type_text message name ty)
  unfolding access_node
  access_node-Does message name ty y =
      Does-if (has_selector TypeSelector.struct ty) _ _
        (λ h.
          scope-then
            λ s. struct_node-Does message name s ty h λ t m st st' q p. y st st' t (rw (sym p) m) q)
        λ _.
          Does-if (has_selector TypeSelector.string ty) _ _
            (λ h.
              method_node-Does message (string_method name)
                λ t e st st' q. y st st' t (MemberOf.of_string t h e) q)
            λ _.
              Does-if (has_selector TypeSelector.vector ty) _ _
                (λ h.
                  method_node-Does message (vector_method name)
                    λ t e st st' q. y st st' t (MemberOf.of_vector t h e) q)
                λ _. demand-then (type_string f ty) λ text _. fail-pure _ _

  pub check_access-Does :
      {J : Judgement Node} (e : Typed) (name : Text)
      → ((st st' : PassState) (accessed ty t : Ty)
          → e ≡ ok accessed
          → unwrapped {E = NoError} accessed ≡ ok ty
          → MemberOf st.scope name ty t
          → st'.scope ≡ st.scope
          → J st (record { type = ok t; accessed = some e }) st')
      → Does J (check_access f type_text e name)
  unfolding check_access
  check_access-Does {J} e name y = demand-then e λ accessed p.
      demand-then (unwrapped accessed) λ ty q.
        Does-bind
          (access_node-Does
            {J = λ st n st'.
              (t : Ty) × (n ≡ own (ok t)) × MemberOf st.scope name ty t × (st'.scope ≡ st.scope)}
            (not_found f type_text name accessed) name ty λ st st' t m q'. (t, refl, m, q'))
          (λ n.
            Does-pure
              {J = λ st1 r st2.
                (st : PassState)
                → ((t : Ty) × (n ≡ own (ok t))
                    × MemberOf st.scope name ty t
                    × (st1.scope ≡ st.scope))
                → J st r st2}
              _ λ st1 st (t, e', m, q'). rw e' (y st st1 accessed ty t p q m q'))
          λ st st1 st2 n b _ found k. k st found

  index_with-Does :
      {J : Judgement Node} (i : Typed) (t : Ty)
      → ((it : Ty) → i ≡ ok it → has_selector TypeSelector.integer it ≡ true → Yields J t)
      → Does J (index_with f type_text i t)
  unfolding index_with
  index_with-Does i t y = demand-then i λ it p.
      Does-if (has_selector TypeSelector.integer it) _ _ (λ h. finish-Does t (y it p h))
        λ _. fail-pure _ _

  pub check_index-Does :
      {J : Judgement Node} (e i : Typed)
      → ((indexed ty it t : Ty)
          → e ≡ ok indexed
          → unwrapped {E = NoError} indexed ≡ ok ty
          → ElementOf ty t
          → i ≡ ok it
          → has_selector TypeSelector.integer it ≡ true
          → Yields J t)
      → Does J (check_index f type_text e i)
  unfolding check_index
  check_index-Does e i y = demand-then e λ indexed p. demand-then (unwrapped indexed) λ ty q.
      Does-if (has_selector TypeSelector.vector ty) _ _
        (λ h. demand-then (first_type (types ty)) λ t e'.
          index_with-Does i t λ it r r'. y indexed ty it t p q (ElementOf.of_vector t h e') r r')
        λ _.
          Does-if (has_selector TypeSelector.string ty) _ _
            (λ h. index_with-Does i _ λ it r r'. y indexed ty it _ p q (ElementOf.of_string h) r r')
            λ _. fail-pure _ _
