-- ===== src/Ast/Check/Nesting/Definitions.antt =====
-- src/ast/functions.go, structs.go, tles.go and module.go: the check of a module closes what it opens.
use eyot.Prelude.{
  ◌≡◌, refl, ◌∙◌, true, false, Option, none, some, List, [], ◌∷◌, Text, Safe, Post, Post-bind,
  Post-weaken,
}
use eyot.Errors.{clean}
use eyot.Token.Printed.{Format}
use eyot.Ast.Ids.{module_blank}
use eyot.Ast.Types.{Ty}
use eyot.Ast.Structs.{FunctionParameter, struct_type}
use eyot.Ast.Scope.{Scope, set_struct, set_module}
use eyot.Ast.Syntax.{LValue, Block, Element, FunctionSyntax, StructSyntax}
use eyot.Ast.Check.Context.{get_elements_for_insert}
use eyot.Ast.Check.Pass.{PassState, Pass, ◌>>>◌, change, parents}
use eyot.Ast.Check.Pass.Rules.{Does, Does-pure, Does-bind, Does-guarded, Does-if, Does-demand, Kept}
use eyot.Ast.Check.Pass.Sequence.{demand-then}
use eyot.Ast.Check.Pass.Steps.{Does-require}
use eyot.Ast.Check.Pass.Brackets.{
  Inner, Inner-then, within_scope-Does, rescope-Does, set_variable-parents,
}
use eyot.Ast.Check.Definitions.{
  definition_of, bind_parameters, require_parameters, check_body, check_function, check_functions,
  check_struct, check_element, check_module, last_name,
}
use eyot.Ast.Check.Nesting.Undone.{returning, in_location-Quiet}
use eyot.Ast.Check.Nesting.Scopes.{quiet-Inner, within-Inner, pure-Inner}
use eyot.Ast.Check.Nesting.Statements.{
  check_assign-Inner, check_statements-Inner, Does-set_location,
}

Quiet-then :
    {m k : Pass (Unit {0})}
    → Does (λ st _ st'. st'.scope ≡ st.scope) m
    → Does (λ st _ st'. st'.scope ≡ st.scope) k
    → Does (λ st _ st'. st'.scope ≡ st.scope) (m >>> k)
Quiet-then d e = Does-bind d (λ _. e) λ _ _ _ _ _ _ p q. q ∙ p

bind_parameters-parents :
    (ps : List FunctionParameter) (s : Scope)
    → Post (λ s'. parents s' ≡ parents s) (bind_parameters ps s)
unfolding bind_parameters
bind_parameters-parents [] s = Post.returns refl
bind_parameters-parents (p ∷ ps) s =
    Post-bind (set_variable-parents s p.name p.type true)
      λ s' q. Post-weaken (λ s2 r. r ∙ q) (bind_parameters-parents ps s')

set_struct-parents :
    (s : Scope) (x : StructSyntax) → parents (set_struct s x.id (definition_of x)) ≡ parents s
unfolding set_struct
set_struct-parents [] x = refl
set_struct-parents (f ∷ parent) x = refl

set_module-parents :
    (s : Scope) (ident : Text) (m : List Text) → parents (set_module s ident m) ≡ parents s
unfolding set_module
set_module-parents [] ident m = refl
set_module-parents (f ∷ parent) ident m = refl

elements-Inner : Does Inner (change λ cc. (get_elements_for_insert cc).1)
unfolding change get_elements_for_insert
elements-Inner = record { run = λ st. Safe.returns λ h. (h, refl, refl) }

module _ (f : Format) (type_text : Ty → Text) (lvalue_text : LValue → Text) where
  require_parameters-Quiet :
      (ps : List FunctionParameter)
      → Does (λ st _ st'. st'.scope ≡ st.scope) (require_parameters f type_text lvalue_text ps)
  require_parameters-Quiet [] = Does-pure tt λ st. refl
  require_parameters-Quiet (p ∷ ps) =
      Quiet-then (Does-require f.int p.type) (require_parameters-Quiet ps)

  check_body-Inner : (b : Option Block) → Does Inner (check_body f type_text lvalue_text b)
  unfolding check_body
  check_body-Inner none = Does-demand λ _ _ e. absurd (cc e)
  check_body-Inner (some b) = within-Inner (check_statements-Inner f type_text lvalue_text b)

  check_function-Quiet :
      (fs : FunctionSyntax)
      → Does (λ st _ st'. st'.scope ≡ st.scope) (check_function f type_text lvalue_text fs)
  unfolding check_function
  check_function-Quiet fs =
      Does-if (module_blank fs.definition.id.module_id) _ _
        (λ _. Does-demand λ _ _ e. absurd (cc e))
        λ _. in_location-Quiet fs.definition.location (
          Quiet-then (Does-require f.int fs.definition.return_type) (
            Does-guarded _ (
              Quiet-then (require_parameters-Quiet fs.definition.parameters) (
                returning fs.definition.return_type (
                  within_scope-Does (
                    Inner-then (rescope-Does _ (bind_parameters-parents fs.definition.parameters))
                      λ _. check_body-Inner fs.block))))))

  check_functions-Inner :
      (fss : List FunctionSyntax) → Does Inner (check_functions f type_text lvalue_text fss)
  check_functions-Inner [] = pure-Inner tt
  check_functions-Inner (fs ∷ fss) =
      Inner-then (quiet-Inner (check_function-Quiet fs)) λ _. check_functions-Inner fss

  check_struct-Inner : (s : StructSyntax) → Does Inner (check_struct f type_text lvalue_text s)
  unfolding check_struct
  check_struct-Inner s =
      Inner-then (rescope-Does _ λ scope. Post.returns (set_struct-parents scope s)) λ _.
        Inner-then (quiet-Inner (Does-require f.int (struct_type s.id))) λ _. within-Inner (
          Inner-then (rescope-Does _ λ scope. set_variable-parents scope _ _ false)
            λ _. check_functions-Inner s.functions)

  check_element-Inner : (e : Element) → Does Inner (check_element f type_text lvalue_text e)
  unfolding check_element
  check_element-Inner (Element.struct_element s) = check_struct-Inner s
  check_element-Inner (Element.function_element fs) = quiet-Inner (check_function-Quiet fs)
  check_element-Inner (Element.const_element a) = check_assign-Inner f type_text lvalue_text a
  check_element-Inner (Element.import_element i) =
      demand-then (last_name i.names)
        λ ident _. rescope-Does _ λ s. Post.returns (set_module-parents s ident i.names)
  check_element-Inner (Element.dummy_element location) = Does-set_location location

  check_module-Inner : (es : List Element) → Does Inner (check_module f type_text lvalue_text es)
  unfolding check_module
  check_module-Inner [] = pure-Inner tt
  check_module-Inner (e ∷ es) =
      Inner-then (check_element-Inner e)
        λ _. Does-guarded _ (Inner-then elements-Inner λ _. check_module-Inner es)

  -- The check of a module in the pass KPassSetTypes returns or panics, and its comparisons of types do
  -- not run out of fuel. Where it leaves the log of the errors clean, the log was clean before, and
  -- every block of CPU or GPU code, every type to be returned and every collection of statements that
  -- it opened is closed; the levels of the scope around the module's own are as they were.
  pub check_module-closes :
      (es : List Element) (st : PassState)
      → Safe
          (λ (_, st').
            clean st'.context.errors ≡ true
            → (clean st.context.errors ≡ true)
              × Kept st.context st'.context
              × (parents st'.scope ≡ parents st.scope))
          (check_module f type_text lvalue_text es st)
  check_module-closes es st = (check_module-Inner es).run st

  -- The check of a function in the pass KPassSetTypes, where it leaves the log of the errors clean,
  -- leaves the scope around the function as it was, and what it opened closed.
  pub check_function-closes :
      (fs : FunctionSyntax) (st : PassState)
      → Safe
          (λ (_, st').
            clean st'.context.errors ≡ true
            → (clean st.context.errors ≡ true)
              × Kept st.context st'.context
              × (st'.scope ≡ st.scope))
          (check_function f type_text lvalue_text fs st)
  check_function-closes fs st = (check_function-Quiet fs).run st
