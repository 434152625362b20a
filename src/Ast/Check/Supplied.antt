-- ===== src/Ast/Check/Supplied.antt =====
-- src/ast/closure.go: the arguments that a partial application supplies.
use eyot.Prelude.{
  ℕ, ◌≡◌, refl, ap, ap₂, false, [], ◌++◌, Text, codes, ok, ◌>>=◌, Outcome, NoError, if◌then◌else◌,
  ◌==◌,
}
use eyot.Token.Printed.{Format}
use eyot.Ast.Ids.{blank_struct_id}
use eyot.Ast.Types.{
  Ty, type_of, Types, nil, cons, TypeSelector, FunctionLocation, types, return_type, count_types,
}
use eyot.Ast.Syntax.{Expression, Expressions, no_expressions, entry, nil_entry}
use eyot.Ast.Check.Pass.{
  PassState, Pass, pure, ◌>>>=◌, ◌>>>◌, demand, fail, guarded, take_temporary_name,
}
use eyot.Ast.Check.Nodes.{Typed, Node, own, placeholder_types, count_expressions}
use eyot.Ast.Check.Expressions.{check}
use eyot.Ast.Check.Parts.{check_closure}

-- The same placeholders, and arguments of any kind in the other places
pub data SameHoles : Expressions → Expressions → Type 0 where
  none : SameHoles no_expressions no_expressions
  supplied :
      {e e' : Expression} {es es' : Expressions}
      → SameHoles es es'
      → SameHoles (entry e es) (entry e' es')
  placeholder : {es es' : Expressions} → SameHoles es es' → SameHoles (nil_entry es) (nil_entry es')

placeholder_types-SameHoles :
    {es es' : Expressions}
    → SameHoles es es'
    → (ts : Types) → placeholder_types es ts ≡ placeholder_types es' ts
unfolding placeholder_types
placeholder_types-SameHoles none ts = refl
placeholder_types-SameHoles (supplied h) nil = placeholder_types-SameHoles h nil
placeholder_types-SameHoles (supplied h) (cons t ts) = placeholder_types-SameHoles h ts
placeholder_types-SameHoles (placeholder h) nil = refl
placeholder_types-SameHoles (placeholder h) (cons t ts) =
    ap (λ m. m >>= λ rest. ok (cons t rest)) (placeholder_types-SameHoles h ts)

count-SameHoles :
    {es es' : Expressions} → SameHoles es es' → count_expressions es ≡ count_expressions es'
count-SameHoles none = refl
count-SameHoles (supplied h) = ap ℕ.suc (count-SameHoles h)
count-SameHoles (placeholder h) = ap ℕ.suc (count-SameHoles h)

module _ (f : Format) (type_text : Ty → Text) where
  -- The check over what it reads of the arguments: the types at the placeholders, and their count
  abbrev partial : Expression → (Types → Outcome NoError Types) → ℕ → Pass Node
  partial e holes count =
      let typed : Ty → Typed = λ cet. holes (types cet) >>= λ ts. ok (
        type_of TypeSelector.closure ts blank_struct_id (return_type cet) false []
          FunctionLocation.cpu 0) in
      check f type_text e >>>= λ n. guarded (own (n.type >>= typed)) (
        demand n.type >>>= λ cet.
        if count_types (types cet) == count
        then take_temporary_name >>> pure (own (n.type >>= typed))
        else (fail (
              codes "Cannot partially apply "
              ++ (f.int count
                  ++ (codes " arguments to a function of "
                      ++ (f.int (count_types (types cet)) ++ codes " arguments"))))
            >>> pure (own (n.type >>= typed))))

  -- The check of a partial application in the pass KPassSetTypes does not look at the arguments that
  -- are supplied: whatever stands in their places, the state, the node and its type are the same.
  pub check_closure-SameHoles :
      (e : Expression) (es es' : Expressions) (st : PassState)
      → SameHoles es es'
      → check f type_text (Expression.closure e es) st
        ≡ check f type_text (Expression.closure e es') st
  unfolding check check_closure
  check_closure-SameHoles e es es' st h =
      ap₂ (λ holes count. partial e holes count st) same (count-SameHoles h)
    where
      same : placeholder_types es ≡ placeholder_types es'
      same = λ i. λ ts. placeholder_types-SameHoles h ts i
