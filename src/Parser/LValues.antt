-- ===== src/Parser/LValues.antt =====
-- src/parser/parser.go: what can be assigned to.
use eyot.Prelude.{ℕ, zero, suc, none, some, List, [], ◌∷◌, ◌++◌, codes}
use eyot.Token.Kinds.{TokenType}
use eyot.Ast.Syntax.{LValue, deref, accessor, multiple, to_lvalues}
use eyot.Parser.State.{
  Find, ◌>>=◌, ◌>>◌, stops, expect, when_found, not_found, found, token, fail_with, save, accept,
  reject,
}
use eyot.Parser.Calls.{Calls, with_rounds}

-- `self` or a name
unfoldable pub simple_lvalue : Find LValue
simple_lvalue =
    when_found (token TokenType.self) (λ _. found LValue.self)
      (expect (token TokenType.identifier) not_found λ ident. found (LValue.identifier ident.tval))

unfoldable pub access_lvalue : Find LValue
unfolding simple_lvalue
access_lvalue = expect simple_lvalue not_found λ lv.
    when_found (token TokenType.dot)
      (λ _.
        expect (token TokenType.identifier)
          (fail_with (codes "No identifier found after dot in LValue"))
          λ ident. found (accessor lv ident.tval))
      (found lv)

module _ (c : Calls) where
  unfoldable pub indexing_loop : ℕ → LValue → Find LValue
  indexing_loop zero lv = stops
  indexing_loop (suc fuel) lv = expect (token TokenType.open_square) (found lv) λ _.
      expect c.expression (fail_with (codes "Expected an expression after '[' in accessor lvalue"))
        λ ind.
          expect (token TokenType.close_square)
            (fail_with (codes "Expected an ']' in accessor lvalue"))
            λ _. indexing_loop fuel (LValue.index lv ind)

  unfoldable pub indexing_lvalue : Find LValue
  unfolding indexing_loop access_lvalue
  indexing_lvalue = expect access_lvalue not_found λ lv. with_rounds λ fuel. indexing_loop fuel lv

  unfoldable pub dereference_lvalue : Find LValue
  unfolding indexing_lvalue
  dereference_lvalue =
      save
      >> (token TokenType.multiply >>= λ star.
          expect indexing_lvalue (reject >> not_found)
            λ lv. accept >> found (elim star [ none ↦ lv | some _ ↦ deref lv ]))

  unfoldable pub lvalues_loop : ℕ → List LValue → Find (List LValue)
  lvalues_loop zero ls = stops
  lvalues_loop (suc fuel) ls = expect (token TokenType.comma) (found ls) λ _.
      expect dereference_lvalue (fail_with (codes "Expecting l-values after comma"))
        λ l. lvalues_loop fuel (ls ++ l ∷ [])

  abbrev pub lvalue_of : LValue → List LValue → LValue
  lvalue_of lv [] = lv
  lvalue_of lv (l ∷ ls) = multiple (to_lvalues (lv ∷ l ∷ ls))

  unfoldable pub lvalue : Find LValue
  unfolding lvalues_loop dereference_lvalue
  lvalue = expect dereference_lvalue not_found λ lv.
      expect (with_rounds λ fuel. lvalues_loop fuel []) not_found λ ls. found (lvalue_of lv ls)
