-- ===== src/Parser/Operators.antt =====
-- src/parser/parser.go: postfix, unary and binary operators, and `new`.
pub mod Precedence
use eyot.Prelude.{ℕ, zero, suc, false, Option, none, some, List, [], ◌∷◌, ◌++◌, Text, codes}
use eyot.Token.Kinds.{TokenType}
use eyot.Token.Printed.{type_code, token_string}
use eyot.Ast.Syntax.{
  Expression, BinaryOperator, UnaryOperator, cast, unary, binary, index, call, access, new,
}
use eyot.Ast.Types.{TypeSelector, nil, plain}
use eyot.Parser.State.{
  Parse, Find, ◌>>=◌, ◌>>◌, pure, stops, expect, when_found, not_found, found, token, fail_with,
  save, accept, reject, log_error, debug_peek_token,
}
use eyot.Parser.Calls.{
  Calls, with_rounds, token_among, fail_expecting, log_expecting_error, log_description,
}
use eyot.Parser.Literals.{primary_expression, expression_list}

-- The loop of `binaryInfixExpression`, with the expression so far
unfoldable pub binary_infix_loop :
    ℕ → List (TokenType × BinaryOperator) → Find Expression → Expression → Find Expression
binary_infix_loop zero operators next pe = stops
binary_infix_loop (suc fuel) operators next pe = expect (token_among operators) (found pe) λ op.
    expect next (fail_with (codes "Expecting RHS expression"))
      λ rhs. binary_infix_loop fuel operators next (binary op pe rhs)

unfoldable pub binary_infix_expression :
    List (TokenType × BinaryOperator) → Find Expression → Find Expression
unfolding binary_infix_loop
binary_infix_expression operators next =
    expect next not_found λ pe. with_rounds λ fuel. binary_infix_loop fuel operators next pe

abbrev pub multiplicative_operators : List (TokenType × BinaryOperator)
multiplicative_operators =
    (TokenType.multiply, BinaryOperator.multiply)
    ∷ (TokenType.divide, BinaryOperator.divide)
    ∷ (TokenType.percent, BinaryOperator.modulo)
    ∷ []

abbrev pub additive_operators : List (TokenType × BinaryOperator)
additive_operators =
    (TokenType.plus, BinaryOperator.add) ∷ (TokenType.minus, BinaryOperator.subtract) ∷ []

abbrev pub relational_operators : List (TokenType × BinaryOperator)
relational_operators =
    (TokenType.greater_than, BinaryOperator.gt)
    ∷ (TokenType.greater_than_or_equal, BinaryOperator.gte)
    ∷ (TokenType.less_than, BinaryOperator.lt)
    ∷ (TokenType.less_than_or_equal, BinaryOperator.lte)
    ∷ []

abbrev pub equality_operators : List (TokenType × BinaryOperator)
equality_operators =
    (TokenType.equality, BinaryOperator.equality)
    ∷ (TokenType.inequality, BinaryOperator.inequality)
    ∷ []

abbrev pub and_operators : List (TokenType × BinaryOperator)
and_operators = (TokenType.and, BinaryOperator.and) ∷ []

abbrev pub or_operators : List (TokenType × BinaryOperator)
or_operators = (TokenType.or, BinaryOperator.or) ∷ []

abbrev pub unary_operators : List (TokenType × UnaryOperator)
unary_operators =
    (TokenType.not_keyword, UnaryOperator.not) ∷ (TokenType.minus, UnaryOperator.negate) ∷ []

module _ (c : Calls) where
  -- `as` and a type; a type that is missing is logged, and is the zero type.
  unfoldable pub cast_of : Expression → Parse Expression
  cast_of pe =
      when_found (token TokenType.as_keyword)
        (λ _.
          when_found c.type (λ ty. pure (cast ty pe))
            (log_expecting_error c (codes "type") (codes "cast expression")
              >> pure (cast (plain TypeSelector.integer nil) pe)))
        (pure pe)

  -- After `(`
  unfoldable pub call_of : Expression → Find Expression
  call_of pe = expect (expression_list c false false) not_found λ el.
      expect (token TokenType.close_curved)
        (fail_expecting c (codes "')'") (codes "call statement")) λ _. found (call pe el)

  -- After `[`
  unfoldable pub index_of : Expression → Find Expression
  index_of pe = expect c.expression not_found λ e.
      expect (token TokenType.close_square)
        (debug_peek_token >>= λ t.
          log_description c
            (codes "Expecting ']' in access statement, have " ++ token_string c.format t)
          >> not_found)
        λ _. found (index pe e)

  -- After `.`
  unfoldable pub access_of : Expression → Find Expression
  access_of pe =
      expect (token TokenType.identifier) (fail_with (codes "Expected an identifier after '.'"))
        λ ident. found (access pe ident.tval)

  -- The loop of `PostfixExpression`: a round that finds none of the brackets and the dot is the last.
  unfoldable pub postfix_loop : ℕ → Expression → Find Expression
  unfolding cast_of call_of index_of access_of
  postfix_loop zero pe = stops
  postfix_loop (suc fuel) pe =
      let again = λ (m : Find Expression). expect m not_found λ e. postfix_loop fuel e in
      cast_of pe >>= λ pe'.
      when_found (token TokenType.open_curved) (λ _. again (call_of pe'))
        (when_found (token TokenType.open_square) (λ _. again (index_of pe'))
          (when_found (token TokenType.dot) (λ _. again (access_of pe')) (found pe')))

  unfoldable pub postfix_expression : Find Expression
  unfolding postfix_loop primary_expression
  postfix_expression =
      expect (primary_expression c) not_found λ pe. with_rounds λ fuel. postfix_loop fuel pe

  -- The loop over the unary operators
  unfoldable pub unary_among : List (TokenType × UnaryOperator) → Find Expression
  unfolding postfix_expression
  unary_among [] = postfix_expression
  unary_among ((ty, op) ∷ operators) =
      when_found (token ty)
        (λ _.
          expect postfix_expression
            (log_description c (codes "Expecting expression after " ++ c.format.int (type_code ty))
              >> not_found)
            λ e. found (unary op e))
        (unary_among operators)

  unfoldable pub unary_expression : Find Expression
  unfolding unary_among
  unary_expression = unary_among unary_operators

  unfoldable pub multiplicative_expression : Find Expression
  unfolding binary_infix_expression unary_expression
  multiplicative_expression = binary_infix_expression multiplicative_operators unary_expression

  unfoldable pub additive_expression : Find Expression
  unfolding binary_infix_expression multiplicative_expression
  additive_expression = binary_infix_expression additive_operators multiplicative_expression

  unfoldable pub relational_expression : Find Expression
  unfolding binary_infix_expression additive_expression
  relational_expression = binary_infix_expression relational_operators additive_expression

  unfoldable pub equality_expression : Find Expression
  unfolding binary_infix_expression relational_expression
  equality_expression = binary_infix_expression equality_operators relational_expression

  unfoldable pub logical_and_expression : Find Expression
  unfolding binary_infix_expression equality_expression
  logical_and_expression = binary_infix_expression and_operators equality_expression

  unfoldable pub logical_or_expression : Find Expression
  unfolding binary_infix_expression logical_and_expression
  logical_or_expression = binary_infix_expression or_operators logical_and_expression

  unfoldable pub allocation_expression : Find Expression
  unfolding logical_or_expression
  allocation_expression =
      save
      >> (token TokenType.new >>= λ allocated.
          expect logical_or_expression (reject >> not_found)
            λ lor. accept >> found (elim allocated [ none ↦ lor | some _ ↦ new lor ]))
