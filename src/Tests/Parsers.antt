-- ===== src/Tests/Parsers.antt =====
-- The parser of src/parser on short lists of tokens.
use eyot.Prelude.{ℕ, none, some, List, [], ◌∷◌, codes, ◌≡◌, refl, arith}
use eyot.Token.Kinds.{TokenType}
use eyot.Token.Printed.{type_code}
use eyot.Errors.{errorf, set_current_location}
use eyot.Ast.Syntax.{Expression, BinaryOperator, binary, integer}
use eyot.Parser.State.{
  ParserState, Find, done, over, location_at, token, save, accept, reject, get_token, position,
}
use eyot.Parser.Calls.{Calls, token_among}
use eyot.Parser.Types.Starts.{Spelled}
use eyot.Parser.Operators.{
  allocation_expression, logical_and_expression, equality_expression, relational_expression,
  additive_expression, multiplicative_expression, binary_infix_expression, binary_infix_loop,
  unary_expression, unary_among, postfix_expression, postfix_loop, cast_of, logical_or_expression,
  additive_operators, multiplicative_operators, relational_operators, equality_operators,
  and_operators, or_operators,
}
use eyot.Parser.Operators.Precedence.{
  Operators, Reads, Grammar, Operands, operator_at, logical_or_expression-Grammar,
}
use eyot.Parser.Literals.{primary_expression, literal_value_expression, terminal}
use eyot.Parser.Prefixed.{prefixed_expression}
use eyot.Parser.Prefixed.Receive.{prefixed_expression-receive}
use eyot.Parser.Module.{grammar}
use eyot.Tests.States.{mark_token, number, parser_at, some_format}

-- `1 + 2 * 3 }`
abbrev sum_tokens : ParserState
sum_tokens = parser_at (
    number 1
    ∷ mark_token TokenType.plus
    ∷ number 2
    ∷ mark_token TokenType.multiply
    ∷ number 3
    ∷ mark_token TokenType.close_curly
    ∷ [])

abbrev some_calls : Calls
some_calls = grammar 1 some_format

abbrev operand : Find Expression
operand = unary_expression some_calls

one-Reads : Reads sum_tokens operand 0 1 (integer 1)
unfolding unary_expression unary_among postfix_expression postfix_loop cast_of primary_expression
    literal_value_expression terminal token save get_token position accept reject type_code
one-Reads = (omega arith, λ fs. refl)

two-Reads : Reads sum_tokens operand 2 3 (integer 2)
unfolding unary_expression unary_among postfix_expression postfix_loop cast_of primary_expression
    literal_value_expression terminal token save get_token position accept reject type_code
two-Reads = (omega arith, λ fs. refl)

three-Reads : Reads sum_tokens operand 4 5 (integer 3)
unfolding unary_expression unary_among postfix_expression postfix_loop cast_of primary_expression
    literal_value_expression terminal token save get_token position accept reject type_code
three-Reads = (omega arith, λ fs. refl)

-- A chain of one operand
alone :
    (operators : Operators) (tables : List Operators) (i j : ℕ) (e : Expression)
    → operator_at sum_tokens operators j ≡ none
    → Grammar sum_tokens tables operand i j e
    → Grammar sum_tokens (operators ∷ tables) operand i j e
unfolding Grammar Operands
alone operators tables i j e h g = (j, (e, ([], (g, ((refl, h), refl)))))

logical_or_expression-Grammar_example :
    logical_or_expression some_calls (over sum_tokens (0 ∷ []))
    ≡ done
        (some (
          binary BinaryOperator.add
            (integer 1)
            (binary BinaryOperator.multiply (integer 2) (integer 3))))
        (over sum_tokens (5 ∷ []))
unfolding Grammar Operands operator_at type_code
logical_or_expression-Grammar_example =
    let tables1 = multiplicative_operators ∷ [] in
    let tables2 = additive_operators ∷ tables1 in
    let tables3 = relational_operators ∷ tables2 in
    let tables4 = equality_operators ∷ tables3 in
    let tables5 = and_operators ∷ tables4 in
    let product = binary BinaryOperator.multiply (integer 2) (integer 3) in
    let tree = binary BinaryOperator.add (integer 1) product in
    let left = alone multiplicative_operators [] 0 1 (integer 1) refl one-Reads in
    let right : Grammar sum_tokens tables1 operand 2 5 product = (
      3,
      (
        integer 2,
        (
          (BinaryOperator.multiply, integer 3) ∷ [],
          (two-Reads, ((refl, (5, (three-Reads, (refl, refl)))), refl)),
        ),
      ),
    ) in
    let sum : Grammar sum_tokens tables2 operand 0 5 tree = (
      1,
      (
        integer 1,
        ((BinaryOperator.add, product) ∷ [], (left, ((refl, (5, (right, (refl, refl)))), refl))),
      ),
    ) in
    logical_or_expression-Grammar some_calls sum_tokens 0 5 [] tree (
      alone or_operators tables5 0 5 tree refl (
        alone and_operators tables4 0 5 tree refl (
          alone equality_operators tables3 0 5 tree refl
            (alone relational_operators tables2 0 5 tree refl sum))))

-- `receive(1 }`
abbrev receive_tokens : ParserState
receive_tokens = parser_at (
    mark_token TokenType.receive
    ∷ mark_token TokenType.open_curved
    ∷ number 1
    ∷ mark_token TokenType.close_curly
    ∷ [])

receive_tokens-Reads : Reads receive_tokens (allocation_expression some_calls) 2 3 (integer 1)
unfolding allocation_expression logical_or_expression logical_and_expression equality_expression
    relational_expression additive_expression multiplicative_expression binary_infix_expression
    binary_infix_loop token_among unary_expression unary_among postfix_expression postfix_loop
    cast_of primary_expression literal_value_expression terminal token save get_token position
    accept reject type_code
receive_tokens-Reads = (omega arith, λ fs. refl)

prefixed_expression-receive_example :
    prefixed_expression some_calls (over receive_tokens (0 ∷ []))
    ≡ done none (record (over receive_tokens []) {
      es =
          errorf
            (set_current_location receive_tokens.es (location_at receive_tokens 3))
            (codes "Expecting ')' after expression in 'receive'");
    })
unfolding Spelled type_code
prefixed_expression-receive_example =
    prefixed_expression-receive some_calls receive_tokens 0 3 [] (integer 1)
      (mark_token TokenType.close_curly) (mark_token TokenType.receive, refl)
      (mark_token TokenType.open_curved, refl) receive_tokens-Reads refl refl
