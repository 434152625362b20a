-- ===== src/Parser/Prefixed.antt =====
-- src/parser/parser.go: the expressions that begin with a word of their own, and tuples.
pub mod Receive
use eyot.Prelude.{
  ℕ, zero, suc, Bool, true, false, Option, none, some, List, [], ◌∷◌, ◌++◌, map, Text, codes, succ,
  pred, ℤ,
}
use eyot.Token.Kinds.{TokenType}
use eyot.Ast.Syntax.{
  Expression, Expressions, no_expressions, entry, nil_entry, to_expressions, PipeDestination,
  integer, range, dereference, receive_worker, closure, create_pipeline, create_worker, tuple,
}
use eyot.Parser.State.{
  Parse, Find, ◌>>=◌, ◌>>◌, pure, stops, writes, expect, when_found, not_found, found, token,
  fail_with, save, accept, reject, log_error,
}
use eyot.Parser.Calls.{Calls, with_rounds, token_among, fail_expecting, log_expecting_error}
use eyot.Parser.Literals.{primary_expression, expression_list}
use eyot.Parser.Operators.{allocation_expression}

-- `Count`, `Start` and `Step` of a range with one to three values
abbrev pub range_of : Expression → List Expression → Expression
range_of e [] = range e (integer 0) (integer 1)
range_of e (count ∷ []) = range count e (integer 1)
range_of e (count ∷ step ∷ _) = range count e step

module _ (c : Calls) where
  -- The loop over the two optional values of a range
  unfoldable pub range_values : ℕ → List Expression → Find (List Expression)
  range_values zero vals = found vals
  range_values (suc n) vals =
      when_found (token TokenType.comma)
        (λ _.
          expect c.expression (fail_with (codes "Expecting expression after ','"))
            λ e. range_values n (vals ++ e ∷ []))
        (range_values n vals)

  -- After `range`
  unfoldable pub range_expression : Find Expression
  unfolding range_values
  range_expression =
      accept
      >> expect (token TokenType.open_curved) (fail_with (codes "Expecting '(' after 'range'")) λ _.
        expect c.expression (fail_with (codes "Expecting expression after 'range('")) λ e.
          expect (range_values 2 []) not_found λ vals.
            expect (token TokenType.close_curved) (fail_with (codes "Expecting ')' after 'range'"))
              λ _. found (range_of e vals)

  -- After `*`
  unfoldable pub dereference_expression : Find Expression
  dereference_expression =
      expect (allocation_expression c) (reject >> not_found)
        λ alloc. accept >> found (dereference alloc)

  -- After `drain`
  unfoldable pub drain_expression : Find Expression
  drain_expression =
      expect (token TokenType.open_curved)
        (log_error (codes "Expecting '(' after 'drain'") >> (reject >> not_found))
        λ _. expect (allocation_expression c) (reject >> not_found) λ pipe.
          accept
          >> expect (token TokenType.close_curved)
              (fail_with (codes "Expecting ')' after expression in 'drain'"))
              λ _. found (receive_worker pipe true)

  abbrev pub closure_of : Expression → Expressions → Find Expression
  closure_of pe no_expressions =
      fail_with (codes "There is no reason to partially apply a function of 0 arguments")
  closure_of pe (entry e es) = accept >> found (closure pe (entry e es))
  closure_of pe (nil_entry es) = accept >> found (closure pe (nil_entry es))

  -- After `partial`
  unfoldable pub partial_expression : Find Expression
  partial_expression =
      expect (primary_expression c)
        (fail_expecting c (codes "primary expression") (codes "partial expression"))
        λ pe.
          expect (token TokenType.open_curved)
            (fail_expecting c (codes "(") (codes "partial expression"))
            λ _. expect (expression_list c true false) (reject >> not_found) λ el.
              expect (token TokenType.close_curved)
                (fail_expecting c (codes ")") (codes "partial expression")) λ _. closure_of pe el

  -- After `pipeline`
  unfoldable pub pipeline_expression : Find Expression
  pipeline_expression =
      expect c.expression (fail_expecting c (codes "expression") (codes "pipeline (1)")) λ lhs.
        expect c.expression (fail_expecting c (codes "expression") (codes "pipeline (2)"))
          λ rhs. accept >> found (create_pipeline lhs rhs)

  -- After `receive`: the error behind the accepted frame rejects a second one.
  unfoldable pub receive_expression : Find Expression
  receive_expression =
      expect (token TokenType.open_curved)
        (log_error (codes "Expecting '(' after 'receive'") >> (reject >> not_found))
        λ _. expect (allocation_expression c) (reject >> not_found) λ pipe.
          accept
          >> expect (token TokenType.close_curved)
              (log_error (codes "Expecting ')' after expression in 'receive'")
                >> (reject >> not_found))
              λ _. found (receive_worker pipe false)

  -- After `cpu` or `gpu`
  unfoldable pub worker_expression : PipeDestination → Find Expression
  worker_expression dest =
      expect c.expression (reject >> not_found)
        λ worker. accept >> found (create_worker worker dest)

  unfoldable pub prefixed_expression : Find Expression
  unfolding range_expression dereference_expression drain_expression partial_expression
      pipeline_expression receive_expression worker_expression
  prefixed_expression =
      save
      >> when_found (token TokenType.range) (λ _. range_expression)
          (when_found (token TokenType.multiply) (λ _. dereference_expression)
            (when_found (token TokenType.drain) (λ _. drain_expression)
              (when_found (token TokenType.partial) (λ _. partial_expression)
                (when_found (token TokenType.pipeline) (λ _. pipeline_expression)
                  (when_found (token TokenType.receive) (λ _. receive_expression)
                    (when_found (token TokenType.cpu) (λ _. worker_expression PipeDestination.cpu)
                      (when_found (token TokenType.gpu) (λ _. worker_expression PipeDestination.gpu)
                        (reject >> allocation_expression c))))))))

  abbrev pub add_struct_literal_ok : (ℤ → ℤ) → Parse (Unit {0})
  add_struct_literal_ok step = writes λ p. record p { struct_literal_ok = step p.struct_literal_ok }

  -- `Expression`, over the calls for its parts
  unfoldable pub expression_over : Find Expression
  unfolding prefixed_expression
  expression_over =
      add_struct_literal_ok succ
      >> (prefixed_expression >>= λ e. add_struct_literal_ok pred >> pure e)

  -- The loop of `TupleExpression`
  unfoldable pub tuple_entries : ℕ → List Expression → Find (List Expression)
  tuple_entries zero es = stops
  tuple_entries (suc fuel) es = expect (token TokenType.comma) (found es) λ _.
      expect c.expression (fail_with (codes "Expecting expression after comma in expression list"))
        λ e. tuple_entries fuel (es ++ e ∷ [])

  abbrev pub tuple_of : Expression → List Expression → Expression
  tuple_of e [] = e
  tuple_of e (e' ∷ es) = tuple (to_expressions (map some (e ∷ e' ∷ es)))

  unfoldable pub tuple_expression : Find Expression
  unfolding tuple_entries
  tuple_expression = expect c.expression not_found λ leading.
      expect (with_rounds λ fuel. tuple_entries fuel []) not_found λ es. found (tuple_of leading es)
