-- ===== src/Parser/Statements.antt =====
-- src/parser/parser.go: the statements and their blocks.
use eyot.Prelude.{
  ℕ, zero, suc, ◌+◌, ◌-◌, Option, none, some, List, [], ◌∷◌, ◌++◌, codes, succ, pred, ◌==◌,
  if◌then◌else◌,
}
use eyot.Token.Kinds.{TokenType}
use eyot.Ast.Syntax.{
  Expression, Statement, Block, Assign, AssignType, ModifyOperator, to_block, to_segments, assign,
  expression, if_statement, dummy, break, while, return_void, return_value, send_pipe, foreach,
  modify_in_place,
}
use eyot.Parser.State.{
  Parse, Find, ◌>>=◌, ◌>>◌, pure, reads, writes, stops, expect, when_found, not_found, found, token,
  fail_with, save, accept, reject, log_error, current_location, start_scope, end_scope,
}
use eyot.Parser.Calls.{Calls, with_rounds, token_among, eat_semicolons}
use eyot.Parser.LValues.{lvalue}
use eyot.Parser.Prefixed.{tuple_expression, add_struct_literal_ok}

abbrev pub enter_breakable : Parse (Unit {0})
enter_breakable = writes λ p. record p { break_ok = p.break_ok + 1 }

abbrev pub leave_breakable : Parse (Unit {0})
leave_breakable = writes λ p. record p { break_ok = p.break_ok - 1 }

abbrev pub modify_operators : List (TokenType × ModifyOperator)
modify_operators =
    (TokenType.plus_equals, ModifyOperator.plus)
    ∷ (TokenType.minus_equals, ModifyOperator.minus)
    ∷ (TokenType.times_equals, ModifyOperator.times)
    ∷ (TokenType.divide_equals, ModifyOperator.divide)
    ∷ []

unfoldable pub modify_operator : Find ModifyOperator
modify_operator = token_among modify_operators

unfoldable pub break_statement : Find Statement
break_statement = expect (token TokenType.break) not_found λ _. reads (λ p. p.break_ok) >>= λ depth.
    if depth == 0
    then fail_with (codes "Cannot break outside of a breakable block (e.g. for or while)")
    else found break

module _ (c : Calls) where
  unfoldable pub send_statement : Find Statement
  send_statement = expect (token TokenType.send) not_found λ _.
      expect (token TokenType.open_curved)
        (fail_with (codes "Expecting ( after 'send' first expression"))
        λ _. expect c.expression (fail_with (codes "Expecting expression after 'send'")) λ pipe.
          expect (token TokenType.comma)
            (fail_with (codes "Expecting comma after 'send' first expression"))
            λ _.
              expect c.expression (fail_with (codes "Expecting second values after 'send'"))
                λ value.
                  expect (token TokenType.close_curved)
                    (fail_with (codes "Expecting ) after 'send' first expression"))
                    λ _. found (send_pipe pipe value)

  -- An expression in which no struct literal follows a name
  abbrev pub plain_expression : Find Expression
  plain_expression =
      add_struct_literal_ok c (λ n. pred (pred n))
      >> (c.expression >>= λ e. add_struct_literal_ok c (λ n. succ (succ n)) >> pure e)

  unfoldable pub foreach_statement : Find Statement
  foreach_statement = expect (token TokenType.foreach) not_found λ _.
      expect (token TokenType.identifier) (fail_with (codes "Expecting identifier after 'for'"))
        λ name.
          expect (token TokenType.colon)
            (fail_with (codes "Expecting ':' after identifier in 'for'"))
            λ _.
              expect plain_expression (fail_with (codes "Expecting expression after ':' in 'for'"))
                λ iterable.
                  enter_breakable
                  >> expect c.statement_block
                      (fail_with (codes "Statement block expected after for statement"))
                      λ block. leave_breakable >> found (foreach name.tval iterable block)

  -- `LetLikeStatement`
  unfoldable pub let_like_statement : TokenType → AssignType → Find Assign
  let_like_statement tt_ at = expect (token tt_) not_found λ _.
      expect (lvalue c) (fail_with (codes "No lvalue found after let or const")) λ lv.
        expect (token TokenType.equals) (fail_with (codes "No equals found in let statement")) λ _.
          expect c.expression (fail_with (codes "No expression found in let statement"))
            λ e. found (record { type = at; lhs = lv; rhs = e })

  unfoldable pub let_statement : Find Statement
  unfolding let_like_statement
  let_statement =
      expect (let_like_statement TokenType.let_keyword AssignType.let_like) not_found
        λ a. found (assign a)

  unfoldable pub const_statement : Find Statement
  unfolding let_like_statement
  const_statement =
      expect (let_like_statement TokenType.const AssignType.const) not_found λ a. found (assign a)

  unfoldable pub modify_in_place_statement : Find Statement
  unfolding modify_operator
  modify_in_place_statement =
      save
      >> expect (lvalue c) (reject >> not_found) λ lv.
        expect modify_operator (reject >> not_found) λ mo.
          accept
          >> expect c.expression
              (fail_with (codes "Expression expected after modify in place operator"))
              λ e. found (modify_in_place mo lv e)

  unfoldable pub assign_statement : Find Statement
  assign_statement =
      save
      >> expect (lvalue c) (reject >> not_found) λ lv.
        expect (token TokenType.equals) (reject >> not_found) λ _.
          expect (tuple_expression c)
            (reject >> fail_with (codes "Expression expected after assignment"))
            λ rhs.
              accept >> found (assign (record { type = AssignType.normal; lhs = lv; rhs = rhs }))

  -- Where the condition is missing, `structLiteralOk` is left as it is.
  unfoldable pub while_statement : Find Statement
  while_statement = expect (token TokenType.while) not_found λ _.
      add_struct_literal_ok c (λ n. pred (pred n))
      >> expect c.expression (fail_with (codes "Expression expected after while statement"))
          λ condition.
            add_struct_literal_ok c (λ n. succ (succ n))
            >> (enter_breakable
                >> expect c.statement_block
                    (fail_with (codes "Statement block expected after while statement"))
                    λ block. leave_breakable >> found (while condition block))

  -- The loop over `elseif`, with the segments so far
  unfoldable pub else_ifs :
      ℕ → List (Option Expression × Block) → Find (List (Option Expression × Block))
  else_ifs zero segments = stops
  else_ifs (suc fuel) segments = expect (token TokenType.else_if) (found segments) λ _.
      expect c.expression (fail_with (codes "Expression expected after elseif statement"))
        λ condition.
          expect c.statement_block
            (fail_with (codes "Statement block expected after elseif statement"))
            λ block. else_ifs fuel (segments ++ (some condition, block) ∷ [])

  unfoldable pub else_part :
      List (Option Expression × Block) → Find (List (Option Expression × Block))
  else_part segments =
      when_found (token TokenType.else_keyword)
        (λ _.
          expect c.statement_block
            (fail_with (codes "Statement block expected after else statement"))
            λ block. found (segments ++ (none, block) ∷ []))
        (found segments)

  unfoldable pub if_statement_over : Find Statement
  unfolding else_ifs else_part
  if_statement_over = expect (token TokenType.if_keyword) not_found λ _.
      expect plain_expression (fail_with (codes "Expression expected after if statement"))
        λ condition.
          expect c.statement_block (fail_with (codes "Statement block expected after if statement"))
            λ block.
              expect (with_rounds λ fuel. else_ifs fuel ((some condition, block) ∷ [])) not_found
                λ segments.
                  expect (else_part segments) not_found
                    λ all. found (if_statement (to_segments all))

  unfoldable pub return_statement : Find Statement
  return_statement = expect (token TokenType.return) not_found λ _.
      save
      >> when_found (tuple_expression c) (λ e. accept >> found (return_value e))
          (reject >> found return_void)

  unfoldable pub expression_statement : Find Statement
  expression_statement = expect c.expression not_found λ e. found (expression e)

  -- The statements that are tried, in this order
  abbrev pub statement_kinds : List (Find Statement)
  statement_kinds =
      foreach_statement ∷ let_statement ∷ const_statement ∷ send_statement ∷ return_statement
      ∷ if_statement_over ∷ while_statement ∷ break_statement ∷ modify_in_place_statement
      ∷ assign_statement ∷ expression_statement ∷ []

  unfoldable pub first_statement : List (Find Statement) → Find Statement
  first_statement [] = not_found
  first_statement (kind ∷ kinds) =
      expect kind (first_statement kinds) λ cs. eat_semicolons >> found cs

  unfoldable pub statement : Find Statement
  unfolding first_statement foreach_statement let_statement const_statement send_statement
      return_statement if_statement_over while_statement break_statement modify_in_place_statement
      assign_statement expression_statement
  statement = eat_semicolons >> first_statement statement_kinds

  -- The loop of `StatementBlock`: each statement follows its location.
  unfoldable pub statements : ℕ → List Statement → Parse (List Statement)
  unfolding statement
  statements zero ss = stops
  statements (suc fuel) ss = current_location >>= λ loc.
      expect statement (pure ss) λ s. statements fuel (ss ++ dummy loc ∷ s ∷ [])

  -- `StatementBlock`, over the calls for its parts; the scope ends on every way out.
  unfoldable pub statement_block_over : Find Block
  unfolding statements
  statement_block_over = expect (token TokenType.open_curly) not_found λ _.
      start_scope
      >> ((with_rounds λ fuel. statements fuel []) >>= λ ss.
          token TokenType.close_curly >>= λ close. elim close [
            | none ↦
                log_error (codes "StatementBlock(): No close curly found")
                >> (end_scope >> not_found)
            | some _ ↦ end_scope >> found (to_block ss)
          ])
