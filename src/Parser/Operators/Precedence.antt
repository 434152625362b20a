-- ===== src/Parser/Operators/Precedence.antt =====
-- src/parser/parser.go: the six levels of binary operators, against the grammar that they stand for.
use eyot.Prelude.{
  ℕ, zero, suc, ◌-◌, ◌≤◌, ◌<◌, Option, Option-cases, inl, inr, none, some, List, [], ◌∷◌, length,
  get_elem?, get_elem?-bound, ◌≡◌, ap, sym, ◌∙◌, arith, if◌then◌else◌,
}
use eyot.Token.Kinds.{TokenType}
use eyot.Token.Printed.{same_type}
use eyot.Ast.Syntax.{Expression, BinaryOperator, binary}
use eyot.Parser.State.{ParserState, Find, done, over}
use eyot.Parser.State.Moves.{token_lem}
use eyot.Parser.Calls.{Calls, token_among}
use eyot.Parser.Operators.{
  binary_infix_loop, binary_infix_expression, unary_expression, multiplicative_expression,
  additive_expression, relational_expression, equality_expression, logical_and_expression,
  logical_or_expression,
}

abbrev pub Operators : Type 0
Operators = List (TokenType × BinaryOperator)

-- The operator that a kind of token stands for
abbrev operator_of : Operators → TokenType → Option BinaryOperator
operator_of [] ty = none
operator_of ((kind, op) ∷ operators) ty =
    if same_type ty kind then some op else operator_of operators ty

-- The operator at a position
unfoldable pub operator_at : ParserState → Operators → ℕ → Option BinaryOperator
operator_at p operators i = elim (get_elem? p.tokens i) [
  | none ↦ none
  | some tok ↦ operator_of operators tok.type
]

-- `((e op e1) op e2) ...`
abbrev pub nested : Expression → List (BinaryOperator × Expression) → Expression
nested e [] = e
nested e ((op, r) ∷ rs) = nested (binary op e r) rs

-- A call reads an expression from one position to a later one, whatever the outer positions.
abbrev pub Reads : ParserState → Find Expression → ℕ → ℕ → Expression → Type 0
Reads p next i j e =
    (i < j) × ((fs : List ℕ) → next (over p (i ∷ fs)) ≡ done (some e) (over p (j ∷ fs)))

-- The levels of the tables over one call
abbrev levels : List Operators → Find Expression → Find Expression
levels [] next = next
levels (operators ∷ tables) next = binary_infix_expression operators (levels tables next)

-- The precedence of the language, the loosest first: `||`, then `&&`, then `==` and `!=`, then the four
-- orders, then `+` and `-`, and `*`, `/` and `%` last.
abbrev pub language_tables : List Operators
language_tables =
    ((TokenType.or, BinaryOperator.or) ∷ [])
    ∷ ((TokenType.and, BinaryOperator.and) ∷ [])
    ∷ ((TokenType.equality, BinaryOperator.equality)
        ∷ (TokenType.inequality, BinaryOperator.inequality)
        ∷ [])
    ∷ ((TokenType.greater_than, BinaryOperator.gt)
        ∷ (TokenType.greater_than_or_equal, BinaryOperator.gte)
        ∷ (TokenType.less_than, BinaryOperator.lt)
        ∷ (TokenType.less_than_or_equal, BinaryOperator.lte)
        ∷ [])
    ∷ ((TokenType.plus, BinaryOperator.add) ∷ (TokenType.minus, BinaryOperator.subtract) ∷ [])
    ∷ ((TokenType.multiply, BinaryOperator.multiply)
        ∷ (TokenType.divide, BinaryOperator.divide)
        ∷ (TokenType.percent, BinaryOperator.modulo)
        ∷ [])
    ∷ []

module _ (p : ParserState) where
  -- The operators with their right operands, read by `Operand`, up to where no operator stands
  unfoldable pub Operands :
      Operators
      → (ℕ → ℕ → Expression → Type 0)
      → List (BinaryOperator × Expression)
      → ℕ
      → ℕ
      → Type 0
  Operands operators Operand [] i j = (i ≡ j) × (operator_at p operators i ≡ none)
  Operands operators Operand ((op, e) ∷ rs) i j =
      (operator_at p operators i ≡ some op)
      × ((m : ℕ) × (Operand (suc i) m e × Operands operators Operand rs m j))

  -- The grammar with one level for each table, the loosest first: a level is one operand of the next
  -- level or more, which associate to the left. The last level is what `next` reads.
  unfoldable pub Grammar : List Operators → Find Expression → ℕ → ℕ → Expression → Type 0
  Grammar [] next i j e = Reads p next i j e
  Grammar (operators ∷ tables) next i j e =
      (m : ℕ) × ((first : Expression) × ((rs : List (BinaryOperator × Expression)) × (Grammar tables
              next i m first
            × (Operands operators (Grammar tables next) rs m j × (e ≡ nested first rs)))))

  token_among_lem :
      (operators : Operators) (i : ℕ) (fs : List ℕ)
      → token_among operators (over p (i ∷ fs)) ≡ elim (operator_at p operators i) [
        | none ↦ done none (over p (i ∷ fs))
        | some op ↦ done (some op) (over p (suc i ∷ fs))
      ]
  unfolding token_among operator_at
  token_among_lem [] i fs = ground arith
  token_among_lem ((kind, op) ∷ operators) i fs =
      ground (arith, token_lem p i fs kind, token_among_lem operators i fs)

  operator_at-bound :
      (operators : Operators) (i : ℕ) {op : BinaryOperator}
      → operator_at p operators i ≡ some op
      → i < length p.tokens
  unfolding operator_at
  operator_at-bound operators i e = elim (Option-cases (get_elem? p.tokens i)) [
    | inl n ↦ absurd (ground arith)
    | inr (tok, h) ↦ get_elem?-bound p.tokens i h
  ]

  module _ (operators : Operators) (Operand : ℕ → ℕ → Expression → Type 0)
      (next : Find Expression) where
    Operands-length :
        (forward : (i j : ℕ) (e : Expression) → Operand i j e → i < j)
        → (rs : List (BinaryOperator × Expression)) (i j : ℕ) → Operands operators Operand rs i j
        → (length rs ≤ length p.tokens - i) × (i ≤ j)
    unfolding Operands
    Operands-length forward [] i j (e, n) = (omega arith, omega (arith, e))
    Operands-length forward ((op, e) ∷ rs) i j (o, (m, (h, s))) =
        let bound = operator_at-bound operators i o in
        let less = forward (suc i) m e h in
        let rest = Operands-length forward rs m j s in
        (omega (arith, bound, less, rest.0), omega (arith, less, rest.1))

    binary_infix_loop_lem :
        (read : (i j : ℕ) (e : Expression) → Operand i j e → Reads p next i j e)
        → (rs : List (BinaryOperator × Expression)) (n i j : ℕ) (fs : List ℕ) (e : Expression)
        → length rs < n
        → Operands operators Operand rs i j
        → binary_infix_loop n operators next e (over p (i ∷ fs))
          ≡ done (some (nested e rs)) (over p (j ∷ fs))
    unfolding binary_infix_loop Operands
    binary_infix_loop_lem read rs zero i j fs e lt s = absurd (omega (arith, lt))
    binary_infix_loop_lem read [] (suc n) i j fs e lt (k, none_at) =
        rw (token_among_lem operators i fs, none_at) (ap (λ m. done (some e) (over p (m ∷ fs))) k)
    binary_infix_loop_lem read ((op, r) ∷ rs) (suc n) i j fs e lt (o, (m, (h, s))) =
        rw (token_among_lem operators i fs, o, (read (suc i) m r h).1 fs)
          (binary_infix_loop_lem read rs n m j fs (binary op e r) (omega (arith, lt)) s)

  Grammar-Reads :
      (tables : List Operators) (next : Find Expression) (i j : ℕ) (e : Expression)
      → Grammar tables next i j e
      → Reads p (levels tables next) i j e
  unfolding Grammar binary_infix_expression
  Grammar-Reads [] next i j e g = g
  Grammar-Reads (operators ∷ tables) next i j e (m, (first, (rs, (g, (s, k))))) =
      let read = Grammar-Reads tables next in
      let head = read i m first g in
      let rest =
        Operands-length operators (Grammar tables next) next (λ i' j' e' g'. (read i' j' e' g').0)
          rs m j s in
      (
        omega (arith, head.0, rest.1),
        λ fs. rw (head.1 fs) (
            binary_infix_loop_lem operators (Grammar tables next) (levels tables next) read rs
              (suc (length p.tokens)) m j fs first (omega (arith, rest.0)) s
            ∙ ap (λ e'. done (some e') (over p (j ∷ fs))) (sym k)),
      )

-- `LogicalOrExpression` implements its grammar: where the tokens from i to j are a chain of `||` over
-- chains of `&&` and so on down to `*`, `/` and `%`, over operands that `UnaryExpression` reads, and
-- every chain is as long as it can be, the call reads all of them and returns the tree in which each
-- chain associates to the left and the tighter operator is the deeper one.
pub logical_or_expression-Grammar :
    (c : Calls) (p : ParserState) (i j : ℕ) (fs : List ℕ) (e : Expression)
    → Grammar p language_tables (unary_expression c) i j e
    → logical_or_expression c (over p (i ∷ fs)) ≡ done (some e) (over p (j ∷ fs))
unfolding logical_or_expression logical_and_expression equality_expression relational_expression
    additive_expression multiplicative_expression
logical_or_expression-Grammar c p i j fs e g =
    (Grammar-Reads p language_tables (unary_expression c) i j e g).1 fs
