-- ===== src/Ast/Check/Operators.antt =====
-- src/ast/expressions.go: the types that `Check` takes and gives for the operators, in the pass
-- KPassSetTypes.
use eyot.Prelude.{Bool, ◌&&◌, ◌||◌, codes, Text, ltb, if◌then◌else◌, ok, ◌>>=◌}
use eyot.Ast.Types.{
  Ty, nil, TypeSelector, width, plain, make_pointer, is_numeric, Checked, equal,
  numerically_compatible,
}
use eyot.Ast.Syntax.{BinaryOperator, UnaryOperator}
use eyot.Ast.Check.Nodes.{has_selector}

-- What an operator makes of the types of its operands.
pub data Verdict : Type 0 where
  accepts : Ty → Verdict
  rejects : Text → Verdict

abbrev pub boolean_type : Ty
boolean_type = plain TypeSelector.boolean nil

abbrev pub integer_type : Ty
integer_type = plain TypeSelector.integer nil

unfoldable pub arithmetic_type_combine : Ty → Ty → Ty
arithmetic_type_combine lhs rhs =
    if has_selector TypeSelector.float lhs && has_selector TypeSelector.float rhs
    then if ltb (width rhs) (width lhs) then lhs else rhs
    else lhs

abbrev pub null_and_pointer : Ty → Ty → Bool
null_and_pointer a b = has_selector TypeSelector.null a && has_selector TypeSelector.pointer b

abbrev pub accepts_if : Text → Ty → Bool → Verdict
accepts_if message ty b = if b then accepts ty else rejects message

-- The cases of the switch in `BinaryExpression.Check`
abbrev pub arithmetic_verdict : Text → Ty → Ty → Checked Verdict
arithmetic_verdict emsg lt rt =
    numerically_compatible lt rt >>= λ b. ok (accepts_if emsg (arithmetic_type_combine lt rt) b)

abbrev pub equality_verdict : Text → Ty → Ty → Checked Verdict
equality_verdict emsg lt rt =
    if null_and_pointer rt lt || null_and_pointer lt rt
    then ok (accepts boolean_type)
    else (equal lt rt >>= λ b. ok (accepts_if emsg boolean_type b))

abbrev pub order_verdict : Text → Ty → Ty → Checked Verdict
order_verdict emsg lt rt = equal lt rt >>= λ b. ok (accepts_if emsg boolean_type b)

abbrev pub modulo_verdict : Ty → Ty → Checked Verdict
modulo_verdict lt rt = ok (
    if has_selector TypeSelector.integer lt
    then accepts_if (codes "Right hand side of '%' must be integer") lt
        (has_selector TypeSelector.integer rt)
    else rejects (codes "Left hand side of '%' must be integer"))

unfoldable pub binary_verdict : Text → BinaryOperator → Ty → Ty → Checked Verdict
unfolding arithmetic_type_combine
binary_verdict emsg BinaryOperator.add = arithmetic_verdict emsg
binary_verdict emsg BinaryOperator.subtract = arithmetic_verdict emsg
binary_verdict emsg BinaryOperator.multiply = arithmetic_verdict emsg
binary_verdict emsg BinaryOperator.divide = arithmetic_verdict emsg
binary_verdict emsg BinaryOperator.modulo = modulo_verdict
binary_verdict emsg BinaryOperator.equality = equality_verdict emsg
binary_verdict emsg BinaryOperator.inequality = equality_verdict emsg
binary_verdict emsg BinaryOperator.lt = order_verdict emsg
binary_verdict emsg BinaryOperator.lte = order_verdict emsg
binary_verdict emsg BinaryOperator.gt = order_verdict emsg
binary_verdict emsg BinaryOperator.gte = order_verdict emsg
binary_verdict emsg BinaryOperator.and = order_verdict emsg
binary_verdict emsg BinaryOperator.or = order_verdict emsg

-- The cases of the switch in `UnaryExpression.Check`
unfoldable pub unary_verdict : UnaryOperator → Ty → Verdict
unary_verdict UnaryOperator.not ty =
    accepts_if (codes "Not operator cannot be applied to non-boolean type") boolean_type
      (has_selector TypeSelector.boolean ty)
unary_verdict UnaryOperator.address_of ty = accepts (make_pointer ty)
unary_verdict UnaryOperator.negate ty =
    accepts_if (codes "Negation operator cannot be applied to non-numeric type") ty (is_numeric ty)
