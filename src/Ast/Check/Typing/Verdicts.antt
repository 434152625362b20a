-- ===== src/Ast/Check/Typing/Verdicts.antt =====
-- src/ast/expressions.go, closure.go and worker-expressions.go: what the check of a node whose parts
-- are checked does, for a judgement that a successful one has.
use eyot.Prelude.{
  ◌≡◌, refl, ap, ◌∙◌, Bool, true, false, ◌||◌, Text, codes, ok, ◌>>=◌, Safe, Safe-bind, Safe-self,
  if◌then◌else◌,
}
use eyot.Ast.Types.{Ty, TypeSelector, Checked, is_numeric, equal, numerically_compatible}
use eyot.Ast.Types.Fuel.{comparison-Ends}
use eyot.Ast.Syntax.{BinaryOperator, UnaryOperator}
use eyot.Ast.Check.Nodes.{has_selector}
use eyot.Ast.Check.Operands.{Combines, Applies, is_arithmetic, is_equality, is_comparison}
use eyot.Ast.Check.Operators.{
  Verdict, accepts, rejects, boolean_type, null_and_pointer, accepts_if, arithmetic_verdict,
  equality_verdict, order_verdict, modulo_verdict, binary_verdict, unary_verdict,
}

-- The type that a verdict accepts, if it does, has a property.
pub data Accepted (P : Ty → Type 0) : Verdict → Type 0 where
  accepting : {ty : Ty} → P ty → Accepted P (accepts ty)
  rejecting : {message : Text} → Accepted P (rejects message)

accepts_if-Accepted :
    (P : Ty → Type 0) (message : Text) (ty : Ty) (b : Bool)
    → (b ≡ true → P ty)
    → Accepted P (accepts_if message ty b)
accepts_if-Accepted P message ty true p = Accepted.accepting (p refl)
accepts_if-Accepted P message ty false p = Accepted.rejecting

answer-Accepted :
    (P : Ty → Type 0) (message : Text) (ty : Ty) (m : Checked Bool)
    → Safe (λ _. Unit {0}) m
    → (m ≡ ok true → P ty)
    → Safe (Accepted P) (m >>= λ b. ok (accepts_if message ty b))
answer-Accepted P message ty m ends p =
    Safe-bind (Safe-self ends)
      λ b e. Safe.returns (accepts_if-Accepted P message ty b λ t. p (e ∙ ap ok t))

||-cases : (a b : Bool) → (a || b) ≡ true → (P : Type 0) → (a ≡ true → P) → (b ≡ true → P) → P
||-cases true b h P p q = p refl
||-cases false b h P p q = q h

equality-Accepted :
    (emsg : Text) (op : BinaryOperator) (lt rt : Ty)
    → is_equality op ≡ true
    → is_comparison op ≡ true
    → Safe (Accepted (Combines op lt rt)) (equality_verdict emsg lt rt)
equality-Accepted emsg op lt rt q c = split (null_and_pointer rt lt || null_and_pointer lt rt) refl
  where
    split :
        (b : Bool)
        → (null_and_pointer rt lt || null_and_pointer lt rt) ≡ b
        → Safe (Accepted (Combines op lt rt)) (
            if b
            then ok (accepts boolean_type)
            else (equal lt rt >>= λ same. ok (accepts_if emsg boolean_type same)))
    split true e = Safe.returns (
        Accepted.accepting
          (||-cases _ _ e _ (λ h. Combines.null_right q h) λ h. Combines.null_left q h))
    split false e =
        answer-Accepted _ emsg boolean_type (equal lt rt) (comparison-Ends lt rt).0
          λ h. Combines.comparison c h

order-Accepted :
    (emsg : Text) (op : BinaryOperator) (lt rt : Ty)
    → is_comparison op ≡ true
    → Safe (Accepted (Combines op lt rt)) (order_verdict emsg lt rt)
order-Accepted emsg op lt rt c =
    answer-Accepted _ emsg boolean_type (equal lt rt) (comparison-Ends lt rt).0
      λ h. Combines.comparison c h

arithmetic-Accepted :
    (emsg : Text) (op : BinaryOperator) (lt rt : Ty)
    → is_arithmetic op ≡ true
    → Safe (Accepted (Combines op lt rt)) (arithmetic_verdict emsg lt rt)
arithmetic-Accepted emsg op lt rt a =
    answer-Accepted _ emsg _ (numerically_compatible lt rt) (comparison-Ends lt rt).1
      λ h. Combines.arithmetic a h

modulo-Accepted :
    (lt rt : Ty) → Safe (Accepted (Combines BinaryOperator.modulo lt rt)) (modulo_verdict lt rt)
modulo-Accepted lt rt = Safe.returns (split (has_selector TypeSelector.integer lt) refl)
  where
    split :
        (b : Bool)
        → has_selector TypeSelector.integer lt ≡ b
        → Accepted (Combines BinaryOperator.modulo lt rt) (
            if b
            then accepts_if
                (codes "Right hand side of '%' must be integer")
                lt
                (has_selector TypeSelector.integer rt)
            else rejects (codes "Left hand side of '%' must be integer"))
    split true e =
        accepts_if-Accepted (Combines BinaryOperator.modulo lt rt) _ lt
          (has_selector TypeSelector.integer rt) λ h. Combines.modulo refl e h
    split false e = Accepted.rejecting

pub binary_verdict-Accepted :
    (emsg : Text) (op : BinaryOperator) (lt rt : Ty)
    → Safe (Accepted (Combines op lt rt)) (binary_verdict emsg op lt rt)
unfolding binary_verdict
binary_verdict-Accepted emsg BinaryOperator.add lt rt = arithmetic-Accepted emsg _ lt rt refl
binary_verdict-Accepted emsg BinaryOperator.subtract lt rt = arithmetic-Accepted emsg _ lt rt refl
binary_verdict-Accepted emsg BinaryOperator.multiply lt rt = arithmetic-Accepted emsg _ lt rt refl
binary_verdict-Accepted emsg BinaryOperator.divide lt rt = arithmetic-Accepted emsg _ lt rt refl
binary_verdict-Accepted emsg BinaryOperator.modulo lt rt = modulo-Accepted lt rt
binary_verdict-Accepted emsg BinaryOperator.equality lt rt =
    equality-Accepted emsg _ lt rt refl refl
binary_verdict-Accepted emsg BinaryOperator.inequality lt rt =
    equality-Accepted emsg _ lt rt refl refl
binary_verdict-Accepted emsg op lt rt = order-Accepted emsg _ lt rt refl

pub unary_verdict-Accepted :
    (op : UnaryOperator) (ty : Ty) → Accepted (Applies ty op) (unary_verdict op ty)
unfolding unary_verdict
unary_verdict-Accepted UnaryOperator.not ty =
    accepts_if-Accepted (Applies ty UnaryOperator.not) _ boolean_type
      (has_selector TypeSelector.boolean ty) λ h. Applies.negation h
unary_verdict-Accepted UnaryOperator.address_of ty = Accepted.accepting Applies.address
unary_verdict-Accepted UnaryOperator.negate ty =
    accepts_if-Accepted (Applies ty UnaryOperator.negate) _ ty (is_numeric ty)
      λ h. Applies.negative h
