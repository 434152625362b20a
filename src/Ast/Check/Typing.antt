-- ===== src/Ast/Check/Typing.antt =====
-- src/ast/expressions.go, closure.go and worker-expressions.go: the types that expressions have in a
-- scope, as rules. A method of a vector may add to the scope, so a rule has a scope before and after.
pub mod Verdicts
pub mod Nodes
pub mod Calls
pub mod Sound
use eyot.Prelude.{
  ℕ, ◌≡◌, Bool, true, false, none, some, List, [], ◌∷◌, codes, Text, ◌==◌, ok, ◌>>=◌, NoError,
}
use eyot.Ast.Ids.{StructId}
use eyot.Ast.Structs.{struct_type}
use eyot.Ast.Types.{
  Ty, Types, nil, TypeSelector, types, return_type, plain, make_void, make_pointer, make_vector,
  count_types, is_callable, pointed, unwrapped,
}
use eyot.Ast.Scope.{Scope, VariableBinding, lookup_variable_type}
use eyot.Ast.Syntax.{
  Expression, Expressions, Pairs, FunctionReference, BinaryOperator, UnaryOperator, PipeDestination,
}
use eyot.Ast.Check.Nodes.{
  Typed, Node, own, has_selector, float_type, builtin_type, pointed_at, received_type, closure_type,
  count_expressions, worker_type,
}
use eyot.Ast.Check.Operators.{boolean_type, integer_type}
use eyot.Ast.Check.Parts.{is_print}
use eyot.Ast.Check.Operands.{
  Combines, Applies, MemberOf, ElementOf, MethodScope, AllAssign, Serves, Joins, collect,
}

mutual
  pub data Infers : Scope → Expression → Node → Scope → Type 0 where
    null_literal :
        {s : Scope} → Infers s Expression.null_literal (own (ok (plain TypeSelector.null nil))) s
    cast :
        {s s' : Scope} {ty : Ty} {e : Expression} {n : Node}
        → Infers s e n s'
        → Infers s (Expression.cast ty e) (own (ok ty)) s'
    self_terminal :
        {s : Scope} (b : VariableBinding)
        → lookup_variable_type s (codes "__self__") ≡ some b
        → Infers s Expression.self_terminal (own (ok b.variable_type)) s
    boolean : {s : Scope} {b : Bool} → Infers s (Expression.boolean b) (own (ok boolean_type)) s
    character :
        {s : Scope} {c : ℕ}
        → Infers s (Expression.character c) (own (ok (plain TypeSelector.character nil))) s
    integer : {s : Scope} {n : ℕ} → Infers s (Expression.integer n) (own (ok integer_type)) s
    string :
        {s : Scope} {t : Text}
        → Infers s (Expression.string t) (own (ok (plain TypeSelector.string nil))) s
    float :
        {s : Scope} {l z r w : ℕ} → Infers s (Expression.float l z r w) (own (ok (float_type w))) s
    gpu_builtin :
        {s : Scope} {name : Text}
        → (builtin_type name).1 ≡ true
        → Infers s (Expression.gpu_builtin name) (own (ok (builtin_type name).0)) s
    reference :
        {s : Scope} {name : Text} {r : FunctionReference}
        → Infers s (Expression.identifier name (some r)) (own (ok r.cached_type)) s
    variable :
        {s : Scope} {name : Text} (b : VariableBinding)
        → lookup_variable_type s name ≡ some b
        → Infers s (Expression.identifier name none) (own (ok b.variable_type)) s
    struct_literal :
        {s s' : Scope} {id : StructId} {ps : Pairs}
        → InfersPairs s ps s'
        → Infers s (Expression.struct_literal id ps) (own (ok (struct_type id))) s'
    tuple :
        {s s' : Scope} {es : Expressions} {ts : List Typed} (tys : Types)
        → InfersEach s es ts s'
        → collect ts ≡ ok tys
        → Infers s (Expression.tuple es) (own (ok (plain TypeSelector.tuple tys))) s'
    access :
        {s s' : Scope} {e : Expression} {name : Text} {n : Node} (accessed ty t : Ty)
        → Infers s e n s'
        → n.type ≡ ok accessed
        → unwrapped {E = NoError} accessed ≡ ok ty
        → MemberOf s' name ty t
        → Infers s (Expression.access e name) (record { type = ok t; accessed = some n.type }) s'
    binary :
        {s s1 s2 : Scope} {op : BinaryOperator} {l r : Expression} {n m : Node} (lt rt ty : Ty)
        → Infers s l n s1
        → Infers s1 r m s2
        → n.type ≡ ok lt
        → m.type ≡ ok rt
        → Combines op lt rt ty
        → Infers s (Expression.binary op l r) (own (ok ty)) s2
    unary :
        {s s' : Scope} {op : UnaryOperator} {e : Expression} {n : Node} (ty t : Ty)
        → Infers s e n s'
        → n.type ≡ ok ty
        → Applies ty op t
        → Infers s (Expression.unary op e) (own (ok t)) s'
    index :
        {s s1 s2 : Scope} {e i : Expression} {n m : Node} (indexed ty it t : Ty)
        → Infers s e n s1
        → Infers s1 i m s2
        → n.type ≡ ok indexed
        → unwrapped {E = NoError} indexed ≡ ok ty
        → ElementOf ty t
        → m.type ≡ ok it
        → has_selector TypeSelector.integer it ≡ true
        → Infers s (Expression.index e i) (own (ok t)) s2
    print :
        {s s' : Scope} {e : Expression} {es : Expressions} {ts : List Typed}
        → is_print e ≡ true
        → InfersEach s es ts s'
        → Infers s (Expression.call e es) (own (ok make_void)) s'
    call :
        {s s1 s2 s3 : Scope} {e : Expression} {es : Expressions} {n : Node} {ts : List Typed}
        (ty r : Ty)
        → is_print e ≡ false
        → Infers s e n s1
        → MethodScope s1 n.accessed s2
        → InfersEach s2 es ts s3
        → n.type ≡ ok ty
        → is_callable ty ≡ true
        → pointed {E = NoError} (return_type ty) ≡ ok r
        → Infers s (Expression.call e es) (own (ok r)) s3
    new :
        {s s' : Scope} {e : Expression} {n : Node} (ty : Ty)
        → Infers s e n s'
        → n.type ≡ ok ty
        → Infers s (Expression.new e) (own (ok (make_pointer ty))) s'
    dereference :
        {s s' : Scope} {e : Expression} {n : Node}
        → Infers s e n s'
        → Infers s (Expression.dereference e) (own (n.type >>= pointed_at)) s'
    vector_literal :
        {s s' : Scope} {ty : Ty} {es : Expressions} {ts : List Typed}
        → InfersEach s es ts s'
        → AllAssign ty ts
        → Infers s (Expression.vector_literal ty es) (own (ok (make_vector ty))) s'
    range :
        {s s1 s2 s3 : Scope} {c b t : Expression} {n m k : Node} (x y z : Ty)
        → Infers s c n s1
        → Infers s1 b m s2
        → Infers s2 t k s3
        → n.type ≡ ok x
        → m.type ≡ ok y
        → k.type ≡ ok z
        → has_selector TypeSelector.integer x ≡ true
        → has_selector TypeSelector.integer y ≡ true
        → has_selector TypeSelector.integer z ≡ true
        → Infers s (Expression.range c b t) (own (ok (make_vector integer_type))) s3
    closure :
        {s s' : Scope} {e : Expression} {es : Expressions} {n : Node} (ty : Ty)
        → Infers s e n s'
        → n.type ≡ ok ty
        → (count_types (types ty) == count_expressions es) ≡ true
        → Infers s (Expression.closure e es) (own (closure_type es ty)) s'
    create_worker :
        {s s' : Scope} {e : Expression} {d : PipeDestination} {n : Node} (ty send receive : Ty)
        → Infers s e n s'
        → n.type ≡ ok ty
        → Serves ty send receive
        → Infers s (Expression.create_worker e d) (own (ok (worker_type send receive))) s'
    receive_worker :
        {s s' : Scope} {e : Expression} {all : Bool} {n : Node} (ty : Ty)
        → Infers s e n s'
        → n.type ≡ ok ty
        → has_selector TypeSelector.worker ty ≡ true
        → Infers s (Expression.receive_worker e all) (own (received_type all ty)) s'
    create_pipeline :
        {s s1 s2 : Scope} {l r : Expression} {n m : Node} (lt rt send receive : Ty)
        → Infers s l n s1
        → Infers s1 r m s2
        → n.type ≡ ok lt
        → m.type ≡ ok rt
        → Joins lt rt send receive
        → Infers s (Expression.create_pipeline l r) (own (ok (worker_type send receive))) s2

  pub data InfersPairs : Scope → Pairs → Scope → Type 0 where
    no_pairs : {s : Scope} → InfersPairs s Pairs.no_pairs s
    pair :
        {s s1 s2 : Scope} {name : Text} {e : Expression} {ps : Pairs} {n : Node}
        → Infers s e n s1
        → InfersPairs s1 ps s2
        → InfersPairs s (Pairs.pair name e ps) s2

  pub data InfersEach : Scope → Expressions → List Typed → Scope → Type 0 where
    no_expressions : {s : Scope} → InfersEach s Expressions.no_expressions [] s
    entry :
        {s s1 s2 : Scope} {e : Expression} {es : Expressions} {n : Node} {ts : List Typed}
        → Infers s e n s1
        → InfersEach s1 es ts s2
        → InfersEach s (Expressions.entry e es) (n.type ∷ ts) s2
