-- ===== src/Ast/Syntax.antt =====
-- src/ast/expressions.go, statements.go, lvalues.go, closure.go, worker-expressions.go and tles.go:
-- the tree that the parser builds. A node has the fields that the parser sets; the passes over the
-- tree set the others later. The scope of a node is the one that it stands in.
use eyot.Prelude.{ℕ, Bool, Option, none, some, List, [], ◌∷◌, Text}
use eyot.Errors.{SourceLocation}
use eyot.Ast.Ids.{FunctionId, StructId}
use eyot.Ast.Structs.{FunctionDefinition, StructField}
use eyot.Ast.Types.{Ty}

pub data BinaryOperator : Type 0 where
  add subtract multiply divide equality inequality : BinaryOperator
  lt lte gt gte and or modulo : BinaryOperator

pub data UnaryOperator : Type 0 where
  not address_of negate : UnaryOperator

pub data PipeDestination : Type 0 where
  cpu gpu : PipeDestination

pub data AssignType : Type 0 where
  let_like const normal : AssignType

pub data ModifyOperator : Type 0 where
  plus minus times divide : ModifyOperator

-- What an identifier that names a function of another module carries: `Fid` and `CachedType`.
pub record FunctionReference : Type 0 where
  pub fid : FunctionId
  pub cached_type : Ty

-- `Expressions` is a Go slice, in which `nil_entry` is a nil expression, for a placeholder.
mutual
  pub data Expression : Type 0 where
    null_literal self_terminal : Expression
    cast : Ty → Expression → Expression
    boolean : Bool → Expression
    character integer : ℕ → Expression
    string gpu_builtin : Text → Expression
    identifier : Text → Option FunctionReference → Expression
    float : ℕ → ℕ → ℕ → ℕ → Expression
    struct_literal : StructId → Pairs → Expression
    tuple : Expressions → Expression
    access : Expression → Text → Expression
    binary : BinaryOperator → Expression → Expression → Expression
    unary : UnaryOperator → Expression → Expression
    index : Expression → Expression → Expression
    call : Expression → Expressions → Expression
    new dereference : Expression → Expression
    vector_literal : Ty → Expressions → Expression
    range : Expression → Expression → Expression → Expression
    closure : Expression → Expressions → Expression
    create_worker : Expression → PipeDestination → Expression
    receive_worker : Expression → Bool → Expression
    create_pipeline : Expression → Expression → Expression

  pub data Expressions : Type 0 where
    no_expressions : Expressions
    entry : Expression → Expressions → Expressions
    nil_entry : Expressions → Expressions

  pub data Pairs : Type 0 where
    no_pairs : Pairs
    pair : Text → Expression → Pairs → Pairs

abbrev pub to_expressions : List (Option Expression) → Expressions
to_expressions [] = no_expressions
to_expressions (some e ∷ es) = entry e (to_expressions es)
to_expressions (none ∷ es) = nil_entry (to_expressions es)

abbrev pub to_pairs : List (Text × Expression) → Pairs
to_pairs [] = no_pairs
to_pairs ((name, e) ∷ ps) = pair name e (to_pairs ps)

mutual
  pub data LValue : Type 0 where
    identifier : Text → LValue
    self : LValue
    deref : LValue → LValue
    accessor : LValue → Text → LValue
    index : LValue → Expression → LValue
    multiple : LValues → LValue

  pub data LValues : Type 0 where
    no_lvalues : LValues
    lvalue : LValue → LValues → LValues

abbrev pub to_lvalues : List LValue → LValues
to_lvalues [] = no_lvalues
to_lvalues (l ∷ ls) = lvalue l (to_lvalues ls)

-- `AssignStatement`, which always pins pointers where it is parsed.
pub record Assign : Type 0 where
  pub type : AssignType
  pub lhs : LValue
  pub rhs : Expression

-- A segment of an `if` with no condition is its `else`. A block that is missing is a nil pointer.
mutual
  pub data Statement : Type 0 where
    assign : Assign → Statement
    expression : Expression → Statement
    if_statement : Segments → Statement
    dummy : SourceLocation → Statement
    break : Statement
    while : Expression → Block → Statement
    return_void : Statement
    return_value : Expression → Statement
    send_pipe : Expression → Expression → Statement
    foreach : Text → Expression → Block → Statement
    modify_in_place : ModifyOperator → LValue → Expression → Statement

  pub data Block : Type 0 where
    no_statements : Block
    statement : Statement → Block → Block

  pub data Segments : Type 0 where
    no_segments : Segments
    segment : Expression → Block → Segments → Segments
    else_segment : Block → Segments → Segments

abbrev pub to_block : List Statement → Block
to_block [] = no_statements
to_block (s ∷ ss) = statement s (to_block ss)

abbrev pub to_segments : List (Option Expression × Block) → Segments
to_segments [] = no_segments
to_segments ((some e, b) ∷ ss) = segment e b (to_segments ss)
to_segments ((none, b) ∷ ss) = else_segment b (to_segments ss)

-- A `FunctionDefinition` with its block, which is nil where it is missing
pub record FunctionSyntax : Type 0 where
  pub definition : FunctionDefinition
  pub block : Option Block

-- `StructDefinitionStatement`
pub record StructSyntax : Type 0 where
  pub exported : Bool
  pub id : StructId
  pub fields : List StructField
  pub functions : List FunctionSyntax

-- `ImportElement`, with the identifier of its module
pub record ImportElement : Type 0 where
  pub names : List Text
  pub import_as : Text

pub data Element : Type 0 where
  struct_element : StructSyntax → Element
  function_element : FunctionSyntax → Element
  const_element : Assign → Element
  import_element : ImportElement → Element
  dummy_element : SourceLocation → Element
