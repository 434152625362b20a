-- ===== src/Ast/Check/Returns.antt =====
-- `CheckStatementBlockEndsWithReturn` of src/ast/functions.go against the paths through a block.
use eyot.Prelude.{◌≡◌, Bool, true, false, ◌&&◌, &&-true, Text}
use eyot.Errors.{SourceLocation}
use eyot.Ast.Syntax.{
  Expression, LValue, ModifyOperator, Assign, Statement, Block, Segments, no_statements, statement,
  if_statement, no_segments, segment, else_segment,
}
use eyot.Ast.Check.Definitions.{ends_with_return, returns_last, segments_return}

-- A path through a statement, a block or the segments of an `if` that comes out at its end. A loop may
-- end at once, a condition may be true or false, and the first segment whose condition is true is
-- taken. A `return` and a `break` do not come out there.
mutual
  pub data Passes : Statement → Type 0 where
    assign : {a : Assign} → Passes (Statement.assign a)
    expression : {e : Expression} → Passes (Statement.expression e)
    dummy : {location : SourceLocation} → Passes (Statement.dummy location)
    while : {e : Expression} {b : Block} → Passes (Statement.while e b)
    send_pipe : {p v : Expression} → Passes (Statement.send_pipe p v)
    foreach : {name : Text} {e : Expression} {b : Block} → Passes (Statement.foreach name e b)
    modify_in_place :
        {op : ModifyOperator} {l : LValue} {e : Expression}
        → Passes (Statement.modify_in_place op l e)
    taken : {segs : Segments} → PassesSome segs → Passes (Statement.if_statement segs)

  pub data PassesAll : Block → Type 0 where
    end : PassesAll Block.no_statements
    step : {s : Statement} {b : Block} → Passes s → PassesAll b → PassesAll (Block.statement s b)

  pub data PassesSome : Segments → Type 0 where
    none_taken : PassesSome Segments.no_segments
    here :
        {e : Expression} {b : Block} {segs : Segments}
        → PassesAll b
        → PassesSome (Segments.segment e b segs)
    there :
        {e : Expression} {b : Block} {segs : Segments}
        → PassesSome segs
        → PassesSome (Segments.segment e b segs)
    otherwise :
        {b : Block} {segs : Segments} → PassesAll b → PassesSome (Segments.else_segment b segs)

-- An `if` at the end of a block, and at the end of its segments in turn, has an `else`.
abbrev mutual
  pub closes : Block → Bool
  closes no_statements = true
  closes (statement s no_statements) = closes_last s
  closes (statement s (statement s' b)) = closes (statement s' b)

  pub closes_last : Statement → Bool
  closes_last (if_statement segs) = closes_segments segs
  closes_last _ = true

  pub closes_segments : Segments → Bool
  closes_segments no_segments = false
  closes_segments (segment e b segs) = closes b && closes_segments segs
  closes_segments (else_segment b segs) = closes b

mutual
  unfolding ends_with_return

  ends_with_return_lem : (b : Block) → ends_with_return b ≡ true → closes b ≡ true → ¬ PassesAll b
  ends_with_return_lem no_statements h c p = cc h
  ends_with_return_lem (statement s no_statements) h c (PassesAll.step p _) =
      returns_last-Passes s h c p
  ends_with_return_lem (statement s (statement s' b)) h c (PassesAll.step _ p) =
      ends_with_return_lem (statement s' b) h c p

  returns_last-Passes : (s : Statement) → returns_last s ≡ true → closes_last s ≡ true → ¬ Passes s
  returns_last-Passes (if_statement segs) h c (Passes.taken p) =
      segments_return-PassesSome segs h c p
  returns_last-Passes Statement.return_void h c p = elim p [ ]
  returns_last-Passes (Statement.return_value e) h c p = elim p [ ]
  returns_last-Passes s h c p = cc h

  segments_return-PassesSome :
      (segs : Segments)
      → segments_return segs ≡ true
      → closes_segments segs ≡ true
      → ¬ PassesSome segs
  segments_return-PassesSome no_segments h c p = cc c
  segments_return-PassesSome (segment e b segs) h c (PassesSome.here p) =
      ends_with_return_lem b (&&-true (ends_with_return b) (segments_return segs) h).0
        (&&-true (closes b) (closes_segments segs) c).0 p
  segments_return-PassesSome (segment e b segs) h c (PassesSome.there p) =
      segments_return-PassesSome segs (&&-true (ends_with_return b) (segments_return segs) h).1
        (&&-true (closes b) (closes_segments segs) c).1 p
  segments_return-PassesSome (else_segment b segs) h c (PassesSome.otherwise p) =
      ends_with_return_lem b (&&-true (ends_with_return b) (segments_return segs) h).0 c p

-- Where a block ends with a return by `CheckStatementBlockEndsWithReturn`, and every `if` that the
-- test looks into has an `else`, no path through the block comes out at its end.
pub ends_with_return-PassesAll :
    (b : Block) → ends_with_return b ≡ true → closes b ≡ true → ¬ PassesAll b
ends_with_return-PassesAll = ends_with_return_lem
