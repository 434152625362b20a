-- ===== src/Ast/Check.antt =====
-- src/ast/check.go: the record that the passes over a module share.
pub mod Pool
pub mod Context
pub mod Blocks
pub mod Require
pub mod Pass
pub mod Nodes
pub mod Operators
pub mod Parts
pub mod Expressions
pub mod Operands
pub mod Typing
pub mod LValues
pub mod Statements
pub mod Definitions
pub mod Nesting
pub mod Returns
pub mod Supplied
