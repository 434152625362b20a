-- ===== src/Parser.antt =====
-- src/parser: the recursive descent from tokens to the tree of a module.
pub mod State
pub mod Calls
pub mod Types
pub mod Literals
pub mod Operators
pub mod Prefixed
pub mod LValues
pub mod Statements
pub mod Definitions
pub mod Module
