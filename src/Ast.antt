-- ===== src/Ast.antt =====
-- src/ast: identifiers, types, scopes, functions and the context of the checks.
pub mod Ids
pub mod Types
pub mod Functions
pub mod Structs
pub mod Syntax
pub mod Values
pub mod Scope
pub mod Check
