-- ===== src/Ast/Check/Nesting.antt =====
-- src/ast: what the checks of statements and definitions open, they close.
pub mod Undone
pub mod Scopes
pub mod Statements
pub mod Definitions
