-- ===== src/Token.antt =====
-- src/token: the tokens and the tokeniser.
pub mod Kinds
pub mod Printed
pub mod State
pub mod Junk
pub mod Tables
pub mod Lexeme
pub mod Loop
