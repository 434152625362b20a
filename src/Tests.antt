-- ===== src/Tests.antt =====
-- Concrete runs of the modelled code: the theorems at concrete inputs, and tests.
mod Tokens
mod Types
mod Functions
mod Contexts
mod Lines
mod Parsers
mod States
mod ParsedTypes
mod Values
mod Checks
