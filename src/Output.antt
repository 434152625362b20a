-- ===== src/Output.antt =====
-- src/output: the writer of lines and the names of the generated C.
pub mod TextWriter
pub mod Namespacing
