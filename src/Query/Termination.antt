-- ===== src/Query/Termination.antt =====
-- pkg/query/parser.go: the termination of the parser.
mod Rules
mod Selectors
mod Operands
pub mod Levels
