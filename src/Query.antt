-- ===== src/Query.antt =====
-- The query language, pkg/query: tokens and expressions (types.go), the lexer, the parser and the
-- executor.
pub mod Outcome
pub mod Tokens
pub mod Reader
pub mod Keywords
pub mod Lexer
pub mod Duration
pub mod Parser
pub mod Termination
pub mod WellFormed
pub mod Escapes
pub mod Executor
pub mod Handler
