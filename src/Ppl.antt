-- ===== src/Ppl.antt =====
-- internal/ppl: the PCBoard Programming Language. `Lexer` makes tokens of the source, `Parser` a
-- program of the tokens, and `Interpreter` runs it. `Host` holds what they take from Go's library.
pub mod Host
pub mod Lexer
pub mod Ast
pub mod Parser
pub mod Types
pub mod Interpreter
