-- ===== src/Sql.antt =====
-- src/sql: the lexer, and the syntax tree of expressions.
pub mod Token
pub mod Scan
pub mod Lexer
pub mod Quote
pub mod Ast
