-- ===== src/Lexer.antt =====
-- src/lexer/ms_lexer.c: the lexer.
pub mod Kind
pub mod State
pub mod Operator
pub mod Number
pub mod Quoted
pub mod Keyword
pub mod FString
pub mod Scan
pub mod Moves
pub mod Bounds
pub mod Mode
pub mod Tokens
pub mod Totality
pub mod Stuck
pub mod Next
pub mod Spelling
pub mod Unescape
mod Tests
