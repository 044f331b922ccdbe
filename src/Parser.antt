-- ===== src/Parser.antt =====
-- src/parser: the memory of syntax trees.
pub mod Arena
mod Tests
