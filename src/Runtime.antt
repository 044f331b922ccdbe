-- ===== src/Runtime.antt =====
-- src/runtime: the operations of the built-in types.
pub mod Frozenset
pub mod Int
pub mod Map
pub mod Set
pub mod Table
pub mod Upvalue
mod Tests
