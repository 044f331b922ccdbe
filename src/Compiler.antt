-- ===== src/Compiler.antt =====
-- src/compiler and the parts of src/vm that read its code.
pub mod Opcode
pub mod Chunk
pub mod Scope
mod Tests
