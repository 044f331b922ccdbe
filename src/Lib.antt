-- ===== src/Lib.antt =====
-- The mslang interpreter: an embedded scripting language in C. A program's text goes through the
-- lexer (src/lexer), the parser (src/parser) and the compiler (src/compiler), which emits
-- bytecode into chunks; the virtual machine (src/vm) runs the chunks over the types of
-- src/runtime, whose objects src/gc collects. The command line (src/core/ms_cli.c) drives these
-- parts.
--
-- The files model the following parts.
-- - Base: lists and byte strings indexed by native numbers, Boolean tests, arithmetic modulo a
--   word, binary digits and masks.
-- - Lexer.Kind, Lexer.State: token kinds (include/mslang/ms_lexer.h), their names and those that
--   end a statement; `Token` and `Lexer` stand for `struct MsToken` and `struct MsLexer`, with
--   positions as offsets into the source and the cached token as an option.
-- - Lexer.Operator, Lexer.Number, Lexer.Quoted, Lexer.Keyword, Lexer.FString, Lexer.Scan: the
--   functions of src/lexer/ms_lexer.c, each under its name in the source (`lexScanNumber` is
--   `lex_scan_number`). A function that changes the lexer returns the new one.
-- - Lexer.Tokens: the loop of `cmdTokens` in src/core/ms_cli.c.
-- - Lexer.Unescape: src/lexer/ms_lexer_unescape.c. The compiler calls it on the text of the
--   lexer's string tokens, with a buffer of the text's length.
-- - Lexer.Spelling: the operators as a table, an independent description of them.
-- - Compiler.Opcode: include/mslang/ms_opcode.h and the table `kOpInfo` of
--   src/compiler/ms_disasm.c.
-- - Compiler.Chunk: src/compiler/ms_chunk.c, `emitJump` and `patchJump` of
--   src/compiler/ms_compiler.c, and the reading of a jump's operand in src/vm/ms_vm.c.
-- - Compiler.Scope: src/compiler/ms_scope.c. The chain of enclosing compilers is a list.
-- - Runtime.Int: the slots of `int` in src/runtime/ms_int.c.
-- - Runtime.Table: the table of slots in src/runtime/ms_map.c, with tombstones and growth. `Keys`
--   in Runtime.Table.Insert is the interface to the values that are keys: `msValueEqual`,
--   `hashValue`, and their laws: equality is symmetric and transitive, and equal keys have equal
--   hashes. The code's own values have them as long as no map mixes ints beyond 2 ^ 53 with
--   floats.
-- - Runtime.Map: the operations of src/runtime/ms_map.c, each on a `Table` in place of `struct
--   MsMapObj`.
-- - Runtime.Set, Runtime.Frozenset: src/runtime/ms_set.c and src/runtime/ms_frozenset.c, on the
--   same table with no values.
-- - Runtime.Upvalue: src/runtime/ms_upvalue.c, on the stack and the open upvalues of a `Thread`;
--   the chain through `nextOpen` is a list.
-- - Parser.Arena: src/parser/ms_arena.c, with addresses as numbers.
-- The modules below these hold their proofs; the modules named Tests hold runs at concrete
-- inputs.
--
-- Numbers are native natural numbers. Where the code computes on `uint64_t`, `int64_t` or
-- `uint32_t` and may wrap, `% 2 ^ 64` or `% 2 ^ 32` is written out; an `int64_t` is its bit
-- pattern. A source is taken to have less than 2 ^ 32 - 1 bytes, so that the offsets, lines and
-- counts of the lexer do not reach the bound of `uint32_t`. Loops over the source have the number
-- of bytes left as fuel, `intPow` has the 64 bits of its exponent, and the search in the keyword
-- table has one more than its size: each pass takes at least one of them. Probing a table has the
-- number of its slots as fuel, which is enough as one slot is unused, and rounding up to a power
-- of two has 29 passes, enough up to 2 ^ 31. Only the loops of `cmdTokens` and
-- `msLexerNextSkipNewline` take fuel as an argument and return an option, since they need not
-- end.
--
-- A table's entries are a list whose length is the capacity; `hash & (cap - 1)` is the remainder,
-- since the capacity is a power of two. `MS_ERROR_VALUE` is the answer `error`, and an operation
-- on two maps or sets takes two objects. An iterator returns nil, an argument of the model, at
-- the end.
--
-- `strtod` and the operations on `double` are parameters. Not modelled: printing and reading
-- files, memory allocation but for the arena, the parser, the code generator, the machine's
-- dispatch loop, the garbage collector, and the other runtime types.
pub mod Base
pub mod Compiler
pub mod Lexer
pub mod Parser
pub mod Runtime
