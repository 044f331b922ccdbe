-- ===== src/Compiler/Chunk.antt =====
-- src/compiler/ms_chunk.c: bytecode, constants and line numbers; the jumps of ms_compiler.c, and the
-- operand that src/vm/ms_vm.c reads.
-- An array is the list of the elements in use: its length is `codeLen`, `constLen` or `linesLen`.
-- A chunk is taken to hold less than 2 ^ 32 bytes. Constants have any type `V`.
pub mod Jump
pub mod Valid
use mslang_c.Base.{
  ℕ, ◌+◌, ◌-◌, ◌*◌, ◌/◌, ◌%◌, ◌^◌, Option, none, some, List, [], ◌∷◌, ◌++◌, Bytes, ltb, leb,
  if◌then◌else◌, length, get_elem?, get_or, set,
}
use mslang_c.Compiler.Opcode.{OpCode, op_byte}

-- `MsChunk`, without the name of the source.
pub record Chunk {ℓ} (V : Type ℓ) : Type ℓ where
  pub code : Bytes
  pub code_cap : ℕ
  pub constants : List V
  pub const_cap : ℕ
  pub lines : List ℕ
  pub lines_cap : ℕ

-- `chunkGrow`, the new capacity.
abbrev pub chunk_grow : ℕ → ℕ
chunk_grow cap = if ltb cap 8 then 8 else cap * 2 % 2 ^ 32

-- The growth before an element is added behind `len` others.
abbrev pub room_for : ℕ → ℕ → ℕ
room_for len cap = if leb cap len then chunk_grow cap else cap

-- The low 24 bits of `targetOffset - (patchOffset + 3)`, computed on 32 bits.
abbrev pub jump_operand : ℕ → ℕ → ℕ
jump_operand patch_offset target_offset =
    (target_offset + 2 ^ 32 - (patch_offset + 3)) % 2 ^ 32 % 2 ^ 24

abbrev pub put_operand : Bytes → ℕ → ℕ → Bytes
put_operand code at u =
    set (set (set code at (u / 2 ^ 16 % 256)) (at + 1) (u / 2 ^ 8 % 256)) (at + 2) (u % 256)

module _ {ℓ} {V : Type ℓ} where
  -- `msChunkInit`
  abbrev pub chunk_init : Chunk V
  chunk_init = record {
    code = [];
    code_cap = 0;
    constants = [];
    const_cap = 0;
    lines = [];
    lines_cap = 0;
  }

  -- `msChunkFree`, after which the chunk is as `msChunkInit` leaves it.
  abbrev pub chunk_free : Chunk V → Chunk V
  chunk_free ck = chunk_init

  -- `msChunkEmit`
  unfoldable pub chunk_emit : Chunk V → ℕ → ℕ → Chunk V
  chunk_emit ck byte line = record ck {
    code = ck.code ++ (byte ∷ []);
    code_cap = room_for (length ck.code) ck.code_cap;
    lines = ck.lines ++ (line ∷ []);
    lines_cap = room_for (length ck.lines) ck.lines_cap;
  }

  -- `msChunkEmitOp`
  abbrev pub chunk_emit_op : Chunk V → OpCode → ℕ → Chunk V
  chunk_emit_op ck op line = chunk_emit ck (op_byte op) line

  -- `msChunkEmitOpA`
  abbrev pub chunk_emit_op_a : Chunk V → OpCode → ℕ → ℕ → Chunk V
  chunk_emit_op_a ck op a line = chunk_emit (chunk_emit_op ck op line) a line

  -- `msChunkEmitOpAX`
  abbrev pub chunk_emit_op_ax : Chunk V → OpCode → ℕ → ℕ → Chunk V
  chunk_emit_op_ax ck op ax line =
      let c1 = chunk_emit_op ck op line in
      let c2 = chunk_emit c1 (ax / 2 ^ 16 % 256) line in
      let c3 = chunk_emit c2 (ax / 2 ^ 8 % 256) line in chunk_emit c3 (ax % 256) line

  -- `msChunkAddConst`, and the index that it returns.
  unfoldable pub chunk_add_const : Chunk V → V → Chunk V × ℕ
  chunk_add_const ck val = (
    record ck {
      constants = ck.constants ++ (val ∷ []);
      const_cap = room_for (length ck.constants) ck.const_cap;
    },
    length ck.constants,
  )

  -- `msChunkGetLine`; none where the code reads out of bounds.
  abbrev pub chunk_get_line : Chunk V → ℕ → Option ℕ
  chunk_get_line ck offset = get_elem? ck.lines offset

  -- `msChunkPatchJump`
  unfoldable pub chunk_patch_jump : Chunk V → ℕ → ℕ → Chunk V
  chunk_patch_jump ck patch_offset target_offset = record ck {
    code = put_operand ck.code patch_offset (jump_operand patch_offset target_offset);
  }

  -- `emitJump` of ms_compiler.c: the offset of the operand is the second component.
  abbrev pub emit_jump : Chunk V → OpCode → ℕ → Chunk V × ℕ
  emit_jump ck op line =
      let emitted = chunk_emit_op_ax ck op 0 line in (emitted, length emitted.code - 3)

  -- `patchJump`
  abbrev pub patch_jump : Chunk V → ℕ → Chunk V
  patch_jump ck patch_offset = chunk_patch_jump ck patch_offset (length ck.code)

-- `READ_AX` of ms_vm.c and `readAX` of ms_disasm.c: the operand of three bytes at `at`.
abbrev pub read_ax : Bytes → ℕ → ℕ
read_ax code at =
    get_or code at 0 * 2 ^ 16 + get_or code (at + 1) 0 * 2 ^ 8 + get_or code (at + 2) 0

-- `READ_JUMP_OFFSET` and `readAXSigned`, as a 32-bit pattern: the 24 bits with their sign extended.
abbrev pub sign_extend : ℕ → ℕ
sign_extend u = if ltb u (2 ^ 23) then u else u + (2 ^ 32 - 2 ^ 24)

-- `frame->ip += offset` for the jump whose operand is at `at`: the position behind the operand,
-- moved by the signed offset, on 32 bits.
abbrev pub jump_target : Bytes → ℕ → ℕ
jump_target code at = (at + 3 + sign_extend (read_ax code at)) % 2 ^ 32
