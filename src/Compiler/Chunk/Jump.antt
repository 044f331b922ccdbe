-- ===== src/Compiler/Chunk/Jump.antt =====
-- src/compiler/ms_chunk.c, `msChunkPatchJump`, and the jumps of src/compiler/ms_compiler.c and
-- src/vm/ms_vm.c: the operand written and read.
use mslang_c.Base.{
  ℕ, ◌+◌, ◌-◌, ◌*◌, ◌/◌, ◌%◌, ◌^◌, ◌≤◌, ◌<◌, ◌≡◌, ◌≢◌, Bytes, arith, get_or, get_or-set,
  get_or-set_other, length, length-set, set, ◌∙◌, ap, refl, [], ◌∷◌, ◌++◌, length-append,
  get_or-append, get_or-length, append_assoc,
}
use mslang_c.Compiler.Chunk.{
  Chunk, jump_operand, sign_extend, read_ax, jump_target, chunk_patch_jump, put_operand, chunk_emit,
  chunk_emit_op_ax, emit_jump, patch_jump,
}
use mslang_c.Compiler.Opcode.{OpCode, op_byte}

-- Three bytes hold a number of 24 bits.
bytes_join :
    (u : ℕ) → u < 2 ^ 24 → u / 2 ^ 16 % 256 * 2 ^ 16 + u / 2 ^ 8 % 256 * 2 ^ 8 + u % 256 ≡ u
bytes_join u h = omega arith

-- Within 8 MiB in either direction, the operand's sign extension is the distance.
operand_target :
    (at target : ℕ)
    → at + 3 < 2 ^ 31
    → target < 2 ^ 31
    → target < at + 3 + 2 ^ 23
    → at + 3 ≤ target + 2 ^ 23
    → (at + 3 + sign_extend (jump_operand at target)) % 2 ^ 32 ≡ target
operand_target at target a t up down = ground arith

module _ (code : Bytes) (at u : ℕ) (fits : at + 3 ≤ length code) where
  pub read_ax-put_operand : u < 2 ^ 24 → read_ax (put_operand code at u) at ≡ u
  read_ax-put_operand h =
      let b0 = u / 2 ^ 16 % 256 in
      let b1 = u / 2 ^ 8 % 256 in
      let b2 = u % 256 in
      let c0 = set code at b0 in
      let c1 = set c0 (at + 1) b1 in
      let r0 : get_or (put_operand code at u) at 0 ≡ b0 =
        get_or-set_other c1 (at + 2) at b2 0 (omega arith)
        ∙ get_or-set_other c0 (at + 1) at b1 0 (omega arith)
        ∙ get_or-set code at b0 0 (omega arith) in
      let r1 : get_or (put_operand code at u) (at + 1) 0 ≡ b1 =
        get_or-set_other c1 (at + 2) (at + 1) b2 0 (omega arith)
        ∙ get_or-set c0 (at + 1) b1 0 (omega (arith, length-set code at b0)) in
      let r2 : get_or (put_operand code at u) (at + 2) 0 ≡ b2 =
        get_or-set c1 (at + 2) b2 0
          (omega (arith, length-set code at b0, length-set c0 (at + 1) b1)) in
      rw (r0, r1, r2) (bytes_join u h)

  pub put_operand-other :
      (j d : ℕ)
      → j ≢ at
      → j ≢ at + 1
      → j ≢ at + 2
      → get_or (put_operand code at u) j d ≡ get_or code j d
  put_operand-other j d h0 h1 h2 =
      let b0 = u / 2 ^ 16 % 256 in
      let b1 = u / 2 ^ 8 % 256 in
      get_or-set_other (set (set code at b0) (at + 1) b1) (at + 2) j _ d (omega arith)
      ∙ get_or-set_other (set code at b0) (at + 1) j _ d (omega arith)
      ∙ get_or-set_other code at j _ d (omega arith)

module _ {ℓ} {V : Type ℓ} (ck : Chunk V) (at target : ℕ) where
  -- A jump whose operand at `at` lies in code below 2 ^ 31 bytes, and whose target is less than
  -- 2 ^ 23 bytes behind the next instruction or at most 2 ^ 23 before it: after the patch, the machine that reads the operand goes to the target,
  -- and every byte outside the operand, every line and every constant is as before.
  pub chunk_patch_jump-Lands :
      at + 3 ≤ length ck.code
      → length ck.code < 2 ^ 31
      → target < 2 ^ 31
      → target < at + 3 + 2 ^ 23
      → at + 3 ≤ target + 2 ^ 23
      → (jump_target (chunk_patch_jump ck at target).code at ≡ target)
        × ((j : ℕ)
            → j ≢ at
            → j ≢ at + 1
            → j ≢ at + 2
            → get_or (chunk_patch_jump ck at target).code j 0 ≡ get_or ck.code j 0)
        × (length (chunk_patch_jump ck at target).code ≡ length ck.code)
        × ((chunk_patch_jump ck at target).lines ≡ ck.lines)
        × ((chunk_patch_jump ck at target).constants ≡ ck.constants)
  unfolding chunk_patch_jump
  chunk_patch_jump-Lands fits small t up down =
      let u = jump_operand at target in
      (
        ap (λ (v : ℕ). (at + 3 + sign_extend v) % 2 ^ 32)
              (read_ax-put_operand ck.code at u fits (omega arith))
            ∙ operand_target at target (omega arith) t up down,
        λ j. put_operand-other ck.code at u fits j 0,
        length-set _ (at + 2) _ ∙ length-set _ (at + 1) _ ∙ length-set ck.code at _,
        refl,
        refl,
      )

module _ {ℓ} {V : Type ℓ} (ck : Chunk V) where
  -- What an instruction with a three-byte operand adds to the code.
  pub code-chunk_emit_op_ax :
      (op : OpCode) (ax line : ℕ)
      → (chunk_emit_op_ax ck op ax line).code
        ≡ ck.code ++ (op_byte op ∷ ax / 2 ^ 16 % 256 ∷ ax / 2 ^ 8 % 256 ∷ ax % 256 ∷ [])
  unfolding chunk_emit
  code-chunk_emit_op_ax op ax line =
      append_assoc ((ck.code ++ (op_byte op ∷ [])) ++ (ax / 2 ^ 16 % 256 ∷ []))
        (ax / 2 ^ 8 % 256 ∷ []) (ax % 256 ∷ [])
      ∙ append_assoc (ck.code ++ (op_byte op ∷ [])) (ax / 2 ^ 16 % 256 ∷ []) _
      ∙ append_assoc ck.code (op_byte op ∷ []) _

  -- A jump that is emitted, left behind by other code, and patched to the position reached: the
  -- machine goes to the end of the code, and the jump's opcode still stands before its operand.
  -- The code is below 2 ^ 23 bytes.
  pub emit_jump-patch_jump :
      (op : OpCode) (line : ℕ) (more : Bytes) (later : Chunk V)
      → later.code ≡ (emit_jump ck op line).0.code ++ more
      → length later.code < 2 ^ 23
      → (jump_target (patch_jump later (emit_jump ck op line).1).code (emit_jump ck op line).1
          ≡ length later.code)
        × (get_or (patch_jump later (emit_jump ck op line).1).code (length ck.code) 0 ≡ op_byte op)
  emit_jump-patch_jump op line more later e small =
      let emitted = (emit_jump ck op line).0.code in
      let known : emitted
          ≡ ck.code ++ (op_byte op ∷ 0 / 2 ^ 16 % 256 ∷ 0 / 2 ^ 8 % 256 ∷ 0 % 256 ∷ []) =
        code-chunk_emit_op_ax op 0 line in
      let size : length emitted ≡ length ck.code + 4 = ap length known ∙ length-append ck.code _ in
      let total : length later.code ≡ length emitted + length more =
        ap length e ∙ length-append emitted more in
      let lands =
        chunk_patch_jump-Lands later (length emitted - 3) (length later.code) (omega arith)
          (omega arith) (omega arith) (omega arith) (omega arith) in
      let before : get_or later.code (length ck.code) 0 ≡ op_byte op =
        ap (λ (c : Bytes). get_or c (length ck.code) 0) e
        ∙ get_or-append emitted more (length ck.code) 0 (omega arith)
        ∙ ap (λ (c : Bytes). get_or c (length ck.code) 0) known
        ∙ get_or-length ck.code (op_byte op) _ 0 in
      (lands.0, lands.1 (length ck.code) (omega arith) (omega arith) (omega arith) ∙ before)
