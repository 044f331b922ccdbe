-- ===== src/Compiler/Tests.antt =====
-- Runs of the bytecode and scope functions at concrete values.
use mslang_c.Base.{
  ℕ, true, ◌+◌, ◌^◌, ◌<◌, ◌≡◌, ◌≢◌, refl, false, none, some, List, [], ◌∷◌, ◌++◌, Bytes, codes,
  length, get_or, get_elem?, arith,
}
use mslang_c.Compiler.Chunk.{
  Chunk, chunk_init, chunk_emit, chunk_emit_op, chunk_add_const, chunk_get_line, chunk_patch_jump,
  emit_jump, patch_jump, jump_target,
}
use mslang_c.Compiler.Chunk.Jump.{emit_jump-patch_jump, chunk_patch_jump-Lands}
use mslang_c.Compiler.Chunk.Valid.{
  IsValid, chunk_init-IsValid, chunk_emit-IsValid, chunk_add_const-IsValid,
}
use mslang_c.Compiler.Opcode.{op_jump_if_false, op_pop, op_byte}
use mslang_c.Compiler.Scope.End.{drops, scope_end-Drops}
use mslang_c.Compiler.Scope.{
  Local, scope_end, Compiler, compiler_init, declare_local, mark_initialized, is_declared,
  resolve_local, resolve_upvalue, same_name, resolve_in, added, add_upvalue, find_upvalue,
}
use mslang_c.Compiler.Scope.Locals.{declare_local-Resolves}
use mslang_c.Compiler.Scope.Upvalues.{Refers, resolve_upvalue-Refers}

-- Constants are numbers here.
abbrev empty : Chunk ℕ
empty = chunk_init

abbrev jumping : Chunk ℕ
jumping = (emit_jump empty op_jump_if_false 1).0

-- The jump with one more instruction behind it.
abbrev longer : Chunk ℕ
longer = chunk_emit_op jumping op_pop 2

longer-code : longer.code ≡ jumping.code ++ (op_byte op_pop ∷ [])
unfolding chunk_emit
longer-code = refl

longer_small : length longer.code < 2 ^ 23
unfolding chunk_emit
longer_small = omega arith

emit_jump-patch_jump_example :
    (jump_target
        (patch_jump longer (emit_jump empty op_jump_if_false 1).1).code
        (emit_jump empty op_jump_if_false 1).1
      ≡ length longer.code)
    × (get_or (patch_jump longer (emit_jump empty op_jump_if_false 1).1).code 0 0
        ≡ op_byte op_jump_if_false)
emit_jump-patch_jump_example =
    emit_jump-patch_jump empty op_jump_if_false 1 (op_byte op_pop ∷ []) longer longer-code
      longer_small

-- Five bytes of code, a jump's operand at 1.
abbrev five : Chunk ℕ
five = record empty { code = 41 ∷ 0 ∷ 0 ∷ 0 ∷ 0 ∷ [] }

chunk_patch_jump-Lands_example :
    (jump_target (chunk_patch_jump five 1 0).code 1 ≡ 0)
    × ((j : ℕ)
        → j ≢ 1
        → j ≢ 1 + 1
        → j ≢ 1 + 2
        → get_or (chunk_patch_jump five 1 0).code j 0 ≡ get_or five.code j 0)
    × (length (chunk_patch_jump five 1 0).code ≡ length five.code)
    × ((chunk_patch_jump five 1 0).lines ≡ five.lines)
    × ((chunk_patch_jump five 1 0).constants ≡ five.constants)
chunk_patch_jump-Lands_example =
    chunk_patch_jump-Lands five 1 0 (omega arith) (omega arith) (omega arith) (omega arith)
      (omega arith)

chunk_emit-IsValid_example :
    IsValid (chunk_emit empty 3 7)
    × (get_or (chunk_emit empty 3 7).code 0 0 ≡ 3)
    × (chunk_get_line (chunk_emit empty 3 7) 0 ≡ some 7)
    × ((i : ℕ) → i < 0 → chunk_get_line (chunk_emit empty 3 7) i ≡ chunk_get_line empty i)
chunk_emit-IsValid_example = chunk_emit-IsValid empty chunk_init-IsValid 3 7 (omega arith)

chunk_add_const-IsValid_example :
    IsValid (chunk_add_const empty 9).0
    × (get_elem? (chunk_add_const empty 9).0.constants (chunk_add_const empty 9).1 ≡ some 9)
    × ((i : ℕ)
        → i < 0
        → get_elem? (chunk_add_const empty 9).0.constants i ≡ get_elem? empty.constants i)
chunk_add_const-IsValid_example = chunk_add_const-IsValid empty chunk_init-IsValid 9 (omega arith)

abbrev top : Compiler ℕ
top = compiler_init empty false

abbrev name_x : Bytes
name_x = codes "x"

x_is_new : is_declared top.locals top.scope_depth name_x ≡ false
unfolding is_declared
x_is_new = refl

declare_local-Resolves_example :
    (c' : Compiler ℕ) × (declare_local top name_x ≡ some (c', 0))
    × (resolve_local c'.locals name_x ≡ none)
    × (resolve_local (mark_initialized c').locals name_x ≡ some 0)
    × ((other : Bytes)
        → same_name name_x other ≡ false
        → resolve_local (mark_initialized c').locals other ≡ resolve_local top.locals other)
declare_local-Resolves_example = declare_local-Resolves top name_x (omega arith) x_is_new

-- A function in a function, around which `x` is a local.
abbrev with_x : Compiler ℕ
with_x = record top {
  locals = record { name = name_x; depth = some 1; captured = false; is_const = false } ∷ [];
  scope_depth = 1;
}

abbrev nested : List (Compiler ℕ)
nested = top ∷ top ∷ with_x ∷ []

nested_found : (resolve_upvalue nested name_x).1 ≡ some 0
unfolding resolve_upvalue resolve_in resolve_local added add_upvalue find_upvalue same_name
nested_found = refl

resolve_upvalue-Refers_example : Refers name_x (resolve_upvalue nested name_x).0 0
resolve_upvalue-Refers_example = resolve_upvalue-Refers name_x nested 0 refl nested_found

-- A scope of two locals, the newer captured, inside one of a local.
abbrev captured_y : Local
captured_y = record { name = codes "y"; depth = some 2; captured = true; is_const = false }

abbrev plain_z : Local
plain_z = record { name = codes "z"; depth = some 2; captured = false; is_const = false }

abbrev inner_scope : Compiler ℕ
inner_scope = record with_x { locals = captured_y ∷ plain_z ∷ with_x.locals; scope_depth = 2 }

scope_end-Drops_example :
    ((scope_end inner_scope).locals ≡ with_x.locals)
    × ((scope_end inner_scope).scope_depth ≡ 1)
    × ((scope_end inner_scope).chunk.code ≡ [] ++ drops (captured_y ∷ plain_z ∷ []))
scope_end-Drops_example =
    scope_end-Drops inner_scope (captured_y ∷ plain_z ∷ []) with_x.locals refl refl refl
