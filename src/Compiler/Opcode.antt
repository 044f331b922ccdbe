-- ===== src/Compiler/Opcode.antt =====
-- include/mslang/ms_opcode.h and the table `kOpInfo` of src/compiler/ms_disasm.c: the opcodes, their
-- numbers, names and operand formats.
use Prim.Native.String.{String}
use mslang_c.Base.{ℕ, List, [], ◌∷◌}

-- `MsOpCode`, without the count that ends the enumeration.
pub data OpCode : Type 0 where
  op_pop op_dup op_rot2 op_const op_const_int op_const_true op_const_false : OpCode
  op_const_nil op_get_local op_set_local op_get_global op_set_global op_del_global : OpCode
  op_get_upvalue op_set_upvalue op_close_upvalue op_add op_sub op_mul op_div op_mod : OpCode
  op_pow op_neg op_band op_bor op_bxor op_shl op_shr op_bnot op_eq op_ne op_lt op_le : OpCode
  op_gt op_ge op_in op_is op_not op_is_not op_not_in op_isinstance op_and_jmp : OpCode
  op_or_jmp op_jump op_jump_if_false op_jump_if_true op_jump_if_false_peek op_call : OpCode
  op_call_async op_call_ex op_call_kw op_return op_return_nil op_get_attr op_set_attr : OpCode
  op_del_attr op_get_item op_set_item op_del_item op_build_list op_build_map : OpCode
  op_build_tuple op_build_set op_build_slice op_build_str op_make_func op_make_class : OpCode
  op_load_super op_get_iter op_for_iter op_push_except op_pop_except op_raise : OpCode
  op_raise_assert op_reraise op_load_exception op_clear_exception op_with_enter : OpCode
  op_with_exit op_go op_make_chan op_chan_send op_chan_recv op_chan_close op_await : OpCode
  op_select_begin op_select_case_send op_select_case_recv op_select_end op_import : OpCode
  op_import_from op_to_str : OpCode

-- The enumeration's order: an opcode's number is its position.
abbrev pub opcodes : List OpCode
opcodes =
    op_pop ∷ op_dup ∷ op_rot2 ∷ op_const ∷ op_const_int ∷ op_const_true ∷ op_const_false
    ∷ op_const_nil ∷ op_get_local ∷ op_set_local ∷ op_get_global ∷ op_set_global ∷ op_del_global
    ∷ op_get_upvalue ∷ op_set_upvalue ∷ op_close_upvalue ∷ op_add ∷ op_sub ∷ op_mul ∷ op_div
    ∷ op_mod ∷ op_pow ∷ op_neg ∷ op_band ∷ op_bor ∷ op_bxor ∷ op_shl ∷ op_shr ∷ op_bnot ∷ op_eq
    ∷ op_ne ∷ op_lt ∷ op_le ∷ op_gt ∷ op_ge ∷ op_in ∷ op_is ∷ op_not ∷ op_is_not ∷ op_not_in
    ∷ op_isinstance ∷ op_and_jmp ∷ op_or_jmp ∷ op_jump ∷ op_jump_if_false ∷ op_jump_if_true
    ∷ op_jump_if_false_peek ∷ op_call ∷ op_call_async ∷ op_call_ex ∷ op_call_kw ∷ op_return
    ∷ op_return_nil ∷ op_get_attr ∷ op_set_attr ∷ op_del_attr ∷ op_get_item ∷ op_set_item
    ∷ op_del_item ∷ op_build_list ∷ op_build_map ∷ op_build_tuple ∷ op_build_set ∷ op_build_slice
    ∷ op_build_str ∷ op_make_func ∷ op_make_class ∷ op_load_super ∷ op_get_iter ∷ op_for_iter
    ∷ op_push_except ∷ op_pop_except ∷ op_raise ∷ op_raise_assert ∷ op_reraise ∷ op_load_exception
    ∷ op_clear_exception ∷ op_with_enter ∷ op_with_exit ∷ op_go ∷ op_make_chan ∷ op_chan_send
    ∷ op_chan_recv ∷ op_chan_close ∷ op_await ∷ op_select_begin ∷ op_select_case_send
    ∷ op_select_case_recv ∷ op_select_end ∷ op_import ∷ op_import_from ∷ op_to_str ∷ []

-- The byte `(uint8_t) op`.
unfoldable pub op_byte : OpCode → ℕ
op_byte op_pop = 0
op_byte op_dup = 1
op_byte op_rot2 = 2
op_byte op_const = 3
op_byte op_const_int = 4
op_byte op_const_true = 5
op_byte op_const_false = 6
op_byte op_const_nil = 7
op_byte op_get_local = 8
op_byte op_set_local = 9
op_byte op_get_global = 10
op_byte op_set_global = 11
op_byte op_del_global = 12
op_byte op_get_upvalue = 13
op_byte op_set_upvalue = 14
op_byte op_close_upvalue = 15
op_byte op_add = 16
op_byte op_sub = 17
op_byte op_mul = 18
op_byte op_div = 19
op_byte op_mod = 20
op_byte op_pow = 21
op_byte op_neg = 22
op_byte op_band = 23
op_byte op_bor = 24
op_byte op_bxor = 25
op_byte op_shl = 26
op_byte op_shr = 27
op_byte op_bnot = 28
op_byte op_eq = 29
op_byte op_ne = 30
op_byte op_lt = 31
op_byte op_le = 32
op_byte op_gt = 33
op_byte op_ge = 34
op_byte op_in = 35
op_byte op_is = 36
op_byte op_not = 37
op_byte op_is_not = 38
op_byte op_not_in = 39
op_byte op_isinstance = 40
op_byte op_and_jmp = 41
op_byte op_or_jmp = 42
op_byte op_jump = 43
op_byte op_jump_if_false = 44
op_byte op_jump_if_true = 45
op_byte op_jump_if_false_peek = 46
op_byte op_call = 47
op_byte op_call_async = 48
op_byte op_call_ex = 49
op_byte op_call_kw = 50
op_byte op_return = 51
op_byte op_return_nil = 52
op_byte op_get_attr = 53
op_byte op_set_attr = 54
op_byte op_del_attr = 55
op_byte op_get_item = 56
op_byte op_set_item = 57
op_byte op_del_item = 58
op_byte op_build_list = 59
op_byte op_build_map = 60
op_byte op_build_tuple = 61
op_byte op_build_set = 62
op_byte op_build_slice = 63
op_byte op_build_str = 64
op_byte op_make_func = 65
op_byte op_make_class = 66
op_byte op_load_super = 67
op_byte op_get_iter = 68
op_byte op_for_iter = 69
op_byte op_push_except = 70
op_byte op_pop_except = 71
op_byte op_raise = 72
op_byte op_raise_assert = 73
op_byte op_reraise = 74
op_byte op_load_exception = 75
op_byte op_clear_exception = 76
op_byte op_with_enter = 77
op_byte op_with_exit = 78
op_byte op_go = 79
op_byte op_make_chan = 80
op_byte op_chan_send = 81
op_byte op_chan_recv = 82
op_byte op_chan_close = 83
op_byte op_await = 84
op_byte op_select_begin = 85
op_byte op_select_case_send = 86
op_byte op_select_case_recv = 87
op_byte op_select_end = 88
op_byte op_import = 89
op_byte op_import_from = 90
op_byte op_to_str = 91

-- `MsOpFmt`
pub data OpFmt : Type 0 where
  fmt_none fmt_a fmt_ax_const fmt_ax_jump fmt_ax_plain fmt_const_int : OpFmt
  fmt_make_func fmt_make_class : OpFmt

-- The formats in `kOpInfo`.
unfoldable pub op_fmt : OpCode → OpFmt
op_fmt op_pop = fmt_none
op_fmt op_dup = fmt_none
op_fmt op_rot2 = fmt_none
op_fmt op_const = fmt_ax_const
op_fmt op_const_int = fmt_const_int
op_fmt op_const_true = fmt_none
op_fmt op_const_false = fmt_none
op_fmt op_const_nil = fmt_none
op_fmt op_get_local = fmt_a
op_fmt op_set_local = fmt_a
op_fmt op_get_global = fmt_ax_const
op_fmt op_set_global = fmt_ax_const
op_fmt op_del_global = fmt_ax_const
op_fmt op_get_upvalue = fmt_a
op_fmt op_set_upvalue = fmt_a
op_fmt op_close_upvalue = fmt_none
op_fmt op_add = fmt_none
op_fmt op_sub = fmt_none
op_fmt op_mul = fmt_none
op_fmt op_div = fmt_none
op_fmt op_mod = fmt_none
op_fmt op_pow = fmt_none
op_fmt op_neg = fmt_none
op_fmt op_band = fmt_none
op_fmt op_bor = fmt_none
op_fmt op_bxor = fmt_none
op_fmt op_shl = fmt_none
op_fmt op_shr = fmt_none
op_fmt op_bnot = fmt_none
op_fmt op_eq = fmt_none
op_fmt op_ne = fmt_none
op_fmt op_lt = fmt_none
op_fmt op_le = fmt_none
op_fmt op_gt = fmt_none
op_fmt op_ge = fmt_none
op_fmt op_in = fmt_none
op_fmt op_is = fmt_none
op_fmt op_not = fmt_none
op_fmt op_is_not = fmt_none
op_fmt op_not_in = fmt_none
op_fmt op_isinstance = fmt_none
op_fmt op_and_jmp = fmt_ax_jump
op_fmt op_or_jmp = fmt_ax_jump
op_fmt op_jump = fmt_ax_jump
op_fmt op_jump_if_false = fmt_ax_jump
op_fmt op_jump_if_true = fmt_ax_jump
op_fmt op_jump_if_false_peek = fmt_ax_jump
op_fmt op_call = fmt_a
op_fmt op_call_async = fmt_a
op_fmt op_call_ex = fmt_none
op_fmt op_call_kw = fmt_a
op_fmt op_return = fmt_none
op_fmt op_return_nil = fmt_none
op_fmt op_get_attr = fmt_ax_const
op_fmt op_set_attr = fmt_ax_const
op_fmt op_del_attr = fmt_ax_const
op_fmt op_get_item = fmt_none
op_fmt op_set_item = fmt_none
op_fmt op_del_item = fmt_none
op_fmt op_build_list = fmt_a
op_fmt op_build_map = fmt_a
op_fmt op_build_tuple = fmt_a
op_fmt op_build_set = fmt_a
op_fmt op_build_slice = fmt_a
op_fmt op_build_str = fmt_a
op_fmt op_make_func = fmt_make_func
op_fmt op_make_class = fmt_make_class
op_fmt op_load_super = fmt_none
op_fmt op_get_iter = fmt_none
op_fmt op_for_iter = fmt_ax_jump
op_fmt op_push_except = fmt_ax_jump
op_fmt op_pop_except = fmt_none
op_fmt op_raise = fmt_a
op_fmt op_raise_assert = fmt_a
op_fmt op_reraise = fmt_none
op_fmt op_load_exception = fmt_none
op_fmt op_clear_exception = fmt_none
op_fmt op_with_enter = fmt_none
op_fmt op_with_exit = fmt_a
op_fmt op_go = fmt_a
op_fmt op_make_chan = fmt_a
op_fmt op_chan_send = fmt_none
op_fmt op_chan_recv = fmt_none
op_fmt op_chan_close = fmt_none
op_fmt op_await = fmt_none
op_fmt op_select_begin = fmt_ax_plain
op_fmt op_select_case_send = fmt_none
op_fmt op_select_case_recv = fmt_none
op_fmt op_select_end = fmt_none
op_fmt op_import = fmt_ax_const
op_fmt op_import_from = fmt_ax_const
op_fmt op_to_str = fmt_none

-- The names in `kOpInfo`.
unfoldable pub op_name : OpCode → String
op_name op_pop = "OP_POP"
op_name op_dup = "OP_DUP"
op_name op_rot2 = "OP_ROT2"
op_name op_const = "OP_CONST"
op_name op_const_int = "OP_CONST_INT"
op_name op_const_true = "OP_CONST_TRUE"
op_name op_const_false = "OP_CONST_FALSE"
op_name op_const_nil = "OP_CONST_NIL"
op_name op_get_local = "OP_GET_LOCAL"
op_name op_set_local = "OP_SET_LOCAL"
op_name op_get_global = "OP_GET_GLOBAL"
op_name op_set_global = "OP_SET_GLOBAL"
op_name op_del_global = "OP_DEL_GLOBAL"
op_name op_get_upvalue = "OP_GET_UPVALUE"
op_name op_set_upvalue = "OP_SET_UPVALUE"
op_name op_close_upvalue = "OP_CLOSE_UPVALUE"
op_name op_add = "OP_ADD"
op_name op_sub = "OP_SUB"
op_name op_mul = "OP_MUL"
op_name op_div = "OP_DIV"
op_name op_mod = "OP_MOD"
op_name op_pow = "OP_POW"
op_name op_neg = "OP_NEG"
op_name op_band = "OP_BAND"
op_name op_bor = "OP_BOR"
op_name op_bxor = "OP_BXOR"
op_name op_shl = "OP_SHL"
op_name op_shr = "OP_SHR"
op_name op_bnot = "OP_BNOT"
op_name op_eq = "OP_EQ"
op_name op_ne = "OP_NE"
op_name op_lt = "OP_LT"
op_name op_le = "OP_LE"
op_name op_gt = "OP_GT"
op_name op_ge = "OP_GE"
op_name op_in = "OP_IN"
op_name op_is = "OP_IS"
op_name op_not = "OP_NOT"
op_name op_is_not = "OP_IS_NOT"
op_name op_not_in = "OP_NOT_IN"
op_name op_isinstance = "OP_ISINSTANCE"
op_name op_and_jmp = "OP_AND_JMP"
op_name op_or_jmp = "OP_OR_JMP"
op_name op_jump = "OP_JUMP"
op_name op_jump_if_false = "OP_JUMP_IF_FALSE"
op_name op_jump_if_true = "OP_JUMP_IF_TRUE"
op_name op_jump_if_false_peek = "OP_JUMP_IF_FALSE_PEEK"
op_name op_call = "OP_CALL"
op_name op_call_async = "OP_CALL_ASYNC"
op_name op_call_ex = "OP_CALL_EX"
op_name op_call_kw = "OP_CALL_KW"
op_name op_return = "OP_RETURN"
op_name op_return_nil = "OP_RETURN_NIL"
op_name op_get_attr = "OP_GET_ATTR"
op_name op_set_attr = "OP_SET_ATTR"
op_name op_del_attr = "OP_DEL_ATTR"
op_name op_get_item = "OP_GET_ITEM"
op_name op_set_item = "OP_SET_ITEM"
op_name op_del_item = "OP_DEL_ITEM"
op_name op_build_list = "OP_BUILD_LIST"
op_name op_build_map = "OP_BUILD_MAP"
op_name op_build_tuple = "OP_BUILD_TUPLE"
op_name op_build_set = "OP_BUILD_SET"
op_name op_build_slice = "OP_BUILD_SLICE"
op_name op_build_str = "OP_BUILD_STR"
op_name op_make_func = "OP_MAKE_FUNC"
op_name op_make_class = "OP_MAKE_CLASS"
op_name op_load_super = "OP_LOAD_SUPER"
op_name op_get_iter = "OP_GET_ITER"
op_name op_for_iter = "OP_FOR_ITER"
op_name op_push_except = "OP_PUSH_EXCEPT"
op_name op_pop_except = "OP_POP_EXCEPT"
op_name op_raise = "OP_RAISE"
op_name op_raise_assert = "OP_RAISE_ASSERT"
op_name op_reraise = "OP_RERAISE"
op_name op_load_exception = "OP_LOAD_EXCEPTION"
op_name op_clear_exception = "OP_CLEAR_EXCEPTION"
op_name op_with_enter = "OP_WITH_ENTER"
op_name op_with_exit = "OP_WITH_EXIT"
op_name op_go = "OP_GO"
op_name op_make_chan = "OP_MAKE_CHAN"
op_name op_chan_send = "OP_CHAN_SEND"
op_name op_chan_recv = "OP_CHAN_RECV"
op_name op_chan_close = "OP_CHAN_CLOSE"
op_name op_await = "OP_AWAIT"
op_name op_select_begin = "OP_SELECT_BEGIN"
op_name op_select_case_send = "OP_SELECT_CASE_SEND"
op_name op_select_case_recv = "OP_SELECT_CASE_RECV"
op_name op_select_end = "OP_SELECT_END"
op_name op_import = "OP_IMPORT"
op_name op_import_from = "OP_IMPORT_FROM"
op_name op_to_str = "OP_TO_STR"
