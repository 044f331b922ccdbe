-- ===== src/Parser/Arena.antt =====
-- src/parser/ms_arena.c: allocation of syntax trees from blocks.
-- An address is a number. The block that `msAlloc` returns is known by the address of its `data`, which
-- is an argument.
pub mod Regions
use Prim.Native.Nat.{bit_and}
use mslang_c.Base.{
  ℕ, zero, suc, ◌+◌, ◌-◌, ◌*◌, ◌/◌, ◌%◌, ◌^◌, Bool, true, false, ◌&&◌, Option, none, some, List, [],
  ◌∷◌, ltb, leb, if◌then◌else◌,
}

-- `MsArenaBlock`: where its data is, and how much.
pub record Block : Type 0 where
  pub data_at : ℕ
  pub cap : ℕ

-- `MsArena`: the head of the list of blocks, the blocks behind it, and the free part of the head.
pub record Arena : Type 0 where
  pub head : Option Block
  pub older : List Block
  pub ptr : ℕ
  pub limit : ℕ

-- `MS_ARENA_BLOCK_SIZE`
abbrev pub arena_block_size : ℕ
arena_block_size = 65536

-- `msArenaInit`
abbrev pub arena_init : Arena
arena_init = record { head = none; older = []; ptr = 0; limit = 0 }

-- `(at + (align - 1)) & ~(uintptr_t) (align - 1)`, on 64 bits.
abbrev pub align_up : ℕ → ℕ → ℕ
align_up at align = bit_and ((at + (align - 1)) % 2 ^ 64) (2 ^ 64 - 1 - (align - 1))

abbrev pub is_some : Option Block → Bool
is_some none = false
is_some (some b) = true

-- The alignment that is used: 8 at least.
abbrev pub min_align : ℕ → ℕ
min_align align = if ltb align 8 then 8 else align

-- The size of the data of a new block.
abbrev pub block_data_size : ℕ → ℕ → ℕ
block_data_size size align =
    if ltb (arena_block_size / 2) size then (size + (align - 1)) % 2 ^ 64 else arena_block_size

abbrev pub blocks : Option Block → List Block → List Block
blocks none older = older
blocks (some b) older = b ∷ older

-- `msArenaAlloc` of a new block, whose data is at `data_at`.
abbrev pub in_new_block : Arena → ℕ → ℕ → ℕ → Arena × ℕ
in_new_block a size align data_at =
    let cap = block_data_size size align in
    let at = align_up data_at align in
    (
      record {
        head = some (record { data_at = data_at; cap = cap });
        older = blocks a.head a.older;
        ptr = (at + size) % 2 ^ 64;
        limit = data_at + cap;
      },
      at,
    )

abbrev pub in_block : Arena → ℕ → ℕ → Arena × ℕ
in_block a size at =
    (record { head = a.head; older = a.older; ptr = (at + size) % 2 ^ 64; limit = a.limit }, at)

-- `msArenaAlloc` with the alignment that is used.
unfoldable pub alloc_aligned : Arena → ℕ → ℕ → ℕ → Arena × ℕ
alloc_aligned a size align data_at =
    let at = align_up a.ptr align in
    if is_some a.head && leb ((at + size) % 2 ^ 64) a.limit
    then in_block a size at
    else in_new_block a size align data_at

-- `msArenaAlloc`
abbrev pub arena_alloc : Arena → ℕ → ℕ → ℕ → Arena × ℕ
arena_alloc a size align data_at = alloc_aligned a size (min_align align) data_at

-- `msArenaFree`
abbrev pub arena_free : Arena → Arena
arena_free a = record { head = none; older = []; ptr = 0; limit = 0 }
