-- ===== src/Parser/Arena/Regions.antt =====
-- src/parser/ms_arena.c: the regions of memory that are handed out.
use native.Mathlib.Nat.{mod-eq_of_lt, mod-lt, div-add-mod, mul_comm, mul-mod_left}
use Prim.Native.Nat.{bit_and}
use mathlib.Core.Path.{subst}
use mslang_c.Base.Masks.{bit_and-mask, power_positive}
use mslang_c.Base.{
  ℕ, ◌+◌, ◌-◌, ◌*◌, ◌/◌, ◌%◌, ◌^◌, ◌≤◌, ◌<◌, ◌≡◌, ◌⊎◌, inl, inr, sym, some, get_elem?, ap, ◌∙◌,
  arith,
}
use mslang_c.Parser.Arena.{Block, Arena, align_up, block_data_size, blocks}

pub record Region : Type 0 where
  pub at : ℕ
  pub size : ℕ

-- Two regions have no byte in common.
abbrev pub Apart : Region → Region → Type 0
Apart r s = (r.at + r.size ≤ s.at) ⊎ (s.at + s.size ≤ r.at)

abbrev pub data_of : Block → Region
data_of b = record { at = b.data_at; size = b.cap }

abbrev pub Within : Region → Region → Type 0
Within r s = (s.at ≤ r.at) × (r.at + r.size ≤ s.at + s.size)

-- The region was handed out: in the used part of the head, or in an older block.
pub data Handed (a : Arena) (r : Region) : Type 0 where
  in_head : (b : Block) → a.head ≡ some b → b.data_at ≤ r.at → r.at + r.size ≤ a.ptr → Handed a r
  in_older : (i : ℕ) (b : Block) → get_elem? a.older i ≡ some b → Within r (data_of b) → Handed a r

-- The free part is at the end of the head, and the head apart from the older blocks.
pub record IsArena (a : Arena) : Type 0 where
  pub free :
      (b : Block)
      → a.head ≡ some b
      → (b.data_at ≤ a.ptr) × (a.ptr ≤ a.limit) × (a.limit ≡ b.data_at + b.cap)
  pub apart :
      (b : Block)
      → a.head ≡ some b
      → (i : ℕ) (c : Block) → get_elem? a.older i ≡ some c
      → Apart (data_of b) (data_of c)

-- The data of a new block is apart from all blocks there are.
abbrev pub IsFresh : Arena → Region → Type 0
IsFresh a r =
    (i : ℕ) (c : Block) → get_elem? (blocks a.head a.older) i ≡ some c → Apart r (data_of c)

record IsAligned (at align p : ℕ) : Type 0 where
  pub low : at ≤ p
  pub high : p ≤ at + (align - 1)
  pub multiple : p % align ≡ 0

-- A power of two, up to 2^15.
abbrev pub IsPower : ℕ → Type 0
IsPower align = (e : ℕ) × (e ≤ 15) × (align ≡ 2 ^ e)

align_up-division :
    (at align : ℕ) → IsPower align → align_up at align ≡ (at + (align - 1)) % 2 ^ 64 / align * align
align_up-division at align (e, small, power) =
    let pos = power_positive e in
    let split : 64 ≡ e + (64 - e) = omega arith in
    let width : 2 ^ 64 ≡ 2 ^ (e + (64 - e)) = ap (λ (n : ℕ). 2 ^ n) split in
    let mask : 2 ^ 64 - 1 - (align - 1) ≡ 2 ^ 64 - align = omega arith in
    let n = (at + (align - 1)) % 2 ^ 64 in
    ap (bit_and n) mask
    ∙ bit_and-mask e (64 - e) n (2 ^ 64) align width power (mod-lt (at + (align - 1)) (omega arith))

align_up-IsAligned :
    (at align : ℕ) → IsPower align → at + align < 2 ^ 64 → IsAligned at align (align_up at align)
align_up-IsAligned at align power small =
    let n = at + (align - 1) in
    let pos : 0 < align = omega (arith, power_positive power.0, power.2) in
    let whole : n % 2 ^ 64 ≡ n = mod-eq_of_lt (omega arith) in
    let split = div-add-mod n align in
    let rest = mod-lt n pos in
    let swap = mul_comm align (n / align) in
    let aligned : IsAligned at align (n / align * align) = record {
      low = omega arith;
      high = omega arith;
      multiple = mul-mod_left (n / align) align;
    } in
    subst (IsAligned at align)
      (sym (align_up-division at align power ∙ ap (λ (m : ℕ). m / align * align) whole)) aligned

-- What an allocation of the size makes of an arena.
pub record Allocates (a : Arena) (size align : ℕ) (r : Arena × ℕ) : Type 0 where
  pub is_arena : IsArena r.0
  pub aligned : r.1 % align ≡ 0
  pub in_front : (b : Block) × (r.0.head ≡ some b) × (b.data_at ≤ r.1) × (r.1 + size ≡ r.0.ptr)
  pub handed : Handed r.0 (record { at = r.1; size = size })
  pub kept : (s : Region) → Handed a s → Handed r.0 s
  pub disjoint : (s : Region) → Handed a s → Apart (record { at = r.1; size = size }) s

Apart-sym : (r s : Region) → Apart r s → Apart s r
Apart-sym r s (inl h) = inr h
Apart-sym r s (inr h) = inl h

module _ (a : Arena) (size align : ℕ) (valid : IsArena a) (power : IsPower align) where
  module _ (b : Block) (head : a.head ≡ some b) (small : a.ptr + align + size < 2 ^ 64)
      (fits : align_up a.ptr align + size ≤ a.limit) where
    abbrev here : Region
    here = record { at = align_up a.ptr align; size = size }

    up : IsAligned a.ptr align (align_up a.ptr align)
    up = align_up-IsAligned a.ptr align power (omega arith)

    whole : (align_up a.ptr align + size) % 2 ^ 64 ≡ align_up a.ptr align + size
    whole = mod-eq_of_lt (omega (arith, up.high))

  module _ (data_at : ℕ) (modest : align ≤ 2 ^ 15)
      (small : data_at + 2 ^ 16 + align + size < 2 ^ 64)
      (fresh : IsFresh a (record { at = data_at; size = block_data_size size align })) where
    abbrev fresh_block : Block
    fresh_block = record { data_at = data_at; cap = block_data_size size align }

    abbrev there : Region
    there = record { at = align_up data_at align; size = size }
