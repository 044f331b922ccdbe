-- ===== src/Runtime/Table.antt =====
-- src/runtime/ms_map.c, the open-addressing table: slots, probing, insertion and growth.
-- The entries are a list of `cap` slots. A slot that is not occupied is a tombstone if its hash is
-- `MS_MAP_TOMBSTONE_HASH`, and unused otherwise. `cap` is a power of two, so `& (cap - 1)` is the
-- remainder by `cap`. `msValueEqual` is the argument `equal`.
pub mod Count
pub mod Grow
pub mod Include
pub mod Insert
pub mod Join
pub mod Lookup
pub mod Valid
pub mod Probe
pub mod Store
pub mod Write
use mslang_c.Base.{
  ℕ, zero, suc, ◌+◌, ◌-◌, ◌*◌, ◌%◌, ◌^◌, Bool, true, false, ◌&&◌, Option, none, some, List, [], ◌∷◌,
  ltb, ◌==◌, if◌then◌else◌, length, get_or, set,
}

-- `MsMapEntry`
pub data Slot {ℓ} (K V : Type ℓ) : Type ℓ where
  unused tombstone : Slot K V
  live : ℕ → K → V → Slot K V

-- `MsMapObj`
pub record Table {ℓ} (K V : Type ℓ) : Type ℓ where
  pub entries : List (Slot K V)
  pub len : ℕ
  pub tombstones : ℕ

abbrev pub first : Option ℕ → ℕ → ℕ
first none i = i
first (some t) i = t

-- The test of an occupied entry: `e->hash == hash && msValueEqual(e->key, key)`.
abbrev pub is_match {ℓ} : {K : Type ℓ} → (K → K → Bool) → K → ℕ → ℕ → K → Bool
is_match equal key hash h k = h == hash && equal k key

module _ {ℓ} {K V : Type ℓ} where
  abbrev pub slot_at : List (Slot K V) → ℕ → Slot K V
  slot_at entries i = get_or entries i unused

  abbrev pub is_live : Slot K V → Bool
  is_live (live h k v) = true
  is_live _ = false

  abbrev pub is_tombstone : Slot K V → Bool
  is_tombstone tombstone = true
  is_tombstone _ = false

  -- `allocZeroedEntries`
  abbrev pub zeroed_entries : ℕ → List (Slot K V)
  zeroed_entries zero = []
  zeroed_entries (suc n) = unused ∷ zeroed_entries n

  module _ (equal : K → K → Bool) (key : K) (hash : ℕ) where
    -- The loop of `findSlot`, at the slot `idx` and behind the tombstone `seen`, if any. `none` means
    -- that the fuel ran out.
    unfoldable pub probe : ℕ → List (Slot K V) → ℕ → Option ℕ → Option ℕ
    probe zero entries idx seen = none
    probe (suc fuel) entries idx seen =
        let next = (idx + 1) % length entries in
        let past_tombstone = probe fuel entries next (some (first seen idx)) in
        let past_live = probe fuel entries next seen in
        elim (slot_at entries idx) [
          | unused ↦ some (first seen idx)
          | tombstone ↦ past_tombstone
          | live h k v ↦ if is_match equal key hash h k then some idx else past_live
        ]

    -- `findSlot`; the fuel is the number of slots.
    abbrev pub find_slot : List (Slot K V) → Option ℕ
    find_slot entries = probe (length entries) entries (hash % length entries) none

  -- The writes of `mapSetHashed` to the slot `i`.
  unfoldable pub write_at : Table K V → ℕ → K → V → ℕ → Table K V
  write_at m hash key value i =
      let entries = set m.entries i (live hash key value) in
      elim (slot_at m.entries i) [
        | unused ↦ record { entries = entries; len = m.len + 1; tombstones = m.tombstones }
        | tombstone ↦ record { entries = entries; len = m.len + 1; tombstones = m.tombstones - 1 }
        | live h k v ↦ record { entries = entries; len = m.len; tombstones = m.tombstones }
      ]

  -- Whether the table is too full for one more entry.
  abbrev pub is_full : Table K V → Bool
  is_full m = ltb (length m.entries * 3 % 2 ^ 32) ((m.len + m.tombstones + 1) * 4 % 2 ^ 32)

  module _ (equal : K → K → Bool) where
    -- The writes of `msMapResize` to the slot found.
    abbrev pub put_at : List (Slot K V) → ℕ → K → V → Option ℕ → Option (List (Slot K V))
    put_at entries hash key value none = none
    put_at entries hash key value (some i) = some (set entries i (live hash key value))

    -- The loop of `msMapResize` over the old entries.
    unfoldable pub rehash : List (Slot K V) → List (Slot K V) → Option (List (Slot K V))
    rehash [] entries = some entries
    rehash (unused ∷ old) entries = rehash old entries
    rehash (tombstone ∷ old) entries = rehash old entries
    rehash (live h k v ∷ old) entries = elim (put_at entries h k v (find_slot equal k h entries)) [
      | none ↦ none
      | some next ↦ rehash old next
    ]

    -- `msMapResize`
    unfoldable pub resize : Table K V → ℕ → Option (Table K V)
    resize m new_cap = elim (rehash m.entries (zeroed_entries new_cap)) [
      | none ↦ none
      | some entries ↦ some (record { entries = entries; len = m.len; tombstones = 0 })
    ]

    -- The growth in `mapSetHashed`.
    unfoldable pub grown : Table K V → Option (Table K V)
    grown m =
        let cap = length m.entries in
        if is_full m then resize m (if ltb cap 8 then 8 else cap * 2 % 2 ^ 32) else some m

    -- `mapSetHashed` behind the growth.
    unfoldable pub put_hashed : ℕ → K → V → Table K V → Option (Table K V)
    put_hashed hash key value m = elim (find_slot equal key hash m.entries) [
      | none ↦ none
      | some i ↦ some (write_at m hash key value i)
    ]

    -- `mapSetHashed`
    unfoldable pub set_hashed : Table K V → K → V → ℕ → Option (Table K V)
    set_hashed m key value hash = elim (grown m) [
      | none ↦ none
      | some m' ↦ put_hashed hash key value m'
    ]

  -- An occupied slot becomes a tombstone.
  unfoldable pub bury : Table K V → ℕ → Table K V
  bury m i = record {
    entries = set m.entries i tombstone;
    len = m.len - 1;
    tombstones = m.tombstones + 1;
  }
