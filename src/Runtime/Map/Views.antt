-- ===== src/Runtime/Map/Views.antt =====
-- src/runtime/ms_map.c: the keys, values and pairs of a map, and its iterator.
use mslang_c.Base.{ℕ, suc, List, [], ◌∷◌, drop}
use mslang_c.Runtime.Table.{Slot, unused, tombstone, live, Table}

module _ {ℓ} {K V : Type ℓ} where
  -- `msMapKeys`: the loop over the slots.
  abbrev pub keys_of : List (Slot K V) → List K
  keys_of [] = []
  keys_of (unused ∷ es) = keys_of es
  keys_of (tombstone ∷ es) = keys_of es
  keys_of (live h k v ∷ es) = k ∷ keys_of es

  -- `msMapValues`: the loop over the slots.
  abbrev pub values_of : List (Slot K V) → List V
  values_of [] = []
  values_of (unused ∷ es) = values_of es
  values_of (tombstone ∷ es) = values_of es
  values_of (live h k v ∷ es) = v ∷ values_of es

  -- `msMapItems`: the loop over the slots.
  abbrev pub items_of : List (Slot K V) → List (K × V)
  items_of [] = []
  items_of (unused ∷ es) = items_of es
  items_of (tombstone ∷ es) = items_of es
  items_of (live h k v ∷ es) = (k, v) ∷ items_of es

  module _ (nil : K) where
    -- `mapIterNext`: the loop from a slot, over the slots from there. It returns the next key and the
    -- iterator's new slot. At the end it returns `MS_NIL_VAL`, as it does for a key that is nil.
    abbrev pub next_key : List (Slot K V) → ℕ → K × ℕ
    next_key [] i = (nil, i)
    next_key (unused ∷ es) i = next_key es (suc i)
    next_key (tombstone ∷ es) i = next_key es (suc i)
    next_key (live h k v ∷ es) i = (k, suc i)

    -- `mapIterNext`
    abbrev pub iter_next : Table K V → ℕ → K × ℕ
    iter_next m slot_idx = next_key (drop slot_idx m.entries) slot_idx
