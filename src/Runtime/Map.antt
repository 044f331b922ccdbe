-- ===== src/Runtime/Map.antt =====
-- src/runtime/ms_map.c: the operations of a map over its table of slots.
-- A map is the table of Runtime/Table. Its keys' `msValueEqual` and `hashValue` are an argument
-- `keys`, and `nil` is the value `MS_NIL_VAL`. An operation returns `none` if the fuel of a loop ran
-- out, and else the map and what the source returns: `error` stands for `MS_ERROR_VALUE`.
pub mod Change
pub mod Create
pub mod Equal
pub mod Found
pub mod Pairs
pub mod Read
pub mod Remove
pub mod Samples
pub mod Update
pub mod Views
mod Tests
use mslang_c.Base.{
  ℕ, zero, suc, ◌+◌, ◌-◌, ◌*◌, ◌%◌, ◌^◌, Bool, true, false, ◌&&◌, Option, none, some, List, [], ◌∷◌,
  ◌++◌, ltb, ◌==◌, not, if◌then◌else◌, length, drop, get_or,
}
use mslang_c.Runtime.Table.{
  Slot, unused, tombstone, live, Table, slot_at, zeroed_entries, find_slot, set_hashed, bury,
}
use mslang_c.Runtime.Table.Insert.{Keys}

pub data Answer {ℓ} (A : Type ℓ) : Type ℓ where
  error : Answer A
  answer : A → Answer A

module _ {ℓ} {A : Type ℓ} where
  abbrev pub value_or : A → Option A → A
  value_or d none = d
  value_or d (some v) = v

  abbrev pub is_some : Option A → Bool
  is_some none = false
  is_some (some v) = true

  -- What was found, else `MS_ERROR_VALUE`.
  abbrev pub or_error : Option A → Answer A
  or_error none = error
  or_error (some v) = answer v

  -- The position that was found, if the search ended.
  abbrev pub just : Option A → Option (Option A)
  just none = none
  just (some i) = some (some i)

  -- What an operation that only reads makes of the entry.
  abbrev pub on_entry : (Option ℕ → Answer A) → Option (Answer (Option ℕ)) → Option (Answer A)
  on_entry f none = none
  on_entry f (some error) = some error
  on_entry f (some (answer e)) = some (f e)

-- `roundUpPow2`: the loop from `p`.
unfoldable pub double_up : ℕ → ℕ → ℕ → Option ℕ
double_up zero n p = none
double_up (suc fuel) n p =
    (let rest = double_up fuel n (p * 2 % 2 ^ 32) in if ltb p n then rest else some p)

-- `roundUpPow2`
abbrev pub round_up_pow2 : ℕ → Option ℕ
round_up_pow2 n = double_up 29 n 8

module _ {ℓ} (K V : Type ℓ) where
  -- `msNewMap` behind the rounding.
  abbrev pub empty_map : ℕ → Table K V
  empty_map cap = record { entries = zeroed_entries cap; len = 0; tombstones = 0 }

  -- `msNewMap`
  unfoldable pub new_map : ℕ → Option (Table K V)
  new_map init_cap = elim (round_up_pow2 init_cap) [ none ↦ none | some cap ↦ some (empty_map cap) ]

module _ {ℓ} {K V : Type ℓ} where
  abbrev pub value_of : Slot K V → Option V
  value_of (live h k v) = some v
  value_of _ = none

  -- `e && e->occupied`, with the entry's value.
  abbrev pub held : Table K V → Option ℕ → Option V
  held m none = none
  held m (some i) = value_of (slot_at m.entries i)

  -- `msMapClear`
  abbrev pub clear : Table K V → Table K V
  clear m = record { entries = zeroed_entries (length m.entries); len = 0; tombstones = 0 }

  -- `mapLen`
  abbrev pub map_len : Table K V → ℕ
  map_len m = m.len

  -- `msMapCopy`
  unfoldable pub copy : Table K V → Option (Table K V)
  copy m = elim (new_map K V (length m.entries)) [
    | none ↦ none
    | some r ↦ some (record {
      entries = m.entries ++ drop (length m.entries) r.entries;
      len = m.len;
      tombstones = m.tombstones;
    })
  ]

  -- `m->len ? findSlot(...) : NULL`
  unfoldable pub find_in : (K → K → Bool) → Table K V → K → ℕ → Option (Option ℕ)
  find_in equal m key hash =
      if m.len == 0 then some none else just (find_slot equal key hash m.entries)

  module _ (keys : Keys K) where
    -- `lookupEntry`; `answer none` is a null pointer.
    unfoldable pub lookup_entry : Table K V → K → Option (Answer (Option ℕ))
    lookup_entry m key = elim (keys.hash key) [
      | none ↦ some error
      | some hash ↦ elim (find_in keys.equal m key hash) [ none ↦ none | some e ↦ some (answer e) ]
    ]

    -- `msMapGet`
    unfoldable pub get : V → Table K V → K → Option (Answer V)
    get nil m key = on_entry (λ e. answer (value_or nil (held m e))) (lookup_entry m key)

    -- `mapGetItem`
    unfoldable pub get_item : Table K V → K → Option (Answer V)
    get_item m key = on_entry (λ e. or_error (held m e)) (lookup_entry m key)

    -- `msMapHas`
    unfoldable pub has : Table K V → K → Option (Answer Bool)
    has m key = on_entry (λ e. answer (is_some (held m e))) (lookup_entry m key)

    -- `msMapGetDefault`
    unfoldable pub get_default : Table K V → K → V → Option (Answer V)
    get_default m key default =
        on_entry (λ e. answer (value_or default (held m e))) (lookup_entry m key)

    -- `mapSetHashed`, with the value that the operation returns.
    abbrev pub stored : Table K V → K → V → ℕ → V → Option (Table K V × Answer V)
    stored m key value hash result = elim (set_hashed keys.equal m key value hash) [
      | none ↦ none
      | some r ↦ some (r, answer result)
    ]

    -- `msMapSet`
    unfoldable pub set_item : V → Table K V → K → V → Option (Table K V × Answer V)
    set_item nil m key value = elim (keys.hash key) [
      | none ↦ some (m, error)
      | some hash ↦ stored m key value hash nil
    ]

    -- The removal of an entry, with what the operation returns for one that was there and for none.
    abbrev pub remove_entry :
        Table K V
        → (V → Answer V)
        → Answer V
        → Option (Answer (Option ℕ))
        → Option (Table K V × Answer V)
    remove_entry m f absent none = none
    remove_entry m f absent (some error) = some (m, error)
    remove_entry m f absent (some (answer none)) = some (m, absent)
    remove_entry m f absent (some (answer (some i))) = elim (slot_at m.entries i) [
      | unused ↦ some (m, absent)
      | tombstone ↦ some (m, absent)
      | live h k v ↦ some (bury m i, f v)
    ]

    -- `msMapDel`
    unfoldable pub delete : V → Table K V → K → Option (Table K V × Answer V)
    delete nil m key = remove_entry m (λ v. answer nil) error (lookup_entry m key)

    -- `msMapPop`
    unfoldable pub pop : Table K V → K → V → Option (Table K V × Answer V)
    pop m key default = remove_entry m (λ v. answer v) (answer default) (lookup_entry m key)

    -- `msMapSetDefault` at the entry that was found.
    abbrev pub set_default_at : Table K V → K → V → ℕ → Option V → Option (Table K V × Answer V)
    set_default_at m key value hash (some v) = some (m, answer v)
    set_default_at m key value hash none = stored m key value hash value

    abbrev pub default_entry :
        Table K V → K → V → ℕ → Option (Answer (Option ℕ)) → Option (Table K V × Answer V)
    default_entry m key value hash none = none
    default_entry m key value hash (some error) = some (m, error)
    default_entry m key value hash (some (answer e)) = set_default_at m key value hash (held m e)

    -- `msMapSetDefault`
    unfoldable pub set_default : Table K V → K → V → Option (Table K V × Answer V)
    set_default m key value = elim (keys.hash key) [
      | none ↦ some (m, error)
      | some hash ↦ default_entry m key value hash (lookup_entry m key)
    ]

    -- `msMapUpdate`: the loop over the other map's slots.
    unfoldable pub update_from : V → Table K V → List (Slot K V) → Option (Table K V × Answer V)
    update_from nil m [] = some (m, answer nil)
    update_from nil m (unused ∷ es) = update_from nil m es
    update_from nil m (tombstone ∷ es) = update_from nil m es
    update_from nil m (live h k v ∷ es) = elim (set_item nil m k v) [
      | none ↦ none
      | some (r, error) ↦ some (r, error)
      | some (r, answer x) ↦ update_from nil r es
    ]

    -- `msMapUpdate` with another value, none if it is not a map.
    abbrev pub update : V → Table K V → Option (Table K V) → Option (Table K V × Answer V)
    update nil m none = some (m, error)
    update nil m (some other) = update_from nil m other.entries

    -- `mapEq`: the loop over the first map's slots; `same` is `msValueEqual` on values.
    unfoldable pub all_equal : (V → V → Bool) → List (Slot K V) → Table K V → Option Bool
    all_equal same [] b = some true
    all_equal same (unused ∷ es) b = all_equal same es b
    all_equal same (tombstone ∷ es) b = all_equal same es b
    all_equal same (live h k v ∷ es) b = elim (find_in keys.equal b k h) [
      | none ↦ none
      | some e ↦ elim (held b e) [
        | none ↦ some false
        | some w ↦ if same w v then all_equal same es b else some false
      ]
    ]

    -- `mapEq` with another value, none if it is not a map.
    unfoldable pub map_eq : (V → V → Bool) → Table K V → Option (Table K V) → Option Bool
    map_eq same a none = some false
    map_eq same a (some b) =
        (let rest = all_equal same a.entries b in if a.len == b.len then rest else some false)
