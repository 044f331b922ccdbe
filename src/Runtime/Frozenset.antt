-- ===== src/Runtime/Frozenset.antt =====
-- src/runtime/ms_frozenset.c: sets that do not change, and their hash.
-- A frozenset is a set of Runtime/Set, with other operations on it; see there for the arguments.
pub mod Hash
pub mod Items
mod Tests
use Prim.{Unit, tt}
use Prim.Native.Nat.{bit_xor}
use mslang_c.Base.{
  ℕ, zero, suc, ◌+◌, ◌*◌, ◌%◌, ◌^◌, Bool, true, false, Option, none, some, List, [], ◌∷◌, ltb, ◌==◌,
  if◌then◌else◌, length,
}
use mslang_c.Runtime.Map.{Answer, error, answer}
use mslang_c.Runtime.Set
use mslang_c.Runtime.Set.{
  SetObj, Entry, with_set, answered, and_then, insert_all, filter_into, is_subset, is_proper_subset,
}
use mslang_c.Runtime.Table.{Slot, unused, tombstone, live, Table}
use mslang_c.Runtime.Table.Insert.{Keys}

-- The value of which a frozenset is made: a list, a set or frozenset, or something else.
pub data Iterable (K : Type 0) : Type 0 where
  other_value : Iterable K
  list_value : List K → Iterable K
  set_value : SetObj K → Iterable K

module _ {K : Type 0} where
  -- `newFrozenset`
  abbrev pub new_frozenset : ℕ → Option (SetObj K)
  new_frozenset init_cap = Set.new_set init_cap

  -- `frozensetHash`: the loop over the slots.
  unfoldable pub hash_from : ℕ → List (Entry K) → ℕ
  hash_from h [] = h
  hash_from h (unused ∷ es) = hash_from h es
  hash_from h (tombstone ∷ es) = hash_from h es
  hash_from h (live g k v ∷ es) = hash_from (bit_xor h (g * 0x9e3779b9 % 2 ^ 32)) es

  -- `frozensetHash`
  unfoldable pub frozenset_hash : SetObj K → ℕ
  frozenset_hash fs = (let h = hash_from 0 fs.entries in if h == 0 then 1 else h)

  -- `msFrozensetCopy`
  abbrev pub copy : SetObj K → SetObj K
  copy v = v

module _ {K : Type 0} (keys : Keys K) where
  -- `msNewFrozensetFromIter`: the loop over a list.
  unfoldable pub add_items : List K → SetObj K → Option (Answer (SetObj K))
  add_items [] r = some (answer r)
  add_items (x ∷ xs) r = elim (Set.add keys r x) [
    | none ↦ none
    | some (r', error) ↦ some error
    | some (r', answer u) ↦ add_items xs r'
  ]

  -- `msNewFrozensetFromIter`
  unfoldable pub from_iter : Iterable K → Option (Answer (SetObj K))
  from_iter other_value = some error
  from_iter (list_value xs) = elim (new_frozenset (length xs % 2 ^ 32)) [
    | none ↦ none
    | some r ↦ add_items xs r
  ]
  from_iter (set_value src) = elim (new_frozenset src.len) [
    | none ↦ none
    | some r ↦ answered (insert_all keys src r)
  ]

  -- A new frozenset, filled by one loop.
  abbrev pub from_new : ℕ → (SetObj K → Option (SetObj K)) → Option (SetObj K)
  from_new init_cap f = elim (new_frozenset init_cap) [ none ↦ none | some r ↦ f r ]

  -- `msFrozensetUnion`
  abbrev pub union : SetObj K → Option (SetObj K) → Option (Answer (SetObj K))
  union a = with_set (λ b.
      from_new ((a.len + b.len) % 2 ^ 32)
        (λ r. and_then keys (insert_all keys a r) (insert_all keys b)))

  -- `msFrozensetIntersect`
  abbrev pub intersect : SetObj K → Option (SetObj K) → Option (Answer (SetObj K))
  intersect a =
      with_set
        (λ b. from_new (if ltb a.len b.len then a.len else b.len) (filter_into keys a b true))

  -- `msFrozensetDiff`
  abbrev pub diff : SetObj K → Option (SetObj K) → Option (Answer (SetObj K))
  diff a = with_set (λ b. from_new a.len (filter_into keys a b false))

  -- `msFrozensetSymDiff`
  abbrev pub sym_diff : SetObj K → Option (SetObj K) → Option (Answer (SetObj K))
  sym_diff a = with_set (λ b.
      from_new ((a.len + b.len) % 2 ^ 32)
        (λ r. and_then keys (filter_into keys a b false r) (filter_into keys b a false)))

  -- `frozensetEq`
  unfoldable pub frozenset_eq : SetObj K → Option (SetObj K) → Option Bool
  frozenset_eq a none = some false
  frozenset_eq a (some b) = if a.len == b.len then is_subset keys a b else some false

  -- `frozensetLe`, `frozensetLt`, `frozensetGe` and `frozensetGt`.
  abbrev pub frozenset_le : SetObj K → Option (SetObj K) → Option (Answer Bool)
  frozenset_le a = with_set (is_subset keys a)

  abbrev pub frozenset_lt : SetObj K → Option (SetObj K) → Option (Answer Bool)
  frozenset_lt a = with_set (is_proper_subset keys a)

  abbrev pub frozenset_ge : SetObj K → Option (SetObj K) → Option (Answer Bool)
  frozenset_ge a = with_set (λ b. is_subset keys b a)

  abbrev pub frozenset_gt : SetObj K → Option (SetObj K) → Option (Answer Bool)
  frozenset_gt a = with_set (λ b. is_proper_subset keys b a)

  -- `msFrozensetIsSubset`
  abbrev pub subset_of : SetObj K → Option (SetObj K) → Option (Answer Bool)
  subset_of a = with_set (is_subset keys a)

  -- `msFrozensetIsSuperset`
  abbrev pub superset_of : SetObj K → Option (SetObj K) → Option (Answer Bool)
  superset_of a = with_set (λ b. is_subset keys b a)

  -- `msFrozensetIsDisjoint`: the loop over the slots.
  unfoldable pub none_in : List (Entry K) → SetObj K → Option (Answer Bool)
  none_in [] b = some (answer true)
  none_in (unused ∷ es) b = none_in es b
  none_in (tombstone ∷ es) b = none_in es b
  none_in (live h k v ∷ es) b = elim (Set.has keys b k) [
    | none ↦ none
    | some error ↦ some error
    | some (answer found) ↦ if found then some (answer false) else none_in es b
  ]

  -- `msFrozensetIsDisjoint`
  abbrev pub is_disjoint : SetObj K → Option (SetObj K) → Option (Answer Bool)
  is_disjoint a none = some error
  is_disjoint a (some b) = none_in a.entries b
