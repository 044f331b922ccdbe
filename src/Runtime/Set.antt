-- ===== src/Runtime/Set.antt =====
-- src/runtime/ms_set.c and src/runtime/ms_frozenset.c: sets over a table of slots without values.
-- The sources repeat the table of ms_map.c without the values; a set is that table with `Unit` for
-- the values. An operation returns `none` if the fuel of a loop ran out. An argument `Option` of a
-- set is another value, none if it is not a set, and `error` stands for `MS_ERROR_VALUE`. An operation
-- on two sets takes two objects, not one twice.
pub mod Combine
pub mod Compare
pub mod Gather
pub mod InPlace
pub mod Member
pub mod Prune
mod Tests
pub mod Toggle
use Prim.{Unit, tt}
use mslang_c.Base.{
  ℕ, zero, suc, ◌+◌, ◌-◌, ◌*◌, ◌%◌, ◌^◌, Bool, true, false, not, ◌&&◌, Option, none, some, List, [],
  ◌∷◌, ltb, ◌==◌, if◌then◌else◌, length,
}
use mslang_c.Runtime.Map
use mslang_c.Runtime.Map.Views
use mslang_c.Runtime.Map.{Answer, error, answer, held, is_some, find_in, lookup_entry, remove_entry}
use mslang_c.Runtime.Table.{Slot, unused, tombstone, live, Table, slot_at, set_hashed, resize, bury}
use mslang_c.Runtime.Table.Insert.{Keys}

-- `MsSetEntry`
abbrev pub Entry : Type 0 → Type 0
Entry K = Slot K (Unit {0})

-- `MsSetObj`
abbrev pub SetObj : Type 0 → Type 0
SetObj K = Table K (Unit {0})

-- Whether two tests agree.
abbrev pub agrees : Bool → Bool → Bool
agrees true b = b
agrees false b = not b

abbrev pub answered {ℓ} : {A : Type ℓ} → Option A → Option (Answer A)
answered none = none
answered (some r) = some (answer r)

-- Whether what was found is as wanted.
abbrev pub agreed : Bool → Option Bool → Option Bool
agreed want none = none
agreed want (some b) = some (agrees want b)

-- The other operand of an operation: an error if it is not a set.
abbrev pub with_set {ℓ} :
    {K : Type 0} {A : Type ℓ} → (SetObj K → Option A) → Option (SetObj K) → Option (Answer A)
with_set f none = some error
with_set f (some b) = answered (f b)

module _ {K : Type 0} where
  -- `msNewSet`
  abbrev pub new_set : ℕ → Option (SetObj K)
  new_set init_cap = Map.new_map K Unit init_cap

  -- `msSetClear`
  abbrev pub clear : SetObj K → SetObj K
  clear s = Map.clear s

  -- `msSetCopy`
  abbrev pub copy : SetObj K → Option (SetObj K)
  copy s = Map.copy s

  -- `setIterNext`. At the end it returns `MS_NIL_VAL`, the first argument.
  abbrev pub iter_next : K → SetObj K → ℕ → K × ℕ
  iter_next nil s slot_idx = Views.iter_next nil s slot_idx

  -- `msSetLen`
  abbrev pub set_len : SetObj K → ℕ
  set_len s = s.len

  -- The first occupied slot from the slot `i`, over the slots from there, with its element.
  abbrev pub first_live : List (Entry K) → ℕ → Option (K × ℕ)
  first_live [] i = none
  first_live (unused ∷ es) i = first_live es (suc i)
  first_live (tombstone ∷ es) i = first_live es (suc i)
  first_live (live h k v ∷ es) i = some (k, i)

  -- `msSetPop`
  unfoldable pub pop : SetObj K → SetObj K × Answer K
  pop s = elim (first_live s.entries 0) [ none ↦ (s, error) | some (k, i) ↦ (bury s i, answer k) ]

module _ {K : Type 0} (keys : Keys K) where
  -- `msSetFindInSet`
  abbrev pub find_in_set : SetObj K → K → ℕ → Option (Option ℕ)
  find_in_set s item hash = find_in keys.equal s item hash

  -- `msSetAddHashed`
  abbrev pub add_hashed : SetObj K → K → ℕ → Option (SetObj K)
  add_hashed s item hash = set_hashed keys.equal s item tt hash

  -- `msSetAdd`
  abbrev pub add : SetObj K → K → Option (SetObj K × Answer (Unit {0}))
  add s v = Map.set_item keys tt s v tt

  -- `msSetHas`
  abbrev pub has : SetObj K → K → Option (Answer Bool)
  has s v = Map.has keys s v

  -- `msSetRemove`
  abbrev pub remove : SetObj K → K → Option (SetObj K × Answer (Unit {0}))
  remove s v = Map.delete keys tt s v

  -- `msSetDiscard`
  unfoldable pub discard : SetObj K → K → Option (SetObj K × Answer (Unit {0}))
  discard s v = remove_entry keys s (λ u. answer tt) (answer tt) (lookup_entry keys s v)

  -- Whether `msSetFindInSet` finds an occupied entry: `e && e->occupied`.
  unfoldable pub is_in : SetObj K → K → ℕ → Option Bool
  is_in s item hash = elim (find_in_set s item hash) [
    | none ↦ none
    | some e ↦ some (is_some (held s e))
  ]

  -- A loop over slots that adds the elements that pass a test.
  unfoldable pub add_where : (K → ℕ → Option Bool) → List (Entry K) → SetObj K → Option (SetObj K)
  add_where test [] r = some r
  add_where test (unused ∷ es) r = add_where test es r
  add_where test (tombstone ∷ es) r = add_where test es r
  add_where test (live h k v ∷ es) r = elim (test k h) [
    | none ↦ none
    | some false ↦ add_where test es r
    | some true ↦ elim (add_hashed r k h) [ none ↦ none | some r' ↦ add_where test es r' ]
  ]

  -- `frozensetInsertAll`, and the loops of `msSetUnion` and `msSetUpdate`.
  abbrev pub insert_all : SetObj K → SetObj K → Option (SetObj K)
  insert_all src r = add_where (λ k h. some true) src.entries r

  -- `frozensetFilterInto`, and the loops of `msSetDiff`, `msSetSymDiff` and `msSetIntersect`.
  abbrev pub filter_into : SetObj K → SetObj K → Bool → SetObj K → Option (SetObj K)
  filter_into src other want_present r =
      add_where (λ k h. agreed want_present (is_in other k h)) src.entries r

  -- A new set, filled by one loop.
  abbrev pub from_new : ℕ → (SetObj K → Option (SetObj K)) → Option (SetObj K)
  from_new init_cap f = elim (new_set init_cap) [ none ↦ none | some r ↦ f r ]

  -- One loop, and then another.
  abbrev pub and_then : Option (SetObj K) → (SetObj K → Option (SetObj K)) → Option (SetObj K)
  and_then none f = none
  and_then (some r) f = f r

  -- `msSetUnion`
  unfoldable pub union : SetObj K → Option (SetObj K) → Option (Answer (SetObj K))
  union a =
      with_set
        (λ b. from_new ((a.len + b.len) % 2 ^ 32) (λ r. and_then (insert_all a r) (insert_all b)))

  -- `msSetDiff`
  unfoldable pub diff : SetObj K → Option (SetObj K) → Option (Answer (SetObj K))
  diff a = with_set (λ b. from_new a.len (filter_into a b false))

  -- `msSetSymDiff`
  unfoldable pub sym_diff : SetObj K → Option (SetObj K) → Option (Answer (SetObj K))
  sym_diff a = with_set (λ b.
      from_new ((a.len + b.len) % 2 ^ 32)
        (λ r. and_then (filter_into a b false r) (filter_into b a false)))

  -- `msSetIntersect`
  unfoldable pub intersect : SetObj K → Option (SetObj K) → Option (Answer (SetObj K))
  intersect a =
      with_set (λ b. from_new (if ltb a.len b.len then a.len else b.len) (filter_into a b true))

  -- The loops of `msSetIsSubset` and `msSetIsDisjoint`: whether what is in `b` is as wanted for every
  -- element of the slots.
  unfoldable pub all_in : Bool → List (Entry K) → SetObj K → Option Bool
  all_in want [] b = some true
  all_in want (unused ∷ es) b = all_in want es b
  all_in want (tombstone ∷ es) b = all_in want es b
  all_in want (live h k v ∷ es) b = elim (is_in b k h) [
    | none ↦ none
    | some found ↦ if agrees want found then all_in want es b else some false
  ]

  -- `msSetIsSubset`
  unfoldable pub is_subset : SetObj K → SetObj K → Option Bool
  is_subset a b =
      (let rest = all_in true a.entries b in if ltb b.len a.len then some false else rest)

  -- `msSetIsProperSubset`
  unfoldable pub is_proper_subset : SetObj K → SetObj K → Option Bool
  is_proper_subset a b = if ltb a.len b.len then is_subset a b else some false

  -- `msSetIsSuperset`
  abbrev pub is_superset : SetObj K → SetObj K → Option Bool
  is_superset a b = is_subset b a

  -- `msSetIsProperSuperset`
  abbrev pub is_proper_superset : SetObj K → SetObj K → Option Bool
  is_proper_superset a b = is_proper_subset b a

  -- `setEq`
  unfoldable pub set_eq : SetObj K → Option (SetObj K) → Option Bool
  set_eq a none = some false
  set_eq a (some b) = if a.len == b.len then is_subset a b else some false

  -- `setLe`, `setLt`, `setGe` and `setGt`.
  abbrev pub set_le : SetObj K → Option (SetObj K) → Option (Answer Bool)
  set_le a = with_set (is_subset a)

  abbrev pub set_lt : SetObj K → Option (SetObj K) → Option (Answer Bool)
  set_lt a = with_set (is_proper_subset a)

  abbrev pub set_ge : SetObj K → Option (SetObj K) → Option (Answer Bool)
  set_ge a = with_set (is_superset a)

  abbrev pub set_gt : SetObj K → Option (SetObj K) → Option (Answer Bool)
  set_gt a = with_set (is_proper_superset a)

  -- `msSetIsDisjoint`
  unfoldable pub is_disjoint : SetObj K → Option (SetObj K) → Option (Answer Bool)
  is_disjoint a = with_set (λ b. all_in false a.entries b)

  -- `msSetUpdate`
  abbrev pub update : SetObj K → Option (SetObj K) → Option (Answer (SetObj K))
  update s = with_set (λ o. insert_all o s)
