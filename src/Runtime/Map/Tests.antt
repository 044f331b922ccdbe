-- ===== src/Runtime/Map/Tests.antt =====
-- Runs of the map's operations at small maps.
use mslang_c.Base.{
  ℕ, ◌+◌, ◌≤◌, ◌<◌, ◌≡◌, ◌↔◌, refl, Bool, true, ◌==◌, none, some, [], ◌∷◌, if◌then◌else◌, length,
  arith,
}
use mslang_c.Runtime.Map.{
  answer, get, get_item, has, get_default, set_item, delete, pop, set_default, update, map_eq, copy,
  clear,
}
use mslang_c.Runtime.Map.Views.{keys_of, values_of}
use mslang_c.Runtime.Map.Change.{HasMap, HasRoom, set_item-lookup}
use mslang_c.Runtime.Map.Remove.{removals-lookup, set_default-lookup}
use mslang_c.Runtime.Map.Update.{update-lookup}
use mslang_c.Runtime.Map.Create.{copy-clear}
use mslang_c.Runtime.Map.Equal.{Matches, Covers, map_eq-Matches}
use mslang_c.Runtime.Map.Pairs.{assoc, pairs, drain, items-keys-values}
use mslang_c.Runtime.Map.Read.{reads-lookup}
use mslang_c.Runtime.Map.Samples.{
  numbers, numbers-reflexive, one_item, two_items, one_item-IsMap, two_items-IsMap,
}
use mslang_c.Runtime.Table.{Table}
use mslang_c.Runtime.Table.Join.{or_else}
use mslang_c.Runtime.Table.Lookup.{lookup}

abbrev pair : Table ℕ ℕ
pair = two_items 7 1

room :
    (m : Table ℕ ℕ)
    → length m.entries ≡ 8
    → m.len + m.tombstones ≤ 2
    → (n : ℕ) → n < 9
    → HasRoom numbers m n
room m l u n h = (omega arith, omega arith)

-- 13 is found behind 5, in whose slot probing starts.
reads-lookup_example :
    (get numbers 0 pair 13 ≡ some (answer 1))
    × (get_item numbers pair 13 ≡ some (answer 1))
    × (has numbers pair 13 ≡ some (answer true))
    × (get_default numbers pair 13 9 ≡ some (answer 1))
unfolding lookup
reads-lookup_example = reads-lookup numbers 0 pair 13 (two_items-IsMap 7 1).valid 13 refl 9

set_item-lookup_example :
    (r : Table ℕ ℕ) × (set_item numbers 0 pair 13 4 ≡ some (r, answer 0))
    × HasMap numbers (λ k. if 13 == k then some 4 else lookup numbers.equal pair.entries k) r
    × HasRoom numbers r 2
set_item-lookup_example =
    set_item-lookup numbers 0 pair 13 (two_items-IsMap 7 1) 13 refl 2
      (room pair refl (omega arith) 3 (omega arith)) 4

removals-lookup_example :
    ((r : Table ℕ ℕ) × (delete numbers 0 pair 5 ≡ some (r, answer 0))
      × HasMap numbers (λ k. if 5 == k then none else lookup numbers.equal pair.entries k) r)
    × ((r : Table ℕ ℕ) × (pop numbers pair 5 9 ≡ some (r, answer 7))
        × HasMap numbers (λ k. if 5 == k then none else lookup numbers.equal pair.entries k) r)
unfolding lookup
removals-lookup_example = removals-lookup numbers 0 pair 5 (two_items-IsMap 7 1) 5 refl 9

set_default-lookup_example :
    (r : Table ℕ ℕ) × (set_default numbers (one_item 7) 13 4 ≡ some (r, answer 4))
    × HasMap numbers
        (λ k. if 13 == k then some 4 else lookup numbers.equal (one_item 7).entries k)
        r
unfolding lookup
set_default-lookup_example =
    set_default-lookup numbers 0 (one_item 7) 13 (one_item-IsMap 7) 13 refl
      (room (one_item 7) refl (omega arith) 1 (omega arith)) 4

update-lookup_example :
    (r : Table ℕ ℕ) × (update numbers 0 (one_item 7) (some (two_items 2 3)) ≡ some (r, answer 0))
    × HasMap numbers
        (λ k.
          or_else
            (lookup numbers.equal (two_items 2 3).entries k)
            (lookup numbers.equal (one_item 7).entries k))
        r
update-lookup_example =
    update-lookup numbers 0 (one_item 7) (two_items 2 3) (one_item-IsMap 7) (two_items-IsMap 2 3)
      (room (one_item 7) refl (omega arith) 2 (omega arith))

map_eq-Matches_example :
    (t : Bool) × (map_eq numbers (λ v w. v == w) (one_item 7) (some pair) ≡ some t)
    × (t ≡ true ↔ (
        Matches numbers (λ v w. v == w) (one_item 7).entries pair
        × Covers numbers
            (λ v w. v == w)
            (one_item 7)
            pair
            (one_item-IsMap 7)
            (two_items-IsMap 7 1)
            (λ i h k v e. numbers-reflexive k)
            (λ i h k v e. numbers-reflexive k)))
map_eq-Matches_example =
    map_eq-Matches numbers (λ v w. v == w) (one_item 7) pair (one_item-IsMap 7)
      (two_items-IsMap 7 1) (λ i h k v e. numbers-reflexive k) (λ i h k v e. numbers-reflexive k)

copy-clear_example : (copy pair ≡ some pair) × HasMap numbers (λ k. none) (clear pair)
copy-clear_example = copy-clear numbers pair (two_items-IsMap 7 1) (omega arith)

-- Here 13 is the nil, at which a loop over the keys stops.
items-keys-values_example :
    (pairs (keys_of pair.entries) (values_of pair.entries) ≡ (5, 7) ∷ (13, 1) ∷ [])
    × ((key : ℕ)
        → assoc numbers.equal ((5, 7) ∷ (13, 1) ∷ []) key ≡ lookup numbers.equal pair.entries key)
    × (length (keys_of pair.entries) ≡ 2)
    × (drain 13 (λ k. k == 13) 9 pair 0 ≡ 5 ∷ [])
items-keys-values_example =
    items-keys-values numbers pair 13 (λ k. k == 13) (two_items-IsMap 7 1) refl
