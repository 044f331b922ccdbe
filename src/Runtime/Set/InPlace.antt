-- ===== src/Runtime/Set/InPlace.antt =====
-- src/runtime/ms_set.c: `msSetIntersectionUpdate`, `msSetDifferenceUpdate` and
-- `msSetSymmetricDifferenceUpdate`.
use Prim.{Unit, tt}
use mslang_c.Base.{
  ℕ, zero, suc, Bool, true, false, Option, none, some, List, [], ◌∷◌, if◌then◌else◌, length,
}
use mslang_c.Runtime.Map.{Answer, error, answer}
use mslang_c.Runtime.Table.{unused, tombstone, live, slot_at, bury}
use mslang_c.Runtime.Table.Insert.{Keys}
use mslang_c.Runtime.Set.{SetObj, Entry, agrees, with_set, is_in, add, has, discard}

module _ {K : Type 0} (keys : Keys K) where
  -- The loop of `msSetIntersectionUpdate` and `msSetDifferenceUpdate` over the slots left from the
  -- slot `i` on: an element stays if what is in the other set is as wanted.
  unfoldable pub prune : Bool → SetObj K → ℕ → ℕ → SetObj K → Option (SetObj K)
  prune want other zero i s = some s
  prune want other (suc left) i s =
      let kept = prune want other left (suc i) s in
      let removed = prune want other left (suc i) (bury s i) in
      elim (slot_at s.entries i) [
        | unused ↦ kept
        | tombstone ↦ kept
        | live h k v ↦ elim (is_in keys other k h) [
          | none ↦ none
          | some found ↦ if agrees want found then kept else removed
        ]
      ]

  -- `msSetIntersectionUpdate`
  abbrev pub intersection_update : SetObj K → Option (SetObj K) → Option (Answer (SetObj K))
  intersection_update s = with_set (λ o. prune true o (length s.entries) 0 s)

  -- `msSetDifferenceUpdate`
  abbrev pub difference_update : SetObj K → Option (SetObj K) → Option (Answer (SetObj K))
  difference_update s = with_set (λ o. prune false o (length s.entries) 0 s)

  -- One element of `msSetSymmetricDifferenceUpdate`: removed if it is there, and else added.
  unfoldable pub toggle : SetObj K → K → Option (SetObj K × Answer (Unit {0}))
  toggle s k =
      let removed = discard keys s k in
      let added = add keys s k in
      elim (has keys s k) [
        | none ↦ none
        | some error ↦ some (s, error)
        | some (answer found) ↦ if found then removed else added
      ]

  -- The loop of `msSetSymmetricDifferenceUpdate` over the other set's slots.
  unfoldable pub toggle_all : List (Entry K) → SetObj K → Option (SetObj K × Answer (Unit {0}))
  toggle_all [] s = some (s, answer tt)
  toggle_all (unused ∷ es) s = toggle_all es s
  toggle_all (tombstone ∷ es) s = toggle_all es s
  toggle_all (live h k v ∷ es) s = elim (toggle s k) [
    | none ↦ none
    | some (r, error) ↦ some (r, error)
    | some (r, answer u) ↦ toggle_all es r
  ]

  -- `msSetSymmetricDifferenceUpdate`
  abbrev pub symmetric_difference_update :
      SetObj K → Option (SetObj K) → Option (SetObj K × Answer (Unit {0}))
  symmetric_difference_update s none = some (s, error)
  symmetric_difference_update s (some o) = toggle_all o.entries s
