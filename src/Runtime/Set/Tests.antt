-- ===== src/Runtime/Set/Tests.antt =====
-- Runs of the set's operations at small sets.
use Prim.{tt}
use mslang_c.Base.{
  ℕ, ◌≡◌, ◌↔◌, refl, Bool, true, false, not, ◌&&◌, ◌||◌, ◌==◌, some, if◌then◌else◌, arith,
}
use mslang_c.Runtime.Map.{Answer, answer}
use mslang_c.Runtime.Map.Found.{IsMap}
use mslang_c.Runtime.Map.Samples.{
  numbers, numbers-reflexive, one_item, two_items, one_item-IsMap, two_items-IsMap,
}
use mslang_c.Runtime.Set.{
  SetObj, add, has, remove, discard, union, diff, sym_diff, intersect, is_subset, is_proper_subset,
  set_eq, is_disjoint,
}
use mslang_c.Runtime.Set.InPlace.{
  intersection_update, difference_update, symmetric_difference_update,
}
use mslang_c.Runtime.Set.Combine.{Combines, combinations-members}
use mslang_c.Runtime.Set.Compare.{Decides, comparisons-members}
use mslang_c.Runtime.Set.Member.{member}
use mslang_c.Runtime.Set.Prune.{updates-members}
use mslang_c.Runtime.Set.Toggle.{Leaves, add-remove-discard, symmetric_difference_update-members}

-- The sets of 5, and of 5 and 13.
abbrev five : SetObj ℕ
five = one_item tt

abbrev both : SetObj ℕ
both = two_items tt tt

five-IsMap : IsMap numbers five
five-IsMap = one_item-IsMap tt

both-IsMap : IsMap numbers both
both-IsMap = two_items-IsMap tt tt

combinations-members_example :
    Combines numbers (λ x y. x || y) five both (union numbers five (some both))
    × Combines numbers (λ x y. x && not y) five both (diff numbers five (some both))
    × Combines numbers
        (λ x y. (x && not y) || (y && not x))
        five
        both
        (sym_diff numbers five (some both))
    × Combines numbers (λ x y. x && y) five both (intersect numbers five (some both))
combinations-members_example =
    combinations-members numbers five both five-IsMap both-IsMap (omega arith)

comparisons-members_example :
    Decides
      (is_subset numbers five both)
      ((k : ℕ) → member numbers five k ≡ true → member numbers both k ≡ true)
    × Decides (is_proper_subset numbers five both) (
        ((k : ℕ) → member numbers five k ≡ true → member numbers both k ≡ true)
        × ¬ ((k : ℕ) → member numbers both k ≡ true → member numbers five k ≡ true))
    × Decides
        (set_eq numbers five (some both))
        ((k : ℕ) → member numbers five k ≡ member numbers both k)
    × (t : Bool) × (is_disjoint numbers five (some both) ≡ some (answer t))
    × (t ≡ true ↔ ((k : ℕ) → member numbers five k ≡ true → member numbers both k ≡ false))
comparisons-members_example =
    comparisons-members numbers five both five-IsMap both-IsMap (λ i h k v e. numbers-reflexive k)
      (λ i h k v e. numbers-reflexive k)

updates-members_example :
    ((r : SetObj ℕ) × (intersection_update numbers both (some five) ≡ some (answer r))
      × IsMap numbers r
      × ((k : ℕ) → member numbers r k ≡ member numbers both k && member numbers five k))
    × ((r : SetObj ℕ) × (difference_update numbers both (some five) ≡ some (answer r))
        × IsMap numbers r
        × ((k : ℕ) → member numbers r k ≡ member numbers both k && not (member numbers five k)))
updates-members_example = updates-members numbers both five both-IsMap five-IsMap

add-remove-discard_example :
    (has numbers five 13 ≡ some (answer (member numbers five 13)))
    × Leaves numbers (add numbers five 13) (answer tt) (λ k. (13 == k) || member numbers five k)
    × Leaves numbers
        (remove numbers five 13)
        (if member numbers five 13 then answer tt else Answer.error)
        (λ k. member numbers five k && not (13 == k))
    × Leaves numbers
        (discard numbers five 13)
        (answer tt)
        (λ k. member numbers five k && not (13 == k))
add-remove-discard_example =
    add-remove-discard numbers five five-IsMap 13 13 refl (omega arith, omega arith)

symmetric_difference_update-members_example :
    Leaves numbers
      (symmetric_difference_update numbers five (some both))
      (answer tt)
      (λ k. if member numbers both k then not (member numbers five k) else member numbers five k)
symmetric_difference_update-members_example =
    symmetric_difference_update-members numbers five both five-IsMap both-IsMap
      (omega arith, omega arith)
