-- ===== src/Runtime/Frozenset/Tests.antt =====
-- Runs of the frozenset's operations at small values.
use Prim.{tt}
use mslang_c.Base.{ℕ, ◌≡◌, refl, true, some, [], ◌∷◌, arith}
use mslang_c.Runtime.Frozenset.{from_iter, list_value, frozenset_eq, frozenset_hash}
use mslang_c.Runtime.Frozenset.Hash.{frozenset_hash-equal}
use mslang_c.Runtime.Frozenset.Items.{Made, any_equal, from_iter-Made}
use mslang_c.Runtime.Map.Samples.{
  numbers, numbers-reflexive, two_items, two_items-IsMap, other_order, other_order-IsMap,
}
use mslang_c.Runtime.Set.{SetObj, is_subset, is_in, all_in}
use mslang_c.Runtime.Map.{find_in}
use mslang_c.Runtime.Table.{probe}

-- 5 and 13, put in either order.
abbrev both : SetObj ℕ
both = two_items tt tt

abbrev swapped : SetObj ℕ
swapped = other_order tt tt

found_equal : frozenset_eq numbers both (some swapped) ≡ some true
unfolding frozenset_eq is_subset all_in is_in find_in probe
found_equal = refl

frozenset_hash-equal_example : frozenset_hash both ≡ frozenset_hash swapped
frozenset_hash-equal_example =
    frozenset_hash-equal numbers both swapped (two_items-IsMap tt tt) (other_order-IsMap tt tt)
      (λ i h k v e. numbers-reflexive k) (λ i h k v e. numbers-reflexive k) found_equal

from_iter-Made_example :
    Made numbers
      (any_equal numbers (5 ∷ 13 ∷ 5 ∷ []))
      true
      (from_iter numbers (list_value (5 ∷ 13 ∷ 5 ∷ [])))
from_iter-Made_example = from_iter-Made numbers (5 ∷ 13 ∷ 5 ∷ []) (omega arith)
