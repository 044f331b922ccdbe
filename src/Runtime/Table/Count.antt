-- ===== src/Runtime/Table/Count.antt =====
-- src/runtime/ms_map.c: how many slots are occupied, and how many are tombstones.
use mslang_c.Base.{
  ℕ, zero, suc, ◌+◌, ◌<◌, ◌≡◌, refl, Bool, true, false, List, [], ◌∷◌, length, set, arith,
}
use mslang_c.Runtime.Table.{
  Slot, unused, tombstone, live, slot_at, is_live, is_tombstone, zeroed_entries,
}

abbrev pub bit : Bool → ℕ
bit true = 1
bit false = 0

module _ {ℓ} {K V : Type ℓ} where
  abbrev pub count : (Slot K V → Bool) → List (Slot K V) → ℕ
  count p [] = 0
  count p (s ∷ es) = bit (p s) + count p es

  pub count-set :
      (p : Slot K V → Bool) (es : List (Slot K V)) (i : ℕ) (s : Slot K V)
      → i < length es
      → count p (set es i s) + bit (p (slot_at es i)) ≡ count p es + bit (p s)
  count-set p [] i s h = absurd (omega arith)
  count-set p (t ∷ es) zero s h = omega arith
  count-set p (t ∷ es) (suc i) s h = omega (arith, count-set p es i s (omega arith))

  -- What is neither occupied nor a tombstone is unused.
  pub unused-somewhere :
      (es : List (Slot K V))
      → count is_live es + count is_tombstone es < length es
      → (q : ℕ) × (q < length es) × (slot_at es q ≡ unused)
  unused-somewhere [] h = absurd (omega arith)
  unused-somewhere (unused ∷ es) h = (0, omega arith, refl)
  unused-somewhere (tombstone ∷ es) h =
      (let (q, l, u) = unused-somewhere es (omega arith) in (suc q, omega arith, u))
  unused-somewhere (live g k v ∷ es) h =
      (let (q, l, u) = unused-somewhere es (omega arith) in (suc q, omega arith, u))

module _ {ℓ} (K V : Type ℓ) where
  abbrev pub zeros : ℕ → List (Slot K V)
  zeros n = zeroed_entries n

  pub length-zeroed_entries : (n : ℕ) → length (zeros n) ≡ n
  length-zeroed_entries zero = refl
  length-zeroed_entries (suc n) = omega (arith, length-zeroed_entries n)

  pub slot_at-zeroed_entries : (n i : ℕ) → slot_at (zeros n) i ≡ unused
  slot_at-zeroed_entries zero i = refl
  slot_at-zeroed_entries (suc n) zero = refl
  slot_at-zeroed_entries (suc n) (suc i) = slot_at-zeroed_entries n i

  pub count-zeroed_entries :
      (n : ℕ) → (count is_live (zeros n) ≡ 0) × (count is_tombstone (zeros n) ≡ 0)
  count-zeroed_entries zero = (refl, refl)
  count-zeroed_entries (suc n) = (let (a, b) = count-zeroed_entries n in (omega arith, omega arith))
