-- ===== src/Runtime/Map/Create.antt =====
-- src/runtime/ms_map.c: a new map, and a copy.
use native.Mathlib.Nat.{pow-le-pow_right}
use mathlib.Core.Path.{subst}
use mslang_c.Base.{
  ℕ, zero, suc, ◌+◌, ◌*◌, ◌%◌, ◌^◌, ◌≤◌, ◌<◌, ◌≡◌, ◌⊎◌, inl, inr, ◌∙◌, sym, ap, refl, true, false,
  none, some, List, [], ◌∷◌, ◌++◌, length, drop, append_nil, arith, Bool-cases, ltb,
}
use mslang_c.Runtime.Map.{double_up, round_up_pow2, empty_map, new_map, copy, clear}
use mslang_c.Runtime.Map.Change.{HasMap}
use mslang_c.Runtime.Map.Found.{IsMap}
use mslang_c.Runtime.Table.{Slot, Table, zeroed_entries}
use mslang_c.Runtime.Table.Count.{length-zeroed_entries, count-zeroed_entries}
use mslang_c.Runtime.Table.Grow.{lookup-zeroed_entries, IsSound-zeroed_entries}
use mslang_c.Runtime.Table.Insert.{Keys}
use mslang_c.Runtime.Table.Store.{IsCapacity}

-- What rounding up makes of a number: the next power of two, from 8 on.
pub record IsRounded (n p : ℕ) : Type 0 where
  pub power : IsCapacity p
  pub enough : n ≤ p
  pub least : (p ≡ 8) ⊎ (p < 2 * n)

double_up-enough : (fuel n p : ℕ) → n ≤ p → double_up (suc fuel) n p ≡ some p
unfolding double_up
double_up-enough fuel n p h = (let small : ltb p n ≡ false = ground arith in rw small refl)

double_up-more :
    (fuel n p : ℕ) → p < n → double_up (suc fuel) n p ≡ double_up fuel n (p * 2 % 2 ^ 32)
unfolding double_up
double_up-more fuel n p h = (let large : ltb p n ≡ true = ground arith in rw large refl)

lt_of_pow : (e : ℕ) → 2 ^ e < 2 ^ 31 → e < 31
lt_of_pow e h = elim (Bool-cases (ltb e 31)) [
  | inl l ↦ ground arith
  | inr l ↦
      (let up : 31 ≤ e = ground arith in
        let high : 2 ^ 31 ≤ 2 ^ e = pow-le-pow_right (omega arith) up in absurd (omega arith))
]

double_up-IsRounded :
    (fuel n e : ℕ)
    → 3 ≤ e
    → n ≤ 2 ^ 31
    → 31 < e + fuel
    → e ≤ 31
    → (2 ^ e ≡ 8) ⊎ (2 ^ e < 2 * n)
    → (p : ℕ) × (double_up fuel n (2 ^ e) ≡ some p) × IsRounded n p
double_up-IsRounded zero n e l b f t s = absurd (omega arith)
double_up-IsRounded (suc fuel) n e l b f t s = elim (Bool-cases (ltb (2 ^ e) n)) [
  | inl m ↦
      (let more : 2 ^ e < n = ground arith in
        let below : e < 31 = lt_of_pow e (omega arith) in
        let (p, g, r) =
          double_up-IsRounded fuel n (suc e) (omega arith) b (omega arith) (omega arith)
            (inr (omega arith)) in
        let next_below : suc e ≤ 31 = omega arith in
        let high : 2 ^ suc e ≤ 2 ^ 31 = pow-le-pow_right (omega arith) next_below in
        let no_wrap : 2 ^ e * 2 % 2 ^ 32 ≡ 2 ^ suc e = omega arith in
        (p, double_up-more fuel n (2 ^ e) more ∙ ap (double_up fuel n) no_wrap ∙ g, r))
  | inr m ↦
      (let enough : n ≤ 2 ^ e = ground arith in
        (
          2 ^ e,
          double_up-enough fuel n (2 ^ e) enough,
          record { power = (e, l, refl); enough = enough; least = s },
        ))
]

-- `roundUpPow2` of a number up to 2^31 ends, with a power of two from 8 on that is not below the
-- number, and is 8 or less than twice the number.
pub round_up_pow2-IsRounded :
    (n : ℕ) → n ≤ 2 ^ 31 → (p : ℕ) × (round_up_pow2 n ≡ some p) × IsRounded n p
round_up_pow2-IsRounded n b =
    double_up-IsRounded 29 n 3 (omega arith) b (omega arith) (omega arith) (inl refl)

-- A power of two from 8 on is not rounded.
round_up_pow2-capacity : (n : ℕ) → IsCapacity n → n ≤ 2 ^ 31 → round_up_pow2 n ≡ some n
round_up_pow2-capacity n (e, l, q) b =
    let (p, g, r) = round_up_pow2-IsRounded n b in
    let (f, k, t) = r.power in
    let same : p ≡ n = elim r.least [
      | inl eight ↦
          (let low : 2 ^ 3 ≤ 2 ^ e = pow-le-pow_right (omega arith) l in omega (arith, r.enough))
      | inr less ↦ elim (Bool-cases (ltb e f)) [
        | inl lt ↦
            (let up : suc e ≤ f = ground arith in
              let high : 2 ^ suc e ≤ 2 ^ f = pow-le-pow_right (omega arith) up in
              absurd (omega arith))
        | inr ge ↦
            (let up : f ≤ e = ground arith in
              let high : 2 ^ f ≤ 2 ^ e = pow-le-pow_right (omega arith) up in
              omega (arith, r.enough))
      ]
    ] in
    g ∙ ap some same

module _ {ℓ} {K V : Type ℓ} (keys : Keys K) where
  pub IsMap-empty_map : (cap : ℕ) → IsCapacity cap → HasMap keys (λ k. none) (empty_map K V cap)
  IsMap-empty_map cap (e, l, q) =
      let (lives, tombs) = count-zeroed_entries K V cap in
      let low : 2 ^ 3 ≤ 2 ^ e = pow-le-pow_right (omega arith) l in
      record {
        is_map = record {
          valid = record {
            sound = IsSound-zeroed_entries keys cap;
            len_counts = sym lives;
            tombstones_counts = sym tombs;
            has_room = omega (arith, length-zeroed_entries K V cap);
          };
          capacity = (e, l, length-zeroed_entries K V cap ∙ q);
        };
        maps = lookup-zeroed_entries keys cap;
      }

  -- `msNewMap` for up to 2^31 pairs ends, with a map in which no key has a value and no slot is
  -- used, and whose number of slots is what `roundUpPow2` makes of that number.
  pub new_map-HasMap :
      (init_cap : ℕ)
      → init_cap ≤ 2 ^ 31
      → (m : Table K V) × (new_map K V init_cap ≡ some m)
        × HasMap keys (λ k. none) m
        × IsRounded init_cap (length m.entries)
        × (m.len + m.tombstones ≡ 0)
  unfolding new_map
  new_map-HasMap n b =
      let (p, g, r) = round_up_pow2-IsRounded n b in
      (
        empty_map K V p,
        rw (g, new_map) refl,
        IsMap-empty_map p r.power,
        subst (IsRounded n) (sym (length-zeroed_entries K V p)) r,
        omega arith,
      )

  -- `msMapCopy` of a map with at most 2^31 slots gives a map with the same slots and counts; and
  -- `msMapClear` one in which no key has a value.
  pub copy-clear :
      (m : Table K V)
      → IsMap keys m
      → length m.entries ≤ 2 ^ 31
      → (copy m ≡ some m) × HasMap keys (λ k. none) (clear m)
  unfolding copy new_map
  copy-clear m h b =
      let g = round_up_pow2-capacity (length m.entries) h.capacity b in
      let all_read =
        drop-all (length m.entries) (zeroed_entries (length m.entries))
          (length-zeroed_entries K V (length m.entries)) in
      (
        rw (g, copy)
            (ap
              (λ (es : List (Slot K V)).
                some (record { entries = es; len = m.len; tombstones = m.tombstones }))
              (ap (λ (es : List (Slot K V)). m.entries ++ es) all_read ∙ append_nil m.entries)),
        IsMap-empty_map (length m.entries) h.capacity,
      )
    where
      drop-all : (n : ℕ) (es : List (Slot K V)) → length es ≡ n → drop n es ≡ []
      drop-all zero [] e = refl
      drop-all zero (x ∷ es) e = absurd (omega arith)
      drop-all (suc n) [] e = refl
      drop-all (suc n) (x ∷ es) e = drop-all n es (omega arith)
