-- ===== src/Runtime/Table/Include.antt =====
-- src/runtime/ms_map.c and src/runtime/ms_set.c: the keys of one list of slots among those of another.
use mslang_c.Base.{
  ℕ, suc, ◌+◌, ◌≤◌, ◌≡◌, inl, inr, ◌∙◌, sym, ap, refl, Bool, true, false, none, some, List, [], ◌∷◌,
  set, arith, Bool-cases, Option-cases, none_not_some, true_not_false, not_true,
}
use mslang_c.Runtime.Table.{Slot, unused, tombstone, live, slot_at, is_live}
use mslang_c.Runtime.Table.Count.{bit, count, count-set}
use mslang_c.Runtime.Table.Join.{lookup-equal, lookup-lacks}
use mslang_c.Runtime.Table.Lookup.{
  IsEquality, lookup, lookup-Holds, Holds, IsUnique, IsUnique-tail, slot-inside,
}
use mslang_c.Runtime.Table.Write.{IsUnique-bury, lookup-bury}

module _ {ℓ} {K V : Type ℓ} (equal : K → K → Bool) (eq : IsEquality equal) where
  -- The keys in the slots are equal to themselves.
  abbrev pub IsReflexive : List (Slot K V) → Type ℓ
  IsReflexive es = (i h : ℕ) (k : K) (v : V) → slot_at es i ≡ live h k v → equal k k ≡ true

  -- Every key with a value in the first slots has one in the others.
  abbrev pub Includes : List (Slot K V) → List (Slot K V) → Type ℓ
  Includes es fs =
      (k : K) (v : V) → lookup equal es k ≡ some v → (w : V) × (lookup equal fs k ≡ some w)

  module _ (fs : List (Slot K V)) (key : K) (w : V) (u : IsUnique equal fs)
      (o : Holds equal fs key w) where
    abbrev pub without : List (Slot K V)
    without = set fs o.index tombstone

    pub without-IsUnique : IsUnique equal without
    without-IsUnique = IsUnique-bury equal eq fs o.index o.hash o.held w u o.at

    pub count-without : count is_live without + 1 ≡ count is_live fs
    count-without = omega (
      arith,
      count-set is_live fs o.index tombstone (slot-inside equal fs o.index o.hash o.held w o.at),
      ap (λ (s : Slot K V). bit (is_live s)) o.at,
    )

    -- A key that is not equal to the one left out.
    pub lookup-without : (a : K) → equal key a ≡ false → lookup equal without a ≡ lookup equal fs a
    lookup-without a n =
        let other : equal o.held a ≡ false = not_true (λ t.
          true_not_false
            (sym (eq.equal_trans key o.held a (eq.equal_sym o.held key o.same) t) ∙ n)) in
        lookup-bury equal eq fs o.index o.hash o.held w u o.at a ∙ rw other refl

  -- The first slot's key is left out of either.
  pub Includes-without :
      (h : ℕ) (k : K) (v : V) (es fs : List (Slot K V))
      → IsUnique equal (live h k v ∷ es)
      → (uf : IsUnique equal fs) → Includes (live h k v ∷ es) fs
      → (w : V) (o : Holds equal fs k w) → Includes es (without fs k w uf o)
  unfolding lookup
  Includes-without h k v es fs ue uf inc w o a x e = elim (Bool-cases (equal k a)) [
    | inl t ↦ absurd (none_not_some (sym (lookup-lacks equal eq h k v es ue a t) ∙ e))
    | inr n ↦ (let (y, g) = inc a x (rw n e) in (y, lookup-without fs k w uf o a n ∙ g))
  ]

  -- More keys have more slots.
  pub count-Includes :
      (es fs : List (Slot K V))
      → IsUnique equal es
      → IsUnique equal fs
      → IsReflexive es
      → Includes es fs
      → count is_live es ≤ count is_live fs
  unfolding lookup
  count-Includes [] fs ue uf r inc = omega arith
  count-Includes (unused ∷ es) fs ue uf r inc =
      omega (arith, count-Includes es fs (IsUnique-tail equal unused es ue) uf (λ i. r (suc i)) inc)
  count-Includes (tombstone ∷ es) fs ue uf r inc =
      omega
        (arith, count-Includes es fs (IsUnique-tail equal tombstone es ue) uf (λ i. r (suc i)) inc)
  count-Includes (live h k v ∷ es) fs ue uf r inc =
      let own = r 0 h k v refl in
      let (w, f) = inc k v (rw own refl) in
      let o = lookup-Holds equal fs k w f in
      omega (
        arith,
        count-without fs k w uf o,
        count-Includes es (without fs k w uf o) (IsUnique-tail equal (live h k v) es ue)
            (without-IsUnique fs k w uf o) (λ i. r (suc i))
            (Includes-without h k v es fs ue uf inc w o),
      )

  -- With as many keys in either, the others have no more.
  pub Includes-back :
      (es fs : List (Slot K V))
      → IsUnique equal es
      → IsUnique equal fs
      → IsReflexive es
      → Includes es fs
      → count is_live fs ≤ count is_live es
      → Includes fs es
  Includes-back es fs ue uf r inc same k w e = elim (Option-cases (lookup equal es k)) [
    | inr (v, f) ↦ (v, f)
    | inl n ↦
        (let o = lookup-Holds equal fs k w e in
          absurd (
            omega (
              arith,
              count-without fs k w uf o,
              count-Includes es (without fs k w uf o) ue (without-IsUnique fs k w uf o) r
                  (rest n o),
            )))
  ]
    where
      rest : lookup equal es k ≡ none → (o : Holds equal fs k w) → Includes es (without fs k w uf o)
      rest n o a x e = elim (Bool-cases (equal k a)) [
        | inl t ↦ absurd (none_not_some (sym n ∙ sym (lookup-equal equal eq es k a t) ∙ e))
        | inr f ↦ (let (y, g) = inc a x e in (y, lookup-without fs k w uf o a f ∙ g))
      ]
