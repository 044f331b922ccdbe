-- ===== src/Runtime/Table/Lookup.antt =====
-- src/runtime/ms_map.c: what a list of slots holds, without its hashing.
use mslang_c.Base.{
  ℕ, zero, suc, ◌<◌, ◌≡◌, ◌≢◌, ◌⊎◌, inl, inr, ◌∙◌, sym, ap, refl, Bool, true, false, Option, none,
  some, List, [], ◌∷◌, ◌==◌, if◌then◌else◌, length, set, arith, Bool-cases, Option-cases,
  get_or-set, get_or-set_other, ==_iff, some_injective, true_not_false,
}
use mslang_c.Runtime.Table.{Slot, unused, tombstone, live, slot_at, is_live}

-- The test of equality of keys is symmetric and transitive. (A NaN is not equal to itself.)
pub record IsEquality {ℓ} {K : Type ℓ} (equal : K → K → Bool) : Type ℓ where
  pub equal_sym : (a b : K) → equal a b ≡ true → equal b a ≡ true
  pub equal_trans : (a b c : K) → equal a b ≡ true → equal b c ≡ true → equal a c ≡ true

module _ {ℓ} {K V : Type ℓ} where
  pub live_not_unused : (h : ℕ) (k : K) (v : V) → unused ≢ live h k v
  live_not_unused h k v e = absurd (ground (arith, ap is_live e))

  pub live_not_tombstone : (h : ℕ) (k : K) (v : V) → tombstone ≢ live h k v
  live_not_tombstone h k v e = absurd (ground (arith, ap is_live e))

  pub live_injective : (h g : ℕ) (k a : K) (v w : V) → live h k v ≡ live g a w → (k ≡ a) × (v ≡ w)
  live_injective h g k a v w e = (ap (key_of k) e, ap (value_of v) e)
    where
      key_of : K → Slot K V → K
      key_of d (live h k v) = k
      key_of d _ = d

      value_of : V → Slot K V → V
      value_of d (live h k v) = v
      value_of d _ = d

  pub live_hash : (h g : ℕ) (k a : K) (v w : V) → live h k v ≡ live g a w → h ≡ g
  live_hash h g k a v w e = ap (hash_of h) e
    where
      hash_of : ℕ → Slot K V → ℕ
      hash_of d (live h k v) = h
      hash_of d _ = d

module _ {ℓ} {K V : Type ℓ} (equal : K → K → Bool) where
  -- The value of a key, found by reading every slot.
  unfoldable pub lookup : List (Slot K V) → K → Option V
  lookup [] key = none
  lookup (unused ∷ es) key = lookup es key
  lookup (tombstone ∷ es) key = lookup es key
  lookup (live h k v ∷ es) key = if equal k key then some v else lookup es key

  -- A slot holds the key.
  pub record Holds (es : List (Slot K V)) (key : K) (value : V) : Type ℓ where
    pub index : ℕ
    pub hash : ℕ
    pub held : K
    pub at : slot_at es index ≡ live hash held value
    pub same : equal held key ≡ true

  -- No two slots hold equal keys.
  abbrev pub IsUnique : List (Slot K V) → Type ℓ
  IsUnique es =
      (i j h g : ℕ) (a b : K) (v w : V)
      → slot_at es i ≡ live h a v
      → slot_at es j ≡ live g b w
      → equal a b ≡ true
      → i ≡ j

  pub IsUnique-tail : (s : Slot K V) (es : List (Slot K V)) → IsUnique (s ∷ es) → IsUnique es
  IsUnique-tail s es u i j h g a b v w p q e = omega (arith, u (suc i) (suc j) h g a b v w p q e)

  Holds-tail :
      (s : Slot K V) (es : List (Slot K V)) (key : K) (v : V)
      → Holds es key v
      → Holds (s ∷ es) key v
  Holds-tail s es key v h = record {
    index = suc h.index;
    hash = h.hash;
    held = h.held;
    at = h.at;
    same = h.same;
  }

  pub lookup-Holds :
      (es : List (Slot K V)) (key : K) (v : V) → lookup es key ≡ some v → Holds es key v
  unfolding lookup
  lookup-Holds [] key v e = absurd (ground arith)
  lookup-Holds (unused ∷ es) key v e = Holds-tail unused es key v (lookup-Holds es key v e)
  lookup-Holds (tombstone ∷ es) key v e = Holds-tail tombstone es key v (lookup-Holds es key v e)
  lookup-Holds (live h k w ∷ es) key v e = elim (Bool-cases (equal k key)) [
    | inl m ↦
        (let found : w ≡ v = some_injective (rw m at e) in
          record { index = 0; hash = h; held = k; at = ap (λ (t : V). live h k t) found; same = m })
    | inr m ↦ Holds-tail (live h k w) es key v (lookup-Holds es key v (rw m at e))
  ]

  -- The value that one write leaves at a position.
  pub slot_at-set :
      (es : List (Slot K V)) (i j : ℕ) (s : Slot K V)
      → i < length es
      → ((j ≡ i) × (slot_at (set es i s) j ≡ s))
        ⊎ ((j ≢ i) × (slot_at (set es i s) j ≡ slot_at es j))
  slot_at-set es i j s h = elim (Bool-cases (j == i)) [
    | inl e ↦
        (let same : j ≡ i = ground arith in
          inl (same, ap (λ (n : ℕ). slot_at (set es i s) n) same ∙ get_or-set es i s unused h))
    | inr e ↦
        (let other : j ≢ i = ground arith in
          inr (other, get_or-set_other es i j s unused (λ p. other (sym p))))
  ]

  pub slot-inside :
      (es : List (Slot K V)) (i h : ℕ) (k : K) (v : V) → slot_at es i ≡ live h k v → i < length es
  slot-inside [] i h k v e = absurd (live_not_unused h k v e)
  slot-inside (s ∷ es) zero h k v e = omega arith
  slot-inside (s ∷ es) (suc i) h k v e = omega (arith, slot-inside es i h k v e)

  module _ (eq : IsEquality equal) where
    -- With no key held twice, a slot that holds the key has its value.
    pub lookup-live :
        (es : List (Slot K V)) (key : K) (i h : ℕ) (a : K) (v : V)
        → IsUnique es
        → slot_at es i ≡ live h a v
        → equal a key ≡ true
        → lookup es key ≡ some v
    unfolding lookup
    lookup-live [] key i h a v u p e = absurd (live_not_unused h a v p)
    lookup-live (unused ∷ es) key zero h a v u p e = absurd (live_not_unused h a v p)
    lookup-live (unused ∷ es) key (suc i) h a v u p e =
        lookup-live es key i h a v (IsUnique-tail unused es u) p e
    lookup-live (tombstone ∷ es) key zero h a v u p e = absurd (live_not_tombstone h a v p)
    lookup-live (tombstone ∷ es) key (suc i) h a v u p e =
        lookup-live es key i h a v (IsUnique-tail tombstone es u) p e
    lookup-live (live g k w ∷ es) key zero h a v u p e =
        let (same, found) = live_injective g h k a w v p in
        let here : equal k key ≡ true = ap (λ (t : K). equal t key) same ∙ e in
        rw here (ap some found)
    lookup-live (live g k w ∷ es) key (suc i) h a v u p e = elim (Bool-cases (equal k key)) [
      | inl m ↦ absurd (
          omega (
            arith,
            u 0 (suc i) g h k a w v refl p (eq.equal_trans k key a m (eq.equal_sym a key e)),
          ))
      | inr m ↦ rw m (lookup-live es key i h a v (IsUnique-tail (live g k w) es u) p e)
    ]

    -- Two lists that agree but for the slot `i`, in which neither holds the key.
    module _ (i : ℕ) (k : K) where
      abbrev Agree : List (Slot K V) → List (Slot K V) → Type ℓ
      Agree es fs = (j : ℕ) → j ≢ i → slot_at fs j ≡ slot_at es j

      abbrev pub Lacks : List (Slot K V) → Type ℓ
      Lacks es = (h : ℕ) (a : K) (v : V) → slot_at es i ≡ live h a v → equal a k ≡ false

      lookup-carried :
          (es fs : List (Slot K V)) (v : V)
          → IsUnique fs
          → Agree es fs
          → Lacks es
          → lookup es k ≡ some v
          → lookup fs k ≡ some v
      lookup-carried es fs v uf same lacks f =
          let h = lookup-Holds es k v f in
          elim (Bool-cases (h.index == i)) [
            | inl e ↦
                (let here : slot_at es i ≡ live h.hash h.held v =
                    ap (λ (n : ℕ). slot_at es n) (sym ((==_iff h.index i).0 e)) ∙ h.at in
                  absurd (true_not_false (sym h.same ∙ lacks h.hash h.held v here)))
            | inr e ↦
                lookup-live fs k h.index h.hash h.held v uf (same h.index (ground arith) ∙ h.at)
                  h.same
          ]

      pub lookup-Agree :
          (es fs : List (Slot K V))
          → IsUnique es
          → IsUnique fs
          → Agree es fs
          → Lacks es
          → Lacks fs
          → lookup fs k ≡ lookup es k
      lookup-Agree es fs ue uf same le lf = elim (Option-cases (lookup es k)) [
        | inr (v, f) ↦ lookup-carried es fs v uf same le f ∙ sym f
        | inl f ↦ elim (Option-cases (lookup fs k)) [
          | inl g ↦ g ∙ sym f
          | inr (v, g) ↦ g ∙ sym (lookup-carried fs es v ue (λ j o. sym (same j o)) lf g)
        ]
      ]
