-- ===== src/Runtime/Table/Join.antt =====
-- src/runtime/ms_map.c: what the slots hold, as a map from keys, when the slots are read one by one.
use mslang_c.Base.{
  ℕ, suc, ◌≡◌, inl, inr, ◌∙◌, sym, refl, Bool, true, false, Option, none, some, List, [], ◌∷◌,
  if◌then◌else◌, arith, Bool-cases, Option-cases, true_not_false, not_true,
}
use mslang_c.Runtime.Table.{Slot, unused, tombstone, live, slot_at, is_live}
use mslang_c.Runtime.Table.Count.{count}
use mslang_c.Runtime.Table.Lookup.{IsEquality, lookup, lookup-Holds, IsUnique}

abbrev pub or_else {ℓ} : {A : Type ℓ} → Option A → Option A → Option A
or_else none b = b
or_else (some a) b = some a

pub or_else-none {ℓ} : {A : Type ℓ} (o : Option A) → or_else o none ≡ o
or_else-none none = refl
or_else-none (some a) = refl

module _ {ℓ} {K V : Type ℓ} (equal : K → K → Bool) where
  pub lookup-no_live :
      (es : List (Slot K V)) (k : K) → count is_live es ≡ 0 → lookup equal es k ≡ none
  unfolding lookup
  lookup-no_live [] k e = refl
  lookup-no_live (unused ∷ es) k e = lookup-no_live es k (omega arith)
  lookup-no_live (tombstone ∷ es) k e = lookup-no_live es k (omega arith)
  lookup-no_live (live h a v ∷ es) k e = absurd (omega arith)

  pub lookup-absent :
      (es : List (Slot K V)) (key : K)
      → ((j h : ℕ) (k : K) (v : V) → slot_at es j ≡ live h k v → equal k key ≡ false)
      → lookup equal es key ≡ none
  lookup-absent es key a = elim (Option-cases (lookup equal es key)) [
    | inl f ↦ f
    | inr (v, f) ↦
        (let o = lookup-Holds equal es key v f in
          absurd (true_not_false (sym o.same ∙ a o.index o.hash o.held v o.at)))
  ]

  module _ (eq : IsEquality equal) where
    -- Equal keys have the same value.
    pub lookup-equal :
        (es : List (Slot K V)) (a b : K) → equal a b ≡ true → lookup equal es b ≡ lookup equal es a
    unfolding lookup
    lookup-equal [] a b e = refl
    lookup-equal (unused ∷ es) a b e = lookup-equal es a b e
    lookup-equal (tombstone ∷ es) a b e = lookup-equal es a b e
    lookup-equal (live h k v ∷ es) a b e = elim (Bool-cases (equal k a)) [
      | inl t ↦ (let u = eq.equal_trans k a b t e in rw (t, u) refl)
      | inr f ↦
          (let u : equal k b ≡ false =
              not_true
                (λ t. true_not_false (sym (eq.equal_trans k b a t (eq.equal_sym a b e)) ∙ f)) in
            rw (f, u) (lookup-equal es a b e))
    ]

    -- The other slots do not hold the first one's key.
    pub lookup-lacks :
        (h : ℕ) (k : K) (v : V) (es : List (Slot K V))
        → IsUnique equal (live h k v ∷ es)
        → (a : K) → equal k a ≡ true
        → lookup equal es a ≡ none
    lookup-lacks h k v es u a e = elim (Option-cases (lookup equal es a)) [
      | inl f ↦ f
      | inr (w, f) ↦
          (let o = lookup-Holds equal es a w f in
            absurd (
              omega (
                arith,
                u 0 (suc o.index) h o.hash k o.held v w refl o.at
                    (eq.equal_trans k a o.held e (eq.equal_sym o.held a o.same)),
              )))
    ]

    -- A pair is added before the others or behind them.
    pub or_else-live :
        (h : ℕ) (k : K) (v : V) (es : List (Slot K V))
        → IsUnique equal (live h k v ∷ es)
        → (a : K) (o : Option V)
        → or_else (lookup equal es a) (if equal k a then some v else o)
          ≡ or_else (lookup equal (live h k v ∷ es) a) o
    unfolding lookup
    or_else-live h k v es u a o = elim (Bool-cases (equal k a)) [
      | inl t ↦ (let l = lookup-lacks h k v es u a t in rw (t, l) refl)
      | inr f ↦ rw f refl
    ]
