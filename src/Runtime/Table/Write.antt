-- ===== src/Runtime/Table/Write.antt =====
-- src/runtime/ms_map.c: what writing a slot does to what the slots hold.
use mslang_c.Base.{
  ℕ, ◌<◌, ◌≡◌, inl, inr, ◌∙◌, sym, ap, Bool, true, none, some, List, if◌then◌else◌, length, set,
  arith, Bool-cases, Option-cases, get_or-set, get_or-set_other, true_not_false, not_true,
}
use mslang_c.Runtime.Table.{Slot, unused, tombstone, live, slot_at}
use mslang_c.Runtime.Table.Lookup.{
  IsEquality, lookup, IsUnique, lookup-live, lookup-Agree, lookup-Holds, slot_at-set, slot-inside,
  live_injective, live_not_tombstone,
}

module _ {ℓ} {K V : Type ℓ} (equal : K → K → Bool) (eq : IsEquality equal) where
  -- A slot in which the key may stand.
  pub record MayHold (es : List (Slot K V)) (key : K) (i : ℕ) : Type ℓ where
    pub inside : i < length es
    pub only : (j h : ℕ) (k : K) (v : V) → slot_at es j ≡ live h k v → equal k key ≡ true → j ≡ i
    pub own : (h : ℕ) (k : K) (v : V) → slot_at es i ≡ live h k v → equal k key ≡ true

  module _ (es : List (Slot K V)) (key : K) (i hash : ℕ) (value : V) (u : IsUnique equal es)
      (m : MayHold es key i) where
    abbrev written : List (Slot K V)
    written = set es i (live hash key value)

    -- A key written where it may stand: no key is held twice.
    pub IsUnique-set : IsUnique equal written
    IsUnique-set j n h g a b v w p q e =
        elim (slot_at-set equal es i j (live hash key value) m.inside) [
          | inl (ji, pj) ↦ elim (slot_at-set equal es i n (live hash key value) m.inside) [
            | inl (ni, pn) ↦ omega arith
            | inr (ni, pn) ↦
                (let (ka, _) = live_injective hash h key a value v (sym pj ∙ p) in
                  ji
                  ∙ sym (
                      m.only n g b w (sym pn ∙ q)
                        (eq.equal_sym key b (ap (λ (t : K). equal t b) ka ∙ e))))
          ]
          | inr (ji, pj) ↦ elim (slot_at-set equal es i n (live hash key value) m.inside) [
            | inl (ni, pn) ↦
                (let (kb, _) = live_injective hash g key b value w (sym pn ∙ q) in
                  absurd (ji (m.only j h a v (sym pj ∙ p) (ap (λ (t : K). equal a t) kb ∙ e))))
            | inr (ni, pn) ↦ u j n h g a b v w (sym pj ∙ p) (sym pn ∙ q) e
          ]
        ]

    -- The key has the new value, and every other key what it had.
    pub lookup-set :
        (k : K) → lookup equal written k ≡ (if equal key k then some value else lookup equal es k)
    lookup-set k = elim (Bool-cases (equal key k)) [
      | inl t ↦ rw t (
          lookup-live equal eq written k i hash key value IsUnique-set
            (get_or-set es i (live hash key value) unused m.inside) t)
      | inr f ↦ rw f (
          lookup-Agree equal eq i k es written u IsUnique-set
            (λ j o. get_or-set_other es i j (live hash key value) unused (λ p. o (sym p)))
            (λ h a v p. not_true (λ t.
              true_not_false
                (sym (eq.equal_trans key a k (eq.equal_sym a key (m.own h a v p)) t) ∙ f)))
            (λ h a v p.
              ap (λ (t : K). equal t k)
                (sym
                  (live_injective hash h key a value v
                    (sym (get_or-set es i (live hash key value) unused m.inside) ∙ p)).0)
              ∙ f))
    ]

  module _ (es : List (Slot K V)) (i h : ℕ) (key : K) (value : V) (u : IsUnique equal es)
      (at : slot_at es i ≡ live h key value) where
    abbrev buried : List (Slot K V)
    buried = set es i tombstone

    inside : i < length es
    inside = slot-inside equal es i h key value at

    pub IsUnique-bury : IsUnique equal buried
    IsUnique-bury j n h' g a b v w p q e = elim (slot_at-set equal es i j tombstone inside) [
      | inl (ji, pj) ↦ absurd (live_not_tombstone h' a v (sym pj ∙ p))
      | inr (ji, pj) ↦ elim (slot_at-set equal es i n tombstone inside) [
        | inl (ni, pn) ↦ absurd (live_not_tombstone g b w (sym pn ∙ q))
        | inr (ni, pn) ↦ u j n h' g a b v w (sym pj ∙ p) (sym pn ∙ q) e
      ]
    ]

    -- The key in the slot has no value any more, and every other key what it had.
    pub lookup-bury :
        (k : K) → lookup equal buried k ≡ (if equal key k then none else lookup equal es k)
    lookup-bury k = elim (Bool-cases (equal key k)) [
      | inl t ↦ elim (Option-cases (lookup equal buried k)) [
        | inl f ↦ rw t f
        | inr (v, f) ↦
            (let r = lookup-Holds equal buried k v f in
              elim (slot_at-set equal es i r.index tombstone inside) [
                | inl (ri, pr) ↦ absurd (live_not_tombstone r.hash r.held v (sym pr ∙ r.at))
                | inr (ri, pr) ↦ absurd (
                    ri (
                      u r.index i r.hash h r.held key v value (sym pr ∙ r.at) at
                        (eq.equal_trans r.held k key r.same (eq.equal_sym key k t))))
              ])
      ]
      | inr f ↦ rw f (
          lookup-Agree equal eq i k es buried u IsUnique-bury
            (λ j o. get_or-set_other es i j tombstone unused (λ p. o (sym p)))
            (λ g a v p.
              ap (λ (t : K). equal t k) (sym (live_injective h g key a value v (sym at ∙ p)).0) ∙ f)
            (λ g a v p.
              absurd
                (live_not_tombstone g a v (sym (get_or-set es i tombstone unused inside) ∙ p))))
    ]
