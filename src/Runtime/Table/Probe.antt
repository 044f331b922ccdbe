-- ===== src/Runtime/Table/Probe.antt =====
-- src/runtime/ms_map.c, `findSlot`: what the probing finds.
use native.Mathlib.Nat.{mod-lt, mod-add-mod, add-mod-mod, add-mod_right, mod-eq_of_lt}
use mathlib.Core.Path.{subst}
use mslang_c.Base.{
  ℕ, zero, suc, ◌+◌, ◌-◌, ◌%◌, ◌≤◌, ◌<◌, ◌≡◌, ◌≢◌, ◌⊎◌, inl, inr, ◌∙◌, sym, ap, refl, Bool, true,
  false, Option, none, some, List, ltb, ◌==◌, length, arith, Bool-cases, some_injective,
  true_not_false,
}
use mslang_c.Runtime.Table.{
  Slot, unused, tombstone, live, slot_at, is_live, is_tombstone, first, is_match, probe, find_slot,
}
use mslang_c.Runtime.Table.Lookup.{live_not_unused, live_not_tombstone}

-- The slot that is probed after `d` others.
abbrev pub position : ℕ → ℕ → ℕ → ℕ
position cap hash d = (hash + d) % cap

position-next : (cap hash d : ℕ) → (position cap hash d + 1) % cap ≡ position cap hash (d + 1)
position-next cap hash d = mod-add-mod (hash + d) cap 1 ∙ ap (λ (n : ℕ). n % cap) (omega arith)

-- Every slot is probed.
position-offset : (cap hash q : ℕ) → q < cap → (d : ℕ) × (d < cap) × (position cap hash d ≡ q)
position-offset cap hash q h =
    let room : 0 < cap = omega arith in
    let r = hash % cap in
    let small : r < cap = mod-lt hash room in
    let back : r + (q + (cap - r)) ≡ q + cap = omega arith in
    (
      (q + (cap - r)) % cap,
      mod-lt (q + (cap - r)) room,
      add-mod-mod hash (q + (cap - r)) cap
          ∙ sym (mod-add-mod hash cap (q + (cap - r)))
          ∙ ap (λ (n : ℕ). n % cap) back
          ∙ add-mod_right q cap
          ∙ mod-eq_of_lt h,
    )

pub order_cases : (a b : ℕ) → (a < b) ⊎ (a ≡ b) ⊎ (b < a)
order_cases a b = elim (Bool-cases (ltb a b)) [
  | inl l ↦ inl (ground arith)
  | inr l ↦ elim (Bool-cases (a == b)) [
    | inl e ↦ inr (inl (ground arith))
    | inr e ↦ inr (inr (ground arith))
  ]
]

is_match-intro {ℓ} :
    {K : Type ℓ} (equal : K → K → Bool) (key : K) (hash h : ℕ) (k : K)
    → h ≡ hash
    → equal k key ≡ true
    → is_match equal key hash h k ≡ true
is_match-intro equal key hash h k s t =
    (let e : (h == hash) ≡ true = ground arith in rw (e, t) refl)

is_match-elim {ℓ} :
    {K : Type ℓ} (equal : K → K → Bool) (key : K) (hash h : ℕ) (k : K)
    → is_match equal key hash h k ≡ true
    → (h ≡ hash) × (equal k key ≡ true)
is_match-elim equal key hash h k m = (ground arith, ground arith)

module _ {ℓ} {K V : Type ℓ} where
  pub Slot-cases :
      (s : Slot K V)
      → (s ≡ unused) ⊎ (s ≡ tombstone) ⊎ ((h : ℕ) × (k : K) × (v : V) × (s ≡ live h k v))
  Slot-cases unused = inl refl
  Slot-cases tombstone = inr (inl refl)
  Slot-cases (live h k v) = inr (inr (h, k, v, refl))

  tombstone_not_unused : (s : Slot K V) → s ≡ tombstone → s ≢ unused
  tombstone_not_unused s t u = absurd (ground (arith, sym (ap is_tombstone t) ∙ ap is_tombstone u))

  -- The probing for the hash passes no unused slot before `i`.
  pub record Reaches (es : List (Slot K V)) (hash i : ℕ) : Type ℓ where
    pub offset : ℕ
    pub below : offset < length es
    pub there : position (length es) hash offset ≡ i
    pub no_gap : (d : ℕ) → d < offset → slot_at es (position (length es) hash d) ≢ unused

  -- Every key that is held is reached.
  abbrev pub AllReached : List (Slot K V) → Type ℓ
  AllReached es = (i h : ℕ) (k : K) (v : V) → slot_at es i ≡ live h k v → Reaches es h i

  module _ (equal : K → K → Bool) (key : K) (hash : ℕ) where
    -- Every slot that holds the key has its hash.
    abbrev pub SameHash : List (Slot K V) → Type ℓ
    SameHash es =
        (i h : ℕ) (k : K) (v : V) → slot_at es i ≡ live h k v → equal k key ≡ true → h ≡ hash

    -- What `findSlot` returns: the slot that holds the key, or one in which it may be put.
    pub data Finds (es : List (Slot K V)) : Option ℕ → Type ℓ where
      hit :
          (i h : ℕ) (k : K) (v : V)
          → slot_at es i ≡ live h k v
          → h ≡ hash
          → equal k key ≡ true
          → Finds es (some i)
      miss :
          (i : ℕ)
          → is_live (slot_at es i) ≡ false
          → Reaches es hash i
          → ((j h : ℕ) (k : K) (v : V) → slot_at es j ≡ live h k v → equal k key ≡ false)
          → Finds es (some i)

    -- The steps of the loop.
    module _ (fuel idx : ℕ) (es : List (Slot K V)) (seen : Option ℕ) where
      abbrev next : ℕ
      next = (idx + 1) % length es

      probe-unused :
          slot_at es idx ≡ unused
          → probe equal key hash (suc fuel) es idx seen ≡ some (first seen idx)
      unfolding probe
      probe-unused e = rw (e, probe) refl

      probe-tombstone :
          slot_at es idx ≡ tombstone
          → probe equal key hash (suc fuel) es idx seen
            ≡ probe equal key hash fuel es next (some (first seen idx))
      unfolding probe
      probe-tombstone e = rw (e, probe) refl

      probe-match :
          (h : ℕ) (k : K) (v : V)
          → slot_at es idx ≡ live h k v
          → is_match equal key hash h k ≡ true
          → probe equal key hash (suc fuel) es idx seen ≡ some idx
      unfolding probe
      probe-match h k v e m = rw (e, probe, m) refl

      probe-live :
          (h : ℕ) (k : K) (v : V)
          → slot_at es idx ≡ live h k v
          → is_match equal key hash h k ≡ false
          → probe equal key hash (suc fuel) es idx seen ≡ probe equal key hash fuel es next seen
      unfolding probe
      probe-live h k v e m = rw (e, probe, m) refl

    module _ (es : List (Slot K V)) (reached : AllReached es) (hashed : SameHash es) where
      abbrev at : ℕ → Slot K V
      at d = slot_at es (position (length es) hash d)

      -- The first `e` slots have been passed: none is unused, and none holds the key; a tombstone
      -- among them is the one seen.
      record Passed (e : ℕ) (seen : Option ℕ) : Type ℓ where
        no_gap : (d : ℕ) → d < e → at d ≢ unused
        no_match :
            (d h : ℕ) (k : K) (v : V)
            → d < e
            → at d ≡ live h k v
            → is_match equal key hash h k ≡ false
        tomb : (t : ℕ) → seen ≡ some t → (is_live (slot_at es t) ≡ false) × Reaches es hash t

      -- The test of a slot, none if it is not occupied.
      abbrev is_match_slot : Slot K V → Bool
      is_match_slot (live h k v) = is_match equal key hash h k
      is_match_slot _ = false

      -- Behind a gap the key is nowhere.
      absent :
          (e : ℕ) (seen : Option ℕ)
          → Passed e seen
          → at e ≡ unused
          → (j h : ℕ) (k : K) (v : V) → slot_at es j ≡ live h k v
          → equal k key ≡ false
      absent e seen p gap j h k v l = elim (Bool-cases (equal k key)) [
        | inr f ↦ f
        | inl t ↦
            (let same = hashed j h k v l t in
              let r = subst (λ (n : ℕ). Reaches es n j) same (reached j h k v l) in
              let found : at r.offset ≡ live h k v = ap (λ (n : ℕ). slot_at es n) r.there ∙ l in
              elim (order_cases r.offset e) [
                | inl low ↦ absurd (
                    true_not_false (
                      sym (is_match-intro equal key hash h k same t)
                      ∙ p.no_match r.offset h k v low found))
                | inr (inl here) ↦
                    absurd (live_not_unused h k v (sym gap ∙ ap at (sym here) ∙ found))
                | inr (inr high) ↦ absurd (r.no_gap e high gap)
              ])
      ]

      -- One more slot is passed.
      pass :
          (e : ℕ) (seen next : Option ℕ)
          → Passed e seen
          → at e ≢ unused
          → ((h : ℕ) (k : K) (v : V) → at e ≡ live h k v → is_match equal key hash h k ≡ false)
          → ((t : ℕ) → next ≡ some t → (is_live (slot_at es t) ≡ false) × Reaches es hash t)
          → Passed (e + 1) next
      pass e seen next p gap match tomb = record {
        no_gap = λ d l. elim (order_cases d e) [
          | inl low ↦ p.no_gap d low
          | inr (inl here) ↦ subst (λ (n : ℕ). at n ≢ unused) (sym here) gap
          | inr (inr high) ↦ absurd (omega arith)
        ];
        no_match = λ d h k v l f. elim (order_cases d e) [
          | inl low ↦ p.no_match d h k v low f
          | inr (inl here) ↦ match h k v (ap at (sym here) ∙ f)
          | inr (inr high) ↦ absurd (omega arith)
        ];
        tomb = tomb;
      }

      -- The slot that is probed next is reached.
      reach :
          (e : ℕ) (seen : Option ℕ)
          → Passed e seen
          → e < length es
          → Reaches es hash (position (length es) hash e)
      reach e seen p l = record { offset = e; below = l; there = refl; no_gap = p.no_gap }

      -- The tombstone seen, or the slot at hand, if that is not occupied.
      first-tomb :
          (e : ℕ) (seen : Option ℕ)
          → Passed e seen
          → e < length es
          → is_live (at e) ≡ false
          → (is_live (slot_at es (first seen (position (length es) hash e))) ≡ false)
            × Reaches es hash (first seen (position (length es) hash e))
      first-tomb e none p l f = (f, reach e none p l)
      first-tomb e (some t) p l f = p.tomb t refl

      probe-Finds :
          (fuel e p : ℕ) (seen : Option ℕ)
          → Passed e seen
          → e ≤ p
          → p < e + fuel
          → p < length es
          → at p ≡ unused
          → Finds es (probe equal key hash fuel es (position (length es) hash e) seen)
      probe-Finds zero e p seen h a b c g = absurd (omega arith)
      probe-Finds (suc fuel) e p seen h a b c g =
          let idx = position (length es) hash e in
          let after =
            ap (λ (n : ℕ). probe equal key hash fuel es n) (position-next (length es) hash e) in
          let inside : e < length es = omega arith in
          elim (Slot-cases (at e)) [
            | inl u ↦
                (let (dead, r) = first-tomb e seen h inside (ap is_live u) in
                  subst (Finds es) (sym (probe-unused fuel idx es seen u))
                    (miss (first seen idx) dead r (absent e seen h u)))
            | inr (inl t) ↦
                (let other : p ≢ e = λ q. tombstone_not_unused (at e) t (ap at (sym q) ∙ g) in
                  let seen' : Option ℕ = some (first seen idx) in
                  let passed =
                    pass e seen seen' h (tombstone_not_unused (at e) t)
                      (λ h' k v q. absurd (live_not_tombstone h' k v (sym t ∙ q)))
                      (λ n q.
                        subst (λ (m : ℕ). (is_live (slot_at es m) ≡ false) × Reaches es hash m)
                          (some_injective q) (first-tomb e seen h inside (ap is_live t))) in
                  subst (Finds es)
                    (sym (probe-tombstone fuel idx es seen t ∙ ap (λ f. f seen') after))
                    (probe-Finds fuel (e + 1) p seen' passed (omega arith) (omega arith) c g))
            | inr (inr (h', k, v, l)) ↦ elim (Bool-cases (is_match equal key hash h' k)) [
              | inl m ↦
                  (let (same, t) = is_match-elim equal key hash h' k m in
                    subst (Finds es) (sym (probe-match fuel idx es seen h' k v l m))
                      (hit idx h' k v l same t))
              | inr m ↦
                  (let other : p ≢ e = λ q. live_not_unused h' k v (sym (ap at (sym q) ∙ g) ∙ l) in
                    let passed =
                      pass e seen seen h (λ q. live_not_unused h' k v (sym q ∙ l))
                        (λ g' a w q. ap (is_match_slot) (sym q ∙ l) ∙ m) h.tomb in
                    subst (Finds es)
                      (sym (probe-live fuel idx es seen h' k v l m ∙ ap (λ f. f seen) after))
                      (probe-Finds fuel (e + 1) p seen passed (omega arith) (omega arith) c g))
            ]
          ]

      -- With an unused slot in the table, `findSlot` ends, and finds the key's slot or one for it.
      pub find_slot-Finds :
          (q : ℕ) → q < length es → slot_at es q ≡ unused → Finds es (find_slot equal key hash es)
      find_slot-Finds q l u =
          let (p, below, there) = position-offset (length es) hash q l in
          subst (λ (n : ℕ). Finds es (probe equal key hash (length es) es (n % length es) none))
            (omega arith)
            (probe-Finds (length es) 0 p none
              (record {
                no_gap = λ d n. absurd (omega arith);
                no_match = λ d h k v n. absurd (omega arith);
                tomb = λ t n. absurd (ground arith);
              })
              (omega arith) (omega arith) below (ap (λ (n : ℕ). slot_at es n) there ∙ u))
