-- ===== src/Runtime/Set/Prune.antt =====
-- src/runtime/ms_set.c: `msSetIntersectionUpdate` and `msSetDifferenceUpdate`.
use Prim.{Unit}
use mathlib.Core.Path.{subst}
use mslang_c.Base.{
  ℕ, zero, suc, ◌+◌, ◌≤◌, ◌<◌, ◌≡◌, ◌≢◌, inl, inr, ◌∙◌, sym, ap, refl, Bool, true, false, not, ◌&&◌,
  none, some, if◌then◌else◌, length, length-set, arith, Bool-cases, Option-cases, true_not_false,
  not_true,
}
use mslang_c.Runtime.Map.{answer, is_some}
use mslang_c.Runtime.Map.Change.{HasMap}
use mslang_c.Runtime.Map.Remove.{bury-removes}
use mslang_c.Runtime.Map.Found.{IsMap}
use mslang_c.Runtime.Set.{SetObj, agrees, answered}
use mslang_c.Runtime.Set.InPlace.{prune, intersection_update, difference_update}
use mslang_c.Runtime.Set.Member.{member, member-equal, is_in-member}
use mslang_c.Runtime.Table.{unused, tombstone, live, slot_at, bury}
use mslang_c.Runtime.Table.Insert.{Keys}
use mslang_c.Runtime.Table.Lookup.{
  lookup, lookup-Holds, slot_at-set, slot-inside, live_not_unused, live_not_tombstone,
  live_injective,
}
use mslang_c.Runtime.Table.Probe.{Slot-cases}

module _ {K : Type 0} (keys : Keys K) (want : Bool) (o : SetObj K) (mo : IsMap keys o) where
  abbrev passes : K → Bool
  passes k = agrees want (member keys o k)

  module _ (left i : ℕ) (s : SetObj K) where
    prune-unused :
        slot_at s.entries i ≡ unused
        → prune keys want o (suc left) i s ≡ prune keys want o left (suc i) s
    unfolding prune
    prune-unused e = rw (e, prune) refl

    prune-tombstone :
        slot_at s.entries i ≡ tombstone
        → prune keys want o (suc left) i s ≡ prune keys want o left (suc i) s
    unfolding prune
    prune-tombstone e = rw (e, prune) refl

    prune-live :
        (h : ℕ) (k : K) (v : Unit {0})
        → slot_at s.entries i ≡ live h k v
        → keys.hash k ≡ some h
        → prune keys want o (suc left) i s ≡ (
            if passes k
            then prune keys want o left (suc i) s
            else prune keys want o left (suc i) (bury s i))
    unfolding prune
    prune-live h k v e has = (let f = is_in-member keys o mo k h has in rw (e, prune) (rw f refl))

  -- What the loop from the slot `i` on leaves of a set.
  record Pruned (i : ℕ) (s r : SetObj K) : Type 0 where
    pub is_map : IsMap keys r
    pub keeps : (k : K) → passes k ≡ true → member keys r k ≡ member keys s k
    pub drops :
        (k : K)
        → passes k ≡ false
        → ((j h : ℕ) (a : K) (v : Unit {0})
            → slot_at s.entries j ≡ live h a v
            → keys.equal a k ≡ true
            → i ≤ j)
        → member keys r k ≡ false

  -- A slot at `i` that does not hold an element that is to go.
  Pruned-kept :
      (i : ℕ) (s r : SetObj K)
      → ((h : ℕ) (a : K) (v : Unit {0})
          → slot_at s.entries i ≡ live h a v
          → (k : K) → passes k ≡ false
          → keys.equal a k ≡ true
          → ⊥)
      → Pruned (suc i) s r
      → Pruned i s r
  Pruned-kept i s r not_here p = record {
    is_map = p.is_map;
    keeps = p.keeps;
    drops = λ k f from. p.drops k f (λ j h a v e t. below i j (from j h a v e t) (λ same.
        not_here h a v (subst (λ (n : ℕ). slot_at s.entries n ≡ live h a v) same e) k f t));
  }
    where
      below : (i j : ℕ) → i ≤ j → j ≢ i → suc i ≤ j
      below i j l n = omega arith

  Pruned-buried :
      (i : ℕ) (s r : SetObj K) (m : IsMap keys s) (h : ℕ) (a : K) (v : Unit {0})
      → slot_at s.entries i ≡ live h a v
      → passes a ≡ false
      → Pruned (suc i) (bury s i) r
      → Pruned i s r
  unfolding bury
  Pruned-buried i s r m h a v e f p = record {
    is_map = p.is_map;
    keeps = λ k t. p.keeps k t ∙ ap is_some (buried.maps k ∙ rw (other k t) refl);
    drops = λ k n from. p.drops k n (λ j g b w q t.
        elim (slot_at-set keys.equal s.entries i j tombstone inside) [
          | inl (ji, z) ↦ absurd (live_not_tombstone g b w (sym z ∙ q))
          | inr (ji, z) ↦ omega (arith, from j g b w (sym z ∙ q) t)
        ]);
  }
    where
      inside : i < length s.entries
      inside = slot-inside keys.equal s.entries i h a v e

      buried :
          HasMap keys
            (λ k. if keys.equal a k then none else lookup keys.equal s.entries k)
            (bury s i)
      buried = bury-removes keys s m i h a v e

      other : (k : K) → passes k ≡ true → keys.equal a k ≡ false
      other k t = not_true (λ same.
          true_not_false (sym t ∙ sym (ap (agrees want) (member-equal keys o a k same)) ∙ f))

  bury-length :
      (i left : ℕ) (s : SetObj K)
      → i + suc left ≡ length s.entries
      → suc i + left ≡ length (bury s i).entries
  unfolding bury
  bury-length i left s n = omega (arith, length-set s.entries i tombstone)

  prune-Pruned :
      (left i : ℕ) (s : SetObj K)
      → IsMap keys s
      → i + left ≡ length s.entries
      → (r : SetObj K) × (prune keys want o left i s ≡ some r) × Pruned i s r
  unfolding prune
  prune-Pruned zero i s m n = (
    s,
    refl,
    record {
      is_map = m;
      keeps = λ k t. refl;
      drops = λ k f from. elim (Option-cases (lookup keys.equal s.entries k)) [
        | inl e ↦ ap is_some e
        | inr (v, e) ↦
            (let q = lookup-Holds keys.equal s.entries k v e in
              let inside = slot-inside keys.equal s.entries q.index q.hash q.held v q.at in
              absurd (omega (arith, from q.index q.hash q.held v q.at q.same)))
      ];
    },
  )
  prune-Pruned (suc left) i s m n = elim (Slot-cases (slot_at s.entries i)) [
    | inl e ↦
        (let (r, f, p) = prune-Pruned left (suc i) s m (omega arith) in
          (
            r,
            prune-unused left i s e ∙ f,
            Pruned-kept i s r (λ h a v q k x t. live_not_unused h a v (sym e ∙ q)) p,
          ))
    | inr (inl e) ↦
        (let (r, f, p) = prune-Pruned left (suc i) s m (omega arith) in
          (
            r,
            prune-tombstone left i s e ∙ f,
            Pruned-kept i s r (λ h a v q k x t. live_not_tombstone h a v (sym e ∙ q)) p,
          ))
    | inr (inr (h, a, v, e)) ↦
        (let step = prune-live left i s h a v e (m.valid.sound.hashed i h a v e) in
          elim (Bool-cases (passes a)) [
            | inl y ↦
                (let (r, f, p) = prune-Pruned left (suc i) s m (omega arith) in
                  (
                    r,
                    step ∙ rw y f,
                    Pruned-kept i s r
                        (λ g b w q k x t. true_not_false (
                          sym y
                          ∙ ap (agrees want) (
                              member-equal keys o a k (
                                ap (λ (c : K). keys.equal c k)
                                  (live_injective h g a b v w (sym e ∙ q)).0
                                ∙ t))
                          ∙ x))
                        p,
                  ))
            | inr y ↦
                (let b = bury-removes keys s m i h a v e in
                  let (r, f, p) =
                    prune-Pruned left (suc i) (bury s i) b.is_map (bury-length i left s n) in
                  (r, step ∙ rw y f, Pruned-buried i s r m h a v e y p))
          ])
  ]

  pruned-members :
      (s : SetObj K)
      → IsMap keys s
      → (r : SetObj K) × (prune keys want o (length s.entries) 0 s ≡ some r)
        × IsMap keys r
        × ((k : K) → member keys r k ≡ member keys s k && passes k)
  pruned-members s m =
      let (r, e, p) = prune-Pruned (length s.entries) 0 s m (omega arith) in
      (
        r,
        e,
        p.is_map,
        λ k. elim (Bool-cases (passes k)) [
          | inl t ↦ p.keeps k t ∙ rw t (sym (and_true (member keys s k)))
          | inr f ↦
              p.drops k f (λ j h a v x y. omega arith) ∙ rw f (sym (and_false (member keys s k)))
        ],
      )
    where
      and_true : (b : Bool) → (b && true) ≡ b
      and_true true = refl
      and_true false = refl

      and_false : (b : Bool) → (b && false) ≡ false
      and_false true = refl
      and_false false = refl

module _ {K : Type 0} (keys : Keys K) (s o : SetObj K) (ms : IsMap keys s) (mo : IsMap keys o) where
  -- `msSetIntersectionUpdate` and `msSetDifferenceUpdate` of a set with another end, and leave a set:
  -- of its elements, the first keeps those that are also in the other, the second those that are not.
  pub updates-members :
      ((r : SetObj K) × (intersection_update keys s (some o) ≡ some (answer r))
        × IsMap keys r
        × ((k : K) → member keys r k ≡ member keys s k && member keys o k))
      × ((r : SetObj K) × (difference_update keys s (some o) ≡ some (answer r))
          × IsMap keys r
          × ((k : K) → member keys r k ≡ member keys s k && not (member keys o k)))
  updates-members =
      let (r, e, m, f) = pruned-members keys true o mo s ms in
      let (r', e', m', f') = pruned-members keys false o mo s ms in
      ((r, ap answered e, m, f), (r', ap answered e', m', f'))
