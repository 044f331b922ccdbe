-- ===== src/Runtime/Table/Insert.antt =====
-- src/runtime/ms_map.c: a key put into the slot that `findSlot` finds.
use native.Mathlib.Nat.{mod-lt}
use mathlib.Core.Path.{subst}
use mslang_c.Base.{
  ℕ, ◌+◌, ◌<◌, ◌≡◌, ◌≢◌, inl, inr, ◌∙◌, sym, ap, Bool, true, false, Option, none, some, List,
  if◌then◌else◌, length, length-set, set, arith, some_injective, true_not_false,
}
use mslang_c.Runtime.Table.{
  Slot, unused, tombstone, live, slot_at, is_live, is_tombstone, find_slot,
}
use mslang_c.Runtime.Table.Lookup.{
  IsEquality, lookup, IsUnique, slot_at-set, slot-inside, live_injective, live_hash,
  live_not_unused, live_not_tombstone,
}
use mslang_c.Runtime.Table.Probe.{Reaches, AllReached, SameHash, Finds, find_slot-Finds, position}
use mslang_c.Runtime.Table.Write.{MayHold, IsUnique-set, lookup-set, IsUnique-bury, lookup-bury}

-- The type of keys: `msValueEqual`, and `hashValue`, none for a key that has no hash. Equal keys
-- have equal hashes.
pub record Keys {ℓ} (K : Type ℓ) : Type ℓ where
  pub equal : K → K → Bool
  pub hash : K → Option ℕ
  pub equality : IsEquality equal
  pub hash_equal : (a b : K) → equal a b ≡ true → hash a ≡ hash b

module _ {ℓ} {K V : Type ℓ} where
  -- The number of slots is kept, and no slot becomes unused.
  pub record Keeps (es fs : List (Slot K V)) : Type ℓ where
    pub same_cap : length fs ≡ length es
    pub used : (i : ℕ) → slot_at fs i ≡ unused → slot_at es i ≡ unused

  Reaches-Keeps :
      (es fs : List (Slot K V)) (h i : ℕ) → Keeps es fs → Reaches es h i → Reaches fs h i
  Reaches-Keeps es fs h i k r = record {
    offset = r.offset;
    below = rw k.same_cap r.below;
    there = ap (λ (n : ℕ). position n h r.offset) k.same_cap ∙ r.there;
    no_gap = λ d l u. r.no_gap d l (
        k.used (position (length es) h d)
          (ap (λ (n : ℕ). slot_at fs (position n h d)) (sym k.same_cap) ∙ u));
  }

  Keeps-set :
      (equal : K → K → Bool) (es : List (Slot K V)) (i : ℕ) (s : Slot K V)
      → i < length es
      → s ≢ unused
      → Keeps es (set es i s)
  Keeps-set equal es i s l n = record {
    same_cap = length-set es i s;
    used = λ j u. elim (slot_at-set equal es i j s l) [
      | inl (ji, p) ↦ absurd (n (sym p ∙ u))
      | inr (ji, p) ↦ sym p ∙ u
    ];
  }

module _ {ℓ} {K V : Type ℓ} (keys : Keys K) where
  -- A list of slots in which every key is held once, under its hash, where probing reaches it.
  pub record IsSound (es : List (Slot K V)) : Type ℓ where
    pub unique : IsUnique keys.equal es
    pub reached : AllReached es
    pub hashed : (i h : ℕ) (k : K) (v : V) → slot_at es i ≡ live h k v → keys.hash k ≡ some h

  module _ (es : List (Slot K V)) (sound : IsSound es) (key : K) (hash : ℕ)
      (has : keys.hash key ≡ some hash) where
    IsSound-SameHash : SameHash keys.equal key hash es
    IsSound-SameHash i h k v l t =
        some_injective (sym (sound.hashed i h k v l) ∙ keys.hash_equal k key t ∙ has)

    -- Probing for the key finds its slot, or one for it.
    pub find-Finds :
        (q : ℕ)
        → q < length es
        → slot_at es q ≡ unused
        → Finds keys.equal key hash es (find_slot keys.equal key hash es)
    find-Finds q l u = find_slot-Finds keys.equal key hash es sound.reached IsSound-SameHash q l u

    pub hit-MayHold :
        (i h : ℕ) (k : K) (v : V)
        → slot_at es i ≡ live h k v
        → keys.equal k key ≡ true
        → MayHold keys.equal keys.equality es key i
    hit-MayHold i h k v l t = record {
      inside = slot-inside keys.equal es i h k v l;
      only = λ j g a w p e.
          sound.unique j i g h a k w v p l
            (keys.equality.equal_trans a key k e (keys.equality.equal_sym k key t));
      own = λ g a w p.
          ap (λ (b : K). keys.equal b key) (live_injective g h a k w v (sym p ∙ l)).0 ∙ t;
    }

    pub miss-MayHold :
        (i : ℕ)
        → is_live (slot_at es i) ≡ false
        → Reaches es hash i
        → ((j h : ℕ) (k : K) (v : V) → slot_at es j ≡ live h k v → keys.equal k key ≡ false)
        → MayHold keys.equal keys.equality es key i
    miss-MayHold i dead r absent = record {
      inside =
          subst (λ (n : ℕ). n < length es) r.there
            (mod-lt (hash + r.offset) (omega (arith, r.below)));
      only = λ j g a w p e. absurd (true_not_false (sym e ∙ absent j g a w p));
      own = λ g a w p. absurd (true_not_false (sym (ap is_live p) ∙ dead));
    }

    module _ (i : ℕ) (value : V) (m : MayHold keys.equal keys.equality es key i)
        (r : Reaches es hash i) where
      abbrev put : List (Slot K V)
      put = set es i (live hash key value)

      put-Keeps : Keeps es put
      put-Keeps =
          Keeps-set keys.equal es i (live hash key value) m.inside
            (λ u. live_not_unused hash key value (sym u))

      pub IsSound-put : IsSound put
      IsSound-put = record {
        unique = IsUnique-set keys.equal keys.equality es key i hash value sound.unique m;
        reached = λ j h k v l. elim (slot_at-set keys.equal es i j (live hash key value) m.inside) [
          | inl (ji, p) ↦
              (let same = live_hash hash h key k value v (sym p ∙ l) in
                subst (λ (n : ℕ). Reaches put n j) same
                  (subst (Reaches put hash) (sym ji) (Reaches-Keeps es put hash i put-Keeps r)))
          | inr (ji, p) ↦ Reaches-Keeps es put h j put-Keeps (sound.reached j h k v (sym p ∙ l))
        ];
        hashed = λ j h k v l. elim (slot_at-set keys.equal es i j (live hash key value) m.inside) [
          | inl (ji, p) ↦
              ap keys.hash (sym (live_injective hash h key k value v (sym p ∙ l)).0)
              ∙ has
              ∙ ap some (live_hash hash h key k value v (sym p ∙ l))
          | inr (ji, p) ↦ sound.hashed j h k v (sym p ∙ l)
        ];
      }

      pub lookup-put :
          (k : K)
          → lookup keys.equal put k
            ≡ (if keys.equal key k then some value else lookup keys.equal es k)
      lookup-put = lookup-set keys.equal keys.equality es key i hash value sound.unique m

  -- A key that is removed.
  module _ (es : List (Slot K V)) (sound : IsSound es) (i h : ℕ) (key : K) (value : V)
      (at : slot_at es i ≡ live h key value) where
    abbrev buried : List (Slot K V)
    buried = set es i tombstone

    buried-inside : i < length es
    buried-inside = slot-inside keys.equal es i h key value at

    buried-Keeps : Keeps es buried
    buried-Keeps =
        Keeps-set keys.equal es i tombstone buried-inside (λ u. true_not_false (ap is_tombstone u))

    pub IsSound-bury : IsSound buried
    IsSound-bury = record {
      unique = IsUnique-bury keys.equal keys.equality es i h key value sound.unique at;
      reached = λ j g k v l. elim (slot_at-set keys.equal es i j tombstone buried-inside) [
        | inl (ji, p) ↦ absurd (live_not_tombstone g k v (sym p ∙ l))
        | inr (ji, p) ↦ Reaches-Keeps es buried g j buried-Keeps (sound.reached j g k v (sym p ∙ l))
      ];
      hashed = λ j g k v l. elim (slot_at-set keys.equal es i j tombstone buried-inside) [
        | inl (ji, p) ↦ absurd (live_not_tombstone g k v (sym p ∙ l))
        | inr (ji, p) ↦ sound.hashed j g k v (sym p ∙ l)
      ];
    }

    pub lookup-removed :
        (k : K)
        → lookup keys.equal buried k ≡ (if keys.equal key k then none else lookup keys.equal es k)
    lookup-removed = lookup-bury keys.equal keys.equality es i h key value sound.unique at
