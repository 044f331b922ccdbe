-- ===== src/Runtime/Map/Found.antt =====
-- src/runtime/ms_map.c, `lookupEntry`: the entry that it finds in a valid map.
use mslang_c.Base.{
  ℕ, ◌≡◌, inl, inr, ◌∙◌, sym, ap, refl, true, false, Option, none, some, ◌==◌, length, arith,
  Bool-cases,
}
use mslang_c.Runtime.Map.{error, answer, value_of, held, find_in, lookup_entry}
use mslang_c.Runtime.Table.{Table, Slot, live, slot_at, is_live, find_slot}
use mslang_c.Runtime.Table.Count.{unused-somewhere}
use mslang_c.Runtime.Table.Insert.{Keys, find-Finds}
use mslang_c.Runtime.Table.Join.{lookup-no_live, lookup-absent}
use mslang_c.Runtime.Table.Lookup.{lookup, lookup-live}
use mslang_c.Runtime.Table.Probe.{Finds, hit, miss, Slot-cases}
use mslang_c.Runtime.Table.Store.{IsCapacity}
use mslang_c.Runtime.Table.Valid.{IsValid}

module _ {ℓ} {K V : Type ℓ} (keys : Keys K) where
  -- The table is valid, and its capacity a power of two from 8 on.
  pub record IsMap (m : Table K V) : Type ℓ where
    pub valid : IsValid keys m
    pub capacity : IsCapacity (length m.entries)

  module _ (m : Table K V) (key : K) where
    -- What is found: the key's entry, or no occupied one, and then the key is in none.
    pub data Found : Option ℕ → Type ℓ where
      present :
          (i h : ℕ) (k : K) (v : V)
          → slot_at m.entries i ≡ live h k v
          → keys.equal k key ≡ true
          → Found (some i)
      absent : (e : Option ℕ) → held m e ≡ none → lookup keys.equal m.entries key ≡ none → Found e

    module _ (v : IsValid keys m) where
      pub held-Found : (e : Option ℕ) → Found e → held m e ≡ lookup keys.equal m.entries key
      held-Found e (present i h k w p t) =
          ap value_of p
          ∙ sym (lookup-live keys.equal keys.equality m.entries key i h k w v.sound.unique p t)
      held-Found e (absent o p n) = p ∙ sym n

      module _ (hash : ℕ) (has : keys.hash key ≡ some hash) where
        value_of-dead : (s : Slot K V) → is_live s ≡ false → value_of s ≡ none
        value_of-dead s d = elim (Slot-cases s) [
          | inl u ↦ rw u refl
          | inr (inl u) ↦ rw u refl
          | inr (inr (h, k, w, u)) ↦ absurd (ground (arith, ap is_live u))
        ]

        pub find_in-Found : (e : Option ℕ) × (find_in keys.equal m key hash ≡ some e) × Found e
        unfolding find_in
        find_in-Found = elim (Bool-cases (m.len == 0)) [
          | inl z ↦ (
            none,
            rw z refl,
            absent none refl
                (lookup-no_live keys.equal m.entries key (ground (arith, v.len_counts))),
          )
          | inr z ↦
              (let (q, l, u) =
                  unused-somewhere m.entries
                    (omega (arith, v.has_room, v.len_counts, v.tombstones_counts)) in
                at_slot z (find_slot keys.equal key hash m.entries) refl
                  (find-Finds keys m.entries v.sound key hash has q l u))
        ]
          where
            at_slot :
                (m.len == 0) ≡ false
                → (o : Option ℕ) → find_slot keys.equal key hash m.entries ≡ o
                → Finds keys.equal key hash m.entries o
                → (e : Option ℕ) × (find_in keys.equal m key hash ≡ some e) × Found e
            at_slot z o e (hit i h k w p same t) = (some i, rw (z, e) refl, present i h k w p t)
            at_slot z o e (miss i dead r a) = (
              some i,
              rw (z, e) refl,
              absent (some i) (value_of-dead (slot_at m.entries i) dead)
                  (lookup-absent keys.equal m.entries key a),
            )

        pub lookup_entry-Found :
            (e : Option ℕ) × (lookup_entry keys m key ≡ some (answer e)) × Found e
        unfolding lookup_entry
        lookup_entry-Found =
            (let (e, p, f) = find_in-Found in (e, rw (has, lookup_entry) (rw p refl), f))

    pub lookup_entry-unhashable : keys.hash key ≡ none → lookup_entry keys m key ≡ some error
    unfolding lookup_entry
    lookup_entry-unhashable n = rw (n, lookup_entry) refl
