-- ===== src/Runtime/Table/Valid.antt =====
-- src/runtime/ms_map.c, `mapSetHashed` behind the growth, and removal: the table's counts.
use mathlib.Core.Path.{subst}
use mslang_c.Base.{
  ℕ, ◌+◌, ◌-◌, ◌≤◌, ◌<◌, ◌≡◌, inl, inr, sym, ap, refl, Option, some, List, if◌then◌else◌, length,
  length-set, set, arith,
}
use mslang_c.Runtime.Table.{
  Slot, unused, tombstone, live, slot_at, is_live, is_tombstone, find_slot, Table, write_at,
  put_hashed,
}
use mslang_c.Runtime.Table.Count.{bit, count, count-set, unused-somewhere}
use mslang_c.Runtime.Table.Insert.{
  Keys, IsSound, find-Finds, hit-MayHold, miss-MayHold, IsSound-put, lookup-put,
}
use mslang_c.Runtime.Table.Lookup.{lookup}
use mslang_c.Runtime.Table.Probe.{Finds, hit, miss, Reaches, Slot-cases}
use mslang_c.Runtime.Table.Write.{MayHold}

module _ {ℓ} {K V : Type ℓ} (m : Table K V) (hash : ℕ) (key : K) (value : V) (i : ℕ) where
  write_at-unused :
      slot_at m.entries i ≡ unused
      → write_at m hash key value i ≡ record {
        entries = set m.entries i (live hash key value);
        len = m.len + 1;
        tombstones = m.tombstones;
      }
  unfolding write_at
  write_at-unused u = rw (u, write_at) refl

  write_at-tombstone :
      slot_at m.entries i ≡ tombstone
      → write_at m hash key value i ≡ record {
        entries = set m.entries i (live hash key value);
        len = m.len + 1;
        tombstones = m.tombstones - 1;
      }
  unfolding write_at
  write_at-tombstone u = rw (u, write_at) refl

  write_at-live :
      (g : ℕ) (k : K) (w : V)
      → slot_at m.entries i ≡ live g k w
      → write_at m hash key value i ≡ record {
        entries = set m.entries i (live hash key value);
        len = m.len;
        tombstones = m.tombstones;
      }
  unfolding write_at
  write_at-live g k w u = rw (u, write_at) refl

module _ {ℓ} {K V : Type ℓ} (keys : Keys K) where
  -- The slots are sound, the counts are right, and a slot is unused.
  pub record IsValid (m : Table K V) : Type ℓ where
    pub sound : IsSound keys m.entries
    pub len_counts : m.len ≡ count is_live m.entries
    pub tombstones_counts : m.tombstones ≡ count is_tombstone m.entries
    pub has_room : m.len + m.tombstones < length m.entries

  -- What a write of the key with the value makes of a table.
  pub record Puts (m : Table K V) (key : K) (value : V) (r : Table K V) : Type ℓ where
    pub valid : IsValid r
    pub same_cap : length r.entries ≡ length m.entries
    pub grows : r.len + r.tombstones ≤ m.len + m.tombstones + 1
    pub maps :
        (k : K)
        → lookup keys.equal r.entries k
          ≡ (if keys.equal key k then some value else lookup keys.equal m.entries k)

  module _ (m : Table K V) (v : IsValid m) (key : K) (hash : ℕ) (value : V)
      (has : keys.hash key ≡ some hash) (room : m.len + m.tombstones + 1 < length m.entries) where
    module _ (i : ℕ) (h : MayHold keys.equal keys.equality m.entries key i)
        (r : Reaches m.entries hash i) where
      abbrev put : List (Slot K V)
      put = set m.entries i (live hash key value)

      counted :
          (len tombs : ℕ)
          → len ≡ count is_live put
          → tombs ≡ count is_tombstone put
          → len + tombs ≤ m.len + m.tombstones + 1
          → Puts m key value (record { entries = put; len = len; tombstones = tombs })
      counted len tombs l t c = record {
        valid = record {
          sound = IsSound-put keys m.entries v.sound key hash has i value h r;
          len_counts = l;
          tombstones_counts = t;
          has_room = omega (arith, length-set m.entries i (live hash key value));
        };
        same_cap = length-set m.entries i (live hash key value);
        grows = c;
        maps = lookup-put keys m.entries v.sound key hash has i value h r;
      }

      write_at-Puts : Puts m key value (write_at m hash key value i)
      write_at-Puts =
          let lives = count-set is_live m.entries i (live hash key value) h.inside in
          let tombs = count-set is_tombstone m.entries i (live hash key value) h.inside in
          elim (Slot-cases (slot_at m.entries i)) [
            | inl u ↦
                (let eq = write_at-unused m hash key value i u in
                  let was_live = ap (λ (s : Slot K V). bit (is_live s)) u in
                  let was_tomb = ap (λ (s : Slot K V). bit (is_tombstone s)) u in
                  subst (Puts m key value) (sym eq) (
                    counted (m.len + 1) m.tombstones (omega (arith, v.len_counts))
                      (omega (arith, v.tombstones_counts)) (omega arith)))
            | inr (inl u) ↦
                (let eq = write_at-tombstone m hash key value i u in
                  let was_live = ap (λ (s : Slot K V). bit (is_live s)) u in
                  let was_tomb = ap (λ (s : Slot K V). bit (is_tombstone s)) u in
                  subst (Puts m key value) (sym eq) (
                    counted (m.len + 1) (m.tombstones - 1) (omega (arith, v.len_counts))
                      (omega (arith, v.tombstones_counts)) (omega arith)))
            | inr (inr (g, k, w, u)) ↦
                (let eq = write_at-live m hash key value i g k w u in
                  let was_live = ap (λ (s : Slot K V). bit (is_live s)) u in
                  let was_tomb = ap (λ (s : Slot K V). bit (is_tombstone s)) u in
                  subst (Puts m key value) (sym eq) (
                    counted m.len m.tombstones (omega (arith, v.len_counts))
                      (omega (arith, v.tombstones_counts)) (omega arith)))
          ]

    -- A key with a hash put into a table with room for it.
    pub put_hashed-Puts :
        (r : Table K V) × (put_hashed keys.equal hash key value m ≡ some r) × Puts m key value r
    unfolding put_hashed
    put_hashed-Puts =
        let (q, l, u) =
          unused-somewhere m.entries (omega (arith, v.len_counts, v.tombstones_counts)) in
        at_slot (find_slot keys.equal key hash m.entries) refl
          (find-Finds keys m.entries v.sound key hash has q l u)
      where
        at_slot :
            (o : Option ℕ)
            → find_slot keys.equal key hash m.entries ≡ o
            → Finds keys.equal key hash m.entries o
            → (r : Table K V) × (put_hashed keys.equal hash key value m ≡ some r)
              × Puts m key value r
        at_slot o e (hit i h k w p same t) = (
          write_at m hash key value i,
          rw (e, put_hashed) refl,
          write_at-Puts i (hit-MayHold keys m.entries v.sound key hash has i h k w p t)
              (subst (λ (n : ℕ). Reaches m.entries n i) same (v.sound.reached i h k w p)),
        )
        at_slot o e (miss i dead reach absent) = (
          write_at m hash key value i,
          rw (e, put_hashed) refl,
          write_at-Puts i (miss-MayHold keys m.entries v.sound key hash has i dead reach absent)
              reach,
        )
