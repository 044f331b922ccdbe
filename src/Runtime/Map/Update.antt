-- ===== src/Runtime/Map/Update.antt =====
-- src/runtime/ms_map.c, `msMapUpdate`.

use mslang_c.Base.{ℕ, suc, ◌≡◌, ◌∙◌, ap, refl, some, List, [], ◌∷◌, arith}
use mslang_c.Runtime.Map.{answer, update_from, update}
use mslang_c.Runtime.Map.Change.{HasMap, HasRoom, set_item-lookup}
use mslang_c.Runtime.Map.Found.{IsMap}
use mslang_c.Runtime.Table.{Slot, unused, tombstone, live, Table, slot_at, is_live}
use mslang_c.Runtime.Table.Count.{count}
use mslang_c.Runtime.Table.Insert.{Keys}
use mslang_c.Runtime.Table.Join.{or_else, or_else-live}
use mslang_c.Runtime.Table.Lookup.{lookup, IsUnique}

module _ {ℓ} {K V : Type ℓ} (keys : Keys K) where
  -- Slots that may be put into a map.
  pub record MayPut (es : List (Slot K V)) : Type ℓ where
    pub unique : IsUnique keys.equal es
    pub hashed : (i h : ℕ) (k : K) (v : V) → slot_at es i ≡ live h k v → keys.hash k ≡ some h

  pub MayPut-tail : (s : Slot K V) (es : List (Slot K V)) → MayPut (s ∷ es) → MayPut es
  MayPut-tail s es m = record {
    unique = λ i j h g a b v w p q e. omega (arith, m.unique (suc i) (suc j) h g a b v w p q e);
    hashed = λ i. m.hashed (suc i);
  }

  update_from-HasMap :
      (nil : V) (es : List (Slot K V)) (m : Table K V)
      → IsMap keys m
      → MayPut es
      → HasRoom keys m (count is_live es)
      → (r : Table K V) × (update_from keys nil m es ≡ some (r, answer nil))
        × HasMap keys (λ k. or_else (lookup keys.equal es k) (lookup keys.equal m.entries k)) r
  unfolding update_from lookup
  update_from-HasMap nil [] m is_map may room =
      (m, refl, record { is_map = is_map; maps = λ k. refl })
  update_from-HasMap nil (unused ∷ es) m is_map may (small, few) =
      (let (r, e, h) =
          update_from-HasMap nil es m is_map (MayPut-tail unused es may) (small, omega arith) in
        (r, e, record { is_map = h.is_map; maps = h.maps }))
  update_from-HasMap nil (tombstone ∷ es) m is_map may (small, few) =
      (let (r, e, h) =
          update_from-HasMap nil es m is_map (MayPut-tail tombstone es may) (small, omega arith) in
        (r, e, record { is_map = h.is_map; maps = h.maps }))
  update_from-HasMap nil (live h k v ∷ es) m is_map may (small, few) =
      let (r, e, s, (small_r, few_r)) =
        set_item-lookup keys nil m k is_map h (may.hashed 0 h k v refl) (count is_live es)
          (small, omega arith) v in
      let (t, f, u) =
        update_from-HasMap nil es r s.is_map (MayPut-tail (live h k v) es may) (small_r, few_r) in
      (
        t,
        rw (e, update_from) f,
        record {
          is_map = u.is_map;
          maps = λ a.
              u.maps a
              ∙ ap (or_else (lookup keys.equal es a)) (s.maps a)
              ∙ or_else-live keys.equal keys.equality h k v es may.unique a
                  (lookup keys.equal m.entries a);
        },
      )

  -- `msMapUpdate` of a map with fewer than 2^29 slots, with another map, where the slots of the first
  -- that are not unused and the pairs of the second are together at most 2^27. It returns nil, and
  -- leaves a map in which each key has the value of the second map, if it has one there, and else
  -- what it had.
  pub update-lookup :
      (nil : V) (m other : Table K V)
      → IsMap keys m
      → IsMap keys other
      → HasRoom keys m other.len
      → (r : Table K V) × (update keys nil m (some other) ≡ some (r, answer nil))
        × HasMap keys
            (λ k. or_else (lookup keys.equal other.entries k) (lookup keys.equal m.entries k))
            r
  update-lookup nil m other is_map o (small, few) =
      update_from-HasMap nil other.entries m is_map
        (record { unique = o.valid.sound.unique; hashed = o.valid.sound.hashed })
        (small, omega (arith, o.valid.len_counts))
