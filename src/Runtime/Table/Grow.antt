-- ===== src/Runtime/Table/Grow.antt =====
-- src/runtime/ms_map.c, `msMapResize` and the growth in `mapSetHashed`.

use mslang_c.Base.{
  ℕ, zero, suc, ◌+◌, ◌<◌, ◌≡◌, ◌≢◌, inl, inr, ◌∙◌, sym, ap, refl, false, Option, none, some, List,
  [], ◌∷◌, if◌then◌else◌, length, length-set, set, arith, Bool-cases, none_not_some,
}
use mslang_c.Runtime.Table.{
  Slot, unused, tombstone, live, slot_at, is_live, is_tombstone, find_slot, Table, rehash, resize,
}
use mslang_c.Runtime.Table.Count.{
  bit, count, count-set, unused-somewhere, zeros, length-zeroed_entries, slot_at-zeroed_entries,
  count-zeroed_entries,
}
use mslang_c.Runtime.Table.Insert.{Keys, IsSound, find-Finds, miss-MayHold, IsSound-put, lookup-put}
use mslang_c.Runtime.Table.Join.{or_else, or_else-live, or_else-none}
use mslang_c.Runtime.Table.Lookup.{lookup, lookup-live, IsUnique, live_not_unused}
use mslang_c.Runtime.Table.Probe.{Finds, hit, miss, Reaches}
use mslang_c.Runtime.Table.Valid.{IsValid}
use mslang_c.Runtime.Table.Write.{MayHold}

module _ {ℓ} {K V : Type ℓ} (keys : Keys K) where
  -- The old slots' keys, put among the slots `es`.
  record Rehashed (old es fs : List (Slot K V)) : Type ℓ where
    pub sound : IsSound keys fs
    pub same_cap : length fs ≡ length es
    pub no_tombstone : count is_tombstone fs ≡ 0
    pub lives : count is_live fs ≡ count is_live old + count is_live es
    pub maps :
        (k : K)
        → lookup keys.equal fs k ≡ or_else (lookup keys.equal old k) (lookup keys.equal es k)

  -- What the old slots may be, and the new ones.
  record MayRehash (old es : List (Slot K V)) : Type ℓ where
    pub unique : IsUnique keys.equal old
    pub hashed : (i h : ℕ) (k : K) (v : V) → slot_at old i ≡ live h k v → keys.hash k ≡ some h
    pub sound : IsSound keys es
    pub no_tombstone : count is_tombstone es ≡ 0
    pub has_room : count is_live old + count is_live es < length es
    pub new : (i h : ℕ) (k : K) (v : V) → slot_at old i ≡ live h k v → lookup keys.equal es k ≡ none

  MayRehash-tail :
      (s : Slot K V) (old es : List (Slot K V)) → MayRehash (s ∷ old) es → MayRehash old es
  MayRehash-tail s old es m = record {
    unique = λ i j h g a b v w p q e. omega (arith, m.unique (suc i) (suc j) h g a b v w p q e);
    hashed = λ i. m.hashed (suc i);
    sound = m.sound;
    no_tombstone = m.no_tombstone;
    has_room = omega (arith, m.has_room);
    new = λ i. m.new (suc i);
  }

  module _ (h : ℕ) (k : K) (v : V) (old es : List (Slot K V))
      (m : MayRehash (live h k v ∷ old) es) where
    module _ (i : ℕ) (dead : is_live (slot_at es i) ≡ false) (r : Reaches es h i)
        (absent : (j g : ℕ) (a : K) (w : V)
          → slot_at es j ≡ live g a w
          → keys.equal a k ≡ false) where
      abbrev put : List (Slot K V)
      put = set es i (live h k v)

      may : MayHold keys.equal keys.equality es k i
      may = miss-MayHold keys es m.sound k h (m.hashed 0 h k v refl) i dead r absent

      maps_put :
          (a : K)
          → lookup keys.equal put a ≡ (if keys.equal k a then some v else lookup keys.equal es a)
      maps_put = lookup-put keys es m.sound k h (m.hashed 0 h k v refl) i v may r

      lives_put : count is_live put ≡ count is_live es + 1
      lives_put = omega (arith, count-set is_live es i (live h k v) may.inside, ap bit dead)

      tombstones_put : count is_tombstone put ≡ 0
      tombstones_put =
          omega (arith, count-set is_tombstone es i (live h k v) may.inside, m.no_tombstone)

      MayRehash-put : MayRehash old put
      MayRehash-put =
          let t = MayRehash-tail (live h k v) old es m in
          record {
            unique = t.unique;
            hashed = t.hashed;
            sound = IsSound-put keys es m.sound k h (m.hashed 0 h k v refl) i v may r;
            no_tombstone = tombstones_put;
            has_room = omega (arith, lives_put, m.has_room, length-set es i (live h k v));
            new = λ j g a w p. elim (Bool-cases (keys.equal k a)) [
              | inl e ↦ absurd (omega (arith, m.unique 0 (suc j) h g k a v w refl p e))
              | inr e ↦ maps_put a ∙ rw e (t.new j g a w p)
            ];
          }

      Rehashed-put :
          (fs : List (Slot K V)) → Rehashed old put fs → Rehashed (live h k v ∷ old) es fs
      unfolding lookup
      Rehashed-put fs r' = record {
        sound = r'.sound;
        same_cap = r'.same_cap ∙ length-set es i (live h k v);
        no_tombstone = r'.no_tombstone;
        lives = omega (arith, r'.lives, lives_put);
        maps = λ a.
            r'.maps a
            ∙ ap (or_else (lookup keys.equal old a)) (maps_put a)
            ∙ or_else-live keys.equal keys.equality h k v old m.unique a (lookup keys.equal es a);
      }

  rehash-Rehashed :
      (old es : List (Slot K V))
      → MayRehash old es
      → (fs : List (Slot K V)) × (rehash keys.equal old es ≡ some fs) × Rehashed old es fs
  unfolding rehash lookup
  rehash-Rehashed [] es m = (
    es,
    refl,
    record {
      sound = m.sound;
      same_cap = refl;
      no_tombstone = m.no_tombstone;
      lives = omega arith;
      maps = λ k. refl;
    },
  )
  rehash-Rehashed (unused ∷ old) es m =
      (let (fs, e, r) = rehash-Rehashed old es (MayRehash-tail unused old es m) in
        (
          fs,
          e,
          record {
            sound = r.sound;
            same_cap = r.same_cap;
            no_tombstone = r.no_tombstone;
            lives = omega (arith, r.lives);
            maps = r.maps;
          },
        ))
  rehash-Rehashed (tombstone ∷ old) es m =
      (let (fs, e, r) = rehash-Rehashed old es (MayRehash-tail tombstone old es m) in
        (
          fs,
          e,
          record {
            sound = r.sound;
            same_cap = r.same_cap;
            no_tombstone = r.no_tombstone;
            lives = omega (arith, r.lives);
            maps = r.maps;
          },
        ))
  rehash-Rehashed (live h k v ∷ old) es m =
      let (q, l, u) = unused-somewhere es (omega (arith, m.has_room, m.no_tombstone)) in
      at_slot (λ next. rehash-Rehashed old next) (find_slot keys.equal k h es) refl
        (find-Finds keys es m.sound k h (m.hashed 0 h k v refl) q l u)
    where
      at_slot :
          ((next : List (Slot K V))
            → MayRehash old next
            → (fs : List (Slot K V)) × (rehash keys.equal old next ≡ some fs)
              × Rehashed old next fs)
          → (o : Option ℕ) → find_slot keys.equal k h es ≡ o
          → Finds keys.equal k h es o
          → (fs : List (Slot K V)) × (rehash keys.equal (live h k v ∷ old) es ≡ some fs)
            × Rehashed (live h k v ∷ old) es fs
      at_slot again o e (hit i g a w p same t) = absurd (
          none_not_some (
            sym (m.new 0 h k v refl)
            ∙ lookup-live keys.equal keys.equality es k i g a w m.sound.unique p t))
      at_slot again o e (miss i dead reach absent) =
          let (fs, f, r) =
            again (set es i (live h k v)) (MayRehash-put h k v old es m i dead reach absent) in
          (fs, rw (e, rehash) f, Rehashed-put h k v old es m i dead reach absent fs r)

  pub lookup-zeroed_entries : (n : ℕ) (k : K) → lookup keys.equal (zeros K V n) k ≡ none
  unfolding lookup
  lookup-zeroed_entries zero k = refl
  lookup-zeroed_entries (suc n) k = lookup-zeroed_entries n k

  pub IsSound-zeroed_entries : (n : ℕ) → IsSound keys (zeros K V n)
  IsSound-zeroed_entries n = record {
    unique = λ i j h g a b v w p q e. absurd (is_unused i h a v p);
    reached = λ i h k v p. absurd (is_unused i h k v p);
    hashed = λ i h k v p. absurd (is_unused i h k v p);
  }
    where
      is_unused : (i h : ℕ) (k : K) (v : V) → slot_at (zeros K V n) i ≢ live h k v
      is_unused i h k v p = live_not_unused h k v (sym (slot_at-zeroed_entries K V n i) ∙ p)

  -- A table that holds the same, in as many slots as told, of which none is a tombstone.
  pub record Resized (m : Table K V) (new_cap : ℕ) (r : Table K V) : Type ℓ where
    pub valid : IsValid keys r
    pub cap : length r.entries ≡ new_cap
    pub same_len : r.len ≡ m.len
    pub no_tombstone : r.tombstones ≡ 0
    pub maps : (k : K) → lookup keys.equal r.entries k ≡ lookup keys.equal m.entries k

  -- A valid table moved into slots that are more than its pairs.
  pub resize-Resized :
      (m : Table K V)
      → IsValid keys m
      → (new_cap : ℕ) → m.len < new_cap
      → (r : Table K V) × (resize keys.equal m new_cap ≡ some r) × Resized m new_cap r
  unfolding resize
  resize-Resized m v new_cap l =
      let (none_live, none_dead) = count-zeroed_entries K V new_cap in
      let (fs, e, r) = rehash-Rehashed m.entries (zeros K V new_cap) (record {
        unique = v.sound.unique;
        hashed = v.sound.hashed;
        sound = IsSound-zeroed_entries new_cap;
        no_tombstone = none_dead;
        has_room = omega (arith, none_live, v.len_counts, length-zeroed_entries K V new_cap);
        new = λ i h k w p. lookup-zeroed_entries new_cap k;
      }) in
      (
        record { entries = fs; len = m.len; tombstones = 0 },
        rw (e, resize) refl,
        record {
          valid = record {
            sound = r.sound;
            len_counts = omega (arith, r.lives, none_live, v.len_counts);
            tombstones_counts = sym r.no_tombstone;
            has_room = omega (arith, r.same_cap, length-zeroed_entries K V new_cap);
          };
          cap = r.same_cap ∙ length-zeroed_entries K V new_cap;
          same_len = refl;
          no_tombstone = refl;
          maps = λ k.
              r.maps k
              ∙ ap (or_else (lookup keys.equal m.entries k)) (lookup-zeroed_entries new_cap k)
              ∙ or_else-none (lookup keys.equal m.entries k);
        },
      )
