-- ===== src/Runtime/Map/Remove.antt =====
-- src/runtime/ms_map.c, `msMapDel`, `msMapPop` and `msMapSetDefault`.
use mathlib.Core.Path.{subst}
use mslang_c.Base.{
  ℕ, ◌≤◌, ◌≡◌, inl, inr, ◌∙◌, sym, ap, refl, Bool, true, Option, none, some, if◌then◌else◌, length,
  length-set, arith, Bool-cases, Option-cases, none_not_some, true_not_false, not_true,
}
use mslang_c.Runtime.Map.{
  Answer, error, answer, held, value_or, value_of, lookup_entry, remove_entry, delete, pop,
  set_default,
}
use mslang_c.Runtime.Map.Change.{HasMap, HasRoom, stored-HasMap}
use mslang_c.Runtime.Map.Found.{IsMap, Found, present, absent, held-Found, lookup_entry-Found}
use mslang_c.Runtime.Table.{Slot, tombstone, live, Table, bury, slot_at, is_live, is_tombstone}
use mslang_c.Runtime.Table.Count.{bit, count-set}
use mslang_c.Runtime.Table.Insert.{Keys, IsSound-bury, lookup-removed}
use mslang_c.Runtime.Table.Join.{lookup-equal}
use mslang_c.Runtime.Table.Lookup.{lookup, lookup-live, slot-inside}
use mslang_c.Runtime.Table.Probe.{Slot-cases}
use mslang_c.Runtime.Table.Store.{IsCapacity, used_slots}

abbrev pub maybe {ℓ} : {A B : Type ℓ} → B → (A → B) → Option A → B
maybe b f none = b
maybe b f (some a) = f a

maybe-answer {ℓ} :
    {A : Type ℓ} (d : A) (o : Option A) → maybe (answer d) (λ v. answer v) o ≡ answer (value_or d o)
maybe-answer d none = refl
maybe-answer d (some v) = refl

module _ {ℓ} {K V : Type ℓ} (keys : Keys K) (m : Table K V) (f : V → Answer V)
    (missing : Answer V) where
  removed-live :
      (i h : ℕ) (k : K) (w : V)
      → slot_at m.entries i ≡ live h k w
      → remove_entry keys m f missing (some (answer (some i))) ≡ some (bury m i, f w)
  removed-live i h k w p = rw (p, remove_entry) refl

  removed-dead :
      (e : Option ℕ)
      → held m e ≡ none
      → remove_entry keys m f missing (some (answer e)) ≡ some (m, missing)
  removed-dead none n = refl
  removed-dead (some i) n = elim (Slot-cases (slot_at m.entries i)) [
    | inl u ↦ rw (u, remove_entry) refl
    | inr (inl u) ↦ rw (u, remove_entry) refl
    | inr (inr (h, k, w, u)) ↦ absurd (none_not_some (sym n ∙ ap value_of u))
  ]

module _ {ℓ} {K V : Type ℓ} (keys : Keys K) where
  -- An occupied slot that becomes a tombstone.
  pub bury-removes :
      (m : Table K V)
      → IsMap keys m
      → (i h : ℕ) (k : K) (w : V) → slot_at m.entries i ≡ live h k w
      → HasMap keys (λ a. if keys.equal k a then none else lookup keys.equal m.entries a) (bury m i)
  unfolding bury
  bury-removes m is_map i h k w p =
      let inside = slot-inside keys.equal m.entries i h k w p in
      let lives = count-set is_live m.entries i tombstone inside in
      let tombs = count-set is_tombstone m.entries i tombstone inside in
      let was_live = ap (λ (s : Slot K V). bit (is_live s)) p in
      let was_tomb = ap (λ (s : Slot K V). bit (is_tombstone s)) p in
      let v = is_map.valid in
      record {
        is_map = record {
          valid = record {
            sound = IsSound-bury keys m.entries v.sound i h k w p;
            len_counts = omega (arith, v.len_counts);
            tombstones_counts = omega (arith, v.tombstones_counts);
            has_room = omega (arith, v.len_counts, v.has_room, length-set m.entries i tombstone);
          };
          capacity = subst IsCapacity (sym (length-set m.entries i tombstone)) is_map.capacity;
        };
        maps = lookup-removed keys m.entries v.sound i h k w p;
      }

  module _ (nil : V) (m : Table K V) (key : K) where
    abbrev pub with_key : Option V → K → Option V
    with_key o k = if keys.equal key k then o else lookup keys.equal m.entries k

    module _ (is_map : IsMap keys m) (hash : ℕ) (has : keys.hash key ≡ some hash) where
      bury-HasMap :
          (i h : ℕ) (k : K) (w : V)
          → slot_at m.entries i ≡ live h k w
          → keys.equal k key ≡ true
          → HasMap keys (with_key none) (bury m i)
      bury-HasMap i h k w p t =
          let r = bury-removes m is_map i h k w p in
          record {
            is_map = r.is_map;
            maps = λ a.
                r.maps a
                ∙ ap (λ (b : Bool). if b then none else lookup keys.equal m.entries a)
                    (same_test k t a);
          }
        where
          same_test :
              (k : K) → keys.equal k key ≡ true → (a : K) → keys.equal k a ≡ keys.equal key a
          same_test k t a = elim (Bool-cases (keys.equal key a)) [
            | inl e ↦ keys.equality.equal_trans k key a t e ∙ sym e
            | inr e ↦
                not_true (λ u.
                  true_not_false (
                    sym (keys.equality.equal_trans key k a (keys.equality.equal_sym k key t) u)
                    ∙ e))
                ∙ sym e
          ]

      -- A map without the key is one in which it has no value.
      unchanged : (o : Option V) → lookup keys.equal m.entries key ≡ o → HasMap keys (with_key o) m
      unchanged o n = record {
        is_map = is_map;
        maps = λ a. elim (Bool-cases (keys.equal key a)) [
          | inl e ↦ rw e (lookup-equal keys.equal keys.equality m.entries key a e ∙ n)
          | inr e ↦ rw e refl
        ];
      }

      abbrev pub Kept : Table K V → Type 0
      Kept r = (length r.entries ≡ length m.entries) × (used_slots r ≤ used_slots m)

      bury-Kept :
          (i h : ℕ) (k : K) (w : V)
          → slot_at m.entries i ≡ live h k w
          → keys.equal k key ≡ true
          → Kept (bury m i)
      unfolding bury
      bury-Kept i h k w p t =
          let inside = slot-inside keys.equal m.entries i h k w p in
          let lives = count-set is_live m.entries i tombstone inside in
          let was_live = ap (λ (s : Slot K V). bit (is_live s)) p in
          (length-set m.entries i tombstone, omega (arith, is_map.valid.len_counts))

      pub remove_entry-HasMap :
          (f : V → Answer V) (missing : Answer V)
          → (r : Table K V) × (remove_entry keys m f missing (lookup_entry keys m key)
              ≡ some (r, maybe missing f (lookup keys.equal m.entries key)))
            × HasMap keys (with_key none) r
            × Kept r
      remove_entry-HasMap f missing =
          let (e, p, found) = lookup_entry-Found keys m key is_map.valid hash has in
          at_entry e found p
        where
          at_entry :
              (e : Option ℕ)
              → Found keys m key e
              → lookup_entry keys m key ≡ some (answer e)
              → (r : Table K V) × (remove_entry keys m f missing (lookup_entry keys m key)
                  ≡ some (r, maybe missing f (lookup keys.equal m.entries key)))
                × HasMap keys (with_key none) r
                × Kept r
          at_entry e (present i h k w p t) q =
              let l =
                lookup-live keys.equal keys.equality m.entries key i h k w is_map.valid.sound.unique
                  p t in
              (
                bury m i,
                rw (q, l) (removed-live keys m f missing i h k w p),
                bury-HasMap i h k w p t,
                bury-Kept i h k w p t,
              )
          at_entry e (absent o n l) q = (
            m,
            rw (q, l) (removed-dead keys m f missing o n),
            unchanged none l,
            (refl, omega arith),
          )

      -- The key is removed, from a map and with a key that has a hash. `msMapDel` returns nil, or an
      -- error if the key has no value, and `msMapPop` the value, or the default. Either leaves a map
      -- in which the key has no value and every other key what it had.
      pub removals-lookup :
          (default : V)
          → ((r : Table K V) × (delete keys nil m key
                ≡ some (r, maybe error (λ v. answer nil) (lookup keys.equal m.entries key)))
              × HasMap keys (with_key none) r)
            × ((r : Table K V) × (pop keys m key default
                  ≡ some (r, answer (value_or default (lookup keys.equal m.entries key))))
                × HasMap keys (with_key none) r)
      unfolding delete pop
      removals-lookup default =
          let (r', e', h', _) = remove_entry-HasMap (λ v. answer nil) error in
          let (r, e, h, _) = remove_entry-HasMap (λ v. answer v) (answer default) in
          (
            (r', e', h'),
            (
              r,
              e ∙ ap (λ a. some (r, a)) (maybe-answer default (lookup keys.equal m.entries key)),
              h,
            ),
          )

      -- `msMapSetDefault` on a map with room for one more key, and a key that has a hash. It returns
      -- the key's value, or the default if there is none, and leaves a map in which the key has the
      -- value returned, and every other key what it had.
      pub set_default-lookup :
          HasRoom keys m 1
          → (value : V)
          → (r : Table K V) × (set_default keys m key value
              ≡ some (r, answer (value_or value (lookup keys.equal m.entries key))))
            × HasMap keys (with_key (some (value_or value (lookup keys.equal m.entries key)))) r
      unfolding set_default
      set_default-lookup room value =
          let (e, p, found) = lookup_entry-Found keys m key is_map.valid hash has in
          let q = held-Found keys m key is_map.valid e found in
          elim (Option-cases (lookup keys.equal m.entries key)) [
            | inl n ↦
                (let (r, s, h, _) =
                    stored-HasMap keys nil m key is_map hash has 0 room value value in
                  let before : held m e ≡ none = q ∙ n in
                  (r, rw (has, p, before, n, set_default) s, rw n h))
            | inr (v, n) ↦
                (let before : held m e ≡ some v = q ∙ n in
                  (m, rw (has, p, before, n, set_default) refl, rw n (unchanged (some v) n)))
          ]
