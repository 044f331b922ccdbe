-- ===== src/Runtime/Set/Gather.antt =====
-- src/runtime/ms_set.c and src/runtime/ms_frozenset.c: the loops that add elements to a set.
use Prim.{Unit, tt}
use mslang_c.Base.{
  ℕ, suc, ◌+◌, ◌^◌, ◌≤◌, ◌<◌, ◌≡◌, inl, inr, ◌∙◌, sym, ap, refl, Bool, true, false, ◌&&◌, ◌||◌,
  Option, some, List, [], ◌∷◌, length, arith, Bool-cases,
}
use mslang_c.Runtime.Map.{is_some}
use mslang_c.Runtime.Map.Update.{MayPut, MayPut-tail}
use mslang_c.Runtime.Map.Change.{HasRoom}
use mslang_c.Runtime.Map.Create.{new_map-HasMap}
use mslang_c.Runtime.Map.Found.{IsMap}
use mslang_c.Runtime.Set.{
  SetObj, Entry, add_where, insert_all, filter_into, from_new, agrees, agreed, is_in, add_hashed,
}
use mslang_c.Runtime.Set.Member.{member, holds, holds-if, member-equal, is_in-member}
use mslang_c.Runtime.Table.{unused, tombstone, live, is_live}
use mslang_c.Runtime.Table.Count.{count}
use mslang_c.Runtime.Table.Insert.{Keys}
use mslang_c.Runtime.Table.Lookup.{lookup}
use mslang_c.Runtime.Table.Store.{set_hashed-Stores}

module _ {K : Type 0} (keys : Keys K) where
  -- The set `r`, with room for `n` more, has the elements of the test.
  pub record Gathered (n : ℕ) (test : K → Bool) (r : SetObj K) : Type 0 where
    pub is_map : IsMap keys r
    pub room : HasRoom keys r n
    pub members : (k : K) → member keys r k ≡ test k

  -- A test that is the same for equal keys, and that the code computes.
  record Tests (test : K → ℕ → Option Bool) (p : K → Bool) : Type 0 where
    pub computed : (k : K) (h : ℕ) → keys.hash k ≡ some h → test k h ≡ some (p k)
    pub respects : (a b : K) → keys.equal a b ≡ true → p a ≡ p b

  add_hashed-Gathered :
      (n : ℕ) (s : SetObj K) (k : K) (h : ℕ)
      → IsMap keys s
      → HasRoom keys s (suc n)
      → keys.hash k ≡ some h
      → (r : SetObj K) × (add_hashed keys s k h ≡ some r)
        × Gathered n (λ a. keys.equal k a || member keys s a) r
  add_hashed-Gathered n s k h m (small, few) has =
      let (r, e, t) = set_hashed-Stores keys s m.valid small (omega arith) k h tt has in
      (
        r,
        e,
        record {
          is_map = record { valid = t.valid; capacity = t.capacity m.capacity };
          room = (t.small, omega (arith, t.grows));
          members = λ a.
              ap is_some (t.maps a)
              ∙ holds-if keys (keys.equal k a) (lookup keys.equal s.entries a);
        },
      )

  module _ (test : K → ℕ → Option Bool) (p : K → Bool) (tests : Tests test p) where
    abbrev passing : List (Entry K) → SetObj K → K → Bool
    passing es s k = (holds keys es k && p k) || member keys s k

    passing_live :
        (h : ℕ) (k : K) (v : Unit {0}) (es : List (Entry K)) (m : Bool) (a : K)
        → ((holds keys es a && p a) || ((p k && keys.equal k a) || m))
          ≡ ((holds keys (live h k v ∷ es) a && p a) || m)
    unfolding lookup
    passing_live h k v es m a = elim (Bool-cases (keys.equal k a)) [
      | inl e ↦ (let same = tests.respects k a e in rw (e, same) (absorb (holds keys es a) (p a) m))
      | inr e ↦ rw e (drop_false (holds keys es a) (p a) m (p k))
    ]
      where
        absorb : (x y m : Bool) → ((x && y) || ((y && true) || m)) ≡ (y || m)
        absorb true true m = refl
        absorb true false m = refl
        absorb false true m = refl
        absorb false false m = refl

        drop_false : (x y m z : Bool) → ((x && y) || ((z && false) || m)) ≡ ((x && y) || m)
        drop_false x y m true = refl
        drop_false x y m false = refl

    add_where-Gathered :
        (n : ℕ) (es : List (Entry K)) (s : SetObj K)
        → MayPut keys es
        → IsMap keys s
        → HasRoom keys s (count is_live es + n)
        → (r : SetObj K) × (add_where keys test es s ≡ some r) × Gathered n (passing es s) r
    unfolding add_where lookup
    add_where-Gathered n [] s may m (small, few) =
        (s, refl, record { is_map = m; room = (small, omega arith); members = λ k. refl })
    add_where-Gathered n (unused ∷ es) s may m (small, few) =
        (let (r, e, g) =
            add_where-Gathered n es s (MayPut-tail keys unused es may) m (small, omega arith) in
          (r, e, record { is_map = g.is_map; room = g.room; members = g.members }))
    add_where-Gathered n (tombstone ∷ es) s may m (small, few) =
        (let (r, e, g) =
            add_where-Gathered n es s (MayPut-tail keys tombstone es may) m (small, omega arith) in
          (r, e, record { is_map = g.is_map; room = g.room; members = g.members }))
    add_where-Gathered n (live h k v ∷ es) s may m (small, few) = elim (Bool-cases (p k)) [
      | inl t ↦
          (let (r, e, g) =
              add_hashed-Gathered (count is_live es + n) s k h m (small, omega arith)
                (may.hashed 0 h k v refl) in
            let (r', e', g') =
              add_where-Gathered n es r (MayPut-tail keys (live h k v) es may) g.is_map g.room in
            let tested = tests.computed k h (may.hashed 0 h k v refl) ∙ ap some t in
            (
              r',
              rw (tested, add_where) (rw e e'),
              record {
                is_map = g'.is_map;
                room = g'.room;
                members = λ a.
                    g'.members a
                    ∙ ap (λ (b : Bool). (holds keys es a && p a) || b) (g.members a)
                    ∙ ap
                        (λ (b : Bool).
                          (holds keys es a && p a) || ((b && keys.equal k a) || member keys s a))
                        (sym t)
                    ∙ passing_live h k v es (member keys s a) a;
              },
            ))
      | inr t ↦
          (let (r', e', g') =
              add_where-Gathered n es s (MayPut-tail keys (live h k v) es may) m
                (small, omega arith) in
            let tested = tests.computed k h (may.hashed 0 h k v refl) ∙ ap some t in
            (
              r',
              rw (tested, add_where) e',
              record {
                is_map = g'.is_map;
                room = g'.room;
                members = λ a.
                    g'.members a
                    ∙ ap
                        (λ (b : Bool).
                          (holds keys es a && p a) || ((b && keys.equal k a) || member keys s a))
                        (sym t)
                    ∙ passing_live h k v es (member keys s a) a;
              },
            ))
    ]

  pub MayPut-IsMap : (s : SetObj K) → IsMap keys s → MayPut keys s.entries
  MayPut-IsMap s m = record { unique = m.valid.sound.unique; hashed = m.valid.sound.hashed }

  pub insert_all-Gathered :
      (n : ℕ) (a s : SetObj K)
      → IsMap keys a
      → IsMap keys s
      → HasRoom keys s (a.len + n)
      → (r : SetObj K) × (insert_all keys a s ≡ some r)
        × Gathered n (λ k. (member keys a k && true) || member keys s k) r
  insert_all-Gathered n a s ma ms (small, few) =
      add_where-Gathered (λ k h. some true) (λ k. true)
        (record { computed = λ k h e. refl; respects = λ x y e. refl }) n a.entries s
        (MayPut-IsMap a ma) ms (small, omega (arith, ma.valid.len_counts))

  pub filter_into-Gathered :
      (n : ℕ) (want : Bool) (a b s : SetObj K)
      → IsMap keys a
      → IsMap keys b
      → IsMap keys s
      → HasRoom keys s (a.len + n)
      → (r : SetObj K) × (filter_into keys a b want s ≡ some r)
        × Gathered n (λ k. (member keys a k && agrees want (member keys b k)) || member keys s k) r
  filter_into-Gathered n want a b s ma mb ms (small, few) =
      add_where-Gathered (λ k h. agreed want (is_in keys b k h))
        (λ k. agrees want (member keys b k))
        (record {
          computed = λ k h e. ap (agreed want) (is_in-member keys b mb k h e);
          respects = λ x y e. ap (agrees want) (member-equal keys b x y e);
        })
        n a.entries s (MayPut-IsMap a ma) ms (small, omega (arith, ma.valid.len_counts))

  -- A new set for at most 2^27 elements has room for as many, and none yet.
  pub from_new-Gathered :
      (n : ℕ)
      → n ≤ 2 ^ 27
      → (f : SetObj K → Option (SetObj K)) (p : K → Bool)
      → ((s : SetObj K)
          → IsMap keys s
          → HasRoom keys s (2 ^ 27)
          → ((k : K) → member keys s k ≡ false)
          → (r : SetObj K) × (f s ≡ some r) × Gathered 0 p r)
      → (r : SetObj K) × (from_new keys n f ≡ some r) × Gathered 0 p r
  from_new-Gathered n few f p next =
      let (s, e, m, rounded, fresh) = new_map-HasMap {V = Unit {0}} keys n (omega arith) in
      let small : length s.entries < 2 ^ 29 = ground (arith, rounded.least) in
      let (r, g, h) = next s m.is_map (small, omega arith) (λ k. ap is_some (m.maps k)) in
      (r, rw (e, from_new) g, h)
