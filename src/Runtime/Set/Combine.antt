-- ===== src/Runtime/Set/Combine.antt =====
-- src/runtime/ms_set.c and src/runtime/ms_frozenset.c: the operations that make a set of two.

use mslang_c.Base.{
  ℕ, ◌+◌, ◌%◌, ◌^◌, ◌≤◌, ◌≡◌, ◌∙◌, ap, refl, Bool, true, false, not, ◌&&◌, ◌||◌, Option, some,
  if◌then◌else◌, ltb, arith,
}
use mslang_c.Runtime.Map.{Answer, answer}
use mslang_c.Runtime.Map.Found.{IsMap}
use mslang_c.Runtime.Set.{
  SetObj, insert_all, filter_into, from_new, and_then, agrees, answered, union, diff, sym_diff,
  intersect,
}
use mslang_c.Runtime.Set.Gather.{
  Gathered, insert_all-Gathered, filter_into-Gathered, from_new-Gathered,
}
use mslang_c.Runtime.Set.Member.{member}
use mslang_c.Runtime.Table.Insert.{Keys}

module _ {K : Type 0} (keys : Keys K) where
  -- The operation ends with a set of the elements that the test of two memberships gives.
  abbrev pub Combines :
      (Bool → Bool → Bool) → SetObj K → SetObj K → Option (Answer (SetObj K)) → Type 0
  Combines test a b result =
      (r : SetObj K) × (result ≡ some (answer r))
      × IsMap keys r
      × ((k : K) → member keys r k ≡ test (member keys a k) (member keys b k))

  combined :
      (test : Bool → Bool → Bool) (p : K → Bool) (a b : SetObj K) (result : Option (SetObj K))
      → ((r : SetObj K) × (result ≡ some r) × Gathered keys 0 p r)
      → ((k : K) → p k ≡ test (member keys a k) (member keys b k))
      → Combines test a b (answered result)
  combined test p a b result (r, f, g) e = (r, ap answered f, g.is_map, λ k. g.members k ∙ e k)

  or_members : (x y z : Bool) → z ≡ false → ((x && true) || ((y && true) || z)) ≡ (y || x)
  or_members true true z e = refl
  or_members true false z e = refl
  or_members false true z e = refl
  or_members false false z e = e

  xor_members :
      (x y z : Bool)
      → z ≡ false
      → ((x && not y) || ((y && not x) || z)) ≡ ((y && not x) || (x && not y))
  xor_members true true z e = e
  xor_members true false z e = refl
  xor_members false true z e = refl
  xor_members false false z e = e

  one_filter : (x y z : Bool) → z ≡ false → ((x && y) || z) ≡ (x && y)
  one_filter true true z e = refl
  one_filter true false z e = e
  one_filter false y z e = e

  module _ (a b : SetObj K) (ma : IsMap keys a) (mb : IsMap keys b)
      (few : a.len + b.len ≤ 2 ^ 27) where
    union-Combines : Combines (λ x y. x || y) a b (union keys a (some b))
    unfolding union
    union-Combines =
        combined (λ x y. x || y) (λ k. member keys a k || member keys b k) a b
          (from_new keys ((a.len + b.len) % 2 ^ 32)
            (λ r. and_then keys (insert_all keys a r) (insert_all keys b)))
          (from_new-Gathered keys ((a.len + b.len) % 2 ^ 32) (omega arith)
            (λ r. and_then keys (insert_all keys a r) (insert_all keys b))
            (λ k. member keys a k || member keys b k)
            (λ s ms room new.
              let (t, et, gt) =
                insert_all-Gathered keys b.len a s ma ms (room.0, omega (arith, room.1)) in
              let (u, eu, gu) =
                insert_all-Gathered keys 0 b t mb gt.is_map (gt.room.0, omega (arith, gt.room.1)) in
              (
                u,
                rw (et, and_then) eu,
                record {
                  is_map = gu.is_map;
                  room = gu.room;
                  members = λ k.
                      gu.members k
                      ∙ ap (λ (x : Bool). (member keys b k && true) || x) (gt.members k)
                      ∙ or_members (member keys b k) (member keys a k) (member keys s k) (new k);
                },
              )))
          (λ k. refl)

    sym_diff-Combines :
        Combines (λ x y. (x && not y) || (y && not x)) a b (sym_diff keys a (some b))
    unfolding sym_diff
    sym_diff-Combines =
        combined (λ x y. (x && not y) || (y && not x))
          (λ k.
            (member keys a k && not (member keys b k))
            || (member keys b k && not (member keys a k)))
          a b
          (from_new keys ((a.len + b.len) % 2 ^ 32)
            (λ r. and_then keys (filter_into keys a b false r) (filter_into keys b a false)))
          (from_new-Gathered keys ((a.len + b.len) % 2 ^ 32) (omega arith)
            (λ r. and_then keys (filter_into keys a b false r) (filter_into keys b a false))
            (λ k.
              (member keys a k && not (member keys b k))
              || (member keys b k && not (member keys a k)))
            (λ s ms room new.
              let (t, et, gt) =
                filter_into-Gathered keys b.len false a b s ma mb ms
                  (room.0, omega (arith, room.1)) in
              let (u, eu, gu) =
                filter_into-Gathered keys 0 false b a t mb ma gt.is_map
                  (gt.room.0, omega (arith, gt.room.1)) in
              (
                u,
                rw (et, and_then) eu,
                record {
                  is_map = gu.is_map;
                  room = gu.room;
                  members = λ k.
                      gu.members k
                      ∙ ap (λ (x : Bool). (member keys b k && not (member keys a k)) || x)
                          (gt.members k)
                      ∙ xor_members (member keys b k) (member keys a k) (member keys s k) (new k);
                },
              )))
          (λ k. refl)

    filtered :
        (n : ℕ) (want : Bool)
        → n ≤ 2 ^ 27
        → Combines
            (λ x y. x && agrees want y)
            a
            b
            (answered (from_new keys n (filter_into keys a b want)))
    filtered n want small =
        combined (λ x y. x && agrees want y) (λ k. member keys a k && agrees want (member keys b k))
          a b (from_new keys n (filter_into keys a b want))
          (from_new-Gathered keys n small (filter_into keys a b want)
            (λ k. member keys a k && agrees want (member keys b k))
            (λ s ms room new.
              let (u, eu, gu) =
                filter_into-Gathered keys 0 want a b s ma mb ms (room.0, omega (arith, room.1)) in
              (
                u,
                eu,
                record {
                  is_map = gu.is_map;
                  room = gu.room;
                  members = λ k.
                      gu.members k
                      ∙ one_filter (member keys a k) (agrees want (member keys b k))
                          (member keys s k) (new k);
                },
              )))
          (λ k. refl)

    -- For two sets with together at most 2^27 elements, `msSetUnion`, `msSetDiff`, `msSetSymDiff` and
    -- `msSetIntersect` end, each with a set: its elements are those of the first or the second set,
    -- of the first and not the second, of just one of them, and of both.
    pub combinations-members :
        Combines (λ x y. x || y) a b (union keys a (some b))
        × Combines (λ x y. x && not y) a b (diff keys a (some b))
        × Combines (λ x y. (x && not y) || (y && not x)) a b (sym_diff keys a (some b))
        × Combines (λ x y. x && y) a b (intersect keys a (some b))
    unfolding diff intersect
    combinations-members = (
      union-Combines,
      filtered a.len false (omega arith),
      sym_diff-Combines,
      filtered (if ltb a.len b.len then a.len else b.len) true (ground arith),
    )
