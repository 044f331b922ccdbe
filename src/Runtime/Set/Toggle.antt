-- ===== src/Runtime/Set/Toggle.antt =====
-- src/runtime/ms_set.c: single elements, and `msSetSymmetricDifferenceUpdate`.
use Prim.{Unit, tt}
use mslang_c.Base.{
  ℕ, suc, ◌≡◌, inl, inr, ◌∙◌, ap, refl, Bool, true, false, not, ◌&&◌, ◌||◌, Option, none, some,
  List, [], ◌∷◌, if◌then◌else◌, arith, Bool-cases, Option-cases,
}
use mslang_c.Runtime.Map.{Answer, answer, error, is_some}
use mslang_c.Runtime.Map.Change.{HasMap, HasRoom, set_item-lookup}
use mslang_c.Runtime.Map.Update.{MayPut, MayPut-tail}
use mslang_c.Runtime.Map.Remove.{maybe, removals-lookup, remove_entry-HasMap}
use mslang_c.Runtime.Map.Found.{IsMap}
use mslang_c.Runtime.Map.Read.{reads-lookup}
use mslang_c.Runtime.Set.{SetObj, Entry, add, has, remove, discard}
use mslang_c.Runtime.Set.InPlace.{toggle, toggle_all, symmetric_difference_update}
use mslang_c.Runtime.Set.Gather.{MayPut-IsMap}
use mslang_c.Runtime.Set.Member.{member, holds, holds-if}
use mslang_c.Runtime.Table.{unused, tombstone, live, is_live}
use mslang_c.Runtime.Table.Count.{count}
use mslang_c.Runtime.Table.Insert.{Keys}
use mslang_c.Runtime.Table.Join.{lookup-lacks, lookup-equal}
use mslang_c.Runtime.Table.Lookup.{lookup}

module _ {K : Type 0} (keys : Keys K) where
  -- The operation ends with a set that has the elements of the test, and the answer.
  abbrev pub Leaves :
      Option (SetObj K × Answer (Unit {0})) → Answer (Unit {0}) → (K → Bool) → Type 0
  Leaves result a test =
      (r : SetObj K) × (result ≡ some (r, a)) × IsMap keys r × ((k : K) → member keys r k ≡ test k)

  module _ (s : SetObj K) (m : IsMap keys s) (item : K) (hash : ℕ)
      (hashed : keys.hash item ≡ some hash) where
    removed-members :
        (r : SetObj K)
        → HasMap keys (λ k. if keys.equal item k then none else lookup keys.equal s.entries k) r
        → (k : K) → member keys r k ≡ member keys s k && not (keys.equal item k)
    removed-members r h k = elim (Bool-cases (keys.equal item k)) [
      | inl t ↦ ap is_some (h.maps k) ∙ rw t (and_false (member keys s k))
      | inr f ↦ ap is_some (h.maps k) ∙ rw f (and_true (member keys s k))
    ]
      where
        and_true : (b : Bool) → b ≡ (b && true)
        and_true true = refl
        and_true false = refl

        and_false : (b : Bool) → false ≡ (b && false)
        and_false true = refl
        and_false false = refl

    -- With an element that has a hash, `msSetHas` returns whether it is in the set. If there is room
    -- for one more, `msSetAdd` leaves a set of the elements there were and the new one. `msSetRemove`
    -- and `msSetDiscard` leave one of the elements there were without it; the first returns an error
    -- if the element is not in the set, the second never.
    pub add-remove-discard :
        HasRoom keys s 1
        → (has keys s item ≡ some (answer (member keys s item)))
          × Leaves (add keys s item) (answer tt) (λ k. keys.equal item k || member keys s k)
          × Leaves
              (remove keys s item)
              (if member keys s item then answer tt else error)
              (λ k. member keys s k && not (keys.equal item k))
          × Leaves
              (discard keys s item)
              (answer tt)
              (λ k. member keys s k && not (keys.equal item k))
    unfolding discard
    add-remove-discard room =
        let (a, ea, ha, _) = set_item-lookup keys tt s item m hash hashed 0 room tt in
        let (r, er, hr) = (removals-lookup keys tt s item m hash hashed tt).0 in
        let (d, ed, hd, _) =
          remove_entry-HasMap keys tt s item m hash hashed (λ u. answer tt) (answer tt) in
        (
          (reads-lookup keys tt s item m.valid hash hashed tt).2,
          (
            a,
            ea,
            ha.is_map,
            λ k.
                ap is_some (ha.maps k)
                ∙ holds-if keys (keys.equal item k) (lookup keys.equal s.entries k),
          ),
          (
            r,
            er ∙ ap (λ x. some (r, x)) (error_or (lookup keys.equal s.entries item)),
            hr.is_map,
            removed-members r hr,
          ),
          (
            d,
            ed ∙ ap (λ x. some (d, x)) (always (lookup keys.equal s.entries item)),
            hd.is_map,
            removed-members d hd,
          ),
        )
      where
        error_or :
            (o : Option (Unit {0}))
            → maybe error (λ u. answer (tt {0})) o ≡ (if is_some o then answer tt else error)
        error_or none = refl
        error_or (some u) = refl

        always :
            (o : Option (Unit {0})) → maybe (answer (tt {0})) (λ u. answer (tt {0})) o ≡ answer tt
        always none = refl
        always (some u) = refl

    toggle-member :
        (n : ℕ)
        → HasRoom keys s (suc n)
        → (r : SetObj K) × (toggle keys s item ≡ some (r, answer tt))
          × IsMap keys r
          × HasRoom keys r n
          × ((k : K)
              → member keys r k
                ≡ (if keys.equal item k then not (member keys s k) else member keys s k))
    unfolding toggle discard
    toggle-member n room =
        let found = (reads-lookup keys tt s item m.valid hash hashed tt).2 in
        elim (Option-cases (lookup keys.equal s.entries item)) [
          | inr (u, e) ↦
              (let (d, ed, hd, (same_cap, not_more)) =
                  remove_entry-HasMap keys tt s item m hash hashed (λ u. answer tt) (answer tt) in
                let there : has keys s item ≡ some (answer true) =
                  found ∙ ap (λ (o : Option (Unit {0})). some (answer (is_some o))) e in
                (
                  d,
                  rw (there, toggle)
                      (ed ∙ ap (λ o. some (d, maybe (answer (tt {0})) (λ u. answer (tt {0})) o)) e),
                  hd.is_map,
                  (omega (arith, room.0), omega (arith, room.1)),
                  λ k. elim (Bool-cases (keys.equal item k)) [
                    | inl t ↦
                        (let was : member keys s k ≡ true =
                            ap is_some
                              (lookup-equal keys.equal keys.equality s.entries item k t ∙ e) in
                          ap is_some (hd.maps k) ∙ rw (t, was) refl)
                    | inr f ↦ ap is_some (hd.maps k) ∙ rw f refl
                  ],
                ))
          | inl e ↦
              (let (a, ea, ha, more) = set_item-lookup keys tt s item m hash hashed n room tt in
                let missing : has keys s item ≡ some (answer false) =
                  found ∙ ap (λ (o : Option (Unit {0})). some (answer (is_some o))) e in
                (
                  a,
                  rw (missing, toggle) ea,
                  ha.is_map,
                  more,
                  λ k. elim (Bool-cases (keys.equal item k)) [
                    | inl t ↦
                        (let was : member keys s k ≡ false =
                            ap is_some
                              (lookup-equal keys.equal keys.equality s.entries item k t ∙ e) in
                          ap is_some (ha.maps k) ∙ rw (t, was) refl)
                    | inr f ↦ ap is_some (ha.maps k) ∙ rw f refl
                  ],
                ))
        ]

  abbrev toggled : List (Entry K) → SetObj K → K → Bool
  toggled es s k = if holds keys es k then not (member keys s k) else member keys s k

  toggle_all-members :
      (es : List (Entry K)) (s : SetObj K)
      → MayPut keys es
      → IsMap keys s
      → HasRoom keys s (count is_live es)
      → Leaves (toggle_all keys es s) (answer tt) (toggled es s)
  unfolding toggle_all lookup
  toggle_all-members [] s may m room = (s, refl, m, λ k. refl)
  toggle_all-members (unused ∷ es) s may m (small, few) =
      toggle_all-members es s (MayPut-tail keys unused es may) m (small, omega arith)
  toggle_all-members (tombstone ∷ es) s may m (small, few) =
      toggle_all-members es s (MayPut-tail keys tombstone es may) m (small, omega arith)
  toggle_all-members (live h k v ∷ es) s may m (small, few) =
      let (t, et, mt, room, ft) =
        toggle-member s m k h (may.hashed 0 h k v refl) (count is_live es) (small, omega arith) in
      let (r, er, mr, fr) =
        toggle_all-members es t (MayPut-tail keys (live h k v) es may) mt room in
      (
        r,
        rw (et, toggle_all) er,
        mr,
        λ a. elim (Bool-cases (keys.equal k a)) [
          | inl same ↦
              (let gone : holds keys es a ≡ false =
                  ap is_some (lookup-lacks keys.equal keys.equality h k v es may.unique a same) in
                fr a ∙ rw (gone, same) (ft a ∙ rw same refl))
          | inr other ↦
              (let kept : member keys t a ≡ member keys s a = ft a ∙ rw other refl in
                fr a ∙ rw (kept, other) refl)
        ],
      )

  -- `msSetSymmetricDifferenceUpdate` of a set with another, with room for the elements of the other,
  -- returns nil, and leaves a set of the elements that are in just one of the two.
  pub symmetric_difference_update-members :
      (s o : SetObj K)
      → IsMap keys s
      → IsMap keys o
      → HasRoom keys s o.len
      → Leaves
          (symmetric_difference_update keys s (some o))
          (answer tt)
          (λ k. if member keys o k then not (member keys s k) else member keys s k)
  symmetric_difference_update-members s o ms mo (small, few) =
      toggle_all-members o.entries s (MayPut-IsMap keys o mo) ms
        (small, omega (arith, mo.valid.len_counts))
