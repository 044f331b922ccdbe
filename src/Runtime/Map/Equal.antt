-- ===== src/Runtime/Map/Equal.antt =====
-- src/runtime/ms_map.c, `mapEq`.
use mslang_c.Base.{
  ℕ, suc, ◌≡◌, ◌↔◌, inl, inr, ◌∙◌, sym, ap, refl, Bool, true, false, ◌==◌, Option, none, some, List,
  [], ◌∷◌, if◌then◌else◌, arith, Bool-cases, Option-cases, some_injective, none_not_some,
  true_not_false,
}
use mslang_c.Runtime.Map.{held, find_in, all_equal, map_eq}
use mslang_c.Runtime.Map.Update.{MayPut, MayPut-tail}
use mslang_c.Runtime.Map.Found.{IsMap, find_in-Found, held-Found}
use mslang_c.Runtime.Table.{Slot, unused, tombstone, live, Table}
use mslang_c.Runtime.Table.Include.{IsReflexive, Includes, count-Includes, Includes-back}
use mslang_c.Runtime.Table.Insert.{Keys}
use mslang_c.Runtime.Table.Join.{lookup-equal, lookup-lacks}
use mslang_c.Runtime.Table.Lookup.{lookup}

module _ {ℓ} {K V : Type ℓ} (keys : Keys K) (same : V → V → Bool) where
  -- Every key of the slots has the same value in the map.
  abbrev pub Matches : List (Slot K V) → Table K V → Type ℓ
  Matches es b =
      (k : K) (v : V)
      → lookup keys.equal es k ≡ some v
      → (w : V) × (lookup keys.equal b.entries k ≡ some w) × (same w v ≡ true)

  module _ (h : ℕ) (k : K) (v : V) (es : List (Slot K V)) (b : Table K V) (e : Option ℕ)
      (found : find_in keys.equal b k h ≡ some e) where
    all_equal-missing : held b e ≡ none → all_equal keys same (live h k v ∷ es) b ≡ some false
    unfolding all_equal
    all_equal-missing n = rw (found, all_equal) (rw n refl)

    all_equal-there :
        (w : V)
        → held b e ≡ some w
        → all_equal keys same (live h k v ∷ es) b
          ≡ (if same w v then all_equal keys same es b else some false)
    unfolding all_equal
    all_equal-there w p = rw (found, all_equal) (rw p refl)

  all_equal-Matches :
      (es : List (Slot K V)) (b : Table K V)
      → MayPut keys es
      → IsReflexive keys.equal keys.equality es
      → IsMap keys b
      → (t : Bool) × (all_equal keys same es b ≡ some t) × (t ≡ true ↔ Matches es b)
  unfolding all_equal lookup
  all_equal-Matches [] b may own m =
      (true, refl, ((λ t k v e. absurd (none_not_some e)), λ f. refl))
  all_equal-Matches (unused ∷ es) b may own m =
      all_equal-Matches es b (MayPut-tail keys unused es may) (λ i. own (suc i)) m
  all_equal-Matches (tombstone ∷ es) b may own m =
      all_equal-Matches es b (MayPut-tail keys tombstone es may) (λ i. own (suc i)) m
  all_equal-Matches (live h k v ∷ es) b may own m =
      let (t, r, iff) =
        all_equal-Matches es b (MayPut-tail keys (live h k v) es may) (λ i. own (suc i)) m in
      let (e, found, f) = find_in-Found keys b k m.valid h (may.hashed 0 h k v refl) in
      let q = held-Found keys b k m.valid e f in
      let self = own 0 h k v refl in
      let less : Matches (live h k v ∷ es) b → Matches es b = λ g a x p.
        elim (Bool-cases (keys.equal k a)) [
          | inl s ↦ absurd (
              none_not_some
                (sym (lookup-lacks keys.equal keys.equality h k v es may.unique a s) ∙ p))
          | inr s ↦ g a x (rw s p)
        ] in
      elim (Option-cases (lookup keys.equal b.entries k)) [
        | inl n ↦ (
          false,
          all_equal-missing h k v es b e found (q ∙ n),
          (
            (λ p. absurd (true_not_false (sym p))),
            λ g. absurd (none_not_some (sym n ∙ (g k v (rw self refl)).1)),
          ),
        )
        | inr (w, there) ↦
            (let step = all_equal-there h k v es b e found w (q ∙ there) in
              elim (Bool-cases (same w v)) [
                | inl y ↦ (
                  t,
                  step ∙ rw y r,
                  (
                    (λ p a x z. elim (Bool-cases (keys.equal k a)) [
                      | inl s ↦
                          (let vx : v ≡ x = some_injective (rw s at z) in
                            (
                              w,
                              lookup-equal keys.equal keys.equality b.entries k a s ∙ there,
                              ap (same w) (sym vx) ∙ y,
                            ))
                      | inr s ↦ iff.0 p a x (rw s at z)
                    ]),
                    λ g. iff.1 (less g),
                  ),
                )
                | inr n ↦ (
                  false,
                  step ∙ rw n refl,
                  (
                    (λ p. absurd (true_not_false (sym p))),
                    λ g.
                        (let (w', z, y) = g k v (rw self refl) in
                          absurd (
                            true_not_false (
                              sym y
                              ∙ ap (λ (u : V). same u v) (some_injective (sym z ∙ there))
                              ∙ n))),
                  ),
                )
              ])
      ]

  module _ (a b : Table K V) (ma : IsMap keys a) (mb : IsMap keys b)
      (own_a : IsReflexive keys.equal keys.equality a.entries)
      (own_b : IsReflexive keys.equal keys.equality b.entries) where
    -- Every key with a value in the second map has one in the first.
    abbrev pub Covers : Type ℓ
    Covers = Includes keys.equal keys.equality b.entries a.entries

    Matches-Includes : Matches a.entries b → Includes keys.equal keys.equality a.entries b.entries
    Matches-Includes f k v e = (let (w, p, _) = f k v e in (w, p))

    -- `mapEq` on two maps, the keys of each equal to themselves, ends, with whether every key with a
    -- value in the first has an equal value in the second, and every key with a value in the second
    -- has one in the first.
    pub map_eq-Matches :
        (t : Bool) × (map_eq keys same a (some b) ≡ some t)
        × (t ≡ true ↔ (Matches a.entries b × Covers))
    unfolding map_eq
    map_eq-Matches =
        let (t, e, iff) =
          all_equal-Matches a.entries b
            (record { unique = ma.valid.sound.unique; hashed = ma.valid.sound.hashed }) own_a mb in
        elim (Bool-cases (a.len == b.len)) [
          | inl l ↦ (
            t,
            rw (l, map_eq) e,
            (
              (λ p. (
                iff.0 p,
                Includes-back keys.equal keys.equality a.entries b.entries ma.valid.sound.unique
                    mb.valid.sound.unique own_a (Matches-Includes (iff.0 p))
                    (ground (arith, ma.valid.len_counts, mb.valid.len_counts)),
              )),
              λ f. iff.1 f.0,
            ),
          )
          | inr l ↦ (
            false,
            rw (l, map_eq) refl,
            (
              (λ p. absurd (true_not_false (sym p))),
              λ f. absurd (
                  ground (
                    arith,
                    ma.valid.len_counts,
                    mb.valid.len_counts,
                    count-Includes keys.equal keys.equality a.entries b.entries
                        ma.valid.sound.unique mb.valid.sound.unique own_a (Matches-Includes f.0),
                    count-Includes keys.equal keys.equality b.entries a.entries
                        mb.valid.sound.unique ma.valid.sound.unique own_b f.1,
                  )),
            ),
          )
        ]
