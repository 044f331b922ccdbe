-- ===== src/Runtime/Set/Compare.antt =====
-- src/runtime/ms_set.c: the operations that compare two sets.
use Prim.{Unit}
use mslang_c.Base.{
  ℕ, suc, ◌≤◌, ◌≡◌, ◌↔◌, inl, inr, ◌∙◌, sym, ap, refl, Bool, true, false, not, ◌==◌, Option, none,
  some, List, [], ◌∷◌, if◌then◌else◌, ltb, arith, Bool-cases, true_not_false,
}
use mslang_c.Runtime.Map.{answer, is_some}
use mslang_c.Runtime.Map.Update.{MayPut, MayPut-tail}
use mslang_c.Runtime.Map.Found.{IsMap}
use mslang_c.Runtime.Set.{
  SetObj, Entry, agrees, answered, is_in, all_in, is_subset, is_proper_subset, set_eq, is_disjoint,
}
use mslang_c.Runtime.Set.Gather.{MayPut-IsMap}
use mslang_c.Runtime.Set.Member.{member, holds, member-equal, is_in-member}
use mslang_c.Runtime.Table.{unused, tombstone, live}
use mslang_c.Runtime.Table.Include.{IsReflexive, Includes, count-Includes, Includes-back}
use mslang_c.Runtime.Table.Insert.{Keys}
use mslang_c.Runtime.Table.Lookup.{lookup}

-- The code ends with the truth of the statement.
abbrev pub Decides : Option Bool → Type 0 → Type 0
Decides result P = (t : Bool) × (result ≡ some t) × (t ≡ true ↔ P)

is_some-elim : (o : Option (Unit {0})) → is_some o ≡ true → (v : Unit {0}) × (o ≡ some v)
is_some-elim none e = absurd (ground arith)
is_some-elim (some v) e = (v, refl)

iff_equal : (x y : Bool) → (x ≡ true → y ≡ true) → (y ≡ true → x ≡ true) → x ≡ y
iff_equal true y f g = sym (f refl)
iff_equal false true f g = g refl
iff_equal false false f g = refl

not_is_true : (x : Bool) → not x ≡ true → x ≡ false
not_is_true true e = sym e
not_is_true false e = refl

module _ {K : Type 0} (keys : Keys K) where
  -- Every element of the slots is in the other set, or is not, as wanted.
  abbrev AllIn : Bool → List (Entry K) → SetObj K → Type 0
  AllIn want es b = (k : K) → holds keys es k ≡ true → agrees want (member keys b k) ≡ true

  all_in-live :
      (want : Bool) (h : ℕ) (k : K) (v : Unit {0}) (es : List (Entry K)) (b : SetObj K) (t : Bool)
      → is_in keys b k h ≡ some t
      → all_in keys want (live h k v ∷ es) b
        ≡ (if agrees want t then all_in keys want es b else some false)
  unfolding all_in
  all_in-live want h k v es b t e = rw (e, all_in) refl

  all_in-Decides :
      (want : Bool) (es : List (Entry K)) (b : SetObj K)
      → MayPut keys es
      → IsReflexive keys.equal keys.equality es
      → IsMap keys b
      → Decides (all_in keys want es b) (AllIn want es b)
  unfolding all_in lookup
  all_in-Decides want [] b may own m =
      (true, refl, ((λ t k e. absurd (true_not_false (sym e))), λ f. refl))
  all_in-Decides want (unused ∷ es) b may own m =
      all_in-Decides want es b (MayPut-tail keys unused es may) (λ i. own (suc i)) m
  all_in-Decides want (tombstone ∷ es) b may own m =
      all_in-Decides want es b (MayPut-tail keys tombstone es may) (λ i. own (suc i)) m
  all_in-Decides want (live h k v ∷ es) b may own m =
      let (t, e, iff) =
        all_in-Decides want es b (MayPut-tail keys (live h k v) es may) (λ i. own (suc i)) m in
      let step =
        all_in-live want h k v es b (member keys b k)
          (is_in-member keys b m k h (may.hashed 0 h k v refl)) in
      let self = own 0 h k v refl in
      elim (Bool-cases (agrees want (member keys b k))) [
        | inl y ↦ (
          t,
          step ∙ rw y e,
          (
            (λ p a q. elim (Bool-cases (keys.equal k a)) [
              | inl s ↦ ap (agrees want) (sym (member-equal keys b k a s)) ∙ y
              | inr s ↦ iff.0 p a (rw s at q)
            ]),
            λ f. iff.1 (λ a q. f a (in_more k es a q)),
          ),
        )
        | inr n ↦ (
          false,
          step ∙ rw n refl,
          (
            (λ p. absurd (true_not_false (sym p))),
            λ f. absurd (true_not_false (sym (f k (rw self refl)) ∙ n)),
          ),
        )
      ]
    where
      in_more :
          (k : K) (es : List (Entry K)) (a : K)
          → holds keys es a ≡ true
          → is_some (if keys.equal k a then some v else lookup keys.equal es a) ≡ true
      in_more k es a q = elim (Bool-cases (keys.equal k a)) [ inl s ↦ rw s refl | inr s ↦ rw s q ]

  module _ (a b : SetObj K) (ma : IsMap keys a) (mb : IsMap keys b)
      (own : IsReflexive keys.equal keys.equality a.entries)
      (own_b : IsReflexive keys.equal keys.equality b.entries) where
    -- Every element of the first set is one of the second.
    abbrev pub IsSubset : Type 0
    IsSubset = (k : K) → member keys a k ≡ true → member keys b k ≡ true

    abbrev pub IsSuperset : Type 0
    IsSuperset = (k : K) → member keys b k ≡ true → member keys a k ≡ true

    pub subset-Includes : IsSubset → Includes keys.equal keys.equality a.entries b.entries
    subset-Includes f k v e = is_some-elim (lookup keys.equal b.entries k) (f k (ap is_some e))

    Includes-superset : Includes keys.equal keys.equality b.entries a.entries → IsSuperset
    Includes-superset f k e =
        let (v, p) = is_some-elim (lookup keys.equal b.entries k) e in ap is_some (f k v p).1

    pub subset-len : IsSubset → a.len ≤ b.len
    subset-len f = omega (
      arith,
      ma.valid.len_counts,
      mb.valid.len_counts,
      count-Includes keys.equal keys.equality a.entries b.entries ma.valid.sound.unique
          mb.valid.sound.unique own (subset-Includes f),
    )

    pub superset-len : IsSuperset → b.len ≤ a.len
    superset-len f = omega (
      arith,
      ma.valid.len_counts,
      mb.valid.len_counts,
      count-Includes keys.equal keys.equality b.entries a.entries mb.valid.sound.unique
          ma.valid.sound.unique own_b
          (λ k v e. is_some-elim (lookup keys.equal a.entries k) (f k (ap is_some e))),
    )

    subset-superset : IsSubset → b.len ≤ a.len → IsSuperset
    subset-superset f l = Includes-superset (
        Includes-back keys.equal keys.equality a.entries b.entries ma.valid.sound.unique
          mb.valid.sound.unique own (subset-Includes f)
          (omega (arith, ma.valid.len_counts, mb.valid.len_counts)))

    is_subset-Decides : Decides (is_subset keys a b) IsSubset
    unfolding is_subset
    is_subset-Decides =
        let (t, e, iff) = all_in-Decides true a.entries b (MayPut-IsMap keys a ma) own mb in
        elim (Bool-cases (ltb b.len a.len)) [
          | inl l ↦ (
            false,
            rw (l, is_subset) refl,
            ((λ p. absurd (true_not_false (sym p))), λ f. absurd (ground (arith, subset-len f))),
          )
          | inr l ↦ (t, rw (l, is_subset) e, iff)
        ]

    is_proper_subset-Decides : Decides (is_proper_subset keys a b) (IsSubset × ¬ IsSuperset)
    unfolding is_proper_subset
    is_proper_subset-Decides =
        let (t, e, iff) = is_subset-Decides in
        elim (Bool-cases (ltb a.len b.len)) [
          | inl l ↦ (
            t,
            rw (l, is_proper_subset) e,
            ((λ p. (iff.0 p, λ g. absurd (ground (arith, superset-len g)))), λ f. iff.1 f.0),
          )
          | inr l ↦ (
            false,
            rw (l, is_proper_subset) refl,
            (
              (λ p. absurd (true_not_false (sym p))),
              λ f. absurd (f.1 (subset-superset f.0 (ground arith))),
            ),
          )
        ]

    pub set_eq-Decides :
        Decides (set_eq keys a (some b)) ((k : K) → member keys a k ≡ member keys b k)
    unfolding set_eq
    set_eq-Decides =
        let (t, e, iff) = is_subset-Decides in
        elim (Bool-cases (a.len == b.len)) [
          | inl l ↦ (
            t,
            rw (l, set_eq) e,
            (
              (λ p k.
                  iff_equal (member keys a k) (member keys b k) (iff.0 p k)
                    (subset-superset (iff.0 p) (ground arith) k)),
              λ f. iff.1 (λ k p. sym (f k) ∙ p),
            ),
          )
          | inr l ↦ (
            false,
            rw (l, set_eq) refl,
            (
              (λ p. absurd (true_not_false (sym p))),
              λ f. absurd (
                  ground (arith, subset-len (λ k p. sym (f k) ∙ p), superset-len (λ k p. f k ∙ p))),
            ),
          )
        ]

    -- For two sets, the elements of each equal to themselves: `msSetIsSubset` ends, with whether every
    -- element of the first is one of the second; `msSetIsProperSubset`, with whether that is so and
    -- not every element of the second is one of the first; `setEq`, with whether they have the same
    -- elements; and `msSetIsDisjoint`, with whether no element of the first is one of the second.
    pub comparisons-members :
        Decides (is_subset keys a b) IsSubset
        × Decides (is_proper_subset keys a b) (IsSubset × ¬ IsSuperset)
        × Decides (set_eq keys a (some b)) ((k : K) → member keys a k ≡ member keys b k)
        × (t : Bool) × (is_disjoint keys a (some b) ≡ some (answer t))
        × (t ≡ true ↔ ((k : K) → member keys a k ≡ true → member keys b k ≡ false))
    unfolding is_disjoint
    comparisons-members =
        let (t, e, iff) = all_in-Decides false a.entries b (MayPut-IsMap keys a ma) own mb in
        (
          is_subset-Decides,
          is_proper_subset-Decides,
          set_eq-Decides,
          t,
          ap answered e,
          (
            (λ p k m. not_is_true (member keys b k) (iff.0 p k m)),
            λ f. iff.1 (λ k m. ap not (f k m)),
          ),
        )
