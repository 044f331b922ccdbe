-- ===== src/Runtime/Frozenset/Hash.antt =====
-- src/runtime/ms_frozenset.c, `frozensetHash`.
use Prim.{Unit}
use Prim.Native.Nat.{bit_xor}
use mslang_c.Base.{
  ℕ, zero, suc, ◌*◌, ◌%◌, ◌^◌, ◌≤◌, ◌≡◌, ◌↔◌, inl, inr, ◌∙◌, sym, ap, refl, Bool, true, ◌==◌, some,
  List, [], ◌∷◌, if◌then◌else◌, set, arith, some_injective,
}
use mslang_c.Base.Bits.{bit_xor_left_comm, bit_xor_assoc, bit_xor-zero}
use mslang_c.Runtime.Frozenset.{hash_from, frozenset_hash, frozenset_eq}
use mslang_c.Runtime.Map.Update.{MayPut, MayPut-tail}
use mslang_c.Runtime.Map.Found.{IsMap}
use mslang_c.Runtime.Set.{SetObj, Entry, set_eq}
use mslang_c.Runtime.Set.Compare.{set_eq-Decides, subset-Includes, superset-len}
use mslang_c.Runtime.Set.Gather.{MayPut-IsMap}
use mslang_c.Runtime.Set.Member.{member}
use mslang_c.Runtime.Table.{unused, tombstone, live, slot_at, is_live}
use mslang_c.Runtime.Table.Count.{count}
use mslang_c.Runtime.Table.Include.{
  IsReflexive, Includes, Includes-without, without, without-IsUnique, count-without,
}
use mslang_c.Runtime.Table.Insert.{Keys}
use mslang_c.Runtime.Table.Lookup.{
  lookup, lookup-Holds, Holds, live_not_unused, live_not_tombstone, live_hash, slot_at-set,
  slot-inside,
}

abbrev spread : ℕ → ℕ
spread g = g * 0x9e3779b9 % 2 ^ 32

module _ {K : Type 0} where
  -- The hashes, taken together from the last slot on.
  abbrev mixed : List (Entry K) → ℕ
  mixed [] = 0
  mixed (unused ∷ es) = mixed es
  mixed (tombstone ∷ es) = mixed es
  mixed (live g k v ∷ es) = bit_xor (spread g) (mixed es)

  hash_from-mixed : (h : ℕ) (es : List (Entry K)) → hash_from h es ≡ bit_xor h (mixed es)
  unfolding hash_from
  hash_from-mixed h [] = sym (bit_xor-zero h)
  hash_from-mixed h (unused ∷ es) = hash_from-mixed h es
  hash_from-mixed h (tombstone ∷ es) = hash_from-mixed h es
  hash_from-mixed h (live g k v ∷ es) =
      hash_from-mixed (bit_xor h (spread g)) es ∙ bit_xor_assoc h (spread g) (mixed es)

  mixed-bury :
      (es : List (Entry K)) (i g : ℕ) (k : K) (v : Unit {0})
      → slot_at es i ≡ live g k v
      → mixed es ≡ bit_xor (spread g) (mixed (set es i tombstone))
  mixed-bury [] i g k v e = absurd (live_not_unused g k v e)
  mixed-bury (unused ∷ es) zero g k v e = absurd (live_not_unused g k v e)
  mixed-bury (tombstone ∷ es) zero g k v e = absurd (live_not_tombstone g k v e)
  mixed-bury (live h a w ∷ es) zero g k v e =
      ap (λ (n : ℕ). bit_xor (spread n) (mixed es)) (live_hash h g a k w v e)
  mixed-bury (unused ∷ es) (suc i) g k v e = mixed-bury es i g k v e
  mixed-bury (tombstone ∷ es) (suc i) g k v e = mixed-bury es i g k v e
  mixed-bury (live h a w ∷ es) (suc i) g k v e =
      ap (bit_xor (spread h)) (mixed-bury es i g k v e)
      ∙ bit_xor_left_comm (spread h) (spread g) (mixed (set es i tombstone))

  mixed-no_live : (es : List (Entry K)) → count is_live es ≡ 0 → mixed es ≡ 0
  mixed-no_live [] e = refl
  mixed-no_live (unused ∷ es) e = mixed-no_live es (omega arith)
  mixed-no_live (tombstone ∷ es) e = mixed-no_live es (omega arith)
  mixed-no_live (live h k v ∷ es) e = absurd (omega arith)

module _ {K : Type 0} (keys : Keys K) where
  MayPut-without :
      (fs : List (Entry K)) (m : MayPut keys fs) (k : K) (w : Unit {0})
      (o : Holds keys.equal fs k w)
      → MayPut keys (without keys.equal keys.equality fs k w m.unique o)
  MayPut-without fs m k w o = record {
    unique = without-IsUnique keys.equal keys.equality fs k w m.unique o;
    hashed = λ j h a v p.
        elim (slot_at-set keys.equal fs o.index j tombstone
          (slot-inside keys.equal fs o.index o.hash o.held w o.at)) [
            | inl (ji, q) ↦ absurd (live_not_tombstone h a v (sym q ∙ p))
            | inr (ji, q) ↦ m.hashed j h a v (sym q ∙ p)
          ];
  }

  mixed-Includes :
      (es fs : List (Entry K))
      → MayPut keys es
      → MayPut keys fs
      → IsReflexive keys.equal keys.equality es
      → Includes keys.equal keys.equality es fs
      → count is_live fs ≤ count is_live es
      → mixed es ≡ mixed fs
  unfolding lookup
  mixed-Includes [] fs me mf own inc less = sym (mixed-no_live fs (omega arith))
  mixed-Includes (unused ∷ es) fs me mf own inc less =
      mixed-Includes es fs (MayPut-tail keys unused es me) mf (λ i. own (suc i)) inc (omega arith)
  mixed-Includes (tombstone ∷ es) fs me mf own inc less =
      mixed-Includes es fs (MayPut-tail keys tombstone es me) mf (λ i. own (suc i)) inc
        (omega arith)
  mixed-Includes (live h k v ∷ es) fs me mf own inc less =
      let self = own 0 h k v refl in
      let (w, f) = inc k v (rw self refl) in
      let o = lookup-Holds keys.equal fs k w f in
      let fewer = count-without keys.equal keys.equality fs k w mf.unique o in
      let rest =
        mixed-Includes es (without keys.equal keys.equality fs k w mf.unique o)
          (MayPut-tail keys (live h k v) es me) (MayPut-without fs mf k w o) (λ i. own (suc i))
          (Includes-without keys.equal keys.equality h k v es fs me.unique mf.unique inc w o)
          (omega arith) in
      let same : h ≡ o.hash = some_injective (
        sym (me.hashed 0 h k v refl)
        ∙ sym (keys.hash_equal o.held k o.same)
        ∙ mf.hashed o.index o.hash o.held w o.at) in
      ap (bit_xor (spread h)) rest
      ∙ ap
          (λ (n : ℕ).
            bit_xor (spread n) (mixed (without keys.equal keys.equality fs k w mf.unique o)))
          same
      ∙ sym (mixed-bury fs o.index o.hash o.held w o.at)

  module _ (a b : SetObj K) (ma : IsMap keys a) (mb : IsMap keys b)
      (own_a : IsReflexive keys.equal keys.equality a.entries)
      (own_b : IsReflexive keys.equal keys.equality b.entries) where
    -- `frozensetEq` of two frozensets, the elements of each equal to themselves, ends, with whether
    -- they have the same elements.
    frozenset_eq-Decides :
        (t : Bool) × (frozenset_eq keys a (some b) ≡ some t)
        × (t ≡ true ↔ ((k : K) → member keys a k ≡ member keys b k))
    unfolding frozenset_eq set_eq
    frozenset_eq-Decides = set_eq-Decides keys a b ma mb own_a own_b

    -- Two frozensets, the elements of each equal to themselves, that `frozensetEq` finds equal have the
    -- same `frozensetHash`, however their slots are laid out.
    pub frozenset_hash-equal :
        frozenset_eq keys a (some b) ≡ some true → frozenset_hash a ≡ frozenset_hash b
    unfolding frozenset_hash
    frozenset_hash-equal e =
        let (t, d, iff) = frozenset_eq-Decides in
        let same = iff.0 (some_injective (sym d ∙ e)) in
        let inc = subset-Includes keys a b ma mb own_a own_b (λ k p. sym (same k) ∙ p) in
        let mixes =
          mixed-Includes a.entries b.entries (MayPut-IsMap keys a ma) (MayPut-IsMap keys b mb) own_a
            inc
            (omega (
              arith,
              ma.valid.len_counts,
              mb.valid.len_counts,
              superset-len keys a b ma mb own_a own_b (λ k p. same k ∙ p),
            )) in
        let hashes =
          hash_from-mixed 0 a.entries ∙ ap (bit_xor 0) mixes ∙ sym (hash_from-mixed 0 b.entries) in
        ap (λ (h : ℕ). if h == 0 then 1 else h) hashes
