-- ===== src/Runtime/Map/Pairs.antt =====
-- src/runtime/ms_map.c: the keys, values and pairs of a map, and its iterator.
use mslang_c.Base.{
  ℕ, zero, suc, ◌<◌, ◌≡◌, ◌∙◌, sym, ap, refl, Bool, true, Option, none, some, List, [], ◌∷◌,
  if◌then◌else◌, length, drop, arith,
}
use mslang_c.Runtime.Map.{map_len}
use mslang_c.Runtime.Map.Views.{keys_of, values_of, items_of, next_key, iter_next}
use mslang_c.Runtime.Map.Found.{IsMap}
use mslang_c.Runtime.Table.{Slot, unused, tombstone, live, Table, is_live}
use mslang_c.Runtime.Table.Count.{count}
use mslang_c.Runtime.Table.Insert.{Keys}
use mslang_c.Runtime.Table.Lookup.{lookup}

module _ {ℓ} {K : Type ℓ} (is_nil : K → Bool) where
  -- A key in front of others, or the end if it is nil.
  abbrev following : List K → K → List K
  following rest k = if is_nil k then [] else k ∷ rest

  -- The keys in front of the first that is nil.
  abbrev pub until_nil : List K → List K
  until_nil [] = []
  until_nil (k ∷ ks) = following (until_nil ks) k

  following-nil : (nil : K) → is_nil nil ≡ true → (rest : List K) → following rest nil ≡ []
  following-nil nil h rest = rw h refl

module _ {ℓ} {K V : Type ℓ} where
  -- The value that a list of pairs has for a key.
  abbrev pub assoc : (K → K → Bool) → List (K × V) → K → Option V
  assoc equal [] key = none
  assoc equal ((k, v) ∷ ps) key = if equal k key then some v else assoc equal ps key

  abbrev pub pairs : List K → List V → List (K × V)
  pairs (k ∷ ks) (v ∷ vs) = (k, v) ∷ pairs ks vs
  pairs _ _ = []

  drop-suc :
      (es fs : List (Slot K V)) (s : Slot K V) (i : ℕ) → drop i es ≡ s ∷ fs → drop (suc i) es ≡ fs
  drop-suc [] fs s zero e = absurd (ground (arith, ap length e))
  drop-suc [] fs s (suc i) e = absurd (ground (arith, ap length e))
  drop-suc (t ∷ es) fs s zero e = ap (drop 1) e
  drop-suc (t ∷ es) fs s (suc i) e = drop-suc es fs s i e

  module _ (nil : K) (is_nil : K → Bool) where
    -- What a loop gets from the iterator from a slot on, until it gets nil.
    unfoldable pub drain : ℕ → Table K V → ℕ → List K
    drain zero m slot_idx = []
    drain (suc fuel) m slot_idx =
        (let rest = drain fuel m (iter_next nil m slot_idx).1 in
          following is_nil rest (iter_next nil m slot_idx).0)

    drain-step :
        (fuel : ℕ) (m : Table K V) (i : ℕ) (next : K × ℕ)
        → iter_next nil m i ≡ next
        → drain (suc fuel) m i ≡ following is_nil (drain fuel m next.1) next.0
    unfolding drain
    drain-step fuel m i next e = ap (λ (n : K × ℕ). following is_nil (drain fuel m n.1) n.0) e

    -- A slot that holds no key is passed over.
    drain-over :
        (fuel : ℕ) (m : Table K V) (i : ℕ)
        → iter_next nil m i ≡ iter_next nil m (suc i)
        → drain (suc fuel) m i ≡ drain (suc fuel) m (suc i)
    drain-over fuel m i e =
        drain-step fuel m i (iter_next nil m (suc i)) e
        ∙ sym (drain-step fuel m (suc i) (iter_next nil m (suc i)) refl)

    drain-keys :
        (es : List (Slot K V)) (fuel : ℕ) (m : Table K V) (i : ℕ)
        → is_nil nil ≡ true
        → drop i m.entries ≡ es
        → length es < fuel
        → drain fuel m i ≡ until_nil is_nil (keys_of es)
    drain-keys es zero m i h e l = absurd (omega arith)
    drain-keys [] (suc fuel) m i h e l =
        drain-step fuel m i (nil, i) (ap (λ (t : List (Slot K V)). next_key nil t i) e)
        ∙ following-nil is_nil nil h (drain fuel m i)
    drain-keys (unused ∷ es) (suc fuel) m i h e l =
        let rest = drop-suc m.entries es unused i e in
        let here = ap (λ (t : List (Slot K V)). next_key nil t i) e in
        let there = ap (λ (t : List (Slot K V)). next_key nil t (suc i)) (sym rest) in
        drain-over fuel m i (here ∙ there) ∙ drain-keys es (suc fuel) m (suc i) h rest (omega arith)
    drain-keys (tombstone ∷ es) (suc fuel) m i h e l =
        let rest = drop-suc m.entries es tombstone i e in
        let here = ap (λ (t : List (Slot K V)). next_key nil t i) e in
        let there = ap (λ (t : List (Slot K V)). next_key nil t (suc i)) (sym rest) in
        drain-over fuel m i (here ∙ there) ∙ drain-keys es (suc fuel) m (suc i) h rest (omega arith)
    drain-keys (live g k v ∷ es) (suc fuel) m i h e l =
        let rest = drop-suc m.entries es (live g k v) i e in
        drain-step fuel m i (k, suc i) (ap (λ (t : List (Slot K V)). next_key nil t i) e)
        ∙ ap (λ (ks : List K). following is_nil ks k)
            (drain-keys es fuel m (suc i) h rest (omega arith))

  pairs-items : (es : List (Slot K V)) → pairs (keys_of es) (values_of es) ≡ items_of es
  pairs-items [] = refl
  pairs-items (unused ∷ es) = pairs-items es
  pairs-items (tombstone ∷ es) = pairs-items es
  pairs-items (live h k v ∷ es) = ap (λ (ps : List (K × V)). (k, v) ∷ ps) (pairs-items es)

  assoc-items :
      (equal : K → K → Bool) (es : List (Slot K V)) (key : K)
      → assoc equal (items_of es) key ≡ lookup equal es key
  unfolding lookup
  assoc-items equal [] key = refl
  assoc-items equal (unused ∷ es) key = assoc-items equal es key
  assoc-items equal (tombstone ∷ es) key = assoc-items equal es key
  assoc-items equal (live h k v ∷ es) key =
      ap (λ (o : Option V). if equal k key then some v else o) (assoc-items equal es key)

  length-keys_of : (es : List (Slot K V)) → length (keys_of es) ≡ count is_live es
  length-keys_of [] = refl
  length-keys_of (unused ∷ es) = omega (arith, length-keys_of es)
  length-keys_of (tombstone ∷ es) = omega (arith, length-keys_of es)
  length-keys_of (live h k v ∷ es) = omega (arith, length-keys_of es)

  -- `msMapItems` of a map are `msMapKeys` paired with `msMapValues`, in order, and hold for every key
  -- the value that reading all slots finds. There are as many keys as `mapLen` says. A loop that asks
  -- an iterator from the first slot on, until it gets nil, gets the keys in that order that stand in
  -- front of the first nil key; it asks at most one time more than there
  -- are slots. `is_nil` is the loop's test, which holds of nil.
  pub items-keys-values :
      (keys : Keys K) (m : Table K V) (nil : K) (is_nil : K → Bool)
      → IsMap keys m
      → is_nil nil ≡ true
      → (pairs (keys_of m.entries) (values_of m.entries) ≡ items_of m.entries)
        × ((key : K) → assoc keys.equal (items_of m.entries) key ≡ lookup keys.equal m.entries key)
        × (length (keys_of m.entries) ≡ map_len m)
        × (drain nil is_nil (suc (length m.entries)) m 0 ≡ until_nil is_nil (keys_of m.entries))
  items-keys-values keys m nil is_nil h n = (
    pairs-items m.entries,
    assoc-items keys.equal m.entries,
    length-keys_of m.entries ∙ sym h.valid.len_counts,
    drain-keys nil is_nil m.entries (suc (length m.entries)) m 0 n refl (omega arith),
  )
