-- ===== src/Runtime/Table/Store.antt =====
-- src/runtime/ms_map.c, `mapSetHashed` with its growth.
use mathlib.Core.Path.{subst}
use mslang_c.Base.{
  ℕ, suc, ◌+◌, ◌*◌, ◌%◌, ◌^◌, ◌≤◌, ◌<◌, ◌≡◌, inl, inr, ◌∙◌, sym, ap, refl, true, false, Option,
  some, if◌then◌else◌, length, arith, Bool-cases, ltb,
}
use mslang_c.Runtime.Table.{Table, resize, grown, is_full, set_hashed}
use mslang_c.Runtime.Table.Grow.{resize-Resized}
use mslang_c.Runtime.Table.Insert.{Keys}
use mslang_c.Runtime.Table.Lookup.{lookup}
use mslang_c.Runtime.Table.Valid.{IsValid, put_hashed-Puts}

-- The capacities that a table may have.
abbrev pub IsCapacity : ℕ → Type 0
IsCapacity n = (e : ℕ) × (3 ≤ e) × (n ≡ 2 ^ e)

IsCapacity-double : (n : ℕ) → IsCapacity n → IsCapacity (n * 2)
IsCapacity-double n (e, l, p) = (suc e, omega arith, omega arith)

module _ {ℓ} {K V : Type ℓ} where
  -- The capacity stays so small that the 32-bit arithmetic on it does not wrap.
  abbrev pub IsSmall : Table K V → Type 0
  IsSmall m = length m.entries < 2 ^ 29

  -- The slots that are not unused.
  abbrev pub used_slots : Table K V → ℕ
  used_slots m = m.len + m.tombstones

module _ {ℓ} {K V : Type ℓ} (keys : Keys K) where
  -- A table that holds the same, with room for one more key.
  record Grown (m r : Table K V) : Type ℓ where
    pub valid : IsValid keys r
    pub small : IsSmall r
    pub room : used_slots r + 1 < length r.entries
    pub capacity : IsCapacity (length m.entries) → IsCapacity (length r.entries)
    pub not_more : used_slots r ≤ used_slots m
    pub maps : (k : K) → lookup keys.equal r.entries k ≡ lookup keys.equal m.entries k

  module _ (m : Table K V) (v : IsValid keys m) (no_wrap : IsSmall m)
      (few : used_slots m < 2 ^ 27) where
    grown-fits : is_full m ≡ false → grown keys.equal m ≡ some m
    unfolding grown
    grown-fits f = rw f refl

    grown-full :
        is_full m ≡ true
        → grown keys.equal m
          ≡ resize keys.equal m
              (if ltb (length m.entries) 8 then 8 else length m.entries * 2 % 2 ^ 32)
    unfolding grown
    grown-full f = rw f refl

    Grown-resize :
        (new_cap : ℕ)
        → grown keys.equal m ≡ resize keys.equal m new_cap
        → m.len + 1 < new_cap
        → new_cap < 2 ^ 29
        → (IsCapacity (length m.entries) → IsCapacity new_cap)
        → (r : Table K V) × (grown keys.equal m ≡ some r) × Grown m r
    Grown-resize new_cap e l b c =
        let (r, s, h) = resize-Resized keys m v new_cap (omega arith) in
        (
          r,
          e ∙ s,
          record {
            valid = h.valid;
            small = omega (arith, h.cap);
            room = omega (arith, h.cap, h.same_len, h.no_tombstone);
            capacity = λ p. subst IsCapacity (sym h.cap) (c p);
            not_more = omega (arith, h.same_len, h.no_tombstone);
            maps = h.maps;
          },
        )

    grown-Grown : (r : Table K V) × (grown keys.equal m ≡ some r) × Grown m r
    grown-Grown = elim (Bool-cases (is_full m)) [
      | inl f ↦ elim (Bool-cases (ltb (length m.entries) 8)) [
        | inl c ↦
            Grown-resize 8 (grown-full f ∙ rw c refl) (ground (arith, v.has_room)) (omega arith)
              (λ p. (3, omega arith, refl))
        | inr c ↦
            let double : length m.entries * 2 ≡ length m.entries * 2 % 2 ^ 32 = omega arith in
            Grown-resize (length m.entries * 2 % 2 ^ 32) (grown-full f ∙ rw c refl)
              (ground (arith, v.has_room)) (ground arith)
              (λ p. subst IsCapacity double (IsCapacity-double (length m.entries) p))
      ]
      | inr f ↦ (
        m,
        grown-fits f,
        record {
          valid = v;
          small = no_wrap;
          room = ground (arith, v.has_room);
          capacity = λ p. p;
          not_more = omega arith;
          maps = λ k. refl;
        },
      )
    ]

    -- What a table becomes when the key gets the value.
    pub record Stores (key : K) (value : V) (r : Table K V) : Type ℓ where
      pub valid : IsValid keys r
      pub small : IsSmall r
      pub capacity : IsCapacity (length m.entries) → IsCapacity (length r.entries)
      pub grows : used_slots r ≤ used_slots m + 1
      pub maps :
          (k : K)
          → lookup keys.equal r.entries k
            ≡ (if keys.equal key k then some value else lookup keys.equal m.entries k)

    pub set_hashed-Stores :
        (key : K) (hash : ℕ) (value : V)
        → keys.hash key ≡ some hash
        → (r : Table K V) × (set_hashed keys.equal m key value hash ≡ some r) × Stores key value r
    unfolding set_hashed
    set_hashed-Stores key hash value has =
        let (g, e, h) = grown-Grown in
        let (r, f, p) = put_hashed-Puts keys g h.valid key hash value has h.room in
        (
          r,
          rw (e, set_hashed) f,
          record {
            valid = p.valid;
            small = omega (arith, p.same_cap, h.small);
            capacity = λ c. subst IsCapacity (sym p.same_cap) (h.capacity c);
            grows = omega (arith, p.grows, h.not_more);
            maps = λ k.
                p.maps k
                ∙ ap (λ (o : Option V). if keys.equal key k then some value else o) (h.maps k);
          },
        )
