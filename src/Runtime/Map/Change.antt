-- ===== src/Runtime/Map/Change.antt =====
-- src/runtime/ms_map.c, `msMapSet`, and what an operation makes of a map.

use mslang_c.Base.{ℕ, suc, ◌+◌, ◌^◌, ◌≤◌, ◌≡◌, refl, Option, some, if◌then◌else◌, arith}
use mslang_c.Runtime.Map.{answer, stored, set_item}
use mslang_c.Runtime.Map.Found.{IsMap}
use mslang_c.Runtime.Table.{Table}
use mslang_c.Runtime.Table.Insert.{Keys}
use mslang_c.Runtime.Table.Lookup.{lookup}
use mslang_c.Runtime.Table.Store.{IsSmall, used_slots, set_hashed-Stores}

module _ {ℓ} {K V : Type ℓ} (keys : Keys K) where
  -- The map `r` has for every key what `f` makes of it.
  pub record HasMap (f : K → Option V) (r : Table K V) : Type ℓ where
    pub is_map : IsMap keys r
    pub maps : (k : K) → lookup keys.equal r.entries k ≡ f k

  -- The map has room for so many more keys, with 32-bit numbers that do not wrap.
  abbrev pub HasRoom : Table K V → ℕ → Type 0
  HasRoom m n = IsSmall m × (used_slots m + n ≤ 2 ^ 27)

  module _ (nil : V) (m : Table K V) (key : K) where
    abbrev pub with_key : Option V → K → Option V
    with_key o k = if keys.equal key k then o else lookup keys.equal m.entries k

    module _ (is_map : IsMap keys m) (hash : ℕ) (has : keys.hash key ≡ some hash) where
      pub stored-HasMap :
          (n : ℕ)
          → HasRoom m (suc n)
          → (value result : V)
          → (r : Table K V) × (stored keys m key value hash result ≡ some (r, answer result))
            × HasMap (with_key (some value)) r
            × HasRoom r n
      stored-HasMap n (small, few) value result =
          let (r, e, s) =
            set_hashed-Stores keys m is_map.valid small (omega arith) key hash value has in
          (
            r,
            rw (e, stored) refl,
            record {
              is_map = record { valid = s.valid; capacity = s.capacity is_map.capacity };
              maps = s.maps;
            },
            (s.small, omega (arith, s.grows)),
          )

      -- `msMapSet` on a map with room for `n + 1` more keys (it has fewer than 2^29 slots, and those not
      -- unused and the new keys are at most 2^27), and a key that has a hash. It returns nil, and
      -- leaves a map in which the key has the new value and every other key what it had, with room
      -- for `n` more keys.
      pub set_item-lookup :
          (n : ℕ)
          → HasRoom m (suc n)
          → (value : V)
          → (r : Table K V) × (set_item keys nil m key value ≡ some (r, answer nil))
            × HasMap (with_key (some value)) r
            × HasRoom r n
      unfolding set_item
      set_item-lookup n room value =
          let (r, e, h, s) = stored-HasMap n room value nil in (r, rw (has, set_item) e, h, s)
