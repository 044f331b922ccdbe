-- ===== src/Runtime/Map/Samples.antt =====
-- Small maps from numbers to numbers, as test data.
use mathlib.Core.Path.{subst}
use mslang_c.Base.{
  ℕ, zero, suc, ◌%◌, ◌^◌, ◌≡◌, ◌∙◌, sym, ap, refl, true, Option, none, some, [], ◌∷◌, ◌==◌, ==_iff,
  arith, some_injective,
}
use mslang_c.Runtime.Map.{Answer, answer, empty_map, set_item}
use mslang_c.Runtime.Map.Change.{HasRoom, set_item-lookup}
use mslang_c.Runtime.Map.Create.{IsMap-empty_map}
use mslang_c.Runtime.Map.Found.{IsMap}
use mslang_c.Runtime.Table.{Table, unused, live, set_hashed, grown, put_hashed, probe, write_at}
use mslang_c.Runtime.Table.Insert.{Keys}
use mslang_c.Runtime.Table.Lookup.{IsEquality}

-- Numbers, but 0, which has no hash.
abbrev hash_of : ℕ → Option ℕ
hash_of zero = none
hash_of (suc n) = some (suc n % 2 ^ 32)

pub numbers-IsEquality : IsEquality (λ (a b : ℕ). a == b)
numbers-IsEquality = record {
  equal_sym = λ a b e. ground arith;
  equal_trans = λ a b c e f. ground arith;
}

abbrev pub numbers : Keys ℕ
numbers = record {
  equal = λ a b. a == b;
  hash = hash_of;
  equality = numbers-IsEquality;
  hash_equal = λ a b e. ap hash_of ((==_iff a b).0 e);
}

pub numbers-reflexive : (k : ℕ) → (k == k) ≡ true
numbers-reflexive k = (==_iff k k).1 refl

module _ {V : Type 0} where
  abbrev pub no_items : Table ℕ V
  no_items = empty_map ℕ V 8

  pub no_items-IsMap : IsMap numbers no_items
  no_items-IsMap = (IsMap-empty_map numbers 8 (3, omega arith, refl)).is_map

  -- 13 is put where 5 is, and so behind it.
  abbrev pub one_item : V → Table ℕ V
  one_item v = record {
    entries = unused ∷ unused ∷ unused ∷ unused ∷ unused ∷ live 5 5 v ∷ unused ∷ unused ∷ [];
    len = 1;
    tombstones = 0;
  }

  abbrev pub two_items : V → V → Table ℕ V
  two_items v w = record {
    entries = unused ∷ unused ∷ unused ∷ unused ∷ unused ∷ live 5 5 v ∷ live 13 13 w ∷ unused ∷ [];
    len = 2;
    tombstones = 0;
  }

  -- The same as with `two_items`, put in the other order.
  abbrev last_item : V → Table ℕ V
  last_item w = record {
    entries = unused ∷ unused ∷ unused ∷ unused ∷ unused ∷ live 13 13 w ∷ unused ∷ unused ∷ [];
    len = 1;
    tombstones = 0;
  }

  abbrev pub other_order : V → V → Table ℕ V
  other_order v w = record {
    entries = unused ∷ unused ∷ unused ∷ unused ∷ unused ∷ live 13 13 w ∷ live 5 5 v ∷ unused ∷ [];
    len = 2;
    tombstones = 0;
  }

  run-IsMap :
      (nil : V) (m r : Table ℕ V) (key hash : ℕ) (value : V)
      → IsMap numbers m
      → hash_of key ≡ some hash
      → HasRoom numbers m 1
      → set_item numbers nil m key value ≡ some (r, answer nil)
      → IsMap numbers r
  run-IsMap nil m r key hash value h has room e =
      let (s, f, p, _) = set_item-lookup numbers nil m key h hash has 0 room value in
      subst (IsMap numbers) (ap (λ (x : Table ℕ V × Answer V). x.0) (some_injective (sym f ∙ e)))
        p.is_map

  pub one_item-IsMap : (v : V) → IsMap numbers (one_item v)
  unfolding set_item set_hashed grown put_hashed probe write_at
  one_item-IsMap v =
      run-IsMap v no_items (one_item v) 5 5 v no_items-IsMap refl (omega arith, omega arith) refl

  pub two_items-IsMap : (v w : V) → IsMap numbers (two_items v w)
  unfolding set_item set_hashed grown put_hashed probe write_at
  two_items-IsMap v w =
      run-IsMap v (one_item v) (two_items v w) 13 13 w (one_item-IsMap v) refl
        (omega arith, omega arith) refl

  last_item-IsMap : (w : V) → IsMap numbers (last_item w)
  unfolding set_item set_hashed grown put_hashed probe write_at
  last_item-IsMap w =
      run-IsMap w no_items (last_item w) 13 13 w no_items-IsMap refl (omega arith, omega arith) refl

  pub other_order-IsMap : (v w : V) → IsMap numbers (other_order v w)
  unfolding set_item set_hashed grown put_hashed probe write_at
  other_order-IsMap v w =
      run-IsMap v (last_item w) (other_order v w) 5 5 v (last_item-IsMap w) refl
        (omega arith, omega arith) refl
