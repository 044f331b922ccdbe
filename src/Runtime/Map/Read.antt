-- ===== src/Runtime/Map/Read.antt =====
-- src/runtime/ms_map.c: the operations that read a map, and what all operations do without a hash.
use mslang_c.Base.{ℕ, ◌≡◌, ◌∙◌, ap, refl, none, some}
use mslang_c.Runtime.Map.{
  error, answer, held, value_or, is_some, or_error, on_entry, remove_entry, get, get_item, has,
  get_default, set_item, delete, pop, set_default,
}
use mslang_c.Runtime.Map.Found.{held-Found, lookup_entry-Found, lookup_entry-unhashable}
use mslang_c.Runtime.Table.{Table}
use mslang_c.Runtime.Table.Insert.{Keys}
use mslang_c.Runtime.Table.Lookup.{lookup}
use mslang_c.Runtime.Table.Valid.{IsValid}

module _ {ℓ} {K V : Type ℓ} (keys : Keys K) (nil : V) (m : Table K V) (key : K) where
  -- In a valid map and with a key that has a hash, every operation that reads the key's entry ends.
  -- With the value that reading all slots one by one finds for the key, `msMapGet` returns it, or
  -- nil if there is none; `mapGetItem` returns it, or an error; `msMapHas` returns whether there is
  -- one; and `msMapGetDefault` returns it, or the default.
  pub reads-lookup :
      IsValid keys m
      → (hash : ℕ) → keys.hash key ≡ some hash
      → (default : V)
      → (get keys nil m key ≡ some (answer (value_or nil (lookup keys.equal m.entries key))))
        × (get_item keys m key ≡ some (or_error (lookup keys.equal m.entries key)))
        × (has keys m key ≡ some (answer (is_some (lookup keys.equal m.entries key))))
        × (get_default keys m key default
            ≡ some (answer (value_or default (lookup keys.equal m.entries key))))
  unfolding get get_item has get_default
  reads-lookup v hash h default =
      let (e, p, f) = lookup_entry-Found keys m key v hash h in
      let q = held-Found keys m key v e f in
      (
        ap (on_entry (λ e'. answer (value_or nil (held m e')))) p
            ∙ ap (λ o. some (answer (value_or nil o))) q,
        ap (on_entry (λ e'. or_error (held m e'))) p ∙ ap (λ o. some (or_error o)) q,
        ap (on_entry (λ e'. answer (is_some (held m e')))) p
            ∙ ap (λ o. some (answer (is_some o))) q,
        ap (on_entry (λ e'. answer (value_or default (held m e')))) p
            ∙ ap (λ o. some (answer (value_or default o))) q,
      )

  -- With a key that has no hash, such as a list or a NaN, every operation of the map with a key
  -- returns an error, and those that write leave the map as it is.
  pub unhashable-error :
      keys.hash key ≡ none
      → (value : V)
      → (get keys nil m key ≡ some error)
        × (get_item keys m key ≡ some error)
        × (has keys m key ≡ some error)
        × (get_default keys m key value ≡ some error)
        × (set_item keys nil m key value ≡ some (m, error))
        × (delete keys nil m key ≡ some (m, error))
        × (pop keys m key value ≡ some (m, error))
        × (set_default keys m key value ≡ some (m, error))
  unfolding get get_item has get_default set_item delete pop set_default
  unhashable-error n value =
      let p = lookup_entry-unhashable keys m key n in
      (
        ap (on_entry (λ e'. answer (value_or nil (held m e')))) p,
        ap (on_entry (λ e'. or_error (held m e'))) p,
        ap (on_entry (λ e'. answer (is_some (held m e')))) p,
        ap (on_entry (λ e'. answer (value_or value (held m e')))) p,
        rw (n, set_item) refl,
        ap (remove_entry keys m (λ v. answer nil) error) p,
        ap (remove_entry keys m (λ v. answer v) (answer value)) p,
        rw (n, set_default) refl,
      )
