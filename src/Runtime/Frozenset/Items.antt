-- ===== src/Runtime/Frozenset/Items.antt =====
-- src/runtime/ms_frozenset.c: a frozenset made of a list.
use Prim.{Unit, tt}
use mathlib.Core.Path.{subst, subst₂}
use mslang_c.Base.{
  ℕ, ◌%◌, ◌^◌, ◌≤◌, ◌<◌, ◌≡◌, inl, inr, ◌∙◌, sym, ap, refl, Bool, true, false, ◌&&◌, ◌||◌, Option,
  none, some, List, [], ◌∷◌, length, arith, Option-cases,
}
use mslang_c.Runtime.Frozenset.{add_items, from_iter, list_value, new_frozenset}
use mslang_c.Runtime.Map
use mslang_c.Runtime.Map.{Answer, answer, error, is_some}
use mslang_c.Runtime.Map.Change.{HasRoom, set_item-lookup}
use mslang_c.Runtime.Map.Create.{new_map-HasMap}
use mslang_c.Runtime.Map.Found.{IsMap}
use mslang_c.Runtime.Map.Read.{unhashable-error}
use mslang_c.Runtime.Set.{SetObj}
use mslang_c.Runtime.Set.Member.{member, holds-if}
use mslang_c.Runtime.Table.Insert.{Keys}
use mslang_c.Runtime.Table.Lookup.{lookup}

module _ {K : Type 0} (keys : Keys K) where
  -- Whether an item of the list is equal to the key.
  abbrev pub any_equal : List K → K → Bool
  any_equal [] k = false
  any_equal (x ∷ xs) k = any_equal xs k || keys.equal x k

  abbrev pub has_hash : Option ℕ → Bool
  has_hash none = false
  has_hash (some h) = true

  abbrev pub all_hashable : List K → Bool
  all_hashable [] = true
  all_hashable (x ∷ xs) = has_hash (keys.hash x) && all_hashable xs

  -- What is made of a list: a set of its items, or an error if one has no hash.
  pub data Made (test : K → Bool) : Bool → Option (Answer (SetObj K)) → Type 0 where
    made :
        (r : SetObj K)
        → IsMap keys r
        → ((k : K) → member keys r k ≡ test k)
        → Made test true (some (answer r))
    refused : Made test false (some error)

  add_items-unhashable :
      (x : K) (xs : List K) (s : SetObj K)
      → keys.hash x ≡ none
      → add_items keys (x ∷ xs) s ≡ some error
  unfolding add_items
  add_items-unhashable x xs s n =
      (let e = (unhashable-error keys tt s x n tt).4 in rw (e, add_items) refl)

  Made-more :
      (x : K) (xs : List K) (s r : SetObj K) (b : Bool) (result : Option (Answer (SetObj K)))
      → ((k : K) → member keys r k ≡ keys.equal x k || member keys s k)
      → Made (λ k. any_equal xs k || member keys r k) b result
      → Made (λ k. any_equal (x ∷ xs) k || member keys s k) b result
  Made-more x xs s r b result f (made t m g) = made t m (λ k.
      g k
      ∙ ap (λ (c : Bool). any_equal xs k || c) (f k)
      ∙ or_assoc (any_equal xs k) (keys.equal x k) (member keys s k))
    where
      or_assoc : (p q u : Bool) → (p || (q || u)) ≡ ((p || q) || u)
      or_assoc true q u = refl
      or_assoc false q u = refl
  Made-more x xs s r b result f refused = refused

  add_items-more :
      (x : K) (xs : List K) (s r : SetObj K)
      → Map.set_item keys tt s x tt ≡ some (r, answer tt)
      → add_items keys (x ∷ xs) s ≡ add_items keys xs r
  unfolding add_items
  add_items-more x xs s r e = rw (e, add_items) refl

  Made-empty :
      (xs : List K) (s : SetObj K) (b : Bool) (result : Option (Answer (SetObj K)))
      → ((k : K) → member keys s k ≡ false)
      → Made (λ k. any_equal xs k || member keys s k) b result
      → Made (any_equal xs) b result
  Made-empty xs s b result f (made t m g) =
      made t m (λ k. g k ∙ ap (λ (c : Bool). any_equal xs k || c) (f k) ∙ or_false (any_equal xs k))
    where
      or_false : (p : Bool) → (p || false) ≡ p
      or_false true = refl
      or_false false = refl
  Made-empty xs s b result f refused = refused

  add_items-Made :
      (xs : List K) (s : SetObj K)
      → IsMap keys s
      → HasRoom keys s (length xs)
      → Made (λ k. any_equal xs k || member keys s k) (all_hashable xs) (add_items keys xs s)
  unfolding add_items
  add_items-Made [] s m room = made s m (λ k. refl)
  add_items-Made (x ∷ xs) s m room = elim (Option-cases (keys.hash x)) [
    | inl n ↦
        (let none_hashable : false ≡ all_hashable (x ∷ xs) = rw n refl in
          subst₂ (Made (λ k. any_equal (x ∷ xs) k || member keys s k)) none_hashable
            (sym (add_items-unhashable x xs s n)) refused)
    | inr (h, n) ↦
        (let (r, e, p, more) = set_item-lookup keys tt s x m h n (length xs) room tt in
          let rest_hashable : all_hashable xs ≡ all_hashable (x ∷ xs) = rw n refl in
          subst₂ (Made (λ k. any_equal (x ∷ xs) k || member keys s k)) rest_hashable
            (sym (add_items-more x xs s r e))
            (Made-more x xs s r (all_hashable xs) (add_items keys xs r)
              (λ k.
                ap is_some (p.maps k)
                ∙ holds-if keys (keys.equal x k) (lookup keys.equal s.entries k))
              (add_items-Made xs r p.is_map more)))
  ]

  from_iter-add_items :
      (xs : List K) (s : SetObj K)
      → new_frozenset (length xs % 2 ^ 32) ≡ some s
      → from_iter keys (list_value xs) ≡ add_items keys xs s
  unfolding from_iter
  from_iter-add_items xs s e = rw (e, from_iter) refl

  -- `msNewFrozensetFromIter` of a list of at most 2^27 items ends. If all items have a hash, it
  -- returns a frozenset, whose elements are what is equal to an item; and else an error.
  pub from_iter-Made :
      (xs : List K)
      → length xs ≤ 2 ^ 27
      → Made (any_equal xs) (all_hashable xs) (from_iter keys (list_value xs))
  from_iter-Made xs few =
      let (s, e, m, rounded, fresh) =
        new_map-HasMap {V = Unit {0}} keys (length xs % 2 ^ 32) (omega arith) in
      let small : length s.entries < 2 ^ 29 = ground (arith, rounded.least) in
      subst (Made (any_equal xs) (all_hashable xs)) (sym (from_iter-add_items xs s e)) (
        Made-empty xs s (all_hashable xs) (add_items keys xs s) (λ k. ap is_some (m.maps k))
          (add_items-Made xs s m.is_map (small, omega arith)))
