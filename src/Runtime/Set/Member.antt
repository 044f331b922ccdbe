-- ===== src/Runtime/Set/Member.antt =====
-- src/runtime/ms_set.c: the elements of a set, and `msSetFindInSet`.
use Prim.{Unit, tt}
use mslang_c.Base.{
  ℕ, ◌≡◌, sym, ap, refl, Bool, true, false, ◌||◌, Option, some, List, if◌then◌else◌,
}
use mslang_c.Runtime.Map.{is_some}
use mslang_c.Runtime.Map.Found.{IsMap, held-Found, find_in-Found}
use mslang_c.Runtime.Set.{SetObj, Entry, is_in}
use mslang_c.Runtime.Table.Insert.{Keys}
use mslang_c.Runtime.Table.Join.{lookup-equal}
use mslang_c.Runtime.Table.Lookup.{lookup}

module _ {K : Type 0} (keys : Keys K) where
  -- Whether the slots hold the element, found by reading them one by one.
  abbrev pub holds : List (Entry K) → K → Bool
  holds es k = is_some (lookup keys.equal es k)

  abbrev pub member : SetObj K → K → Bool
  member s k = holds s.entries k

  pub holds-if :
      (b : Bool) (o : Option (Unit {0})) → is_some (if b then some tt else o) ≡ b || is_some o
  holds-if true o = refl
  holds-if false o = refl

  pub member-equal : (s : SetObj K) (a b : K) → keys.equal a b ≡ true → member s a ≡ member s b
  member-equal s a b e = ap is_some (sym (lookup-equal keys.equal keys.equality s.entries a b e))

  pub is_in-member :
      (s : SetObj K)
      → IsMap keys s
      → (k : K) (h : ℕ) → keys.hash k ≡ some h
      → is_in keys s k h ≡ some (member s k)
  unfolding is_in
  is_in-member s m k h has =
      let (e, p, f) = find_in-Found keys s k m.valid h has in
      let q = held-Found keys s k m.valid e f in
      rw (p, is_in) (ap (λ (o : Option (Unit {0})). some (is_some o)) q)
