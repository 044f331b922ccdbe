-- ===== src/Compiler/Scope/Upvalues.antt =====
-- src/compiler/ms_scope.c, `msScopeResolveUpvalue` and `msScopeAddUpvalue`.
use mathlib.Core.Path.{subst}
use mslang_c.Base.{
  ℕ, suc, ◌+◌, ◌-◌, ◌%◌, ◌<◌, ◌≤◌, Bool, true, false, Option, none, some, List, [], ◌∷◌, ◌++◌,
  Bytes, leb, length, arith, ◌≡◌, refl, Bool-cases, Option-cases, inl, inr, ◌==◌, ◌∙◌, sym, ap,
  get_elem?, get_elem?-length, all, ◌&&◌, if◌then◌else◌,
}
use mslang_c.Compiler.Scope.{
  Local, UpvalueDesc, Compiler, same_name, same_upvalue, find_upvalue, resolve_local, capture,
  add_upvalue, resolve_upvalue, resolve_in, added,
}

-- The flag `captured` of a slot.
unfoldable pub is_captured : List Local → ℕ → Bool
is_captured [] slot = false
is_captured (l ∷ ls) slot = if length ls == slot then l.captured else is_captured ls slot

-- Upvalue `i` of the first compiler is the variable `name` of one that encloses it: through a chain
-- of upvalues that ends in a local of that name, initialized and marked as captured by a closure.
pub data Refers {ℓ} {V : Type ℓ} (name : Bytes) : List (Compiler V) → ℕ → Type ℓ where
  to_local :
      (c e : Compiler V) (es : List (Compiler V)) (i slot : ℕ)
      → get_elem? c.upvalues i ≡ some (record { is_local = true; index = slot })
      → resolve_local e.locals name ≡ some slot
      → is_captured e.locals slot ≡ true
      → Refers name (c ∷ e ∷ es) i
  to_upvalue :
      (c : Compiler V) (outer : List (Compiler V)) (i j : ℕ)
      → get_elem? c.upvalues i ≡ some (record { is_local = false; index = j })
      → Refers name outer j
      → Refers name (c ∷ outer) i

same_upvalue-Equal : (v u : UpvalueDesc) → same_upvalue v u ≡ true → v ≡ u
unfolding same_upvalue
same_upvalue-Equal v u h = ground arith

find_upvalue-get_elem? :
    (us : List UpvalueDesc) (i k : ℕ) (u : UpvalueDesc)
    → find_upvalue us i u ≡ some k
    → (i ≤ k) × (get_elem? us (k - i) ≡ some u) × (k < i + length us)
unfolding find_upvalue
find_upvalue-get_elem? [] i k u h = absurd (ground arith)
find_upvalue-get_elem? (v ∷ vs) i k u h = elim (Bool-cases (same_upvalue v u)) [
  | inl s ↦
      (let e : i ≡ k = ground (arith, rw s at h) in
        let z : k - i ≡ 0 = omega arith in
        (omega arith, rw z (ap some (same_upvalue-Equal v u s)), omega arith))
  | inr s ↦
      (let (a, b, d) = find_upvalue-get_elem? vs (i + 1) k u (rw s at h) in
        (omega arith, (let z : k - i ≡ suc (k - (i + 1)) = omega arith in rw z b), omega arith))
]

length-capture : (ls : List Local) (slot : ℕ) → length (capture ls slot) ≡ length ls
unfolding capture
length-capture [] slot = refl
length-capture (l ∷ ls) slot = elim (Bool-cases (length ls == slot)) [
  | inl e ↦ rw e refl
  | inr e ↦ rw e (omega (arith, length-capture ls slot))
]

resolve_local-cons :
    (l : Local) (ms ls : List Local) (name : Bytes)
    → length ms ≡ length ls
    → resolve_local ms name ≡ resolve_local ls name
    → resolve_local (l ∷ ms) name ≡ resolve_local (l ∷ ls) name
unfolding resolve_local
resolve_local-cons l ms ls name n r = elim (Bool-cases (same_name l.name name)) [
  | inl e ↦ elim (Option-cases l.depth) [
    | inl d ↦ rw (e, d) refl
    | inr (k, d) ↦ rw (e, d) (ap some n)
  ]
  | inr e ↦ rw e r
]

resolve_local-capture :
    (ls : List Local) (slot : ℕ) (name : Bytes)
    → resolve_local (capture ls slot) name ≡ resolve_local ls name
unfolding capture resolve_local
resolve_local-capture [] slot name = refl
resolve_local-capture (l ∷ ls) slot name = elim (Bool-cases (length ls == slot)) [
  | inl e ↦ rw e refl
  | inr e ↦ rw e (
      resolve_local-cons l (capture ls slot) ls name (length-capture ls slot)
        (resolve_local-capture ls slot name))
]

resolve_local-Bound :
    (ls : List Local) (name : Bytes) (slot : ℕ)
    → resolve_local ls name ≡ some slot
    → slot < length ls
unfolding resolve_local
resolve_local-Bound [] name slot h = absurd (ground arith)
resolve_local-Bound (l ∷ ls) name slot h = elim (Bool-cases (same_name l.name name)) [
  | inl e ↦ elim (Option-cases l.depth) [
    | inl n ↦ absurd (ground (arith, rw (e, n) at h))
    | inr (d, n) ↦ ground (arith, rw (e, n) at h)
  ]
  | inr e ↦ (let ih = resolve_local-Bound ls name slot (rw e at h) in omega arith)
]

is_captured-capture :
    (ls : List Local) (slot : ℕ) → slot < length ls → is_captured (capture ls slot) slot ≡ true
unfolding is_captured capture
is_captured-capture [] slot h = absurd (omega arith)
is_captured-capture (l ∷ ls) slot h = elim (Bool-cases (length ls == slot)) [
  | inl e ↦ rw (e, is_captured) (rw e refl)
  | inr e ↦ rw (e, length-capture ls slot) (rw e (is_captured-capture ls slot (ground arith)))
]

module _ {ℓ} {V : Type ℓ} (name : Bytes) where
  -- What `resolve_upvalue` returns: a reference that fits a byte, or nothing.
  unfoldable Resolved : List (Compiler V) × Option ℕ → Type ℓ
  Resolved r = (i : ℕ) → r.1 ≡ some i → Refers name r.0 i × (i < 256)

  Resolved-some : (s : List (Compiler V)) (k : ℕ) → Refers name s k → k < 256 → Resolved (s, some k)
  unfolding Resolved
  Resolved-some s k r b i h =
      (let e : k ≡ i = ground (arith, h) in subst (λ (t : ℕ). Refers name s t × (t < 256)) e (r, b))

  Resolved-none : (s : List (Compiler V)) → Resolved (s, none)
  unfolding Resolved
  Resolved-none s i h = absurd (ground (arith, h))

  refers :
      (s : List (Compiler V) × Option ℕ) (i : ℕ)
      → s.1 ≡ some i
      → Resolved s
      → Refers name s.0 i × (i < 256)
  unfolding Resolved
  refers s i h r = r i h

  -- The upvalue that is added stands at the number returned.
  added-Resolved :
      (c : Compiler V) (outer : List (Compiler V)) (u : UpvalueDesc)
      → length c.upvalues ≤ 256
      → ((c' : Compiler V) (i : ℕ) → get_elem? c'.upvalues i ≡ some u → Refers name (c' ∷ outer) i)
      → Resolved (added c outer u)
  unfolding add_upvalue added
  added-Resolved c outer u small refer = elim (Option-cases (find_upvalue c.upvalues 0 u)) [
    | inr (k, e) ↦
        (let (low, at, high) = find_upvalue-get_elem? c.upvalues 0 k u e in
          let zero_off : k - 0 ≡ k = omega arith in
          let same : added c outer u ≡ (c ∷ outer, some k) = ground arith in
          subst Resolved (sym same)
            (Resolved-some (c ∷ outer) k (refer c k (rw zero_off at at)) (omega arith)))
    | inl e ↦ elim (Bool-cases (leb 256 (length c.upvalues))) [
      | inl f ↦
          (let same : added c outer u ≡ (c ∷ outer, none) = ground arith in
            subst Resolved (sym same) (Resolved-none (c ∷ outer)))
      | inr f ↦
          (let c' = record c { upvalues = c.upvalues ++ (u ∷ []) } in
            let same : added c outer u ≡ (c' ∷ outer, some (length c.upvalues)) = ground arith in
            subst Resolved (sym same) (
              Resolved-some _ (length c.upvalues)
                (refer _ (length c.upvalues) (get_elem?-length c.upvalues u [])) (ground arith)))
    ]
  ]

  -- Every compiler of the chain is within its arrays.
  abbrev pub in_arrays : Compiler V → Bool
  in_arrays c = leb (length c.locals) 256 && leb (length c.upvalues) 256

  resolve_in-Resolved :
      (c e : Compiler V) (es : List (Compiler V)) (found : List (Compiler V) × Option ℕ)
      → length c.upvalues ≤ 256
      → length e.locals ≤ 256
      → Resolved found
      → Resolved (resolve_in name c e es found)
  unfolding resolve_in
  resolve_in-Resolved c e es found small few r = elim (Option-cases (resolve_local e.locals name)) [
    | inr (slot, s) ↦
        (let bound = resolve_local-Bound e.locals name slot s in
          let byte : slot % 256 ≡ slot = omega arith in
          let e' = record e { locals = capture e.locals slot } in
          let same : resolve_in name c e es found
              ≡ added c (e' ∷ es) (record { is_local = true; index = slot }) =
            (let raw_step : resolve_in name c e es found
                  ≡ added c (e' ∷ es) (record { is_local = true; index = slot % 256 }) =
                ground arith in
              raw_step)
            ∙ (ap (λ (t : ℕ). added c (e' ∷ es) (record { is_local = true; index = t })) byte) in
          subst Resolved (sym same) (
            added-Resolved c (e' ∷ es) _ small (λ c' i g.
              to_local c' e' es i slot g (resolve_local-capture e.locals slot name ∙ s)
                (is_captured-capture e.locals slot bound))))
    | inl s ↦ elim (Option-cases found.1) [
      | inl n ↦
          (let same : resolve_in name c e es found ≡ (c ∷ found.0, none) = ground arith in
            subst Resolved (sym same) (Resolved-none (c ∷ found.0)))
      | inr (i, n) ↦
          (let (ref, bound) = refers found i n r in
            let byte : i % 256 ≡ i = omega arith in
            let same : resolve_in name c e es found
                ≡ added c found.0 (record { is_local = false; index = i }) =
              (let raw_step : resolve_in name c e es found
                    ≡ added c found.0 (record { is_local = false; index = i % 256 }) =
                  ground arith in
                raw_step)
              ∙ (ap (λ (t : ℕ). added c found.0 (record { is_local = false; index = t })) byte) in
            subst Resolved (sym same)
              (added-Resolved c found.0 _ small (λ c' k g. to_upvalue c' found.0 k i g ref)))
    ]
  ]

  resolve_upvalue-Resolved :
      (cs : List (Compiler V)) → all in_arrays cs ≡ true → Resolved (resolve_upvalue cs name)
  unfolding resolve_upvalue
  resolve_upvalue-Resolved [] h = Resolved-none []
  resolve_upvalue-Resolved (c ∷ []) h = Resolved-none (c ∷ [])
  resolve_upvalue-Resolved (c ∷ e ∷ es) h =
      resolve_in-Resolved c e es (resolve_upvalue (e ∷ es) name) (ground arith) (ground arith)
        (resolve_upvalue-Resolved (e ∷ es) (ground arith))

  -- A name that is looked up as a captured variable, in a chain of compilers with at most 256 locals
  -- and 256 upvalues each: an upvalue that is returned leads, through upvalues of the compilers around, to an
  -- initialized local of that name which is marked as captured.
  pub resolve_upvalue-Refers :
      (cs : List (Compiler V)) (i : ℕ)
      → all in_arrays cs ≡ true
      → (resolve_upvalue cs name).1 ≡ some i
      → Refers name (resolve_upvalue cs name).0 i
  resolve_upvalue-Refers cs i h e =
      (refers (resolve_upvalue cs name) i e (resolve_upvalue-Resolved cs h)).0
