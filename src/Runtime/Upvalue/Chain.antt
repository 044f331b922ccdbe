-- ===== src/Runtime/Upvalue/Chain.antt =====
-- src/runtime/ms_upvalue.c: the chain of open upvalues.
use mslang_c.Base.{
  ℕ, ◌≤◌, ◌<◌, ◌≡◌, ap, refl, inl, inr, Bool, false, ◌||◌, ◌&&◌, List, [], ◌∷◌, leb, ◌==◌, length,
  arith, Bool-cases,
}
use mslang_c.Runtime.Upvalue.{on_stack, Upvalue, Thread, upvalue_at, slot_of}

-- Whether an upvalue is in a chain.
abbrev pub elem : ℕ → List ℕ → Bool
elem i [] = false
elem i (id ∷ ids) = (i == id) || elem i ids

module _ {ℓ} {V : Type ℓ} (nil : V) where
  -- The upvalues of the list are open, at slots below `top` that go down.
  pub data IsChain (us : List (Upvalue V)) : ℕ → List ℕ → Type ℓ where
    chain_end : {top : ℕ} → IsChain us top []
    chain_link :
        {top id : ℕ} {ids : List ℕ} (location : ℕ)
        → id < length us
        → (upvalue_at nil us id).location ≡ on_stack location
        → location < top
        → IsChain us location ids
        → IsChain us top (id ∷ ids)

  -- The slots of the stack.
  abbrev pub IsOpen : Thread V → Type ℓ
  IsOpen t = IsChain t.upvalues (length t.stack) t.open_upvalues

  pub on_stack_injective : (m n : ℕ) → on_stack m ≡ on_stack n → m ≡ n
  on_stack_injective m n e = ap (slot_of nil) e

  -- Other upvalues may change what is not in the chain.
  pub IsChain-agree :
      (us ws : List (Upvalue V)) (top : ℕ) (ids : List ℕ)
      → length us ≤ length ws
      → ((id location : ℕ)
          → id < length us
          → (upvalue_at nil us id).location ≡ on_stack location
          → location < top
          → (upvalue_at nil ws id).location ≡ on_stack location)
      → IsChain us top ids
      → IsChain ws top ids
  IsChain-agree us ws top [] l same c = chain_end
  IsChain-agree us ws top (id ∷ ids) l same (chain_link location inside at below rest) =
      chain_link location (omega arith) (same id location inside at below) below
        (IsChain-agree us ws location ids l (λ i n h a b. same i n h a (omega arith)) rest)

  -- No upvalue of the chain is at a slot from `top` on.
  pub IsChain-under :
      (us : List (Upvalue V)) (top : ℕ) (ids : List ℕ)
      → IsChain us top ids
      → (i : ℕ) → (elem i ids && leb top (slot_of nil (upvalue_at nil us i).location)) ≡ false
  IsChain-under us top [] c i = refl
  IsChain-under us top (id ∷ ids) (chain_link location inside at below rest) i =
      elim (Bool-cases (i == id)) [
        | inl e ↦
            (let same : i ≡ id = ground arith in
              let there = ap (λ (j : ℕ). slot_of nil (upvalue_at nil us j).location) same in
              let place = ap (slot_of nil) at in rw e (ground arith))
        | inr e ↦ (let under = IsChain-under us location ids rest i in rw e (ground arith))
      ]
