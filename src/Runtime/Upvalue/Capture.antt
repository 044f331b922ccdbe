-- ===== src/Runtime/Upvalue/Capture.antt =====
-- src/runtime/ms_upvalue.c, `msCaptureUpvalue`.
use mathlib.Core.Path.{subst}
use mslang_c.Base.{
  ℕ, ◌+◌, ◌<◌, ◌≡◌, inl, inr, ◌∙◌, sym, ap, refl, Bool, true, false, ◌||◌, List, [], ◌∷◌, ◌++◌, ltb,
  ◌==◌, length, length-append, get_or-append, get_or-length, arith, Bool-cases,
}
use mslang_c.Runtime.Table.Probe.{order_cases}
use mslang_c.Runtime.Upvalue.{
  on_stack, Upvalue, Thread, upvalue_at, slot_of, closed_nil, new_upvalue, capture_in, captured,
  capture_upvalue,
}
use mslang_c.Runtime.Upvalue.Chain.{IsChain, chain_end, chain_link, IsOpen, IsChain-agree, elem}

or_swap : (a b c : Bool) → (a || (b || c)) ≡ (b || (a || c))
or_swap true true c = refl
or_swap true false c = refl
or_swap false b c = refl

or_twice : (a b : Bool) → (a || b) ≡ (a || (a || b))
or_twice true b = refl
or_twice false b = refl

module _ {ℓ} {V : Type ℓ} (nil : V) (us : List (Upvalue V)) (location : ℕ) where
  abbrev grown : List (Upvalue V)
  grown = us ++ (new_upvalue nil location ∷ [])

  length-grown : length grown ≡ length us + 1
  length-grown = length-append us (new_upvalue nil location ∷ [])

  grown-old : (id : ℕ) → id < length us → upvalue_at nil grown id ≡ upvalue_at nil us id
  grown-old id h = get_or-append us (new_upvalue nil location ∷ []) id (closed_nil nil) h

  module _ (ws : List (Upvalue V)) (id : ℕ) (ids : List ℕ) where
    capture_in-past :
        location < slot_of nil (upvalue_at nil ws id).location
        → capture_in nil ws location (id ∷ ids)
          ≡ (id ∷ (capture_in nil ws location ids).0, (capture_in nil ws location ids).1)
    unfolding capture_in
    capture_in-past h =
        (let t : ltb location (slot_of nil (upvalue_at nil ws id).location) ≡ true = ground arith in
          rw t refl)

    capture_in-here :
        slot_of nil (upvalue_at nil ws id).location ≡ location
        → capture_in nil ws location (id ∷ ids) ≡ (id ∷ ids, id)
    unfolding capture_in
    capture_in-here h =
        let t : ltb location (slot_of nil (upvalue_at nil ws id).location) ≡ false = ground arith in
        let e : (slot_of nil (upvalue_at nil ws id).location == location) ≡ true = ground arith in
        rw (t, e) refl

    capture_in-before :
        slot_of nil (upvalue_at nil ws id).location < location
        → capture_in nil ws location (id ∷ ids) ≡ (length ws ∷ id ∷ ids, length ws)
    unfolding capture_in
    capture_in-before h =
        let t : ltb location (slot_of nil (upvalue_at nil ws id).location) ≡ false = ground arith in
        let e : (slot_of nil (upvalue_at nil ws id).location == location) ≡ false = ground arith in
        rw (t, e) refl

  -- The new chain has what the old one has, and the upvalue that is returned.
  capture_in-members :
      (ws : List (Upvalue V)) (ids : List ℕ) (i : ℕ)
      → elem i (capture_in nil ws location ids).0
        ≡ ((i == (capture_in nil ws location ids).1) || elem i ids)
  unfolding capture_in
  capture_in-members ws [] i = refl
  capture_in-members ws (id ∷ ids) i =
      let rest = capture_in-members ws ids i in
      elim (Bool-cases (ltb location (slot_of nil (upvalue_at nil ws id).location))) [
        | inl l ↦ rw l (
            ap (λ (b : Bool). (i == id) || b) rest
            ∙ or_swap (i == id) (i == (capture_in nil ws location ids).1) (elem i ids))
        | inr l ↦ elim (Bool-cases (slot_of nil (upvalue_at nil ws id).location == location)) [
          | inl e ↦ rw (l, e) (or_twice (i == id) (elem i ids))
          | inr e ↦ rw (l, e) refl
        ]
      ]

  -- The upvalue of the slot is in the chain, or a new one is put there in order.
  data Captured (top : ℕ) (ids : List ℕ) (result : List ℕ × ℕ) : Type ℓ where
    reused :
        (result.0 ≡ ids)
        → result.1 < length us
        → (upvalue_at nil us result.1).location ≡ on_stack location
        → Captured top ids result
    opened :
        (result.1 ≡ length us)
        → IsChain nil grown top result.0
        → capture_in nil grown location result.0 ≡ result
        → Captured top ids result

  slot_at_place :
      (ws : List (Upvalue V)) (id n : ℕ)
      → (upvalue_at nil ws id).location ≡ on_stack n
      → slot_of nil (upvalue_at nil ws id).location ≡ n
  slot_at_place ws id n e = ap (slot_of nil) e

  IsChain-grown : (top : ℕ) (ids : List ℕ) → IsChain nil us top ids → IsChain nil grown top ids
  IsChain-grown top ids c =
      IsChain-agree nil us grown top ids (omega (arith, length-grown))
        (λ id n h at below. ap (λ (u : Upvalue V). u.location) (grown-old id h) ∙ at) c

  grown-new : (upvalue_at nil grown (length us)).location ≡ on_stack location
  grown-new =
      ap (λ (u : Upvalue V). u.location)
        (get_or-length us (new_upvalue nil location) [] (closed_nil nil))

  Captured-opened :
      (top : ℕ) (ids : List ℕ)
      → location < top
      → IsChain nil grown location ids
      → Captured top ids (length us ∷ ids, length us)
  Captured-opened top ids b c =
      opened refl (chain_link location (omega (arith, length-grown)) grown-new b c)
        (capture_in-here grown (length us) ids (slot_at_place grown (length us) location grown-new))

  Captured-past :
      (top id n : ℕ) (ids : List ℕ) (result : List ℕ × ℕ)
      → id < length us
      → (upvalue_at nil us id).location ≡ on_stack n
      → n < top
      → location < n
      → Captured n ids result
      → Captured top (id ∷ ids) (id ∷ result.0, result.1)
  Captured-past top id n ids result inside at below before (reused p q r) =
      reused (ap (λ (l : List ℕ). id ∷ l) p) q r
  Captured-past top id n ids result inside at below before (opened p c i) =
      let old = ap (λ (u : Upvalue V). u.location) (grown-old id inside) ∙ at in
      opened p (chain_link n (omega (arith, length-grown)) old below c) (
        capture_in-past grown id result.0 (omega (arith, slot_at_place grown id n old))
        ∙ ap (λ (r : List ℕ × ℕ). (id ∷ r.0, r.1)) i)

  capture_in-Captured :
      (top : ℕ) (ids : List ℕ)
      → IsChain nil us top ids
      → location < top
      → Captured top ids (capture_in nil us location ids)
  unfolding capture_in
  capture_in-Captured top [] c b = Captured-opened top [] b chain_end
  capture_in-Captured top (id ∷ ids) (chain_link n inside at below rest) b =
      let here = slot_at_place us id n at in
      elim (order_cases location n) [
        | inl l ↦ subst (Captured top (id ∷ ids)) (sym (capture_in-past us id ids (omega arith))) (
            Captured-past top id n ids (capture_in nil us location ids) inside at below l
              (capture_in-Captured n ids rest l))
        | inr (inl e) ↦
            subst (Captured top (id ∷ ids)) (sym (capture_in-here us id ids (omega arith)))
              (reused refl inside (at ∙ ap on_stack (sym e)))
        | inr (inr g) ↦
            subst (Captured top (id ∷ ids)) (sym (capture_in-before us id ids (omega arith))) (
              Captured-opened top (id ∷ ids) b
                (IsChain-grown location (id ∷ ids) (chain_link n inside at g rest)))
      ]

module _ {ℓ} {V : Type ℓ} (nil : V) (t : Thread V) (location : ℕ) where
  -- What a capture makes of a thread.
  pub record Captures (r : Thread V × ℕ) : Type ℓ where
    pub is_open : IsOpen nil r.0
    pub members : (i : ℕ) → elem i r.0.open_upvalues ≡ ((i == r.1) || elem i t.open_upvalues)
    pub points : (upvalue_at nil r.0.upvalues r.1).location ≡ on_stack location
    pub again : capture_upvalue nil r.0 location ≡ r
    pub stack_kept : r.0.stack ≡ t.stack
    pub others_kept :
        (id : ℕ)
        → id < length t.upvalues
        → upvalue_at nil r.0.upvalues id ≡ upvalue_at nil t.upvalues id

  abbrev reusing : List ℕ → ℕ → Thread V × ℕ
  reusing ids id = (record { stack = t.stack; upvalues = t.upvalues; open_upvalues = ids }, id)

  abbrev opening : List ℕ → ℕ → Thread V × ℕ
  opening ids id = (
    record { stack = t.stack; upvalues = grown nil t.upvalues location; open_upvalues = ids },
    id,
  )

  captured-reusing :
      (ids : List ℕ) (id : ℕ)
      → id < length t.upvalues
      → captured nil t location (ids, id) ≡ reusing ids id
  captured-reusing ids id h =
      (let f : (id == length t.upvalues) ≡ false = ground arith in rw (f, captured) refl)

  captured-opening :
      (ids : List ℕ) (id : ℕ)
      → id ≡ length t.upvalues
      → captured nil t location (ids, id) ≡ opening ids id
  captured-opening ids id h =
      (let f : (id == length t.upvalues) ≡ true = ground arith in rw (f, captured) refl)

module _ {ℓ} {V : Type ℓ} (nil : V) (t : Thread V) (location : ℕ) where
  members_of :
      (ids : List ℕ) (id : ℕ)
      → capture_in nil t.upvalues location t.open_upvalues ≡ (ids, id)
      → (i : ℕ) → elem i ids ≡ ((i == id) || elem i t.open_upvalues)
  members_of ids id e i =
      subst (λ (r : List ℕ × ℕ). elem i r.0 ≡ ((i == r.1) || elem i t.open_upvalues)) e
        (capture_in-members nil t.upvalues location t.upvalues t.open_upvalues i)

  Captured-Captures :
      (ids : List ℕ) (id : ℕ)
      → IsOpen nil t
      → capture_in nil t.upvalues location t.open_upvalues ≡ (ids, id)
      → Captured nil t.upvalues location (length t.stack) t.open_upvalues (ids, id)
      → Captures nil t location (captured nil t location (ids, id))
  unfolding capture_upvalue
  Captured-Captures ids id c e (reused p q r) =
      subst (Captures nil t location) (sym (captured-reusing nil t location ids id q)) (record {
        is_open = subst (IsChain nil t.upvalues (length t.stack)) (sym p) c;
        members = members_of ids id e;
        points = r;
        again =
            ap
              (λ (l : List ℕ).
                captured nil (reusing nil t location ids id).0 location
                  (capture_in nil t.upvalues location l))
              p
            ∙ ap (captured nil (reusing nil t location ids id).0 location) e
            ∙ captured-reusing nil (reusing nil t location ids id).0 location ids id q;
        stack_kept = refl;
        others_kept = λ i h. refl;
      })
  Captured-Captures ids id c e (opened p d i) =
      let more = length-grown nil t.upvalues location in
      subst (Captures nil t location) (sym (captured-opening nil t location ids id p)) (record {
        is_open = d;
        members = members_of ids id e;
        points =
            ap (λ (n : ℕ). (upvalue_at nil (grown nil t.upvalues location) n).location) p
            ∙ grown-new nil t.upvalues location;
        again =
            ap (captured nil (opening nil t location ids id).0 location) i
            ∙ captured-reusing nil (opening nil t location ids id).0 location ids id (omega arith);
        stack_kept = refl;
        others_kept = grown-old nil t.upvalues location;
      })

  -- `msCaptureUpvalue` of a slot of the stack, in a thread whose open upvalues are in order of their
  -- slots, the highest first. It returns an upvalue that points to the slot. The open upvalues are
  -- then the ones of before and that one, in the same order; the stack and the other upvalues are
  -- kept. When asked again for the slot it returns the same upvalue, changing nothing.
  pub capture_upvalue-Captures :
      IsOpen nil t
      → location < length t.stack
      → Captures nil t location (capture_upvalue nil t location)
  unfolding capture_upvalue
  capture_upvalue-Captures c b =
      Captured-Captures (capture_in nil t.upvalues location t.open_upvalues).0
        (capture_in nil t.upvalues location t.open_upvalues).1 c refl
        (capture_in-Captured nil t.upvalues location (length t.stack) t.open_upvalues c b)
