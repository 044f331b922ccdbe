-- ===== src/Runtime/Upvalue/Close.antt =====
-- src/runtime/ms_upvalue.c, `msCloseUpvalues`.
use mathlib.Core.Path.{subst}
use mslang_c.Base.{
  ℕ, ◌≤◌, ◌<◌, ◌≡◌, ◌≢◌, inl, inr, ◌∙◌, sym, ap, refl, Bool, true, false, not, ◌&&◌, List, [], ◌∷◌,
  leb, ◌==◌, if◌then◌else◌, get_or, length, length-set, get_or-set, get_or-set_other, arith,
  Bool-cases,
}
use mslang_c.Runtime.Upvalue.{
  Place, own, on_stack, Upvalue, Thread, upvalue_at, closed_nil, slot_of, value_at, close_one,
  close_in, close_upvalues,
}
use mslang_c.Runtime.Upvalue.Chain.{
  IsChain, chain_end, chain_link, IsOpen, IsChain-agree, IsChain-under, elem, on_stack_injective,
}

module _ {ℓ} {V : Type ℓ} (nil : V) (stack : List V) where
  -- The value that is read through an upvalue.
  abbrev pub read_in : List (Upvalue V) → ℕ → V
  read_in us id = value_at nil stack (upvalue_at nil us id) (upvalue_at nil us id).location

  -- Whether an upvalue is in the chain, at the slot or above.
  abbrev pub reached : ℕ → List ℕ → List (Upvalue V) → ℕ → Bool
  reached slot ids us id = elem id ids && leb slot (slot_of nil (upvalue_at nil us id).location)

  -- An open upvalue closed: it holds the value of its slot of the stack.
  abbrev pub closed_over : List (Upvalue V) → ℕ → Upvalue V
  closed_over us id = record {
    location = own;
    closed_val = get_or stack (slot_of nil (upvalue_at nil us id).location) nil;
  }

  -- An upvalue after the loop over a chain from a slot on.
  abbrev pub after_close : ℕ → List ℕ → List (Upvalue V) → ℕ → Upvalue V
  after_close slot ids us id =
      if reached slot ids us id then closed_over us id else upvalue_at nil us id

  module _ (us : List (Upvalue V)) (id : ℕ) (inside : id < length us) where
    close_one-other :
        (other : ℕ)
        → id ≢ other
        → upvalue_at nil (close_one nil stack us id) other ≡ upvalue_at nil us other
    close_one-other other n = get_or-set_other us id other _ (closed_nil nil) n

    close_one-read : (other : ℕ) → read_in (close_one nil stack us id) other ≡ read_in us other
    close_one-read other = elim (Bool-cases (id == other)) [
      | inl e ↦
          (let same : id ≡ other = ground arith in
            let here =
              ap (λ (u : Upvalue V). value_at nil stack u u.location)
                (get_or-set us id _ (closed_nil nil) inside) in
            subst (λ (n : ℕ). read_in (close_one nil stack us id) n ≡ read_in us n) same here)
      | inr e ↦
          ap (λ (u : Upvalue V). value_at nil stack u u.location)
            (close_one-other other (ground arith))
    ]

    -- The rest of the chain is below the upvalue that is closed.
    close_one-IsChain :
        (location : ℕ) (ids : List ℕ)
        → (upvalue_at nil us id).location ≡ on_stack location
        → IsChain nil us location ids
        → IsChain nil (close_one nil stack us id) location ids
    close_one-IsChain location ids at c =
        IsChain-agree nil us (close_one nil stack us id) location ids
          (omega (arith, length-set us id _))
          (λ i n h there below.
            ap (λ (u : Upvalue V). u.location)
              (close_one-other i (λ same. lower n below (
                on_stack_injective nil location n
                  (sym at ∙ ap (λ (j : ℕ). (upvalue_at nil us j).location) same ∙ there))))
            ∙ there)
          c
      where
        lower : (n : ℕ) → n < location → location ≢ n
        lower n h e = omega arith

  -- What the loop leaves: a chain below the slot, and the values.
  record ClosedTo (slot : ℕ) (ids : List ℕ) (us : List (Upvalue V)) (r : List ℕ × List (Upvalue V))
      : Type ℓ where
    pub below : IsChain nil r.1 slot r.0
    pub values : (id : ℕ) → read_in r.1 id ≡ read_in us id
    pub each : (id : ℕ) → upvalue_at nil r.1 id ≡ after_close slot ids us id
    pub left : (id : ℕ) → elem id r.0 ≡ (elem id ids && not (reached slot ids us id))

  and_not : (a b : Bool) → (a && b) ≡ false → a ≡ (a && not (a && b))
  and_not true true h = absurd (ground arith)
  and_not true false h = refl
  and_not false b h = refl

  after_close-none :
      (slot : ℕ) (ids : List ℕ) (us : List (Upvalue V)) (id : ℕ)
      → reached slot ids us id ≡ false
      → after_close slot ids us id ≡ upvalue_at nil us id
  after_close-none slot ids us id h = rw (h, after_close) refl

  after_close-reached :
      (slot : ℕ) (ids : List ℕ) (us : List (Upvalue V)) (id : ℕ)
      → reached slot ids us id ≡ true
      → after_close slot ids us id ≡ closed_over us id
  after_close-reached slot ids us id h = rw (h, after_close) refl

  -- The upvalue in front of a chain is not in the rest.
  not_in_rest :
      (us : List (Upvalue V)) (n id : ℕ) (ids : List ℕ)
      → (upvalue_at nil us id).location ≡ on_stack n
      → IsChain nil us n ids
      → elem id ids ≡ false
  not_in_rest us n id ids at c =
      let under = IsChain-under nil us n ids c id in let place = ap (slot_of nil) at in ground arith

  module _ (slot n id : ℕ) (ids : List ℕ) (us : List (Upvalue V)) (inside : id < length us)
      (at : (upvalue_at nil us id).location ≡ on_stack n) (rest : IsChain nil us n ids)
      (l : slot ≤ n) where
    abbrev closed_here : List (Upvalue V)
    closed_here = close_one nil stack us id

    not_in : elem id ids ≡ false
    not_in = not_in_rest us n id ids at rest

    first_reached : reached slot (id ∷ ids) us id ≡ true
    first_reached = (let place = ap (slot_of nil) at in ground arith)

    not_again : reached slot ids closed_here id ≡ false
    not_again = rw not_in refl

    first_closed : upvalue_at nil closed_here id ≡ closed_over us id
    first_closed =
        get_or-set us id _ (closed_nil nil) inside
        ∙ ap
            (λ (p : Place). record {
              location = own;
              closed_val = value_at nil stack (upvalue_at nil us id) p;
            })
            at
        ∙ ap (λ (s : ℕ). record { location = own; closed_val = get_or stack s nil })
            (sym (ap (slot_of nil) at))

    -- The loop's first round and the rest of the loop.
    after_close-first :
        (i : ℕ) → after_close slot ids closed_here i ≡ after_close slot (id ∷ ids) us i
    after_close-first i = elim (Bool-cases (i == id)) [
      | inl e ↦
          (let same : id ≡ i = ground arith in
            subst (λ (j : ℕ). after_close slot ids closed_here j ≡ after_close slot (id ∷ ids) us j)
              same first)
      | inr e ↦ (let other = close_one-other us id inside i (ground arith) in rw (e, other) refl)
    ]
      where
        first : after_close slot ids closed_here id ≡ after_close slot (id ∷ ids) us id
        first =
            after_close-none slot ids closed_here id not_again
            ∙ first_closed
            ∙ sym (after_close-reached slot (id ∷ ids) us id first_reached)

    left-first :
        (i : ℕ)
        → (elem i ids && not (reached slot ids closed_here i))
          ≡ (elem i (id ∷ ids) && not (reached slot (id ∷ ids) us i))
    left-first i = elim (Bool-cases (i == id)) [
      | inl e ↦
          (let same : id ≡ i = ground arith in
            subst
              (λ (j : ℕ).
                (elem j ids && not (reached slot ids closed_here j))
                ≡ (elem j (id ∷ ids) && not (reached slot (id ∷ ids) us j)))
              same first)
      | inr e ↦ (let other = close_one-other us id inside i (ground arith) in rw (e, other) refl)
    ]
      where
        first :
            (elem id ids && not (reached slot ids closed_here id))
            ≡ (elem id (id ∷ ids) && not (reached slot (id ∷ ids) us id))
        first = ground (arith, not_in, first_reached)

  close_in-on :
      (slot id n : ℕ) (ids : List ℕ) (us : List (Upvalue V))
      → (upvalue_at nil us id).location ≡ on_stack n
      → slot ≤ n
      → close_in nil stack slot (id ∷ ids) us
        ≡ close_in nil stack slot ids (close_one nil stack us id)
  unfolding close_in
  close_in-on slot id n ids us at h =
      let place = ap (slot_of nil) at in
      let t : leb slot (slot_of nil (upvalue_at nil us id).location) ≡ true = ground arith in
      rw t refl

  close_in-stop :
      (slot id n : ℕ) (ids : List ℕ) (us : List (Upvalue V))
      → (upvalue_at nil us id).location ≡ on_stack n
      → n < slot
      → close_in nil stack slot (id ∷ ids) us ≡ (id ∷ ids, us)
  unfolding close_in
  close_in-stop slot id n ids us at h =
      let place = ap (slot_of nil) at in
      let t : leb slot (slot_of nil (upvalue_at nil us id).location) ≡ false = ground arith in
      rw t refl

  close_in-ClosedTo :
      (slot top : ℕ) (ids : List ℕ) (us : List (Upvalue V))
      → IsChain nil us top ids
      → ClosedTo slot ids us (close_in nil stack slot ids us)
  unfolding close_in
  close_in-ClosedTo slot top [] us c = record {
    below = chain_end;
    values = λ id. refl;
    each = λ id. refl;
    left = λ id. refl;
  }
  close_in-ClosedTo slot top (id ∷ ids) us (chain_link n inside at under rest) =
      elim (Bool-cases (leb slot n)) [
        | inl t ↦
            (let l : slot ≤ n = ground arith in
              let r =
                close_in-ClosedTo slot n ids (close_one nil stack us id)
                  (close_one-IsChain us id inside n ids at rest) in
              subst (ClosedTo slot (id ∷ ids) us) (sym (close_in-on slot id n ids us at l))
                (record {
                  below = r.below;
                  values = λ i. r.values i ∙ close_one-read us id inside i;
                  each = λ i. r.each i ∙ after_close-first slot n id ids us inside at rest l i;
                  left = λ i. r.left i ∙ left-first slot n id ids us inside at rest l i;
                }))
        | inr g ↦
            (let lower : n < slot = ground arith in
              let under =
                IsChain-under nil us slot (id ∷ ids) (chain_link n inside at lower rest) in
              subst (ClosedTo slot (id ∷ ids) us) (sym (close_in-stop slot id n ids us at lower))
                (record {
                  below = chain_link n inside at lower rest;
                  values = λ i. refl;
                  each = λ i. sym (after_close-none slot (id ∷ ids) us i (under i));
                  left = λ i. and_not (elem i (id ∷ ids)) _ (under i);
                }))
      ]

module _ {ℓ} {V : Type ℓ} (nil : V) where
  -- The value that is read through an upvalue of a thread.
  abbrev pub read_upvalue : Thread V → ℕ → V
  read_upvalue t id = read_in nil t.stack t.upvalues id

  -- `msCloseUpvalues` from a slot on, in a thread whose open upvalues are in order of their slots, the
  -- highest first. Exactly the open upvalues at that slot or above are closed, each with the value of
  -- its slot of the stack; all others are kept as they are. The open upvalues that are left are the
  -- ones of before that are not closed, in the same order and at slots below. The stack is kept,
  -- and every upvalue has the value that it had.
  pub close_upvalues-values :
      (t : Thread V) (slot : ℕ)
      → IsOpen nil t
      → ((id : ℕ)
          → upvalue_at nil (close_upvalues nil t slot).upvalues id
            ≡ after_close nil t.stack slot t.open_upvalues t.upvalues id)
        × ((id : ℕ)
            → elem id (close_upvalues nil t slot).open_upvalues ≡ (
                elem id t.open_upvalues
                && not (reached nil t.stack slot t.open_upvalues t.upvalues id)))
        × IsChain nil
            (close_upvalues nil t slot).upvalues
            slot
            (close_upvalues nil t slot).open_upvalues
        × ((close_upvalues nil t slot).stack ≡ t.stack)
        × ((id : ℕ) → read_upvalue (close_upvalues nil t slot) id ≡ read_upvalue t id)
  unfolding close_upvalues
  close_upvalues-values t slot c =
      (let r = close_in-ClosedTo nil t.stack slot (length t.stack) t.open_upvalues t.upvalues c in
        (r.each, r.left, r.below, refl, r.values))
