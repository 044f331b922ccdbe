-- ===== src/Runtime/Upvalue.antt =====
-- src/runtime/ms_upvalue.c: the upvalues of a thread.
-- An upvalue is its index in `upvalues`, the objects there are, and the chain from `openUpvalues` on is
-- the list of the indices. A place on the stack is its index.
mod Tests
pub mod Capture
pub mod Chain
pub mod Close
use mslang_c.Base.{
  ℕ, zero, suc, ◌+◌, Bool, List, [], ◌∷◌, ◌++◌, ltb, leb, ◌==◌, if◌then◌else◌, length, get_or, set,
}

-- What an upvalue's `location` points to: a slot of the stack, or the upvalue's own `closedVal`.
pub data Place : Type 0 where
  on_stack : ℕ → Place
  own : Place

-- `MsUpvalue`
pub record Upvalue {ℓ} (V : Type ℓ) : Type ℓ where
  pub location : Place
  pub closed_val : V

-- The part of `MsThread` that upvalues use.
pub record Thread {ℓ} (V : Type ℓ) : Type ℓ where
  pub stack : List V
  pub upvalues : List (Upvalue V)
  pub open_upvalues : List ℕ

module _ {ℓ} {V : Type ℓ} (nil : V) where
  abbrev pub closed_nil : Upvalue V
  closed_nil = record { location = own; closed_val = nil }

  abbrev pub upvalue_at : List (Upvalue V) → ℕ → Upvalue V
  upvalue_at us id = get_or us id closed_nil

  -- The stack slot of a place. What is in the chain is on the stack.
  abbrev pub slot_of : Place → ℕ
  slot_of (on_stack n) = n
  slot_of own = 0

  -- The upvalue that `msCaptureUpvalue` links in.
  abbrev pub new_upvalue : ℕ → Upvalue V
  new_upvalue location = record { location = on_stack location; closed_val = nil }

  -- `msCaptureUpvalue`: the loop, with the new chain and the upvalue found or made.
  unfoldable pub capture_in : List (Upvalue V) → ℕ → List ℕ → List ℕ × ℕ
  capture_in us location [] = (length us ∷ [], length us)
  capture_in us location (id ∷ ids) =
      let rest = capture_in us location ids in
      if ltb location (slot_of (upvalue_at us id).location)
      then (id ∷ rest.0, rest.1)
      else if slot_of (upvalue_at us id).location == location
      then (id ∷ ids, id)
      else (length us ∷ id ∷ ids, length us)

  abbrev pub captured : Thread V → ℕ → List ℕ × ℕ → Thread V × ℕ
  captured t location (ids, id) = (
    record {
      stack = t.stack;
      upvalues =
          if id == length t.upvalues then t.upvalues ++ (new_upvalue location ∷ []) else t.upvalues;
      open_upvalues = ids;
    },
    id,
  )

  -- `msCaptureUpvalue`
  unfoldable pub capture_upvalue : Thread V → ℕ → Thread V × ℕ
  capture_upvalue t location = captured t location (capture_in t.upvalues location t.open_upvalues)

  -- The value that an upvalue's `location` points to.
  abbrev pub value_at : List V → Upvalue V → Place → V
  value_at stack u (on_stack n) = get_or stack n nil
  value_at stack u own = u.closed_val

  -- The upvalue with its value, closed.
  abbrev pub close_one : List V → List (Upvalue V) → ℕ → List (Upvalue V)
  close_one stack us id = set us id (record {
    location = own;
    closed_val = value_at stack (upvalue_at us id) (upvalue_at us id).location;
  })

  -- `msCloseUpvalues`: the loop over the chain.
  unfoldable pub close_in : List V → ℕ → List ℕ → List (Upvalue V) → List ℕ × List (Upvalue V)
  close_in stack slot [] us = ([], us)
  close_in stack slot (id ∷ ids) us =
      let rest = close_in stack slot ids (close_one stack us id) in
      if leb slot (slot_of (upvalue_at us id).location) then rest else (id ∷ ids, us)

  abbrev pub closed : Thread V → List ℕ × List (Upvalue V) → Thread V
  closed t (ids, us) = record { stack = t.stack; upvalues = us; open_upvalues = ids }

  -- `msCloseUpvalues`
  unfoldable pub close_upvalues : Thread V → ℕ → Thread V
  close_upvalues t slot = closed t (close_in t.stack slot t.open_upvalues t.upvalues)
