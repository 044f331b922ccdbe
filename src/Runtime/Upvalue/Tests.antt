-- ===== src/Runtime/Upvalue/Tests.antt =====
-- Runs of the upvalues of a small thread.
use mslang_c.Base.{ℕ, ◌≡◌, refl, not, ◌&&◌, [], ◌∷◌, arith}
use mslang_c.Runtime.Upvalue.{Thread, on_stack, upvalue_at, capture_upvalue, close_upvalues}
use mslang_c.Runtime.Upvalue.Capture.{Captures, capture_upvalue-Captures}
use mslang_c.Runtime.Upvalue.Chain.{IsChain, chain_end, chain_link, IsOpen, elem}
use mslang_c.Runtime.Upvalue.Close.{read_upvalue, after_close, reached, close_upvalues-values}

-- The upvalues of the slots 0 and 2 are open.
abbrev thread : Thread ℕ
thread = record {
  stack = 10 ∷ 11 ∷ 12 ∷ [];
  upvalues =
      record { location = on_stack 0; closed_val = 0 }
      ∷ record { location = on_stack 2; closed_val = 0 }
      ∷ [];
  open_upvalues = 1 ∷ 0 ∷ [];
}

thread-IsOpen : IsOpen 0 thread
thread-IsOpen =
    chain_link 2 (omega arith) refl (omega arith)
      (chain_link 0 (omega arith) refl (omega arith) chain_end)

-- Between the two.
capture_upvalue-Captures_example : Captures 0 thread 1 (capture_upvalue 0 thread 1)
capture_upvalue-Captures_example = capture_upvalue-Captures 0 thread 1 thread-IsOpen (omega arith)

close_upvalues-values_example :
    ((id : ℕ)
      → upvalue_at 0 (close_upvalues 0 thread 1).upvalues id
        ≡ after_close 0 (10 ∷ 11 ∷ 12 ∷ []) 1 (1 ∷ 0 ∷ []) thread.upvalues id)
    × ((id : ℕ)
        → elem id (close_upvalues 0 thread 1).open_upvalues ≡ (
            elem id (1 ∷ 0 ∷ [])
            && not (reached 0 (10 ∷ 11 ∷ 12 ∷ []) 1 (1 ∷ 0 ∷ []) thread.upvalues id)))
    × IsChain 0 (close_upvalues 0 thread 1).upvalues 1 (close_upvalues 0 thread 1).open_upvalues
    × ((close_upvalues 0 thread 1).stack ≡ 10 ∷ 11 ∷ 12 ∷ [])
    × ((id : ℕ) → read_upvalue 0 (close_upvalues 0 thread 1) id ≡ read_upvalue 0 thread id)
close_upvalues-values_example = close_upvalues-values 0 thread 1 thread-IsOpen
