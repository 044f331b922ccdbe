-- ===== src/Compiler/Scope/End.antt =====
-- src/compiler/ms_scope.c, `msScopeEnd`.
use mslang_c.Base.{
  ℕ, ◌-◌, ◌≡◌, ◌∙◌, sym, ap, refl, Bool, true, false, not, none, some, List, [], ◌∷◌, ◌++◌, Bytes,
  all, append_assoc, append_nil, ◌==◌, if◌then◌else◌, arith, Option-cases, inl, inr,
}
use mslang_c.Compiler.Chunk.{Chunk, chunk_emit, chunk_emit_op}
use mslang_c.Compiler.Opcode.{op_pop, op_close_upvalue, op_byte}
use mslang_c.Compiler.Scope.{Local, Compiler, end_locals, scope_end}

-- The local is initialized at this depth.
abbrev pub is_at : ℕ → Local → Bool
is_at depth l = elim l.depth [ none ↦ false | some d ↦ d == depth ]

-- The newest local, if there is one, is of another depth.
abbrev pub ends_scope : ℕ → List Local → Bool
ends_scope depth [] = true
ends_scope depth (l ∷ ls) = not (is_at depth l)

-- One instruction for each local: a captured one is moved to the heap, any other is popped.
abbrev pub drops : List Local → Bytes
drops [] = []
drops (l ∷ ls) = op_byte (if l.captured then op_close_upvalue else op_pop) ∷ drops ls

module _ {ℓ} {V : Type ℓ} where
  end_locals-stops :
      (depth : ℕ) (outer : List Local) (ck : Chunk V)
      → ends_scope depth outer ≡ true
      → end_locals depth outer ck ≡ (outer, ck)
  unfolding end_locals
  end_locals-stops depth [] ck h = refl
  end_locals-stops depth (l ∷ ls) ck h = elim (Option-cases l.depth) [
    | inl n ↦ ground arith
    | inr (d, n) ↦ (let other : (d == depth) ≡ false = ground (arith, rw n at h) in ground arith)
  ]

  end_locals-drop :
      (depth : ℕ) (l : Local) (ls : List Local) (ck : Chunk V)
      → is_at depth l ≡ true
      → end_locals depth (l ∷ ls) ck
        ≡ end_locals depth ls (chunk_emit_op ck (if l.captured then op_close_upvalue else op_pop) 0)
  unfolding end_locals
  end_locals-drop depth l ls ck h = elim (Option-cases l.depth) [
    | inl n ↦ absurd (ground arith)
    | inr (d, n) ↦ (let same : (d == depth) ≡ true = ground arith in ground arith)
  ]

  end_locals-append :
      (depth : ℕ) (inner outer : List Local) (ck : Chunk V)
      → all (is_at depth) inner ≡ true
      → ends_scope depth outer ≡ true
      → ((end_locals depth (inner ++ outer) ck).0 ≡ outer)
        × ((end_locals depth (inner ++ outer) ck).1.code ≡ ck.code ++ drops inner)
  unfolding chunk_emit
  end_locals-append depth [] outer ck h e = (
    ap (λ r. r.0) (end_locals-stops depth outer ck e),
    ap (λ r. r.1.code) (end_locals-stops depth outer ck e) ∙ sym (append_nil ck.code),
  )
  end_locals-append depth (l ∷ ls) outer ck h e =
      let op = if l.captured then op_close_upvalue else op_pop in
      let next = chunk_emit_op ck op 0 in
      let step : end_locals depth ((l ∷ ls) ++ outer) ck ≡ end_locals depth (ls ++ outer) next =
        end_locals-drop depth l (ls ++ outer) ck (ground arith) in
      let (a, b) = end_locals-append depth ls outer next (ground arith) e in
      (
        ap (λ r. r.0) step ∙ a,
        ap (λ r. r.1.code) step ∙ b ∙ append_assoc ck.code (op_byte op ∷ []) (drops ls),
      )

-- A scope whose locals `inner` are the newest and initialized, around which the next local is of
-- another depth: closing it leaves the locals `outer` and one scope less, and emits the instructions
-- that drop `inner`, the newest first, behind the code.
pub scope_end-Drops {ℓ} :
    {V : Type ℓ} (c : Compiler V) (inner outer : List Local)
    → c.locals ≡ inner ++ outer
    → all (is_at c.scope_depth) inner ≡ true
    → ends_scope c.scope_depth outer ≡ true
    → ((scope_end c).locals ≡ outer)
      × ((scope_end c).scope_depth ≡ c.scope_depth - 1)
      × ((scope_end c).chunk.code ≡ c.chunk.code ++ drops inner)
unfolding scope_end
scope_end-Drops c inner outer e h o =
    let (a, b) = end_locals-append c.scope_depth inner outer c.chunk h o in
    (
      ap (λ (l : List Local). (end_locals c.scope_depth l c.chunk).0) e ∙ a,
      refl,
      ap (λ (l : List Local). (end_locals c.scope_depth l c.chunk).1.code) e ∙ b,
    )
