-- ===== src/Compiler/Scope.antt =====
-- src/compiler/ms_scope.c and ms_scope.h: local variables, scopes and captured variables.
-- `locals` lists the locals in use, the newest first: the slot of a local is the number of locals
-- behind it. A depth of -1 is none. The chain `enclosing` is a list of compilers, the innermost
-- first. The messages on stderr, and the fields `result` and `currentLoop`, which these functions
-- only reset, are left out; `scopeDepth` is taken to be closed no more often than it is opened.
pub mod End
pub mod Locals
pub mod Upvalues
use mslang_c.Base.{
  ℕ, zero, suc, ◌+◌, ◌-◌, ◌%◌, Bool, true, false, ◌&&◌, ◌||◌, Option, none, some, List, [], ◌∷◌,
  ◌++◌, Bytes, leb, ltb, ◌==◌, if◌then◌else◌, length,
}
use mslang_c.Compiler.Chunk.{Chunk, chunk_emit_op}
use mslang_c.Compiler.Opcode.{op_pop, op_close_upvalue}

-- `MsLocal`
pub record Local : Type 0 where
  pub name : Bytes
  pub depth : Option ℕ
  pub captured : Bool
  pub is_const : Bool

-- `MsUpvalueDesc`
pub record UpvalueDesc : Type 0 where
  pub is_local : Bool
  pub index : ℕ

-- `MsCompiler`
pub record Compiler {ℓ} (V : Type ℓ) : Type ℓ where
  pub chunk : Chunk V
  pub locals : List Local
  pub scope_depth : ℕ
  pub upvalues : List UpvalueDesc
  pub is_function : Bool
  pub is_method : Bool

-- The test of two names' lengths and `memcmp`.
unfoldable pub same_name : Bytes → Bytes → Bool
same_name [] [] = true
same_name [] (b ∷ n) = false
same_name (a ∷ m) [] = false
same_name (a ∷ m) (b ∷ n) = a == b && same_name m n

-- The loop of `msScopeDeclareLocal`: whether the name is declared at this depth.
unfoldable pub is_declared : List Local → ℕ → Bytes → Bool
is_declared [] scope_depth name = false
is_declared (l ∷ ls) scope_depth name =
    let rest = is_declared ls scope_depth name in
    elim l.depth [
      | none ↦ same_name l.name name || rest
      | some d ↦ if ltb d scope_depth then false else same_name l.name name || rest
    ]

-- `msScopeResolveLocal`; none is -1, for a name that is not found or not yet initialized.
unfoldable pub resolve_local : List Local → Bytes → Option ℕ
resolve_local [] name = none
resolve_local (l ∷ ls) name =
    let rest = resolve_local ls name in
    if same_name l.name name then elim l.depth [ none ↦ none | some d ↦ some (length ls) ] else rest

-- `locals[slot].captured = true`
unfoldable pub capture : List Local → ℕ → List Local
capture [] slot = []
capture (l ∷ ls) slot =
    let rest = capture ls slot in
    if length ls == slot then record l { captured = true } ∷ ls else l ∷ rest

abbrev same_flag : Bool → Bool → Bool
same_flag true b = b
same_flag false true = false
same_flag false false = true

-- `upvalues[i].index == index && upvalues[i].isLocal == isLocal`
unfoldable pub same_upvalue : UpvalueDesc → UpvalueDesc → Bool
same_upvalue v u = v.index == u.index && same_flag v.is_local u.is_local

-- The loop of `msScopeAddUpvalue`, from the upvalue number `i`.
unfoldable pub find_upvalue : List UpvalueDesc → ℕ → UpvalueDesc → Option ℕ
find_upvalue [] i u = none
find_upvalue (v ∷ vs) i u =
    let rest = find_upvalue vs (i + 1) u in if same_upvalue v u then some i else rest

module _ {ℓ} {V : Type ℓ} where
  -- `msCompilerInit`
  abbrev pub compiler_init : Chunk V → Bool → Compiler V
  compiler_init chunk is_func = record {
    chunk = chunk;
    locals = [];
    scope_depth = 0;
    upvalues = [];
    is_function = is_func;
    is_method = false;
  }

  -- `msScopeBegin`
  abbrev pub scope_begin : Compiler V → Compiler V
  scope_begin c = record c { scope_depth = c.scope_depth + 1 }

  -- The loop of `msScopeEnd`.
  unfoldable pub end_locals : ℕ → List Local → Chunk V → List Local × Chunk V
  end_locals depth [] ck = ([], ck)
  end_locals depth (l ∷ ls) ck =
      let op = if l.captured then op_close_upvalue else op_pop in
      let popped = end_locals depth ls (chunk_emit_op ck op 0) in
      elim l.depth [ none ↦ (l ∷ ls, ck) | some d ↦ if d == depth then popped else (l ∷ ls, ck) ]

  -- `msScopeEnd`
  unfoldable pub scope_end : Compiler V → Compiler V
  scope_end c =
      let (locals, chunk) = end_locals c.scope_depth c.locals c.chunk in
      record c { locals = locals; chunk = chunk; scope_depth = c.scope_depth - 1 }

  -- `msScopeDeclareLocal`, with the slot; none is -1.
  unfoldable pub declare_local : Compiler V → Bytes → Option (Compiler V × ℕ)
  declare_local c name =
      let fresh : Local = record {
        name = name;
        depth = none;
        captured = false;
        is_const = false;
      } in
      if leb 256 (length c.locals)
      then none
      else if is_declared c.locals c.scope_depth name
      then none
      else some (record c { locals = fresh ∷ c.locals }, length c.locals)

  -- `msScopeMarkInitialized`, which asserts that there is a local.
  unfoldable pub mark_initialized : Compiler V → Compiler V
  mark_initialized c = elim c.locals [
    | [] ↦ c
    | l ∷ ls ↦ record c { locals = record l { depth = some c.scope_depth } ∷ ls }
  ]

  -- `msScopeAddUpvalue`, with the upvalue's number; none is -1.
  unfoldable pub add_upvalue : Compiler V → UpvalueDesc → Option (Compiler V × ℕ)
  add_upvalue c u = elim (find_upvalue c.upvalues 0 u) [
    | some i ↦ some (c, i)
    | none ↦
        if leb 256 (length c.upvalues)
        then none
        else some (record c { upvalues = c.upvalues ++ (u ∷ []) }, length c.upvalues)
  ]

  -- The compilers and the result, behind `msScopeAddUpvalue` for the first of them.
  unfoldable pub added : Compiler V → List (Compiler V) → UpvalueDesc → List (Compiler V) × Option ℕ
  added c outer u = elim (add_upvalue c u) [
    | none ↦ (c ∷ outer, none)
    | some (c', i) ↦ (c' ∷ outer, some i)
  ]

  -- `msScopeResolveUpvalue` of `c` for a name, where `e` encloses it, and `found` is what the call
  -- for `e` returns; the code makes that call only where it is used here. `(uint8_t)` is `% 256`.
  unfoldable pub resolve_in :
      Bytes
      → Compiler V
      → Compiler V
      → List (Compiler V)
      → List (Compiler V) × Option ℕ
      → List (Compiler V) × Option ℕ
  resolve_in name c e es found = elim (resolve_local e.locals name) [
    | some slot ↦
        added c (record e { locals = capture e.locals slot } ∷ es)
          (record { is_local = true; index = slot % 256 })
    | none ↦ elim found.1 [
      | none ↦ (c ∷ found.0, none)
      | some i ↦ added c found.0 (record { is_local = false; index = i % 256 })
    ]
  ]

  -- `msScopeResolveUpvalue` for the first compiler; none is -1.
  unfoldable pub resolve_upvalue : List (Compiler V) → Bytes → List (Compiler V) × Option ℕ
  resolve_upvalue [] name = ([], none)
  resolve_upvalue (c ∷ cs) name =
      let found = resolve_upvalue cs name in
      elim cs [ [] ↦ (c ∷ [], none) | e ∷ es ↦ resolve_in name c e es found ]
