-- ===== src/Compiler/Scope/Locals.antt =====
-- src/compiler/ms_scope.c, `msScopeDeclareLocal` and `msScopeResolveLocal`.
use mslang_c.Base.{◌<◌, true, false, none, some, [], ◌∷◌, Bytes, leb, length, arith, ◌≡◌, refl}
use mslang_c.Compiler.Scope.{
  Local, Compiler, same_name, resolve_local, declare_local, mark_initialized, is_declared,
}

same_name_refl : (n : Bytes) → same_name n n ≡ true
unfolding same_name
same_name_refl [] = refl
same_name_refl (b ∷ bs) = (let ih = same_name_refl bs in ground arith)

module _ {ℓ} {V : Type ℓ} (c : Compiler V) (name : Bytes) where
  -- A name declared where there is room for a local and its scope has none of that name: it gets
  -- the next slot, it cannot be read until it is initialized, then it is found in its slot, and
  -- every other name resolves as before.
  pub declare_local-Resolves :
      length c.locals < 256
      → is_declared c.locals c.scope_depth name ≡ false
      → (c' : Compiler V) × (declare_local c name ≡ some (c', length c.locals))
        × (resolve_local c'.locals name ≡ none)
        × (resolve_local (mark_initialized c').locals name ≡ some (length c.locals))
        × ((other : Bytes)
            → same_name name other ≡ false
            → resolve_local (mark_initialized c').locals other ≡ resolve_local c.locals other)
  unfolding declare_local mark_initialized resolve_local
  declare_local-Resolves room new =
      let fresh : Local = record {
        name = name;
        depth = none;
        captured = false;
        is_const = false;
      } in
      let room' : leb 256 (length c.locals) ≡ false = ground arith in
      (
        record c { locals = fresh ∷ c.locals },
        rw (room', new) refl,
        rw (same_name_refl name) refl,
        rw (same_name_refl name) refl,
        λ other h. rw h refl,
      )
