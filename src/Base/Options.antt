-- ===== src/Base/Options.antt =====
-- Distinct constructors of Booleans and options.
use mathlib.Core.Path.{◌≡◌, refl, ap}
use mathlib.Core.Logic.{◌≢◌}
use mathlib.Core.Bool.{Bool, true, false}
use mathlib.Core.Option.{Option, none, some}
use native.Mathlib.Omega.{arith}

pub true_not_false : true ≢ false
true_not_false e = absurd (ground arith)

pub none_not_some {ℓ} : {A : Type ℓ} {a : A} → none ≢ some a
none_not_some e = absurd (ground arith)

pub not_true : {b : Bool} → b ≢ true → b ≡ false
not_true {b = true} h = absurd (h refl)
not_true {b = false} h = refl

pub some_injective {ℓ} : {A : Type ℓ} {a b : A} → some a ≡ some b → a ≡ b
some_injective {A = A} {a = a} h = ap (from a) h
  where
    from : A → Option A → A
    from d none = d
    from d (some x) = x
