-- ===== src/Base/Word.antt =====
-- Arithmetic modulo a word's size.
use Prim.Native.Nat.{ℕ, ◌+◌, ◌*◌, ◌/◌, ◌%◌}
use mathlib.Core.Path.{◌≡◌, sym, ap, ◌∙◌}
use native.Mathlib.Nat.{div-add-mod, mul-add-mod_self_left, mul_comm}
use native.Mathlib.Omega.{arith}

-- A factor may be reduced before a product is.
pub mod-mul-mod : (a b m : ℕ) → (a % m) * b % m ≡ a * b % m
mod-mul-mod a b m =
    let split : m * (a / m * b) + (a % m) * b ≡ a * b =
      omega (arith, ap (λ (t : ℕ). t * b) (div-add-mod a m)) in
    sym (mul-add-mod_self_left m (a / m * b) ((a % m) * b)) ∙ ap (λ (t : ℕ). t % m) split

pub mul-mod-mod : (a b m : ℕ) → a * (b % m) % m ≡ a * b % m
mul-mod-mod a b m =
    ap (λ (t : ℕ). t % m) (mul_comm a (b % m))
    ∙ mod-mul-mod b a m
    ∙ ap (λ (t : ℕ). t % m) (mul_comm b a)
