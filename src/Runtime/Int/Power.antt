-- ===== src/Runtime/Int/Power.antt =====
-- src/runtime/ms_int.c: the loop of `intPow`.
use native.Mathlib.Nat.{pow-zero, pow-suc, mul_assoc, mul_comm}
use mslang_c.Base.{
  ℕ, zero, suc, ◌+◌, ◌*◌, ◌/◌, ◌%◌, ◌^◌, ◌<◌, ◌≡◌, arith, sym, ap, ◌∙◌, Bool-cases, inl, inr, ◌==◌,
  false,
}
use mslang_c.Base.Word.{mod-mul-mod, mul-mod-mod}
use mslang_c.Runtime.Int.{pow_loop, word_mul, is_negative, int_pow, int_val, Doubles}

square_pow : (b e : ℕ) → (b * b) ^ e ≡ b ^ (e + e)
square_pow b zero = pow-zero (b * b) ∙ sym (pow-zero b)
square_pow b (suc e) =
    pow-suc (b * b) e
    ∙ ap (λ (t : ℕ). t * (b * b)) (square_pow b e)
    ∙ sym (mul_assoc (b ^ (e + e)) b b)
    ∙ ap (λ (t : ℕ). t * b) (sym (pow-suc b (e + e)))
    ∙ sym (pow-suc b (suc (e + e)))
    ∙ ap (λ (t : ℕ). b ^ t) (omega arith)

pow_even : (b e : ℕ) → e % 2 ≡ 0 → (b * b) ^ (e / 2) ≡ b ^ e
pow_even b e h = square_pow b (e / 2) ∙ ap (λ (t : ℕ). b ^ t) (omega arith)

pow_odd : (b e : ℕ) → e % 2 ≡ 1 → (b * b) ^ (e / 2) * b ≡ b ^ e
pow_odd b e h =
    ap (λ (t : ℕ). t * b) (square_pow b (e / 2))
    ∙ sym (pow-suc b (e / 2 + e / 2))
    ∙ ap (λ (t : ℕ). b ^ t) (omega arith)

-- A base may be reduced before its power is.
mod-pow-mod : (b m e : ℕ) → (b % m) ^ e % m ≡ b ^ e % m
mod-pow-mod b m zero = ap (λ (t : ℕ). t % m) (pow-zero (b % m) ∙ sym (pow-zero b))
mod-pow-mod b m (suc e) =
    ap (λ (t : ℕ). t % m) (pow-suc (b % m) e)
    ∙ mul-mod-mod ((b % m) ^ e) b m
    ∙ sym (mod-mul-mod ((b % m) ^ e) b m)
    ∙ ap (λ (t : ℕ). t * b % m) (mod-pow-mod b m e)
    ∙ mod-mul-mod (b ^ e) b m
    ∙ ap (λ (t : ℕ). t % m) (sym (pow-suc b e))

mul-mod-pow : (x b m e : ℕ) → x * (b % m) ^ e % m ≡ x * b ^ e % m
mul-mod-pow x b m e =
    sym (mul-mod-mod x ((b % m) ^ e) m)
    ∙ ap (λ (t : ℕ). x * t % m) (mod-pow-mod b m e)
    ∙ mul-mod-mod x (b ^ e) m

odd_step : (b r p : ℕ) → r * b * p ≡ r * (p * b)
odd_step b r p = mul_assoc r b p ∙ ap (λ (t : ℕ). r * t) (mul_comm b p)

power_zero : (b e r : ℕ) → e ≡ 0 → r < 2 ^ 64 → r ≡ r * b ^ e % 2 ^ 64
power_zero b e r h small =
    let one_left : b ^ e ≡ 1 = ap (λ (t : ℕ). b ^ t) h ∙ pow-zero b in
    omega (arith, ap (λ (t : ℕ). r * t) one_left)

pub pow_loop-pow :
    (fuel base exp result : ℕ)
    → exp < 2 ^ fuel
    → result < 2 ^ 64
    → pow_loop fuel base exp result ≡ result * base ^ exp % 2 ^ 64
unfolding pow_loop
pow_loop-pow zero base exp result small r =
    let none_left : exp ≡ 0 = omega arith in power_zero base exp result none_left r
pow_loop-pow (suc fuel) base exp result small r = elim (Bool-cases (exp == 0)) [
  | inl z ↦ rw z (power_zero base exp result (ground arith) r)
  | inr z ↦ elim (Bool-cases (exp % 2 == 1)) [
    | inl o ↦
        rw (z, o)
          (pow_loop-pow fuel (word_mul base base) (exp / 2) (word_mul result base) (omega arith)
              (omega arith)
            ∙ mul-mod-pow (word_mul result base) (base * base) (2 ^ 64) (exp / 2)
            ∙ mod-mul-mod (result * base) ((base * base) ^ (exp / 2)) (2 ^ 64)
            ∙ ap (λ (t : ℕ). t % 2 ^ 64) (odd_step base result ((base * base) ^ (exp / 2)))
            ∙ ap (λ (t : ℕ). result * t % 2 ^ 64) (pow_odd base exp (ground arith)))
    | inr o ↦
        rw (z, o)
          (pow_loop-pow fuel (word_mul base base) (exp / 2) result (omega arith) r
            ∙ mul-mod-pow result (base * base) (2 ^ 64) (exp / 2)
            ∙ ap (λ (t : ℕ). result * t % 2 ^ 64) (pow_even base exp (ground arith)))
  ]
]

module _ {F O : Type 0} (d : Doubles F) where
  -- An `int` to the power of an `int` that is not negative: the power modulo 2 ^ 64. The loop's
  -- fuel, the width of the exponent, is enough.
  pub int_pow-power :
      (a exp : ℕ) → exp < 2 ^ 63 → int_pow {O = O} d a (int_val exp) ≡ int_val (a ^ exp % 2 ^ 64)
  unfolding int_pow
  int_pow-power a exp h =
      let positive : is_negative exp ≡ false = ground arith in
      rw positive (
        ap (λ (t : ℕ). int_val t)
          (pow_loop-pow 64 a exp 1 (omega arith) (omega arith) ∙ omega arith))
