-- ===== src/Base/Masks.antt =====
-- Binary digits cleared by a mask.
use Prim.Native.Nat.{
  ℕ, zero, suc, min, ◌+◌, ◌-◌, ◌*◌, ◌/◌, ◌%◌, ◌^◌, ◌≤◌, ◌<◌, bit_and, digits, bit_and-bitwise,
}
use mathlib.Core.Path.{◌≡◌, refl, sym, ap, ◌∙◌}
use native.Mathlib.Nat.{div-div-eq-div-mul}
use native.Mathlib.Omega.{arith}

abbrev and_digits : ℕ → ℕ → ℕ → ℕ
and_digits n a b = digits (λ b. 0) min n a b

-- A count of digits that is large enough does not matter.
and_digits-count : (n m a b : ℕ) → a ≤ n → a ≤ m → and_digits n a b ≡ and_digits m a b
and_digits-count zero zero a b p q = refl
and_digits-count zero (suc m) zero b p q = refl
and_digits-count zero (suc m) (suc a) b p q = absurd (omega arith)
and_digits-count (suc n) zero zero b p q = refl
and_digits-count (suc n) zero (suc a) b p q = absurd (omega arith)
and_digits-count (suc n) (suc m) zero b p q = refl
and_digits-count (suc n) (suc m) (suc a) b p q =
    omega (arith, and_digits-count n m (suc a / 2) (b / 2) (omega arith) (omega arith))

zero-bit_and : (b : ℕ) → bit_and 0 b ≡ 0
zero-bit_and b = bit_and-bitwise 0 b

bit_and_halves : (a b : ℕ) → bit_and a b ≡ bit_and (a / 2) (b / 2) * 2 + min (a % 2) (b % 2)
bit_and_halves zero b = omega (arith, zero-bit_and b, zero-bit_and (b / 2))
bit_and_halves (suc a) b = omega (
  arith,
  bit_and-bitwise (suc a) b,
  bit_and-bitwise (suc a / 2) (b / 2),
  and_digits-count a (suc a / 2) (suc a / 2) (b / 2) (omega arith) (omega arith),
)

pub power_positive : (e : ℕ) → 1 ≤ 2 ^ e
power_positive zero = omega arith
power_positive (suc e) = omega (arith, power_positive e)

min-one : (a : ℕ) → a < 2 → min a 1 ≡ a
min-one zero h = refl
min-one (suc zero) h = refl
min-one (suc (suc a)) h = absurd (omega arith)

min-zero : (a : ℕ) → min a 0 ≡ 0
min-zero a = omega arith

-- A mask of ones keeps all digits.
bit_and-ones : (k x p : ℕ) → p ≡ 2 ^ k → x < p → bit_and x (p - 1) ≡ x
bit_and-ones zero zero p e h = zero-bit_and (p - 1)
bit_and-ones zero (suc x) p e h = absurd (omega arith)
bit_and-ones (suc k) x p e h =
    let more = power_positive k in
    let half : (p - 1) / 2 ≡ 2 ^ k - 1 = omega arith in
    let low : (p - 1) % 2 ≡ 1 = omega arith in
    let rest = bit_and-ones k (x / 2) (2 ^ k) refl (omega arith) in
    let kept = min-one (x % 2) (omega arith) in
    bit_and_halves x (p - 1)
    ∙ ap (λ (n : ℕ). bit_and (x / 2) n * 2 + min (x % 2) ((p - 1) % 2)) half
    ∙ ap (λ (n : ℕ). bit_and (x / 2) (2 ^ k - 1) * 2 + min (x % 2) n) low
    ∙ omega arith

-- A mask of ones above `e` zeros clears the lowest `e` digits.
pub bit_and-mask :
    (e k x p q : ℕ) → p ≡ 2 ^ (e + k) → q ≡ 2 ^ e → x < p → bit_and x (p - q) ≡ x / q * q
bit_and-mask zero k x p q f g h =
    let one : q ≡ 1 = omega arith in
    let whole : p ≡ 2 ^ k = f ∙ ap (λ (n : ℕ). 2 ^ n) (omega arith) in
    ap (λ (n : ℕ). bit_and x (p - n)) one
    ∙ bit_and-ones k x p whole h
    ∙ omega arith
    ∙ ap (λ (n : ℕ). x / n * n) (sym one)
bit_and-mask (suc e) k x p q f g h =
    let twice : p ≡ 2 ^ suc (e + k) = f ∙ ap (λ (n : ℕ). 2 ^ n) (omega arith) in
    let half : (p - q) / 2 ≡ 2 ^ (e + k) - 2 ^ e = omega arith in
    let low : (p - q) % 2 ≡ 0 = omega arith in
    let rest = bit_and-mask e k (x / 2) (2 ^ (e + k)) (2 ^ e) refl refl (omega arith) in
    let kept = min-zero (x % 2) in
    let last : bit_and (x / 2) (2 ^ (e + k) - 2 ^ e) * 2 + min (x % 2) 0
        ≡ x / 2 / 2 ^ e * 2 ^ e * 2 =
      omega arith in
    let double : q ≡ 2 * 2 ^ e = omega arith in
    bit_and_halves x (p - q)
    ∙ ap (λ (n : ℕ). bit_and (x / 2) n * 2 + min (x % 2) ((p - q) % 2)) half
    ∙ ap (λ (n : ℕ). bit_and (x / 2) (2 ^ (e + k) - 2 ^ e) * 2 + min (x % 2) n) low
    ∙ last
    ∙ ap (λ (n : ℕ). n * 2 ^ e * 2) (div-div-eq-div-mul x 2 (2 ^ e))
    ∙ nested (x / (2 * 2 ^ e)) (2 ^ e)
    ∙ ap (λ (n : ℕ). x / n * n) (sym double)
  where
    nested : (a b : ℕ) → a * b * 2 ≡ a * (2 * b)
    nested a b = omega arith
