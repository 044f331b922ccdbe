-- ===== src/Base/Bits.antt =====
-- Exclusive or of binary digits.
use Prim.Native.Nat.{
  ℕ, zero, suc, ◌+◌, ◌*◌, ◌/◌, ◌%◌, ◌≤◌, ◌<◌, bit_xor, digits, differ, bit_xor-bitwise,
}
use mathlib.Core.Path.{◌≡◌, refl, sym, ap, ◌∙◌}
use native.Mathlib.Omega.{arith}

abbrev xor_digits : ℕ → ℕ → ℕ → ℕ
xor_digits n a b = digits (λ b. b) differ n a b

-- A count of digits that is large enough does not matter.
xor_digits-count : (n m a b : ℕ) → a ≤ n → a ≤ m → xor_digits n a b ≡ xor_digits m a b
xor_digits-count zero zero a b p q = refl
xor_digits-count zero (suc m) zero b p q = refl
xor_digits-count zero (suc m) (suc a) b p q = absurd (omega arith)
xor_digits-count (suc n) zero zero b p q = refl
xor_digits-count (suc n) zero (suc a) b p q = absurd (omega arith)
xor_digits-count (suc n) (suc m) zero b p q = refl
xor_digits-count (suc n) (suc m) (suc a) b p q =
    omega (arith, xor_digits-count n m (suc a / 2) (b / 2) (omega arith) (omega arith))

zero-bit_xor : (b : ℕ) → bit_xor 0 b ≡ b
zero-bit_xor b = bit_xor-bitwise 0 b

differ-zero : (b : ℕ) → differ 0 b ≡ b
differ-zero b = refl

bit_xor_halves : (a b : ℕ) → bit_xor a b ≡ bit_xor (a / 2) (b / 2) * 2 + differ (a % 2) (b % 2)
bit_xor_halves zero b = omega (arith, zero-bit_xor b, zero-bit_xor (b / 2))
bit_xor_halves (suc a) b = omega (
  arith,
  bit_xor-bitwise (suc a) b,
  bit_xor-bitwise (suc a / 2) (b / 2),
  xor_digits-count a (suc a / 2) (suc a / 2) (b / 2) (omega arith) (omega arith),
)

-- Digits that are 0 or 1.
differ-bit : (a b : ℕ) → a < 2 → b < 2 → differ a b ≡ (a + b) % 2
differ-bit zero zero p q = refl
differ-bit zero (suc zero) p q = refl
differ-bit zero (suc (suc b)) p q = absurd (omega arith)
differ-bit (suc zero) zero p q = refl
differ-bit (suc zero) (suc zero) p q = refl
differ-bit (suc zero) (suc (suc b)) p q = absurd (omega arith)
differ-bit (suc (suc a)) b p q = absurd (omega arith)

lowest : (a b : ℕ) → differ (a % 2) (b % 2) ≡ (a + b) % 2
lowest a b = omega (arith, differ-bit (a % 2) (b % 2) (omega arith) (omega arith))

bit_xor-half : (a b : ℕ) → bit_xor a b / 2 ≡ bit_xor (a / 2) (b / 2)
bit_xor-half a b = omega (arith, bit_xor_halves a b, lowest a b)

bit_xor-low : (a b : ℕ) → bit_xor a b % 2 ≡ (a + b) % 2
bit_xor-low a b = omega (arith, bit_xor_halves a b, lowest a b)

-- The order in which two numbers are taken in does not matter.
left_comm_upto : (n a b c : ℕ) → a + b ≤ n → bit_xor a (bit_xor b c) ≡ bit_xor b (bit_xor a c)
left_comm_upto n zero zero c h = refl
left_comm_upto zero (suc a) b c h = absurd (omega arith)
left_comm_upto zero zero (suc b) c h = absurd (omega arith)
left_comm_upto (suc n) zero (suc b) c h =
    zero-bit_xor (bit_xor (suc b) c) ∙ ap (bit_xor (suc b)) (sym (zero-bit_xor c))
left_comm_upto (suc n) (suc a) zero c h =
    ap (bit_xor (suc a)) (zero-bit_xor c) ∙ sym (zero-bit_xor (bit_xor (suc a) c))
left_comm_upto (suc n) (suc a) (suc b) c h =
    let rest = left_comm_upto n (suc a / 2) (suc b / 2) (c / 2) (omega arith) in
    let left = bit_xor_halves (suc a) (bit_xor (suc b) c) in
    let right = bit_xor_halves (suc b) (bit_xor (suc a) c) in
    let below = ap (bit_xor (suc a / 2)) (bit_xor-half (suc b) c) in
    let above = ap (bit_xor (suc b / 2)) (bit_xor-half (suc a) c) in
    omega (
      arith,
      lowest (suc a) (bit_xor (suc b) c),
      lowest (suc b) (bit_xor (suc a) c),
      bit_xor-low (suc b) c,
      bit_xor-low (suc a) c,
    )

pub bit_xor_left_comm : (a b c : ℕ) → bit_xor a (bit_xor b c) ≡ bit_xor b (bit_xor a c)
bit_xor_left_comm a b c = left_comm_upto (a + b) a b c (omega arith)

bit_xor-zero_upto : (n a : ℕ) → a ≤ n → bit_xor a 0 ≡ a
bit_xor-zero_upto n zero h = refl
bit_xor-zero_upto zero (suc a) h = absurd (omega arith)
bit_xor-zero_upto (suc n) (suc a) h = omega (
  arith,
  bit_xor_halves (suc a) 0,
  lowest (suc a) 0,
  bit_xor-zero_upto n (suc a / 2) (omega arith),
)

comm_upto : (n a b : ℕ) → a + b ≤ n → bit_xor a b ≡ bit_xor b a
comm_upto n zero b h = zero-bit_xor b ∙ sym (bit_xor-zero_upto b b (omega arith))
comm_upto zero (suc a) b h = absurd (omega arith)
comm_upto (suc n) (suc a) b h = omega (
  arith,
  bit_xor_halves (suc a) b,
  bit_xor_halves b (suc a),
  lowest (suc a) b,
  lowest b (suc a),
  comm_upto n (suc a / 2) (b / 2) (omega arith),
)

pub bit_xor_comm : (a b : ℕ) → bit_xor a b ≡ bit_xor b a
bit_xor_comm a b = comm_upto (a + b) a b (omega arith)

pub bit_xor_assoc : (a b c : ℕ) → bit_xor (bit_xor a b) c ≡ bit_xor a (bit_xor b c)
bit_xor_assoc a b c =
    bit_xor_comm (bit_xor a b) c ∙ bit_xor_left_comm c a b ∙ ap (bit_xor a) (bit_xor_comm c b)

pub bit_xor-zero : (a : ℕ) → bit_xor a 0 ≡ a
bit_xor-zero a = bit_xor-zero_upto a a (omega arith)
