-- ===== src/Runtime/Int/Division.antt =====
-- src/runtime/ms_int.c: division and remainder of `int`.
use mathlib.Core.Path.{subst}
use native.Mathlib.Nat.{div-add-mod, mul_comm, mod-lt, mul-le-mul_left}
use mslang_c.Base.{
  ℕ, ◌+◌, ◌-◌, ◌*◌, ◌/◌, ◌%◌, ◌^◌, ◌≤◌, ◌<◌, ◌≡◌, ◌≢◌, ◌⊎◌, arith, ap, ◌∙◌, refl, Bool-cases, Bool,
  true, not, leb, inl, inr, ◌==◌, if◌then◌else◌, false,
}
use mslang_c.Base.Word.{mod-mul-mod}
use mslang_c.Runtime.Int.{
  word_mul, word_neg, word_add, is_negative, magnitude, signed_div, signed_mod, int_div, int_mod,
  int_val, minus_one, Doubles,
}

neg_sum : (x y k : ℕ) → x + y ≡ 2 ^ 64 * k → x % 2 ^ 64 ≡ word_neg (y % 2 ^ 64)
neg_sum x y k e = omega arith

complement : (x : ℕ) → x ≤ 2 ^ 64 → (2 ^ 64 - x) + x ≡ 2 ^ 64
complement x l = omega arith

-- A sign moves out of a product.
neg_mul : (q b : ℕ) → q ≤ 2 ^ 64 → word_mul (word_neg q) b ≡ word_neg (word_mul q b)
neg_mul q b h =
    mod-mul-mod (2 ^ 64 - q) b (2 ^ 64)
    ∙ neg_sum ((2 ^ 64 - q) * b) (q * b) b (omega (arith, ap (λ (t : ℕ). t * b) (complement q h)))

mul_neg : (q b : ℕ) → b ≤ 2 ^ 64 → word_mul q (word_neg b) ≡ word_neg (word_mul q b)
mul_neg q b h =
    ap (λ (t : ℕ). t % 2 ^ 64) (mul_comm q (word_neg b))
    ∙ neg_mul b q h
    ∙ ap (λ (t : ℕ). word_neg (t % 2 ^ 64)) (mul_comm b q)

-- The sign that a quotient has if it is not 0.
abbrev pub quotient_negative : ℕ → ℕ → Bool
quotient_negative a b = if is_negative a then not (is_negative b) else is_negative b

-- `q` and `r` are a quotient and a remainder of `a` by `b`, cut towards zero: without the signs,
-- `q * b + r` is `a`, and `r` is smaller than `b`; `q` is 0 or has the sign of the quotient, but
-- for the one that no `int64_t` holds; `r` is 0 or has the sign of `a`. On 64 bits `q * b + r` is
-- `a`, signs included.
pub record IsQuotient (a b q r : ℕ) : Type 0 where
  pub fits : (q < 2 ^ 64) × (r < 2 ^ 64)
  pub cut : magnitude q * magnitude b + magnitude r ≡ magnitude a
  pub smaller : magnitude r < magnitude b
  pub quotient_sign :
      (q ≡ 0)
      ⊎ (is_negative q ≡ quotient_negative a b)
      ⊎ ((a ≡ 2 ^ 63) × (b ≡ minus_one) × (q ≡ 2 ^ 63))
  pub sign_kept : (r ≡ 0) ⊎ (is_negative r ≡ is_negative a)
  pub recombines : word_add (word_mul q b) r ≡ a

mul_as_neg : (q b : ℕ) → b < 2 ^ 64 → 0 < b → word_mul q b ≡ word_neg (word_mul q (2 ^ 64 - b))
mul_as_neg q b h p =
    ap (λ (t : ℕ). word_mul q t) (omega arith) ∙ mul_neg q (2 ^ 64 - b) (omega arith)

neg_neg : (x : ℕ) → x < 2 ^ 64 → word_neg (word_neg x) ≡ x
neg_neg x h = omega arith

-- The product on 64 bits, by the signs.
product :
    (a b : ℕ)
    → a < 2 ^ 64
    → b < 2 ^ 64
    → word_mul (signed_div a b) b ≡ (
        if is_negative a
        then word_neg (word_mul (magnitude a / magnitude b) (magnitude b))
        else word_mul (magnitude a / magnitude b) (magnitude b))
product a b ha hb = elim (Bool-cases (is_negative a)) [
  | inl n ↦ elim (Bool-cases (is_negative b)) [
    | inl m ↦ rw (n, m) (mul_as_neg ((2 ^ 64 - a) / (2 ^ 64 - b)) b hb (ground arith))
    | inr m ↦ rw (n, m) (neg_mul ((2 ^ 64 - a) / b) b (grind arith))
  ]
  | inr n ↦ elim (Bool-cases (is_negative b)) [
    | inl m ↦
        rw (n, m)
          (neg_mul (a / (2 ^ 64 - b)) b (grind arith)
            ∙ ap word_neg (mul_as_neg (a / (2 ^ 64 - b)) b hb (ground arith))
            ∙ neg_neg _ (omega arith))
    | inr m ↦ rw (n, m) refl
  ]
]

combine :
    (a b q r : ℕ)
    → a < 2 ^ 64
    → q + r ≡ magnitude a
    → r < b
    → b ≤ 2 ^ 63
    → word_add
        (if is_negative a then word_neg (q % 2 ^ 64) else q % 2 ^ 64)
        (if is_negative a then word_neg r else r)
      ≡ a
combine a b q r ha e hr hb = ground arith

-- The quotient of the absolute values with the sign of the quotient.
abbrev with_sign : ℕ → ℕ → ℕ → ℕ
with_sign a b q =
    if is_negative a
    then (if is_negative b then q else word_neg q)
    else (if is_negative b then word_neg q else q)

magnitude-with_sign : (a b q : ℕ) → q ≤ 2 ^ 63 → magnitude (with_sign a b q) ≡ q
magnitude-with_sign a b q h = ground arith

magnitude-rest : (a r : ℕ) → r < 2 ^ 63 → magnitude (if is_negative a then word_neg r else r) ≡ r
magnitude-rest a r h = ground arith

is_negative-with_sign :
    (a b q : ℕ)
    → (q < 2 ^ 63) ⊎ ((q ≡ 2 ^ 63) × (quotient_negative a b ≡ true))
    → (with_sign a b q ≡ 0) ⊎ (is_negative (with_sign a b q) ≡ quotient_negative a b)
is_negative-with_sign a b q (inl h) = ground arith
is_negative-with_sign a b q (inr (h, n)) = ground arith

below_product : (q b : ℕ) → 2 ≤ b → q * 2 ≤ q * b
below_product q b h = mul-le-mul_left q h

-- The quotient of the absolute values fits, as the divisor is not -1.
quotient-small :
    (a b q r : ℕ)
    → a < 2 ^ 64
    → b < 2 ^ 64
    → b ≢ 0
    → b ≢ minus_one
    → q * magnitude b + r ≡ magnitude a
    → (q < 2 ^ 63) ⊎ ((q ≡ 2 ^ 63) × (quotient_negative a b ≡ true))
quotient-small a b q r ha hb nz nm e = elim (Bool-cases (leb 2 (magnitude b))) [
  | inl l ↦ (let p = below_product q (magnitude b) (ground arith) in ground arith)
  | inr l ↦
      (let one : b ≡ 1 = ground arith in
        let whole : q * magnitude b ≡ q = ap (λ (t : ℕ). q * magnitude t) one ∙ omega arith in
        ground arith)
]

signed-IsQuotient :
    (a b : ℕ)
    → a < 2 ^ 64
    → b < 2 ^ 64
    → b ≢ 0
    → b ≢ minus_one
    → IsQuotient a b (signed_div a b) (signed_mod a b)
signed-IsQuotient a b ha hb nz nm =
    let q = magnitude a / magnitude b in
    let rest : magnitude a % magnitude b < magnitude b = mod-lt (magnitude a) (ground arith) in
    let split : q * magnitude b + magnitude a % magnitude b ≡ magnitude a =
      omega (arith, div-add-mod (magnitude a) (magnitude b), mul_comm (magnitude b) q) in
    let small = quotient-small a b q (magnitude a % magnitude b) ha hb nz nm split in
    let bounded : q ≤ 2 ^ 63 = elim small [ inl h ↦ omega arith | inr (h, n) ↦ omega arith ] in
    record {
      fits = (grind arith, grind arith);
      cut =
          ap (λ (t : ℕ). t * magnitude b + magnitude (signed_mod a b))
            (magnitude-with_sign a b q bounded)
          ∙ ap (λ (t : ℕ). q * magnitude b + t)
              (magnitude-rest a (magnitude a % magnitude b) (ground arith))
          ∙ split;
      smaller = ground arith;
      quotient_sign = elim (is_negative-with_sign a b q small) [
        | inl z ↦ inl z
        | inr s ↦ inr (inl s)
      ];
      sign_kept = ground arith;
      recombines =
          ap (λ (t : ℕ). word_add t (signed_mod a b)) (product a b ha hb)
          ∙ combine a (magnitude b) (magnitude a / magnitude b * magnitude b)
              (magnitude a % magnitude b) ha split rest (ground arith);
    }

minus_one-quotient_sign :
    (a : ℕ)
    → a < 2 ^ 64
    → (word_neg a ≡ 0)
      ⊎ (is_negative (word_neg a) ≡ quotient_negative a minus_one)
      ⊎ ((a ≡ 2 ^ 63) × (minus_one ≡ minus_one) × (word_neg a ≡ 2 ^ 63))
minus_one-quotient_sign a h = elim (Bool-cases (a == 2 ^ 63)) [
  | inl e ↦ inr (inr (ground arith, refl, ground arith))
  | inr e ↦ elim (Bool-cases (a == 0)) [
    | inl z ↦ inl (ground arith)
    | inr z ↦ inr (inl (ground arith))
  ]
]

-- `-1` has its own branch: its product with the negated dividend wraps to the dividend.
minus_one-IsQuotient : (a : ℕ) → a < 2 ^ 64 → IsQuotient a minus_one (word_neg a) 0
minus_one-IsQuotient a h = record {
  fits = (omega arith, omega arith);
  cut = ground arith;
  smaller = omega arith;
  quotient_sign = minus_one-quotient_sign a h;
  sign_kept = inl refl;
  recombines = omega arith;
}

module _ {F O : Type 0} (d : Doubles F) where
  -- An `int` divided by an `int` other than 0, -1 included: `intDiv` returns the
  -- quotient cut towards zero, and `intMod` the remainder that belongs to it, as `IsQuotient` says;
  -- the least `int64_t` divided by -1 is itself.
  pub int_div-int_mod :
      (a b : ℕ)
      → a < 2 ^ 64
      → b < 2 ^ 64
      → b ≢ 0
      → (q : ℕ) × (r : ℕ) × (int_div {O = O} d a (int_val b) ≡ int_val q)
        × (int_mod {O = O} d a (int_val b) ≡ int_val r)
        × IsQuotient a b q r
  unfolding int_div int_mod
  int_div-int_mod a b ha hb nz =
      let other : (b == 0) ≡ false = ground arith in
      elim (Bool-cases (b == minus_one)) [
        | inl m ↦ (
          word_neg a,
          0,
          rw (other, m) refl,
          rw (other, m) refl,
          subst (λ (t : ℕ). IsQuotient a t (word_neg a) 0) (ground arith)
              (minus_one-IsQuotient a ha),
        )
        | inr m ↦ (
          signed_div a b,
          signed_mod a b,
          rw (other, m) refl,
          rw (other, m) refl,
          signed-IsQuotient a b ha hb nz (ground arith),
        )
      ]
