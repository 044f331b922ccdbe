-- ===== src/Runtime/Int.antt =====
-- src/runtime/ms_int.c: the slots of the type `int`. An `int64_t` is its pattern of 64 bits, a number
-- below 2 ^ 64; a `double` is an abstract `F`, whose operations of the C language and library are
-- parameters. `MS_ERROR_VALUE` is `error_value`. `intStr` calls `msStrFromInt` and is not modelled.
pub mod Division
pub mod Power
use mslang_c.Base.{
  ℕ, zero, suc, ◌+◌, ◌-◌, ◌*◌, ◌/◌, ◌%◌, ◌^◌, Bool, true, false, not, ◌&&◌, ◌||◌, leb, ltb, ◌==◌,
  if◌then◌else◌,
}

-- `MsValue`, as far as this file tells values apart.
pub data Value (F : Type 0) (O : Type 0) : Type 0 where
  int_val : ℕ → Value F O
  bool_val : Bool → Value F O
  float_val : F → Value F O
  other_val : O → Value F O
  error_value : Value F O

-- `(uint64_t)` sums, differences and products, cast back.
abbrev pub word_add : ℕ → ℕ → ℕ
word_add a b = (a + b) % 2 ^ 64

abbrev pub word_sub : ℕ → ℕ → ℕ
word_sub a b = (a + (2 ^ 64 - b)) % 2 ^ 64

abbrev pub word_mul : ℕ → ℕ → ℕ
word_mul a b = a * b % 2 ^ 64

-- `0 - (uint64_t) a`
abbrev pub word_neg : ℕ → ℕ
word_neg a = (2 ^ 64 - a) % 2 ^ 64

-- The sign bit of an `int64_t`, and its absolute value.
abbrev pub is_negative : ℕ → Bool
is_negative a = leb (2 ^ 63) a

abbrev pub magnitude : ℕ → ℕ
magnitude a = if is_negative a then 2 ^ 64 - a else a

-- `a < b` of two `int64_t`.
abbrev pub signed_lt : ℕ → ℕ → Bool
signed_lt a b =
    if is_negative a then not (is_negative b) || ltb a b else not (is_negative b) && ltb a b

-- `a / b` of two `int64_t`, where it does not overflow: the quotient is cut towards zero.
abbrev pub signed_div : ℕ → ℕ → ℕ
signed_div a b =
    let q = magnitude a / magnitude b in
    if is_negative a
    then (if is_negative b then q else word_neg q)
    else (if is_negative b then word_neg q else q)

-- `a % b` of two `int64_t`, where it does not overflow: the sign is that of `a`.
abbrev pub signed_mod : ℕ → ℕ → ℕ
signed_mod a b = let r = magnitude a % magnitude b in if is_negative a then word_neg r else r

-- The pattern of -1.
abbrev pub minus_one : ℕ
minus_one = 2 ^ 64 - 1

-- The loop of `intPow`; the fuel is the width of `exp`.
unfoldable pub pow_loop : ℕ → ℕ → ℕ → ℕ → ℕ
pow_loop zero base exp result = result
pow_loop (suc fuel) base exp result =
    let next = if exp % 2 == 1 then word_mul result base else result in
    if exp == 0 then result else pow_loop fuel (word_mul base base) (exp / 2) next

-- The operations on `double` that the file uses: the cast from `int64_t`, arithmetic, `fmod`, `pow`,
-- and the comparisons `<` and `== 0.0`.
pub record Doubles (F : Type 0) : Type 0 where
  pub of_int : ℕ → F
  pub add : F → F → F
  pub sub : F → F → F
  pub mul : F → F → F
  pub div : F → F → F
  pub fmod : F → F → F
  pub pow : F → F → F
  pub lt : F → F → Bool
  pub is_zero : F → Bool

module _ {F O : Type 0} (d : Doubles F) where
  -- `intLt`, its first operand the `int` with pattern `a`.
  unfoldable pub int_lt : ℕ → Value F O → Value F O
  int_lt a (int_val b) = bool_val (signed_lt a b)
  int_lt a (float_val b) = bool_val (d.lt (d.of_int a) b)
  int_lt a _ = error_value

  -- `intAdd`
  unfoldable pub int_add : ℕ → Value F O → Value F O
  int_add a (int_val b) = int_val (word_add a b)
  int_add a (float_val b) = float_val (d.add (d.of_int a) b)
  int_add a _ = error_value

  -- `intSub`
  unfoldable pub int_sub : ℕ → Value F O → Value F O
  int_sub a (int_val b) = int_val (word_sub a b)
  int_sub a (float_val b) = float_val (d.sub (d.of_int a) b)
  int_sub a _ = error_value

  -- `intMul`
  unfoldable pub int_mul : ℕ → Value F O → Value F O
  int_mul a (int_val b) = int_val (word_mul a b)
  int_mul a (float_val b) = float_val (d.mul (d.of_int a) b)
  int_mul a _ = error_value

  -- `intDiv`
  unfoldable pub int_div : ℕ → Value F O → Value F O
  int_div a (int_val b) =
      if b == 0
      then error_value
      else if b == minus_one
      then int_val (word_neg a)
      else int_val (signed_div a b)
  int_div a (float_val b) = if d.is_zero b then error_value else float_val (d.div (d.of_int a) b)
  int_div a _ = error_value

  -- `intMod`
  unfoldable pub int_mod : ℕ → Value F O → Value F O
  int_mod a (int_val b) =
      if b == 0 then error_value else if b == minus_one then int_val 0 else int_val (signed_mod a b)
  int_mod a (float_val b) = if d.is_zero b then error_value else float_val (d.fmod (d.of_int a) b)
  int_mod a _ = error_value

  -- `intPow`
  unfoldable pub int_pow : ℕ → Value F O → Value F O
  int_pow a (int_val exp) =
      if is_negative exp
      then float_val (d.pow (d.of_int a) (d.of_int exp))
      else int_val (pow_loop 64 a exp 1)
  int_pow a (float_val b) = float_val (d.pow (d.of_int a) b)
  int_pow a _ = error_value

module _ {F O : Type 0} where
  -- `intHash`
  abbrev pub int_hash : ℕ → Value F O
  int_hash a = int_val a

  -- `intNeg`
  abbrev pub int_neg : ℕ → Value F O
  int_neg a = int_val (word_neg a)

  -- `intInvert`: every bit is flipped.
  abbrev pub int_invert : ℕ → Value F O
  int_invert a = int_val (2 ^ 64 - 1 - a)
