-- ===== src/Runtime/Tests.antt =====
-- Runs of the `int` operations at concrete values.
use mslang_c.Base.{ℕ, ◌+◌, ◌-◌, ◌*◌, ◌^◌, ◌%◌, ◌≡◌, arith, ltb, ◌==◌}
use mslang_c.Runtime.Int.{Doubles, int_val, int_div, int_mod, int_pow}
use mslang_c.Runtime.Int.Division.{IsQuotient, int_div-int_mod}
use mslang_c.Runtime.Int.Power.{int_pow-power}

-- Whole numbers in place of doubles.
abbrev wholes : Doubles ℕ
wholes = record {
  of_int = λ a. a;
  add = λ a b. a + b;
  sub = λ a b. a - b;
  mul = λ a b. a * b;
  div = λ a b. a;
  fmod = λ a b. a;
  pow = λ a b. a;
  lt = ltb;
  is_zero = λ a. a == 0;
}

-- 7 by -2.
int_div-int_mod_example :
    (q : ℕ) × (r : ℕ) × (int_div {O = ℕ} wholes 7 (int_val (2 ^ 64 - 2)) ≡ int_val q)
    × (int_mod {O = ℕ} wholes 7 (int_val (2 ^ 64 - 2)) ≡ int_val r)
    × IsQuotient 7 (2 ^ 64 - 2) q r
int_div-int_mod_example =
    int_div-int_mod wholes 7 (2 ^ 64 - 2) (omega arith) (omega arith) (omega arith)

int_pow-power_example : int_pow {O = ℕ} wholes 3 (int_val 41) ≡ int_val (3 ^ 41 % 2 ^ 64)
int_pow-power_example = int_pow-power wholes 3 41 (omega arith)
