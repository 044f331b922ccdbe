-- ===== src/Lexer/Number/Value.antt =====
-- src/lexer/ms_lexer.c: the value that `lexParseDigits` computes.
use native.Mathlib.Nat.{mod-add-mod}
use native.Mathlib.Numerals.{add-one}
use mslang_c.Base.{
  ℕ, zero, suc, ◌+◌, ◌-◌, ◌*◌, ◌%◌, ◌^◌, ◌≤◌, ◌<◌, ◌≡◌, inl, inr, refl, sym, ap, ◌∙◌, Bool, true,
  false, not, ◌&&◌, Option, none, some, [], ◌∷◌, ◌++◌, Bytes, arith, length, drop, drop-get_or,
  ◌==◌, if◌then◌else◌, Bool-cases, Option-cases,
}
use mslang_c.Base.Word.{mod-mul-mod}
use mslang_c.Lexer.Number.Digit.{digit_in, lex_digit_val-digit_in}
use mslang_c.Lexer.Number.{Digits, digits_loop, lex_digit_val, lex_parse_digits}
use mslang_c.Lexer.State.{LexError, Lexer, at_end, byte_at, trailing_separator}

-- The text is empty, or starts with a byte that is neither a digit of the base nor `_`.
abbrev pub stops : ℕ → Bytes → Bool
stops base [] = true
stops base (c ∷ cs) = not (c == b'_') && elim (digit_in base c) [ none ↦ true | some d ↦ false ]

-- The value of a numeral's text behind digits of the value `acc`, with no bound; none if a byte is
-- neither a digit of the base nor `_`.
unfoldable pub numeral : ℕ → ℕ → Bytes → Option ℕ
numeral base acc [] = some acc
numeral base acc (c ∷ cs) =
    if c == b'_'
    then numeral base acc cs
    else elim (digit_in base c) [ none ↦ none | some d ↦ numeral base (acc * base + d) cs ]

-- Each `_` stands between two digits; `last` says that one stands before the text, and `any` that
-- a digit does.
unfoldable pub separated : Bool → Bool → Bytes → Bool
separated last any [] = not last
separated last any (c ∷ cs) =
    if c == b'_' then any && not last && separated true any cs else separated false true cs

-- The text that a good result `d` has read from `pos`, as far as it goes, behind digits of the value `acc`.
pub record IsNumeral (base : ℕ) (src : Bytes) (pos acc : ℕ) (last any : Bool) (d : Digits)
    : Type 0 where
  pub text : Bytes
  pub rest : Bytes
  pub splits : drop pos src ≡ text ++ rest
  pub ends : d.pos ≡ pos + length text
  pub value : ℕ
  pub reads : numeral base acc text ≡ some value
  pub wraps : d.val ≡ value % 2 ^ 64
  pub between : separated last any text ≡ true
  pub maximal : stops base rest ≡ true

byte-drop :
    (src : Bytes) (pos : ℕ)
    → at_end src pos ≡ false
    → drop pos src ≡ byte_at src pos ∷ drop (pos + 1) src
unfolding byte_at
byte-drop src pos h = rw (h, add-one) (drop-get_or src pos 0 (ground arith))

drop-none : (xs : Bytes) (n : ℕ) → length xs ≤ n → drop n xs ≡ []
drop-none [] zero h = refl
drop-none [] (suc n) h = refl
drop-none (x ∷ xs) zero h = absurd (omega arith)
drop-none (x ∷ xs) (suc n) h = drop-none xs n (omega arith)

step_value :
    (val acc base d : ℕ)
    → val ≡ acc % 2 ^ 64
    → (val * base + d) % 2 ^ 64 ≡ (acc * base + d) % 2 ^ 64
step_value val acc base d h =
    ap (λ (v : ℕ). (v * base + d) % 2 ^ 64) h
    ∙ sym (mod-add-mod (acc % 2 ^ 64 * base) (2 ^ 64) d)
    ∙ ap (λ (v : ℕ). (v + d) % 2 ^ 64) (mod-mul-mod acc base (2 ^ 64))
    ∙ mod-add-mod (acc * base) (2 ^ 64) d

abbrev stop_err : Bool → Option LexError
stop_err last = if last then some trailing_separator else none

module _ (base : ℕ) (src : Bytes) where
  stops-at_end : (pos : ℕ) → at_end src pos ≡ true → stops base (drop pos src) ≡ true
  stops-at_end pos h = (let e = drop-none src pos (ground arith) in rw e refl)

  stops-no_digit :
      (pos : ℕ)
      → at_end src pos ≡ false
      → (byte_at src pos == b'_') ≡ false
      → lex_digit_val (byte_at src pos) base ≡ none
      → stops base (drop pos src) ≡ true
  stops-no_digit pos h c n =
      let e = byte-drop src pos h in
      let d = sym (lex_digit_val-digit_in (byte_at src pos) base) ∙ n in rw (e, c, d) refl

  stop-IsNumeral :
      (pos val acc : ℕ) (last any : Bool)
      → val ≡ acc % 2 ^ 64
      → stop_err last ≡ none
      → stops base (drop pos src) ≡ true
      → IsNumeral base src pos acc last any (record { pos = pos; val = val; err = stop_err last })
  unfolding numeral separated
  stop-IsNumeral pos val acc true any h e m = absurd (ground arith)
  stop-IsNumeral pos val acc false any h e m = record {
    text = [];
    rest = drop pos src;
    splits = refl;
    ends = omega arith;
    value = acc;
    reads = refl;
    wraps = h;
    between = refl;
    maximal = m;
  }

  module _ (pos acc : ℕ) (d : Digits) (h : at_end src pos ≡ false) where
    -- A separator in front of a good numeral.
    separator-IsNumeral :
        (byte_at src pos == b'_') ≡ true
        → IsNumeral base src (pos + 1) acc true true d
        → IsNumeral base src pos acc false true d
    unfolding numeral separated
    separator-IsNumeral c r = record {
      text = byte_at src pos ∷ r.text;
      rest = r.rest;
      splits = byte-drop src pos h ∙ ap (λ (t : Bytes). byte_at src pos ∷ t) r.splits;
      ends = omega (arith, r.ends);
      value = r.value;
      reads = rw c r.reads;
      wraps = r.wraps;
      between = rw c r.between;
      maximal = r.maximal;
    }

    -- A digit in front of one.
    digit-IsNumeral :
        (last any : Bool) (v : ℕ)
        → (byte_at src pos == b'_') ≡ false
        → lex_digit_val (byte_at src pos) base ≡ some v
        → IsNumeral base src (pos + 1) (acc * base + v) false true d
        → IsNumeral base src pos acc last any d
    unfolding numeral separated
    digit-IsNumeral last any v c e r =
        let d = sym (lex_digit_val-digit_in (byte_at src pos) base) ∙ e in
        record {
          text = byte_at src pos ∷ r.text;
          rest = r.rest;
          splits = byte-drop src pos h ∙ ap (λ (t : Bytes). byte_at src pos ∷ t) r.splits;
          ends = omega (arith, r.ends);
          value = r.value;
          reads = rw (c, d) r.reads;
          wraps = r.wraps;
          between = rw c r.between;
          maximal = r.maximal;
        }

  pub digits_loop-IsNumeral :
      (fuel pos val acc : ℕ) (last any : Bool)
      → length src ≤ pos + fuel
      → val ≡ acc % 2 ^ 64
      → (digits_loop fuel src base pos val last any).err ≡ none
      → IsNumeral base src pos acc last any (digits_loop fuel src base pos val last any)
  unfolding digits_loop
  digits_loop-IsNumeral zero pos val acc last any f h e =
      stop-IsNumeral pos val acc last any h e (stops-at_end pos (ground arith))
  digits_loop-IsNumeral (suc fuel) pos val acc last any f h e = elim (Bool-cases (at_end src pos)) [
    | inl a ↦ rw a (stop-IsNumeral pos val acc last any h (rw a at e) (stops-at_end pos a))
    | inr a ↦ elim (Bool-cases (byte_at src pos == b'_')) [
      | inl c ↦ elim (Bool-cases any) [
        | inr o ↦ absurd (ground (arith, rw (a, c, o) at e))
        | inl o ↦ elim (Bool-cases last) [
          | inl l ↦ absurd (ground (arith, rw (a, c, o, l) at e))
          | inr l ↦
              rw (a, c, o, l)
                (separator-IsNumeral pos acc _ a c (
                  digits_loop-IsNumeral fuel (pos + 1) val acc true true (ground arith) h
                    (rw (a, c, o, l) at e)))
        ]
      ]
      | inr c ↦ elim (Option-cases (lex_digit_val (byte_at src pos) base)) [
        | inl n ↦
            rw (a, c, n)
              (stop-IsNumeral pos val acc last any h (rw (a, c, n) at e) (stops-no_digit pos a c n))
        | inr (v, n) ↦
            rw (a, c, n)
              (digit-IsNumeral pos acc _ a last any v c n (
                digits_loop-IsNumeral fuel (pos + 1) _ (acc * base + v) false true (ground arith)
                  (step_value val acc base v h) (rw (a, c, n) at e)))
      ]
    ]
  ]

-- A run of `lexParseDigits` with no error, behind a value `init` that fits a word, has read a text
-- in which every byte is a digit of the base or `_`, each `_` with a digit on both sides, up to the
-- first byte that is neither or the end of the source. The position is behind that text, and the
-- value is that of the digits modulo 2 ^ 64, with no bound on their number. The value of a digit is
-- its place in 0123456789abcdef or in 0123456789ABCDEF.
pub lex_parse_digits-IsNumeral :
    (lex : Lexer) (base init : ℕ) (has_init : Bool)
    → init < 2 ^ 64
    → (lex_parse_digits lex base init has_init).err ≡ none
    → IsNumeral base lex.src lex.pos init false has_init (lex_parse_digits lex base init has_init)
lex_parse_digits-IsNumeral lex base init has_init h e =
    digits_loop-IsNumeral base lex.src (length lex.src - lex.pos) lex.pos init init false has_init
      (omega arith) (omega arith) e
