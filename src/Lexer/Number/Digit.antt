-- ===== src/Lexer/Number/Digit.antt =====
-- src/lexer/ms_lexer.c: `lexDigitVal` against the texts of the sixteen digits.
use mslang_c.Base.{
  ℕ, zero, suc, ◌+◌, ◌-◌, ◌≤◌, ◌<◌, ◌≡◌, inl, inr, refl, sym, ap, ◌∙◌, Bool, true, false, ◌&&◌,
  Option, none, some, [], ◌∷◌, Bytes, codes, arith, ltb, leb, ◌==◌, if◌then◌else◌, Bool-cases,
}
use mslang_c.Lexer.Number.{lex_digit_val, in_base}
use mathlib.Core.Path.{subst}

-- The place of a byte in a text, counted from `n`.
abbrev place_from : ℕ → ℕ → Bytes → Option ℕ
place_from n c [] = none
place_from n c (x ∷ xs) = if c == x then some n else place_from (suc n) c xs

-- The value of a digit: its place among the digits, in small letters or in capitals.
abbrev pub digit_value : ℕ → Option ℕ
digit_value c = elim (place_from 0 c (codes "0123456789abcdef")) [
  | some v ↦ some v
  | none ↦ place_from 0 c (codes "0123456789ABCDEF")
]

-- What is smaller than the base.
abbrev limit : ℕ → Option ℕ → Option ℕ
limit base none = none
limit base (some v) = if ltb v base then some v else none

-- The value of a digit of the base.
abbrev pub digit_in : ℕ → ℕ → Option ℕ
digit_in base c = limit base (digit_value c)

abbrev same : Option ℕ → Option ℕ → Bool
same none none = true
same none (some b) = false
same (some a) none = false
same (some a) (some b) = a == b

equal_of_same : (a b : Option ℕ) → same a b ≡ true → a ≡ b
equal_of_same none none h = refl
equal_of_same none (some b) h = absurd (ground arith)
equal_of_same (some a) none h = absurd (ground arith)
equal_of_same (some a) (some b) h = ap some (ground arith)

-- The bytes below `n` are read alike.
unfoldable alike : ℕ → Bool
alike zero = true
alike (suc n) = same (lex_digit_val n 16) (digit_value n) && alike n

alike-same : (n c : ℕ) → alike n ≡ true → c < n → same (lex_digit_val c 16) (digit_value c) ≡ true
unfolding alike
alike-same zero c h l = absurd (omega arith)
alike-same (suc n) c h l = elim (Bool-cases (c == n)) [
  | inl e ↦
      (let at : n ≡ c = ground arith in
        subst (λ (i : ℕ). same (lex_digit_val i 16) (digit_value i) ≡ true) at (ground arith))
  | inr e ↦ alike-same n c (ground arith) (ground arith)
]

alike_bytes : alike 103 ≡ true
unfolding alike lex_digit_val
alike_bytes = refl

lex_digit_val-above : (c : ℕ) → 103 ≤ c → lex_digit_val c 16 ≡ none
unfolding lex_digit_val
lex_digit_val-above c h = ground arith

unfoldable below : Bytes → Bool
below [] = true
below (x ∷ xs) = ltb x 103 && below xs

place_from-above : (n c : ℕ) (xs : Bytes) → 103 ≤ c → below xs ≡ true → place_from n c xs ≡ none
unfolding below
place_from-above n c [] h b = refl
place_from-above n c (x ∷ xs) h b =
    let other : (c == x) ≡ false = ground arith in
    rw other (place_from-above (suc n) c xs h (ground arith))

digit_value-above : (c : ℕ) → 103 ≤ c → digit_value c ≡ none
unfolding below
digit_value-above c h =
    let small = place_from-above 0 c (codes "0123456789abcdef") h refl in
    let capital = place_from-above 0 c (codes "0123456789ABCDEF") h refl in
    rw (small, capital, digit_value) refl

lex_digit_val-digit_value : (c : ℕ) → lex_digit_val c 16 ≡ digit_value c
lex_digit_val-digit_value c = elim (Bool-cases (ltb c 103)) [
  | inl l ↦
      equal_of_same (lex_digit_val c 16) (digit_value c)
        (alike-same 103 c alike_bytes (ground arith))
  | inr l ↦ lex_digit_val-above c (ground arith) ∙ sym (digit_value-above c (ground arith))
]

limit-in_base : (base v : ℕ) → v < 16 → in_base base v ≡ limit base (in_base 16 v)
limit-in_base base v h = (let e : ltb v 16 ≡ true = ground arith in rw (e, in_base) refl)

lex_digit_val-limit : (c base : ℕ) → lex_digit_val c base ≡ limit base (lex_digit_val c 16)
unfolding lex_digit_val
lex_digit_val-limit c base = elim (Bool-cases (leb b'0' c && leb c b'9')) [
  | inl d ↦ rw d (limit-in_base base (c - b'0') (ground arith))
  | inr d ↦ elim (Bool-cases (leb b'a' c && leb c b'f')) [
    | inl s ↦ rw (d, s) (limit-in_base base (c - b'a' + 10) (ground arith))
    | inr s ↦ elim (Bool-cases (leb b'A' c && leb c b'F')) [
      | inl l ↦ rw (d, s, l) (limit-in_base base (c - b'A' + 10) (ground arith))
      | inr l ↦ rw (d, s, l) refl
    ]
  ]
]

-- `lexDigitVal` reads exactly the digits of the base.
pub lex_digit_val-digit_in : (c base : ℕ) → lex_digit_val c base ≡ digit_in base c
lex_digit_val-digit_in c base =
    lex_digit_val-limit c base ∙ ap (limit base) (lex_digit_val-digit_value c)
