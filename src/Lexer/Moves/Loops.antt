-- ===== src/Lexer/Moves/Loops.antt =====
-- src/lexer/ms_lexer.c: where the loops of the scanning functions end.
use mslang_c.Base.{
  ℕ, zero, suc, ◌+◌, ◌-◌, ◌≤◌, ◌<◌, Bool, true, false, Bytes, length, arith, inl, inr, ◌*◌, ◌%◌,
  ◌^◌, Option-cases,
}
use mslang_c.Lexer.FString.{FragEnd, at_brace, at_quote, failed, fragment_loop}
use mslang_c.Lexer.Keyword.{skip_ident}
use mslang_c.Lexer.Number.{digits_loop, skip_digits, after_fraction, after_exponent, lex_digit_val}
use mslang_c.Lexer.Quoted.{quoted_loop}
use mslang_c.Lexer.Scan.{skip_comment, skip_blanks}
use mslang_c.Lexer.State.{LexError, byte_at}

-- A position from `lo` up to the end of `src`.
abbrev pub Between : Bytes → ℕ → ℕ → Type 0
Between src lo p = (lo ≤ p) × (p ≤ length src)

pub skip_digits-Between :
    (fuel : ℕ) (src : Bytes) (pos : ℕ)
    → pos ≤ length src
    → Between src pos (skip_digits fuel src pos)
unfolding skip_digits
skip_digits-Between zero src pos h = omega arith
skip_digits-Between (suc fuel) src pos h = ground (arith, skip_digits-Between fuel src (pos + 1))

pub skip_ident-Between :
    (fuel : ℕ) (src : Bytes) (pos : ℕ)
    → pos ≤ length src
    → Between src pos (skip_ident fuel src pos)
unfolding skip_ident
skip_ident-Between zero src pos h = omega arith
skip_ident-Between (suc fuel) src pos h = ground (arith, skip_ident-Between fuel src (pos + 1))

pub skip_comment-Between :
    (fuel : ℕ) (src : Bytes) (pos : ℕ)
    → pos ≤ length src
    → Between src pos (skip_comment fuel src pos)
unfolding skip_comment
skip_comment-Between zero src pos h = omega arith
skip_comment-Between (suc fuel) src pos h = ground (arith, skip_comment-Between fuel src (pos + 1))

pub skip_blanks-Between :
    (fuel : ℕ) (src : Bytes) (pos : ℕ)
    → pos ≤ length src
    → Between src pos (skip_blanks fuel src pos)
unfolding skip_blanks byte_at
skip_blanks-Between zero src pos h = omega arith
skip_blanks-Between (suc fuel) src pos h =
    let p = skip_comment (length src - (pos + 2)) src (pos + 2) in
    ground (
      arith,
      skip_blanks-Between fuel src (pos + 1),
      skip_comment-Between (length src - (pos + 2)) src (pos + 2),
      skip_blanks-Between fuel src p,
    )

pub digits_loop-Between :
    (fuel : ℕ) (src : Bytes) (base pos val : ℕ) (last_was_sep any : Bool)
    → pos ≤ length src
    → Between src pos (digits_loop fuel src base pos val last_was_sep any).pos
unfolding digits_loop
digits_loop-Between zero src base pos val last_was_sep any h = omega arith
digits_loop-Between (suc fuel) src base pos val last_was_sep any h =
    elim (Option-cases (lex_digit_val (byte_at src pos) base)) [
      | inl e ↦ ground (arith, digits_loop-Between fuel src base (pos + 1) val true any)
      | inr (dv, e) ↦ ground (
        arith,
        digits_loop-Between fuel src base (pos + 1) val true any,
        digits_loop-Between fuel src base (pos + 1) ((val * base + dv) % 2 ^ 64) false true,
      )
    ]

pub after_fraction-Between :
    (src : Bytes) (pos : ℕ) → pos ≤ length src → Between src pos (after_fraction src pos)
unfolding after_fraction
after_fraction-Between src pos h =
    ground (arith, skip_digits-Between (length src - (pos + 1)) src (pos + 1))

pub after_exponent-Between :
    (src : Bytes) (pos : ℕ) → pos < length src → Between src pos (after_exponent src pos).0
unfolding after_exponent
after_exponent-Between src pos h = ground (
  arith,
  skip_digits-Between (length src - (pos + 1)) src (pos + 1),
  skip_digits-Between (length src - (pos + 2)) src (pos + 2),
)

pub quoted_loop-Between :
    (e : LexError) (ascii : Bool) (fuel : ℕ) (src : Bytes) (pos : ℕ)
    → pos ≤ length src
    → Between src pos (quoted_loop e ascii fuel src pos).0
unfolding quoted_loop
quoted_loop-Between e ascii zero src pos h = omega arith
quoted_loop-Between e ascii (suc fuel) src pos h = ground (
  arith,
  quoted_loop-Between e ascii fuel src (pos + 1),
  quoted_loop-Between e ascii fuel src (pos + 2),
)

-- Where a fragment ends at a byte, that byte is in the source.
abbrev pub Stops : Bytes → ℕ × FragEnd → Type 0
Stops src (p, at_brace) = p < length src
Stops src (p, at_quote) = p < length src
Stops src (p, failed e) = p ≤ length src

pub fragment_loop-Stops :
    (fuel : ℕ) (src : Bytes) (pos : ℕ)
    → pos ≤ length src
    → (pos ≤ (fragment_loop fuel src pos).0) × Stops src (fragment_loop fuel src pos)
unfolding fragment_loop byte_at
fragment_loop-Stops zero src pos h = omega arith
fragment_loop-Stops (suc fuel) src pos h =
    ground (arith, fragment_loop-Stops fuel src (pos + 1), fragment_loop-Stops fuel src (pos + 2))
