-- ===== src/Lexer/Mode.antt =====
-- src/lexer/ms_lexer.c: which tokens change the mode of f-strings.
use mslang_c.Base.{
  length, zero, suc, zero, suc, ◌==◌, ◌&&◌, ◌||◌, if_both, if_cases, ==_iff, leb, ℕ, ◌+◌, ◌-◌, ◌≡◌,
  refl, Bytes, arith, ◌≢◌, inl, inr, Option, none, some, Option-cases, Bool, false,
}
use mslang_c.Lexer.Keyword.{lex_scan_ident}
use mslang_c.Lexer.Kind.{TokKind, asi_should_insert}
use mslang_c.Lexer.Number.{
  after_fraction, after_exponent, next_in, Digits, convert_float, lex_scan_float, number_token,
  finish_number, lex_scan_number,
}
use mslang_c.Lexer.Operator.{scan_delimiter, scan_comparison, lex_scan_operator}
use mslang_c.Lexer.Quoted.{close_quoted, lex_scan_string, lex_scan_bytes}
use mslang_c.Lexer.Scan.{scan_normal, scan_loop, blanks_end, scan_loop, scan_token}
use mslang_c.Lexer.State.{
  Lexer, Token, at_end, lex_consume_newline, lex_current_pos, byte_at, is_digit, is_alpha, SrcPos,
  FStrState, FStrDepth, LexError, move_to,
}

abbrev pub mode : Lexer → FStrState × FStrDepth
mode lex = (lex.fstr_state, lex.fstr_depth)

abbrev Same : Lexer → Lexer × Token → Type 0
Same lex r = mode r.0 ≡ mode lex

module _ (lex : Lexer) (start : ℕ) (pos : SrcPos) where
  mode-lex_scan_operator : (c : ℕ) → mode (lex_scan_operator lex c start pos).0 ≡ mode lex
  unfolding lex_scan_operator
  mode-lex_scan_operator c = ground (arith, mode-scan_comparison c)
    where
      mode-scan_delimiter : (c : ℕ) → mode (scan_delimiter lex c start pos).0 ≡ mode lex
      mode-scan_delimiter c = unfold scan_delimiter in ground arith

      mode-scan_comparison : (c : ℕ) → mode (scan_comparison lex c start pos).0 ≡ mode lex
      mode-scan_comparison c = unfold scan_comparison in ground (arith, mode-scan_delimiter c)

  mode-close_quoted :
      (kind : TokKind) (r : ℕ × Option LexError)
      → mode (close_quoted lex kind start pos r).0 ≡ mode lex
  unfolding close_quoted
  mode-close_quoted kind (p, none) = refl
  mode-close_quoted kind (p, some e) = refl

  mode-lex_scan_ident : mode (lex_scan_ident lex start pos).0 ≡ mode lex
  unfolding lex_scan_ident
  mode-lex_scan_ident = refl

  mode-lex_scan_string : mode (lex_scan_string lex start pos).0 ≡ mode lex
  unfolding lex_scan_string
  mode-lex_scan_string = mode-close_quoted _ _

  mode-lex_scan_bytes : mode (lex_scan_bytes lex start pos).0 ≡ mode lex
  unfolding lex_scan_bytes
  mode-lex_scan_bytes = mode-close_quoted _ _

  module _ (strtod : Bytes → ℕ × ℕ) where
    mode-convert_float : mode (convert_float strtod lex start pos).0 ≡ mode lex
    unfolding convert_float
    mode-convert_float = ground arith

module _ (strtod : Bytes → ℕ × ℕ) (start : ℕ) (pos : SrcPos) where
  mode-lex_scan_float : (lex : Lexer) → mode (lex_scan_float strtod lex start pos).0 ≡ mode lex
  unfolding lex_scan_float
  mode-lex_scan_float lex =
      let P = Same lex in
      let p = after_fraction lex.src lex.pos in
      if_both P (next_in lex.src p (λ c. c == b'e' || c == b'E'))
        (if_both P (after_exponent lex.src p).1
          (mode-convert_float (move_to lex (after_exponent lex.src p).0) start pos strtod) refl)
        (mode-convert_float (move_to lex p) start pos strtod)

  mode-number_token :
      (lex : Lexer) (uval : ℕ) (sep : Bool)
      → mode (number_token strtod lex uval sep start pos).0 ≡ mode lex
  unfolding number_token
  mode-number_token lex uval sep = ground (arith, mode-lex_scan_float lex)

  mode-finish_number :
      (lex : Lexer) (d : Digits) (sep : Bool)
      → mode (finish_number strtod lex d sep start pos).0 ≡ mode lex
  unfolding finish_number
  mode-finish_number lex d sep = elim (Option-cases d.err) [
    | inl e ↦ rw (e, finish_number) (mode-number_token (move_to lex d.pos) d.val sep)
    | inr (m, e) ↦ rw (e, finish_number)
  ]

  mode-lex_scan_number :
      (lex : Lexer) (first : ℕ) → mode (lex_scan_number strtod lex first start pos).0 ≡ mode lex
  unfolding lex_scan_number
  mode-lex_scan_number lex first =
      let P = Same lex in
      let next = byte_at lex.src lex.pos in
      if_both P (first == b'0')
        (if_both P (next == b'x' || next == b'X') (mode-finish_number lex _ false) (
          if_both P (next == b'o' || next == b'O') (mode-finish_number lex _ false) (
            if_both P (next == b'b' || next == b'B') (mode-finish_number lex _ false) (
              if_both P (next == b'.' || next == b'e' || next == b'E') (mode-lex_scan_float lex)
                (if_both P (is_digit next) refl (mode-finish_number lex _ false))))))
        (mode-finish_number lex _ _)

-- A token that begins with any byte but `$` leaves the mode of f-strings as it is.
pub mode-scan_token :
    (strtod : Bytes → ℕ × ℕ) (lex : Lexer) (c start : ℕ) (pos : SrcPos)
    → c ≢ b'$'
    → mode (scan_token strtod lex c start pos).0 ≡ mode lex
unfolding scan_token
mode-scan_token strtod lex c start pos h =
    let P = Same lex in
    let next = byte_at lex.src lex.pos in
    if_both P (c == b'b' && next == b'"')
      (mode-lex_scan_bytes (move_to lex (lex.pos + 1)) start pos)
      (if_both P (is_alpha c || c == b'_' || leb 0x80 c) (mode-lex_scan_ident lex start pos) (
        if_both P (is_digit c) (mode-lex_scan_number strtod start pos lex c) (
          if_both P (c == b'.' && is_digit next)
            (mode-lex_scan_float strtod start pos (move_to lex (lex.pos - 1)))
            (if_both P (c == b'"') (mode-lex_scan_string lex start pos) (
              if_cases P (c == b'$') (λ e. absurd (h ((==_iff c b'$').0 e)))
                λ _. mode-lex_scan_operator lex start pos c)))))

-- In a source with no `$` the whole scan leaves the mode as it is.
mode-scan_loop :
    (strtod : Bytes → ℕ × ℕ) (fuel : ℕ) (lex : Lexer)
    → ((p : ℕ) → byte_at lex.src p ≢ b'$')
    → mode (scan_loop strtod fuel lex).0 ≡ mode lex
unfolding scan_loop
mode-scan_loop strtod zero lex free = refl
mode-scan_loop strtod (suc fuel) lex free =
    let P = Same lex in
    let start = blanks_end lex.src lex.pos in
    let lex₁ = move_to lex start in
    let lex₂ = move_to lex (start + 1) in
    if_both P (at_end lex.src start) refl (
      if_both P (byte_at lex.src start == b'\n')
        (if_both P (asi_should_insert lex.prev_kind) refl
          (mode-scan_loop strtod fuel (lex_consume_newline lex₂) free))
        (mode-scan_token strtod lex₂ (byte_at lex.src start) start (lex_current_pos lex₁)
          (free start)))

pub scan_normal-mode :
    (strtod : Bytes → ℕ × ℕ) (lex : Lexer)
    → ((p : ℕ) → byte_at lex.src p ≢ b'$')
    → mode (scan_normal strtod lex).0 ≡ mode lex
unfolding scan_normal
scan_normal-mode strtod lex free = mode-scan_loop strtod (suc (length lex.src - lex.pos)) lex free
