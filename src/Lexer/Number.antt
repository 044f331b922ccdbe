-- ===== src/Lexer/Number.antt =====
-- src/lexer/ms_lexer.c, integer and float literals. `strtod` of the C library is a parameter: the
-- 64-bit pattern of the number that it reads, and how many bytes it reads.
pub mod Digit
pub mod Value
use mslang_c.Base.{
  ℕ, zero, suc, ◌+◌, ◌-◌, ◌*◌, ◌%◌, ◌^◌, Bool, true, false, not, ◌&&◌, ◌||◌, Option, none, some, [],
  ◌∷◌, Bytes, leb, ltb, ◌==◌, if◌then◌else◌, length, take, drop,
}
use mslang_c.Lexer.Kind.{tok_int, tok_float}
use mslang_c.Lexer.State.{
  LexError, invalid_separator, consecutive_separators, trailing_separator, no_hex_digits,
  no_octal_digits, no_binary_digits, leading_zeros, no_exponent_digits, float_too_long,
  invalid_float, float_separator, TokVal, Token, SrcPos, Lexer, at_end, byte_at, lex_peek_byte,
  lex_peek_byte2, move_to, lex_make_token, lex_make_error, is_digit,
}

abbrev in_base : ℕ → ℕ → Option ℕ
in_base base v = if ltb v base then some v else none

-- `lexDigitVal`; none is -1.
unfoldable pub lex_digit_val : ℕ → ℕ → Option ℕ
lex_digit_val c base =
    if leb b'0' c && leb c b'9'
    then in_base base (c - b'0')
    else if leb b'a' c && leb c b'f'
    then in_base base (c - b'a' + 10)
    else if leb b'A' c && leb c b'F'
    then in_base base (c - b'A' + 10)
    else none

-- What `lexParseDigits` leaves: `lex->pos`, the value that it returns, and `*err`.
pub record Digits : Type 0 where
  pub pos : ℕ
  pub val : ℕ
  pub err : Option LexError

-- The loop of `lexParseDigits` and what follows it. The fuel is the number of bytes left.
unfoldable pub digits_loop : ℕ → Bytes → ℕ → ℕ → ℕ → Bool → Bool → Digits
digits_loop zero src base pos val last_was_sep any = record {
  pos = pos;
  val = val;
  err = if last_was_sep then some trailing_separator else none;
}
digits_loop (suc fuel) src base pos val last_was_sep any =
    let stop : Digits = record {
      pos = pos;
      val = val;
      err = if last_was_sep then some trailing_separator else none;
    } in
    let c = byte_at src pos in
    let after_sep = digits_loop fuel src base (pos + 1) val true any in
    if at_end src pos
    then stop
    else if c == b'_'
    then (if not any
        then record { pos = pos; val = val; err = some invalid_separator }
        else if last_was_sep
        then record { pos = pos; val = val; err = some consecutive_separators }
        else after_sep)
    else elim (lex_digit_val c base) [
      | none ↦ stop
      | some dv ↦ digits_loop fuel src base (pos + 1) ((val * base + dv) % 2 ^ 64) false true
    ]

-- `lexParseDigits`
abbrev pub lex_parse_digits : Lexer → ℕ → ℕ → Bool → Digits
lex_parse_digits lex base init has_init =
    digits_loop (length lex.src - lex.pos) lex.src base lex.pos init false has_init

-- `lexScanPrefixedInt`: the position is at the letter of the prefix.
unfoldable pub lex_scan_prefixed_int : Lexer → ℕ → LexError → Digits
lex_scan_prefixed_int lex base empty_err =
    let digits_start = lex.pos + 1 in
    let d = lex_parse_digits (move_to lex digits_start) base 0 false in
    elim d.err [
      | some e ↦ d
      | none ↦ if d.pos == digits_start then record d { err = some empty_err } else d
    ]

-- `while (!lexAtEnd(lex) && …digit…) lex->pos++;`
unfoldable pub skip_digits : ℕ → Bytes → ℕ → ℕ
skip_digits zero src pos = pos
skip_digits (suc fuel) src pos =
    let rest = skip_digits fuel src (pos + 1) in
    if not (at_end src pos) && is_digit (byte_at src pos) then rest else pos

abbrev pub digits_end : Bytes → ℕ → ℕ
digits_end src pos = skip_digits (length src - pos) src pos

abbrev pub next_in : Bytes → ℕ → (ℕ → Bool) → Bool
next_in src pos test = not (at_end src pos) && test (byte_at src pos)

-- The fraction of a float literal: past `.` and digits, or where it is.
unfoldable pub after_fraction : Bytes → ℕ → ℕ
after_fraction src pos = if next_in src pos (λ c. c == b'.') then digits_end src (pos + 1) else pos

-- The exponent, with its letter at `pos`: the position reached, and whether it has a digit.
unfoldable pub after_exponent : Bytes → ℕ → ℕ × Bool
after_exponent src pos =
    let signed = next_in src (pos + 1) (λ c. c == b'+' || c == b'-') in
    let p = if signed then pos + 2 else pos + 1 in
    if next_in src p is_digit then (digits_end src p, true) else (p, false)

abbrev pub slice : Bytes → ℕ → ℕ → Bytes
slice src start len = take len (drop start src)

-- `FLOAT_BUF_MAX`
abbrev pub float_buf_max : ℕ
float_buf_max = 64

unfoldable pub has_underscore : Bytes → Bool
has_underscore [] = false
has_underscore (c ∷ cs) = c == b'_' || has_underscore cs

module _ (strtod : Bytes → ℕ × ℕ) where
  -- The end of `lexScanFloat`, at the end of the literal's text.
  unfoldable pub convert_float : Lexer → ℕ → SrcPos → Lexer × Token
  convert_float lex start pos =
      let len = lex.pos - start in
      let (bits, used) = strtod (slice lex.src start len) in
      if leb float_buf_max len
      then lex_make_error lex start pos float_too_long
      else if not (used == len)
      then lex_make_error lex start pos invalid_float
      else (lex, record (lex_make_token lex tok_float start pos) { val = TokVal.fval bits })

  -- `lexScanFloat`
  unfoldable pub lex_scan_float : Lexer → ℕ → SrcPos → Lexer × Token
  lex_scan_float lex start pos =
      let p = after_fraction lex.src lex.pos in
      let (q, good) = after_exponent lex.src p in
      if next_in lex.src p (λ c. c == b'e' || c == b'E')
      then (if good
          then convert_float (move_to lex q) start pos
          else lex_make_error (move_to lex q) start pos no_exponent_digits)
      else convert_float (move_to lex p) start pos

  -- `lexScanNumber`, past a good integer part of the value `uval`.
  unfoldable pub number_token : Lexer → ℕ → Bool → ℕ → SrcPos → Lexer × Token
  number_token lex uval int_has_sep start pos =
      let peek = lex_peek_byte lex in
      if (peek == b'e' || peek == b'E') || (peek == b'.' && not (lex_peek_byte2 lex == b'.'))
      then (if int_has_sep
          then lex_make_error lex start pos float_separator
          else lex_scan_float lex start pos)
      else (lex, record (lex_make_token lex tok_int start pos) { val = TokVal.ival uval })

  -- `lexScanNumber`, once the integer part is read.
  unfoldable pub finish_number : Lexer → Digits → Bool → ℕ → SrcPos → Lexer × Token
  finish_number lex d int_has_sep start pos = elim d.err [
    | some e ↦ lex_make_error (move_to lex d.pos) start pos e
    | none ↦ number_token (move_to lex d.pos) d.val int_has_sep start pos
  ]

  -- `lexScanNumber`: the first digit is consumed.
  unfoldable pub lex_scan_number : Lexer → ℕ → ℕ → SrcPos → Lexer × Token
  lex_scan_number lex first start pos =
      let next = lex_peek_byte lex in
      let d = lex_parse_digits lex 10 (first - b'0') true in
      if first == b'0'
      then (if next == b'x' || next == b'X'
          then finish_number lex (lex_scan_prefixed_int lex 16 no_hex_digits) false start pos
          else if next == b'o' || next == b'O'
          then finish_number lex (lex_scan_prefixed_int lex 8 no_octal_digits) false start pos
          else if next == b'b' || next == b'B'
          then finish_number lex (lex_scan_prefixed_int lex 2 no_binary_digits) false start pos
          else if next == b'.' || next == b'e' || next == b'E'
          then lex_scan_float lex start pos
          else if is_digit next
          then lex_make_error lex start pos leading_zeros
          else finish_number lex (record { pos = lex.pos; val = 0; err = none }) false start pos)
      else finish_number lex d (has_underscore (slice lex.src (lex.pos - 1) (d.pos + 1 - lex.pos)))
          start pos
