-- ===== src/Lexer/Moves/Scanners.antt =====
-- src/lexer/ms_lexer.c: the moves of the scanning functions that `lexScan` calls.
use Prim.Native.Nat.{Ordering}
use mslang_c.Base.{
  ltb, ℕ, zero, suc, ◌+◌, ◌-◌, ◌≤◌, ◌<◌, ◌≡◌, refl, true, false, Bytes, length, arith, Bool, Option,
  none, some, inl, inr, ◌==◌, ◌&&◌, ◌||◌, Option-cases, if_both, if_cases, not, ◌/◌, [], all-get_or,
}
use mslang_c.Lexer.FString.{
  FragEnd, at_brace, at_quote, failed, close_fragment, lex_scan_fstring_outer,
}
use mslang_c.Lexer.Keyword.{
  keywords, keyword_count, keyword_at, compare_word, search_keyword, skip_ident, lex_scan_ident,
  lex_lookup_keyword,
}
use mslang_c.Lexer.Kind.{tok_ident, TokKind, is_newline, is_eof, tok_string, tok_bytes}
use mslang_c.Lexer.Moves.{Moves}
use mslang_c.Lexer.Moves.Loops.{
  skip_ident-Between, digits_loop-Between, after_fraction-Between, after_exponent-Between,
  quoted_loop-Between, fragment_loop-Stops, Between, Stops,
}
use mslang_c.Lexer.Number.{
  number_token, Digits, lex_scan_prefixed_int, convert_float, lex_scan_float, finish_number,
  lex_scan_number, after_fraction, after_exponent, slice, next_in,
}
use mslang_c.Lexer.Operator.{accept, scan_delimiter, scan_comparison, lex_scan_operator}
use mslang_c.Lexer.Quoted.{close_quoted, lex_scan_string, lex_scan_bytes}
use mslang_c.Lexer.State.{
  Lexer, Token, SrcPos, LexError, no_exponent_digits, leading_zeros, is_digit, byte_at, move_to,
  lex_make_error,
}

module _ (lex : Lexer) (start : ℕ) (pos : SrcPos) (before : start ≤ lex.pos) where
  accept-Moves :
      (kind : TokKind) (p : ℕ)
      → Between lex.src lex.pos p
      → is_newline kind ≡ false
      → is_eof kind ≡ false
      → Moves lex start (accept start pos kind (move_to lex p))
  accept-Moves kind p h n e = ground arith

  error-Moves :
      (msg : LexError) (p : ℕ)
      → Between lex.src lex.pos p
      → Moves lex start (lex_make_error (move_to lex p) start pos msg)
  error-Moves msg p h = ground arith

  scan_delimiter-Moves :
      (c : ℕ) → lex.pos ≤ length lex.src → Moves lex start (scan_delimiter lex c start pos)
  unfolding scan_delimiter
  scan_delimiter-Moves c h = ground arith

  scan_comparison-Moves :
      (c : ℕ) → lex.pos ≤ length lex.src → Moves lex start (scan_comparison lex c start pos)
  unfolding scan_comparison byte_at
  scan_comparison-Moves c h = ground (arith, scan_delimiter-Moves c h)

  pub lex_scan_operator-Moves :
      (c : ℕ) → lex.pos ≤ length lex.src → Moves lex start (lex_scan_operator lex c start pos)
  unfolding lex_scan_operator byte_at
  lex_scan_operator-Moves c h = ground (arith, scan_comparison-Moves c h)

  close_quoted-Moves :
      (kind : TokKind) (r : ℕ × Option LexError)
      → Between lex.src lex.pos r.0
      → is_newline kind ≡ false
      → is_eof kind ≡ false
      → Moves lex start (close_quoted lex kind start pos r)
  unfolding close_quoted
  close_quoted-Moves kind (p, none) h n e = accept-Moves kind p h n e
  close_quoted-Moves kind (p, some msg) h n e = error-Moves msg p h

  pub lex_scan_string-Moves :
      lex.pos ≤ length lex.src → Moves lex start (lex_scan_string lex start pos)
  unfolding lex_scan_string
  lex_scan_string-Moves h =
      close_quoted-Moves tok_string _ (quoted_loop-Between _ false _ lex.src lex.pos h) refl refl

  pub lex_scan_bytes-Moves :
      lex.pos ≤ length lex.src → Moves lex start (lex_scan_bytes lex start pos)
  unfolding lex_scan_bytes
  lex_scan_bytes-Moves h =
      close_quoted-Moves tok_bytes _ (quoted_loop-Between _ true _ lex.src lex.pos h) refl refl

  close_fragment-Moves :
      (kind : TokKind) (r : ℕ × FragEnd)
      → lex.pos ≤ r.0
      → Stops lex.src r
      → is_newline kind ≡ false
      → is_eof kind ≡ false
      → Moves lex start (close_fragment lex kind start pos r)
  unfolding close_fragment
  close_fragment-Moves kind (p, at_brace) h s n e = ground arith
  close_fragment-Moves kind (p, at_quote) h s n e = ground arith
  close_fragment-Moves kind (p, failed msg) h s n e = error-Moves msg p (h, s)

  pub lex_scan_fstring_outer-Moves :
      (kind : TokKind)
      → lex.pos ≤ length lex.src
      → is_newline kind ≡ false
      → is_eof kind ≡ false
      → Moves lex start (lex_scan_fstring_outer lex kind start pos)
  unfolding lex_scan_fstring_outer
  lex_scan_fstring_outer-Moves kind h n e =
      let s = fragment_loop-Stops _ lex.src lex.pos h in close_fragment-Moves kind _ s.0 s.1 n e

-- A function that moves on from a position reached moves on from before.
pub Moves-later :
    (lex : Lexer) (start p : ℕ) {r : Lexer × Token}
    → lex.pos ≤ p
    → Moves (move_to lex p) start r
    → Moves lex start r
Moves-later lex start p h m = ground arith

abbrev plain : TokKind → Bool
plain kind = not (is_newline kind) && not (is_eof kind)

abbrev IsPlain : TokKind → Type 0
IsPlain kind = plain kind ≡ true

search_keyword-IsPlain :
    (fuel : ℕ) (w : Bytes) (lo end : ℕ) → IsPlain (search_keyword fuel w lo end)
unfolding search_keyword
search_keyword-IsPlain zero w lo end = refl
search_keyword-IsPlain (suc fuel) w lo end =
    let mid = (lo + (end - 1)) / 2 in
    if_both IsPlain (ltb lo end) {no = tok_ident}
      (elim (compare_word w (keyword_at mid).0)
        as (λ o. IsPlain (elim o [
          | Ordering.lt ↦ search_keyword fuel w lo mid
          | Ordering.gt ↦ search_keyword fuel w (mid + 1) end
          | Ordering.eq ↦ (keyword_at mid).1
        ])) [
          | Ordering.lt ↦ search_keyword-IsPlain fuel w lo mid
          | Ordering.gt ↦ search_keyword-IsPlain fuel w (mid + 1) end
          | Ordering.eq ↦
              all-get_or (λ (k : Bytes × TokKind). plain k.1) keywords mid ([], tok_ident) refl refl
        ])
      refl

pub lex_scan_ident-Moves :
    (lex : Lexer) (start : ℕ) (pos : SrcPos)
    → start ≤ lex.pos
    → lex.pos ≤ length lex.src
    → Moves lex start (lex_scan_ident lex start pos)
unfolding lex_scan_ident lex_lookup_keyword
lex_scan_ident-Moves lex start pos before h =
    let p = skip_ident (length lex.src - lex.pos) lex.src lex.pos in
    let w = slice lex.src start (p - start) in
    let k = search_keyword-IsPlain (keyword_count + 1) w 0 keyword_count in
    accept-Moves lex start pos before (lex_lookup_keyword w) p
      (skip_ident-Between (length lex.src - lex.pos) lex.src lex.pos h) (ground (arith, k))
      (ground (arith, k))

pub byte_at-lt : (src : Bytes) (p : ℕ) → 0 < byte_at src p → p + 1 ≤ length src
unfolding byte_at
byte_at-lt src p h = ground arith

module _ (strtod : Bytes → ℕ × ℕ) (start : ℕ) (pos : SrcPos) where
  next_in-lt : (src : Bytes) (p : ℕ) (test : ℕ → Bool) → next_in src p test ≡ true → p < length src
  next_in-lt src p test h = ground arith

  convert_float-Moves :
      (lex : Lexer)
      → start ≤ lex.pos
      → lex.pos ≤ length lex.src
      → Moves lex start (convert_float strtod lex start pos)
  unfolding convert_float
  convert_float-Moves lex before h = ground arith

  -- A float literal that starts at `from`, which may lie before the lexer's position.
  pub lex_scan_float_from-Moves :
      (lex : Lexer) (from : ℕ)
      → start ≤ lex.pos
      → from ≤ length lex.src
      → lex.pos ≤ after_fraction lex.src from
      → Moves lex start (lex_scan_float strtod (move_to lex from) start pos)
  unfolding lex_scan_float
  lex_scan_float_from-Moves lex from before h past =
      let p = after_fraction lex.src from in
      let q = (after_exponent lex.src p).0 in
      let f = after_fraction-Between lex.src from h in
      if_cases (Moves lex start) _
        (λ (more : next_in lex.src p (λ c. c == b'e' || c == b'E') ≡ true).
          let (e₀, e₁) =
            after_exponent-Between lex.src p
              (next_in-lt lex.src p (λ c. c == b'e' || c == b'E') more) in
          if_both (Moves lex start) (after_exponent lex.src p).1
            (Moves-later lex start q (omega arith)
              (convert_float-Moves (move_to lex q) (omega arith) (omega arith)))
            (error-Moves lex start pos before no_exponent_digits q (omega arith)))
        (λ _.
          Moves-later lex start p past
            (convert_float-Moves (move_to lex p) (omega arith) (omega arith)))

  pub lex_scan_float-Moves :
      (lex : Lexer)
      → start ≤ lex.pos
      → lex.pos ≤ length lex.src
      → Moves lex start (lex_scan_float strtod lex start pos)
  lex_scan_float-Moves lex before h =
      lex_scan_float_from-Moves lex lex.pos before h (after_fraction-Between lex.src lex.pos h).0

  number_token-Moves :
      (lex : Lexer) (uval : ℕ) (int_has_sep : Bool)
      → start ≤ lex.pos
      → lex.pos ≤ length lex.src
      → Moves lex start (number_token strtod lex uval int_has_sep start pos)
  unfolding number_token
  number_token-Moves lex uval int_has_sep before h =
      let peek = byte_at lex.src lex.pos in
      if_both (Moves lex start)
        ((peek == b'e' || peek == b'E')
          || (peek == b'.' && not (byte_at lex.src (lex.pos + 1) == b'.')))
        (if_both (Moves lex start) int_has_sep (ground arith) (lex_scan_float-Moves lex before h))
        (ground arith)

  finish_number-Moves :
      (lex : Lexer) (d : Digits) (int_has_sep : Bool)
      → start ≤ lex.pos
      → Between lex.src lex.pos d.pos
      → Moves lex start (finish_number strtod lex d int_has_sep start pos)
  unfolding finish_number
  finish_number-Moves lex d int_has_sep before h = elim (Option-cases d.err) [
    | inr (e, p) ↦ rw (p, finish_number) (error-Moves lex start pos before e d.pos h)
    | inl p ↦
        rw (p, finish_number)
          (Moves-later lex start d.pos (omega arith)
            (number_token-Moves (move_to lex d.pos) d.val int_has_sep (omega arith) (omega arith)))
  ]

  lex_scan_prefixed_int-Between :
      (lex : Lexer) (base : ℕ) (e : LexError)
      → lex.pos < length lex.src
      → Between lex.src lex.pos (lex_scan_prefixed_int lex base e).pos
  unfolding lex_scan_prefixed_int
  lex_scan_prefixed_int-Between lex base e h = ground (
    arith,
    digits_loop-Between (length lex.src - (lex.pos + 1)) lex.src base (lex.pos + 1) 0 false false,
  )

  pub lex_scan_number-Moves :
      (lex : Lexer) (first : ℕ)
      → start ≤ lex.pos
      → lex.pos ≤ length lex.src
      → Moves lex start (lex_scan_number strtod lex first start pos)
  unfolding lex_scan_number
  lex_scan_number-Moves lex first before h =
      let P = Moves lex start in
      let next = byte_at lex.src lex.pos in
      let within = byte_at-lt lex.src lex.pos in
      let prefixed : (base : ℕ) (e : LexError)
          → lex.pos < length lex.src
          → P (finish_number strtod lex (lex_scan_prefixed_int lex base e) false start pos) =
        λ base e p.
          finish_number-Moves lex _ false before (lex_scan_prefixed_int-Between lex base e p) in
      if_both P (first == b'0')
        (if_cases P (next == b'x' || next == b'X')
          (λ t. prefixed 16 _ (omega (arith, within (ground arith))))
          λ _.
            if_cases P (next == b'o' || next == b'O')
              (λ t. prefixed 8 _ (omega (arith, within (ground arith))))
              λ _.
                if_cases P (next == b'b' || next == b'B')
                  (λ t. prefixed 2 _ (omega (arith, within (ground arith))))
                  λ _.
                    if_both P (next == b'.' || next == b'e' || next == b'E')
                      (lex_scan_float-Moves lex before h)
                      (if_both P (is_digit next)
                        (error-Moves lex start pos before leading_zeros lex.pos (omega arith))
                        (finish_number-Moves lex _ false before (omega arith))))
        (finish_number-Moves lex _ _ before (
          digits_loop-Between (length lex.src - lex.pos) lex.src 10 lex.pos (first - b'0') false
            true h))
