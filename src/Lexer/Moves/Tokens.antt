-- ===== src/Lexer/Moves/Tokens.antt =====
-- src/lexer/ms_lexer.c: the moves of `lexScan` past the first byte of a token.
use mslang_c.Base.{
  ℕ, ◌+◌, ◌-◌, ◌≤◌, ◌≡◌, refl, Bytes, length, arith, ◌==◌, ◌&&◌, ◌||◌, leb, if_both, if_cases,
}
use mslang_c.Lexer.Kind.{tok_fstring_start}
use mslang_c.Lexer.Moves.{Moves}
use mslang_c.Lexer.Moves.Loops.{skip_digits-Between}
use mslang_c.Lexer.Moves.Scanners.{
  lex_scan_operator-Moves, lex_scan_string-Moves, lex_scan_bytes-Moves,
  lex_scan_fstring_outer-Moves, lex_scan_ident-Moves, lex_scan_float_from-Moves,
  lex_scan_number-Moves, Moves-later, byte_at-lt,
}
use mslang_c.Lexer.Number.{after_fraction}
use mslang_c.Lexer.Scan.{scan_token}
use mslang_c.Lexer.State.{
  Lexer, SrcPos, Token, fstr_outer, braces, byte_at, move_to, is_alpha, is_digit,
}

past_dot : (src : Bytes) (p : ℕ) → byte_at src p ≡ b'.' → p + 1 ≤ after_fraction src p
unfolding after_fraction byte_at
past_dot src p h = ground (arith, skip_digits-Between (length src - (p + 1)) src (p + 1))

-- The start of an f-string: past `$"`, in its mode.
abbrev fstring_opened : Lexer → Lexer
fstring_opened lex = record lex {
  pos = lex.pos + 1;
  fstr_state = fstr_outer;
  fstr_depth = braces 0;
}

Moves-fstring_opened :
    (lex : Lexer) (start : ℕ) {r : Lexer × Token}
    → Moves (fstring_opened lex) start r
    → Moves lex start r
Moves-fstring_opened lex start m = ground arith

module _ (strtod : Bytes → ℕ × ℕ) (lex : Lexer) (start : ℕ) (pos : SrcPos) where
  -- The first byte `c`, at `start`, is consumed.
  pub scan_token-Moves :
      (c : ℕ)
      → lex.pos ≡ start + 1
      → lex.pos ≤ length lex.src
      → byte_at lex.src start ≡ c
      → Moves lex start (scan_token strtod lex c start pos)
  unfolding scan_token
  scan_token-Moves c at h e =
      let P = Moves lex start in
      let next = byte_at lex.src lex.pos in
      let opened = move_to lex (lex.pos + 1) in
      let reads = byte_at-lt lex.src lex.pos in
      let before : start ≤ lex.pos = omega arith in
      let the_start : lex.pos - 1 ≡ start = omega arith in
      if_cases P (c == b'b' && next == b'"')
        (λ t.
          let room = reads (ground arith) in
          Moves-later lex start (lex.pos + 1) (omega arith)
            (lex_scan_bytes-Moves opened start pos (omega arith) room))
        λ _.
          if_both P (is_alpha c || c == b'_' || leb 0x80 c)
            (lex_scan_ident-Moves lex start pos before h)
            (if_both P (is_digit c) (lex_scan_number-Moves strtod start pos lex c before h) (
              if_cases P (c == b'.' && is_digit next)
                (λ t.
                  let dot : byte_at lex.src (lex.pos - 1) ≡ b'.' = rw the_start (ground arith) in
                  lex_scan_float_from-Moves strtod start pos lex (lex.pos - 1) before (omega arith)
                    (omega (arith, past_dot lex.src (lex.pos - 1) dot)))
                λ _. if_both P (c == b'"') (lex_scan_string-Moves lex start pos before h) (
                  if_both P (c == b'$')
                    (if_cases P (next == b'"')
                      (λ t.
                        let room = reads (ground arith) in
                        Moves-fstring_opened lex start (
                          lex_scan_fstring_outer-Moves (fstring_opened lex) start pos (omega arith)
                            tok_fstring_start room refl refl))
                      λ _. ground arith)
                    (lex_scan_operator-Moves lex start pos before c h))))
