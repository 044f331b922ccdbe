-- ===== src/Lexer/Operator/Munch.antt =====
-- src/lexer/ms_lexer.c: `lexScanOperator` against the table of operators.
use mathlib.Core.Path.{subst}
use mslang_c.Base.{
  ◌&&◌, ℕ, ◌+◌, ◌≡◌, ◌⊎◌, inl, inr, [], ◌∷◌, length, arith, ◌==◌, if_cases, ==_iff, Bool-cases,
  false, sym,
}
use mslang_c.Lexer.Kind.{tok_error}
use mslang_c.Lexer.Operator.{scan_delimiter, scan_comparison, lex_scan_operator}
use mslang_c.Lexer.Spelling.{operators, first_fit}
use mslang_c.Lexer.State.{Lexer, Token, SrcPos, byte_at}

-- The token is the longest operator that begins the bytes `c`, `d` and `e`, and is as long as its
-- spelling; or none does, and it is an error.
abbrev pub Munches : ℕ → ℕ → ℕ → Token → Type 0
Munches c d e t =
    let fit = first_fit (c ∷ d ∷ e ∷ []) operators in
    (t.kind ≡ fit.1) × ((t.kind ≡ tok_error) ⊎ (t.len ≡ length fit.0))

-- A property of every byte, from that of one byte and that of the others.
on_byte : (Q : ℕ → Type 0) (b c : ℕ) → Q b → (c == b ≡ false → Q c) → Q c
on_byte Q b c hit miss = elim (Bool-cases (c == b)) [
  | inl e ↦ subst Q (sym ((==_iff c b).0 e)) hit
  | inr n ↦ miss n
]

module _ (lex : Lexer) (start : ℕ) (pos : SrcPos) (at : lex.pos ≡ start + 1) where
  Fits : ℕ → Lexer × Token → Type 0
  Fits c r = Munches c (byte_at lex.src lex.pos) (byte_at lex.src (lex.pos + 1)) r.1

  scan_delimiter_comma : Fits b',' (scan_delimiter lex b',' start pos)
  unfolding scan_delimiter first_fit Fits
  scan_delimiter_comma = ground arith

  scan_delimiter_semicolon : Fits b';' (scan_delimiter lex b';' start pos)
  unfolding scan_delimiter first_fit Fits
  scan_delimiter_semicolon = ground arith

  scan_delimiter_lparen : Fits b'(' (scan_delimiter lex b'(' start pos)
  unfolding scan_delimiter first_fit Fits
  scan_delimiter_lparen = ground arith

  scan_delimiter_rparen : Fits b')' (scan_delimiter lex b')' start pos)
  unfolding scan_delimiter first_fit Fits
  scan_delimiter_rparen = ground arith

  scan_delimiter_lbracket : Fits b'[' (scan_delimiter lex b'[' start pos)
  unfolding scan_delimiter first_fit Fits
  scan_delimiter_lbracket = ground arith

  scan_delimiter_rbracket : Fits b']' (scan_delimiter lex b']' start pos)
  unfolding scan_delimiter first_fit Fits
  scan_delimiter_rbracket = ground arith

  scan_delimiter_lbrace : Fits b'{' (scan_delimiter lex b'{' start pos)
  unfolding scan_delimiter first_fit Fits
  scan_delimiter_lbrace = ground arith

  scan_delimiter_rbrace : Fits b'}' (scan_delimiter lex b'}' start pos)
  unfolding scan_delimiter first_fit Fits
  scan_delimiter_rbrace = ground arith

  scan_comparison_assign : Fits b'=' (scan_comparison lex b'=' start pos)
  unfolding scan_comparison first_fit Fits
  scan_comparison_assign =
      let P = Fits b'=' in
      if_cases P (byte_at lex.src lex.pos == b'=') (λ h. ground arith) (λ h. ground arith)

  scan_comparison_bang : Fits b'!' (scan_comparison lex b'!' start pos)
  unfolding scan_comparison first_fit Fits
  scan_comparison_bang =
      let P = Fits b'!' in
      if_cases P (byte_at lex.src lex.pos == b'=') (λ h. ground arith) (λ h. ground arith)

  scan_comparison_lt : Fits b'<' (scan_comparison lex b'<' start pos)
  unfolding scan_comparison first_fit Fits
  scan_comparison_lt =
      let P = Fits b'<' in
      if_cases P (byte_at lex.src lex.pos == b'<')
        (λ m.
          if_cases P (byte_at lex.src (lex.pos + 1) == b'=') (λ h. ground arith)
            (λ h. ground arith))
        (λ m.
          if_cases P (byte_at lex.src lex.pos == b'-') (λ h. ground arith)
            (λ k.
              if_cases P (byte_at lex.src lex.pos == b'=') (λ h. ground arith) (λ h. ground arith)))

  scan_comparison_gt : Fits b'>' (scan_comparison lex b'>' start pos)
  unfolding scan_comparison first_fit Fits
  scan_comparison_gt =
      let P = Fits b'>' in
      if_cases P (byte_at lex.src lex.pos == b'>')
        (λ m.
          if_cases P (byte_at lex.src (lex.pos + 1) == b'=') (λ h. ground arith)
            (λ h. ground arith))
        (λ m. if_cases P (byte_at lex.src lex.pos == b'=') (λ h. ground arith) (λ h. ground arith))

  scan_comparison_colon : Fits b':' (scan_comparison lex b':' start pos)
  unfolding scan_comparison first_fit Fits
  scan_comparison_colon =
      let P = Fits b':' in
      if_cases P (byte_at lex.src lex.pos == b'=') (λ h. ground arith) (λ h. ground arith)

  scan_comparison_dot : Fits b'.' (scan_comparison lex b'.' start pos)
  unfolding scan_comparison first_fit Fits
  scan_comparison_dot =
      let P = Fits b'.' in
      if_cases P (byte_at lex.src lex.pos == b'.' && byte_at lex.src (lex.pos + 1) == b'.')
        (λ h. ground arith) (λ h. ground arith)

  lex_scan_operator_plus : Fits b'+' (lex_scan_operator lex b'+' start pos)
  unfolding lex_scan_operator first_fit Fits
  lex_scan_operator_plus =
      let P = Fits b'+' in
      if_cases P (byte_at lex.src lex.pos == b'+') (λ h. ground arith)
        (λ k. if_cases P (byte_at lex.src lex.pos == b'=') (λ h. ground arith) (λ h. ground arith))

  lex_scan_operator_minus : Fits b'-' (lex_scan_operator lex b'-' start pos)
  unfolding lex_scan_operator first_fit Fits
  lex_scan_operator_minus =
      let P = Fits b'-' in
      if_cases P (byte_at lex.src lex.pos == b'-') (λ h. ground arith)
        (λ k. if_cases P (byte_at lex.src lex.pos == b'=') (λ h. ground arith) (λ h. ground arith))

  lex_scan_operator_star : Fits b'*' (lex_scan_operator lex b'*' start pos)
  unfolding lex_scan_operator first_fit Fits
  lex_scan_operator_star =
      let P = Fits b'*' in
      if_cases P (byte_at lex.src lex.pos == b'*') (λ h. ground arith)
        (λ k. if_cases P (byte_at lex.src lex.pos == b'=') (λ h. ground arith) (λ h. ground arith))

  lex_scan_operator_slash : Fits b'/' (lex_scan_operator lex b'/' start pos)
  unfolding lex_scan_operator first_fit Fits
  lex_scan_operator_slash =
      let P = Fits b'/' in
      if_cases P (byte_at lex.src lex.pos == b'=') (λ h. ground arith) (λ h. ground arith)

  lex_scan_operator_percent : Fits b'%' (lex_scan_operator lex b'%' start pos)
  unfolding lex_scan_operator first_fit Fits
  lex_scan_operator_percent =
      let P = Fits b'%' in
      if_cases P (byte_at lex.src lex.pos == b'=') (λ h. ground arith) (λ h. ground arith)

  lex_scan_operator_amp : Fits b'&' (lex_scan_operator lex b'&' start pos)
  unfolding lex_scan_operator first_fit Fits
  lex_scan_operator_amp =
      let P = Fits b'&' in
      if_cases P (byte_at lex.src lex.pos == b'=') (λ h. ground arith) (λ h. ground arith)

  lex_scan_operator_pipe : Fits b'|' (lex_scan_operator lex b'|' start pos)
  unfolding lex_scan_operator first_fit Fits
  lex_scan_operator_pipe =
      let P = Fits b'|' in
      if_cases P (byte_at lex.src lex.pos == b'=') (λ h. ground arith) (λ h. ground arith)

  lex_scan_operator_caret : Fits b'^' (lex_scan_operator lex b'^' start pos)
  unfolding lex_scan_operator first_fit Fits
  lex_scan_operator_caret =
      let P = Fits b'^' in
      if_cases P (byte_at lex.src lex.pos == b'=') (λ h. ground arith) (λ h. ground arith)

  lex_scan_operator_tilde : Fits b'~' (lex_scan_operator lex b'~' start pos)
  unfolding lex_scan_operator first_fit Fits
  lex_scan_operator_tilde = ground arith

  -- With the position one behind the token's start: the token that `lexScanOperator` makes of the
  -- byte `c` and the next two is the longest operator that begins them, with its length; and an
  -- error exactly if no operator does.
  pub lex_scan_operator-Munches :
      (c : ℕ)
      → Munches c
          (byte_at lex.src lex.pos)
          (byte_at lex.src (lex.pos + 1))
          (lex_scan_operator lex c start pos).1
  unfolding lex_scan_operator scan_comparison scan_delimiter first_fit Fits
  lex_scan_operator-Munches c =
      let Q = λ (b : ℕ). Fits b (lex_scan_operator lex b start pos) in
      on_byte Q b'+' c lex_scan_operator_plus λ n0. on_byte Q b'-' c lex_scan_operator_minus λ n1.
        on_byte Q b'*' c lex_scan_operator_star λ n2. on_byte Q b'/' c lex_scan_operator_slash λ n3.
          on_byte Q b'%' c lex_scan_operator_percent λ n4.
            on_byte Q b'&' c lex_scan_operator_amp λ n5.
              on_byte Q b'|' c lex_scan_operator_pipe λ n6.
                on_byte Q b'^' c lex_scan_operator_caret λ n7.
                  on_byte Q b'~' c lex_scan_operator_tilde λ n8.
                    on_byte Q b'=' c scan_comparison_assign λ n9.
                      on_byte Q b'!' c scan_comparison_bang λ n10.
                        on_byte Q b'<' c scan_comparison_lt λ n11.
                          on_byte Q b'>' c scan_comparison_gt λ n12.
                            on_byte Q b':' c scan_comparison_colon λ n13.
                              on_byte Q b'.' c scan_comparison_dot λ n14.
                                on_byte Q b',' c scan_delimiter_comma λ n15.
                                  on_byte Q b';' c scan_delimiter_semicolon λ n16.
                                    on_byte Q b'(' c scan_delimiter_lparen λ n17.
                                      on_byte Q b')' c scan_delimiter_rparen λ n18.
                                        on_byte Q b'[' c scan_delimiter_lbracket λ n19.
                                          on_byte Q b']' c scan_delimiter_rbracket λ n20.
                                            on_byte Q b'{' c scan_delimiter_lbrace λ n21.
                                              on_byte Q b'}' c scan_delimiter_rbrace
                                                λ n22. ground arith
