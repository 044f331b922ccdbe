-- ===== src/Lexer/Scan.antt =====
-- src/lexer/ms_lexer.c: `lexScan`, which produces one token, and the functions that callers use.
use mslang_c.Base.{
  ℕ, zero, suc, ◌+◌, ◌-◌, not, ◌&&◌, ◌||◌, Option, none, some, Bytes, leb, ◌==◌, if◌then◌else◌,
  length,
}
use mslang_c.Lexer.Kind.{
  TokKind, is_newline, asi_should_insert, tok_newline, tok_lbrace, tok_rbrace, tok_fstring_start,
  tok_fstring_part, tok_fstring_expr_start, tok_fstring_expr_end, tok_fstring_end,
}
use mslang_c.Lexer.FString.{lex_scan_fstring_outer}
use mslang_c.Lexer.Keyword.{lex_scan_ident}
use mslang_c.Lexer.Number.{lex_scan_float, lex_scan_number}
use mslang_c.Lexer.Operator.{lex_scan_operator}
use mslang_c.Lexer.Quoted.{lex_scan_string, lex_scan_bytes}
use mslang_c.Lexer.State.{
  unexpected_dollar, unterminated_fstring_expr, nested_fstring, Token, SrcPos, Lexer, FStrState,
  fstr_none, fstr_outer, fstr_inner, FStrDepth, braces, end_pending, expr_start_pending, at_end,
  byte_at, lex_at_end, lex_peek_byte, lex_peek_byte2, move_to, lex_consume_newline, lex_current_pos,
  lex_make_token, lex_make_eof, lex_make_error, is_alpha, is_digit,
}

-- `while (!lexAtEnd(lex) && lexPeekByte(lex) != '\n') lex->pos++;`
unfoldable pub skip_comment : ℕ → Bytes → ℕ → ℕ
skip_comment zero src pos = pos
skip_comment (suc fuel) src pos =
    let rest = skip_comment fuel src (pos + 1) in
    if not (at_end src pos) && not (byte_at src pos == b'\n') then rest else pos

-- The loop that skips blanks and line comments. The fuel is the number of bytes left.
unfoldable pub skip_blanks : ℕ → Bytes → ℕ → ℕ
skip_blanks zero src pos = pos
skip_blanks (suc fuel) src pos =
    let c = byte_at src pos in
    let rest = skip_blanks fuel src (pos + 1) in
    let past = skip_blanks fuel src (skip_comment (length src - (pos + 2)) src (pos + 2)) in
    if at_end src pos
    then pos
    else if c == b' ' || c == b'\t' || c == b'\r'
    then rest
    else if c == b'/' && byte_at src (pos + 1) == b'/'
    then past
    else pos

abbrev pub blanks_end : Bytes → ℕ → ℕ
blanks_end src pos = skip_blanks (length src - pos) src pos

-- `fstrDepth++` and `fstrDepth--`. The code makes the latter at depth 1 or more; the value -3 of
-- the last case does not arise.
abbrev pub depth_up : FStrDepth → FStrDepth
depth_up (braces n) = braces (n + 1)
depth_up end_pending = braces 0
depth_up expr_start_pending = end_pending

abbrev pub depth_down : FStrDepth → FStrDepth
depth_down (braces zero) = end_pending
depth_down (braces (suc n)) = braces n
depth_down end_pending = expr_start_pending
depth_down expr_start_pending = expr_start_pending

-- An f-string's `}`: the depth is lowered already.
unfoldable pub close_brace : Lexer → ℕ → SrcPos → FStrDepth → Lexer × Token
close_brace lex start pos (braces zero) = (
  record lex { fstr_state = fstr_outer; fstr_depth = braces 0 },
  lex_make_token lex tok_fstring_expr_end start pos,
)
close_brace lex start pos depth =
    (record lex { fstr_depth = depth }, lex_make_token lex tok_rbrace start pos)

module _ (strtod : Bytes → ℕ × ℕ) where
  -- The part of `lexScan` that dispatches on the first byte `c` of a token, which is consumed.
  unfoldable pub scan_token : Lexer → ℕ → ℕ → SrcPos → Lexer × Token
  scan_token lex c start pos =
      let next = lex_peek_byte lex in
      let opened = move_to lex (lex.pos + 1) in
      if c == b'b' && next == b'"'
      then lex_scan_bytes opened start pos
      else if is_alpha c || c == b'_' || leb 0x80 c
      then lex_scan_ident lex start pos
      else if is_digit c
      then lex_scan_number strtod lex c start pos
      else if c == b'.' && is_digit next
      then lex_scan_float strtod (move_to lex (lex.pos - 1)) start pos
      else if c == b'"'
      then lex_scan_string lex start pos
      else if c == b'$'
      then (if next == b'"'
          then lex_scan_fstring_outer
              (record opened { fstr_state = fstr_outer; fstr_depth = braces 0 }) tok_fstring_start
              start pos
          else lex_make_error lex start pos unexpected_dollar)
      else lex_scan_operator lex c start pos

  -- The outer loop of `lexScan`: a round past each newline that ends no statement. With one round
  -- more than there are bytes left, the loop does not run out of fuel.
  unfoldable pub scan_loop : ℕ → Lexer → Lexer × Token
  scan_loop zero lex = (lex, lex_make_eof lex)
  scan_loop (suc fuel) lex =
      let start = blanks_end lex.src lex.pos in
      let lex₁ = move_to lex start in
      let pos = lex_current_pos lex₁ in
      let lex₂ = move_to lex (start + 1) in
      let lex₃ = lex_consume_newline lex₂ in
      let again = scan_loop fuel lex₃ in
      if lex_at_end lex₁
      then (lex₁, lex_make_eof lex₁)
      else if lex_peek_byte lex₁ == b'\n'
      then (if asi_should_insert lex.prev_kind
          then (record lex₃ { prev_kind = tok_newline }, lex_make_token lex₃ tok_newline start pos)
          else again)
      else scan_token lex₂ (lex_peek_byte lex₁) start pos

  unfoldable pub scan_normal : Lexer → Lexer × Token
  scan_normal lex = scan_loop (suc (length lex.src - lex.pos)) lex

  -- `lexScan` inside an embedded expression, once its start token is out.
  unfoldable pub scan_inner : Lexer → Lexer × Token
  scan_inner lex =
      let lex₁ = move_to lex (blanks_end lex.src lex.pos) in
      let start = lex₁.pos in
      let pos = lex_current_pos lex₁ in
      let c = lex_peek_byte lex₁ in
      let lex₂ = move_to lex₁ (start + 1) in
      if lex_at_end lex₁
      then lex_make_error lex₁ start pos unterminated_fstring_expr
      else if c == b'{'
      then (
        record lex₂ { fstr_depth = depth_up lex.fstr_depth },
        lex_make_token lex₂ tok_lbrace start pos,
      )
      else if c == b'}'
      then close_brace lex₂ start pos (depth_down lex.fstr_depth)
      else if c == b'$' && lex_peek_byte2 lex₁ == b'"'
      then lex_make_error lex₂ start pos nested_fstring
      else scan_normal lex₁

  -- A token of no length, where a pending one is put out.
  abbrev pub pending : Lexer → FStrDepth → TokKind → Lexer × Token
  pending lex depth kind =
      (record lex { fstr_depth = depth }, lex_make_token lex kind lex.pos (lex_current_pos lex))

  -- `lexScan`, on the state and the depth of f-strings.
  unfoldable pub scan_in : FStrState → FStrDepth → Lexer → Lexer × Token
  scan_in fstr_none end_pending lex = pending lex (braces 0) tok_fstring_end
  scan_in fstr_none depth lex = scan_normal lex
  scan_in fstr_inner expr_start_pending lex = pending lex (braces 1) tok_fstring_expr_start
  scan_in fstr_inner depth lex = scan_inner lex
  scan_in fstr_outer depth lex =
      lex_scan_fstring_outer lex tok_fstring_part lex.pos (lex_current_pos lex)

  abbrev pub lex_scan : Lexer → Lexer × Token
  lex_scan lex = scan_in lex.fstr_state lex.fstr_depth lex

  -- The end of `msLexerNext`.
  abbrev pub note_kind : Lexer × Token → Lexer × Token
  note_kind (lex, t) = (if is_newline t.kind then lex else record lex { prev_kind = t.kind }, t)

  unfoldable pub next_from : Option Token → Lexer → Lexer × Token
  next_from none lex = note_kind (lex_scan lex)
  next_from (some t) lex = note_kind (record lex { peek = none }, t)

  -- `msLexerNext`
  unfoldable pub lexer_next : Lexer → Lexer × Token
  lexer_next lex = next_from lex.peek lex

  unfoldable pub peek_from : Option Token → Lexer → Lexer × Token
  peek_from none lex = let (lex', t) = lex_scan lex in (record lex' { peek = some t }, t)
  peek_from (some t) lex = (lex, t)

  -- `msLexerPeek`
  unfoldable pub lexer_peek : Lexer → Lexer × Token
  lexer_peek lex = peek_from lex.peek lex

  -- `msLexerNextSkipNewline`: `none` means that the fuel ran out.
  unfoldable pub lexer_next_skip_newline : ℕ → Lexer → Option (Lexer × Token)
  lexer_next_skip_newline zero lex = none
  lexer_next_skip_newline (suc fuel) lex =
      let (lex', t) = lexer_next lex in
      let again = lexer_next_skip_newline fuel lex' in
      if is_newline t.kind then again else some (lex', t)
