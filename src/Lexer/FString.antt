-- ===== src/Lexer/FString.antt =====
-- src/lexer/ms_lexer.c, the text of an f-string outside its embedded expressions.
use mslang_c.Base.{ℕ, zero, suc, ◌+◌, ◌-◌, ◌||◌, Bytes, ◌==◌, if◌then◌else◌, length}
use mslang_c.Lexer.Kind.{TokKind}
use mslang_c.Lexer.Quoted.{is_line_end}
use mslang_c.Lexer.State.{
  LexError, unterminated_fstring, unexpected_fstring_brace, TokVal, Token, SrcPos, Lexer, at_end,
  byte_at, move_to, lex_make_error, fstr_none, fstr_inner, end_pending, expr_start_pending,
}

-- Where a fragment ends: before `{`, before the closing quote, or at an error.
pub data FragEnd : Type 0 where
  at_brace at_quote : FragEnd
  failed : LexError → FragEnd

-- The loop of `lexScanFStringOuter`: the position of its end. The fuel is the number of bytes left.
unfoldable pub fragment_loop : ℕ → Bytes → ℕ → ℕ × FragEnd
fragment_loop zero src pos = (pos, failed unterminated_fstring)
fragment_loop (suc fuel) src pos =
    let c = byte_at src pos in
    let two_on = fragment_loop fuel src (pos + 2) in
    let one_on = fragment_loop fuel src (pos + 1) in
    if at_end src pos
    then (pos, failed unterminated_fstring)
    else if is_line_end c || c == 0
    then (pos, failed unterminated_fstring)
    else if c == b'{'
    then (if byte_at src (pos + 1) == b'{' then two_on else (pos, at_brace))
    else if c == b'}'
    then (if byte_at src (pos + 1) == b'}' then two_on else (pos, failed unexpected_fstring_brace))
    else if c == b'"'
    then (pos, at_quote)
    else if c == b'\\'
    then (if at_end src (pos + 1) || is_line_end (byte_at src (pos + 1))
        then (pos + 1, failed unterminated_fstring)
        else two_on)
    else one_on

-- The fragment's token, which stops before the byte at `frag_end`.
abbrev pub fragment : TokKind → ℕ → SrcPos → ℕ → Token
fragment kind start pos frag_end = record {
  kind = kind;
  pos = pos;
  start = start;
  len = frag_end - start;
  val = TokVal.ival 0;
}

-- The returns of `lexScanFStringOuter`.
unfoldable pub close_fragment : Lexer → TokKind → ℕ → SrcPos → ℕ × FragEnd → Lexer × Token
close_fragment lex kind start pos (p, at_brace) = (
  record lex { pos = p + 1; fstr_state = fstr_inner; fstr_depth = expr_start_pending },
  fragment kind start pos p,
)
close_fragment lex kind start pos (p, at_quote) = (
  record lex { pos = p + 1; fstr_state = fstr_none; fstr_depth = end_pending },
  fragment kind start pos p,
)
close_fragment lex kind start pos (p, failed e) = lex_make_error (move_to lex p) start pos e

-- `lexScanFStringOuter`
unfoldable pub lex_scan_fstring_outer : Lexer → TokKind → ℕ → SrcPos → Lexer × Token
lex_scan_fstring_outer lex kind start pos =
    close_fragment lex kind start pos (fragment_loop (length lex.src - lex.pos) lex.src lex.pos)
