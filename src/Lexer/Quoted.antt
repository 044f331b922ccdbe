-- ===== src/Lexer/Quoted.antt =====
-- src/lexer/ms_lexer.c, string and bytes literals. The loops move `lex->pos` only.
use mslang_c.Base.{
  ℕ, zero, suc, ◌+◌, ◌-◌, Bool, true, false, ◌&&◌, ◌||◌, Option, none, some, Bytes, leb, ◌==◌,
  if◌then◌else◌, length,
}
use mslang_c.Lexer.Kind.{TokKind, tok_string, tok_bytes}
use mslang_c.Lexer.State.{
  LexError, unterminated_string, unterminated_bytes, non_ascii_byte, Token, SrcPos, Lexer, at_end,
  byte_at, move_to, lex_make_token, lex_make_error,
}

abbrev pub is_line_end : ℕ → Bool
is_line_end c = c == b'\n' || c == b'\r'

-- The loop of `lexScanString`, and with `ascii` that of `lexScanBytes`: the position where it ends,
-- and none if it is past the closing quote. The fuel is the number of bytes left.
unfoldable pub quoted_loop : LexError → Bool → ℕ → Bytes → ℕ → ℕ × Option LexError
quoted_loop unterminated ascii zero src pos = (pos, some unterminated)
quoted_loop unterminated ascii (suc fuel) src pos =
    let c = byte_at src pos in
    let escaped = quoted_loop unterminated ascii fuel src (pos + 2) in
    let rest = quoted_loop unterminated ascii fuel src (pos + 1) in
    if at_end src pos
    then (pos, some unterminated)
    else if is_line_end c
    then (pos, some unterminated)
    else if c == b'"'
    then (pos + 1, none)
    else if ascii && leb 0x80 c
    then (pos, some non_ascii_byte)
    else if c == b'\\'
    then (if at_end src (pos + 1) || is_line_end (byte_at src (pos + 1))
        then (pos + 1, some unterminated)
        else escaped)
    else rest

-- The returns of both functions.
unfoldable pub close_quoted : Lexer → TokKind → ℕ → SrcPos → ℕ × Option LexError → Lexer × Token
close_quoted lex kind start pos (p, none) =
    let lex' = move_to lex p in (lex', lex_make_token lex' kind start pos)
close_quoted lex kind start pos (p, some e) = lex_make_error (move_to lex p) start pos e

-- `lexScanString`: the opening quote is consumed.
unfoldable pub lex_scan_string : Lexer → ℕ → SrcPos → Lexer × Token
lex_scan_string lex start pos =
    close_quoted lex tok_string start pos
      (quoted_loop unterminated_string false (length lex.src - lex.pos) lex.src lex.pos)

-- `lexScanBytes`: `b` and the opening quote are consumed.
unfoldable pub lex_scan_bytes : Lexer → ℕ → SrcPos → Lexer × Token
lex_scan_bytes lex start pos =
    close_quoted lex tok_bytes start pos
      (quoted_loop unterminated_bytes true (length lex.src - lex.pos) lex.src lex.pos)
