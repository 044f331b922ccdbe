-- ===== src/Lexer/Operator.antt =====
-- src/lexer/ms_lexer.c, operators and delimiters.
pub mod Munch
use mslang_c.Base.{ℕ, ◌+◌, ◌&&◌, ◌==◌, if◌then◌else◌}
use mslang_c.Lexer.Kind.{
  TokKind, tok_inc, tok_plus_assign, tok_plus, tok_dec, tok_minus_assign, tok_minus, tok_starstar,
  tok_star_assign, tok_star, tok_slash_assign, tok_slash, tok_percent_assign, tok_percent,
  tok_amp_assign, tok_amp, tok_pipe_assign, tok_pipe, tok_caret_assign, tok_caret, tok_tilde,
  tok_eq, tok_assign, tok_neq, tok_shl_assign, tok_shl, tok_arrow_left, tok_le, tok_lt,
  tok_shr_assign, tok_shr, tok_ge, tok_gt, tok_colon_assign, tok_colon, tok_dotdotdot, tok_dot,
  tok_comma, tok_semicolon, tok_lparen, tok_rparen, tok_lbracket, tok_rbracket, tok_lbrace,
  tok_rbrace,
}
use mslang_c.Lexer.State.{
  Lexer, Token, SrcPos, unexpected_bang, unexpected_char, lex_peek_byte, lex_peek_byte2, move_to,
  lex_make_token, lex_make_error,
}

-- `if (lexMatch(lex, c2)) …`: the lexer moves past a byte that matches, and stays otherwise.
abbrev pub if_match : Lexer → ℕ → (Lexer → Lexer × Token) → Lexer × Token → Lexer × Token
if_match lex c2 found missed =
    if lex_peek_byte lex == c2 then found (move_to lex (lex.pos + 1)) else missed

-- `return lexMakeToken(lex, kind, start, pos);`
abbrev pub accept : ℕ → SrcPos → TokKind → Lexer → Lexer × Token
accept start pos kind lex = (lex, lex_make_token lex kind start pos)

-- `lexScanOperator`, from `,` on.
unfoldable pub scan_delimiter : Lexer → ℕ → ℕ → SrcPos → Lexer × Token
scan_delimiter lex c start pos =
    if c == b','
    then accept start pos tok_comma lex
    else if c == b';'
    then accept start pos tok_semicolon lex
    else if c == b'('
    then accept start pos tok_lparen lex
    else if c == b')'
    then accept start pos tok_rparen lex
    else if c == b'['
    then accept start pos tok_lbracket lex
    else if c == b']'
    then accept start pos tok_rbracket lex
    else if c == b'{'
    then accept start pos tok_lbrace lex
    else if c == b'}'
    then accept start pos tok_rbrace lex
    else lex_make_error lex start pos (unexpected_char c)

-- `lexScanOperator`, from `=` on.
unfoldable pub scan_comparison : Lexer → ℕ → ℕ → SrcPos → Lexer × Token
scan_comparison lex c start pos =
    if c == b'='
    then if_match lex b'=' (accept start pos tok_eq) (accept start pos tok_assign lex)
    else if c == b'!'
    then if_match lex b'=' (accept start pos tok_neq) (lex_make_error lex start pos unexpected_bang)
    else if c == b'<'
    then if_match lex b'<'
        (λ lex'.
          (if_match lex' b'=' (accept start pos tok_shl_assign) (accept start pos tok_shl lex')))
        (if_match lex b'-' (accept start pos tok_arrow_left)
          (if_match lex b'=' (accept start pos tok_le) (accept start pos tok_lt lex)))
    else if c == b'>'
    then if_match lex b'>'
        (λ lex'.
          (if_match lex' b'=' (accept start pos tok_shr_assign) (accept start pos tok_shr lex')))
        (if_match lex b'=' (accept start pos tok_ge) (accept start pos tok_gt lex))
    else if c == b':'
    then if_match lex b'=' (accept start pos tok_colon_assign) (accept start pos tok_colon lex)
    else if c == b'.'
    then (if lex_peek_byte lex == b'.' && lex_peek_byte2 lex == b'.'
        then accept start pos tok_dotdotdot (move_to lex (lex.pos + 2))
        else accept start pos tok_dot lex)
    else scan_delimiter lex c start pos

-- `lexScanOperator`: `c` is consumed.
unfoldable pub lex_scan_operator : Lexer → ℕ → ℕ → SrcPos → Lexer × Token
lex_scan_operator lex c start pos =
    if c == b'+'
    then if_match lex b'+' (accept start pos tok_inc)
        (if_match lex b'=' (accept start pos tok_plus_assign) (accept start pos tok_plus lex))
    else if c == b'-'
    then if_match lex b'-' (accept start pos tok_dec)
        (if_match lex b'=' (accept start pos tok_minus_assign) (accept start pos tok_minus lex))
    else if c == b'*'
    then if_match lex b'*' (accept start pos tok_starstar)
        (if_match lex b'=' (accept start pos tok_star_assign) (accept start pos tok_star lex))
    else if c == b'/'
    then if_match lex b'=' (accept start pos tok_slash_assign) (accept start pos tok_slash lex)
    else if c == b'%'
    then if_match lex b'=' (accept start pos tok_percent_assign) (accept start pos tok_percent lex)
    else if c == b'&'
    then if_match lex b'=' (accept start pos tok_amp_assign) (accept start pos tok_amp lex)
    else if c == b'|'
    then if_match lex b'=' (accept start pos tok_pipe_assign) (accept start pos tok_pipe lex)
    else if c == b'^'
    then if_match lex b'=' (accept start pos tok_caret_assign) (accept start pos tok_caret lex)
    else if c == b'~'
    then accept start pos tok_tilde lex
    else scan_comparison lex c start pos
