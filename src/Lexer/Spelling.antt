-- ===== src/Lexer/Spelling.antt =====
-- The operators of src/lexer/ms_lexer.c as a table, against which its scanning is measured.
use mathlib.Core.List.{map}
use mslang_c.Base.{
  Bool, true, false, ◌&&◌, ◌≡◌, refl, List, [], ◌∷◌, Bytes, codes, ◌==◌, if◌then◌else◌,
}
use mslang_c.Lexer.Kind.{
  TokKind, tok_name, tok_error, tok_shl_assign, tok_shr_assign, tok_dotdotdot, tok_starstar,
  tok_shl, tok_shr, tok_eq, tok_neq, tok_le, tok_ge, tok_colon_assign, tok_plus_assign,
  tok_minus_assign, tok_star_assign, tok_slash_assign, tok_percent_assign, tok_amp_assign,
  tok_pipe_assign, tok_caret_assign, tok_arrow_left, tok_inc, tok_dec, tok_plus, tok_minus,
  tok_star, tok_slash, tok_percent, tok_amp, tok_pipe, tok_caret, tok_tilde, tok_lt, tok_gt,
  tok_assign, tok_dot, tok_comma, tok_semicolon, tok_colon, tok_lparen, tok_rparen, tok_lbracket,
  tok_rbracket, tok_lbrace, tok_rbrace,
}

-- The operators and delimiters with their spellings, the longer ones first.
abbrev pub operators : List (Bytes × TokKind)
operators =
    (b'<' ∷ b'<' ∷ b'=' ∷ [], tok_shl_assign)
    ∷ (b'>' ∷ b'>' ∷ b'=' ∷ [], tok_shr_assign)
    ∷ (b'.' ∷ b'.' ∷ b'.' ∷ [], tok_dotdotdot)
    ∷ (b'*' ∷ b'*' ∷ [], tok_starstar)
    ∷ (b'<' ∷ b'<' ∷ [], tok_shl)
    ∷ (b'>' ∷ b'>' ∷ [], tok_shr)
    ∷ (b'=' ∷ b'=' ∷ [], tok_eq)
    ∷ (b'!' ∷ b'=' ∷ [], tok_neq)
    ∷ (b'<' ∷ b'=' ∷ [], tok_le)
    ∷ (b'>' ∷ b'=' ∷ [], tok_ge)
    ∷ (b':' ∷ b'=' ∷ [], tok_colon_assign)
    ∷ (b'+' ∷ b'=' ∷ [], tok_plus_assign)
    ∷ (b'-' ∷ b'=' ∷ [], tok_minus_assign)
    ∷ (b'*' ∷ b'=' ∷ [], tok_star_assign)
    ∷ (b'/' ∷ b'=' ∷ [], tok_slash_assign)
    ∷ (b'%' ∷ b'=' ∷ [], tok_percent_assign)
    ∷ (b'&' ∷ b'=' ∷ [], tok_amp_assign)
    ∷ (b'|' ∷ b'=' ∷ [], tok_pipe_assign)
    ∷ (b'^' ∷ b'=' ∷ [], tok_caret_assign)
    ∷ (b'<' ∷ b'-' ∷ [], tok_arrow_left)
    ∷ (b'+' ∷ b'+' ∷ [], tok_inc)
    ∷ (b'-' ∷ b'-' ∷ [], tok_dec)
    ∷ (b'+' ∷ [], tok_plus)
    ∷ (b'-' ∷ [], tok_minus)
    ∷ (b'*' ∷ [], tok_star)
    ∷ (b'/' ∷ [], tok_slash)
    ∷ (b'%' ∷ [], tok_percent)
    ∷ (b'&' ∷ [], tok_amp)
    ∷ (b'|' ∷ [], tok_pipe)
    ∷ (b'^' ∷ [], tok_caret)
    ∷ (b'~' ∷ [], tok_tilde)
    ∷ (b'<' ∷ [], tok_lt)
    ∷ (b'>' ∷ [], tok_gt)
    ∷ (b'=' ∷ [], tok_assign)
    ∷ (b'.' ∷ [], tok_dot)
    ∷ (b',' ∷ [], tok_comma)
    ∷ (b';' ∷ [], tok_semicolon)
    ∷ (b':' ∷ [], tok_colon)
    ∷ (b'(' ∷ [], tok_lparen)
    ∷ (b')' ∷ [], tok_rparen)
    ∷ (b'[' ∷ [], tok_lbracket)
    ∷ (b']' ∷ [], tok_rbracket)
    ∷ (b'{' ∷ [], tok_lbrace)
    ∷ (b'}' ∷ [], tok_rbrace)
    ∷ []

-- The spellings are the names that `msTokName` gives.
operators_spelled :
    map (λ (o : Bytes × TokKind). o.0) operators
    ≡ map (λ (o : Bytes × TokKind). codes (tok_name o.1)) operators
unfolding tok_name
operators_spelled = refl

unfoldable pub is_prefix : Bytes → Bytes → Bool
is_prefix [] ys = true
is_prefix (x ∷ xs) [] = false
is_prefix (x ∷ xs) (y ∷ ys) = y == x && is_prefix xs ys

-- The first entry whose spelling begins the text, and an error if there is none.
unfoldable pub first_fit : Bytes → List (Bytes × TokKind) → Bytes × TokKind
unfolding is_prefix
first_fit text [] = ([], tok_error)
first_fit text ((spelling, k) ∷ ks) =
    if is_prefix spelling text then (spelling, k) else first_fit text ks
