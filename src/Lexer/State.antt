-- ===== src/Lexer/State.antt =====
-- src/lexer/ms_lexer.c, internal helpers, and the structs of include/mslang/ms_lexer.h: the
-- lexer's state, tokens, and the reading of bytes.
-- The source is the list of its bytes, and `start` of a token is an offset into it. Offsets, lines
-- and columns are `uint32_t` in the code; the source is taken to have less than 2 ^ 32 - 1 bytes.
use Prim.Native.String.{String}
use mslang_c.Base.{
  ℕ, ◌+◌, ◌-◌, Bool, true, false, ◌&&◌, ◌||◌, Option, none, some, Bytes, leb, if◌then◌else◌, length,
  get_or,
}
use mslang_c.Lexer.Kind.{TokKind, tok_eof, tok_error}

-- `MsSrcPos`
pub record SrcPos : Type 0 where
  pub file : String
  pub line : ℕ
  pub col : ℕ

-- The union `val`, as 64-bit patterns: of an `int64_t`, or of a `double`.
pub data TokVal : Type 0 where
  ival fval : ℕ → TokVal

-- `MsToken`
pub record Token : Type 0 where
  pub kind : TokKind
  pub pos : SrcPos
  pub start : ℕ
  pub len : ℕ
  pub val : TokVal

-- `MsFStrState`
pub data FStrState : Type 0 where
  fstr_none fstr_outer fstr_inner : FStrState

-- The texts that `lexMakeError` stores, one constructor for each.
pub data LexError : Type 0 where
  unexpected_bang unexpected_dollar : LexError
  unexpected_char : ℕ → LexError
  invalid_separator consecutive_separators trailing_separator : LexError
  no_hex_digits no_octal_digits no_binary_digits leading_zeros : LexError
  no_exponent_digits float_too_long invalid_float float_separator : LexError
  unterminated_string unterminated_bytes non_ascii_byte : LexError
  unterminated_fstring unexpected_fstring_brace : LexError
  unterminated_fstring_expr nested_fstring : LexError

-- `fstrDepth`, an `int`: 0 or a count of open braces, or one of the sentinels -1 (the end token is
-- pending) and -2 (the start of an expression is pending).
pub data FStrDepth : Type 0 where
  braces : ℕ → FStrDepth
  end_pending expr_start_pending : FStrDepth

-- `MsLexer`. `peek` and `hasPeek` are one optional token; `errBuf` is none while it is empty.
pub record Lexer : Type 0 where
  pub src : Bytes
  pub pos : ℕ
  pub line : ℕ
  pub line_start : ℕ
  pub file_name : String
  pub peek : Option Token
  pub prev_kind : TokKind
  pub fstr_state : FStrState
  pub fstr_depth : FStrDepth
  pub err_buf : Option LexError
  pub has_error : Bool

-- `msLexerInit`
abbrev pub lexer_init : Bytes → String → Lexer
lexer_init src file_name = record {
  src = src;
  pos = 0;
  line = 1;
  line_start = 0;
  file_name = file_name;
  peek = none;
  prev_kind = tok_eof;
  fstr_state = fstr_none;
  fstr_depth = braces 0;
  err_buf = none;
  has_error = false;
}

-- `lexAtEnd`, `lexPeekByte` and `lexPeekByte2`, at a position of the source.
abbrev pub at_end : Bytes → ℕ → Bool
at_end src pos = leb (length src) pos

unfoldable pub byte_at : Bytes → ℕ → ℕ
byte_at src pos = if at_end src pos then 0 else get_or src pos 0

abbrev pub lex_at_end : Lexer → Bool
lex_at_end lex = at_end lex.src lex.pos

abbrev pub lex_peek_byte : Lexer → ℕ
lex_peek_byte lex = byte_at lex.src lex.pos

abbrev pub lex_peek_byte2 : Lexer → ℕ
lex_peek_byte2 lex = byte_at lex.src (lex.pos + 1)

-- `lex->pos = p`
abbrev pub move_to : Lexer → ℕ → Lexer
move_to lex p = record lex { pos = p }

-- `lexConsumeNewline`
abbrev pub lex_consume_newline : Lexer → Lexer
lex_consume_newline lex = record lex { line = lex.line + 1; line_start = lex.pos }

-- `lexCurrentPos`
abbrev pub lex_current_pos : Lexer → SrcPos
lex_current_pos lex = record {
  file = lex.file_name;
  line = lex.line;
  col = lex.pos - lex.line_start + 1;
}

-- `lexMakeToken`
abbrev pub lex_make_token : Lexer → TokKind → ℕ → SrcPos → Token
lex_make_token lex kind start pos = record {
  kind = kind;
  pos = pos;
  start = start;
  len = lex.pos - start;
  val = TokVal.ival 0;
}

-- `lexMakeEof`
abbrev pub lex_make_eof : Lexer → Token
lex_make_eof lex = lex_make_token lex tok_eof lex.pos (lex_current_pos lex)

-- `lexMakeError`: the lexer is marked, and keeps the message.
abbrev pub lex_make_error : Lexer → ℕ → SrcPos → LexError → Lexer × Token
lex_make_error lex start pos msg =
    (record lex { has_error = true; err_buf = some msg }, lex_make_token lex tok_error start pos)

-- Byte classes: a decimal digit, and `isalpha` and `isalnum` of the C locale.
abbrev pub is_digit : ℕ → Bool
is_digit c = leb b'0' c && leb c b'9'

abbrev pub is_alpha : ℕ → Bool
is_alpha c = (leb b'a' c && leb c b'z') || (leb b'A' c && leb c b'Z')

abbrev pub is_alnum : ℕ → Bool
is_alnum c = is_alpha c || is_digit c
