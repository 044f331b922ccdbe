-- ===== src/Lexer/Kind.antt =====
-- include/mslang/ms_lexer.h and src/lexer/ms_lexer.c: the token kinds, their names, and the kinds
-- behind which a newline ends a statement.
use Prim.Native.String.{String}
use mslang_c.Base.{Bool, true, false}

-- `MsTokKind`, without the count that ends the enumeration.
pub data TokKind : Type 0 where
  tok_int tok_float tok_string tok_bytes tok_fstring_start tok_fstring_part : TokKind
  tok_fstring_expr_start tok_fstring_expr_end tok_fstring_end tok_true tok_false tok_nil : TokKind
  tok_ident tok_if tok_else tok_for tok_break tok_continue tok_return tok_func tok_class : TokKind
  tok_extends tok_import tok_as tok_var tok_and tok_or tok_not tok_in tok_is tok_try : TokKind
  tok_catch tok_finally tok_raise tok_go tok_chan tok_select tok_async tok_await tok_make : TokKind
  tok_pass tok_switch tok_case tok_default tok_fallthrough tok_with tok_del tok_assert : TokKind
  tok_plus tok_minus tok_star tok_slash tok_percent tok_starstar tok_amp tok_pipe : TokKind
  tok_caret tok_shl tok_shr tok_tilde tok_eq tok_neq tok_lt tok_le tok_gt tok_ge : TokKind
  tok_assign tok_colon_assign tok_plus_assign tok_minus_assign tok_star_assign : TokKind
  tok_slash_assign tok_percent_assign tok_amp_assign tok_pipe_assign tok_caret_assign : TokKind
  tok_shl_assign tok_shr_assign tok_arrow_left tok_dotdotdot tok_inc tok_dec tok_dot : TokKind
  tok_comma tok_semicolon tok_colon tok_lparen tok_rparen tok_lbracket tok_rbracket : TokKind
  tok_lbrace tok_rbrace tok_newline tok_eof tok_error tok_is_not tok_not_in : TokKind

-- `msTokName`
unfoldable pub tok_name : TokKind → String
tok_name tok_plus = "+"
tok_name tok_minus = "-"
tok_name tok_star = "*"
tok_name tok_slash = "/"
tok_name tok_percent = "%"
tok_name tok_starstar = "**"
tok_name tok_amp = "&"
tok_name tok_pipe = "|"
tok_name tok_caret = "^"
tok_name tok_shl = "<<"
tok_name tok_shr = ">>"
tok_name tok_tilde = "~"
tok_name tok_eq = "=="
tok_name tok_neq = "!="
tok_name tok_lt = "<"
tok_name tok_le = "<="
tok_name tok_gt = ">"
tok_name tok_ge = ">="
tok_name tok_assign = "="
tok_name tok_colon_assign = ":="
tok_name tok_plus_assign = "+="
tok_name tok_minus_assign = "-="
tok_name tok_star_assign = "*="
tok_name tok_slash_assign = "/="
tok_name tok_percent_assign = "%="
tok_name tok_amp_assign = "&="
tok_name tok_pipe_assign = "|="
tok_name tok_caret_assign = "^="
tok_name tok_shl_assign = "<<="
tok_name tok_shr_assign = ">>="
tok_name tok_arrow_left = "<-"
tok_name tok_dotdotdot = "..."
tok_name tok_inc = "++"
tok_name tok_dec = "--"
tok_name tok_dot = "."
tok_name tok_comma = ","
tok_name tok_semicolon = ";"
tok_name tok_colon = ":"
tok_name tok_lparen = "("
tok_name tok_rparen = ")"
tok_name tok_lbracket = "["
tok_name tok_rbracket = "]"
tok_name tok_lbrace = "{"
tok_name tok_rbrace = "}"
tok_name tok_if = "if"
tok_name tok_else = "else"
tok_name tok_for = "for"
tok_name tok_break = "break"
tok_name tok_continue = "continue"
tok_name tok_return = "return"
tok_name tok_func = "func"
tok_name tok_class = "class"
tok_name tok_extends = "extends"
tok_name tok_import = "import"
tok_name tok_as = "as"
tok_name tok_var = "var"
tok_name tok_and = "and"
tok_name tok_or = "or"
tok_name tok_not = "not"
tok_name tok_in = "in"
tok_name tok_is = "is"
tok_name tok_try = "try"
tok_name tok_catch = "catch"
tok_name tok_finally = "finally"
tok_name tok_raise = "raise"
tok_name tok_go = "go"
tok_name tok_chan = "chan"
tok_name tok_select = "select"
tok_name tok_async = "async"
tok_name tok_await = "await"
tok_name tok_make = "make"
tok_name tok_pass = "pass"
tok_name tok_switch = "switch"
tok_name tok_case = "case"
tok_name tok_default = "default"
tok_name tok_fallthrough = "fallthrough"
tok_name tok_with = "with"
tok_name tok_del = "del"
tok_name tok_assert = "assert"
tok_name tok_true = "true"
tok_name tok_false = "false"
tok_name tok_nil = "nil"
tok_name tok_int = "INT"
tok_name tok_float = "FLOAT"
tok_name tok_string = "STRING"
tok_name tok_bytes = "BYTES"
tok_name tok_fstring_start = "FSTRING_START"
tok_name tok_fstring_part = "FSTRING_PART"
tok_name tok_fstring_expr_start = "FSTRING_EXPR_START"
tok_name tok_fstring_expr_end = "FSTRING_EXPR_END"
tok_name tok_fstring_end = "FSTRING_END"
tok_name tok_ident = "IDENT"
tok_name tok_newline = "NEWLINE"
tok_name tok_eof = "EOF"
tok_name tok_error = "ERROR"
tok_name _ = "UNKNOWN"

abbrev pub is_newline : TokKind → Bool
is_newline tok_newline = true
is_newline _ = false

abbrev pub is_eof : TokKind → Bool
is_eof tok_eof = true
is_eof _ = false

abbrev pub is_error : TokKind → Bool
is_error tok_error = true
is_error _ = false

-- `asiShouldInsert`
abbrev pub asi_should_insert : TokKind → Bool
asi_should_insert tok_ident = true
asi_should_insert tok_int = true
asi_should_insert tok_float = true
asi_should_insert tok_string = true
asi_should_insert tok_bytes = true
asi_should_insert tok_fstring_end = true
asi_should_insert tok_true = true
asi_should_insert tok_false = true
asi_should_insert tok_nil = true
asi_should_insert tok_return = true
asi_should_insert tok_break = true
asi_should_insert tok_continue = true
asi_should_insert tok_fallthrough = true
asi_should_insert tok_pass = true
asi_should_insert tok_inc = true
asi_should_insert tok_dec = true
asi_should_insert tok_rparen = true
asi_should_insert tok_rbracket = true
asi_should_insert tok_rbrace = true
asi_should_insert tok_dotdotdot = true
asi_should_insert _ = false
