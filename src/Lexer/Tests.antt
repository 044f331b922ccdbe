-- ===== src/Lexer/Tests.antt =====
-- Runs of the lexer at concrete sources.

use mslang_c.Base.{
  ℕ, [], ◌∷◌, ◌^◌, ◌%◌, ◌+◌, ◌*◌, ◌≡◌, ◌≢◌, refl, false, not, none, some, List, Bytes, codes,
  length, all-get_or, arith, ◌==◌,
}
use mslang_c.Lexer.Bounds.{IsValid}
use mslang_c.Lexer.Keyword.{lex_lookup_keyword}
use mslang_c.Lexer.Keyword.Search.{lex_lookup_keyword-IsKindOf, IsKindOf}
use mslang_c.Lexer.Kind.{tok_error}
use mslang_c.Lexer.Next.{lexer_next-Delivers, next-peek, Delivers}
use mslang_c.Lexer.Number.{lex_parse_digits, digits_loop, lex_digit_val}
use mslang_c.Lexer.Number.Value.{lex_parse_digits-IsNumeral, IsNumeral}
use mslang_c.Lexer.Operator.{lex_scan_operator}
use mslang_c.Lexer.Operator.Munch.{lex_scan_operator-Munches, Munches}
use mslang_c.Lexer.Scan.{lexer_next, lexer_peek, next_from, scan_in}
use mslang_c.Lexer.FString.{lex_scan_fstring_outer, fragment_loop, close_fragment}
use mslang_c.Lexer.State.{Lexer, Token, SrcPos, lexer_init, byte_at, fstr_outer}
use mslang_c.Lexer.Stuck.{tokens_loop-fstring_error}
use mslang_c.Lexer.Tokens.{cmd_tokens, tokens_loop}
use mslang_c.Lexer.Totality.{cmd_tokens-total}
use mslang_c.Lexer.Unescape.{unescape_string, done, encode_utf8}
use mslang_c.Lexer.Unescape.HexNumber.{codepoint_text}
use mslang_c.Lexer.Unescape.Fits.{Fits, unescape_string-Fits}
use mslang_c.Lexer.Unescape.RoundTrip.{literal, unescape_string-literal}

-- A `strtod` that reads every byte as the number 7.
abbrev seven : Bytes → ℕ × ℕ
seven s = (7, length s)

abbrev program : Bytes
program = codes "var x := 0x1F + y # sum\nprint(x)"

program_free : (p : ℕ) → byte_at program p ≢ b'$'
unfolding byte_at
program_free p e =
    (let h = all-get_or (λ c. not (c == b'$')) program p 0 refl refl in absurd (ground arith))

cmd_tokens-total_example :
    (r : List Token × ℕ) × (cmd_tokens seven (2 * length program + 1) program "a.ms" ≡ some r)
cmd_tokens-total_example = cmd_tokens-total seven program "a.ms" program_free

-- Behind the start of the f-string `$"}`.
abbrev in_fstring : Lexer
in_fstring = record (lexer_init (codes "$\"}") "a.ms") { pos = 2; fstr_state = fstr_outer }

in_fstring_error : (lexer_next seven in_fstring).1.kind ≡ tok_error
unfolding lexer_next next_from scan_in lex_scan_fstring_outer close_fragment fragment_loop byte_at
in_fstring_error = refl

tokens_loop-fstring_error_example : tokens_loop seven 1000 in_fstring false ≡ none
tokens_loop-fstring_error_example =
    tokens_loop-fstring_error seven in_fstring false refl refl in_fstring_error 1000

abbrev start : Lexer
start = lexer_init program "a.ms"

start-IsValid : IsValid start
start-IsValid = record { inside = omega arith; line_before = omega arith; few_lines = omega arith }

lexer_next-Delivers_example : Delivers start (lexer_next seven start)
lexer_next-Delivers_example = lexer_next-Delivers seven start start-IsValid refl

next-peek_example :
    ((lexer_peek seven start).1 ≡ (lexer_next seven start).1)
    × (lexer_next seven (lexer_peek seven start).0 ≡ lexer_next seven start)
next-peek_example = next-peek seven start start-IsValid refl

-- `<<=`, behind its first byte.
abbrev shifted : Lexer
shifted = record (lexer_init (codes "<<=") "a.ms") { pos = 1 }

abbrev origin : SrcPos
origin = record { file = "a.ms"; line = 1; col = 1 }

lex_scan_operator-Munches_example :
    Munches b'<'
      (byte_at shifted.src shifted.pos)
      (byte_at shifted.src (shifted.pos + 1))
      (lex_scan_operator shifted b'<' 0 origin).1
lex_scan_operator-Munches_example = lex_scan_operator-Munches shifted 0 origin refl b'<'

abbrev word : Bytes
word = codes "fallthrough"

lex_lookup_keyword-IsKindOf_example : IsKindOf word (lex_lookup_keyword word)
lex_lookup_keyword-IsKindOf_example = lex_lookup_keyword-IsKindOf word refl

abbrev grouped : Lexer
grouped = lexer_init (codes "1_000") "a.ms"

grouped_ok : (lex_parse_digits grouped 10 0 false).err ≡ none
unfolding digits_loop lex_digit_val byte_at
grouped_ok = refl

lex_parse_digits-IsNumeral_example :
    IsNumeral 10 grouped.src 0 0 false false (lex_parse_digits grouped 10 0 false)
lex_parse_digits-IsNumeral_example =
    lex_parse_digits-IsNumeral grouped 10 0 false (omega arith) grouped_ok

-- The text `say "hi"` and a line feed.
abbrev greeting : Bytes
greeting = codes "say \"hi\"\n"

unescape_string-literal_example : unescape_string (literal greeting) 32 ≡ done greeting
unescape_string-literal_example = unescape_string-literal greeting 32 (omega arith)

-- A literal with an escape.
abbrev escaped_text : Bytes
escaped_text = codes "\"tab\\u{9}\""

unescape_string-Fits_example : Fits 8 (unescape_string escaped_text 32)
unescape_string-Fits_example = unescape_string-Fits escaped_text 32 (omega arith)

-- The digits `100000041`: 2 ^ 32 and the letter A.
abbrev wide_digits : Bytes
wide_digits = codes "100000041"

-- It stands for that letter.
wide_is_letter_a : codepoint_text 14 (4294967361 % 2 ^ 32) ≡ done (b'A' ∷ [])
unfolding codepoint_text encode_utf8
wide_is_letter_a = refl
