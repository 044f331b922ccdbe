-- ===== src/Lexer/Keyword.antt =====
-- src/lexer/ms_lexer.c, identifiers and keywords.
pub mod Order
pub mod Search
use Prim.Native.Nat.{compare, Ordering}
use mslang_c.Base.{
  ℕ, zero, suc, ◌+◌, ◌-◌, ◌/◌, not, ◌&&◌, ◌||◌, List, [], ◌∷◌, Bytes, codes, leb, ltb, ◌==◌,
  if◌then◌else◌, length, get_or,
}
use mslang_c.Lexer.Kind.{
  TokKind, tok_ident, tok_and, tok_as, tok_assert, tok_async, tok_await, tok_break, tok_case,
  tok_catch, tok_chan, tok_class, tok_continue, tok_default, tok_del, tok_else, tok_extends,
  tok_fallthrough, tok_false, tok_finally, tok_for, tok_func, tok_go, tok_if, tok_import, tok_in,
  tok_is, tok_make, tok_nil, tok_not, tok_or, tok_pass, tok_raise, tok_return, tok_select,
  tok_switch, tok_true, tok_try, tok_var, tok_with,
}
use mslang_c.Lexer.Number.{slice}
use mslang_c.Lexer.State.{Token, SrcPos, Lexer, at_end, byte_at, move_to, lex_make_token, is_alnum}

-- `kKeywords`
abbrev pub keywords : List (Bytes × TokKind)
keywords =
    (codes "and", tok_and)
    ∷ (codes "as", tok_as)
    ∷ (codes "assert", tok_assert)
    ∷ (codes "async", tok_async)
    ∷ (codes "await", tok_await)
    ∷ (codes "break", tok_break)
    ∷ (codes "case", tok_case)
    ∷ (codes "catch", tok_catch)
    ∷ (codes "chan", tok_chan)
    ∷ (codes "class", tok_class)
    ∷ (codes "continue", tok_continue)
    ∷ (codes "default", tok_default)
    ∷ (codes "del", tok_del)
    ∷ (codes "else", tok_else)
    ∷ (codes "extends", tok_extends)
    ∷ (codes "fallthrough", tok_fallthrough)
    ∷ (codes "false", tok_false)
    ∷ (codes "finally", tok_finally)
    ∷ (codes "for", tok_for)
    ∷ (codes "func", tok_func)
    ∷ (codes "go", tok_go)
    ∷ (codes "if", tok_if)
    ∷ (codes "import", tok_import)
    ∷ (codes "in", tok_in)
    ∷ (codes "is", tok_is)
    ∷ (codes "make", tok_make)
    ∷ (codes "nil", tok_nil)
    ∷ (codes "not", tok_not)
    ∷ (codes "or", tok_or)
    ∷ (codes "pass", tok_pass)
    ∷ (codes "raise", tok_raise)
    ∷ (codes "return", tok_return)
    ∷ (codes "select", tok_select)
    ∷ (codes "switch", tok_switch)
    ∷ (codes "true", tok_true)
    ∷ (codes "try", tok_try)
    ∷ (codes "var", tok_var)
    ∷ (codes "with", tok_with)
    ∷ []

-- `KEYWORD_COUNT`
abbrev pub keyword_count : ℕ
keyword_count = length keywords

abbrev pub head_byte : Bytes → ℕ
head_byte [] = 0
head_byte (c ∷ cs) = c

abbrev pub tail_bytes : Bytes → Bytes
tail_bytes [] = []
tail_bytes (c ∷ cs) = cs

-- `strncmp` of the C library, on texts that a zero byte ends.
unfoldable pub strncmp : Bytes → Bytes → ℕ → Ordering
strncmp a b zero = Ordering.eq
strncmp a b (suc n) = elim (compare (head_byte a) (head_byte b)) [
  | Ordering.lt ↦ Ordering.lt
  | Ordering.gt ↦ Ordering.gt
  | Ordering.eq ↦ if head_byte a == 0 then Ordering.eq else strncmp (tail_bytes a) (tail_bytes b) n
]

abbrev pub keyword_at : ℕ → Bytes × TokKind
keyword_at i = get_or keywords i ([], tok_ident)

-- `cmp` of `lexLookupKeyword`, against a word of the table.
unfoldable pub compare_word : Bytes → Bytes → Ordering
compare_word w word = elim (strncmp w word (length w)) [
  | Ordering.eq ↦ compare (length w) (length word)
  | Ordering.lt ↦ Ordering.lt
  | Ordering.gt ↦ Ordering.gt
]

-- The loop of `lexLookupKeyword` over the words from `lo` up to, but not including, `end`; the code
-- keeps `hi`, which is `end` less one and may be -1.
unfoldable pub search_keyword : ℕ → Bytes → ℕ → ℕ → TokKind
search_keyword zero w lo end = tok_ident
search_keyword (suc fuel) w lo end =
    let mid = (lo + (end - 1)) / 2 in
    let found : TokKind = elim (compare_word w (keyword_at mid).0) [
      | Ordering.lt ↦ search_keyword fuel w lo mid
      | Ordering.gt ↦ search_keyword fuel w (mid + 1) end
      | Ordering.eq ↦ (keyword_at mid).1
    ] in
    if ltb lo end then found else tok_ident

-- `lexLookupKeyword`; a round at least drops one word, so the table's length is fuel enough.
unfoldable pub lex_lookup_keyword : Bytes → TokKind
lex_lookup_keyword w = search_keyword (keyword_count + 1) w 0 keyword_count

-- The loop of `lexScanIdent`; the fuel is the number of bytes left.
unfoldable pub skip_ident : ℕ → Bytes → ℕ → ℕ
skip_ident zero src pos = pos
skip_ident (suc fuel) src pos =
    let c = byte_at src pos in
    let rest = skip_ident fuel src (pos + 1) in
    if not (at_end src pos) && (is_alnum c || c == b'_' || leb 0x80 c) then rest else pos

-- `lexScanIdent`
unfoldable pub lex_scan_ident : Lexer → ℕ → SrcPos → Lexer × Token
lex_scan_ident lex start pos =
    let lex' = move_to lex (skip_ident (length lex.src - lex.pos) lex.src lex.pos) in
    let kind = lex_lookup_keyword (slice lex.src start (lex'.pos - start)) in
    (lex', lex_make_token lex' kind start pos)
