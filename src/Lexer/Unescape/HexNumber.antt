-- ===== src/Lexer/Unescape/HexNumber.antt =====
-- src/lexer/ms_lexer_unescape.c: the number in an escape `\u{…}`.
use mslang_c.Base.{
  ℕ, ◌+◌, ◌-◌, ◌*◌, ◌≤◌, ◌≡◌, ◌&&◌, Option, none, some, [], ◌∷◌, ◌++◌, Bytes, leb, ltb,
  if◌then◌else◌, length,
}
use mslang_c.Lexer.Unescape.{
  Unescaped, done, failed, codepoint_range, surrogate_codepoint, hex_val, encode_utf8,
}

-- The value of hexadecimal digits behind others of the value `acc`, with no bound.
unfoldable pub hex_number : ℕ → Bytes → Option ℕ
hex_number acc [] = some acc
hex_number acc (c ∷ cs) = elim (hex_val c) [ none ↦ none | some d ↦ hex_number (acc * 16 + d) cs ]

-- The string literal whose text is `\u{ds}`.
abbrev pub codepoint_literal : Bytes → Bytes
codepoint_literal ds = b'"' ∷ b'\\' ∷ b'u' ∷ b'{' ∷ (ds ++ (b'}' ∷ b'"' ∷ []))

-- What the codepoint `cp`, read up to the offset `i`, stands for.
unfoldable pub codepoint_text : ℕ → ℕ → Unescaped
codepoint_text i cp =
    if ltb 1114111 cp
    then failed (codepoint_range i)
    else if leb 55296 cp && leb cp 57343
    then failed (surrogate_codepoint i)
    else done (encode_utf8 cp)

-- Hexadecimal digits, at least one, with a value.
module _ (ds : Bytes) (v : ℕ) (reads : hex_number 0 ds ≡ some v) (some_digit : 1 ≤ length ds) where
  abbrev raw : Bytes
  raw = codepoint_literal ds

  abbrev end : ℕ
  end = length raw - 1
