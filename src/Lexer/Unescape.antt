-- ===== src/Lexer/Unescape.antt =====
-- src/lexer/ms_lexer_unescape.c: the value of a string literal's text. `outBuf` is the list of the
-- bytes written, `out` its length; an error is the text that `snprintf` writes, one constructor
-- each.
pub mod HexNumber
pub mod Fits
pub mod RoundTrip
use mslang_c.Base.{
  ℕ, zero, suc, ◌+◌, ◌-◌, ◌*◌, ◌/◌, ◌%◌, ◌^◌, not, ◌&&◌, ◌||◌, Option, none, some, [], ◌∷◌, ◌++◌,
  Bytes, leb, ltb, ◌==◌, if◌then◌else◌, length, get_or,
}

pub data UnescapeError : Type 0 where
  string_too_short bytes_too_short buffer_too_small : UnescapeError
  invalid_escape codepoint_range surrogate_codepoint : ℕ → UnescapeError

-- The result 0 with `outBuf`, or -1 with `errBuf`.
pub data Unescaped : Type 0 where
  done : Bytes → Unescaped
  failed : UnescapeError → Unescaped

-- `hexVal`; none is -1.
unfoldable pub hex_val : ℕ → Option ℕ
hex_val c =
    if leb b'0' c && leb c b'9'
    then some (c - b'0')
    else if leb b'a' c && leb c b'f'
    then some (c - b'a' + 10)
    else if leb b'A' c && leb c b'F'
    then some (c - b'A' + 10)
    else none

-- `encodeUtf8`, the bytes written. Each `|` joins numbers with no common bit: it is a sum.
unfoldable pub encode_utf8 : ℕ → Bytes
encode_utf8 cp =
    if leb cp 127
    then cp ∷ []
    else if leb cp 2047
    then (192 + cp / 64) ∷ (128 + cp % 64) ∷ []
    else if leb cp 65535
    then (224 + cp / 4096) ∷ (128 + cp / 64 % 64) ∷ (128 + cp % 64) ∷ []
    else (240 + cp / 262144) ∷ (128 + cp / 4096 % 64) ∷ (128 + cp / 64 % 64) ∷ (128 + cp % 64) ∷ []

-- One escape read: an error, or the offset behind it and the bytes that it writes.
pub data Escape : Type 0 where
  bad : UnescapeError → Escape
  put : ℕ → Bytes → Escape

-- The loop over the digits of `\u{…}`: an error, or the values of `i`, `cp` and `digitCount` at
-- its exit. The fuel is the number of bytes left.
pub data Codepoint : Type 0 where
  bad_digit : UnescapeError → Codepoint
  stop : ℕ → ℕ → ℕ → Codepoint

module _ (raw : Bytes) (end : ℕ) where
  abbrev pub raw_at : ℕ → ℕ
  raw_at i = get_or raw i 0

  unfoldable pub codepoint_loop : ℕ → ℕ → ℕ → ℕ → Codepoint
  codepoint_loop zero i cp digit_count = stop i cp digit_count
  codepoint_loop (suc fuel) i cp digit_count =
      if leb end i
      then stop i cp digit_count
      else if raw_at i == b'}'
      then stop i cp digit_count
      else elim (hex_val (raw_at i)) [
        | none ↦ bad_digit (invalid_escape i)
        | some dv ↦ codepoint_loop fuel (i + 1) ((cp * 16 + dv) % 2 ^ 32) (digit_count + 1)
      ]

  -- The tests behind the digits of `\u{…}`.
  unfoldable pub check_codepoint : ℕ → ℕ → ℕ → Escape
  check_codepoint i cp digit_count =
      if leb end i || not (raw_at i == b'}') || digit_count == 0
      then bad (invalid_escape (i - 2))
      else if ltb 1114111 cp
      then bad (codepoint_range (i + 1))
      else if leb 55296 cp && leb cp 57343
      then bad (surrogate_codepoint (i + 1))
      else put (i + 1) (encode_utf8 cp)

  -- The case `u`, with `i` behind the letter.
  unfoldable pub unicode_escape : ℕ → Escape
  unicode_escape i =
      let digits = codepoint_loop (end - (i + 1)) (i + 1) 0 0 in
      if leb end i || not (raw_at i == b'{') then bad (invalid_escape (i - 2)) else elim digits [
        | bad_digit e ↦ bad e
        | stop j cp digit_count ↦ check_codepoint j cp digit_count
      ]

  -- The case `x`, with `i` behind the letter.
  unfoldable pub byte_escape : ℕ → Escape
  byte_escape i = elim (hex_val (raw_at i)) [
    | none ↦ bad (invalid_escape (i - 2))
    | some high ↦ elim (hex_val (raw_at (i + 1))) [
      | none ↦ bad (invalid_escape (i - 2))
      | some low ↦
          if leb end (i + 1)
          then bad (invalid_escape (i - 2))
          else put (i + 2) ((high * 16 + low) ∷ [])
    ]
  ]

  -- The `switch` on the letter `esc`, with `i` behind it.
  unfoldable pub escape : ℕ → ℕ → Escape
  escape esc i =
      if esc == b'n'
      then put i (10 ∷ [])
      else if esc == b't'
      then put i (9 ∷ [])
      else if esc == b'r'
      then put i (13 ∷ [])
      else if esc == b'\\'
      then put i (b'\\' ∷ [])
      else if esc == b'"'
      then put i (b'"' ∷ [])
      else if esc == b'x'
      then byte_escape i
      else if esc == b'u'
      then unicode_escape i
      else bad (invalid_escape (i - 2))

  module _ (out_buf_len : ℕ) where
    -- The loop of `msUnescapeString`; the fuel is the number of bytes left. The test that a
    -- codepoint's bytes fit stands behind every escape here: the others write one byte, for which
    -- the first test has made room.
    unfoldable pub unescape_loop : ℕ → ℕ → Bytes → Unescaped
    unescape_loop zero i out = done out
    unescape_loop (suc fuel) i out =
        let c = raw_at i in
        let plain = unescape_loop fuel (i + 1) (out ++ (c ∷ [])) in
        if leb end i
        then done out
        else if not (c == b'\\')
        then (if leb out_buf_len (length out) then failed buffer_too_small else plain)
        else if leb end (i + 1)
        then failed (invalid_escape i)
        else if leb out_buf_len (length out)
        then failed buffer_too_small
        else elim (escape (raw_at (i + 1)) (i + 2)) [
          | bad e ↦ failed e
          | put j bytes ↦
              (let rest = unescape_loop fuel j (out ++ bytes) in
                if ltb out_buf_len (length out + length bytes)
                then failed buffer_too_small
                else rest)
        ]

-- `msUnescapeString`
unfoldable pub unescape_string : Bytes → ℕ → Unescaped
unescape_string raw out_buf_len =
    let end = length raw - 1 in
    if ltb (length raw) 2
    then failed string_too_short
    else unescape_loop raw end out_buf_len (length raw) 1 []

-- `msUnescapeBytes`
unfoldable pub unescape_bytes : Bytes → ℕ → Unescaped
unescape_bytes [] out_buf_len = failed bytes_too_short
unescape_bytes (b ∷ raw) out_buf_len =
    if ltb (length (b ∷ raw)) 3 then failed bytes_too_short else unescape_string raw out_buf_len
