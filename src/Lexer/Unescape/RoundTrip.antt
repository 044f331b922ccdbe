-- ===== src/Lexer/Unescape/RoundTrip.antt =====
-- src/lexer/ms_lexer_unescape.c, against a way to write string literals.
use mathlib.Core.Path.{subst}
use mslang_c.Base.{
  ℕ, zero, suc, ◌+◌, ◌-◌, ◌≤◌, ◌≡◌, ◌∙◌, sym, ap, true, false, [], ◌∷◌, ◌++◌, Bytes, leb, ltb, ◌==◌,
  if◌then◌else◌, length, length-append, append_assoc, append_nil, get_or-length, get_or, arith,
  Bool-cases, inl, inr, refl,
}
use mslang_c.Lexer.Unescape.{done, put, escape, raw_at, unescape_loop, unescape_string}

-- A byte, quoted where a literal needs it: a quote, a backslash, a line feed.
unfoldable pub quote_byte : ℕ → Bytes
quote_byte c =
    if c == b'"'
    then b'\\' ∷ b'"' ∷ []
    else if c == b'\\'
    then b'\\' ∷ b'\\' ∷ []
    else if c == 10
    then b'\\' ∷ b'n' ∷ []
    else c ∷ []

unfoldable pub quote : Bytes → Bytes
quote [] = []
quote (c ∷ s) = quote_byte c ++ quote s

-- A string literal whose value is `s`.
abbrev pub literal : Bytes → Bytes
literal s = b'"' ∷ (quote s ++ (b'"' ∷ []))

-- How the bytes of one quoted byte are read.
data Quoted (c : ℕ) : Bytes → Type 0 where
  plain : (c == b'\\') ≡ false → Quoted c (c ∷ [])
  escaped :
      (letter : ℕ)
      → ((raw : Bytes) (end i : ℕ) → escape raw end letter i ≡ put i (c ∷ []))
      → Quoted c (b'\\' ∷ letter ∷ [])

quoted_quote : Quoted b'"' (quote_byte b'"')
unfolding quote_byte escape
quoted_quote = escaped b'"' (λ raw end i. refl)

quoted_backslash : Quoted b'\\' (quote_byte b'\\')
unfolding quote_byte escape
quoted_backslash = escaped b'\\' (λ raw end i. refl)

quoted_newline : Quoted 10 (quote_byte 10)
unfolding quote_byte escape
quoted_newline = escaped b'n' (λ raw end i. refl)

quote_byte-Quoted : (c : ℕ) → Quoted c (quote_byte c)
unfolding quote_byte
quote_byte-Quoted c = elim (Bool-cases (c == b'"')) [
  | inl q ↦ subst (λ (t : ℕ). Quoted t (quote_byte t)) (ground arith) quoted_quote
  | inr q ↦ elim (Bool-cases (c == b'\\')) [
    | inl b ↦ subst (λ (t : ℕ). Quoted t (quote_byte t)) (ground arith) quoted_backslash
    | inr b ↦ elim (Bool-cases (c == 10)) [
      | inl n ↦ subst (λ (t : ℕ). Quoted t (quote_byte t)) (ground arith) quoted_newline
      | inr n ↦ rw (q, b, n) (plain b)
    ]
  ]
]

length-Quoted : (c : ℕ) (q : Bytes) → Quoted c q → 1 ≤ length q
length-Quoted c q (plain p) = omega arith
length-Quoted c q (escaped letter reads) = omega arith

length-quote : (s : Bytes) → length s ≤ length (quote s)
unfolding quote
length-quote [] = omega arith
length-quote (c ∷ s) = omega (
  arith,
  length-append (quote_byte c) (quote s),
  length-Quoted c (quote_byte c) (quote_byte-Quoted c),
  length-quote s,
)

module _ (cap : ℕ) where
  module _ (s raw before out : Bytes) (fuel x : ℕ) where
    -- One byte read, given that the rest is.
    read_one :
        (q : Bytes)
        → Quoted x q
        → raw ≡ before ++ (q ++ (quote s ++ (b'"' ∷ [])))
        → suc (length out) ≤ cap
        → unescape_loop raw (length raw - 1) cap fuel (length before + length q) (out ++ (x ∷ []))
          ≡ done (out ++ (x ∷ s))
        → unescape_loop raw (length raw - 1) cap (suc fuel) (length before) out
          ≡ done (out ++ (x ∷ s))
    unfolding unescape_loop
    read_one q (plain p) e c r =
        let here : raw_at raw (length raw - 1) (length before) ≡ x =
          ap (λ (t : Bytes). get_or t (length before) 0) e ∙ get_or-length before x _ 0 in
        let size : length raw ≡ length before + (suc (length (quote s ++ (b'"' ∷ [])))) =
          ap length e ∙ length-append before _ in
        let more : leb (length raw - 1) (length before) ≡ false =
          (let t = length-append (quote s) (b'"' ∷ []) in ground arith) in
        let room : leb cap (length out) ≡ false = ground arith in rw (more, here, p, room) r
    read_one q (escaped letter reads) e c r =
        let i = length before in
        let end = length raw - 1 in
        let here : raw_at raw end i ≡ b'\\' =
          ap (λ (t : Bytes). get_or t i 0) e ∙ get_or-length before b'\\' _ 0 in
        let next : raw_at raw end (i + 1) ≡ letter =
          ap (λ (t : Bytes). get_or t (i + 1) 0) (e ∙ sym (append_assoc before (b'\\' ∷ []) _))
          ∙ ap
              (λ (n : ℕ).
                get_or ((before ++ (b'\\' ∷ [])) ++ (letter ∷ (quote s ++ (b'"' ∷ [])))) n 0)
              (sym (length-append before (b'\\' ∷ [])))
          ∙ get_or-length (before ++ (b'\\' ∷ [])) letter _ 0 in
        let size : length raw ≡ i + (suc (suc (length (quote s ++ (b'"' ∷ []))))) =
          ap length e ∙ length-append before _ in
        let tail = length-append (quote s) (b'"' ∷ []) in
        let more : leb end i ≡ false = ground arith in
        let behind : leb end (i + 1) ≡ false = ground arith in
        let room : leb cap (length out) ≡ false = ground arith in
        let fits : ltb cap (length out + 1) ≡ false = ground arith in
        rw (more, here, behind, room, next, reads raw end (i + 2), fits) r

  unescape_loop-quote :
      (s raw before out : Bytes) (fuel : ℕ)
      → raw ≡ before ++ (quote s ++ (b'"' ∷ []))
      → length s ≤ fuel
      → length out + length s ≤ cap
      → unescape_loop raw (length raw - 1) cap fuel (length before) out ≡ done (out ++ s)
  unfolding unescape_loop quote
  unescape_loop-quote [] raw before out zero e f c = ap done (sym (append_nil out))
  unescape_loop-quote [] raw before out (suc fuel) e f c =
      let size : length raw ≡ length before + 1 = ap length e ∙ length-append before _ in
      let over : leb (length raw - 1) (length before) ≡ true = ground arith in
      rw over (ap done (sym (append_nil out)))
  unescape_loop-quote (x ∷ s) raw before out zero e f c = absurd (omega arith)
  unescape_loop-quote (x ∷ s) raw before out (suc fuel) e f c =
      let q = quote_byte x in
      let start : raw ≡ before ++ (q ++ (quote s ++ (b'"' ∷ []))) =
        e ∙ ap (λ (t : Bytes). before ++ t) (append_assoc q (quote s) _) in
      let rest =
        unescape_loop-quote s raw (before ++ q) (out ++ (x ∷ [])) fuel
          (start ∙ sym (append_assoc before q _)) (omega arith)
          (omega (arith, length-append out (x ∷ []))) in
      read_one s raw before out fuel x q (quote_byte-Quoted x) start (omega arith) (
        subst
          (λ (n : ℕ).
            unescape_loop raw (length raw - 1) cap fuel n (out ++ (x ∷ [])) ≡ done (out ++ (x ∷ s)))
          (length-append before q) (rest ∙ ap done (append_assoc out (x ∷ []) s)))

-- Any bytes, written as a string literal in which quotes, backslashes and line feeds are escaped,
-- and read with a buffer of at least their number, come back.
pub unescape_string-literal :
    (s : Bytes) (cap : ℕ) → length s ≤ cap → unescape_string (literal s) cap ≡ done s
unfolding unescape_string
unescape_string-literal s cap h =
    let size = length-append (quote s) (b'"' ∷ []) in
    let long : ltb (length (literal s)) 2 ≡ false = ground arith in
    rw long (
      unescape_loop-quote cap s (literal s) (b'"' ∷ []) [] (length (literal s)) refl
        (omega (arith, size, length-quote s)) (omega arith))
