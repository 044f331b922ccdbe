-- ===== src/Lexer/Unescape/Fits.antt =====
-- src/lexer/ms_lexer_unescape.c: the size of a literal's value.
use mathlib.Core.Path.{subst}
use mslang_c.Base.{
  ℕ, zero, suc, ◌+◌, ◌-◌, ◌*◌, ◌%◌, ◌^◌, ◌≤◌, ◌≡◌, Bool, true, false, not, ◌&&◌, ◌||◌, [], ◌∷◌,
  ◌++◌, Bytes, leb, ltb, ◌==◌, if◌then◌else◌, length, length-append, arith, if_both, if_cases,
  Option-cases, inl, inr, refl,
}
use mslang_c.Lexer.Unescape.{
  UnescapeError, buffer_too_small, Unescaped, done, failed, hex_val, encode_utf8, Escape, bad, put,
  Codepoint, bad_digit, stop, raw_at, codepoint_loop, check_codepoint, unicode_escape, byte_escape,
  escape, unescape_loop, unescape_string,
}

abbrev pub is_too_small : UnescapeError → Bool
is_too_small buffer_too_small = true
is_too_small _ = false

-- No complaint about the buffer, and at most `n` bytes.
unfoldable pub Fits : ℕ → Unescaped → Type 0
Fits n (done out) = length out ≤ n
Fits n (failed e) = is_too_small e ≡ false

-- No complaint about the buffer, and no more bytes than those from `start` to the next offset,
-- which is at most `end`.
unfoldable pub EscapeFits : ℕ → ℕ → Escape → Type 0
EscapeFits start end (bad e) = is_too_small e ≡ false
EscapeFits start end (put j bytes) = (start + length bytes ≤ j) × (j ≤ end)

-- As many bytes were passed as digits were counted.
unfoldable Counted : ℕ → ℕ → Codepoint → Type 0
Counted i n (bad_digit e) = is_too_small e ≡ false
Counted i n (stop j cp m) = j + n ≡ m + i

pub length-encode_utf8 : (cp : ℕ) → length (encode_utf8 cp) ≤ 4
unfolding encode_utf8
length-encode_utf8 cp = ground arith

shift : (i n : ℕ) (c : Codepoint) → Counted (i + 1) (n + 1) c → Counted i n c
unfolding Counted
shift i n (bad_digit e) h = h
shift i n (stop j v m) h = omega arith

module _ (raw : Bytes) (end : ℕ) where
  codepoint_loop-Counted : (fuel i cp n : ℕ) → Counted i n (codepoint_loop raw end fuel i cp n)
  unfolding codepoint_loop Counted
  codepoint_loop-Counted zero i cp n = omega arith
  codepoint_loop-Counted (suc fuel) i cp n = if_both (Counted i n) (leb end i) (omega arith) (
      if_both (Counted i n) (raw_at raw end i == b'}') (omega arith)
        (elim (Option-cases (hex_val (raw_at raw end i))) [
          | inl e ↦ rw e refl
          | inr (dv, e) ↦ rw e (
              shift i n (codepoint_loop raw end fuel (i + 1) ((cp * 16 + dv) % 2 ^ 32) (n + 1))
                (codepoint_loop-Counted fuel (i + 1) ((cp * 16 + dv) % 2 ^ 32) (n + 1)))
        ]))

  check_codepoint-Fits :
      (i j cp n : ℕ)
      → 2 ≤ i
      → j + 0 ≡ n + (i + 1)
      → EscapeFits (i - 2) end (check_codepoint raw end j cp n)
  unfolding check_codepoint EscapeFits
  check_codepoint-Fits i j cp n two h =
      if_cases (EscapeFits (i - 2) end) (leb end j || not (raw_at raw end j == b'}') || n == 0)
        (λ e. refl)
        (λ e. if_both (EscapeFits (i - 2) end) (ltb 1114111 cp) refl (
          if_both (EscapeFits (i - 2) end) (leb 55296 cp && leb cp 57343) refl
            ((let w = length-encode_utf8 cp in ground arith), ground arith)))

  unicode_escape-Fits : (i : ℕ) → 2 ≤ i → EscapeFits (i - 2) end (unicode_escape raw end i)
  unfolding unicode_escape EscapeFits Counted
  unicode_escape-Fits i h =
      if_cases (EscapeFits (i - 2) end) (leb end i || not (raw_at raw end i == b'{')) (λ e. refl)
        (λ e.
          go (codepoint_loop raw end (end - (i + 1)) (i + 1) 0 0)
            (codepoint_loop-Counted (end - (i + 1)) (i + 1) 0 0))
    where
      go :
          (c : Codepoint)
          → Counted (i + 1) 0 c
          → EscapeFits (i - 2) end (elim c [
            | bad_digit e ↦ bad e
            | stop j cp digit_count ↦ check_codepoint raw end j cp digit_count
          ])
      go (bad_digit e) c = c
      go (stop j cp n) c = check_codepoint-Fits i j cp n h (omega arith)

  byte_escape-Fits : (i : ℕ) → EscapeFits (i - 2) end (byte_escape raw end i)
  unfolding byte_escape EscapeFits
  byte_escape-Fits i = elim (Option-cases (hex_val (raw_at raw end i))) [
    | inl e ↦ rw (e, EscapeFits) refl
    | inr (x, e) ↦ elim (Option-cases (hex_val (raw_at raw end (i + 1)))) [
      | inl f ↦ rw (e, f, EscapeFits) refl
      | inr (y, f) ↦
          rw (e, f, EscapeFits)
            (if_cases (EscapeFits (i - 2) end) (leb end (i + 1)) (λ g. refl)
              (λ g. (ground arith, ground arith)))
    ]
  ]

  escape-Fits : (esc i : ℕ) → 2 ≤ i → i ≤ end → EscapeFits (i - 2) end (escape raw end esc i)
  unfolding escape EscapeFits
  escape-Fits esc i h l =
      let one : (b : ℕ) → EscapeFits (i - 2) end (put i (b ∷ [])) = λ b. (omega arith, l) in
      let P = EscapeFits (i - 2) end in
      if_both P (esc == b'n') (one 10) (
        if_both P (esc == b't') (one 9) (
          if_both P (esc == b'r') (one 13) (
            if_both P (esc == b'\\') (one b'\\') (
              if_both P (esc == b'"') (one b'"') (
                if_both P (esc == b'x') (byte_escape-Fits i)
                  (if_both P (esc == b'u') (unicode_escape-Fits i h) refl))))))

  -- The rest of the loop, behind an escape at `i`.
  after_escape :
      (cap fuel i : ℕ) (out : Bytes)
      → end ≤ cap
      → length out + 1 ≤ i
      → i ≤ end
      → ((j : ℕ) (o : Bytes)
          → length o + 1 ≤ j
          → j ≤ end
          → Fits (end - 1) (unescape_loop raw end cap fuel j o))
      → (x : Escape) → EscapeFits i end x
      → Fits (end - 1) (elim x [
        | bad e ↦ failed e
        | put j bytes ↦
            if ltb cap (length out + length bytes)
            then failed buffer_too_small
            else unescape_loop raw end cap fuel j (out ++ bytes)
      ])
  unfolding Fits EscapeFits
  after_escape cap fuel i out c h l ih (bad e) f = f
  after_escape cap fuel i out c h l ih (put j bytes) f =
      let size = length-append out bytes in
      if_cases (Fits (end - 1)) (ltb cap (length out + length bytes)) (λ g. absurd (ground arith))
        (λ g. ih j (out ++ bytes) (omega (arith, size, f.0)) f.1)

  unescape_loop-Fits :
      (cap fuel i : ℕ) (out : Bytes)
      → end ≤ cap
      → length out + 1 ≤ i
      → i ≤ end
      → Fits (end - 1) (unescape_loop raw end cap fuel i out)
  unfolding unescape_loop Fits
  unescape_loop-Fits cap zero i out c h l = omega arith
  unescape_loop-Fits cap (suc fuel) i out c h l =
      let P = Fits (end - 1) in
      if_cases P (leb end i) (λ e. omega arith)
        (λ e.
          if_cases P (not (raw_at raw end i == b'\\'))
            (λ f.
              if_cases P (leb cap (length out)) (λ g. absurd (ground arith))
                (λ g.
                  unescape_loop-Fits cap fuel (i + 1) _ c
                    (omega (arith, length-append out (raw_at raw end i ∷ []))) (ground arith)))
            (λ f.
              if_cases P (leb end (i + 1)) (λ g. refl)
                (λ g.
                  if_cases P (leb cap (length out)) (λ k. absurd (ground arith))
                    (λ k.
                      after_escape cap fuel i out c h l
                        (λ j o a b. unescape_loop-Fits cap fuel j o c a b)
                        (escape raw end (raw_at raw end (i + 1)) (i + 2))
                        (subst
                          (λ (t : ℕ).
                            EscapeFits t end (escape raw end (raw_at raw end (i + 1)) (i + 2)))
                          (omega arith)
                          (escape-Fits (raw_at raw end (i + 1)) (i + 2) (omega arith)
                            (ground arith)))))))

module _ (raw : Bytes) (cap : ℕ) (h : length raw ≤ cap) where
  -- A string literal's text, in a buffer of at least its length: the value is at least two bytes
  -- shorter than the text, and no error is that the buffer is too small.
  pub unescape_string-Fits : Fits (length raw - 2) (unescape_string raw cap)
  unfolding unescape_string Fits
  unescape_string-Fits =
      if_cases (Fits (length raw - 2)) (ltb (length raw) 2) (λ e. refl)
        (λ e.
          subst (λ (t : ℕ). Fits t (unescape_loop raw (length raw - 1) cap (length raw) 1 []))
            (omega arith)
            (unescape_loop-Fits raw (length raw - 1) cap (length raw) 1 [] (omega arith)
              (omega arith) (ground arith)))
