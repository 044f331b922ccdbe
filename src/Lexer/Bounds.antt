-- ===== src/Lexer/Bounds.antt =====
-- `lexScan` of src/lexer/ms_lexer.c: the position, the line and the bounds of its token.
use mslang_c.Base.{
  ℕ, zero, suc, ◌+◌, ◌-◌, ◌≤◌, ◌<◌, ◌≡◌, refl, Bytes, length, arith, ◌==◌, ◌&&◌, ◌⊎◌, ◌*◌, ◌≢◌, inl,
  inr, if_both, if_cases,
}
use mslang_c.Lexer.FString.{
  FragEnd, at_brace, at_quote, failed, close_fragment, lex_scan_fstring_outer,
}
use mslang_c.Lexer.Kind.{TokKind, tok_eof, tok_error, tok_fstring_part, asi_should_insert}
use mslang_c.Lexer.Moves.{Moves}
use mslang_c.Lexer.Moves.Loops.{skip_blanks-Between, fragment_loop-Stops}
use mslang_c.Lexer.Moves.Scanners.{lex_scan_fstring_outer-Moves}
use mslang_c.Lexer.Moves.Tokens.{scan_token-Moves}
use mslang_c.Lexer.Scan.{
  blanks_end, scan_token, scan_loop, scan_normal, scan_inner, close_brace, scan_in, lex_scan,
}
use mslang_c.Lexer.State.{
  Lexer, Token, SrcPos, FStrState, fstr_none, fstr_outer, fstr_inner, FStrDepth, braces,
  end_pending, expr_start_pending, byte_at, move_to, lex_current_pos, lex_consume_newline, at_end,
}

-- The position lies in the source, the current line starts at or before it, and there is at most
-- one line for each byte before it.
pub record IsValid (lex : Lexer) : Type 0 where
  pub inside : lex.pos ≤ length lex.src
  pub line_before : lex.line_start ≤ lex.pos
  pub few_lines : lex.line ≤ lex.pos + 1

-- A token is put out: it lies between the old position and the new one.
pub record Scanned (lex : Lexer) (r : Lexer × Token) : Type 0 where
  pub same_src : r.0.src ≡ lex.src
  pub same_peek : r.0.peek ≡ lex.peek
  pub inside : r.0.pos ≤ length lex.src
  pub line_before : r.0.line_start ≤ r.0.pos
  pub few_lines : r.0.line ≤ r.0.pos + 1
  pub after : lex.pos ≤ r.1.start
  pub fits : r.1.start + r.1.len ≤ r.0.pos

-- The lexer moves on, or is at the end and says so.
abbrev pub Advances : Lexer → Lexer × Token → Type 0
Advances lex r = (lex.pos < r.0.pos) ⊎ ((r.1.kind ≡ tok_eof) × (r.0.pos ≡ length lex.src))

-- The lexer past a newline at `start`.
abbrev past_newline : Lexer → ℕ → Lexer
past_newline lex start = lex_consume_newline (move_to lex (start + 1))

-- What is scanned from a later position is scanned from here.
Scanned-later :
    (lex : Lexer) (start : ℕ) {r : Lexer × Token}
    → lex.pos ≤ start
    → Scanned (past_newline lex start) r × Advances (past_newline lex start) r
    → Scanned lex r × Advances lex r
Scanned-later lex start h (s, a) = ground arith

Scanned-on :
    (lex : Lexer) (start : ℕ) {r : Lexer × Token}
    → lex.pos ≤ start
    → Scanned (move_to lex start) r × Advances (move_to lex start) r
    → Scanned lex r × (Advances lex r ⊎ (r.1.kind ≡ tok_error))
Scanned-on lex start h (s, a) = ground arith

-- Tokens of no length that are due before the lexer moves.
abbrev pub pending_count : FStrState → FStrDepth → ℕ
pending_count fstr_none end_pending = 1
pending_count fstr_inner expr_start_pending = 1
pending_count _ _ = 0

abbrev weight_in : FStrState → FStrDepth → Lexer → ℕ
weight_in st d lex = 2 * (length lex.src - lex.pos) + pending_count st d

-- How many tokens may come before the end.
abbrev pub weight : Lexer → ℕ
weight lex = weight_in lex.fstr_state lex.fstr_depth lex

pub pending_count-le : (st : FStrState) (d : FStrDepth) → pending_count st d ≤ 1
pending_count-le fstr_none (braces n) = omega arith
pending_count-le fstr_none end_pending = omega arith
pending_count-le fstr_none expr_start_pending = omega arith
pending_count-le fstr_inner (braces n) = omega arith
pending_count-le fstr_inner end_pending = omega arith
pending_count-le fstr_inner expr_start_pending = omega arith
pending_count-le fstr_outer d = omega arith

pending_count-braces : (st : FStrState) (n : ℕ) → pending_count st (braces n) ≡ 0
pending_count-braces fstr_none n = refl
pending_count-braces _ n = refl

-- After a token fewer can come, or the source has ended, or an f-string is in error.
abbrev Outcome : FStrState → FStrDepth → Lexer → Lexer × Token → Type 0
Outcome st d lex r =
    (weight r.0 < weight_in st d lex)
    ⊎ ((r.1.kind ≡ tok_eof) × (r.0.pos ≡ length lex.src))
    ⊎ ((r.1.kind ≡ tok_error) × (st ≢ fstr_none))

normal-Outcome :
    (st : FStrState) (d : FStrDepth) (lex : Lexer) (r : Lexer × Token)
    → Scanned lex r × Advances lex r
    → Scanned lex r × Outcome st d lex r
normal-Outcome st d lex r (s, inl h) = (
  s,
  inl (rw s.same_src (omega (arith, s.inside, pending_count-le r.0.fstr_state r.0.fstr_depth))),
)
normal-Outcome st d lex r (s, inr h) = (s, inr (inl h))

inner-Outcome :
    (d : FStrDepth) (lex : Lexer) (r : Lexer × Token)
    → Scanned lex r × (Advances lex r ⊎ (r.1.kind ≡ tok_error))
    → Scanned lex r × Outcome fstr_inner d lex r
inner-Outcome d lex r (s, inl h) = normal-Outcome fstr_inner d lex r (s, h)
inner-Outcome d lex r (s, inr e) = (s, inr (inr (e, λ p. cc)))

outer-Outcome :
    (d : FStrDepth) (lex : Lexer) (r : Lexer × Token)
    → Scanned lex r
    → (lex.pos < r.0.pos) ⊎ (r.1.kind ≡ tok_error)
    → Scanned lex r × Outcome fstr_outer d lex r
outer-Outcome d lex r s (inl h) = normal-Outcome fstr_outer d lex r (s, inl h)
outer-Outcome d lex r s (inr e) = (s, inr (inr (e, λ p. cc)))

Moves-Scanned :
    (lex : Lexer) {r : Lexer × Token} → IsValid lex → Moves lex lex.pos r → Scanned lex r
Moves-Scanned lex v m = ground arith

close_fragment-advances :
    (lex : Lexer) (kind : TokKind) (start : ℕ) (pos : SrcPos) (r : ℕ × FragEnd)
    → lex.pos ≤ r.0
    → (lex.pos < (close_fragment lex kind start pos r).0.pos)
      ⊎ ((close_fragment lex kind start pos r).1.kind ≡ tok_error)
unfolding close_fragment
close_fragment-advances lex kind start pos (p, at_brace) h = inl (omega arith)
close_fragment-advances lex kind start pos (p, at_quote) h = inl (omega arith)
close_fragment-advances lex kind start pos (p, failed e) h = inr refl

lex_scan_fstring_outer-advances :
    (lex : Lexer) (kind : TokKind) (start : ℕ) (pos : SrcPos)
    → lex.pos ≤ length lex.src
    → (lex.pos < (lex_scan_fstring_outer lex kind start pos).0.pos)
      ⊎ ((lex_scan_fstring_outer lex kind start pos).1.kind ≡ tok_error)
unfolding lex_scan_fstring_outer
lex_scan_fstring_outer-advances lex kind start pos h =
    close_fragment-advances lex kind start pos _
      (fragment_loop-Stops (length lex.src - lex.pos) lex.src lex.pos h).0

module _ (strtod : Bytes → ℕ × ℕ) where
  -- From `start`, past blanks, a token is scanned.
  token-Scanned :
      (lex : Lexer) (start : ℕ)
      → IsValid lex
      → lex.pos ≤ start
      → start < length lex.src
      → Scanned lex (
          scan_token strtod
            (move_to lex (start + 1))
            (byte_at lex.src start)
            start
            (lex_current_pos (move_to lex start)))
        × (lex.pos
            < (scan_token strtod
                (move_to lex (start + 1))
                (byte_at lex.src start)
                start
                (lex_current_pos (move_to lex start))).0.pos)
  token-Scanned lex start v before room =
      let m =
        scan_token-Moves strtod (move_to lex (start + 1)) start
          (lex_current_pos (move_to lex start)) (byte_at lex.src start) refl (omega arith) refl in
      (
        record {
          same_src = m.same_src;
          same_peek = m.same_peek;
          inside = m.inside;
          line_before = rw m.same_line_start (omega (arith, v.line_before, m.forward));
          few_lines = rw m.same_line (omega (arith, v.few_lines, m.forward));
          after = rw m.starts before;
          fits = rw m.starts m.fits;
        },
        omega (arith, m.forward),
      )

  pub scan_loop-Scanned :
      (fuel : ℕ) (lex : Lexer)
      → IsValid lex
      → length lex.src - lex.pos < fuel
      → Scanned lex (scan_loop strtod fuel lex) × Advances lex (scan_loop strtod fuel lex)
  unfolding scan_loop
  scan_loop-Scanned zero lex v h = absurd (omega arith)
  scan_loop-Scanned (suc fuel) lex v h =
      let P = λ (r : Lexer × Token). Scanned lex r × Advances lex r in
      let start = blanks_end lex.src lex.pos in
      let (b₀, b₁) = skip_blanks-Between (length lex.src - lex.pos) lex.src lex.pos v.inside in
      if_cases P (at_end lex.src start) (λ ended. ground arith)
        λ more.
          let room : start < length lex.src = ground arith in
          if_both P (byte_at lex.src start == b'\n')
            (if_both P (asi_should_insert lex.prev_kind) (ground arith) (
              Scanned-later lex start b₀ (
                scan_loop-Scanned fuel (past_newline lex start) (omega (arith, v.few_lines))
                  (omega arith))))
            (let t = token-Scanned lex start v b₀ room in (t.0, inl t.1))

  pub scan_normal-Scanned :
      (lex : Lexer)
      → IsValid lex
      → Scanned lex (scan_normal strtod lex) × Advances lex (scan_normal strtod lex)
  unfolding scan_normal
  scan_normal-Scanned lex v = scan_loop-Scanned (suc (length lex.src - lex.pos)) lex v (omega arith)

  -- Inside an expression: the lexer moves on, unless the source has ended.
  scan_inner-Scanned :
      (lex : Lexer)
      → IsValid lex
      → Scanned lex (scan_inner strtod lex)
        × (Advances lex (scan_inner strtod lex) ⊎ ((scan_inner strtod lex).1.kind ≡ tok_error))
  unfolding scan_inner close_brace
  scan_inner-Scanned lex v =
      let P = λ (r : Lexer × Token). Scanned lex r × (Advances lex r ⊎ (r.1.kind ≡ tok_error)) in
      let start = blanks_end lex.src lex.pos in
      let c = byte_at lex.src start in
      let (b₀, b₁) = skip_blanks-Between (length lex.src - lex.pos) lex.src lex.pos v.inside in
      if_cases P (at_end lex.src start) (λ ended. ground arith)
        λ more.
          let room : start < length lex.src = ground arith in
          if_both P (c == b'{') (ground arith) (
            if_both P (c == b'}') (ground arith) (
              if_both P (c == b'$' && byte_at lex.src (start + 1) == b'"') (ground arith) (
                Scanned-on lex start b₀
                  (scan_normal-Scanned (move_to lex start) (omega (arith, v.few_lines))))))

  -- `lexScan` in a mode of f-strings.
  scan_in-Scanned :
      (st : FStrState) (d : FStrDepth) (lex : Lexer)
      → IsValid lex
      → Scanned lex (scan_in strtod st d lex) × Outcome st d lex (scan_in strtod st d lex)
  unfolding scan_in
  scan_in-Scanned fstr_none end_pending lex v =
      (ground arith, inl (omega (arith, pending_count-braces lex.fstr_state 0)))
  scan_in-Scanned fstr_none (braces n) lex v =
      normal-Outcome fstr_none (braces n) lex _ (scan_normal-Scanned lex v)
  scan_in-Scanned fstr_none expr_start_pending lex v =
      normal-Outcome fstr_none expr_start_pending lex _ (scan_normal-Scanned lex v)
  scan_in-Scanned fstr_inner expr_start_pending lex v =
      (ground arith, inl (omega (arith, pending_count-braces lex.fstr_state 1)))
  scan_in-Scanned fstr_inner (braces n) lex v =
      inner-Outcome (braces n) lex _ (scan_inner-Scanned lex v)
  scan_in-Scanned fstr_inner end_pending lex v =
      inner-Outcome end_pending lex _ (scan_inner-Scanned lex v)
  scan_in-Scanned fstr_outer d lex v =
      let pos = lex_current_pos lex in
      let m =
        lex_scan_fstring_outer-Moves lex lex.pos pos (omega arith) tok_fstring_part v.inside refl
          refl in
      let s = Moves-Scanned lex v m in
      outer-Outcome d lex _ s
        (lex_scan_fstring_outer-advances lex tok_fstring_part lex.pos pos v.inside)

  -- The invariant holds after each token, and the token lies between the two positions.
  pub lex_scan-Scanned :
      (lex : Lexer)
      → IsValid lex
      → Scanned lex (lex_scan strtod lex)
        × Outcome lex.fstr_state lex.fstr_depth lex (lex_scan strtod lex)
  lex_scan-Scanned lex v = scan_in-Scanned lex.fstr_state lex.fstr_depth lex v
