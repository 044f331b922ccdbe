-- ===== src/Lexer/Stuck.antt =====
-- src/lexer/ms_lexer.c: a broken f-string. `lexScanFStringOuter` returns its errors in the mode
-- `MS_FSTR_OUTER` and before the byte that it refuses.
use mslang_c.Base.{
  ℕ, zero, suc, ◌+◌, ◌-◌, ◌≤◌, ◌≡◌, refl, ◌∙◌, ap, Bool, true, not, ◌&&◌, ◌||◌, ◌==◌, none, Bytes,
  length, arith, if◌then◌else◌,
}
use mslang_c.Lexer.FString.{
  FragEnd, at_brace, at_quote, failed, fragment_loop, close_fragment, lex_scan_fstring_outer,
}
use mslang_c.Lexer.Kind.{tok_error, tok_fstring_part, is_error}
use mslang_c.Lexer.Quoted.{is_line_end}
use mslang_c.Lexer.Scan.{lexer_next, next_from, scan_in, note_kind}
use mslang_c.Lexer.State.{
  Lexer, LexError, FStrState, unterminated_fstring, unexpected_fstring_brace, fstr_outer, at_end,
  byte_at, lex_current_pos,
}
use mslang_c.Lexer.Tokens.{tokens_loop}

-- A fragment that begins here fails at once.
abbrev IsBlocked : Bytes → ℕ → Type 0
IsBlocked src p =
    (at_end src p
      || (is_line_end (byte_at src p) || byte_at src p == 0)
      || (byte_at src p == b'}' && not (byte_at src (p + 1) == b'}')))
    ≡ true

-- Where a fragment fails, any fragment from there fails too.
fragment_loop-IsBlocked :
    (fuel : ℕ) (src : Bytes) (pos p : ℕ) (e : LexError)
    → length src ≤ pos + fuel
    → fragment_loop fuel src pos ≡ (p, failed e)
    → IsBlocked src p
unfolding fragment_loop
fragment_loop-IsBlocked zero src pos p e h eq = ground arith
fragment_loop-IsBlocked (suc fuel) src pos p e h eq = ground (
  arith,
  fragment_loop-IsBlocked fuel src (pos + 1) p e,
  fragment_loop-IsBlocked fuel src (pos + 2) p e,
)

IsBlocked-fails :
    (fuel : ℕ) (src : Bytes) (p : ℕ)
    → IsBlocked src p
    → (e : LexError) × (fragment_loop fuel src p ≡ (p, failed e))
unfolding fragment_loop
IsBlocked-fails zero src p h = (unterminated_fstring, refl)
IsBlocked-fails (suc fuel) src p h =
    let c = byte_at src p in
    (
      if at_end src p || (is_line_end c || c == 0)
          then unterminated_fstring
          else unexpected_fstring_brace,
      ground arith,
    )

-- In the text of an f-string, before a byte at which the fragment fails.
record IsStuck (lex : Lexer) : Type 0 where
  no_peek : lex.peek ≡ none
  in_text : lex.fstr_state ≡ fstr_outer
  blocked : IsBlocked lex.src lex.pos

module _ (strtod : Bytes → ℕ × ℕ) where
  next_in_text :
      (lex : Lexer)
      → lex.peek ≡ none
      → lex.fstr_state ≡ fstr_outer
      → lexer_next strtod lex
        ≡ note_kind strtod
            (lex_scan_fstring_outer lex tok_fstring_part lex.pos (lex_current_pos lex))
  unfolding lexer_next next_from scan_in
  next_in_text lex p o =
      ap (λ m. next_from strtod m lex) p
      ∙ ap (λ (st : FStrState). note_kind strtod (scan_in strtod st lex.fstr_depth lex)) o

  closed-IsStuck :
      (lex : Lexer)
      → lex.peek ≡ none
      → lex.fstr_state ≡ fstr_outer
      → (r : ℕ × FragEnd) → fragment_loop (length lex.src - lex.pos) lex.src lex.pos ≡ r
      → (note_kind strtod
          (close_fragment lex tok_fstring_part lex.pos (lex_current_pos lex) r)).1.kind
        ≡ tok_error
      → IsStuck
          (note_kind strtod (close_fragment lex tok_fstring_part lex.pos (lex_current_pos lex) r)).0
  unfolding close_fragment
  closed-IsStuck lex p o (q, at_brace) eq e = cc
  closed-IsStuck lex p o (q, at_quote) eq e = cc
  closed-IsStuck lex p o (q, failed msg) eq e = record {
    no_peek = p;
    in_text = o;
    blocked =
        fragment_loop-IsBlocked (length lex.src - lex.pos) lex.src lex.pos q msg (omega arith) eq;
  }

  -- A fragment that fails leaves the lexer stuck.
  fails-IsStuck :
      (lex : Lexer)
      → lex.peek ≡ none
      → lex.fstr_state ≡ fstr_outer
      → (lexer_next strtod lex).1.kind ≡ tok_error
      → IsStuck (lexer_next strtod lex).0
  unfolding lex_scan_fstring_outer
  fails-IsStuck lex p o =
      rw (next_in_text lex p o)
        (closed-IsStuck lex p o (fragment_loop (length lex.src - lex.pos) lex.src lex.pos) refl)

  IsStuck-next :
      (lex : Lexer)
      → IsStuck lex
      → IsStuck (lexer_next strtod lex).0 × ((lexer_next strtod lex).1.kind ≡ tok_error)
  unfolding lex_scan_fstring_outer close_fragment
  IsStuck-next lex h =
      let (e, f) = IsBlocked-fails (length lex.src - lex.pos) lex.src lex.pos h.blocked in
      rw (next_in_text lex h.no_peek h.in_text, f)
        (record { no_peek = h.no_peek; in_text = h.in_text; blocked = h.blocked }, refl)

  IsStuck-tokens_loop :
      (fuel : ℕ) (lex : Lexer) (saw : Bool) → IsStuck lex → tokens_loop strtod fuel lex saw ≡ none
  unfolding tokens_loop
  IsStuck-tokens_loop zero lex saw h = refl
  IsStuck-tokens_loop (suc fuel) lex saw h =
      let (s, e) = IsStuck-next lex h in
      rw (e, IsStuck-tokens_loop fuel (lexer_next strtod lex).0 (saw || is_error tok_error) s)

  -- Once the text of an f-string is refused, the command never ends: whatever the fuel, it runs out
  -- before the token of the end.
  pub tokens_loop-fstring_error :
      (lex : Lexer) (saw : Bool)
      → lex.peek ≡ none
      → lex.fstr_state ≡ fstr_outer
      → (lexer_next strtod lex).1.kind ≡ tok_error
      → (fuel : ℕ) → tokens_loop strtod fuel lex saw ≡ none
  unfolding tokens_loop
  tokens_loop-fstring_error lex saw p o e zero = refl
  tokens_loop-fstring_error lex saw p o e (suc fuel) =
      let s = fails-IsStuck lex p o e in
      rw (e, IsStuck-tokens_loop fuel (lexer_next strtod lex).0 (saw || is_error tok_error) s)
