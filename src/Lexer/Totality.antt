-- ===== src/Lexer/Totality.antt =====
-- src/core/ms_cli.c, `cmdTokens`, over sources with no f-string.
use mslang_c.Base.{
  ℕ, zero, suc, ◌+◌, ◌*◌, ◌<◌, ◌≡◌, ◌≢◌, ◌⊎◌, if_both, refl, ◌∙◌, ap, Bool, true, false, ◌||◌, none,
  some, List, ◌∷◌, [], Bytes, length, arith, inl, inr, Bool-cases, if◌then◌else◌,
}
use Prim.Native.String.{String}
use mslang_c.Lexer.Bounds.{IsValid, pending_count-le, scan_normal-Scanned, weight}
use mslang_c.Lexer.Kind.{is_eof, is_error, is_newline, TokKind}
use mslang_c.Lexer.Mode.{mode, scan_normal-mode}
use mslang_c.Lexer.Scan.{lexer_next, next_from, scan_in, scan_normal, note_kind}
use mslang_c.Lexer.State.{
  Lexer, Token, FStrState, FStrDepth, fstr_none, braces, byte_at, lexer_init,
}
use mslang_c.Lexer.Tokens.{tokens_loop, cmd_tokens}

-- A lexer between tokens, outside f-strings, over a source with no `$`.
record IsPlain (lex : Lexer) : Type 0 where
  valid : IsValid lex
  no_peek : lex.peek ≡ none
  outside : mode lex ≡ (fstr_none, braces 0)
  free : (p : ℕ) → byte_at lex.src p ≢ b'$'

-- Noting the kind of a token changes nothing that matters here.
prev-IsPlain :
    (lex : Lexer) (kind : TokKind) → IsPlain lex → IsPlain (record lex { prev_kind = kind })
prev-IsPlain lex kind h = record {
  valid = record {
    inside = h.valid.inside;
    line_before = h.valid.line_before;
    few_lines = h.valid.few_lines;
  };
  no_peek = h.no_peek;
  outside = h.outside;
  free = h.free;
}

module _ (strtod : Bytes → ℕ × ℕ) where
  next-plain :
      (lex : Lexer)
      → IsPlain lex
      → lexer_next strtod lex ≡ note_kind strtod (scan_normal strtod lex)
  unfolding lexer_next next_from scan_in
  next-plain lex h =
      ap (λ o. next_from strtod o lex) h.no_peek
      ∙ ap (λ (m : FStrState × FStrDepth). note_kind strtod (scan_in strtod m.0 m.1 lex)) h.outside

  scan_normal-IsPlain :
      (lex : Lexer)
      → IsPlain lex
      → (is_eof (scan_normal strtod lex).1.kind ≡ true)
        ⊎ (IsPlain (scan_normal strtod lex).0 × (weight (scan_normal strtod lex).0 < weight lex))
  scan_normal-IsPlain lex h =
      let (s, a) = scan_normal-Scanned strtod lex h.valid in
      let r = (scan_normal strtod lex).0 in
      elim a [
        | inr e ↦ inl (rw e.0 refl)
        | inl on ↦ inr (
          record {
            valid = record {
              inside = rw s.same_src s.inside;
              line_before = s.line_before;
              few_lines = s.few_lines;
            };
            no_peek = s.same_peek ∙ h.no_peek;
            outside = scan_normal-mode strtod lex h.free ∙ h.outside;
            free = rw s.same_src h.free;
          },
          rw s.same_src (omega (arith, s.inside, on, pending_count-le r.fstr_state r.fstr_depth)),
        )
      ]

  -- One token: the end, or the lexer is plain again and nearer to the end.
  next-IsPlain :
      (lex : Lexer)
      → IsPlain lex
      → (is_eof (lexer_next strtod lex).1.kind ≡ true)
        ⊎ (IsPlain (lexer_next strtod lex).0 × (weight (lexer_next strtod lex).0 < weight lex))
  next-IsPlain lex h =
      let r = scan_normal strtod lex in
      rw (next-plain lex h) (elim (scan_normal-IsPlain lex h) [
        | inl e ↦ inl e
        | inr (p, w) ↦ inr (
            if_both (λ l. IsPlain l × (weight l < weight lex)) (is_newline r.1.kind) (p, w)
              (prev-IsPlain r.0 r.1.kind p, w))
      ])

  tokens_loop-total :
      (fuel : ℕ) (lex : Lexer) (saw : Bool)
      → IsPlain lex
      → weight lex < fuel
      → (r : List Token × ℕ) × (tokens_loop strtod fuel lex saw ≡ some r)
  unfolding tokens_loop
  tokens_loop-total zero lex saw h w = absurd (omega arith)
  tokens_loop-total (suc fuel) lex saw h w =
      let (lex', tok) = lexer_next strtod lex in
      elim (next-IsPlain lex h) [
        | inl e ↦ ((tok ∷ [], if saw || is_error tok.kind then 1 else 0), rw e)
        | inr (p, less) ↦
            let (r, e) = tokens_loop-total fuel lex' (saw || is_error tok.kind) p (omega arith) in
            elim (Bool-cases (is_eof tok.kind)) [
              | inl end ↦ ((tok ∷ [], if saw || is_error tok.kind then 1 else 0), rw end)
              | inr more ↦ ((tok ∷ r.0, r.1), rw (more, e))
            ]
      ]

  -- A source with no `$` is lexed to its end: the command ends, with fuel for two calls for each
  -- byte and one more.
  pub cmd_tokens-total :
      (src : Bytes) (file_name : String)
      → ((p : ℕ) → byte_at src p ≢ b'$')
      → (r : List Token × ℕ) × (cmd_tokens strtod (2 * length src + 1) src file_name ≡ some r)
  unfolding cmd_tokens
  cmd_tokens-total src file_name free =
      tokens_loop-total (2 * length src + 1) (lexer_init src file_name) false
        (record { valid = omega arith; no_peek = refl; outside = refl; free = free }) (omega arith)
