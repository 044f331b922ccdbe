-- ===== src/Lexer/Next.antt =====
-- src/lexer/ms_lexer.c, `msLexerNext` and `msLexerPeek`: order of the tokens, and peeking.
use mslang_c.Base.{ℕ, ◌+◌, ◌≤◌, ◌≡◌, sym, ap, ◌∙◌, Bytes, none, if_both}
use mslang_c.Lexer.Bounds.{IsValid, lex_scan-Scanned}
use mslang_c.Lexer.Kind.{TokKind, is_newline}
use mslang_c.Lexer.Scan.{lexer_next, lexer_peek, lex_scan, next_from, peek_from, note_kind}
use mslang_c.Lexer.State.{Lexer, Token}

-- What a call of `msLexerNext` with nothing peeked gives: the invariant, the same source, nothing
-- peeked, and a token between the old position and the new one.
pub record Delivers (lex : Lexer) (r : Lexer × Token) : Type 0 where
  pub valid : IsValid r.0
  pub same_src : r.0.src ≡ lex.src
  pub no_peek : r.0.peek ≡ none
  pub after : lex.pos ≤ r.1.start
  pub fits : r.1.start + r.1.len ≤ r.0.pos

noted-Delivers :
    (lex l : Lexer) (t : Token) (kind : TokKind)
    → Delivers lex (l, t)
    → Delivers lex (record l { prev_kind = kind }, t)
noted-Delivers lex l t kind d = record {
  valid = record {
    inside = d.valid.inside;
    line_before = d.valid.line_before;
    few_lines = d.valid.few_lines;
  };
  same_src = d.same_src;
  no_peek = d.no_peek;
  after = d.after;
  fits = d.fits;
}

module _ (strtod : Bytes → ℕ × ℕ) (lex : Lexer) (v : IsValid lex) (p : lex.peek ≡ none) where
  next-scan : lexer_next strtod lex ≡ note_kind strtod (lex_scan strtod lex)
  unfolding lexer_next next_from
  next-scan = ap (λ o. next_from strtod o lex) p

  scan-Delivers : Delivers lex (lex_scan strtod lex)
  scan-Delivers =
      let (s, _) = lex_scan-Scanned strtod lex v in
      record {
        valid = record {
          inside = rw s.same_src s.inside;
          line_before = s.line_before;
          few_lines = s.few_lines;
        };
        same_src = s.same_src;
        no_peek = s.same_peek ∙ p;
        after = s.after;
        fits = s.fits;
      }

  -- From a valid state with nothing peeked, `msLexerNext` gives a valid state over the same source
  -- with nothing peeked, and a token that starts at or after the old position and ends at or before
  -- the new one.
  pub lexer_next-Delivers : Delivers lex (lexer_next strtod lex)
  lexer_next-Delivers =
      let (l, t) = lex_scan strtod lex in
      rw next-scan (
        if_both (λ l'. Delivers lex (l', t)) (is_newline t.kind) scan-Delivers
          (noted-Delivers lex l t t.kind scan-Delivers))

  -- From a valid state with nothing peeked, `msLexerPeek` gives the token that `msLexerNext` would
  -- give, and a call of `msLexerNext` behind it has the result that it would have had without it.
  pub next-peek :
      ((lexer_peek strtod lex).1 ≡ (lexer_next strtod lex).1)
      × (lexer_next strtod (lexer_peek strtod lex).0 ≡ lexer_next strtod lex)
  unfolding lexer_next next_from lexer_peek peek_from
  next-peek =
      let (l, t) = lex_scan strtod lex in
      let unpeeked : l.peek ≡ none = scan-Delivers.no_peek in
      (
        ap (λ o. (peek_from strtod o lex).1) p ∙ sym (ap (λ o. (next_from strtod o lex).1) p),
        ap (λ o. next_from strtod (peek_from strtod o lex).0.peek (peek_from strtod o lex).0) p
            ∙ ap (λ o. note_kind strtod (record l { peek = o }, t)) (sym unpeeked)
            ∙ sym next-scan,
      )
