-- ===== src/Lexer/Tokens.antt =====
-- src/core/ms_cli.c, `cmdTokens`: the command that lexes a whole file. Reading the file and printing
-- are left out: the model takes the bytes, and returns the tokens in the order of printing.
use Prim.Native.String.{String}
use mathlib.Core.Option
use mslang_c.Base.{
  ℕ, zero, suc, Bool, false, ◌||◌, Option, none, some, List, [], ◌∷◌, Bytes, if◌then◌else◌,
}
use mslang_c.Lexer.Kind.{is_eof, is_error}
use mslang_c.Lexer.Scan.{lexer_next}
use mslang_c.Lexer.State.{Lexer, Token, lexer_init}

module _ (strtod : Bytes → ℕ × ℕ) where
  -- The loop of `cmdTokens`: the tokens up to the end, and the exit status. `none` means that the
  -- fuel ran out.
  unfoldable pub tokens_loop : ℕ → Lexer → Bool → Option (List Token × ℕ)
  tokens_loop zero lex saw_error = none
  tokens_loop (suc fuel) lex saw_error =
      let (lex', tok) = lexer_next strtod lex in
      let saw' = saw_error || is_error tok.kind in
      let rest = tokens_loop fuel lex' saw' in
      if is_eof tok.kind
      then some (tok ∷ [], if saw' then 1 else 0)
      else Option.map (λ r. (tok ∷ r.0, r.1)) rest

  -- `cmdTokens`
  unfoldable pub cmd_tokens : ℕ → Bytes → String → Option (List Token × ℕ)
  cmd_tokens fuel src file_name = tokens_loop fuel (lexer_init src file_name) false
