-- ===== src/Lexer/Moves.antt =====
-- src/lexer/ms_lexer.c: what a scanning function does to the position and the line.
pub mod Loops
pub mod Scanners
pub mod Tokens
use mslang_c.Base.{ℕ, ◌+◌, ◌≤◌, ◌≡◌, refl, false, Bytes, length}
use mslang_c.Lexer.Kind.{is_newline, is_eof}
use mslang_c.Lexer.State.{Lexer, Token}

pub record Moves (lex : Lexer) (start : ℕ) (r : Lexer × Token) : Type 0 where
  pub same_src : r.0.src ≡ lex.src
  pub same_line : r.0.line ≡ lex.line
  pub same_line_start : r.0.line_start ≡ lex.line_start
  pub same_peek : r.0.peek ≡ lex.peek
  pub same_prev : r.0.prev_kind ≡ lex.prev_kind
  pub forward : lex.pos ≤ r.0.pos
  pub inside : r.0.pos ≤ length lex.src
  pub starts : r.1.start ≡ start
  pub fits : start + r.1.len ≤ r.0.pos
  pub not_newline : is_newline r.1.kind ≡ false
  pub not_eof : is_eof r.1.kind ≡ false
