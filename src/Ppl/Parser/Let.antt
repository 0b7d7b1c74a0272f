-- ===== src/Ppl/Parser/Let.antt =====
-- internal/ppl/parser.go: `parseAssign` and its use of `expectIdent`.
use virt_bbs.Prelude.{◌≡◌, ℕ, false, List, ◌∷◌, arith}
use virt_bbs.Ppl.Host.{Unicode, FloatOps}
use virt_bbs.Ppl.Lexer.{Token, tok_eq}
use virt_bbs.Ppl.Parser.{bad_let, is_newline, is_eq, next, peek_raw, skip}
use virt_bbs.Ppl.Parser.Stmt.{parse_assign, expect_equals, optional_list}

module _ (u : Unicode) (fl : FloatOps) where
  -- `LET` with a name, which is no line end, and `=` fails with the error of its line, whatever
  -- token but a second `=` follows.
  pub parse_assign-bad_let :
      (f line : ℕ) (name equals t : Token) (rest : List Token)
      → is_newline name.kind ≡ false
      → equals.kind ≡ tok_eq
      → is_eq t.kind ≡ false
      → parse_assign u fl f line (name ∷ equals ∷ t ∷ rest) ≡ bad_let line
  unfolding parse_assign expect_equals optional_list next peek_raw skip
  parse_assign-bad_let f line name equals t rest named is_equals no_equals =
      ground (arith, named, is_equals, no_equals)
