-- ===== src/Ppl/Parser.antt =====
-- internal/ppl/parser.go: the parser's state and its look at the tokens. The state is the list of
-- the tokens from `pos` on. `Expr` has the expressions, `Stmt` the statements.
mod Samples
pub mod Expr
pub mod Stmt
pub mod Total
pub mod Precedence
pub mod Let
use virt_bbs.Prelude.{ℕ, Bool, true, false, ◌&&◌, List, [], ◌∷◌, String, Bytes, codes, equal}
use virt_bbs.Ppl.Host.{Unicode}
use virt_bbs.Ppl.Lexer.{
  Token, TokenKind, tok_eof, tok_newline, tok_ident, tok_eq, tok_lparen, tok_rparen, tok_comma,
  tok_colon, tok_hash,
}

-- The one error that the parser reports carries the line of its LET. `out_of_fuel` is the model's.
pub data Outcome (A : Type 0) : Type 0 where
  ok : A → List Token → Outcome A
  bad_let : ℕ → Outcome A
  out_of_fuel : Outcome A

abbrev pub P : Type 0 → Type 0
P A = List Token → Outcome A

abbrev continue : {A B : Type 0} → Outcome A → (A → P B) → Outcome B
continue (ok a rest) f = f a rest
continue (bad_let line) f = bad_let line
continue out_of_fuel f = out_of_fuel

infixl 5 ◌>>=◌ ◌>>◌
abbrev pub ◌>>=◌ : {A B : Type 0} → P A → (A → P B) → P B
◌>>=◌ m f toks = continue (m toks) f

abbrev pub ◌>>◌ : {A B : Type 0} → P A → P B → P B
m >> k = m >>= λ _. k

abbrev pub pure : {A : Type 0} → A → P A
pure a toks = ok a toks

abbrev pub stuck : {A : Type 0} → P A
stuck toks = out_of_fuel

abbrev pub no_token : Token
no_token = record { kind = tok_eof; text = []; line = 0 }

abbrev pub head : List Token → Token
head [] = no_token
head (t ∷ _) = t

abbrev pub tail : List Token → List Token
tail [] = []
tail (_ ∷ ts) = ts

pub is_newline : TokenKind → Bool
is_newline tok_newline = true
is_newline _ = false

unfoldable pub skip : List Token → List Token
unfolding is_newline
skip [] = []
skip (t ∷ ts) = let rest = skip ts in elim (is_newline t.kind) [ true ↦ rest | false ↦ t ∷ ts ]

-- `peek` passes the newlines in front of the token that it shows.
unfoldable pub peek : P Token
unfolding skip
peek toks = let rest = skip toks in ok (head rest) rest

unfoldable pub peek_raw : P Token
peek_raw toks = ok (head toks) toks

unfoldable pub next : P Token
unfolding skip
next toks = let rest = skip toks in ok (head rest) (tail rest)

unfoldable pub skip_newlines : P (Unit {0})
unfolding skip
skip_newlines toks = ok tt (skip toks)

-- The tests on a token's kind, one for each kind that the parser tests for.
abbrev pub is_eof : TokenKind → Bool
is_eof tok_eof = true
is_eof _ = false

abbrev pub is_ident : TokenKind → Bool
is_ident tok_ident = true
is_ident _ = false

abbrev pub is_eq : TokenKind → Bool
is_eq tok_eq = true
is_eq _ = false

abbrev pub is_lparen : TokenKind → Bool
is_lparen tok_lparen = true
is_lparen _ = false

abbrev pub is_rparen : TokenKind → Bool
is_rparen tok_rparen = true
is_rparen _ = false

abbrev pub is_comma : TokenKind → Bool
is_comma tok_comma = true
is_comma _ = false

abbrev pub is_colon : TokenKind → Bool
is_colon tok_colon = true
is_colon _ = false

abbrev pub is_hash : TokenKind → Bool
is_hash tok_hash = true
is_hash _ = false

-- `t.Kind == TokIdent && strings.ToUpper(t.Text) == word`
abbrev pub is_word : Unicode → Token → String → Bool
is_word u t word = is_ident t.kind && equal (u.to_upper t.text) (codes word)
