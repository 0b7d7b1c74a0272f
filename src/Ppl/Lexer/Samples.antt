-- ===== src/Ppl/Lexer/Samples.antt =====
-- The lexer on concrete sources, and its theorems at concrete inputs.
use virt_bbs.Prelude.{◌≡◌, ◌++◌, arith, refl, some, none, List, [], ◌∷◌, ℕ, Bytes, codes}
use virt_bbs.Ppl.Host.{ascii, utf8, encode}
use virt_bbs.Ppl.Lexer.{
  TokenKind, Token, tok_eof, tok_newline, tok_ident, tok_integer, tok_real, tok_string, tok_eq,
  tok_plus, tok_lte, scan, skip_blanks, skip_comment, number_runes, ident_runes, tokens, tokenize,
}
use virt_bbs.Ppl.Lexer.Total.{EndsInEof, tokenize-EndsInEof, tokens-at_sign}
use virt_bbs.Ppl.Lexer.Strings.{quote, scan-quote}

abbrev tok : TokenKind → Bytes → ℕ → Token
tok k t l = record { kind = k; text = t; line = l }

assignment :
    tokenize ascii (codes "x = 1.5 + y2 ; sum\n\"a\\nb\" <= 7")
    ≡ some (
        tok tok_ident (codes "X") 1
        ∷ tok tok_eq (codes "=") 1
        ∷ tok tok_real (codes "1.5") 1
        ∷ tok tok_plus (codes "+") 1
        ∷ tok tok_ident (codes "Y2") 1
        ∷ tok tok_newline (codes "\n") 1
        ∷ tok tok_string (codes "a\nb") 2
        ∷ tok tok_lte (codes "<=") 2
        ∷ tok tok_integer (codes "7") 2
        ∷ tok tok_eof [] 2
        ∷ [])
unfolding tokenize tokens scan skip_blanks skip_comment number_runes ident_runes utf8
assignment = refl

tokenize-EndsInEof_example :
    (toks : List Token) × (tokenize ascii (codes "x = 1") ≡ some toks) × EndsInEof ascii toks
tokenize-EndsInEof_example = tokenize-EndsInEof ascii (codes "x = 1") (omega arith)

tokens-at_sign_example : tokens ascii 1000 (record { src = codes " @x = 1"; line = 1 }) ≡ none
unfolding skip_blanks
tokens-at_sign_example =
    tokens-at_sign ascii 1000 (record { src = codes " @x = 1"; line = 1 }) (codes "x = 1") refl refl
      refl

scan-quote_example :
    scan ascii 1 (record { src = b'"' ∷ (quote (codes "a\"b") ++ (b'"' ∷ codes " + 1")); line = 3 })
    ≡ some (
      record { kind = tok_string; text = encode (codes "a\"b"); line = 3 },
      record { src = codes " + 1"; line = 3 },
    )
scan-quote_example = scan-quote ascii 0 3 (codes "a\"b") (codes " + 1")
