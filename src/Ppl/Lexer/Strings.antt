-- ===== src/Ppl/Lexer/Strings.antt =====
-- A string literal can hold every text: `scan` reads back what is quoted.
use virt_bbs.Prelude.{
  ℕ, ◌≡◌, refl, ap, sym, some, suc, ◌∙◌, List, [], ◌∷◌, ◌++◌, append_assoc, arith, ◌==◌,
  if◌then◌else◌,
}
use virt_bbs.Ppl.Host.{Unicode, utf8, encode}
use virt_bbs.Ppl.Lexer.{
  tok_string, scan_string, unescape, scan, scan_here, string_token, skip_blanks,
}
use virt_bbs.Ppl.Lexer.Total.{scan_string-cons}

-- A rune as a literal has to write it: `\\` stands for a backslash since it is no other escape.
abbrev pub quote_rune : ℕ → List ℕ
quote_rune c =
    if c == b'"'
    then b'\\' ∷ b'"' ∷ []
    else if c == b'\\'
    then b'\\' ∷ b'\\' ∷ []
    else if c == b'\n'
    then b'\\' ∷ b'n' ∷ []
    else c ∷ []

abbrev pub quote : List ℕ → List ℕ
quote [] = []
quote (c ∷ cs) = quote_rune c ++ quote cs

-- Something stands behind the rune, so the loop goes on.
scan_string-quote_rune :
    (c d line : ℕ) (rs : List ℕ)
    → scan_string (quote_rune c ++ (d ∷ rs)) line
      ≡ (utf8 c ++ (scan_string (d ∷ rs) line).0, (scan_string (d ∷ rs) line).1)
unfolding unescape utf8
scan_string-quote_rune c d line rs = ground (
  arith,
  scan_string-cons b'\\' b'"' (d ∷ rs) line,
  scan_string-cons b'\\' b'\\' (d ∷ rs) line,
  scan_string-cons b'\\' b'n' (d ∷ rs) line,
  scan_string-cons c d rs line,
)

scan_string_close :
    (rest : List ℕ) (line : ℕ)
    → scan_string (b'"' ∷ rest) line ≡ ([], record { src = rest; line = line })
unfolding scan_string
scan_string_close [] line = refl
scan_string_close (d ∷ rs) line = refl

quote-ne-nil : (cs rest : List ℕ) → (d : ℕ) × (rs : List ℕ) × (quote cs ++ (b'"' ∷ rest) ≡ d ∷ rs)
quote-ne-nil [] rest = (b'"', rest, refl)
quote-ne-nil (c ∷ cs) rest =
    let tail = quote cs ++ (b'"' ∷ rest) in
    (head c, after c tail, append_assoc (quote_rune c) (quote cs) (b'"' ∷ rest) ∙ split c tail)
  where
    head : ℕ → ℕ
    head c =
        if c == b'"' then b'\\' else if c == b'\\' then b'\\' else if c == b'\n' then b'\\' else c

    after : ℕ → List ℕ → List ℕ
    after c t =
        if c == b'"'
        then b'"' ∷ t
        else if c == b'\\'
        then b'\\' ∷ t
        else if c == b'\n'
        then b'n' ∷ t
        else t

    split : (c : ℕ) (t : List ℕ) → quote_rune c ++ t ≡ head c ∷ after c t
    split c t = ground arith

scan_string-quote :
    (cs rest : List ℕ) (line : ℕ)
    → scan_string (quote cs ++ (b'"' ∷ rest)) line ≡ (encode cs, record { src = rest; line = line })
scan_string-quote [] rest line = scan_string_close rest line
scan_string-quote (c ∷ cs) rest line =
    let (d, rs, e) = quote-ne-nil cs rest in
    ap (λ t. scan_string t line)
      (append_assoc (quote_rune c) (quote cs) (b'"' ∷ rest) ∙ ap (λ t. quote_rune c ++ t) e)
    ∙ scan_string-quote_rune c d line rs
    ∙ ap (λ t. (utf8 c ++ (scan_string t line).0, (scan_string t line).1)) (sym e)
    ∙ ap (λ p. (utf8 c ++ p.0, p.1)) (scan_string-quote cs rest line)

-- Every text can be written as a string literal: the token that `scan` makes of the quoted text
-- holds the text's bytes, the source goes on behind the closing quote, and the line is the same.
pub scan-quote :
    (u : Unicode) (f line : ℕ) (cs rest : List ℕ)
    → scan u (suc f) (record { src = b'"' ∷ (quote cs ++ (b'"' ∷ rest)); line = line })
      ≡ some (
        record { kind = tok_string; text = encode cs; line = line },
        record { src = rest; line = line },
      )
unfolding scan scan_here string_token skip_blanks
scan-quote u f line cs rest = rw (scan_string-quote cs rest line)
