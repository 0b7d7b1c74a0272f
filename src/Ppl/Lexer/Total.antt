-- ===== src/Ppl/Lexer/Total.antt =====
-- `Tokenize` ends: each call of `scan` passes a rune at least, unless the source holds an `@`.
use virt_bbs.Prelude.{
  ℕ, zero, suc, ◌+◌, ◌≤◌, ◌<◌, ◌≡◌, refl, ◌⊎◌, inl, inr, ◌||◌, Bool, true, false, Option, none,
  some, List, [], ◌∷◌, ◌++◌, arith, length, ◌==◌, if◌then◌else◌, Bool-cases,
}
use virt_bbs.Ppl.Host.{Unicode, utf8}
use virt_bbs.Ppl.Lexer.{
  Token, Lexer, skip_blanks, skip_comment, scan_string, number_runes, ident_runes, scan_number,
  scan_ident, scan_label, scan_symbol, symbol_token, string_token, scan_here, scan, tokens,
  tokenize, is_eof, starts_number, starts_ident, new_lexer, pass, unescape,
}

-- How often `@` stands in a source.
abbrev pub ats : List ℕ → ℕ
ats [] = 0
ats (r ∷ rs) = (if r == b'@' then 1 else 0) + ats rs

-- What is left of a source is no longer, and has no new `@`.
abbrev Within : List ℕ → List ℕ → Type 0
Within rest src = (length rest ≤ length src) × (ats rest ≤ ats src)

skip_blanks-Within : (rs : List ℕ) → Within (skip_blanks rs) rs
unfolding skip_blanks
skip_blanks-Within [] = omega arith
skip_blanks-Within (r ∷ rs) = ground (arith, skip_blanks-Within rs)

skip_comment-Within : (rs : List ℕ) → Within (skip_comment rs) rs
unfolding skip_comment
skip_comment-Within [] = omega arith
skip_comment-Within (r ∷ rs) = ground (arith, skip_comment-Within rs)

-- One round of the loop over a literal, on a source of two runes at least.
pub scan_string-cons :
    (c d : ℕ) (rs : List ℕ) (line : ℕ)
    → scan_string (c ∷ d ∷ rs) line ≡ (
        if c == b'"'
        then ([], record { src = d ∷ rs; line = line })
        else if c == b'\\'
        then (
          unescape d ∷ (scan_string rs (pass d (pass c line))).0,
          (scan_string rs (pass d (pass c line))).1,
        )
        else (
          utf8 c ++ (scan_string (d ∷ rs) (pass c line)).0,
          (scan_string (d ∷ rs) (pass c line)).1,
        ))
unfolding scan_string
scan_string-cons c d rs line = refl

scan_string-Within : (rs : List ℕ) (line : ℕ) → Within (scan_string rs line).1.src rs
scan_string-Within [] line = unfold scan_string in ground arith
scan_string-Within (c ∷ []) line = unfold scan_string in ground arith
scan_string-Within (c ∷ d ∷ rs) line = rw scan_string-cons (
    ground (
      arith,
      scan_string-Within rs (pass d (pass c line)),
      scan_string-Within (d ∷ rs) (pass c line),
    ))

abbrev Found {ℓ κ} : {A : Type ℓ} {B : Type κ} → List ℕ → Option (A × B × List ℕ) → Type 0
Found rs none = Unit
Found rs (some (k, t, rest)) = Within rest rs

scan_symbol-Within : (ch : ℕ) (rs : List ℕ) → Found rs (scan_symbol ch rs)
unfolding scan_symbol
scan_symbol-Within ch [] = ground arith
scan_symbol-Within ch (r ∷ rs) = ground arith

module _ (u : Unicode) where
  open u use {is_letter, is_digit}

  number_runes-Within : (real : Bool) (rs : List ℕ) → Within (number_runes u real rs).2 rs
  unfolding number_runes
  number_runes-Within real [] = omega arith
  number_runes-Within real (r ∷ rs) = ground (arith, number_runes-Within (real || r == b'.') rs)

  ident_runes-Within : (rs : List ℕ) → Within (ident_runes u rs).1 rs
  unfolding ident_runes
  ident_runes-Within [] = omega arith
  ident_runes-Within (r ∷ rs) = ground (arith, ident_runes-Within rs)

  -- What a scan left over `n` runes promises: the end, or fewer runes, and no `@`.
  abbrev pub Progress : ℕ → Option (Token × Lexer) → Type 0
  Progress n none = ⊥
  Progress n (some (t, l)) = (ats l.src ≡ 0) × ((is_eof u t.kind ≡ true) ⊎ (length l.src < n))

  Progress-mono : (m n : ℕ) (r : Option (Token × Lexer)) → m ≤ n → Progress m r → Progress n r
  Progress-mono m n none h p = p
  Progress-mono m n (some (t, l)) h p = ground arith

  scan_number-Progress :
      (ch : ℕ) (rs : List ℕ) (line : ℕ)
      → ats (ch ∷ rs) ≡ 0
      → starts_number u ch rs ≡ true
      → Progress (length (ch ∷ rs)) (some (scan_number u (record { src = ch ∷ rs; line = line })))
  unfolding scan_number number_runes
  scan_number-Progress ch rs line h s =
      ground
        (arith, number_runes-Within (ch == b'.') rs, number_runes-Within (false || ch == b'.') rs)

  scan_ident-Progress :
      (ch : ℕ) (rs : List ℕ) (line : ℕ)
      → ats (ch ∷ rs) ≡ 0
      → starts_ident u ch ≡ true
      → Progress (length (ch ∷ rs)) (some (scan_ident u (record { src = ch ∷ rs; line = line })))
  unfolding scan_ident ident_runes
  scan_ident-Progress ch rs line h s = ground (arith, ident_runes-Within rs)

  scan_label-Progress :
      (ch : ℕ) (rs : List ℕ) (line : ℕ)
      → ats (ch ∷ rs) ≡ 0
      → Progress (length (ch ∷ rs)) (some (scan_label u (record { src = rs; line = line })))
  unfolding scan_label
  scan_label-Progress ch rs line h = ground (arith, ident_runes-Within rs)

  string_token-Progress :
      (ch : ℕ) (rs : List ℕ) (line : ℕ)
      → ats (ch ∷ rs) ≡ 0
      → Progress (length (ch ∷ rs)) (some (string_token u rs line))
  unfolding string_token
  string_token-Progress ch rs line h = ground (arith, scan_string-Within rs line)

  symbol_token-Progress :
      (line ch : ℕ) (rs : List ℕ) (again : Option (Token × Lexer))
      → ats (ch ∷ rs) ≡ 0
      → Progress (length rs) again
      → Progress (length (ch ∷ rs)) (symbol_token line (scan_symbol ch rs) again)
  unfolding symbol_token
  symbol_token-Progress line ch rs again h p =
      ground (arith, scan_symbol-Within ch rs, Progress-mono (length rs) (length (ch ∷ rs)) again)

  comment_shrinks :
      (ch : ℕ) (rs : List ℕ)
      → (ch == b';' || ch == b'\'') ≡ true
      → (length (skip_comment (ch ∷ rs)) < length (ch ∷ rs))
        × (ats (skip_comment (ch ∷ rs)) ≤ ats rs)
  unfolding skip_comment
  comment_shrinks ch rs h = ground (arith, skip_comment-Within rs)

  comment-Progress :
      (again : Lexer → Option (Token × Lexer)) (ch : ℕ) (rs : List ℕ) (line : ℕ)
      → ats (ch ∷ rs) ≡ 0
      → ((l : Lexer)
          → length l.src < length (ch ∷ rs)
          → ats l.src ≡ 0
          → Progress (length l.src) (again l))
      → (ch == b';' || ch == b'\'') ≡ true
      → Progress (length (ch ∷ rs)) (again (record { src = skip_comment (ch ∷ rs); line = line }))
  comment-Progress again ch rs line h ih c =
      let l : Lexer = record { src = skip_comment (ch ∷ rs); line = line } in
      let (shorter, no_more) = comment_shrinks ch rs c in
      Progress-mono (length l.src) (length (ch ∷ rs)) (again l) (omega arith)
        (ih l shorter (ground arith))

  scan_here-Progress :
      (again : Lexer → Option (Token × Lexer)) (src : List ℕ) (line : ℕ)
      → ats src ≡ 0
      → ((l : Lexer)
          → length l.src < length src
          → ats l.src ≡ 0
          → Progress (length l.src) (again l))
      → Progress (length src) (scan_here u again src line)
  unfolding scan_here
  scan_here-Progress again [] line h ih = ground arith
  scan_here-Progress again (ch ∷ rs) line h ih = ground (
    arith,
    string_token-Progress ch rs line h,
    scan_number-Progress ch rs line h,
    scan_ident-Progress ch rs line h,
    scan_label-Progress ch rs line h,
    symbol_token-Progress line ch rs (again (record { src = rs; line = line })) h
        (ih (record { src = rs; line = line }) (omega arith) (ground arith)),
    comment-Progress again ch rs line h ih,
  )

  scan-Progress :
      (f : ℕ) (l : Lexer) → length l.src < f → ats l.src ≡ 0 → Progress (length l.src) (scan u f l)
  unfolding scan
  scan-Progress zero l h n = elim h [ ]
  scan-Progress (suc f) l h n =
      let rest = skip_blanks l.src in
      Progress-mono (length rest) (length l.src) (scan u (suc f) l) (skip_blanks-Within l.src).0 (
        scan_here-Progress (scan u f) rest l.line (omega (arith, skip_blanks-Within l.src))
          (λ l' s n'. scan-Progress f l' (omega (arith, skip_blanks-Within l.src)) n'))

  -- A list of tokens that ends with the end of the source, and has it nowhere else.
  abbrev pub EndsInEof : List Token → Type 0
  EndsInEof [] = ⊥
  EndsInEof (t ∷ []) = is_eof u t.kind ≡ true
  EndsInEof (t ∷ t' ∷ ts) = (is_eof u t.kind ≡ false) × EndsInEof (t' ∷ ts)

  EndsInEof-cons :
      (t : Token) (ts : List Token) → is_eof u t.kind ≡ false → EndsInEof ts → EndsInEof (t ∷ ts)
  EndsInEof-cons t [] h e = absurd e
  EndsInEof-cons t (t' ∷ ts) h e = (h, e)

  tokens_end :
      (f : ℕ) (l : Lexer)
      → length l.src < f
      → ats l.src ≡ 0
      → (toks : List Token) × (tokens u f l ≡ some toks) × EndsInEof toks
  unfolding tokens
  tokens_end zero l h n = elim h [ ]
  tokens_end (suc f) l h n =
      go (scan u (suc (length l.src)) l) refl (scan-Progress (suc (length l.src)) l (omega arith) n)
        (tokens_end f)
    where
      go :
          (r : Option (Token × Lexer))
          → scan u (suc (length l.src)) l ≡ r
          → Progress (length l.src) r
          → ((l' : Lexer)
              → length l'.src < f
              → ats l'.src ≡ 0
              → (toks : List Token) × (tokens u f l' ≡ some toks) × EndsInEof toks)
          → (toks : List Token) × (tokens u (suc f) l ≡ some toks) × EndsInEof toks
      go none e p ih = absurd p
      go (some (t, l')) e (n', p) ih = elim (Bool-cases (is_eof u t.kind)) [
        | inl last ↦ (t ∷ [], rw (e, tokens) (rw last), last)
        | inr more ↦
            let (toks, made, ends) = ih l' (ground arith) n' in
            (t ∷ toks, rw (e, tokens) (rw (more) (rw made)), EndsInEof-cons t toks more ends)
      ]

  -- A source with no `@` has a list of tokens, and only the last of them is the end of the source.
  pub tokenize-EndsInEof :
      (src : List ℕ)
      → ats src ≡ 0
      → (toks : List Token) × (tokenize u src ≡ some toks) × EndsInEof toks
  unfolding tokenize
  tokenize-EndsInEof src h = tokens_end (suc (length src)) (new_lexer src) (omega arith) h

  -- `scanIdent` at an `@` passes nothing, so the rest of the loop of `Tokenize` is the loop itself.
  scan_at_sign :
      (f : ℕ) (l : Lexer) (rs : List ℕ)
      → is_letter b'@' ≡ false
      → is_digit b'@' ≡ false
      → skip_blanks l.src ≡ b'@' ∷ rs
      → (t : Token) × (scan u (suc f) l ≡ some (t, record { src = b'@' ∷ rs; line = l.line }))
        × (is_eof u t.kind ≡ false)
  unfolding scan scan_here scan_ident ident_runes
  scan_at_sign f l rs hl hd e =
      ((scan_ident u (record { src = b'@' ∷ rs; line = l.line })).0, rw e (ground arith), refl)

  -- Where `@` is neither a letter nor a digit and stands behind the blanks at the position of the
  -- lexer, no number of rounds of the loop of `Tokenize` comes to an end.
  pub tokens-at_sign :
      (rounds : ℕ) (l : Lexer) (rs : List ℕ)
      → is_letter b'@' ≡ false
      → is_digit b'@' ≡ false
      → skip_blanks l.src ≡ b'@' ∷ rs
      → tokens u rounds l ≡ none
  unfolding tokens
  tokens-at_sign zero l rs hl hd e = refl
  tokens-at_sign (suc f) l rs hl hd e =
      let (t, made, more) = scan_at_sign (length l.src) l rs hl hd e in
      rw (made, tokens)
        (rw more (
          rw (
            tokens-at_sign f (record { src = b'@' ∷ rs; line = l.line }) rs hl hd
              (unfold skip_blanks in refl))))
