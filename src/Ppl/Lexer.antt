-- ===== src/Ppl/Lexer.antt =====
-- internal/ppl/lexer.go. The lexer's state is the source from its position on, and the line.
mod Samples
pub mod Total
pub mod Strings
use virt_bbs.Prelude.{
  ℕ, zero, suc, ◌+◌, Bool, true, false, not, ◌&&◌, ◌||◌, Option, none, some, List, [], ◌∷◌, ◌++◌,
  Bytes, codes, length, ◌==◌, if◌then◌else◌,
}
use virt_bbs.Ppl.Host.{Unicode, utf8, encode}

pub data TokenKind : Type 0 where
  tok_eof tok_newline tok_ident tok_integer tok_real tok_string : TokenKind
  tok_plus tok_minus tok_star tok_slash tok_caret : TokenKind
  tok_lparen tok_rparen tok_comma tok_semicolon tok_colon : TokenKind
  tok_eq tok_neq tok_lt tok_lte tok_gt tok_gte : TokenKind
  tok_amp_amp tok_pipe_pipe tok_bang tok_amp tok_pipe tok_percent tok_dot tok_hash : TokenKind

pub record Token : Type 0 where
  pub kind : TokenKind
  pub text : Bytes
  pub line : ℕ

pub record Lexer : Type 0 where
  pub src : List ℕ
  pub line : ℕ

abbrev pub new_lexer : List ℕ → Lexer
new_lexer src = record { src = src; line = 1 }

-- 0 at the end of the source.
abbrev pub peek : List ℕ → ℕ
peek [] = 0
peek (r ∷ _) = r

-- The line after `next` has passed a rune.
abbrev pub pass : ℕ → ℕ → ℕ
pass r line = if r == b'\n' then line + 1 else line

abbrev pub is_blank : ℕ → Bool
is_blank r = r == b' ' || r == b'\t' || r == b'\r'

unfoldable pub skip_blanks : List ℕ → List ℕ
skip_blanks [] = []
skip_blanks (r ∷ rs) = let rest = skip_blanks rs in if is_blank r then rest else r ∷ rs

-- A comment runs to the end of its line.
unfoldable pub skip_comment : List ℕ → List ℕ
skip_comment [] = []
skip_comment (r ∷ rs) = let rest = skip_comment rs in if r == b'\n' then r ∷ rs else rest

-- The `switch` on the rune behind a backslash.
unfoldable pub unescape : ℕ → ℕ
unescape r =
    if r == b'n'
    then b'\n'
    else if r == b'r'
    then b'\r'
    else if r == b't'
    then b'\t'
    else if r == b'"'
    then b'"'
    else b'\\'

-- The loop over a string literal, behind its opening quote: its bytes, the source behind its
-- closing quote, and the line there. A backslash at the end of the source stands for itself.
unfoldable pub scan_string : List ℕ → ℕ → Bytes × Lexer
unfolding unescape
scan_string [] line = ([], record { src = []; line = line })
scan_string (c ∷ []) line =
    if c == b'"'
    then ([], record { src = []; line = line })
    else (utf8 c, record { src = []; line = pass c line })
scan_string (c ∷ d ∷ rs) line =
    let plain = scan_string (d ∷ rs) (pass c line) in
    let escaped = scan_string rs (pass d (pass c line)) in
    if c == b'"'
    then ([], record { src = d ∷ rs; line = line })
    else if c == b'\\'
    then (unescape d ∷ escaped.0, escaped.1)
    else (utf8 c ++ plain.0, plain.1)

module _ (u : Unicode) where
  open u use {is_letter, is_digit, to_upper}

  -- The loop of `scanNumber`: the runes of the number, whether it has a point, and the rest.
  unfoldable pub number_runes : Bool → List ℕ → List ℕ × Bool × List ℕ
  number_runes real [] = ([], real, [])
  number_runes real (r ∷ rs) =
      let next = number_runes (real || r == b'.') rs in
      if (is_digit r || r == b'.') && not (r == b'.' && real)
      then (r ∷ next.0, next.1, next.2)
      else ([], real, r ∷ rs)

  unfoldable pub scan_number : Lexer → Token × Lexer
  scan_number l =
      let (runes, real, rest) = number_runes false l.src in
      let kind = if real then tok_real else tok_integer in
      (record { kind = kind; text = encode runes; line = l.line }, record l { src = rest })

  abbrev pub is_ident_rune : ℕ → Bool
  is_ident_rune r = is_letter r || is_digit r || r == b'_'

  -- The loop of `scanIdent`.
  unfoldable pub ident_runes : List ℕ → List ℕ × List ℕ
  ident_runes [] = ([], [])
  ident_runes (r ∷ rs) =
      let next = ident_runes rs in if is_ident_rune r then (r ∷ next.0, next.1) else ([], r ∷ rs)

  unfoldable pub scan_ident : Lexer → Token × Lexer
  scan_ident l =
      let (runes, rest) = ident_runes l.src in
      (
        record { kind = tok_ident; text = to_upper (encode runes); line = l.line },
        record l { src = rest },
      )

  -- `#` and the identifier behind it
  scan_label : Lexer → Token × Lexer
  unfolding scan_ident
  scan_label l =
      let (tok, l') = scan_ident l in (record tok { kind = tok_hash; text = b'#' ∷ tok.text }, l')

  abbrev starts_number : ℕ → List ℕ → Bool
  starts_number ch rs = is_digit ch || (ch == b'.' && is_digit (peek rs))

  abbrev starts_ident : ℕ → Bool
  starts_ident ch = is_letter ch || ch == b'_' || ch == b'@'

-- A symbol of one rune, or of two where `second` stands behind it.
abbrev one : TokenKind → Bytes → List ℕ → Option (TokenKind × Bytes × List ℕ)
one kind text rs = some (kind, text, rs)

abbrev either :
    ℕ → TokenKind × Bytes → TokenKind × Bytes → List ℕ → Option (TokenKind × Bytes × List ℕ)
either second long short [] = some (short.0, short.1, [])
either second long short (r ∷ rs) =
    if r == second then some (long.0, long.1, rs) else some (short.0, short.1, r ∷ rs)

less_than : List ℕ → Option (TokenKind × Bytes × List ℕ)
less_than [] = some (tok_lt, codes "<", [])
less_than (r ∷ rs) =
    if r == b'>'
    then some (tok_neq, codes "<>", rs)
    else if r == b'='
    then some (tok_lte, codes "<=", rs)
    else some (tok_lt, codes "<", r ∷ rs)

-- The last `switch ch` of `scan`, on a rune that has been passed; `none` for an unknown one.
unfoldable pub scan_symbol : ℕ → List ℕ → Option (TokenKind × Bytes × List ℕ)
unfolding less_than
scan_symbol ch rs =
    if ch == b'+'
    then one tok_plus (codes "+") rs
    else if ch == b'-'
    then one tok_minus (codes "-") rs
    else if ch == b'*'
    then one tok_star (codes "*") rs
    else if ch == b'/'
    then one tok_slash (codes "/") rs
    else if ch == b'^'
    then one tok_caret (codes "^") rs
    else if ch == b'('
    then one tok_lparen (codes "(") rs
    else if ch == b')'
    then one tok_rparen (codes ")") rs
    else if ch == b','
    then one tok_comma (codes ",") rs
    else if ch == b':'
    then one tok_colon (codes ":") rs
    else if ch == b'%'
    then one tok_percent (codes "%") rs
    else if ch == b'&'
    then either b'&' (tok_amp_amp, codes "&&") (tok_amp, codes "&") rs
    else if ch == b'|'
    then either b'|' (tok_pipe_pipe, codes "||") (tok_pipe, codes "|") rs
    else if ch == b'!'
    then either b'=' (tok_neq, codes "!=") (tok_bang, codes "!") rs
    else if ch == b'='
    then one tok_eq (codes "=") rs
    else if ch == b'<'
    then less_than rs
    else if ch == b'>'
    then either b'=' (tok_gte, codes ">=") (tok_gt, codes ">") rs
    else none

symbol_token :
    ℕ → Option (TokenKind × Bytes × List ℕ) → Option (Token × Lexer) → Option (Token × Lexer)
symbol_token line none again = again
symbol_token line (some (kind, text, rest)) again =
    some (record { kind = kind; text = text; line = line }, record { src = rest; line = line })

module _ (u : Unicode) where
  string_token : List ℕ → ℕ → Token × Lexer
  unfolding scan_string
  string_token rs line =
      let (text, l) = scan_string rs line in
      (record { kind = tok_string; text = text; line = line }, l)

  -- `scan` behind the blanks; `again` is its call of itself, after a comment or an unknown rune.
  scan_here : (Lexer → Option (Token × Lexer)) → List ℕ → ℕ → Option (Token × Lexer)
  unfolding string_token scan_number scan_label scan_ident scan_symbol symbol_token
  scan_here again [] line =
      some (record { kind = tok_eof; text = []; line = line }, record { src = []; line = line })
  scan_here again (ch ∷ rs) line =
      if ch == b';' || ch == b'\''
      then again (record { src = skip_comment (ch ∷ rs); line = line })
      else if ch == b'\n'
      then some (
        record { kind = tok_newline; text = codes "\n"; line = line },
        record { src = rs; line = line + 1 },
      )
      else if ch == b'"'
      then some (string_token rs line)
      else if starts_number u ch rs
      then some (scan_number u (record { src = ch ∷ rs; line = line }))
      else if starts_ident u ch
      then some (scan_ident u (record { src = ch ∷ rs; line = line }))
      else if ch == b'#'
      then some (scan_label u (record { src = rs; line = line }))
      else symbol_token line (scan_symbol ch rs) (again (record { src = rs; line = line }))

  -- `none` when the fuel has run out.
  unfoldable pub scan : ℕ → Lexer → Option (Token × Lexer)
  unfolding scan_here
  scan zero l = none
  scan (suc f) l = scan_here (scan f) (skip_blanks l.src) l.line

  abbrev is_eof : TokenKind → Bool
  is_eof tok_eof = true
  is_eof _ = false

  -- The loop of `Tokenize`.
  unfoldable pub tokens : ℕ → Lexer → Option (List Token)
  tokens zero l = none
  tokens (suc f) l = elim (scan (suc (length l.src)) l) [
    | none ↦ none
    | some (tok, l') ↦ elim (is_eof tok.kind) [
      | true ↦ some (tok ∷ [])
      | false ↦ elim (tokens f l') [ none ↦ none | some toks ↦ some (tok ∷ toks) ]
    ]
  ]

  unfoldable pub tokenize : List ℕ → Option (List Token)
  tokenize src = tokens (suc (length src)) (new_lexer src)
