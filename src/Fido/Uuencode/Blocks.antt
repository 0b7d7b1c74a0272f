-- ===== src/Fido/Uuencode/Blocks.antt =====
-- The lines of a block, as `Decode` splits and trims them.
use virt_bbs.Prelude.{
  ℕ, ◌≤◌, ◌<◌, ◌≡◌, ◌≢◌, refl, sym, ap, ◌∙◌, false, ◌&&◌, List, [], ◌∷◌, ◌++◌, reverse,
  append_assoc, append-nil, Bytes, length, ◌==◌, All, All-reverse, IsByte, arith,
}
use mathlib.Core.List.{reverse-reverse}
use virt_bbs.Fido.Uuencode.{encode_groups, encode_line, cr_only, split_cr, trim_newlines}
use virt_bbs.Fido.Strings.Trim.{IsSolid, drop_while_none}
use virt_bbs.Fido.Strings.{fields, word_then}

-- A character of an encoded line.
abbrev pub IsCode : ℕ → Type 0
IsCode c = (32 ≤ c) × (c < 128)

-- No line feed, and no carriage return.
abbrev pub IsInLine : ℕ → Type 0
IsInLine c = (c ≢ 10) × (c ≢ 13)

pub encode_groups-All : (chunk : Bytes) → All IsByte chunk → All IsCode (encode_groups chunk)
unfolding encode_groups
encode_groups-All [] h = tt
encode_groups-All (b0 ∷ []) h = omega arith
encode_groups-All (b0 ∷ b1 ∷ []) h = omega arith
encode_groups-All (b0 ∷ b1 ∷ b2 ∷ chunk) h =
    (omega arith, (omega arith, (omega arith, (omega arith, encode_groups-All chunk h.1.1.1))))

IsCode-IsInLine : (s : Bytes) → All IsCode s → All IsInLine s
IsCode-IsInLine [] h = tt
IsCode-IsInLine (c ∷ s) h = ((omega (arith, h.0.0), omega (arith, h.0.0)), IsCode-IsInLine s h.1)

pub encode_line-All :
    (chunk : Bytes) → All IsByte chunk → length chunk ≤ 45 → All IsInLine (encode_line chunk)
unfolding encode_line
encode_line-All chunk h small =
    ((omega arith, omega arith), IsCode-IsInLine (encode_groups chunk) (encode_groups-All chunk h))

pub cr_only_plain : (s : Bytes) → All (λ c. c ≢ 10) s → cr_only s ≡ s
unfolding cr_only
cr_only_plain [] h = refl
cr_only_plain (c ∷ []) h = refl
cr_only_plain (c ∷ d ∷ s) h =
    let other : (c == 13 && d == 10) ≡ false = ground (arith, h.1.0) in
    rw other (ap (λ r. c ∷ r) (cr_only_plain (d ∷ s) h.1))

pub split_cr-line :
    (front line rest : Bytes)
    → All IsInLine line
    → split_cr front (line ++ (13 ∷ rest)) ≡ (front ++ line) ∷ split_cr [] rest
unfolding split_cr
split_cr-line front [] rest h = rw append-nil
split_cr-line front (c ∷ line) rest h =
    let other : (c == 13) ≡ false = ground (arith, h.0.1) in
    rw other (
      split_cr-line (front ++ c ∷ []) line rest h.1
      ∙ ap (λ s. s ∷ split_cr [] rest) (append_assoc front (c ∷ []) line))

pub split_cr_last :
    (front line : Bytes) → All IsInLine line → split_cr front line ≡ (front ++ line) ∷ []
unfolding split_cr
split_cr_last front [] h = rw append-nil
split_cr_last front (c ∷ line) h =
    let other : (c == 13) ≡ false = ground (arith, h.0.1) in
    rw other (
      split_cr_last (front ++ c ∷ []) line h.1
      ∙ ap (λ (s : Bytes). s ∷ []) (append_assoc front (c ∷ []) line))

not_newline : (s : Bytes) → All IsInLine s → All (λ c. (c == 10) ≡ false) s
not_newline [] h = tt
not_newline (c ∷ s) h = (ground (arith, h.0.0), not_newline s h.1)

pub trim_newlines_plain : (s : Bytes) → All IsInLine s → trim_newlines s ≡ s
unfolding trim_newlines
trim_newlines_plain s h =
    ap reverse (
      drop_while_none (λ c. c == 10) (reverse s)
        (not_newline (reverse s) (All-reverse IsInLine s h)))
    ∙ reverse-reverse s

word_then_some :
    (word : Bytes) (words : List Bytes) → word ≢ [] → word_then word words ≡ word ∷ words
word_then_some [] words h = absurd (h refl)
word_then_some (c ∷ word) words h = refl

snoc-ne-nil : (word : Bytes) (c : ℕ) → word ++ c ∷ [] ≢ []
snoc-ne-nil [] c = cc
snoc-ne-nil (d ∷ word) c = cc

-- A word is one field.
pub fields_word :
    (front word : Bytes)
    → front ++ word ≢ []
    → All IsSolid word
    → fields front word ≡ (front ++ word) ∷ []
unfolding fields
fields_word front [] h solid =
    let same = append-nil front in
    word_then_some front [] (λ e. h (same ∙ e)) ∙ ap (λ (s : Bytes). s ∷ []) (sym same)
fields_word front (c ∷ word) h solid =
    let same = append_assoc front (c ∷ []) word in
    rw solid.0 (
      fields_word (front ++ c ∷ []) word (λ e. h (sym same ∙ e)) solid.1
      ∙ ap (λ (s : Bytes). s ∷ []) same)
