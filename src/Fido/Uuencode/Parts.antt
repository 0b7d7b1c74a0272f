-- ===== src/Fido/Uuencode/Parts.antt =====
-- The parts of `Decode` on a text that `Encode` made.
use virt_bbs.Prelude.{
  ℕ, zero, suc, ◌+◌, ◌%◌, ◌≤◌, ◌<◌, ◌≡◌, ◌≢◌, refl, sym, ap, subst, ◌∙◌, false, ◌||◌, some, List,
  [], ◌∷◌, ◌++◌, append_assoc, append-nil, Bytes, codes, equal, length, take, drop,
  take-append-drop, length-drop, length-take_le, All, All-append, All-take, All-drop, IsByte, arith,
}
use virt_bbs.Fido.Uuencode.{
  encode_groups, encode_line, encode_lines, encode_data, trim_newlines, ends_block, read_block,
  begin_fields, begin_line, starts_lower, octal, split_cr,
}
use virt_bbs.Fido.Strings.{trim_space, fields}
use virt_bbs.Fido.Uuencode.Lines.{decode_line-encode_line}
use virt_bbs.Fido.Uuencode.Blocks.{
  IsInLine, encode_line-All, split_cr-line, trim_newlines_plain, fields_word,
}
use virt_bbs.Fido.Strings.Trim.{IsSolid, trim_space_head, trim_space_solid}

not_end :
    (c : ℕ) (r : Bytes)
    → c < 96
    → (equal (c ∷ r) (codes "end") || equal (c ∷ r) (b'`' ∷ [])) ≡ false
unfolding equal
not_end c r h = ground arith

-- A line of at most 45 bytes does not end the block.
ends_block-encode_line :
    (chunk : Bytes) → length chunk ≤ 45 → ends_block (encode_line chunk) ≡ false
unfolding encode_line
ends_block-encode_line [] h = unfold trim_space equal encode_groups in refl
ends_block-encode_line (b ∷ chunk) h =
    let count : (length (b ∷ chunk) + 32) % 256 ≡ length (b ∷ chunk) + 32 = omega arith in
    let c = (length (b ∷ chunk) + 32) % 256 in
    let head = trim_space_head c (encode_groups (b ∷ chunk)) (ground arith) in
    subst (λ t. (equal t (codes "end") || equal t (b'`' ∷ [])) ≡ false) (sym head.1)
      (not_end c head.0 (omega arith))

read_block-line :
    (held chunk : Bytes) (lines : List Bytes)
    → All IsByte chunk
    → length chunk ≤ 45
    → read_block held (encode_line chunk ∷ lines) ≡ read_block (held ++ chunk) lines
unfolding read_block
read_block-line held chunk lines h small =
    let full : equal (encode_line chunk) [] ≡ false = unfold encode_line equal in refl in
    rw
      (
        trim_newlines_plain (encode_line chunk) (encode_line-All chunk h small),
        ends_block-encode_line chunk small,
        full,
        decode_line-encode_line chunk h (omega arith),
      )
      refl

-- The lines that `Encode` writes for data that are not empty.
pub block_lines : ℕ → Bytes → List Bytes
block_lines zero bytes = []
block_lines (suc fuel) [] = []
block_lines (suc fuel) (b ∷ bytes) =
    encode_line (take 45 (b ∷ bytes)) ∷ block_lines fuel (drop 45 (b ∷ bytes))

abbrev pub data_lines : Bytes → List Bytes
data_lines [] = encode_line [] ∷ []
data_lines (b ∷ bytes) = block_lines (suc (length bytes)) (b ∷ bytes)

read_block_end :
    (held : Bytes) (rest : List Bytes) → read_block held (codes "end" ∷ rest) ≡ some (held, rest)
unfolding read_block trim_newlines trim_space equal
read_block_end held rest = refl

read_block-block_lines :
    (fuel : ℕ) (held bytes : Bytes) (rest : List Bytes)
    → All IsByte bytes
    → length bytes ≤ fuel
    → read_block held (block_lines fuel bytes ++ (codes "end" ∷ rest)) ≡ some (held ++ bytes, rest)
unfolding block_lines
read_block-block_lines zero held [] rest h k =
    read_block_end held rest ∙ ap (λ s. some (s, rest)) (sym (append-nil held))
read_block-block_lines zero held (b ∷ bytes) rest h k = absurd (omega arith)
read_block-block_lines (suc fuel) held [] rest h k =
    read_block_end held rest ∙ ap (λ s. some (s, rest)) (sym (append-nil held))
read_block-block_lines (suc fuel) held (b ∷ bytes) rest h k =
    let front = take 45 (b ∷ bytes) in
    let back = drop 45 (b ∷ bytes) in
    read_block-line held front (block_lines fuel back ++ (codes "end" ∷ rest))
      (All-take IsByte 45 (b ∷ bytes) h) (length-take_le 45 (b ∷ bytes))
    ∙ read_block-block_lines fuel (held ++ front) back rest (All-drop IsByte 45 (b ∷ bytes) h)
        (omega (arith, length-drop 45 (b ∷ bytes)))
    ∙ ap (λ s. some (s, rest))
        (append_assoc held front back ∙ ap (λ s. held ++ s) (take-append-drop 45 (b ∷ bytes)))

pub read_block-data_lines :
    (bytes : Bytes) (rest : List Bytes)
    → All IsByte bytes
    → read_block [] (data_lines bytes ++ (codes "end" ∷ rest)) ≡ some (bytes, rest)
read_block-data_lines [] rest h =
    read_block-line [] [] (codes "end" ∷ rest) tt (omega arith) ∙ read_block_end [] rest
read_block-data_lines (b ∷ bytes) rest h =
    read_block-block_lines (suc (length bytes)) [] (b ∷ bytes) rest h (omega arith)

split_cr-encode_lines :
    (fuel : ℕ) (bytes tail : Bytes)
    → All IsByte bytes
    → split_cr [] (encode_lines fuel bytes ++ tail) ≡ block_lines fuel bytes ++ split_cr [] tail
unfolding encode_lines block_lines
split_cr-encode_lines zero bytes tail h = refl
split_cr-encode_lines (suc fuel) [] tail h = refl
split_cr-encode_lines (suc fuel) (b ∷ bytes) tail h =
    let line = encode_line (take 45 (b ∷ bytes)) in
    let more = encode_lines fuel (drop 45 (b ∷ bytes)) in
    ap (split_cr []) (append_assoc line (13 ∷ more) tail)
    ∙ split_cr-line [] line (more ++ tail) (
        encode_line-All (take 45 (b ∷ bytes)) (All-take IsByte 45 (b ∷ bytes) h)
          (length-take_le 45 (b ∷ bytes)))
    ∙ ap (λ lines. line ∷ lines)
        (split_cr-encode_lines fuel (drop 45 (b ∷ bytes)) tail (All-drop IsByte 45 (b ∷ bytes) h))

pub split_cr-encode_data :
    (bytes tail : Bytes)
    → All IsByte bytes
    → split_cr [] (encode_data bytes ++ tail) ≡ data_lines bytes ++ split_cr [] tail
unfolding encode_data
split_cr-encode_data [] tail h =
    ap (split_cr []) (append_assoc (encode_line []) (13 ∷ []) tail)
    ∙ split_cr-line [] (encode_line []) tail (encode_line-All [] tt (omega arith))
split_cr-encode_data (b ∷ bytes) tail h =
    split_cr-encode_lines (suc (length bytes)) (b ∷ bytes) tail h

-- A character of the name of a file: no blank, and no end of a line.
abbrev pub IsNameChar : ℕ → Type 0
IsNameChar c = (32 < c) × (c < 128)

abbrev pub header : Bytes → Bytes
header name = codes "begin 644 " ++ name

IsNameChar-IsInLine : (s : Bytes) → All IsNameChar s → All IsInLine s
IsNameChar-IsInLine [] h = tt
IsNameChar-IsInLine (c ∷ s) h =
    ((omega (arith, h.0.0), omega (arith, h.0.0)), IsNameChar-IsInLine s h.1)

IsNameChar-IsSolid : (s : Bytes) → All IsNameChar s → All IsSolid s
IsNameChar-IsSolid [] h = tt
IsNameChar-IsSolid (c ∷ s) h = (ground (arith, h.0.0), IsNameChar-IsSolid s h.1)

pub header-All : (name : Bytes) → All IsNameChar name → All IsInLine (header name)
header-All name h =
    All-append IsInLine (codes "begin 644 ") name (omega arith) (IsNameChar-IsInLine name h)

pub begin_line-header :
    (name : Bytes)
    → name ≢ []
    → All IsNameChar name
    → begin_line (header name) ≡ some (some (420, name))
unfolding begin_line
begin_line-header name full h =
    rw (trim_space_solid b'b' (codes "egin 644 ") name refl full (IsNameChar-IsSolid name h)) (
      unfold starts_lower fields octal in
      ap begin_fields (
        ap (λ words. codes "begin" ∷ codes "644" ∷ words)
          (fields_word [] name full (IsNameChar-IsSolid name h))))
