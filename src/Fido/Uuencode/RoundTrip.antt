-- ===== src/Fido/Uuencode/RoundTrip.antt =====
-- `Decode` of a text that `Encode` made, and of such a text with lines behind it.
use virt_bbs.Prelude.{
  ℕ, zero, suc, ◌+◌, ◌≡◌, ◌≢◌, refl, sym, ap, ◌∙◌, Option, none, some, List, [], ◌∷◌, ◌++◌,
  append_assoc, append-nil, Bytes, codes, length, length-append, take, drop, All, All-append,
  All-take, All-drop, length-take_le, IsByte, arith,
}
use virt_bbs.Fido.Uuencode.{
  DecodedFile, encode_line, encode_lines, encode_data, encode, or_default, trim_newlines,
  starts_lower, begin_line, decode_lines, with_body, decode, cr_only, split_cr, join_cr,
}
use virt_bbs.Fido.Strings.{trim_space}
use virt_bbs.Fido.Uuencode.Blocks.{
  IsInLine, encode_line-All, cr_only_plain, split_cr-line, split_cr_last, trim_newlines_plain,
}
use virt_bbs.Fido.Uuencode.Parts.{
  IsNameChar, header, header-All, begin_line-header, data_lines, read_block-data_lines,
  split_cr-encode_data,
}

or_default_some : (name : Bytes) → name ≢ [] → or_default name ≡ name
or_default_some [] h = absurd (h refl)
or_default_some (c ∷ name) h = refl

abbrev IsNoFeed : ℕ → Type 0
IsNoFeed c = c ≢ 10

IsInLine-IsNoFeed : (s : Bytes) → All IsInLine s → All IsNoFeed s
IsInLine-IsNoFeed [] h = tt
IsInLine-IsNoFeed (c ∷ s) h = (h.0.0, IsInLine-IsNoFeed s h.1)

encode_lines-All :
    (fuel : ℕ) (bytes : Bytes) → All IsByte bytes → All IsNoFeed (encode_lines fuel bytes)
unfolding encode_lines
encode_lines-All zero bytes h = tt
encode_lines-All (suc fuel) [] h = tt
encode_lines-All (suc fuel) (b ∷ bytes) h =
    All-append IsNoFeed (encode_line (take 45 (b ∷ bytes))) _
      (IsInLine-IsNoFeed (encode_line (take 45 (b ∷ bytes))) (
        encode_line-All (take 45 (b ∷ bytes)) (All-take IsByte 45 (b ∷ bytes) h)
          (length-take_le 45 (b ∷ bytes))))
      (omega arith, encode_lines-All fuel (drop 45 (b ∷ bytes)) (All-drop IsByte 45 (b ∷ bytes) h))

encode_data-All : (bytes : Bytes) → All IsByte bytes → All IsNoFeed (encode_data bytes)
unfolding encode_data
encode_data-All [] h =
    All-append IsNoFeed (encode_line []) (13 ∷ [])
      (IsInLine-IsNoFeed (encode_line []) (encode_line-All [] tt (omega arith))) (omega arith)
encode_data-All (b ∷ bytes) h = encode_lines-All (suc (length bytes)) (b ∷ bytes) h

module _ (bytes name : Bytes) where
  -- What `Decode` makes of the block: mode 644 in octal digits.
  abbrev pub file : DecodedFile
  file = record { filename = name; mode = 420; contents = bytes }

  -- The block in one piece, with a text behind it.
  abbrev block : Bytes → Bytes
  block tail = header name ++ (13 ∷ (encode_data bytes ++ (codes "end" ++ (13 ∷ tail))))

  block_lem : (tail : Bytes) → name ≢ [] → encode bytes name ++ tail ≡ block tail
  unfolding encode
  block_lem tail full = rw (or_default_some name full) (simp append_assoc)

  module _ (h : All IsByte bytes) (full : name ≢ []) (k : All IsNameChar name) where
    split_cr-block :
        (tail : Bytes)
        → split_cr [] (block tail)
          ≡ header name ∷ (data_lines bytes ++ (codes "end" ∷ split_cr [] tail))
    split_cr-block tail =
        split_cr-line [] (header name) _ (header-All name k)
        ∙ ap (λ lines. header name ∷ lines)
            (split_cr-encode_data bytes (codes "end" ++ (13 ∷ tail)) h
              ∙ ap (λ lines. data_lines bytes ++ lines)
                  (split_cr-line [] (codes "end") tail (omega arith)))

    decode_lines-block :
        (fuel : ℕ) (files : List DecodedFile) (out rest : List Bytes)
        → decode_lines
            (suc fuel)
            files
            out
            (header name ∷ (data_lines bytes ++ (codes "end" ∷ rest)))
          ≡ decode_lines fuel (files ++ file ∷ []) out (drop 1 rest)
    unfolding decode_lines begin_line starts_lower trim_space trim_newlines
    decode_lines-block fuel files out rest =
        rw
          (
            trim_newlines_plain (header name) (header-All name k),
            begin_line-header name full k,
            read_block-data_lines bytes rest h,
          )
          refl

    cr_only-block : (tail : Bytes) → All IsNoFeed tail → cr_only (block tail) ≡ block tail
    cr_only-block tail t = cr_only_plain (block tail) (
        All-append IsNoFeed (header name) _ (IsInLine-IsNoFeed (header name) (header-All name k)) (
          omega arith,
          All-append IsNoFeed (encode_data bytes) _ (encode_data-All bytes h)
              (omega arith, (omega arith, (omega arith, (omega arith, t)))),
        ))

    abbrev rest_of : List Bytes → Option (List DecodedFile × Bytes)
    rest_of lines = with_body (
        decode_lines (suc (length (data_lines bytes ++ (codes "end" ∷ lines)))) (file ∷ []) []
          (drop 1 lines))

    -- `Decode` takes the block off, and goes on with all but the first line behind it.
    decode-block :
        (tail : Bytes)
        → All IsNoFeed tail
        → decode (encode bytes name ++ tail) ≡ rest_of (split_cr [] tail)
    unfolding decode
    decode-block tail t =
        ap (λ s. decode s) (block_lem tail full)
        ∙ rw (cr_only-block tail t, split_cr-block tail)
            (ap with_body (decode_lines-block _ [] [] (split_cr [] tail)))

two_lines :
    (front : List Bytes) (line : Bytes) (rest : List Bytes)
    → suc (length (front ++ (line ∷ rest))) ≡ suc (suc (length front + length rest))
two_lines front line rest = omega (arith, length-append front (line ∷ rest))

decode_lines_other :
    (fuel : ℕ) (files : List DecodedFile) (out : List Bytes) (raw : Bytes) (lines : List Bytes)
    → begin_line (trim_newlines raw) ≡ none
    → decode_lines (suc fuel) files out (raw ∷ lines)
      ≡ decode_lines fuel files (out ++ trim_newlines raw ∷ []) lines
unfolding decode_lines
decode_lines_other fuel files out raw lines e = ground (arith, e)

decode_lines_kept :
    (fuel : ℕ) (files : List DecodedFile) (kept : Bytes)
    → All IsInLine kept
    → begin_line kept ≡ none
    → with_body (decode_lines (suc (suc fuel)) files [] (kept ∷ [])) ≡ some (files, kept)
decode_lines_kept fuel files kept m plain =
    let same = trim_newlines_plain kept m in
    ap with_body (decode_lines_other (suc fuel) files [] kept [] (ap begin_line same ∙ plain))
    ∙ ap (λ s. with_body (decode_lines (suc fuel) files (s ∷ []) [])) same
    ∙ unfold decode_lines join_cr in refl

-- `Decode` returns the file that `Encode` was given, with the mode 644 in octal digits, and an empty
-- text. The name has no blanks and is not empty.
pub decode-encode :
    (bytes name : Bytes)
    → All IsByte bytes
    → name ≢ []
    → All IsNameChar name
    → decode (encode bytes name)
      ≡ some ((record { filename = name; mode = 420; contents = bytes }) ∷ [], [])
decode-encode bytes name h full k =
    ap decode (sym (append-nil (encode bytes name)))
    ∙ decode-block bytes name h full k [] tt
    ∙ unfold decode_lines split_cr join_cr in refl

-- The line behind the end of a block is lost: `Decode` passes over it without looking at it.
pub decode-encode_lost :
    (bytes name lost kept : Bytes)
    → All IsByte bytes
    → name ≢ []
    → All IsNameChar name
    → All IsInLine lost
    → All IsInLine kept
    → begin_line kept ≡ none
    → decode (encode bytes name ++ (lost ++ (13 ∷ kept)))
      ≡ some ((record { filename = name; mode = 420; contents = bytes }) ∷ [], kept)
decode-encode_lost bytes name lost kept h full k l m plain =
    decode-block bytes name h full k (lost ++ (13 ∷ kept)) (
      All-append IsNoFeed lost _ (IsInLine-IsNoFeed lost l) (omega arith, IsInLine-IsNoFeed kept m))
    ∙ ap (rest_of bytes name h full k)
        (split_cr-line [] lost kept l ∙ ap (λ lines. lost ∷ lines) (split_cr_last [] kept m))
    ∙ ap (λ n. with_body (decode_lines n (file bytes name ∷ []) [] (kept ∷ [])))
        (two_lines (data_lines bytes) (codes "end") (lost ∷ kept ∷ []))
    ∙ decode_lines_kept (length (data_lines bytes) + 2) (file bytes name ∷ []) kept m plain
