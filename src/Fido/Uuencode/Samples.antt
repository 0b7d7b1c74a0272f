-- ===== src/Fido/Uuencode/Samples.antt =====
-- Blocks and texts at concrete inputs.
use virt_bbs.Prelude.{◌≡◌, refl, some, [], ◌∷◌, ◌++◌, codes, arith}
use virt_bbs.Fido.Uuencode.{
  decode, encode, encode_data, encode_lines, encode_line, begin_line, starts_lower,
}
use virt_bbs.Fido.Strings.{trim_space}
use virt_bbs.Fido.Uuencode.RoundTrip.{decode-encode, decode-encode_lost}

cat_block :
    encode (codes "Cat") (codes "c.txt")
    ≡ codes "begin 644 c.txt" ++ (13 ∷ (codes "#0V%T" ++ (13 ∷ (codes "end" ++ 13 ∷ []))))
unfolding encode encode_data encode_lines encode_line
cat_block = refl

decode-encode_example :
    decode (encode (0 ∷ 200 ∷ 255 ∷ 7 ∷ []) (codes "a.zip"))
    ≡ some (
      (record { filename = codes "a.zip"; mode = 420; contents = 0 ∷ 200 ∷ 255 ∷ 7 ∷ [] }) ∷ [],
      [],
    )
decode-encode_example =
    decode-encode (0 ∷ 200 ∷ 255 ∷ 7 ∷ []) (codes "a.zip") (omega arith) (cc) (omega arith)

decode-encode_lost_example :
    decode (encode (7 ∷ []) (codes "a.zip") ++ (codes "Hello," ++ (13 ∷ codes "see you")))
    ≡ some
        ((record { filename = codes "a.zip"; mode = 420; contents = 7 ∷ [] }) ∷ [], codes "see you")
decode-encode_lost_example =
    decode-encode_lost (7 ∷ []) (codes "a.zip") (codes "Hello,") (codes "see you") (omega arith)
      (cc) (omega arith) (omega arith) (omega arith)
      (unfold begin_line starts_lower trim_space in refl)
