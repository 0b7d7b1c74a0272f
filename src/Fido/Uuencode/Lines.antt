-- ===== src/Fido/Uuencode/Lines.antt =====
-- One line of a block: `encodeLine` against `decodeLine`.
use virt_bbs.Prelude.{
  ℕ, suc, ◌+◌, ◌-◌, ◌*◌, ◌/◌, ◌%◌, ◌≤◌, ◌<◌, ◌≡◌, refl, ap, ◌∙◌, true, false, some, [], ◌∷◌, ◌++◌,
  append_assoc, append-nil, Bytes, length, length-append, take, take_long, ltb, All, IsByte, arith,
}
use virt_bbs.Fido.Uuencode.{
  quad, encode_groups, encode_line, sixbit, append_below, decode_groups, decode_line,
}

sixbit_lem : (n : ℕ) → n < 64 → sixbit (n + 32) ≡ n
sixbit_lem n h = omega arith

-- The four characters give the three bytes back.
module _ (b0 b1 b2 : ℕ) (h0 : IsByte b0) (h1 : IsByte b1) (h2 : IsByte b2) where
  first_byte :
      sixbit (b0 / 4 % 64 + 32) * 4 % 256 + sixbit (b0 % 4 * 16 + b1 / 16 % 16 + 32) / 16 % 4 ≡ b0
  first_byte = omega arith

  second_byte :
      sixbit (b0 % 4 * 16 + b1 / 16 % 16 + 32) * 16 % 256
        + sixbit (b1 % 16 * 4 + b2 / 64 % 4 + 32) / 4 % 16
      ≡ b1
  second_byte = omega arith

  third_byte : sixbit (b1 % 16 * 4 + b2 / 64 % 4 + 32) * 64 % 256 + sixbit (b2 % 64 + 32) % 64 ≡ b2
  third_byte = omega arith

  decode_groups-quad :
      (count : ℕ) (out rest : Bytes)
      → length out < count
      → decode_groups count out (quad b0 b1 b2 rest)
        ≡ decode_groups count (append_below count (append_below count (out ++ b0 ∷ []) b1) b2) rest
  unfolding decode_groups
  decode_groups-quad count out rest h =
      let room : ltb (length out) count ≡ true = ground (arith, h) in
      rw (first_byte, second_byte, third_byte, room) refl

append_below_room :
    (count : ℕ) (out : Bytes) (b : ℕ)
    → length out < count
    → append_below count out b ≡ out ++ b ∷ []
unfolding append_below
append_below_room count out b h =
    let room : ltb (length out) count ≡ true = ground (arith, h) in rw room

append_below_full :
    (count : ℕ) (out : Bytes) (b : ℕ) → count ≤ length out → append_below count out b ≡ out
unfolding append_below
append_below_full count out b h =
    let full : ltb (length out) count ≡ false = ground (arith, h) in rw full

decode_groups_full : (count : ℕ) (out : Bytes) → decode_groups count out [] ≡ out
unfolding decode_groups
decode_groups_full count out = refl

length_snoc : (out : Bytes) (b : ℕ) → length (out ++ b ∷ []) ≡ suc (length out)
length_snoc out b = omega (arith, length-append out (b ∷ []))

-- The loops of the two functions: the bytes of the line behind those that are there.
decode_groups-encode_groups :
    (count : ℕ) (out chunk : Bytes)
    → All IsByte chunk
    → length out + length chunk ≡ count
    → decode_groups count out (encode_groups chunk) ≡ out ++ chunk
unfolding encode_groups
decode_groups-encode_groups count out [] h e = decode_groups_full count out ∙ rw append-nil
decode_groups-encode_groups count out (b0 ∷ []) h e =
    let out1 = out ++ b0 ∷ [] in
    let n1 = length_snoc out b0 in
    decode_groups-quad b0 0 0 h.0 (omega arith) (omega arith) count out [] (omega (arith, e))
    ∙ rw
        (
          append_below_full count out1 0 (omega (arith, e, n1)),
          append_below_full count out1 0 (omega (arith, e, n1)),
        )
        (decode_groups_full count out1)
decode_groups-encode_groups count out (b0 ∷ b1 ∷ []) h e =
    let out1 = out ++ b0 ∷ [] in
    let out2 = out1 ++ b1 ∷ [] in
    let n1 = length_snoc out b0 in
    let n2 = length_snoc out1 b1 in
    decode_groups-quad b0 b1 0 h.0 h.1.0 (omega arith) count out [] (omega (arith, e))
    ∙ rw
        (
          append_below_room count out1 b1 (omega (arith, e, n1)),
          append_below_full count out2 0 (omega (arith, e, n1, n2)),
        )
        (decode_groups_full count out2 ∙ append_assoc out (b0 ∷ []) (b1 ∷ []))
decode_groups-encode_groups count out (b0 ∷ b1 ∷ b2 ∷ chunk) h e =
    let out1 = out ++ b0 ∷ [] in
    let out2 = out1 ++ b1 ∷ [] in
    let out3 = out2 ++ b2 ∷ [] in
    let n1 = length_snoc out b0 in
    let n2 = length_snoc out1 b1 in
    let n3 = length_snoc out2 b2 in
    decode_groups-quad b0 b1 b2 h.0 h.1.0 h.1.1.0 count out (encode_groups chunk) (omega (arith, e))
    ∙ rw
        (
          append_below_room count out1 b1 (omega (arith, e, n1)),
          append_below_room count out2 b2 (omega (arith, e, n1, n2)),
        )
        (decode_groups-encode_groups count out3 chunk h.1.1.1 (omega (arith, e, n1, n2, n3))
          ∙ simp append_assoc)

take_all : (bytes : Bytes) → take (length bytes) bytes ≡ bytes
take_all bytes = take_long (length bytes) bytes (omega arith)

-- `decodeLine` reads back what `encodeLine` writes of at most 223 bytes.
pub decode_line-encode_line :
    (chunk : Bytes)
    → All IsByte chunk
    → length chunk < 224
    → decode_line (encode_line chunk) ≡ some chunk
unfolding decode_line encode_line
decode_line-encode_line chunk h small =
    let count : (length chunk + 32) % 256 ≡ length chunk + 32 = omega (arith, small) in
    let enough : ltb (length chunk + 32) 32 ≡ false = ground arith in
    let same : length chunk + 32 - 32 ≡ length chunk = omega arith in
    rw (count, enough, same)
      (ap some (
        ap (take (length chunk))
          (decode_groups-encode_groups (length chunk) [] chunk h (omega arith))
        ∙ take_all chunk))
