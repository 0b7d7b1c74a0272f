-- ===== src/Transfer/Subpackets.antt =====
-- What `sendDataSubpacket` writes, read by `readDataSubpacket`.
use Prim.Native.Nat.{bit_xor}
use virt_bbs.Prelude.{
  ℕ, ◌+◌, ◌*◌, ◌/◌, ◌%◌, ◌<◌, ◌≡◌, refl, ap, ◌∙◌, inl, inr, Bool, true, false, not, ◌&&◌, ◌||◌, [],
  ◌∷◌, ◌++◌, append_assoc, append-nil, Bytes, ◌==◌, ==_iff, Bool-cases, All, IsByte, tested,
  tested_at, arith, if◌then◌else◌,
}
use virt_bbs.Transfer.Crc.{crc16, crc32b, crc16_lt, crc32b_lt}
use virt_bbs.Transfer.Frames.{
  needs_escape, escape_data, crc_bytes, data_subpacket, le32, be16, zdle,
}
use virt_bbs.Transfer.Reader.{
  ok, err, bad_crc, ◌>>◌, guard_crc, unescape, read_escaped_byte, check_crc, is_marker,
  subpacket_from, read_data_subpacket, from_le32,
}

-- The escape of a byte is no marker, and reads back.
escape_test : ℕ → Bool
unfolding needs_escape is_marker unescape
escape_test b =
    not (needs_escape b) || (not (is_marker (bit_xor b 0x40)) && unescape (bit_xor b 0x40) == b)

escape_table : tested escape_test 256 ≡ true
unfolding tested escape_test
escape_table = refl

module _ (b : ℕ) (h : IsByte b) (e : needs_escape b ≡ true) where
  escape-is_marker : is_marker (bit_xor b 0x40) ≡ false
  unfolding escape_test
  escape-is_marker = ground (arith, tested_at escape_test 256 b escape_table h)

  unescape-escape : unescape (bit_xor b 0x40) ≡ b
  unfolding escape_test
  unescape-escape = ground (arith, tested_at escape_test 256 b escape_table h)

pub needs_escape-zdle : (b : ℕ) → needs_escape b ≡ false → (b == zdle) ≡ false
unfolding needs_escape
needs_escape-zdle b h = ground arith

subpacket_from_plain :
    (use32 : Bool) (acc : Bytes) (b : ℕ) (rest : Bytes)
    → (b == zdle) ≡ false
    → subpacket_from use32 acc (b ∷ rest) ≡ subpacket_from use32 (acc ++ b ∷ []) rest
unfolding subpacket_from
subpacket_from_plain use32 acc b [] h = rw h
subpacket_from_plain use32 acc b (c ∷ rest) h = rw h

subpacket_from_escaped :
    (use32 : Bool) (acc : Bytes) (b2 : ℕ) (rest : Bytes)
    → is_marker b2 ≡ false
    → subpacket_from use32 acc (zdle ∷ b2 ∷ rest)
      ≡ subpacket_from use32 (acc ++ unescape b2 ∷ []) rest
unfolding subpacket_from
subpacket_from_escaped use32 acc b2 rest h = rw h

pub escape_data_plain :
    (b : ℕ) (payload : Bytes)
    → needs_escape b ≡ false
    → escape_data (b ∷ payload) ≡ b ∷ escape_data payload
unfolding escape_data
escape_data_plain b payload h = rw h

pub escape_data_escaped :
    (b : ℕ) (payload : Bytes)
    → needs_escape b ≡ true
    → escape_data (b ∷ payload) ≡ zdle ∷ bit_xor b 0x40 ∷ escape_data payload
unfolding escape_data
escape_data_escaped b payload h = rw h

-- The data of a subpacket reads back up to its marker.
subpacket_from-escape_data :
    (use32 : Bool) (acc payload : Bytes) (b2 : ℕ) (rest : Bytes)
    → All IsByte payload
    → is_marker b2 ≡ true
    → subpacket_from use32 acc (escape_data payload ++ (zdle ∷ b2 ∷ rest))
      ≡ check_crc use32 (acc ++ payload) b2 rest
subpacket_from-escape_data use32 acc [] b2 rest h m =
    unfold subpacket_from escape_data in rw (m, append-nil)
subpacket_from-escape_data use32 acc (b ∷ payload) b2 rest h m =
    let tail : Bytes = escape_data payload ++ (zdle ∷ b2 ∷ rest) in
    let ih = subpacket_from-escape_data use32 (acc ++ b ∷ []) payload b2 rest h.1 m in
    let whole : ◌≡◌ {A = Bytes} ((acc ++ b ∷ []) ++ payload) (acc ++ (b ∷ payload)) =
      rw append_assoc in
    elim (Bool-cases (needs_escape b)) [
      | inl e ↦
          ap (λ s. subpacket_from use32 acc (s ++ (zdle ∷ b2 ∷ rest)))
            (escape_data_escaped b payload e)
          ∙ subpacket_from_escaped use32 acc (bit_xor b 0x40) tail (escape-is_marker b h.0 e)
          ∙ ap (λ c. subpacket_from use32 (acc ++ c ∷ []) tail) (unescape-escape b h.0 e)
          ∙ ih
          ∙ ap (λ data'. check_crc use32 data' b2 rest) whole
      | inr e ↦
          ap (λ s. subpacket_from use32 acc (s ++ (zdle ∷ b2 ∷ rest)))
            (escape_data_plain b payload e)
          ∙ subpacket_from_plain use32 acc b tail (needs_escape-zdle b e)
          ∙ ih
          ∙ ap (λ data'. check_crc use32 data' b2 rest) whole
    ]

read_escaped_byte_plain :
    (b : ℕ) (rest : Bytes) → (b == zdle) ≡ false → read_escaped_byte (b ∷ rest) ≡ ok (b, rest)
unfolding read_escaped_byte
read_escaped_byte_plain b [] h = rw h
read_escaped_byte_plain b (c ∷ rest) h = rw h

read_escaped_byte-escape_data :
    (b : ℕ) (more rest : Bytes)
    → IsByte b
    → read_escaped_byte (escape_data (b ∷ more) ++ rest) ≡ ok (b, escape_data more ++ rest)
read_escaped_byte-escape_data b more rest h = elim (Bool-cases (needs_escape b)) [
  | inl e ↦
      ap (λ s. read_escaped_byte (s ++ rest)) (escape_data_escaped b more e)
      ∙ unfold read_escaped_byte in rw (unescape-escape b h e)
  | inr e ↦
      ap (λ s. read_escaped_byte (s ++ rest)) (escape_data_plain b more e)
      ∙ read_escaped_byte_plain b (escape_data more ++ rest) (needs_escape-zdle b e)
]

-- The largest checksum of each kind, and one more.
abbrev pub crc_limit : Bool → ℕ
crc_limit true = 4294967296
crc_limit false = 65536

abbrev pub crc_of : Bool → Bytes → ℕ
crc_of true = crc32b
crc_of false = crc16

abbrev pub sum_bytes : Bool → ℕ → Bytes
sum_bytes true = le32
sum_bytes false = be16

pub crc_bytes_lem :
    (use32 : Bool) (s : Bytes) → crc_bytes use32 s ≡ sum_bytes use32 (crc_of use32 s)
unfolding crc_bytes
crc_bytes_lem true s = refl
crc_bytes_lem false s = refl

pub crc_of_lt : (use32 : Bool) (s : Bytes) → crc_of use32 s < crc_limit use32
crc_of_lt true s = crc32b_lt s
crc_of_lt false s = crc16_lt s

escape_data-nil : (rest : Bytes) → escape_data [] ++ rest ≡ rest
unfolding escape_data
escape_data-nil rest = refl

pub from_le32_lem :
    (n : ℕ)
    → n < 4294967296
    → from_le32 (n % 256) (n / 256 % 256) (n / 65536 % 256) (n / 16777216 % 256) ≡ n
from_le32_lem n h = omega arith

from_be16_lem : (n : ℕ) → n < 65536 → n / 256 % 256 * 256 + n % 256 ≡ n
from_be16_lem n h = omega arith

guard_crc-then {ℓ} :
    {A : Type ℓ} (test : Bool) (r : A)
    → (guard_crc test >> ok r) ≡ (if test then ok r else err bad_crc)
guard_crc-then true r = refl
guard_crc-then false r = refl

check_crc-sum :
    (use32 : Bool) (payload : Bytes) (b2 crc : ℕ) (rest : Bytes)
    → crc < crc_limit use32
    → check_crc use32 payload b2 (escape_data (sum_bytes use32 crc) ++ rest)
      ≡ (if crc_of use32 (payload ++ b2 ∷ []) == crc then ok ((payload, b2), rest) else err bad_crc)
unfolding check_crc
check_crc-sum true payload b2 crc rest h =
    let c0 = crc % 256 in
    let c1 = crc / 256 % 256 in
    let c2 = crc / 65536 % 256 in
    let c3 = crc / 16777216 % 256 in
    rw
      (
        read_escaped_byte-escape_data c0 (c1 ∷ c2 ∷ c3 ∷ []) rest (omega arith),
        read_escaped_byte-escape_data c1 (c2 ∷ c3 ∷ []) rest (omega arith),
        read_escaped_byte-escape_data c2 (c3 ∷ []) rest (omega arith),
        read_escaped_byte-escape_data c3 [] rest (omega arith),
        escape_data-nil rest,
        from_le32_lem crc h,
      )
      (guard_crc-then _ _)
check_crc-sum false payload b2 crc rest h =
    let c1 = crc / 256 % 256 in
    let c2 = crc % 256 in
    rw
      (
        read_escaped_byte-escape_data c1 (c2 ∷ []) rest (omega arith),
        read_escaped_byte-escape_data c2 [] rest (omega arith),
        escape_data-nil rest,
        from_be16_lem crc h,
      )
      (guard_crc-then _ _)

-- A subpacket with any checksum: `readDataSubpacket` returns its data, marker and the bytes behind
-- it if the checksum is that of the data and the marker, and is refused otherwise.
pub read_data_subpacket-sum :
    (use32 : Bool) (payload : Bytes) (b2 crc : ℕ) (rest : Bytes)
    → All IsByte payload
    → is_marker b2 ≡ true
    → crc < crc_limit use32
    → read_data_subpacket use32
        (escape_data payload ++ (zdle ∷ b2 ∷ (escape_data (sum_bytes use32 crc) ++ rest)))
      ≡ (if crc_of use32 (payload ++ b2 ∷ []) == crc then ok ((payload, b2), rest) else err bad_crc)
unfolding read_data_subpacket
read_data_subpacket-sum use32 payload b2 crc rest h m lt =
    subpacket_from-escape_data use32 [] payload b2 (escape_data (sum_bytes use32 crc) ++ rest) h m
    ∙ check_crc-sum use32 payload b2 crc rest lt

if_self {ℓ} : {A : Type ℓ} (n : ℕ) (a b : A) → (if n == n then a else b) ≡ a
if_self n a b = rw ((==_iff n n).1 refl)

-- `readDataSubpacket` returns the bytes and the marker that `sendDataSubpacket` is given, with
-- either checksum.
pub read_data_subpacket-data_subpacket :
    (use32 : Bool) (payload : Bytes) (b2 : ℕ) (rest : Bytes)
    → All IsByte payload
    → is_marker b2 ≡ true
    → read_data_subpacket use32 (data_subpacket payload b2 use32 ++ rest) ≡ ok ((payload, b2), rest)
unfolding data_subpacket
read_data_subpacket-data_subpacket use32 payload b2 rest h m =
    let crc = crc_of use32 (payload ++ b2 ∷ []) in
    rw (append_assoc, crc_bytes_lem)
      (read_data_subpacket-sum use32 payload b2 crc rest h m (crc_of_lt use32 (payload ++ b2 ∷ []))
        ∙ if_self crc (ok ((payload, b2), rest)) (err bad_crc))
