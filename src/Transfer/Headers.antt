-- ===== src/Transfer/Headers.antt =====
-- What `sendHexHeader` writes, found by `readAnyFrame`, and the subpacket behind it.
use virt_bbs.Prelude.{
  ℕ, ◌+◌, ◌*◌, ◌/◌, ◌%◌, ◌<◌, ◌≡◌, ◌≢◌, refl, ap, ◌∙◌, inl, inr, ◌⊎◌, Bool, true, false, ◌||◌, none,
  some, [], ◌∷◌, ◌++◌, append_assoc, Bytes, length, ◌==◌, Bool-cases, All, IsByte, tested,
  tested_at, arith,
}
use virt_bbs.Transfer.Crc.{crc16, crc16_lt}
use virt_bbs.Transfer.Frames.{
  hex_digit, hex_bytes, hex_header, needs_escape, escape_data, data_subpacket, le32, be16, zdle,
  zpad, zhex, zfile, zdata,
}
use virt_bbs.Transfer.Reader.{
  ok, ◌>>=◌, from_hex_nibble, hex_pairs, hex_decode, read_bytes, hex_frame, read_hex_frame,
  skip_eol, payload_frame, is_marker,
}
use virt_bbs.Transfer.Scan.{read_any_frame_opts}
use virt_bbs.Transfer.Subpackets.{
  escape_data_plain, escape_data_escaped, read_data_subpacket-data_subpacket,
}

digit_test : ℕ → Bool
unfolding hex_digit from_hex_nibble
digit_test n = elim (from_hex_nibble (hex_digit n)) [ none ↦ false | some m ↦ m == n ]

digit_table : tested digit_test 16 ≡ true
unfolding tested digit_test
digit_table = refl

from_hex_nibble-hex_digit : (n : ℕ) → n < 16 → from_hex_nibble (hex_digit n) ≡ some n
unfolding digit_test
from_hex_nibble-hex_digit n h = ground (arith, tested_at digit_test 16 n digit_table h)

hex_pairs-hex_bytes :
    (bytes : Bytes) → All IsByte bytes → hex_pairs (length bytes) (hex_bytes bytes) ≡ ok bytes
unfolding hex_pairs hex_bytes
hex_pairs-hex_bytes [] h = refl
hex_pairs-hex_bytes (b ∷ bytes) h =
    let joined : b / 16 * 16 + b % 16 ≡ b = omega arith in
    rw
      (
        from_hex_nibble-hex_digit (b / 16) (omega arith),
        from_hex_nibble-hex_digit (b % 16) (omega arith),
        hex_pairs-hex_bytes bytes h.1,
      )
      (ap (λ n. ok (n ∷ bytes)) joined)

read_bytes-append :
    (front rest : Bytes) → read_bytes (length front) (front ++ rest) ≡ ok (front, rest)
unfolding read_bytes
read_bytes-append [] rest = refl
read_bytes-append (b ∷ front) rest = rw (read_bytes-append front rest)

-- The seven bytes of the header `sendHexHeader` writes.
abbrev pub header : ℕ → ℕ → Bytes
header t pos = (t ∷ le32 pos) ++ be16 (crc16 (t ∷ le32 pos))

header-All : (t pos : ℕ) → IsByte t → All IsByte (header t pos)
header-All t pos h = omega arith

-- The fourteen digits of a header read back, whatever stands behind them.
read_hex_frame-header :
    (use32 : Bool) (t pos : ℕ) (rest : Bytes)
    → IsByte t
    → read_hex_frame use32 (hex_bytes (header t pos) ++ rest) ≡ hex_frame use32 (header t pos) rest
unfolding read_hex_frame
read_hex_frame-header use32 t pos rest h =
    let digits = hex_bytes (header t pos) in
    let front : read_bytes 14 (digits ++ rest) ≡ ok (digits, rest) =
      unfold hex_bytes in read_bytes-append digits rest in
    let raw : hex_decode digits ≡ ok (header t pos) =
      unfold hex_decode hex_bytes in hex_pairs-hex_bytes (header t pos) (header-All t pos h) in
    rw (front, raw)

abbrev pub eol : Bytes
eol = 0x0D ∷ 0x0A ∷ 0x11 ∷ []

crc_matches :
    (t pos : ℕ)
    → (crc16 (t ∷ le32 pos) == crc16 (t ∷ le32 pos) / 256 % 256 * 256 + crc16 (t ∷ le32 pos) % 256)
      ≡ true
crc_matches t pos = ground (arith, crc16_lt (t ∷ le32 pos))

-- A byte that can neither start nor cancel is passed over.
pub read_any_frame_opts-noise :
    (use32 : Bool) (b : ℕ) (input : Bytes)
    → b ≢ zpad
    → b ≢ zdle
    → read_any_frame_opts use32 (b ∷ input) ≡ read_any_frame_opts use32 input
unfolding read_any_frame_opts
read_any_frame_opts-noise use32 b input p d = ground (arith, p, d)

read_any_frame_opts-start :
    (use32 : Bool) (input : Bytes)
    → read_any_frame_opts use32 (zpad ∷ zpad ∷ zdle ∷ zhex ∷ input) ≡ read_hex_frame use32 input
unfolding read_any_frame_opts
read_any_frame_opts-start use32 input = refl

-- The bytes behind a header, which the next call passes over.
pub read_any_frame_opts-eol :
    (use32 : Bool) (input : Bytes)
    → read_any_frame_opts use32 (eol ++ input) ≡ read_any_frame_opts use32 input
read_any_frame_opts-eol use32 input =
    read_any_frame_opts-noise use32 0x0D (0x0A ∷ 0x11 ∷ input) (omega arith) (omega arith)
    ∙ read_any_frame_opts-noise use32 0x0A (0x11 ∷ input) (omega arith) (omega arith)
    ∙ read_any_frame_opts-noise use32 0x11 input (omega arith) (omega arith)

pub frame_start :
    (use32 : Bool) (t pos : ℕ) (rest : Bytes)
    → IsByte t
    → read_any_frame_opts use32 (hex_header t pos ++ rest)
      ≡ hex_frame use32 (header t pos) (eol ++ rest)
unfolding hex_header
frame_start use32 t pos rest h =
    read_any_frame_opts-start use32 ((hex_bytes (header t pos) ++ eol) ++ rest)
    ∙ ap (read_hex_frame use32) (append_assoc (hex_bytes (header t pos)) eol rest)
    ∙ read_hex_frame-header use32 t pos (eol ++ rest) h

hex_frame-header :
    (use32 : Bool) (t pos : ℕ) (rest : Bytes)
    → (t == zfile || t == zdata) ≡ false
    → hex_frame use32 (header t pos) rest
      ≡ ok (record { frame_type = t; payload = le32 pos; marker = 0 }, rest)
unfolding hex_frame
hex_frame-header use32 t pos rest h = rw (crc_matches t pos, h)

pub hex_frame-payload :
    (use32 : Bool) (t pos : ℕ) (rest : Bytes)
    → (t == zfile || t == zdata) ≡ true
    → hex_frame use32 (header t pos) rest ≡ (skip_eol rest >>= payload_frame t use32)
unfolding hex_frame
hex_frame-payload use32 t pos rest h = rw (crc_matches t pos, h)

-- `readAnyFrame` returns the type and the position that `sendHexHeader` is given, for a frame that
-- no data follows, and leaves the end of its line unread.
pub read_any_frame_opts-hex_header :
    (use32 : Bool) (t pos : ℕ) (rest : Bytes)
    → IsByte t
    → t ≢ zfile
    → t ≢ zdata
    → read_any_frame_opts use32 (hex_header t pos ++ rest)
      ≡ ok (record { frame_type = t; payload = le32 pos; marker = 0 }, eol ++ rest)
read_any_frame_opts-hex_header use32 t pos rest h f d =
    frame_start use32 t pos rest h
    ∙ hex_frame-header use32 t pos (eol ++ rest) (ground (arith, f, d))

-- No line feed in front: the reader would take it for the end of the header's line.
abbrev pub StartsPlain : Bytes → Type 0
StartsPlain [] = Unit
StartsPlain (b ∷ payload) = b ≢ 0x0A

skip_eol_stop :
    (b : ℕ) (rest : Bytes)
    → (b == 0x0D || b == 0x0A || b == 0x11) ≡ false
    → skip_eol (b ∷ rest) ≡ ok (b ∷ rest)
unfolding skip_eol
skip_eol_stop b rest h = rw h

plain_first :
    (b : ℕ) → needs_escape b ≡ false → b ≢ 0x0A → (b == 0x0D || b == 0x0A || b == 0x11) ≡ false
unfolding needs_escape
plain_first b e h = ground (arith, h)

pub skip_eol-escape_data :
    (payload tail : Bytes)
    → StartsPlain payload
    → skip_eol (escape_data payload ++ (zdle ∷ tail)) ≡ ok (escape_data payload ++ (zdle ∷ tail))
skip_eol-escape_data [] tail h = unfold skip_eol escape_data in refl
skip_eol-escape_data (b ∷ payload) tail h = elim (Bool-cases (needs_escape b)) [
  | inl e ↦ rw (escape_data_escaped b payload e) (skip_eol_stop zdle _ refl)
  | inr e ↦ rw (escape_data_plain b payload e) (skip_eol_stop b _ (plain_first b e h))
]

skip_eol-data_subpacket :
    (payload : Bytes) (m : ℕ) (use32 : Bool) (rest : Bytes)
    → StartsPlain payload
    → skip_eol (data_subpacket payload m use32 ++ rest)
      ≡ ok (data_subpacket payload m use32 ++ rest)
unfolding data_subpacket
skip_eol-data_subpacket payload m use32 rest h = rw append_assoc (skip_eol-escape_data payload _ h)

payload_frame-data_subpacket :
    (t : ℕ) (use32 : Bool) (payload : Bytes) (m : ℕ) (rest : Bytes)
    → All IsByte payload
    → is_marker m ≡ true
    → payload_frame t use32 (data_subpacket payload m use32 ++ rest)
      ≡ ok (record { frame_type = t; payload = payload; marker = m }, rest)
unfolding payload_frame
payload_frame-data_subpacket t use32 payload m rest h k =
    rw (read_data_subpacket-data_subpacket use32 payload m rest h k)

pub skip_eol-eol : (rest : Bytes) → skip_eol (eol ++ rest) ≡ skip_eol rest
unfolding skip_eol
skip_eol-eol rest = refl

-- A ZFILE or ZDATA header and the subpacket behind it are read as one frame, if the data do not
-- start with a line feed.
pub read_any_frame_opts-data_subpacket :
    (use32 : Bool) (t pos m : ℕ) (payload rest : Bytes)
    → (t ≡ zfile) ⊎ (t ≡ zdata)
    → All IsByte payload
    → StartsPlain payload
    → is_marker m ≡ true
    → read_any_frame_opts use32 (hex_header t pos ++ (data_subpacket payload m use32 ++ rest))
      ≡ ok (record { frame_type = t; payload = payload; marker = m }, rest)
read_any_frame_opts-data_subpacket use32 t pos m payload rest kind h plain k =
    let sub = data_subpacket payload m use32 ++ rest in
    frame_start use32 t pos sub (ground (arith, kind))
    ∙ hex_frame-payload use32 t pos (eol ++ sub) (ground (arith, kind))
    ∙ rw (skip_eol-eol sub, skip_eol-data_subpacket payload m use32 rest plain)
        (payload_frame-data_subpacket t use32 payload m rest h k)
