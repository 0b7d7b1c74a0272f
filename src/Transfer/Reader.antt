-- ===== src/Transfer/Reader.antt =====
-- internal/transfer/zmodem.go: the reading of frames. A reader takes the bytes that the peer sends,
-- and returns its value with the bytes behind it; the end of the bytes is the error `io.EOF`.
use Prim.Native.Nat.{bit_xor}
use virt_bbs.Prelude.{
  ℕ, zero, suc, ◌+◌, ◌*◌, ◌-◌, Bool, true, false, ◌&&◌, ◌||◌, Option, none, some, [], ◌∷◌, ◌++◌,
  Bytes, length, ◌==◌, ltb, leb, if◌then◌else◌,
}
use virt_bbs.Transfer.Crc.{crc16, crc32b}
use virt_bbs.Transfer.Frames.{zfile, zdata, zdle, zdlee, zcrce, zcrcg, zcrcq, zcrcw}

pub data Error : Type 0 where
  eof : Error
  bad_hex : Error
  bad_crc : Error
  not_zrpos : Error
  empty_filename : Error
  cancelled : Error
  out_of_fuel : Error

pub data Result {ℓ} (A : Type ℓ) : Type ℓ where
  err : Error → Result A
  ok : A → Result A

infixl 5 ◌>>=◌
abbrev pub ◌>>=◌ {ℓ κ} : {V : Type ℓ} {W : Type κ} → Result V → (V → Result W) → Result W
err problem >>= go_on = err problem
ok value >>= go_on = go_on value

-- `if got != want { return …, fmt.Errorf("…") }`
abbrev pub guard_crc : Bool → Result (Unit {0})
guard_crc true = ok tt
guard_crc false = err bad_crc

infixl 5 ◌>>◌
abbrev pub ◌>>◌ {ℓ} : {W : Type ℓ} → Result (Unit {0}) → Result W → Result W
check >> go_on = check >>= λ _. go_on

-- The three values of `readAnyFrame`.
pub record Frame : Type 0 where
  pub frame_type : ℕ
  pub payload : Bytes
  pub marker : ℕ

abbrev pub Reader : Type 0 → Type 0
Reader A = Bytes → Result (A × Bytes)

unfoldable pub unescape : ℕ → ℕ
unescape b = if b == zdlee then zdle else bit_xor b 0x40

unfoldable pub read_escaped_byte : Reader ℕ
unfolding unescape
read_escaped_byte [] = err eof
read_escaped_byte (b ∷ []) = if b == zdle then err eof else ok (b, [])
read_escaped_byte (b ∷ b2 ∷ input) =
    if b == zdle then ok (unescape b2, input) else ok (b, b2 ∷ input)

unfoldable pub read_escaped : ℕ → Reader Bytes
unfolding read_escaped_byte
read_escaped zero input = ok ([], input)
read_escaped (suc n) input = do
  first ← read_escaped_byte input
  rest ← read_escaped n first.1
  ok (first.0 ∷ rest.0, rest.1)

abbrev pub from_le32 : ℕ → ℕ → ℕ → ℕ → ℕ
from_le32 b0 b1 b2 b3 = b0 + b1 * 256 + b2 * 65536 + b3 * 16777216

-- The checksum behind the marker of a data subpacket, and the test against it.
unfoldable pub check_crc : Bool → Bytes → ℕ → Reader (Bytes × ℕ)
unfolding read_escaped_byte
check_crc true payload pkt_type input = do
  c0 ← read_escaped_byte input
  c1 ← read_escaped_byte c0.1
  c2 ← read_escaped_byte c1.1
  c3 ← read_escaped_byte c2.1
  guard_crc (crc32b (payload ++ pkt_type ∷ []) == from_le32 c0.0 c1.0 c2.0 c3.0)
  ok ((payload, pkt_type), c3.1)
check_crc false payload pkt_type input = do
  c1 ← read_escaped_byte input
  c2 ← read_escaped_byte c1.1
  guard_crc (crc16 (payload ++ pkt_type ∷ []) == c1.0 * 256 + c2.0)
  ok ((payload, pkt_type), c2.1)

unfoldable pub is_marker : ℕ → Bool
is_marker b = b == zcrce || b == zcrcg || b == zcrcq || b == zcrcw

-- The loop of `readDataSubpacket`, with the data read so far.
unfoldable pub subpacket_from : Bool → Bytes → Reader (Bytes × ℕ)
unfolding check_crc is_marker unescape
subpacket_from use32 payload [] = err eof
subpacket_from use32 payload (b ∷ []) =
    if b == zdle then err eof else subpacket_from use32 (payload ++ b ∷ []) []
subpacket_from use32 payload (b ∷ b2 ∷ input) =
    let plain = subpacket_from use32 (payload ++ b ∷ []) (b2 ∷ input) in
    let escaped = subpacket_from use32 (payload ++ unescape b2 ∷ []) input in
    if b == zdle then if is_marker b2 then check_crc use32 payload b2 input else escaped else plain

unfoldable pub read_data_subpacket : Bool → Reader (Bytes × ℕ)
unfolding subpacket_from
read_data_subpacket use32 input = subpacket_from use32 [] input

unfoldable pub from_hex_nibble : ℕ → Option ℕ
from_hex_nibble b =
    if leb b'0' b && leb b b'9'
    then some (b - b'0')
    else if leb b'a' b && leb b b'f'
    then some (b - b'a' + 10)
    else if leb b'A' b && leb b b'F'
    then some (b - b'A' + 10)
    else none

abbrev pub hex_pair : Option ℕ → Option ℕ → Result ℕ
hex_pair (some hi) (some lo) = ok (hi * 16 + lo)
hex_pair (some hi) none = err bad_hex
hex_pair none lo = err bad_hex

-- The loop of `hexDecode`, for `n` pairs of digits.
unfoldable pub hex_pairs : ℕ → Bytes → Result Bytes
unfolding from_hex_nibble
hex_pairs zero h = ok []
hex_pairs (suc n) (hi ∷ lo ∷ h) = do
  b ← hex_pair (from_hex_nibble hi) (from_hex_nibble lo)
  rest ← hex_pairs n h
  ok (b ∷ rest)
hex_pairs (suc n) (hi ∷ []) = err bad_hex
hex_pairs (suc n) [] = err bad_hex

unfoldable pub hex_decode : Bytes → Result Bytes
unfolding hex_pairs
hex_decode h = if ltb (length h) 14 then err bad_hex else hex_pairs 7 h

unfoldable pub read_bytes : ℕ → Reader Bytes
read_bytes zero input = ok ([], input)
read_bytes (suc n) [] = err eof
read_bytes (suc n) (b ∷ input) = do rest ← read_bytes n input; ok (b ∷ rest.0, rest.1)

-- The end of line that may stand between a hex header and its subpacket.
unfoldable pub skip_eol : Bytes → Result Bytes
skip_eol [] = err eof
skip_eol (b ∷ input) =
    if b == 0x0D || b == 0x0A || b == 0x11 then skip_eol input else ok (b ∷ input)

unfoldable pub payload_frame : ℕ → Bool → Reader Frame
unfolding read_data_subpacket
payload_frame frame_type use32 input = do
  sub ← read_data_subpacket use32 input
  ok (record { frame_type = frame_type; payload = sub.0.0; marker = sub.0.1 }, sub.1)

-- What `readHexFrame` does with the seven bytes of a header.
unfoldable pub hex_frame : Bool → Bytes → Reader Frame
unfolding skip_eol payload_frame
hex_frame use32 (t ∷ p0 ∷ p1 ∷ p2 ∷ p3 ∷ c1 ∷ c2 ∷ []) input =
    if crc16 (t ∷ p0 ∷ p1 ∷ p2 ∷ p3 ∷ []) == c1 * 256 + c2
    then if t == zfile || t == zdata
      then skip_eol input >>= payload_frame t use32
      else ok (record { frame_type = t; payload = p0 ∷ p1 ∷ p2 ∷ p3 ∷ []; marker = 0 }, input)
    else err bad_crc
hex_frame use32 raw input = err bad_hex

unfoldable pub read_hex_frame : Bool → Reader Frame
unfolding read_bytes hex_decode hex_frame
read_hex_frame use32 input = do
  hex_buf ← read_bytes 14 input
  raw ← hex_decode hex_buf.0
  hex_frame use32 raw hex_buf.1

-- What `readBinFrame` does with the bytes of a header.
unfoldable pub bin_frame : Bool → Bytes → Reader Frame
unfolding payload_frame
bin_frame true (t ∷ p0 ∷ p1 ∷ p2 ∷ p3 ∷ c0 ∷ c1 ∷ c2 ∷ c3 ∷ []) input =
    if crc32b (t ∷ p0 ∷ p1 ∷ p2 ∷ p3 ∷ []) == from_le32 c0 c1 c2 c3
    then if t == zfile || t == zdata
      then payload_frame t true input
      else ok (record { frame_type = t; payload = p0 ∷ p1 ∷ p2 ∷ p3 ∷ []; marker = 0 }, input)
    else err bad_crc
bin_frame false (t ∷ p0 ∷ p1 ∷ p2 ∷ p3 ∷ c1 ∷ c2 ∷ []) input =
    if crc16 (t ∷ p0 ∷ p1 ∷ p2 ∷ p3 ∷ []) == c1 * 256 + c2
    then if t == zfile || t == zdata
      then payload_frame t false input
      else ok (record { frame_type = t; payload = p0 ∷ p1 ∷ p2 ∷ p3 ∷ []; marker = 0 }, input)
    else err bad_crc
bin_frame use32 raw input = err bad_hex

unfoldable pub read_bin_frame : Bool → Reader Frame
unfolding read_escaped bin_frame
read_bin_frame use32 input = do
  raw ← read_escaped (if use32 then 9 else 7) input
  bin_frame use32 raw.0 raw.1
