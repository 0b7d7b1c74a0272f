-- ===== src/Transfer/Frames.antt =====
-- internal/transfer/zmodem.go: the constants of the protocol and what is written to the peer.
use Prim.Native.Nat.{bit_xor}
use virt_bbs.Prelude.{
  ℕ, ◌+◌, ◌/◌, ◌%◌, Bool, true, false, ◌||◌, [], ◌∷◌, ◌++◌, Bytes, ◌==◌, ltb, if◌then◌else◌,
}
use virt_bbs.Transfer.Crc.{crc16, crc32b}

abbrev pub zrqinit : ℕ
zrqinit = 0x00

abbrev pub zrinit : ℕ
zrinit = 0x01

abbrev pub zack : ℕ
zack = 0x03

abbrev pub zfile : ℕ
zfile = 0x04

abbrev pub zskip : ℕ
zskip = 0x05

abbrev pub zfin : ℕ
zfin = 0x08

abbrev pub zrpos : ℕ
zrpos = 0x09

abbrev pub zdata : ℕ
zdata = 0x0A

abbrev pub zeof : ℕ
zeof = 0x0B

abbrev pub zcan : ℕ
zcan = 0x10

abbrev pub zpad : ℕ
zpad = 0x2A

abbrev pub zdle : ℕ
zdle = 0x18

abbrev pub zdlee : ℕ
zdlee = 0x58

abbrev pub zbin : ℕ
zbin = 0x41

abbrev pub zhex : ℕ
zhex = 0x42

abbrev pub zbin32 : ℕ
zbin32 = 0x43

abbrev pub zcrce : ℕ
zcrce = 0x68

abbrev pub zcrcg : ℕ
zcrcg = 0x69

abbrev pub zcrcq : ℕ
zcrcq = 0x6A

abbrev pub zcrcw : ℕ
zcrcw = 0x6B

abbrev pub canfc32 : ℕ
canfc32 = 0x20

abbrev pub canovio : ℕ
canovio = 0x02

unfoldable pub needs_escape : ℕ → Bool
needs_escape b =
    b == zdle || b == 0x0D || b == 0x8D || b == 0x11 || b == 0x91 || b == 0x13 || b == 0x93

unfoldable pub escape_data : Bytes → Bytes
unfolding needs_escape
escape_data [] = []
escape_data (b ∷ payload) =
    let rest = escape_data payload in
    if needs_escape b then zdle ∷ bit_xor b 0x40 ∷ rest else b ∷ rest

-- A `uint32` from the lowest byte up, as `binary.LittleEndian` has it.
abbrev pub le32 : ℕ → Bytes
le32 n = n % 256 ∷ n / 256 % 256 ∷ n / 65536 % 256 ∷ n / 16777216 % 256 ∷ []

abbrev pub be16 : ℕ → Bytes
be16 n = n / 256 % 256 ∷ n % 256 ∷ []

-- A digit of the verb `%02x`.
unfoldable pub hex_digit : ℕ → ℕ
hex_digit n = if ltb n 10 then n + 48 else n + 87

unfoldable pub hex_bytes : Bytes → Bytes
unfolding hex_digit
hex_bytes [] = []
hex_bytes (b ∷ bytes) = hex_digit (b / 16) ∷ hex_digit (b % 16) ∷ hex_bytes bytes

-- The bytes that `sendHexHeader` writes.
unfoldable pub hex_header : ℕ → ℕ → Bytes
unfolding hex_bytes
hex_header frame_type pos =
    let hdr = frame_type ∷ le32 pos in
    zpad ∷ zpad ∷ zdle ∷ zhex ∷ (hex_bytes (hdr ++ be16 (crc16 hdr)) ++ (0x0D ∷ 0x0A ∷ 0x11 ∷ []))

-- The checksum of a data subpacket, before it is escaped.
unfoldable pub crc_bytes : Bool → Bytes → Bytes
crc_bytes true crc_data = le32 (crc32b crc_data)
crc_bytes false crc_data = be16 (crc16 crc_data)

-- The bytes that `sendDataSubpacket` writes.
unfoldable pub data_subpacket : Bytes → ℕ → Bool → Bytes
unfolding escape_data crc_bytes
data_subpacket payload pkt_type use32 =
    escape_data payload
    ++ (zdle ∷ pkt_type ∷ escape_data (crc_bytes use32 (payload ++ pkt_type ∷ [])))
