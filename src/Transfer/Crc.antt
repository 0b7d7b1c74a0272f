-- ===== src/Transfer/Crc.antt =====
-- internal/transfer/zmodem.go: the tables of the CRCs and their updates. An exclusive or of words of
-- w bits keeps its `% 2 ^ w`.
use Prim.Native.Nat.{bit_and, bit_xor}
use virt_bbs.Prelude.{ℕ, zero, suc, ◌*◌, ◌/◌, ◌%◌, [], ◌∷◌, Bytes, ◌==◌, if◌then◌else◌, ◌<◌, arith}

-- `n` rounds of a loop over one word.
iterate : ℕ → (ℕ → ℕ) → ℕ → ℕ
iterate zero round crc = crc
iterate (suc n) round crc = iterate n round (round crc)

shift16 : ℕ → ℕ
shift16 crc =
    if bit_and crc 0x8000 == 0 then crc * 2 % 65536 else bit_xor (crc * 2 % 65536) 0x1021 % 65536

crc16tab : ℕ → ℕ
unfolding iterate shift16
crc16tab i = iterate 8 shift16 (i * 256)

update_crc16 : ℕ → ℕ → ℕ
unfolding crc16tab
update_crc16 crc b =
    bit_xor (crc16tab (bit_xor (crc / 256 % 256) b % 256)) (crc * 256 % 65536) % 65536

crc16_from : ℕ → Bytes → ℕ
unfolding update_crc16
crc16_from crc [] = crc
crc16_from crc (b ∷ bytes) = crc16_from (update_crc16 crc b) bytes

unfoldable pub crc16 : Bytes → ℕ
unfolding crc16_from
crc16 bytes = crc16_from 0 bytes

shift32 : ℕ → ℕ
shift32 crc = if bit_and crc 1 == 0 then crc / 2 else bit_xor (crc / 2) 0xEDB88320 % 4294967296

crc32tab : ℕ → ℕ
unfolding iterate shift32
crc32tab i = iterate 8 shift32 i

update_crc32 : ℕ → ℕ → ℕ
unfolding crc32tab
update_crc32 crc b = bit_xor (crc32tab (bit_xor (crc % 256) b % 256)) (crc / 256) % 4294967296

crc32_from : ℕ → Bytes → ℕ
unfolding update_crc32
crc32_from crc [] = crc
crc32_from crc (b ∷ bytes) = crc32_from (update_crc32 crc b) bytes

unfoldable pub crc32b : Bytes → ℕ
unfolding crc32_from
crc32b bytes = bit_xor (crc32_from 0xFFFFFFFF bytes) 0xFFFFFFFF % 4294967296

crc16_from_lt : (crc : ℕ) (bytes : Bytes) → crc < 65536 → crc16_from crc bytes < 65536
unfolding crc16_from update_crc16
crc16_from_lt crc [] h = h
crc16_from_lt crc (b ∷ bytes) h = crc16_from_lt (update_crc16 crc b) bytes (omega arith)

pub crc16_lt : (bytes : Bytes) → crc16 bytes < 65536
unfolding crc16
crc16_lt bytes = crc16_from_lt 0 bytes (omega arith)

pub crc32b_lt : (bytes : Bytes) → crc32b bytes < 4294967296
unfolding crc32b
crc32b_lt bytes = omega arith
