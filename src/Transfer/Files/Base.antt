-- ===== src/Transfer/Files/Base.antt =====
-- internal/transfer/zmodem.go: the connection, and what the code uses of `path/filepath`.
use virt_bbs.Prelude.{ℕ, Option, none, some, [], ◌∷◌, ◌++◌, reverse, Bytes, ◌==◌, if◌then◌else◌}
use virt_bbs.Transfer.Reader.{from_le32}

-- What the peer still sends, and what was written to it.
pub record Link : Type 0 where
  pub input : Bytes
  pub sent : Bytes

abbrev pub transmit : Bytes → Link → Link
transmit bytes l = record l { sent = l.sent ++ bytes }

unfoldable pub drop_slashes : Bytes → Bytes
drop_slashes [] = []
drop_slashes (c ∷ s) = if c == b'/' then drop_slashes s else c ∷ s

unfoldable pub after_slash : Bytes → Bytes → Bytes
after_slash part [] = part
after_slash part (c ∷ s) = after_slash (if c == b'/' then [] else part ++ c ∷ []) s

abbrev pub last_part : Bytes → Bytes
last_part [] = b'/' ∷ []
last_part (c ∷ s) = c ∷ s

-- `filepath.Base`
unfoldable pub base : Bytes → Bytes
unfolding drop_slashes after_slash
base [] = b'.' ∷ []
base (c ∷ s) = last_part (after_slash [] (reverse (drop_slashes (reverse (c ∷ s)))))

-- The number in the first four bytes, where there are four.
abbrev pub uint32_of : Bytes → Option ℕ
uint32_of (b0 ∷ b1 ∷ b2 ∷ b3 ∷ rest) = some (from_le32 b0 b1 b2 b3)
uint32_of (b0 ∷ b1 ∷ b2 ∷ []) = none
uint32_of (b0 ∷ b1 ∷ []) = none
uint32_of (b0 ∷ []) = none
uint32_of [] = none
