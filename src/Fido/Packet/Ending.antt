-- ===== src/Fido/Packet/Ending.antt =====
-- The loop of `ReadPacket` has fuel enough.
use virt_bbs.Prelude.{
  ℕ, zero, suc, ◌+◌, ◌*◌, ◌≤◌, ◌<◌, ◌≡◌, refl, [], ◌∷◌, Bytes, length, length-drop, take, drop,
  arith,
}
use virt_bbs.Fido.Address.{Addr}
use virt_bbs.Fido.Packet.{read_null_str, read_fixed_str, addr_or, message_at, read_messages}

read_null_str_le : (s : Bytes) → length (read_null_str s).1 ≤ length s
unfolding read_null_str
read_null_str_le [] = omega arith
read_null_str_le (c ∷ s) = ground (arith, read_null_str_le s)

-- The bytes behind a message.
message_at_le :
    (orig dest : Addr) (date : Bytes) (attrib cost : ℕ) (s : Bytes)
    → length (message_at orig dest date attrib cost s).1 ≤ length s
message_at_le orig dest date attrib cost s =
    let s1 = (read_null_str s).1 in
    let s2 = (read_null_str s1).1 in
    let s3 = (read_null_str s2).1 in
    omega (arith, read_null_str_le s, read_null_str_le s1, read_null_str_le s2, read_null_str_le s3)

-- The messages read of a packet do not depend on the fuel, if it is above the number of the bytes.
pub read_messages_enough :
    (f g : ℕ) (orig dest : Addr) (s : Bytes)
    → length s < f
    → length s < g
    → read_messages f orig dest s ≡ read_messages g orig dest s
unfolding read_messages
read_messages_enough zero g orig dest s h k = elim h [ ]
read_messages_enough (suc f) zero orig dest s h k = elim k [ ]
read_messages_enough (suc f) (suc g) orig dest
      (t0 ∷ t1 ∷ on0 ∷ on1 ∷ dn0 ∷ dn1 ∷ oe0 ∷ oe1 ∷ de0 ∷ de1 ∷ a0 ∷ a1 ∷ c0 ∷ c1 ∷ rest) h k =
    let from = addr_or orig (oe0 + oe1 * 256) (on0 + on1 * 256) in
    let to = addr_or dest (de0 + de1 * 256) (dn0 + dn1 * 256) in
    let date = read_fixed_str (take 20 rest) in
    let left = (message_at from to date (a0 + a1 * 256) (c0 + c1 * 256) (drop 20 rest)).1 in
    let fewer = message_at_le from to date (a0 + a1 * 256) (c0 + c1 * 256) (drop 20 rest) in
    let size = length-drop 20 rest in
    let same =
      read_messages_enough f g orig dest left (omega (arith, fewer, size))
        (omega (arith, fewer, size)) in
    rw same refl
read_messages_enough (suc f) (suc g) orig dest s h k = refl
