-- ===== src/Fido/Packet.antt =====
-- internal/fido/packet.go: packets of messages. A packet is the bytes of its file.
pub mod Body
mod Fields
pub mod RoundTrip
pub mod Ending
mod Samples
use virt_bbs.Prelude.{
  ℕ, zero, suc, ◌+◌, ◌-◌, ◌*◌, ◌/◌, ◌%◌, Bool, true, false, not, ◌&&◌, ◌||◌, Option, none, some,
  List, [], ◌∷◌, ◌++◌, Bytes, equal, length, take, drop, replicate, ◌==◌, ltb, if◌then◌else◌,
}
use virt_bbs.Prelude.Int.{ℤ, pos, pattern64}
use virt_bbs.Fido.Address.{Addr}
use virt_bbs.Fido.Packet.Body.{parse}

pub record Message : Type 0 where
  pub orig_addr : Addr
  pub dest_addr : Addr
  pub date_time : Bytes
  pub to_name : Bytes
  pub from_name : Bytes
  pub subject : Bytes
  pub body : Bytes
  pub attrib : ℕ
  pub cost : ℕ
  pub area : Bytes
  pub is_echo : Bool

unfoldable pub area_tag : Bytes → Bytes
area_tag body = (parse body).area_tag

unfoldable pub clean_body : Bytes → Bytes
clean_body body = (parse body).text

-- `readNullStr`: the text in front of the first NUL, and what is behind it.
unfoldable pub read_null_str : Bytes → Bytes × Bytes
read_null_str [] = ([], [])
read_null_str (c ∷ s) =
    let rest = read_null_str s in if c == 0 then ([], s) else (c ∷ rest.0, rest.1)

unfoldable pub read_fixed_str : Bytes → Bytes
unfolding read_null_str
read_fixed_str field = (read_null_str field).0

-- `binary.LittleEndian.Uint16` at the head of a slice.
abbrev pub uint16_of : Bytes → ℕ
uint16_of [] = 0
uint16_of (a ∷ []) = 0
uint16_of (a ∷ b ∷ rest) = a + b * 256

-- An address of the packet's zone, or that of the packet if the net is 0.
abbrev pub addr_or : Addr → ℕ → ℕ → Addr
addr_or packet net node =
    if net == 0
    then packet
    else record { zone = packet.zone; net = pos net; node = pos node; point = pos 0 }

-- The message in the bytes behind its prefix and its date, and the bytes behind it.
abbrev pub message_at : Addr → Addr → Bytes → ℕ → ℕ → Bytes → Message × Bytes
message_at orig dest date attrib cost data' =
    let to_name = read_null_str data' in
    let from_name = read_null_str to_name.1 in
    let subject = read_null_str from_name.1 in
    let body = read_null_str subject.1 in
    let area = area_tag body.0 in
    (
      record {
        orig_addr = orig;
        dest_addr = dest;
        date_time = date;
        to_name = to_name.0;
        from_name = from_name.0;
        subject = subject.0;
        body = body.0;
        attrib = attrib;
        cost = cost;
        area = area;
        is_echo = not (equal area []);
      },
      body.1,
    )

-- The loop of `ReadPacket`, on the bytes from `pos` on. It ends at two NULs, where fewer bytes are
-- left than a message has in front of its texts, and at another type of message.
unfoldable pub read_messages : ℕ → Addr → Addr → Bytes → List Message
read_messages zero orig dest data' = []
read_messages (suc fuel) orig dest
      (t0 ∷ t1 ∷ on0 ∷ on1 ∷ dn0 ∷ dn1 ∷ oe0 ∷ oe1 ∷ de0 ∷ de1 ∷ a0 ∷ a1 ∷ c0 ∷ c1 ∷ rest) =
    let from = addr_or orig (oe0 + oe1 * 256) (on0 + on1 * 256) in
    let to = addr_or dest (de0 + de1 * 256) (dn0 + dn1 * 256) in
    let found =
      message_at from to (read_fixed_str (take 20 rest)) (a0 + a1 * 256) (c0 + c1 * 256)
        (drop 20 rest) in
    let next = found.0 ∷ read_messages fuel orig dest found.1 in
    if t0 == 0 && t1 == 0
    then []
    else if not (t0 + t1 * 256 == 2)
    then []
    else if ltb (length rest) 20
    then []
    else next
read_messages (suc fuel) orig dest data' = []

pub data PacketError : Type 0 where
  too_short : ℕ → PacketError
  unsupported_type : ℕ → PacketError

pub data PacketResult : Type 0 where
  messages : List Message → PacketResult
  refused : PacketError → PacketResult

abbrev pub packet_addr : ℕ → ℕ → ℕ → Addr
packet_addr zone net node = record {
  zone = pos zone;
  net = pos net;
  node = pos node;
  point = pos 0;
}

unfoldable pub read_packet : Bytes → PacketResult
read_packet data' =
    let pkt_type = uint16_of (drop 18 data') in
    let orig =
      packet_addr (uint16_of (drop 34 data')) (uint16_of (drop 20 data')) (uint16_of data') in
    let dest =
      packet_addr (uint16_of (drop 36 data')) (uint16_of (drop 22 data'))
        (uint16_of (drop 2 data')) in
    if ltb (length data') 58
    then refused (too_short (length data'))
    else if not (pkt_type == 2)
    then refused (unsupported_type pkt_type)
    else messages (read_messages (suc (length data')) orig dest (drop 58 data'))

-- `uint16(n)` of an `int`.
abbrev pub word : ℤ → ℕ
word n = pattern64 n % 65536

abbrev pub le16 : ℕ → Bytes → Bytes
le16 n rest = (n % 256) ∷ (n / 256 % 256) ∷ rest

-- `copy` into a fresh buffer of `n` bytes.
unfoldable pub fixed : ℕ → Bytes → Bytes
fixed zero s = []
fixed (suc n) [] = 0 ∷ fixed n []
fixed (suc n) (c ∷ s) = c ∷ fixed n s

-- What `time.Now()` gives, its text in the form of a message's date included.
pub record Now : Type 0 where
  pub year : ℕ
  pub month : ℕ
  pub day : ℕ
  pub hour : ℕ
  pub minute : ℕ
  pub second : ℕ
  pub text : Bytes

abbrev pub date_or : Bytes → Bytes → Bytes
date_or now [] = now
date_or now (c ∷ date) = c ∷ date

unfoldable pub write_message : Now → Message → Bytes → Bytes
unfolding fixed
write_message now m rest = le16 2 (
    le16 (word m.orig_addr.node) (
      le16 (word m.dest_addr.node) (
        le16 (word m.orig_addr.net) (
          le16 (word m.dest_addr.net) (
            le16 m.attrib (
              le16 m.cost (
                fixed 20 (date_or now.text m.date_time)
                ++ (m.to_name
                    ++ (0
                        ∷ (m.from_name
                            ++ (0 ∷ (m.subject ++ (0 ∷ (m.body ++ (0 ∷ rest)))))))))))))))

unfoldable pub write_messages : Now → List Message → Bytes
write_messages now [] = 0 ∷ 0 ∷ []
write_messages now (m ∷ msgs) = write_message now m (write_messages now msgs)

-- The month is counted from 0; bytes 24 and 25 and those behind the zones stay 0.
unfoldable pub write_packet : Now → Addr → Addr → Bytes → List Message → Bytes
write_packet now orig dest password msgs = le16 (word orig.node) (
    le16 (word dest.node) (
      le16 now.year (
        le16 (now.month - 1) (
          le16 now.day (
            le16 now.hour (
              le16 now.minute (
                le16 now.second (
                  le16 0 (
                    le16 2 (
                      le16 (word orig.net) (
                        le16 (word dest.net) (
                          0
                          ∷ 0
                          ∷ (fixed 8 password
                              ++ le16 (word orig.zone) (
                                  le16 (word dest.zone)
                                    (replicate 20 0 ++ write_messages now msgs)))))))))))))))
