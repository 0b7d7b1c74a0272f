-- ===== src/Fido/Packet/RoundTrip.antt =====
-- `ReadPacket` of what `WritePacket` wrote.
use virt_bbs.Prelude.{
  ℕ, zero, suc, ◌≤◌, ◌<◌, ◌≡◌, ◌≢◌, refl, sym, ap, ◌∙◌, false, not, List, [], ◌∷◌, ◌++◌, map, Bytes,
  equal, length, length-append, drop, drop-drop, replicate, ◌==◌, ltb, All, arith,
}
use virt_bbs.Prelude.Int.{ℤ}
use virt_bbs.Fido.Address.{Addr}
use virt_bbs.Fido.Packet.{
  Message, Now, area_tag, read_messages, packet_addr, read_packet, messages, le16, word, fixed,
  date_or, write_message, write_messages, write_packet,
}
use virt_bbs.Fido.Packet.Fields.{
  IsText, read_null_str-append, length-fixed, take-fixed, drop-fixed, read_fixed_str-fixed,
  fixed_room, le16_lem,
}

-- A message whose fields fit: its nets are not 0, and its texts have no NUL.
pub record IsWritable (m : Message) : Type 0 where
  pub orig_net : word m.orig_addr.net ≢ 0
  pub dest_net : word m.dest_addr.net ≢ 0
  pub dated : m.date_time ≢ []
  pub date_fits : length m.date_time ≤ 20
  pub date_text : IsText m.date_time
  pub to_text : IsText m.to_name
  pub from_text : IsText m.from_name
  pub subject_text : IsText m.subject
  pub body_text : IsText m.body
  pub attrib_fits : m.attrib < 65536
  pub cost_fits : m.cost < 65536

-- What a packet keeps of an address: its net and node, in the zone of the packet.
abbrev pub carried : ℤ → Addr → Addr
carried zone a = packet_addr (word zone) (word a.net) (word a.node)

-- What is read of a message.
abbrev pub read_back : Addr → Addr → Message → Message
read_back orig dest m = record m {
  orig_addr = carried orig.zone m.orig_addr;
  dest_addr = carried dest.zone m.dest_addr;
  area = area_tag m.body;
  is_echo = not (equal (area_tag m.body) []);
}

date_or_some : (now date : Bytes) → date ≢ [] → date_or now date ≡ date
date_or_some now [] h = absurd (h refl)
date_or_some now (c ∷ date) h = refl

word_lt : (n : ℤ) → word n < 65536
word_lt n = omega arith

read_messages-write_message :
    (now : Now) (orig dest : Addr) (fuel : ℕ) (m : Message) (rest : Bytes)
    → IsWritable m
    → read_messages
        (suc fuel)
        (carried orig.zone orig)
        (carried dest.zone dest)
        (write_message now m rest)
      ≡ read_back orig dest m
        ∷ read_messages fuel (carried orig.zone orig) (carried dest.zone dest) rest
unfolding read_messages write_message
read_messages-write_message now orig dest fuel m rest w =
    let d4 = m.body ++ (0 ∷ rest) in
    let d3 = m.subject ++ (0 ∷ d4) in
    let d2 = m.from_name ++ (0 ∷ d3) in
    let d1 = m.to_name ++ (0 ∷ d2) in
    let orig_net : (word m.orig_addr.net == 0) ≡ false = ground (arith, w.orig_net) in
    let dest_net : (word m.dest_addr.net == 0) ≡ false = ground (arith, w.dest_net) in
    rw
      (
        date_or_some now.text m.date_time w.dated,
        le16_lem (word m.orig_addr.node) (word_lt m.orig_addr.node),
        le16_lem (word m.dest_addr.node) (word_lt m.dest_addr.node),
        le16_lem (word m.orig_addr.net) (word_lt m.orig_addr.net),
        le16_lem (word m.dest_addr.net) (word_lt m.dest_addr.net),
        le16_lem m.attrib w.attrib_fits,
        le16_lem m.cost w.cost_fits,
        fixed_room m.date_time d1,
        take-fixed 20 m.date_time d1,
        drop-fixed 20 m.date_time d1,
        read_fixed_str-fixed 20 m.date_time w.date_text w.date_fits,
        read_null_str-append m.to_name d2 w.to_text,
        read_null_str-append m.from_name d3 w.from_text,
        read_null_str-append m.subject d4 w.subject_text,
        read_null_str-append m.body rest w.body_text,
        orig_net,
        dest_net,
      )
      refl

read_messages-write_messages :
    (now : Now) (orig dest : Addr) (fuel : ℕ) (msgs : List Message)
    → length msgs < fuel
    → All IsWritable msgs
    → read_messages fuel (carried orig.zone orig) (carried dest.zone dest) (write_messages now msgs)
      ≡ map (read_back orig dest) msgs
unfolding write_messages
read_messages-write_messages now orig dest zero msgs h w = elim h [ ]
read_messages-write_messages now orig dest (suc fuel) [] h w = unfold read_messages in refl
read_messages-write_messages now orig dest (suc fuel) (m ∷ msgs) h w =
    read_messages-write_message now orig dest fuel m (write_messages now msgs) w.0
    ∙ ap (λ rest. read_back orig dest m ∷ rest)
        (read_messages-write_messages now orig dest fuel msgs (omega arith) w.1)

-- Each message takes a byte at least.
write_messages_longer :
    (now : Now) (msgs : List Message) → length msgs ≤ length (write_messages now msgs)
unfolding write_messages write_message
write_messages_longer now [] = omega arith
write_messages_longer now (m ∷ msgs) =
    let tail = write_messages now msgs in
    let t3 = m.subject ++ (0 ∷ (m.body ++ (0 ∷ tail))) in
    let t1 = m.to_name ++ (0 ∷ (m.from_name ++ (0 ∷ t3))) in
    omega (
      arith,
      write_messages_longer now msgs,
      length-append (fixed 20 (date_or now.text m.date_time)) t1,
      length-append m.to_name (0 ∷ (m.from_name ++ (0 ∷ t3))),
      length-append m.from_name (0 ∷ t3),
      length-append m.subject (0 ∷ (m.body ++ (0 ∷ tail))),
      length-append m.body (0 ∷ tail),
    )

-- `ReadPacket` returns the messages that `WritePacket` was given, in order, each with its area by
-- the AREA line of its body: the numbers of the addresses are taken modulo 2^16, the zones are
-- those of the packet, and the points are lost. The nets must not be 0, the dates not empty and at
-- most 20 bytes long, and no text may have a NUL.
pub read_packet-write_packet :
    (now : Now) (orig dest : Addr) (password : Bytes) (msgs : List Message)
    → All IsWritable msgs
    → read_packet (write_packet now orig dest password msgs)
      ≡ messages (map (read_back orig dest) msgs)
unfolding read_packet write_packet
read_packet-write_packet now orig dest password msgs w =
    let tail = write_messages now msgs in
    let zones = le16 (word orig.zone) (le16 (word dest.zone) (replicate 20 0 ++ tail)) in
    let back = fixed 8 password ++ zones in
    let size = length-append (fixed 8 password) zones in
    let eight = length-fixed 8 password in
    let enough : ltb (length (write_packet now orig dest password msgs)) 58 ≡ false =
      ground (arith, size, eight) in
    let at_zones = drop-fixed 8 password zones in
    let at_dest_zone : drop 10 back ≡ drop 2 zones =
      sym (drop-drop 8 2 back) ∙ ap (drop 2) at_zones in
    let at_messages : drop 32 back ≡ tail = sym (drop-drop 8 24 back) ∙ ap (drop 24) at_zones in
    rw
      (
        enough,
        at_zones,
        at_dest_zone,
        at_messages,
        le16_lem (word orig.zone) (word_lt orig.zone),
        le16_lem (word dest.zone) (word_lt dest.zone),
        le16_lem (word orig.net) (word_lt orig.net),
        le16_lem (word dest.net) (word_lt dest.net),
        le16_lem (word orig.node) (word_lt orig.node),
        le16_lem (word dest.node) (word_lt dest.node),
      )
      (ap messages (
        read_messages-write_messages now orig dest _ msgs
          (omega (arith, size, eight, write_messages_longer now msgs)) w))
