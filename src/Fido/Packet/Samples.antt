-- ===== src/Fido/Packet/Samples.antt =====
-- Bodies and packets at concrete inputs.
use virt_bbs.Prelude.{◌≡◌, false, [], ◌∷◌, ◌++◌, map, Bytes, codes, arith}
use virt_bbs.Prelude.Int.{pos}
use virt_bbs.Fido.Address.{Addr}
use virt_bbs.Fido.Strings.{join}
use virt_bbs.Fido.Packet.{Message, Now, messages, packet_addr, read_packet, write_packet}
use virt_bbs.Fido.Packet.Body.{parse, trim_right, fido_lines}
use virt_bbs.Fido.Packet.Body.Lines.{keep, is_text, is_other, parse-keep}
use virt_bbs.Fido.Packet.RoundTrip.{IsWritable, read_back, read_packet-write_packet}

abbrev echo_body : Bytes
echo_body =
    codes "AREA:CHAT"
    ++ (13 ∷ (1 ∷ codes "TZUTC: 0200" ++ (13 ∷ (codes "Hi!" ++ (13 ∷ codes "SEEN-BY: 1/2 3")))))

parse-keep_example :
    ((parse echo_body).text
      ≡ join (13 ∷ 10 ∷ []) (keep is_text (map (trim_right 10) (fido_lines echo_body))))
    × ((parse echo_body).kludges
        ≡ join (13 ∷ []) (keep is_other (map (trim_right 10) (fido_lines echo_body))))
parse-keep_example = parse-keep echo_body

abbrev home : Addr
home = packet_addr 2 5020 1042

abbrev away : Addr
away = record { zone = pos 2; net = pos 5030; node = pos 1; point = pos 9 }

abbrev letter : Message
letter = record {
  orig_addr = home;
  dest_addr = away;
  date_time = codes "01 Jul 26  10:00:00";
  to_name = codes "Ann";
  from_name = codes "Bob";
  subject = codes "Tea";
  body = echo_body;
  attrib = 2;
  cost = 0;
  area = [];
  is_echo = false;
}

abbrev now : Now
now = record {
  year = 2026;
  month = 7;
  day = 1;
  hour = 10;
  minute = 0;
  second = 0;
  text = codes "01 Jul 26  10:00:00";
}

letter-IsWritable : IsWritable letter
letter-IsWritable = record {
  orig_net = omega arith;
  dest_net = omega arith;
  dated = cc;
  date_fits = omega arith;
  date_text = omega arith;
  to_text = omega arith;
  from_text = omega arith;
  subject_text = omega arith;
  body_text = omega arith;
  attrib_fits = omega arith;
  cost_fits = omega arith;
}

read_packet-write_packet_example :
    read_packet (write_packet now home away (codes "secret") (letter ∷ []))
    ≡ messages (read_back home away letter ∷ [])
read_packet-write_packet_example =
    read_packet-write_packet now home away (codes "secret") (letter ∷ []) (letter-IsWritable, tt)
