-- ===== src/Fido/Nodelist.antt =====
-- internal/fido: the lines of a nodelist, read by nodelistdiff.go and written by nodelistgen.go.
mod Fields
pub mod Diff
pub mod RoundTrip
mod Samples
use virt_bbs.Prelude.{
  ℕ, ◌+◌, Bool, true, false, ◌&&◌, Option, none, some, List, [], ◌∷◌, ◌++◌, Bytes, codes, equal,
  ◌==◌, leb, if◌then◌else◌,
}
use virt_bbs.Prelude.Int.{ℤ, pos, eqb_ℤ}
use virt_bbs.Prelude.Decimal.{show_int, parse_int, int_or_zero}
use virt_bbs.Fido.Strings.{trim_space, split_at, join}

-- `ID` and `AKA`, which no line has, are left out.
pub record NodeEntry : Type 0 where
  pub network : Bytes
  pub zone : ℤ
  pub net : ℤ
  pub node : ℤ
  pub point : ℤ
  pub name : Bytes
  pub location : Bytes
  pub sysop : Bytes
  pub phone : Bytes
  pub baud : ℤ
  pub flags : Bytes
  pub node_type : Bytes
  pub active : Bool

-- `strings.ToLower` on ASCII texts
unfoldable pub to_lower : Bytes → Bytes
to_lower [] = []
to_lower (c ∷ s) = (if leb b'A' c && leb c b'Z' then c + 32 else c) ∷ to_lower s

-- `strings.ReplaceAll` of one byte by one byte
unfoldable pub replace_all : ℕ → ℕ → Bytes → Bytes
replace_all old new [] = []
replace_all old new (c ∷ s) = (if c == old then new else c) ∷ replace_all old new s

unfoldable pub nl_decode : Bytes → Bytes
nl_decode s = replace_all b'_' b' ' (trim_space s)

unfoldable pub nl_encode : Bytes → Bytes
nl_encode [] = b'-' ∷ []
nl_encode (c ∷ s) = replace_all b' ' b'_' (trim_space (c ∷ s))

-- The zone and the net of the lines so far, `*curZone` and `*curNet`.
pub record Current : Type 0 where
  pub zone : ℤ
  pub net : ℤ

pub data LineError : Type 0 where
  short_line : LineError
  unknown_keyword : Bytes → LineError

-- What a line is read as; a line with an error does not change the zone and the net.
pub data LineResult : Type 0 where
  entry : NodeEntry → Current → LineResult
  line_error : LineError → LineResult

-- What the keyword says: `nodeType`, `zoneNum`, `netNum`, `nodeNum` and `active`.
pub record Place : Type 0 where
  pub node_type : Bytes
  pub zone : ℤ
  pub net : ℤ
  pub node : ℤ
  pub active : Bool

-- A node, hub, private node or point boss of the net of the lines so far.
abbrev inside : Bytes → Bool → ℤ → Current → Option (Place × Current)
inside type up num current = some (
  record { node_type = type; zone = current.zone; net = current.net; node = num; active = up },
  current,
)

-- A region or a host, which begins a net.
abbrev heads : Bytes → ℤ → Current → Option (Place × Current)
heads type num current = some (
  record { node_type = type; zone = current.zone; net = num; node = pos 0; active = true },
  record { zone = current.zone; net = num },
)

-- `switch strings.ToLower(keyword)`
unfoldable pub place : Bytes → ℤ → Current → Option (Place × Current)
place keyword num current =
    if equal keyword (codes "zone")
    then some (
      record { node_type = codes "Zone"; zone = num; net = num; node = pos 0; active = true },
      record { zone = num; net = num },
    )
    else if equal keyword (codes "region")
    then heads (codes "Region") num current
    else if equal keyword (codes "host")
    then heads (codes "Host") num current
    else if equal keyword (codes "hub")
    then inside (codes "Hub") true num current
    else if equal keyword (codes "pvt")
    then inside (codes "Pvt") true num current
    else if equal keyword (codes "hold")
    then inside (codes "Hold") false num current
    else if equal keyword (codes "down")
    then inside (codes "Down") false num current
    else if equal keyword (codes "boss")
    then inside (codes "Boss") true num current
    else if equal keyword []
    then inside (codes "Node") true num current
    else none

-- The end of `parseNodelistLine`, with the fields behind the number.
unfoldable pub placed :
    Bytes
    → Bytes
    → Option (Place × Current)
    → Bytes
    → Bytes
    → Bytes
    → Bytes
    → Bytes
    → List Bytes
    → LineResult
placed network keyword none name location sysop phone baud more =
    line_error (unknown_keyword keyword)
placed network keyword (some (p, current)) name location sysop phone baud more =
    entry
      (record {
        network = network;
        zone = p.zone;
        net = p.net;
        node = p.node;
        point = pos 0;
        name = nl_decode name;
        location = nl_decode location;
        sysop = nl_decode sysop;
        phone = trim_space phone;
        baud = int_or_zero (parse_int (trim_space baud));
        flags = join (b',' ∷ []) more;
        node_type = p.node_type;
        active = p.active;
      })
      current

unfoldable pub parse_fields : Bytes → Current → List Bytes → LineResult
parse_fields network current (keyword ∷ num ∷ name ∷ location ∷ sysop ∷ phone ∷ baud ∷ more) =
    placed network (trim_space keyword)
      (place (to_lower (trim_space keyword)) (int_or_zero (parse_int (trim_space num))) current)
      name location sysop phone baud more
parse_fields network current _ = line_error short_line

unfoldable pub parse_nodelist_line : Bytes → Bytes → Current → LineResult
parse_nodelist_line line network current = parse_fields network current (split_at b',' [] line)

unfoldable pub nodelist_keyword : Bytes → Bytes
nodelist_keyword node_type =
    let low = to_lower (trim_space node_type) in
    if equal low (codes "zone")
    then codes "Zone"
    else if equal low (codes "region")
    then codes "Region"
    else if equal low (codes "host")
    then codes "Host"
    else if equal low (codes "hub")
    then codes "Hub"
    else if equal low (codes "pvt")
    then codes "Pvt"
    else if equal low (codes "hold")
    then codes "Hold"
    else if equal low (codes "down")
    then codes "Down"
    else if equal low (codes "boss")
    then codes "Boss"
    else []

-- `num` of `encodeHubNodeLine`, for the entry's type.
unfoldable pub line_number : Bytes → NodeEntry → ℤ
line_number type e =
    let low = to_lower type in
    if equal low (codes "zone")
    then e.zone
    else if equal low (codes "region")
    then e.net
    else if equal low (codes "host")
    then e.net
    else e.node

-- A line from its number on.
unfoldable pub number_and_fields : NodeEntry → Bytes → ℤ → Bytes
number_and_fields e phone baud =
    show_int (line_number e.node_type e)
    ++ (b','
        ∷ (nl_encode e.name
            ++ (b','
                ∷ (nl_encode e.location
                    ++ (b','
                        ∷ (nl_encode e.sysop
                            ++ (b','
                                ∷ (phone ++ (b',' ∷ (show_int baud ++ (b',' ∷ e.flags)))))))))))

-- `phone` and `baud` of `encodeHubNodeLine`
unfoldable pub line_phone : NodeEntry → Bytes
line_phone e = if equal e.phone [] then codes "-Unpublished-" else e.phone

unfoldable pub line_baud : NodeEntry → ℤ
line_baud e = if eqb_ℤ e.baud (pos 0) then pos 33600 else e.baud

unfoldable pub encode_hub_node_line : NodeEntry → Bytes
encode_hub_node_line e =
    let keyword = nodelist_keyword e.node_type in
    if equal keyword []
    then b',' ∷ number_and_fields e (line_phone e) (line_baud e)
    else keyword ++ (b',' ∷ number_and_fields e (line_phone e) (line_baud e))
