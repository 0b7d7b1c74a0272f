-- ===== src/Fido/Nodelist/Samples.antt =====
-- internal/fido/nodelistdiff.go and nodelistgen.go: the line of a hub with flags.
use virt_bbs.Prelude.{◌≡◌, refl, true, codes, [], equal, arith, List, ◌∷◌, Option, some, All}
use virt_bbs.Prelude.Int.{pos}
use virt_bbs.Prelude.Decimal.{show_int, show_nat, digits_of}
use virt_bbs.Fido.Strings.{trim_space, drop_while}
use virt_bbs.Fido.Nodelist.{
  NodeEntry, Current, entry, parse_nodelist_line, encode_hub_node_line, line_number, line_phone,
  line_baud, number_and_fields, nodelist_keyword, to_lower, nl_encode, replace_all,
}
use virt_bbs.Fido.Nodelist.RoundTrip.{
  hub, listed, after, IsListed, parse_nodelist_line-encode_hub_node_line, Kind, host,
}
use virt_bbs.Fido.Nodelist.Diff.{Statement, upsert_local_node, changed, apply_lines}
use virt_bbs.Fido.Nodelist.Diff.Entries.{lines_of, apply_lines-lines_of}
use virt_bbs.Fido.Strings.Trim.{IsSolid}

abbrev north : NodeEntry
north = record {
  network = codes "LovlyNet";
  zone = pos 227;
  net = pos 1;
  node = pos 10;
  point = pos 0;
  name = codes "North Hub";
  location = codes "Cape Town";
  sysop = codes "Bob";
  phone = [];
  baud = pos 0;
  flags = codes "CM,U";
  node_type = codes "Hub";
  active = true;
}

abbrev in_net : Current
in_net = record { zone = pos 227; net = pos 1 }

north_line :
    encode_hub_node_line north ≡ codes "Hub,10,North_Hub,Cape_Town,Bob,-Unpublished-,33600,CM,U"
unfolding encode_hub_node_line number_and_fields line_number line_phone line_baud nodelist_keyword
    to_lower trim_space drop_while equal nl_encode replace_all show_int show_nat digits_of
north_line = refl

north-IsListed : IsListed north
unfolding trim_space drop_while line_number to_lower equal
north-IsListed = (
  (cc, omega arith, refl),
  (cc, omega arith, refl),
  (cc, omega arith, refl),
  (tt, refl),
  omega arith,
  omega arith,
  refl,
)

parse_nodelist_line-encode_hub_node_line_example :
    parse_nodelist_line (encode_hub_node_line north) (codes "LovlyNet") in_net
    ≡ entry (listed north) (after north)
parse_nodelist_line-encode_hub_node_line_example =
    parse_nodelist_line-encode_hub_node_line hub in_net north refl refl (refl, refl) north-IsListed

abbrev first_host : NodeEntry
first_host = record {
  network = codes "LovlyNet";
  zone = pos 227;
  net = pos 1;
  node = pos 0;
  point = pos 0;
  name = codes "Lovly Host";
  location = codes "Internet";
  sysop = codes "Ann";
  phone = codes "-Unpublished-";
  baud = pos 33600;
  flags = [];
  node_type = codes "Host";
  active = true;
}

first_host-IsListed : IsListed first_host
unfolding trim_space drop_while line_number to_lower equal
first_host-IsListed = (
  (cc, omega arith, refl),
  (cc, omega arith, refl),
  (cc, omega arith, refl),
  (omega arith, refl),
  omega arith,
  omega arith,
  refl,
)

abbrev log : Statement → List Statement → Option (List Statement)
log st statements = some (st ∷ statements)

abbrev two_entries : List (Kind × NodeEntry)
two_entries = (host, first_host) ∷ (hub, north) ∷ []

abbrev in_zone : Current
in_zone = record { zone = pos 227; net = pos 227 }

north_flags : All IsSolid north.flags
north_flags = (refl, (refl, (refl, (refl, tt))))

apply_lines-lines_of_example :
    apply_lines log (codes "LovlyNet") (lines_of two_entries) in_zone 0 []
    ≡ changed 2 (upsert_local_node (listed north) ∷ upsert_local_node (listed first_host) ∷ [])
apply_lines-lines_of_example =
    apply_lines-lines_of log (codes "LovlyNet") in_zone two_entries 0 [] (
      refl,
      (refl, refl, first_host-IsListed, tt),
      (refl, refl),
      (refl, (refl, refl, north-IsListed, north_flags), (refl, refl), tt),
    )
