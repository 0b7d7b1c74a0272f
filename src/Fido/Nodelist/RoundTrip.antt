-- ===== src/Fido/Nodelist/RoundTrip.antt =====
-- internal/fido/nodelistdiff.go and nodelistgen.go: a line of a nodelist is read as it was written.
use virt_bbs.Prelude.{
  ◌≡◌, refl, sym, ap, subst, ◌∙◌, Bool, true, false, some, [], ◌∷◌, ◌++◌, Bytes, codes, equal,
  equal_iff, Bool-cases, inl, inr, arith,
}
use virt_bbs.Prelude.Int.{pos, IsInt64, eqb_ℤ}
use virt_bbs.Prelude.Decimal.{show_int}
use virt_bbs.Fido.Strings.{drop_while, trim_space, split_at}
use virt_bbs.Fido.Strings.Split.{Apart, join-split_at}
use virt_bbs.Fido.Nodelist.{
  NodeEntry, to_lower, nl_encode, Current, entry, Place, place, placed, parse_fields,
  parse_nodelist_line, nodelist_keyword, line_number, number_and_fields, line_phone, line_baud,
  encode_hub_node_line,
}
use virt_bbs.Fido.Nodelist.Fields.{
  IsField, nl_decode-nl_encode, shown_number, split-number_and_fields,
}

-- The types that the program gives to its entries.
pub data Kind : Type 0 where
  zone region host hub pvt hold down boss node : Kind

abbrev pub type_name : Kind → Bytes
type_name zone = codes "Zone"
type_name region = codes "Region"
type_name host = codes "Host"
type_name hub = codes "Hub"
type_name pvt = codes "Pvt"
type_name hold = codes "Hold"
type_name down = codes "Down"
type_name boss = codes "Boss"
type_name node = codes "Node"

abbrev pub is_active : Kind → Bool
is_active hold = false
is_active down = false
is_active _ = true

-- The lines before say in which zone and net an entry is, as far as its own line does not.
abbrev pub Follows : Kind → Current → NodeEntry → Type 0
Follows zone current e = (e.net ≡ e.zone) × (e.node ≡ pos 0)
Follows region current e = (current.zone ≡ e.zone) × (e.node ≡ pos 0)
Follows host current e = (current.zone ≡ e.zone) × (e.node ≡ pos 0)
Follows _ current e = (current.zone ≡ e.zone) × (current.net ≡ e.net)

abbrev placing : NodeEntry → Place
placing e = record {
  node_type = e.node_type;
  zone = e.zone;
  net = e.net;
  node = e.node;
  active = e.active;
}

abbrev pub after : NodeEntry → Current
after e = record { zone = e.zone; net = e.net }

place_kind :
    (kind : Kind) (current : Current) (e : NodeEntry)
    → e.node_type ≡ type_name kind
    → e.active ≡ is_active kind
    → Follows kind current e
    → place
        (to_lower (trim_space (nodelist_keyword (type_name kind))))
        (line_number (type_name kind) e)
        current
      ≡ some (placing e, after e)
unfolding place to_lower trim_space drop_while nodelist_keyword line_number equal
place_kind zone current e t a f = cc
place_kind region current e t a f = cc
place_kind host current e t a f = cc
place_kind hub current e t a f = cc
place_kind pvt current e t a f = cc
place_kind hold current e t a f = cc
place_kind down current e t a f = cc
place_kind boss current e t a f = cc
place_kind node current e t a f = cc

place-nodelist_keyword :
    (kind : Kind) (current : Current) (e : NodeEntry)
    → e.node_type ≡ type_name kind
    → e.active ≡ is_active kind
    → Follows kind current e
    → place
        (to_lower (trim_space (nodelist_keyword e.node_type)))
        (line_number e.node_type e)
        current
      ≡ some (placing e, after e)
place-nodelist_keyword kind current e t a f =
    ap (λ type. place (to_lower (trim_space (nodelist_keyword type))) (line_number type e) current)
      t
    ∙ place_kind kind current e t a f

-- A text without a comma, with no blank at an end; it may be empty.
abbrev pub IsPlainField : Bytes → Type 0
IsPlainField s = Apart b',' s × (trim_space s ≡ s)

line_phone-IsPlainField : (e : NodeEntry) → IsPlainField e.phone → IsPlainField (line_phone e)
unfolding line_phone trim_space drop_while
line_phone-IsPlainField e h = elim (Bool-cases (equal e.phone [])) [
  | inl k ↦ rw k (omega arith, refl)
  | inr k ↦ rw k h
]

line_baud-IsInt64 : (e : NodeEntry) → IsInt64 e.baud → IsInt64 (line_baud e)
unfolding line_baud
line_baud-IsInt64 e h = elim (Bool-cases (eqb_ℤ e.baud (pos 0))) [
  | inl k ↦ rw k (omega arith)
  | inr k ↦ rw k h
]

keyword_without_comma : (kind : Kind) → Apart b',' (nodelist_keyword (type_name kind))
unfolding nodelist_keyword to_lower trim_space drop_while equal
keyword_without_comma zone = omega arith
keyword_without_comma region = omega arith
keyword_without_comma host = omega arith
keyword_without_comma hub = omega arith
keyword_without_comma pvt = omega arith
keyword_without_comma hold = omega arith
keyword_without_comma down = omega arith
keyword_without_comma boss = omega arith
keyword_without_comma node = omega arith

nodelist_keyword-Apart :
    (kind : Kind) (type : Bytes) → type ≡ type_name kind → Apart b',' (nodelist_keyword type)
nodelist_keyword-Apart kind type t =
    subst (λ s. Apart b',' (nodelist_keyword s)) (sym t) (keyword_without_comma kind)

-- An empty keyword writes the same line.
pub encode_hub_node_line-keyword :
    (e : NodeEntry)
    → encode_hub_node_line e
      ≡ nodelist_keyword e.node_type ++ (b',' ∷ number_and_fields e (line_phone e) (line_baud e))
unfolding encode_hub_node_line
encode_hub_node_line-keyword e = elim (Bool-cases (equal (nodelist_keyword e.node_type) [])) [
  | inl k ↦ rw k (
      ap (λ (s : Bytes). s ++ (b',' ∷ number_and_fields e (line_phone e) (line_baud e)))
        (sym ((equal_iff (nodelist_keyword e.node_type) []).0 k)))
  | inr k ↦ rw k refl
]

-- An entry that the program writes a line for: texts that fit their fields, and numbers of 64 bits.
abbrev pub IsListed : NodeEntry → Type 0
IsListed e =
    IsField e.name
    × IsField e.location
    × IsField e.sysop
    × IsPlainField e.phone
    × IsInt64 e.baud
    × IsInt64 (line_number e.node_type e)
    × (e.point ≡ pos 0)

-- The entry that a line holds: with a number and a speed in any case.
abbrev pub listed : NodeEntry → NodeEntry
listed e = record e { phone = line_phone e; baud = line_baud e }

placed-listed :
    (e : NodeEntry) (keyword : Bytes)
    → IsListed e
    → placed e.network keyword
        (some (placing e, after e))
        (nl_encode e.name)
        (nl_encode e.location)
        (nl_encode e.sysop)
        (line_phone e)
        (show_int (line_baud e))
        (split_at b',' [] e.flags)
      ≡ entry (listed e) (after e)
unfolding placed
placed-listed e keyword (hn, hl, hs, hp, hb, hz, h0) =
    rw
      (
        nl_decode-nl_encode e.name hn,
        nl_decode-nl_encode e.location hl,
        nl_decode-nl_encode e.sysop hs,
        (line_phone-IsPlainField e hp).1,
        shown_number (line_baud e) (line_baud-IsInt64 e hb),
        join-split_at b',' [] e.flags,
        h0,
      )
      refl

parse_fields-listed :
    (kind : Kind) (current : Current) (e : NodeEntry)
    → e.node_type ≡ type_name kind
    → e.active ≡ is_active kind
    → Follows kind current e
    → IsListed e
    → parse_fields e.network current (
        nodelist_keyword e.node_type
        ∷ show_int (line_number e.node_type e)
        ∷ nl_encode e.name
        ∷ nl_encode e.location
        ∷ nl_encode e.sysop
        ∷ line_phone e
        ∷ show_int (line_baud e)
        ∷ split_at b',' [] e.flags)
      ≡ entry (listed e) (after e)
unfolding parse_fields
parse_fields-listed kind current e t a f h =
    rw (shown_number (line_number e.node_type e) h.5, place-nodelist_keyword kind current e t a f)
      (placed-listed e (trim_space (nodelist_keyword e.node_type)) h)

-- The line that encodeHubNodeLine writes for an entry is read by parseNodelistLine as that entry,
-- whatever its flags are, with "-Unpublished-" for an empty phone and 33600 for a speed of 0. The
-- zone and the net of the lines that follow are then those of the entry. Conditions: the entry has
-- one of the nine types, is active unless its type is Hold or Down, has no point, is number 0 if its
-- type is Zone, Region or Host, and is in the zone and the net that the lines before say, as far as
-- its own line does not (for a Zone, the net is the zone). Its name, location and sysop are printable
-- ASCII, not empty, without a comma, an underscore or a blank at an end; its phone has no comma and
-- no blank at an end; and its numbers have 64 bits.
pub parse_nodelist_line-encode_hub_node_line :
    (kind : Kind) (current : Current) (e : NodeEntry)
    → e.node_type ≡ type_name kind
    → e.active ≡ is_active kind
    → Follows kind current e
    → IsListed e
    → parse_nodelist_line (encode_hub_node_line e) e.network current ≡ entry (listed e) (after e)
unfolding parse_nodelist_line
parse_nodelist_line-encode_hub_node_line kind current e t a f (hn, hl, hs, hp, hb, hz, h0) =
    ap (λ s. parse_fields e.network current (split_at b',' [] s)) (encode_hub_node_line-keyword e)
    ∙ ap (parse_fields e.network current) (
        split-number_and_fields e (nodelist_keyword e.node_type) (line_phone e) (line_baud e)
          (nodelist_keyword-Apart kind e.node_type t) hn hl hs (line_phone-IsPlainField e hp).0)
    ∙ parse_fields-listed kind current e t a f (hn, hl, hs, hp, hb, hz, h0)
