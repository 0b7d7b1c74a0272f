-- ===== src/Fido/Nodelist/Diff/Entries.antt =====
-- internal/fido/nodelistdiff.go: the lines of entries, as `ApplyNodelistDiff` applies them.
use virt_bbs.Prelude.{
  ◌≡◌, refl, sym, ap, subst, ◌∙◌, Option-cases, inl, inr, ℕ, suc, false, Option, none, some, List,
  [], ◌∷◌, ◌++◌, append_assoc, Bytes, codes, equal, ◌==◌, All,
}
use virt_bbs.Fido.Strings.{trim_space, drop_while}
use virt_bbs.Fido.Strings.Trim.{IsSolid, trim_space_solid}
use virt_bbs.Prelude.Decimal.{show_int}
use virt_bbs.Prelude.Int.{ℤ}
use virt_bbs.Fido.Nodelist.{
  NodeEntry, to_lower, nl_encode, Current, parse_nodelist_line, nodelist_keyword, line_number,
  number_and_fields, line_phone, line_baud, encode_hub_node_line,
}
use virt_bbs.Fido.Nodelist.RoundTrip.{
  Kind, zone, region, host, hub, pvt, hold, down, boss, node, type_name, is_active, Follows, after,
  IsListed, listed, encode_hub_node_line-keyword, parse_nodelist_line-encode_hub_node_line,
}
use virt_bbs.Fido.Nodelist.Diff.{
  Statement, upsert_local_node, addition, read_line, Outcome, changed, failed, apply_lines,
}

abbrev EndsIn : Bytes → Bytes → Type 0
EndsIn tail s = (front : Bytes) × (s ≡ front ++ tail)

longer : (tail s rest : Bytes) → EndsIn tail rest → EndsIn tail (s ++ (b',' ∷ rest))
longer tail s rest (front, e) = (
  s ++ (b',' ∷ front),
  ap (λ (t : Bytes). s ++ (b',' ∷ t)) e ∙ sym (append_assoc s (b',' ∷ front) tail),
)

number_and_fields-EndsIn :
    (e : NodeEntry) (phone : Bytes) (baud : ℤ)
    → EndsIn (b',' ∷ e.flags) (number_and_fields e phone baud)
unfolding number_and_fields
number_and_fields-EndsIn e phone baud =
    let tail = b',' ∷ e.flags in
    longer tail (show_int (line_number e.node_type e)) _ (
      longer tail (nl_encode e.name) _ (
        longer tail (nl_encode e.location) _
          (longer tail (nl_encode e.sysop) _ (longer tail phone _ (show_int baud, refl)))))

-- How the line of an entry starts and ends.
abbrev Shape : Bytes → Bytes → Type 0
Shape tail line =
    (c : ℕ) × (s : Bytes) × (line ≡ c ∷ (s ++ tail))
    × IsSolid c
    × ((c == b';') ≡ false)
    × ((c == b'-') ≡ false)

keyword_start :
    (kind : Kind) (tail front : Bytes)
    → Shape tail (nodelist_keyword (type_name kind) ++ (b',' ∷ (front ++ tail)))
unfolding nodelist_keyword to_lower trim_space drop_while equal
keyword_start zone tail front = (b'Z', codes "one," ++ front, refl, refl, refl, refl)
keyword_start region tail front = (b'R', codes "egion," ++ front, refl, refl, refl, refl)
keyword_start host tail front = (b'H', codes "ost," ++ front, refl, refl, refl, refl)
keyword_start hub tail front = (b'H', codes "ub," ++ front, refl, refl, refl, refl)
keyword_start pvt tail front = (b'P', codes "vt," ++ front, refl, refl, refl, refl)
keyword_start hold tail front = (b'H', codes "old," ++ front, refl, refl, refl, refl)
keyword_start down tail front = (b'D', codes "own," ++ front, refl, refl, refl, refl)
keyword_start boss tail front = (b'B', codes "oss," ++ front, refl, refl, refl, refl)
keyword_start node tail front = (b',', front, refl, refl, refl, refl)

encode_hub_node_line-Shape :
    (kind : Kind) (e : NodeEntry)
    → e.node_type ≡ type_name kind
    → Shape (b',' ∷ e.flags) (encode_hub_node_line e)
encode_hub_node_line-Shape kind e t =
    let (front, k) = number_and_fields-EndsIn e (line_phone e) (line_baud e) in
    subst (Shape (b',' ∷ e.flags))
      (sym (
        encode_hub_node_line-keyword e
        ∙ ap
            (λ type.
              nodelist_keyword type ++ (b',' ∷ number_and_fields e (line_phone e) (line_baud e)))
            t
        ∙ ap (λ (s : Bytes). nodelist_keyword (type_name kind) ++ (b',' ∷ s)) k))
      (keyword_start kind (b',' ∷ e.flags) front)

-- An entry with its type, as the generator writes it; its flags have no blank.
abbrev pub IsEntry : Kind → NodeEntry → Type 0
IsEntry kind e =
    (e.node_type ≡ type_name kind) × (e.active ≡ is_active kind) × IsListed e × All IsSolid e.flags

trim_space-encode_hub_node_line :
    (kind : Kind) (e : NodeEntry)
    → IsEntry kind e
    → trim_space (encode_hub_node_line e) ≡ encode_hub_node_line e
trim_space-encode_hub_node_line kind e (t, a, h, solid) =
    let (c, s, k, start, comment, minus) = encode_hub_node_line-Shape kind e t in
    ap trim_space k ∙ trim_space_solid c s (b',' ∷ e.flags) start (cc) (refl, solid) ∙ sym k

read_line_entry :
    (network : Bytes) (current : Current) (tail line : Bytes)
    → Shape tail line
    → read_line network line current ≡ addition (parse_nodelist_line line network current) current
unfolding read_line
read_line_entry network current tail line (c, s, k, start, comment, minus) =
    subst
      (λ (t : Bytes).
        read_line network t current ≡ addition (parse_nodelist_line t network current) current)
      (sym k) (rw (comment, minus) refl)

read_line-encode_hub_node_line :
    (kind : Kind) (current : Current) (e : NodeEntry)
    → IsEntry kind e
    → Follows kind current e
    → read_line e.network (trim_space (encode_hub_node_line e)) current
      ≡ (some (upsert_local_node (listed e)), after e)
read_line-encode_hub_node_line kind current e h f =
    let (t, a, l, solid) = h in
    ap (λ s. read_line e.network s current) (trim_space-encode_hub_node_line kind e h)
    ∙ read_line_entry e.network current (b',' ∷ e.flags) (encode_hub_node_line e)
        (encode_hub_node_line-Shape kind e t)
    ∙ ap (λ r. addition r current) (parse_nodelist_line-encode_hub_node_line kind current e t a f l)

read_entry :
    (network : Bytes) (kind : Kind) (current : Current) (e : NodeEntry)
    → e.network ≡ network
    → IsEntry kind e
    → Follows kind current e
    → read_line network (trim_space (encode_hub_node_line e)) current
      ≡ (some (upsert_local_node (listed e)), after e)
read_entry network kind current e same h f =
    ap (λ (t : Bytes). read_line t (trim_space (encode_hub_node_line e)) current) (sym same)
    ∙ read_line-encode_hub_node_line kind current e h f

-- Entries of a network in order: each in the zone and the net that the entries before it leave.
abbrev pub InOrder : Bytes → Current → List (Kind × NodeEntry) → Type 0
InOrder network current [] = Unit
InOrder network current ((kind, e) ∷ entries) =
    (e.network ≡ network)
    × IsEntry kind e
    × Follows kind current e
    × InOrder network (after e) entries

abbrev pub lines_of : List (Kind × NodeEntry) → List Bytes
lines_of [] = []
lines_of ((kind, e) ∷ entries) = encode_hub_node_line e ∷ lines_of entries

module _ {Db : Type 0} (exec : Statement → Db → Option Db) where
  -- The entries are stored one after the other, up to the first statement that fails.
  abbrev pub stored : List (Kind × NodeEntry) → ℕ → Db → Outcome exec
  stored [] n db = changed n db
  stored ((kind, e) ∷ entries) n db = elim (exec (upsert_local_node (listed e)) db) [
    | none ↦ failed db
    | some next ↦ stored entries (suc n) next
  ]

  -- ApplyNodelistDiff, given the lines that encodeHubNodeLine writes for the entries of a network,
  -- stores these entries, each as its line holds it, in their order and with nothing left out,
  -- up to the first statement that the database fails; it adds the number of the entries to the
  -- changes, or returns that error. Conditions: each entry is one that its line holds, its flags
  -- have no blank, and it is in the zone and the net that the entries before it leave.
  pub apply_lines-lines_of :
      (network : Bytes) (current : Current) (entries : List (Kind × NodeEntry)) (n : ℕ) (db : Db)
      → InOrder network current entries
      → apply_lines exec network (lines_of entries) current n db ≡ stored entries n db
  unfolding apply_lines
  apply_lines-lines_of network current [] n db h = refl
  apply_lines-lines_of network current ((kind, e) ∷ entries) n db (same, h, f, more) =
      let read = read_entry network kind current e same h f in
      rw (read, apply_lines)
        (elim (Option-cases (exec (upsert_local_node (listed e)) db)) [
          | inl k ↦ rw (k, stored) refl
          | inr (next, k) ↦
              rw (k, stored)
                (ap (λ r. apply_lines exec network (lines_of entries) r.1 (suc n) next) read
                  ∙ apply_lines-lines_of network (after e) entries (suc n) next more)
        ])
