-- ===== src/Fido/Address.antt =====
-- internal/fido/address.go: addresses, their texts, and `ParseAddr`.
pub mod RoundTrip
use virt_bbs.Prelude.{ℕ, ◌==◌, Bool, ◌&&◌, Option, none, some, [], ◌∷◌, ◌++◌, Bytes, if◌then◌else◌}
use virt_bbs.Prelude.Int.{ℤ, pos, eqb_ℤ}
use virt_bbs.Prelude.Decimal.{show_int, atoi}

pub record Addr : Type 0 where
  pub zone : ℤ
  pub net : ℤ
  pub node : ℤ
  pub point : ℤ

-- `strings.Index` of one byte, with the slices before and behind it.
unfoldable pub cut : ℕ → Bytes → Option (Bytes × Bytes)
cut c [] = none
cut c (x ∷ s) =
    let later : Option (Bytes × Bytes) = elim (cut c s) [
      | none ↦ none
      | some (front, back) ↦ some (x ∷ front, back)
    ] in
    if x == c then some ([], s) else later

unfoldable pub boss_string : Addr → Bytes
boss_string a = show_int a.zone ++ (b':' ∷ (show_int a.net ++ (b'/' ∷ show_int a.node)))

unfoldable pub to_string : Addr → Bytes
to_string a =
    if eqb_ℤ a.point (pos 0)
    then boss_string a
    else show_int a.zone
      ++ (b':' ∷ (show_int a.net ++ (b'/' ∷ (show_int a.node ++ (b'.' ∷ show_int a.point)))))

unfoldable pub equal_addr : Addr → Addr → Bool
equal_addr a b =
    eqb_ℤ a.zone b.zone && eqb_ℤ a.net b.net && eqb_ℤ a.node b.node && eqb_ℤ a.point b.point

pub data Refusal : Type 0 where
  invalid_point missing_zone invalid_zone missing_separator invalid_net invalid_node : Refusal

-- An address; or the error, with the text that it shows and the address so far, which Go returns
-- beside it.
pub data Reading : Type 0 where
  address : Addr → Reading
  refused : Refusal → Bytes → Addr → Reading

abbrev pub no_addr : Addr
no_addr = record { zone = pos 0; net = pos 0; node = pos 0; point = pos 0 }

-- `s[slash+1:]` and what is returned
parse_node : Addr → ℤ → Bytes → Bytes → Reading
parse_node a net s back = elim (atoi back) [
  | none ↦ refused invalid_node s a
  | some node ↦ address (record a { net = net; node = node })
]

-- "Split Net/Node"
unfoldable pub parse_net : Addr → Bytes → Reading
unfolding parse_node
parse_net a s = elim (cut b'/' s) [
  | none ↦ refused missing_separator s a
  | some (front, back) ↦ elim (atoi front) [
    | none ↦ refused invalid_net s a
    | some net ↦ parse_node a net s back
  ]
]

-- "Split Zone:Rest"
unfoldable pub parse_zone : Addr → Bytes → Reading
parse_zone a s = elim (cut b':' s) [
  | none ↦ refused missing_zone s a
  | some (front, back) ↦ elim (atoi front) [
    | none ↦ refused invalid_zone s a
    | some zone ↦ parse_net (record a { zone = zone }) back
  ]
]

-- "Split on '.' for point", behind `strings.TrimSpace`
unfoldable pub parse_point : Bytes → Reading
parse_point s = elim (cut b'.' s) [
  | none ↦ parse_zone no_addr s
  | some (front, back) ↦ elim (atoi back) [
    | none ↦ refused invalid_point s no_addr
    | some point ↦ parse_zone (record no_addr { point = point }) front
  ]
]

module _ (trim_space : Bytes → Bytes) where
  unfoldable pub parse_addr : Bytes → Reading
  parse_addr s = parse_point (trim_space s)
