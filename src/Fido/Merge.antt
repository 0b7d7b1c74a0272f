-- ===== src/Fido/Merge.antt =====
-- internal/fido/address.go: `MergeAddrTokens` and `splitNetNode`.
pub mod Union
use virt_bbs.Prelude.{
  ℕ, Bool, false, ◌||◌, Option, none, some, List, [], ◌∷◌, ◌++◌, Bytes, equal, if◌then◌else◌,
}
use virt_bbs.Prelude.Int.{ℤ, pos, eqb_ℤ, ltb_ℤ}
use virt_bbs.Prelude.Decimal.{show_int, parse_int, int_or_zero}
use virt_bbs.Fido.Address.{Addr, cut}

-- Both numbers are 0 where there is no slash; a number is 0 where it is malformed.
unfoldable pub split_net_node : Bytes → ℤ × ℤ
split_net_node tok = elim (cut b'/' tok) [
  | none ↦ (pos 0, pos 0)
  | some (net, node) ↦ (int_or_zero (parse_int net), int_or_zero (parse_int node))
]

-- The order that `sort.Slice` is given.
unfoldable pub less : Bytes → Bytes → Bool
less a b =
    let (neta, nodea) = split_net_node a in
    let (netb, nodeb) = split_net_node b in
    if eqb_ℤ neta netb then ltb_ℤ nodea nodeb else ltb_ℤ neta netb

abbrev pub has : Bytes → List Bytes → Bool
has tok [] = false
has tok (t ∷ ts) = equal tok t || has tok ts

pub record Merge : Type 0 where
  pub seen : List Bytes
  pub out : List Bytes

-- The closure `add` behind `strings.TrimSpace`.
unfoldable pub add : Bytes → Merge → Merge
add tok m =
    if equal tok [] || has tok m.seen
    then m
    else record { seen = tok ∷ m.seen; out = m.out ++ (tok ∷ []) }

unfoldable pub self_token : Addr → Bytes
self_token self = show_int self.net ++ (b'/' ∷ show_int self.node)

module _ (trim_space : Bytes → Bytes) where
  -- The loop over `existing`.
  unfoldable pub add_all : List Bytes → Merge → Merge
  add_all [] m = m
  add_all (tok ∷ toks) m = add_all toks (add (trim_space tok) m)

  abbrev pub merged : List Bytes → Addr → List Bytes
  merged existing self =
      (add (trim_space (self_token self)) (add_all existing (record { seen = []; out = [] }))).out

  -- `sort` is `sort.Slice` with the order as an argument.
  unfoldable pub merge_addr_tokens :
      ((Bytes → Bytes → Bool) → List Bytes → List Bytes) → List Bytes → Addr → List Bytes
  merge_addr_tokens sort existing self = sort less (merged existing self)
