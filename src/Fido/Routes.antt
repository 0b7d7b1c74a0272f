-- ===== src/Fido/Routes.antt =====
-- internal/fido/routes.go: the patterns of the routing table and the choice of a route.
pub mod Best
pub mod Patterns
use virt_bbs.Prelude.{
  ℕ, Bool, true, false, ◌&&◌, Option, none, some, List, [], ◌∷◌, ◌++◌, Bytes, equal, if◌then◌else◌,
}
use virt_bbs.Prelude.Int.{ℤ, pos, negsuc, eqb_ℤ, ltb_ℤ}
use virt_bbs.Prelude.Decimal.{atoi}
use virt_bbs.Fido.Address.{Addr, Refusal, Reading, address, refused, parse_addr}

pub record Route : Type 0 where
  pub id : ℤ
  pub network : Bytes
  pub pattern : Bytes
  pub route_to : Bytes
  pub is_default : Bool
  pub created_at : Bytes

-- `strings.HasSuffix` and `strings.TrimSuffix` with a separator and a star.
unfoldable pub cut_star : ℕ → Bytes → Option Bytes
cut_star sep [] = none
cut_star sep (x ∷ s) =
    let later : Option Bytes = elim (cut_star sep s) [
      | none ↦ none
      | some front ↦ some (x ∷ front)
    ] in
    if equal (x ∷ s) (sep ∷ b'*' ∷ []) then some [] else later

abbrev is_some : Option Bytes → Bool
is_some none = false
is_some (some s) = true

unfoldable pub pattern_specificity : Bytes → ℕ
pattern_specificity pattern =
    if equal pattern (b'*' ∷ [])
    then 0
    else if is_some (cut_star b':' pattern)
    then 1
    else if is_some (cut_star b'/' pattern)
    then 2
    else 3

abbrev zone_matches : Option ℤ → Addr → Bool
zone_matches none dest = false
zone_matches (some zone) dest = eqb_ℤ zone dest.zone

abbrev net_matches : Reading → Addr → Bool
net_matches (refused e s a) dest = false
net_matches (address a) dest = eqb_ℤ a.zone dest.zone && eqb_ℤ a.net dest.net

abbrev node_matches : Reading → Addr → Bool
node_matches (refused e s a) dest = false
node_matches (address a) dest =
    eqb_ℤ a.zone dest.zone && eqb_ℤ a.net dest.net && eqb_ℤ a.node dest.node

pub record Choice : Type 0 where
  pub best : Option Route
  pub best_score : ℤ

module _ (trim_space : Bytes → Bytes) where
  unfoldable pub pattern_matches : Bytes → Addr → Bool
  pattern_matches pattern dest =
      if equal pattern (b'*' ∷ []) then true else elim (cut_star b':' pattern) [
        | some zone ↦ zone_matches (atoi zone) dest
        | none ↦ elim (cut_star b'/' pattern) [
          | some zone_net ↦
              net_matches (parse_addr trim_space (zone_net ++ (b'/' ∷ b'0' ∷ []))) dest
          | none ↦ node_matches (parse_addr trim_space pattern) dest
        ]
      ]

  -- A round of the loop of `MatchRoute`.
  unfoldable pub consider : Addr → Route → Choice → Choice
  consider dest r c =
      if pattern_matches r.pattern dest
      then (if ltb_ℤ c.best_score (pos (pattern_specificity r.pattern))
          then record { best = some r; best_score = pos (pattern_specificity r.pattern) }
          else c)
      else c

  unfoldable pub consider_all : Addr → List Route → Choice → Choice
  consider_all dest [] c = c
  consider_all dest (r ∷ routes) c = consider_all dest routes (consider dest r c)

  unfoldable pub match_route : List Route → Addr → Option Route
  match_route routes dest =
      (consider_all dest routes (record { best = none; best_score = negsuc 0 })).best
