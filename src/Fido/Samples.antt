-- ===== src/Fido/Samples.antt =====
-- Addresses, tokens and routes at concrete inputs.
use virt_bbs.Prelude.{
  String, false, true, ◌++◌, some, Bool, List, [], ◌∷◌, map, if◌then◌else◌, equal, ◌≡◌, refl, Bytes,
  codes, arith,
}
use virt_bbs.Prelude.Int.{pos}
use virt_bbs.Prelude.Decimal.{show_int, show_nat, digits_of, parse_int, digits_value}
use virt_bbs.Fido.Address.{
  Addr, address, refused, missing_separator, no_addr, to_string, boss_string, parse_addr,
  parse_point, parse_zone, parse_net, cut,
}
use virt_bbs.Fido.Address.RoundTrip.{parse_addr-to_string}
use virt_bbs.Fido.Merge.{less, split_net_node, add, add_all, self_token, merge_addr_tokens}
use virt_bbs.Fido.Merge.Union.{count, once_if, is_new, merge_addr_tokens-count}
use virt_bbs.Fido.Routes.{
  Route, match_route, consider_all, consider, pattern_matches, pattern_specificity, cut_star,
}
use virt_bbs.Fido.Routes.Best.{IsBest, match_route-IsBest}
use virt_bbs.Fido.Routes.Patterns.{star, zone_net, pattern_matches-forms}

abbrev same : Bytes → Bytes
same s = s

abbrev home : Addr
home = record { zone = pos 2; net = pos 5020; node = pos 1042; point = pos 7 }

home_text : to_string home ≡ codes "2:5020/1042.7"
unfolding to_string boss_string show_int show_nat digits_of
home_text = refl

no_node_refused :
    parse_addr same (codes "2:5020")
    ≡ refused missing_separator (codes "5020") (record no_addr { zone = pos 2 })
unfolding parse_addr parse_point parse_zone parse_net cut parse_int digits_value
no_node_refused = refl

parse_addr-to_string_example : parse_addr same (to_string home) ≡ address home
parse_addr-to_string_example =
    parse_addr-to_string same home (λ s h. refl)
      (
        (omega arith, omega arith),
        (omega arith, omega arith),
        (omega arith, omega arith),
        (omega arith, omega arith),
      )

-- An insertion sort in place of `sort.Slice`.
insert : (Bytes → Bytes → Bool) → Bytes → List Bytes → List Bytes
insert less tok [] = tok ∷ []
insert less tok (t ∷ toks) =
    let later = insert less tok toks in if less tok t then tok ∷ t ∷ toks else t ∷ later

sorted : (Bytes → Bytes → Bool) → List Bytes → List Bytes
unfolding insert
sorted less [] = []
sorted less (t ∷ toks) = insert less t (sorted less toks)

insert-count :
    (less : Bytes → Bytes → Bool) (t : Bytes) (toks : List Bytes) (tok : Bytes)
    → count tok (insert less t toks) ≡ count tok (t ∷ toks)
unfolding insert
insert-count less t [] tok = refl
insert-count less t (s ∷ toks) tok = ground (arith, insert-count less t toks tok)

sorted-count :
    (less : Bytes → Bytes → Bool) (toks : List Bytes) (tok : Bytes)
    → count tok (sorted less toks) ≡ count tok toks
unfolding sorted
sorted-count less [] tok = refl
sorted-count less (t ∷ toks) tok =
    omega (arith, insert-count less t (sorted less toks) tok, sorted-count less toks tok)

abbrev seen_by : List Bytes
seen_by = codes "5020/2000" ∷ codes "5000/76" ∷ codes "5020/1042" ∷ codes "5000/76" ∷ []

merged_tokens :
    merge_addr_tokens same sorted seen_by home
    ≡ codes "5000/76" ∷ codes "5020/1042" ∷ codes "5020/2000" ∷ []
unfolding merge_addr_tokens add_all add self_token less split_net_node cut sorted insert equal
    parse_int digits_value show_int show_nat digits_of
merged_tokens = refl

merge_addr_tokens-count_example :
    count (codes "5000/76") (merge_addr_tokens same sorted seen_by home)
    ≡ once_if (is_new (codes "5000/76") (same (self_token home) ∷ map same seen_by))
merge_addr_tokens-count_example =
    merge_addr_tokens-count same sorted seen_by home (sorted-count less) (codes "5000/76")

abbrev route : String → String → Route
route pattern to = record {
  id = pos 1;
  network = codes "FidoNet";
  pattern = codes pattern;
  route_to = codes to;
  is_default = false;
  created_at = [];
}

abbrev routes : List Route
routes =
    route "*" "2:5020/0"
    ∷ route "2:5020/*" "2:5020/1"
    ∷ route "2:5020/*" "2:5020/2"
    ∷ route "1:*" "1:1/0"
    ∷ []

home_routed : match_route same routes home ≡ some (route "2:5020/*" "2:5020/1")
unfolding match_route consider_all consider pattern_matches pattern_specificity cut_star equal
    parse_addr parse_point parse_zone parse_net cut parse_int digits_value
home_routed = refl

match_route-IsBest_example : IsBest same home routes (match_route same routes home)
match_route-IsBest_example = match_route-IsBest same home routes

pattern_matches-forms_example :
    (pattern_matches same (show_int (pos 2) ++ star b':') home ≡ true)
    × (pattern_matches same (zone_net home ++ star b'/') home ≡ true)
    × (pattern_matches same (boss_string home) home ≡ true)
pattern_matches-forms_example =
    pattern_matches-forms same (λ s h. refl) home home
      (
        (omega arith, omega arith),
        (omega arith, omega arith),
        (omega arith, omega arith),
        (omega arith, omega arith),
      )
