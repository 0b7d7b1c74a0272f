-- ===== src/Fido/Routes/Patterns.antt =====
-- internal/fido/routes.go: `patternMatches` on the forms of a pattern that its comment names.
use virt_bbs.Prelude.{
  ◌≡◌, ◌≢◌, refl, sym, ap, ◌∙◌, ℕ, false, ◌&&◌, none, some, [], ◌∷◌, ◌++◌, Bytes, equal, All,
  All-append, append_assoc, arith,
}
use virt_bbs.Prelude.Int.{ℤ, pos, IsInt64, eqb_ℤ}
use virt_bbs.Prelude.Decimal.{show_int, show_nat, digits_of}
use virt_bbs.Fido.Address.{Addr, address, boss_string, to_string, parse_addr, parse_point}
use virt_bbs.Fido.Address.RoundTrip.{
  IsPlain, InRange, boss_string-All, shown-IsPlain, parse_point-to_string, atoi-show_int,
  to_string-boss_string,
}
use virt_bbs.Fido.Routes.{cut_star, pattern_matches}

abbrev pub star : ℕ → Bytes
star sep = sep ∷ b'*' ∷ []

append-ne_nil : (s : Bytes) (c : ℕ) (t : Bytes) → equal (s ++ (c ∷ t)) [] ≡ false
unfolding equal
append-ne_nil [] c t = refl
append-ne_nil (x ∷ s) c t = refl

cut_star-here : (sep : ℕ) (s : Bytes) → cut_star sep (s ++ star sep) ≡ some s
unfolding cut_star equal
cut_star-here sep [] = ground arith
cut_star-here sep (x ∷ []) = ground (arith, cut_star-here sep [])
cut_star-here sep (x ∷ y ∷ s) =
    ground (arith, cut_star-here sep (y ∷ s), append-ne_nil s sep (b'*' ∷ []))

cut_star-other :
    (sep sep1 : ℕ) (s : Bytes)
    → sep1 ≢ sep
    → All (λ b. b ≢ b'*') s
    → cut_star sep (s ++ star sep1) ≡ none
unfolding cut_star equal
cut_star-other sep sep1 [] h k = ground arith
cut_star-other sep sep1 (x ∷ []) h k = ground (arith, h, k, cut_star-other sep sep1 [] h tt)
cut_star-other sep sep1 (x ∷ y ∷ s) h k =
    ground (arith, h, k, cut_star-other sep sep1 (y ∷ s) h k.1, append-ne_nil s sep1 (b'*' ∷ []))

cut_star-absent : (sep : ℕ) (s : Bytes) → All (λ b. b ≢ b'*') s → cut_star sep s ≡ none
unfolding cut_star equal
cut_star-absent sep [] h = refl
cut_star-absent sep (x ∷ []) h = ground arith
cut_star-absent sep (x ∷ y ∷ s) h = ground (arith, h, cut_star-absent sep (y ∷ s) h.1)

no_lone_star : (sep : ℕ) (s : Bytes) → equal (s ++ star sep) (b'*' ∷ []) ≡ false
unfolding equal
no_lone_star sep [] = ground arith
no_lone_star sep (x ∷ s) = ground (arith, append-ne_nil s sep (b'*' ∷ []))

plain-ne_star : (s : Bytes) → All IsPlain s → All (λ b. b ≢ b'*') s
plain-ne_star [] h = tt
plain-ne_star (c ∷ s) h = (omega (arith, h.0), plain-ne_star s h.1)

plain_no_star : (s : Bytes) → All IsPlain s → equal s (b'*' ∷ []) ≡ false
unfolding equal
plain_no_star [] h = refl
plain_no_star (c ∷ s) h = ground (arith, h)

-- `zone:net`
pub zone_net : Addr → Bytes
zone_net a = show_int a.zone ++ (b':' ∷ show_int a.net)

zone_net-boss_string :
    (a : Addr) → zone_net a ++ (b'/' ∷ b'0' ∷ []) ≡ boss_string (record a { node = pos 0 })
unfolding zone_net boss_string show_int show_nat digits_of
zone_net-boss_string a = append_assoc (show_int a.zone) (b':' ∷ show_int a.net) (b'/' ∷ b'0' ∷ [])

zone_net-IsPlain : (a : Addr) → All IsPlain (zone_net a)
unfolding zone_net
zone_net-IsPlain a =
    All-append IsPlain (show_int a.zone) (b':' ∷ show_int a.net) (shown-IsPlain a.zone)
      (omega arith, shown-IsPlain a.net)

module _ (trim_space : Bytes → Bytes) (trims : (s : Bytes) → All IsPlain s → trim_space s ≡ s)
    (dest : Addr) where
  parse_boss :
      (a : Addr)
      → InRange a
      → parse_addr trim_space (boss_string a) ≡ address (record a { point = pos 0 })
  unfolding parse_addr boss_string to_string
  parse_boss a h =
      ap parse_point (
        trims (boss_string a) (boss_string-All IsPlain a shown-IsPlain (omega arith) (omega arith))
        ∙ sym (to_string-boss_string (record a { point = pos 0 }) refl))
      ∙ parse_point-to_string (record a { point = pos 0 })
          (h.0, h.1, h.2, (omega arith, omega arith))

  matches-zone :
      (zone : ℤ)
      → IsInt64 zone
      → pattern_matches trim_space (show_int zone ++ star b':') dest ≡ eqb_ℤ zone dest.zone
  unfolding pattern_matches
  matches-zone zone h = ground (
    arith,
    no_lone_star b':' (show_int zone),
    cut_star-here b':' (show_int zone),
    atoi-show_int zone h,
  )

  matches-node :
      (a : Addr)
      → InRange a
      → pattern_matches trim_space (boss_string a) dest
        ≡ (eqb_ℤ a.zone dest.zone && eqb_ℤ a.net dest.net && eqb_ℤ a.node dest.node)
  unfolding pattern_matches
  matches-node a h =
      let plain = boss_string-All IsPlain a shown-IsPlain (omega arith) (omega arith) in
      ground (
        arith,
        plain_no_star (boss_string a) plain,
        cut_star-absent b':' (boss_string a) (plain-ne_star (boss_string a) plain),
        cut_star-absent b'/' (boss_string a) (plain-ne_star (boss_string a) plain),
        parse_boss a h,
      )

  matches-net :
      (a : Addr)
      → InRange a
      → pattern_matches trim_space (zone_net a ++ star b'/') dest
        ≡ (eqb_ℤ a.zone dest.zone && eqb_ℤ a.net dest.net)
  unfolding pattern_matches
  matches-net a (hzone, hnet, hnode, hpoint) = ground (
    arith,
    no_lone_star b'/' (zone_net a),
    cut_star-other b':' b'/' (zone_net a) (omega arith)
        (plain-ne_star (zone_net a) (zone_net-IsPlain a)),
    cut_star-here b'/' (zone_net a),
    ap (parse_addr trim_space) (zone_net-boss_string a),
    parse_boss (record a { node = pos 0 }) (hzone, hnet, (omega arith, omega arith), hpoint),
  )

  -- For 64-bit numbers, and if trimming leaves plain texts as they are: the pattern of a zone, `zone:*`, matches the
  -- destinations in that zone; that of a net, `zone:net/*`, those in that net of that zone; and an
  -- address those with its zone, net and node, whatever the point is.
  pub pattern_matches-forms :
      (a : Addr)
      → InRange a
      → (pattern_matches trim_space (show_int a.zone ++ star b':') dest ≡ eqb_ℤ a.zone dest.zone)
        × (pattern_matches trim_space (zone_net a ++ star b'/') dest
            ≡ (eqb_ℤ a.zone dest.zone && eqb_ℤ a.net dest.net))
        × (pattern_matches trim_space (boss_string a) dest
            ≡ (eqb_ℤ a.zone dest.zone && eqb_ℤ a.net dest.net && eqb_ℤ a.node dest.node))
  pattern_matches-forms a h = (matches-zone a.zone h.0, matches-net a h, matches-node a h)
