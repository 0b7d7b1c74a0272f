-- ===== src/Fido/Address/RoundTrip.antt =====
-- internal/fido/address.go: `String` and `ParseAddr`, and the bytes of an address's text.
use virt_bbs.Prelude.{
  ◌≡◌, ◌≢◌, refl, sym, ap, subst, ◌∙◌, ℕ, zero, suc, ◌+◌, ◌%◌, ◌/◌, ◌≤◌, ltb, true, false, none,
  some, [], ◌∷◌, ◌++◌, Bytes, All, All-append, append_assoc, Bool-cases, inl, inr, arith,
}
use virt_bbs.Prelude.Int.{ℤ, pos, negsuc, IsInt64, eqb_ℤ, eqb_ℤ→eq}
use virt_bbs.Prelude.Decimal.{
  digits_of, show_nat, show_int, parse_int-show_int, atoi, without_error,
}
use virt_bbs.Fido.Address.{
  Addr, parse_node, cut, boss_string, to_string, address, parse_net, parse_zone, parse_point,
  parse_addr, no_addr,
}

-- A digit or the minus sign.
abbrev pub IsNumeric : ℕ → Type 0
IsNumeric c = (45 ≤ c) × (c ≤ 57) × (c ≢ 46) × (c ≢ 47)

digits_of-IsNumeric : (f n : ℕ) → All IsNumeric (digits_of f n)
unfolding digits_of
digits_of-IsNumeric zero n = tt
digits_of-IsNumeric (suc f) n = elim (Bool-cases (ltb n 10)) [
  | inl e ↦ ground (arith, e)
  | inr e ↦ ground (
    arith,
    e,
    All-append IsNumeric (digits_of f (n / 10)) ((48 + n % 10) ∷ [])
        (digits_of-IsNumeric f (n / 10)) (omega arith),
  )
]

show_int-IsNumeric : (z : ℤ) → All IsNumeric (show_int z)
unfolding show_int show_nat
show_int-IsNumeric (pos n) = digits_of-IsNumeric (suc n) n
show_int-IsNumeric (negsuc n) = (omega arith, digits_of-IsNumeric (suc (suc n)) (suc n))

cut-absent : (c : ℕ) (s : Bytes) → All (λ b. b ≢ c) s → cut c s ≡ none
unfolding cut
cut-absent c [] h = refl
cut-absent c (x ∷ s) h = ground (arith, h, cut-absent c s h.1)

cut-first :
    (c : ℕ) (front back : Bytes)
    → All (λ b. b ≢ c) front
    → cut c (front ++ (c ∷ back)) ≡ some (front, back)
unfolding cut
cut-first c [] back h = ground arith
cut-first c (x ∷ front) back h = ground (arith, h, cut-first c front back h.1)

numeric-without : (c : ℕ) (s : Bytes) → ¬ IsNumeric c → All IsNumeric s → All (λ b. b ≢ c) s
numeric-without c [] h k = tt
numeric-without c (x ∷ s) h (kx, ks) = (λ e. h (subst IsNumeric e kx), numeric-without c s h ks)

shown-without : (c : ℕ) (z : ℤ) → ¬ IsNumeric c → All (λ b. b ≢ c) (show_int z)
shown-without c z h = numeric-without c (show_int z) h (show_int-IsNumeric z)

pub atoi-show_int : (z : ℤ) → IsInt64 z → atoi (show_int z) ≡ some z
atoi-show_int z h = ap without_error (parse_int-show_int z h)

abbrev pub InRange : Addr → Type 0
InRange a = IsInt64 a.zone × IsInt64 a.net × IsInt64 a.node × IsInt64 a.point

parse_net-shown :
    (a : Addr) (net node : ℤ)
    → IsInt64 net
    → IsInt64 node
    → parse_net a (show_int net ++ (b'/' ∷ show_int node))
      ≡ address (record a { net = net; node = node })
unfolding parse_net parse_node
parse_net-shown a net node hnet hnode = ground (
  arith,
  cut-first b'/' (show_int net) (show_int node) (shown-without b'/' net (omega arith)),
  atoi-show_int net hnet,
  atoi-show_int node hnode,
)

parse_zone-boss_string :
    (a b : Addr)
    → InRange b
    → parse_zone a (boss_string b)
      ≡ address (record a { zone = b.zone; net = b.net; node = b.node })
unfolding parse_zone boss_string
parse_zone-boss_string a b (hzone, hnet, hnode, hpoint) = ground (
  arith,
  cut-first b':' (show_int b.zone) (show_int b.net ++ (b'/' ∷ show_int b.node))
      (shown-without b':' b.zone (omega arith)),
  atoi-show_int b.zone hzone,
  parse_net-shown (record a { zone = b.zone }) b.net b.node hnet hnode,
)

pub boss_string-All :
    (P : ℕ → Type 0) (a : Addr)
    → ((z : ℤ) → All P (show_int z))
    → P b':'
    → P b'/'
    → All P (boss_string a)
unfolding boss_string
boss_string-All P a shown colon slash =
    All-append P (show_int a.zone) (b':' ∷ (show_int a.net ++ (b'/' ∷ show_int a.node)))
      (shown a.zone)
      (
        colon,
        All-append P (show_int a.net) (b'/' ∷ show_int a.node) (shown a.net) (slash, shown a.node),
      )

boss_string-without : (a : Addr) → All (λ b. b ≢ b'.') (boss_string a)
boss_string-without a =
    boss_string-All (λ b. b ≢ b'.') a (λ z. shown-without b'.' z (omega arith)) (omega arith)
      (omega arith)

to_string-point :
    (a : Addr)
    → eqb_ℤ a.point (pos 0) ≡ false
    → to_string a ≡ boss_string a ++ (b'.' ∷ show_int a.point)
unfolding to_string boss_string
to_string-point a e = ground (
  arith,
  e,
  append_assoc (show_int a.zone) (b':' ∷ (show_int a.net ++ (b'/' ∷ show_int a.node)))
      (b'.' ∷ show_int a.point),
  append_assoc (show_int a.net) (b'/' ∷ show_int a.node) (b'.' ∷ show_int a.point),
)

pub to_string-boss_string : (a : Addr) → eqb_ℤ a.point (pos 0) ≡ true → to_string a ≡ boss_string a
unfolding to_string
to_string-boss_string a e = ground (arith, e)

pub parse_point-to_string : (a : Addr) → InRange a → parse_point (to_string a) ≡ address a
unfolding parse_point
parse_point-to_string a h = elim (Bool-cases (eqb_ℤ a.point (pos 0))) [
  | inl e ↦ ground (
    arith,
    to_string-boss_string a e,
    cut-absent b'.' (boss_string a) (boss_string-without a),
    parse_zone-boss_string no_addr a h,
    eqb_ℤ→eq a.point (pos 0) e,
  )
  | inr e ↦ ground (
    arith,
    to_string-point a e,
    cut-first b'.' (boss_string a) (show_int a.point) (boss_string-without a),
    atoi-show_int a.point h.3,
    parse_zone-boss_string (record no_addr { point = a.point }) a h,
  )
]

abbrev pub IsPlain : ℕ → Type 0
IsPlain c = (45 ≤ c) × (c ≤ 58)

numeric-IsPlain : (s : Bytes) → All IsNumeric s → All IsPlain s
numeric-IsPlain [] h = tt
numeric-IsPlain (c ∷ s) h = (omega (arith, h.0), numeric-IsPlain s h.1)

pub shown-IsPlain : (z : ℤ) → All IsPlain (show_int z)
shown-IsPlain z = numeric-IsPlain (show_int z) (show_int-IsNumeric z)

pub to_string-IsPlain : (a : Addr) → All IsPlain (to_string a)
to_string-IsPlain a =
    let boss = boss_string-All IsPlain a shown-IsPlain (omega arith) (omega arith) in
    elim (Bool-cases (eqb_ℤ a.point (pos 0))) [
      | inl e ↦ subst (All IsPlain) (sym (to_string-boss_string a e)) boss
      | inr e ↦ subst (All IsPlain) (sym (to_string-point a e)) (
          All-append IsPlain (boss_string a) (b'.' ∷ show_int a.point) boss
            (omega arith, shown-IsPlain a.point))
    ]

-- The text of an address whose numbers fit into 64 bits is read back as that address, the point
-- included, if trimming leaves a text of digits and the bytes `-`, `.`, `/` and `:` as it is.
pub parse_addr-to_string :
    (trim_space : Bytes → Bytes) (a : Addr)
    → ((s : Bytes) → All IsPlain s → trim_space s ≡ s)
    → InRange a
    → parse_addr trim_space (to_string a) ≡ address a
unfolding parse_addr
parse_addr-to_string trim_space a trims h =
    ap parse_point (trims (to_string a) (to_string-IsPlain a)) ∙ parse_point-to_string a h
