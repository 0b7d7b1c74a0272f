-- ===== src/Fido/Nodelist/Fields.antt =====
-- internal/fido: the fields of a line of a nodelist, as they are written, split and read.
use virt_bbs.Prelude.{
  ◌≡◌, ◌≢◌, refl, ap, ◌∙◌, ℕ, ◌≤◌, false, List, [], ◌∷◌, ◌++◌, Bytes, All, ◌==◌, Bool-cases, inl,
  inr, arith,
}
use virt_bbs.Prelude.Int.{ℤ, IsInt64}
use virt_bbs.Prelude.Decimal.{
  show_int, parse_int, parse_int-show_int, int_or_zero, IsDecimal, show_int-IsDecimal,
}
use virt_bbs.Fido.Strings.{is_space, trim_space, split_at}
use virt_bbs.Fido.Strings.Trim.{trim_space_none}
use virt_bbs.Fido.Strings.Split.{Apart, split_at-field}
use virt_bbs.Fido.Nodelist.{
  NodeEntry, replace_all, nl_decode, nl_encode, line_number, number_and_fields,
}

replace_back : (s : Bytes) → Apart b'_' s → replace_all b'_' b' ' (replace_all b' ' b'_' s) ≡ s
unfolding replace_all
replace_back [] h = refl
replace_back (c ∷ s) h = elim (Bool-cases (c == b' ')) [
  | inl e ↦ ground (arith, e, replace_back s h.1)
  | inr e ↦ ground (arith, e, h.0, replace_back s h.1)
]

-- A printable character that neither ends a field nor stands for a blank.
abbrev pub IsWritable : ℕ → Type 0
IsWritable c = (b' ' ≤ c) × (c ≤ 126) × (c ≢ b',') × (c ≢ b'_')

-- A text that a line holds: some characters, with no blank at an end.
abbrev pub IsField : Bytes → Type 0
IsField s = (s ≢ []) × All IsWritable s × (trim_space s ≡ s)

replace_solid :
    (s : Bytes) → All IsWritable s → All (λ c. is_space c ≡ false) (replace_all b' ' b'_' s)
unfolding replace_all
replace_solid [] h = tt
replace_solid (c ∷ s) h = elim (Bool-cases (c == b' ')) [
  | inl e ↦ rw e (refl, replace_solid s h.1)
  | inr e ↦ rw e (ground (arith, e, h.0), replace_solid s h.1)
]

replace_all-Apart : (s : Bytes) → All IsWritable s → Apart b',' (replace_all b' ' b'_' s)
unfolding replace_all
replace_all-Apart [] h = tt
replace_all-Apart (c ∷ s) h = elim (Bool-cases (c == b' ')) [
  | inl e ↦ rw e (omega arith, replace_all-Apart s h.1)
  | inr e ↦ rw e (h.0.2, replace_all-Apart s h.1)
]

IsWritable-Apart : (s : Bytes) → All IsWritable s → Apart b'_' s
IsWritable-Apart [] h = tt
IsWritable-Apart (c ∷ s) h = (h.0.3, IsWritable-Apart s h.1)

nl_encode-IsField : (s : Bytes) → IsField s → nl_encode s ≡ replace_all b' ' b'_' s
unfolding nl_encode
nl_encode-IsField [] h = absurd (h.0 refl)
nl_encode-IsField (c ∷ s) h = ap (replace_all b' ' b'_') h.2

nl_encode-Apart : (s : Bytes) → IsField s → Apart b',' (nl_encode s)
nl_encode-Apart s h = rw (nl_encode-IsField s h) (replace_all-Apart s h.1)

pub nl_decode-nl_encode : (s : Bytes) → IsField s → nl_decode (nl_encode s) ≡ s
unfolding nl_decode
nl_decode-nl_encode s h =
    ap (λ t. replace_all b'_' b' ' (trim_space t)) (nl_encode-IsField s h)
    ∙ ap (replace_all b'_' b' ') (trim_space_none (replace_all b' ' b'_' s) (replace_solid s h.1))
    ∙ replace_back s (IsWritable-Apart s h.1)

decimal-solid : (s : Bytes) → All IsDecimal s → All (λ c. is_space c ≡ false) s
decimal-solid [] h = tt
decimal-solid (c ∷ s) h = (ground (arith, h.0), decimal-solid s h.1)

decimal-Apart : (s : Bytes) → All IsDecimal s → Apart b',' s
decimal-Apart [] h = tt
decimal-Apart (c ∷ s) h = (ground (arith, h.0), decimal-Apart s h.1)

pub shown_number : (z : ℤ) → IsInt64 z → int_or_zero (parse_int (trim_space (show_int z))) ≡ z
shown_number z h =
    ap (λ t. int_or_zero (parse_int t))
      (trim_space_none (show_int z) (decimal-solid (show_int z) (show_int-IsDecimal z)))
    ∙ ap int_or_zero (parse_int-show_int z h)

show_int-Apart : (z : ℤ) → Apart b',' (show_int z)
show_int-Apart z = decimal-Apart (show_int z) (show_int-IsDecimal z)

next_field :
    (s rest : Bytes) {more : List Bytes}
    → Apart b',' s
    → split_at b',' [] rest ≡ more
    → split_at b',' [] (s ++ (b',' ∷ rest)) ≡ s ∷ more
next_field s rest h e = split_at-field b',' [] s rest h ∙ ap (λ (t : List Bytes). s ∷ t) e

-- The fields of a line.
pub split-number_and_fields :
    (e : NodeEntry) (keyword phone : Bytes) (baud : ℤ)
    → Apart b',' keyword
    → IsField e.name
    → IsField e.location
    → IsField e.sysop
    → Apart b',' phone
    → split_at b',' [] (keyword ++ (b',' ∷ number_and_fields e phone baud))
      ≡ keyword
        ∷ show_int (line_number e.node_type e)
        ∷ nl_encode e.name
        ∷ nl_encode e.location
        ∷ nl_encode e.sysop
        ∷ phone
        ∷ show_int baud
        ∷ split_at b',' [] e.flags
unfolding number_and_fields
split-number_and_fields e keyword phone baud hk hn hl hs hp = next_field keyword _ hk (
    next_field (show_int (line_number e.node_type e)) _ (show_int-Apart (line_number e.node_type e))
      (next_field (nl_encode e.name) _ (nl_encode-Apart e.name hn) (
        next_field (nl_encode e.location) _ (nl_encode-Apart e.location hl) (
          next_field (nl_encode e.sysop) _ (nl_encode-Apart e.sysop hs)
            (next_field phone _ hp (next_field (show_int baud) _ (show_int-Apart baud) refl))))))
