-- ===== src/Fido/Strings/Split.antt =====
-- `strings.Split` and `strings.Join`: each undoes the other.
use virt_bbs.Prelude.{
  ◌≡◌, ◌≢◌, refl, sym, ap, ◌∙◌, ℕ, false, List, [], ◌∷◌, ◌++◌, append_assoc, append-nil, Bytes, All,
  ◌==◌, Bool-cases, if◌then◌else◌, inl, inr, arith,
}
use virt_bbs.Fido.Strings.{split_at, join}

-- What may stand in a field of a line.
abbrev pub Apart : ℕ → Bytes → Type 0
Apart sep = All (λ c. c ≢ sep)

pub split_at-field :
    (sep : ℕ) (part s rest : Bytes)
    → Apart sep s
    → split_at sep part (s ++ (sep ∷ rest)) ≡ (part ++ s) ∷ split_at sep [] rest
unfolding split_at
split_at-field sep part [] rest h = ground (arith, append-nil part)
split_at-field sep part (c ∷ s) rest h =
    let other : (c == sep) ≡ false = ground (arith, h.0) in
    rw other (
      split_at-field sep (part ++ c ∷ []) s rest h.1
      ∙ ap (λ (t : Bytes). t ∷ split_at sep [] rest) (append_assoc part (c ∷ []) s))

split_at_cons :
    (sep : ℕ) (part : Bytes) (c : ℕ) (s : Bytes)
    → split_at sep part (c ∷ s)
      ≡ (if c == sep then part ∷ split_at sep [] s else split_at sep (part ++ c ∷ []) s)
unfolding split_at
split_at_cons sep part c s = refl

split_at_ne :
    (sep : ℕ) (part s : Bytes)
    → (first : Bytes) × (more : List Bytes) × (split_at sep part s ≡ first ∷ more)
split_at_ne sep part [] = (part, [], unfold split_at in refl)
split_at_ne sep part (c ∷ s) = elim (Bool-cases (c == sep)) [
  | inl e ↦ (part, split_at sep [] s, rw (split_at_cons sep part c s, e) refl)
  | inr e ↦
      let (first, more, k) = split_at_ne sep (part ++ c ∷ []) s in
      (first, more, rw (split_at_cons sep part c s, e) k)
]

join-cons :
    (sep part : Bytes) (next : Bytes) (parts : List Bytes)
    → join sep (part ∷ next ∷ parts) ≡ part ++ (sep ++ join sep (next ∷ parts))
unfolding join
join-cons sep part next parts = refl

pub join-split_at : (sep : ℕ) (part s : Bytes) → join (sep ∷ []) (split_at sep part s) ≡ part ++ s
join-split_at sep part [] = (unfold split_at in unfold join in sym (append-nil part))
join-split_at sep part (c ∷ s) = elim (Bool-cases (c == sep)) [
  | inl e ↦
      let (first, more, k) = split_at_ne sep [] s in
      let later = join-split_at sep [] s in
      rw (split_at_cons sep part c s, e)
        (ap (λ (t : List Bytes). join (sep ∷ []) (part ∷ t)) k
          ∙ join-cons (sep ∷ []) part first more
          ∙ ap (λ (t : List Bytes). part ++ (sep ∷ join (sep ∷ []) t)) (sym k)
          ∙ ap (λ (t : Bytes). part ++ (sep ∷ t)) later
          ∙ ground (arith, e))
  | inr e ↦
      rw (split_at_cons sep part c s, e)
        (join-split_at sep (part ++ c ∷ []) s ∙ append_assoc part (c ∷ []) s)
]
