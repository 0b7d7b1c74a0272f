-- ===== src/Fido/Strings/Trim.antt =====
-- `strings.TrimSpace` and the other functions that trim: what they leave.
use virt_bbs.Prelude.{
  ◌≡◌, ◌≢◌, refl, sym, ap, ◌∙◌, ℕ, Bool, false, [], ◌∷◌, ◌++◌, reverse, Bytes, All, All-reverse,
  Bool-cases, inl, inr,
}
use mathlib.Core.List.{reverse-reverse, reverse-cons, reverse-append}
use virt_bbs.Fido.Strings.{is_space, drop_while, trim_space}

module _ (test : ℕ → Bool) where
  -- Nothing is dropped where the first element fails the test.
  pub drop_while_stop :
      (s rest : Bytes)
      → s ≢ []
      → All (λ c. test c ≡ false) s
      → drop_while test (s ++ rest) ≡ s ++ rest
  unfolding drop_while
  drop_while_stop [] rest h k = absurd (h refl)
  drop_while_stop (c ∷ s) rest h k = rw k.0

  pub drop_while_none : (s : Bytes) → All (λ c. test c ≡ false) s → drop_while test s ≡ s
  unfolding drop_while
  drop_while_none [] k = refl
  drop_while_none (c ∷ s) k = rw k.0

  -- An element that fails the test stays at the end.
  pub drop_while-last :
      (s : Bytes) (c : ℕ)
      → test c ≡ false
      → (r : Bytes) × (drop_while test (s ++ c ∷ []) ≡ r ++ c ∷ [])
  unfolding drop_while
  drop_while-last [] c k = ([], rw k)
  drop_while-last (d ∷ s) c k = elim (Bool-cases (test d)) [
    | inl e ↦ let rest = drop_while-last s c k in (rest.0, rw e rest.1)
    | inr e ↦ (d ∷ s, rw e)
  ]

pub trim_space_none : (s : Bytes) → All (λ c. is_space c ≡ false) s → trim_space s ≡ s
unfolding trim_space
trim_space_none s h =
    ap (λ (t : Bytes). reverse (drop_while is_space (reverse t))) (drop_while_none is_space s h)
    ∙ ap reverse (drop_while_none is_space (reverse s) (All-reverse (λ c. is_space c ≡ false) s h))
    ∙ reverse-reverse s

abbrev pub IsSolid : ℕ → Type 0
IsSolid c = is_space c ≡ false

-- A text that starts with no blank keeps its first character.
pub trim_space_head : (c : ℕ) (s : Bytes) → IsSolid c → (r : Bytes) × (trim_space (c ∷ s) ≡ c ∷ r)
unfolding trim_space
trim_space_head c s h =
    let rest = drop_while-last is_space (reverse s) c h in
    (
      reverse rest.0,
      ap (λ t. reverse (drop_while is_space (reverse t)))
            (drop_while_stop is_space (c ∷ []) s (cc) (h, tt))
          ∙ ap (λ t. reverse (drop_while is_space t)) (reverse-cons c s)
          ∙ ap reverse rest.1
          ∙ reverse-append rest.0 (c ∷ []),
    )

reverse-ne-nil : (s : Bytes) → s ≢ [] → reverse s ≢ []
reverse-ne-nil s h e = h (sym (reverse-reverse s) ∙ ap reverse e)

-- A text that starts and ends with a word is not trimmed.
pub trim_space_solid :
    (c : ℕ) (s word : Bytes)
    → IsSolid c
    → word ≢ []
    → All IsSolid word
    → trim_space (c ∷ (s ++ word)) ≡ c ∷ (s ++ word)
unfolding trim_space
trim_space_solid c s word h full solid =
    let front = c ∷ s in
    ap (λ t. reverse (drop_while is_space (reverse t)))
      (drop_while_stop is_space (c ∷ []) (s ++ word) (cc) (h, tt))
    ∙ ap (λ t. reverse (drop_while is_space t)) (reverse-append front word)
    ∙ ap reverse (
        drop_while_stop is_space (reverse word) (reverse front) (reverse-ne-nil word full)
          (All-reverse IsSolid word solid))
    ∙ ap reverse (sym (reverse-append front word))
    ∙ reverse-reverse (front ++ word)
