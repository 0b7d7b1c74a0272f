-- ===== src/Transfer/Files/Names.antt =====
-- The name under which a received file is stored.
use virt_bbs.Prelude.{
  ℕ, ◌≡◌, ◌≢◌, refl, ◌∙◌, inl, inr, ◌⊎◌, false, [], ◌∷◌, ◌++◌, reverse, append_assoc, append-nil,
  Bytes, ◌==◌, All, All-append, All-reverse, Bool-cases, arith,
}
use mathlib.Core.List.{reverse-reverse}
use virt_bbs.Transfer.Files.Base.{base, drop_slashes, after_slash, last_part}

abbrev pub IsPlain : ℕ → Type 0
IsPlain c = c ≢ b'/'

after_slash-IsPlain : (part s : Bytes) → All IsPlain part → All IsPlain (after_slash part s)
unfolding after_slash
after_slash-IsPlain part [] h = h
after_slash-IsPlain part (c ∷ s) h = elim (Bool-cases (c == b'/')) [
  | inl e ↦ rw e (after_slash-IsPlain [] s tt)
  | inr e ↦ rw e (
      after_slash-IsPlain (part ++ c ∷ []) s
        (All-append IsPlain part (c ∷ []) h (ground (arith, e))))
]

after_slash_plain : (part s : Bytes) → All IsPlain s → after_slash part s ≡ part ++ s
unfolding after_slash
after_slash_plain part [] h = rw append-nil
after_slash_plain part (c ∷ s) h =
    let other : (c == b'/') ≡ false = ground (arith, h.0) in
    rw other (after_slash_plain (part ++ c ∷ []) s h.1 ∙ append_assoc part (c ∷ []) s)

drop_slashes_plain : (s : Bytes) → All IsPlain s → drop_slashes s ≡ s
unfolding drop_slashes
drop_slashes_plain [] h = refl
drop_slashes_plain (c ∷ s) h = let other : (c == b'/') ≡ false = ground (arith, h.0) in rw other

last_part-IsPlain :
    (s : Bytes) → All IsPlain s → (last_part s ≡ b'/' ∷ []) ⊎ All IsPlain (last_part s)
last_part-IsPlain [] h = inl refl
last_part-IsPlain (c ∷ s) h = inr h

-- A base name is a single slash, or has none.
pub base-IsPlain : (path : Bytes) → (base path ≡ b'/' ∷ []) ⊎ All IsPlain (base path)
unfolding base
base-IsPlain [] = inr (omega arith)
base-IsPlain (c ∷ s) =
    last_part-IsPlain (after_slash [] (reverse (drop_slashes (reverse (c ∷ s)))))
      (after_slash-IsPlain [] (reverse (drop_slashes (reverse (c ∷ s)))) tt)

base_plain : (c : ℕ) (s : Bytes) → All IsPlain (c ∷ s) → base (c ∷ s) ≡ c ∷ s
unfolding base
base_plain c s h =
    rw
      (
        drop_slashes_plain (reverse (c ∷ s)) (All-reverse IsPlain (c ∷ s) h),
        reverse-reverse,
        after_slash_plain [] (c ∷ s) h,
      )
      refl

last_part_not_nil : (s : Bytes) → last_part s ≢ []
last_part_not_nil [] = cc
last_part_not_nil (c ∷ s) = cc

pub base_not_nil : (path : Bytes) → base path ≢ []
unfolding base
base_not_nil [] = cc
base_not_nil (c ∷ s) = last_part_not_nil (after_slash [] (reverse (drop_slashes (reverse (c ∷ s)))))

base_slash : base (b'/' ∷ []) ≡ b'/' ∷ []
unfolding base
base_slash = refl

base_of_base : (name : Bytes) → name ≢ [] → (name ≡ b'/' ∷ []) ⊎ All IsPlain name → base name ≡ name
base_of_base [] h k = absurd (h refl)
base_of_base (c ∷ s) h (inl e) = rw e base_slash
base_of_base (c ∷ s) h (inr e) = base_plain c s e

-- A base name is its own base name.
pub base-base : (path : Bytes) → base (base path) ≡ base path
base-base path = base_of_base (base path) (base_not_nil path) (base-IsPlain path)
