-- ===== src/Fido/Merge/Union.antt =====
-- internal/fido/address.go: which tokens `MergeAddrTokens` returns, and how often.
use virt_bbs.Prelude.{
  ◌≡◌, refl, subst, ap, ◌∙◌, ℕ, ◌+◌, Bool, not, ◌&&◌, ◌||◌, List, [], ◌∷◌, ◌++◌, Bytes, equal,
  equal_iff, equal_refl, map, if◌then◌else◌, Bool-cases, inl, inr, arith,
}
use virt_bbs.Fido.Address.{Addr}
use virt_bbs.Fido.Merge.{Merge, less, has, add, add_all, self_token, merged, merge_addr_tokens}

-- How often a token stands in a list.
abbrev pub count : Bytes → List Bytes → ℕ
count tok [] = 0
count tok (t ∷ ts) = (if equal tok t then 1 else 0) + count tok ts

abbrev pub once_if : Bool → ℕ
once_if b = if b then 1 else 0

count-append :
    (tok : Bytes) (xs ys : List Bytes) → count tok (xs ++ ys) ≡ count tok xs + count tok ys
count-append tok [] ys = omega arith
count-append tok (x ∷ xs) ys = omega (arith, count-append tok xs ys)

-- A token is new to the list when it is not empty and equal to the one that is added.
abbrev is_added : Bytes → Bytes → Bool
is_added tok x = not (equal tok []) && equal tok x

add-seen : (tok x : Bytes) (m : Merge) → has tok (add x m).seen ≡ (is_added tok x || has tok m.seen)
unfolding add
add-seen tok x m = elim (Bool-cases (equal tok x)) [
  | inl e ↦
      subst (λ y. has tok (add y m).seen ≡ (is_added tok y || has tok m.seen))
        ((equal_iff tok x).0 e) (ground (arith, equal_refl tok))
  | inr e ↦ ground (arith, e)
]

add-count :
    (tok x : Bytes) (m : Merge)
    → count tok m.out ≡ once_if (has tok m.seen)
    → count tok (add x m).out ≡ once_if (has tok (add x m).seen)
unfolding add
add-count tok x m h = elim (Bool-cases (equal tok x)) [
  | inl e ↦
      subst (λ y. count tok (add y m).out ≡ once_if (has tok (add y m).seen))
        ((equal_iff tok x).0 e)
        (ground (arith, h, equal_refl tok, count-append tok m.out (tok ∷ [])))
  | inr e ↦ ground (arith, e, h, count-append tok m.out (x ∷ []))
]

abbrev pub is_new : Bytes → List Bytes → Bool
is_new tok toks = not (equal tok []) && has tok toks

module _ (trim_space : Bytes → Bytes) where
  add_all-seen :
      (tok : Bytes) (toks : List Bytes) (m : Merge)
      → has tok (add_all trim_space toks m).seen
        ≡ (is_new tok (map trim_space toks) || has tok m.seen)
  unfolding add_all
  add_all-seen tok [] m = ground arith
  add_all-seen tok (t ∷ toks) m =
      ground (arith, add_all-seen tok toks (add (trim_space t) m), add-seen tok (trim_space t) m)

  add_all-count :
      (tok : Bytes) (toks : List Bytes) (m : Merge)
      → count tok m.out ≡ once_if (has tok m.seen)
      → count tok (add_all trim_space toks m).out
        ≡ once_if (has tok (add_all trim_space toks m).seen)
  unfolding add_all
  add_all-count tok [] m h = h
  add_all-count tok (t ∷ toks) m h =
      add_all-count tok toks (add (trim_space t) m) (add-count tok (trim_space t) m h)

  -- If sorting keeps how often each token stands in a list, the result holds every token exactly
  -- once that is not empty and is, trimmed, one of the existing ones or the own one, and no other.
  pub merge_addr_tokens-count :
      (sort : (Bytes → Bytes → Bool) → List Bytes → List Bytes) (existing : List Bytes)
      (self : Addr)
      → ((toks : List Bytes) (tok : Bytes) → count tok (sort less toks) ≡ count tok toks)
      → (tok : Bytes)
      → count tok (merge_addr_tokens trim_space sort existing self)
        ≡ once_if (is_new tok (trim_space (self_token self) ∷ map trim_space existing))
  unfolding merge_addr_tokens
  merge_addr_tokens-count sort existing self keeps tok =
      let start : Merge = record { seen = []; out = [] } in
      let m = add_all trim_space existing start in
      let own = trim_space (self_token self) in
      keeps (merged trim_space existing self) tok
      ∙ add-count tok own m (add_all-count tok existing start refl)
      ∙ ap once_if (ground (arith, add-seen tok own m, add_all-seen tok existing start))
