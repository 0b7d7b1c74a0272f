-- ===== src/Fido/Strings.antt =====
-- The functions of package `strings` that the FidoNet code uses, on ASCII texts.
pub mod Trim
pub mod Split
use virt_bbs.Prelude.{
  ℕ, Bool, true, false, ◌&&◌, ◌||◌, List, [], ◌∷◌, ◌++◌, reverse, Bytes, ◌==◌, leb, if◌then◌else◌,
}

abbrev pub is_space : ℕ → Bool
is_space c = c == 32 || (leb 9 c && leb c 13)

unfoldable pub drop_while : (ℕ → Bool) → Bytes → Bytes
drop_while test [] = []
drop_while test (c ∷ s) = if test c then drop_while test s else c ∷ s

unfoldable pub trim_space : Bytes → Bytes
unfolding drop_while
trim_space s = reverse (drop_while is_space (reverse (drop_while is_space s)))

abbrev pub word_then : Bytes → List Bytes → List Bytes
word_then [] words = words
word_then (c ∷ word) words = (c ∷ word) ∷ words

-- `strings.Fields`, with the word so far.
unfoldable pub fields : Bytes → Bytes → List Bytes
fields word [] = word_then word []
fields word (c ∷ s) =
    let ended = fields [] s in
    let longer = fields (word ++ c ∷ []) s in if is_space c then word_then word ended else longer

-- `strings.HasPrefix(s, prefix)`
unfoldable pub starts_with : Bytes → Bytes → Bool
starts_with [] s = true
starts_with (p ∷ prefix) [] = false
starts_with (p ∷ prefix) (c ∷ s) = p == c && starts_with prefix s

-- `strings.Split(s, sep)` for one byte `sep`, with the part so far.
unfoldable pub split_at : ℕ → Bytes → Bytes → List Bytes
split_at sep part [] = part ∷ []
split_at sep part (c ∷ s) =
    let next = split_at sep [] s in
    let longer = split_at sep (part ++ c ∷ []) s in if c == sep then part ∷ next else longer

-- `strings.Join(parts, sep)`
unfoldable pub join : Bytes → List Bytes → Bytes
join sep [] = []
join sep (part ∷ []) = part
join sep (part ∷ next ∷ parts) = part ++ (sep ++ join sep (next ∷ parts))
