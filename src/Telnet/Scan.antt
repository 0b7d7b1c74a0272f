-- ===== src/Telnet/Scan.antt =====
-- What one round of the loop of `Read` finds does not depend on bytes that come later.
use virt_bbs.Prelude.{
  ℕ, ◌≤◌, ◌≡◌, refl, ◌⊎◌, inl, Option, none, some, [], ◌∷◌, ◌++◌, arith, Bytes, length, ◌==◌,
  if◌then◌else◌, ◌&&◌,
}
use virt_bbs.Telnet.{find_se, cons_found, Event, held, byte, option, subneg, ignored, scan, iac, se}

-- The same event, with `s` behind the bytes that are left.
abbrev pub extend : Bytes → Event → Event
extend s held = held
extend s (byte x rest) = byte x (rest ++ s)
extend s (option cmd opt rest) = option cmd opt (rest ++ s)
extend s (subneg d rest) = subneg d (rest ++ s)
extend s (ignored rest) = ignored (rest ++ s)

abbrev pub rest_length : Event → ℕ
rest_length held = 0
rest_length (byte x rest) = length rest
rest_length (option cmd opt rest) = length rest
rest_length (subneg d rest) = length rest
rest_length (ignored rest) = length rest

abbrev pub extend_found : Bytes → Option (Bytes × Bytes) → Option (Bytes × Bytes)
extend_found s none = none
extend_found s (some (d, rest)) = some (d, rest ++ s)

abbrev pub found_length : Option (Bytes × Bytes) → ℕ
found_length none = 0
found_length (some (d, rest)) = length rest

pub find_se-cons :
    (x y : ℕ) (r : Bytes)
    → find_se (x ∷ y ∷ r)
      ≡ (if x == iac && y == se then some ([], r) else cons_found x (find_se (y ∷ r)))
unfolding find_se
find_se-cons x y r = refl

find_se-append :
    (r s : Bytes) → (find_se r ≡ none) ⊎ (find_se (r ++ s) ≡ extend_found s (find_se r))
find_se-append [] s = inl (unfold find_se in refl)
find_se-append (x ∷ []) s = inl (unfold find_se in refl)
find_se-append (x ∷ y ∷ r) s =
    ground (arith, find_se-cons x y r, find_se-cons x y (r ++ s), find_se-append (y ∷ r) s)

pub find_se-length : (r : Bytes) → found_length (find_se r) ≤ length r
find_se-length [] = unfold find_se in omega arith
find_se-length (x ∷ []) = unfold find_se in omega arith
find_se-length (x ∷ y ∷ r) = ground (arith, find_se-cons x y r, find_se-length (y ∷ r))

pub rest_length-scan : (b : ℕ) (r : Bytes) → rest_length (scan b r) ≤ length r
unfolding scan
rest_length-scan b [] = ground arith
rest_length-scan b (c ∷ []) = ground (arith, find_se-length [])
rest_length-scan b (c ∷ d ∷ r) = ground (arith, find_se-length (d ∷ r))

-- Unless the command is cut, later bytes only stand behind what is left.
pub scan-append :
    (b : ℕ) (r s : Bytes) → (scan b r ≡ held) ⊎ (scan b (r ++ s) ≡ extend s (scan b r))
unfolding scan
scan-append b [] s = ground arith
scan-append b (c ∷ []) s = ground (arith, find_se-append [] s)
scan-append b (c ∷ d ∷ r) s = ground (arith, find_se-append (d ∷ r) s)
