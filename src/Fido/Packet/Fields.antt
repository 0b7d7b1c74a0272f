-- ===== src/Fido/Packet/Fields.antt =====
-- The fields of a message: what is read of what was written.
use virt_bbs.Prelude.{
  ℕ, zero, suc, ◌+◌, ◌*◌, ◌/◌, ◌%◌, ◌≤◌, ◌<◌, ◌≡◌, ◌≢◌, refl, ap, false, [], ◌∷◌, ◌++◌, Bytes,
  length, length-append, take, drop, ◌==◌, ltb, All, arith,
}
use virt_bbs.Fido.Packet.{read_null_str, read_fixed_str, fixed}

-- A text that a NUL can end.
abbrev pub IsText : Bytes → Type 0
IsText s = All (λ c. c ≢ 0) s

pub read_null_str-append : (s rest : Bytes) → IsText s → read_null_str (s ++ (0 ∷ rest)) ≡ (s, rest)
unfolding read_null_str
read_null_str-append [] rest h = refl
read_null_str-append (c ∷ s) rest h =
    let other : (c == 0) ≡ false = ground (arith, h.0) in
    rw (other, read_null_str-append s rest h.1) refl

pub length-fixed : (n : ℕ) (s : Bytes) → length (fixed n s) ≡ n
unfolding fixed
length-fixed zero s = refl
length-fixed (suc n) [] = ap suc (length-fixed n [])
length-fixed (suc n) (c ∷ s) = ap suc (length-fixed n s)

pub take-fixed : (n : ℕ) (s rest : Bytes) → take n (fixed n s ++ rest) ≡ fixed n s
unfolding fixed
take-fixed zero s rest = refl
take-fixed (suc n) [] rest = ap (λ t. 0 ∷ t) (take-fixed n [] rest)
take-fixed (suc n) (c ∷ s) rest = ap (λ t. c ∷ t) (take-fixed n s rest)

pub drop-fixed : (n : ℕ) (s rest : Bytes) → drop n (fixed n s ++ rest) ≡ rest
unfolding fixed
drop-fixed zero s rest = refl
drop-fixed (suc n) [] rest = drop-fixed n [] rest
drop-fixed (suc n) (c ∷ s) rest = drop-fixed n s rest

read_null_str-fixed :
    (n : ℕ) (s : Bytes) → IsText s → length s ≤ n → (read_null_str (fixed n s)).0 ≡ s
unfolding read_null_str fixed
read_null_str-fixed zero [] h k = refl
read_null_str-fixed zero (c ∷ s) h k = absurd (omega arith)
read_null_str-fixed (suc n) [] h k = refl
read_null_str-fixed (suc n) (c ∷ s) h k =
    ground (arith, h.0, read_null_str-fixed n s h.1 (omega arith))

pub read_fixed_str-fixed :
    (n : ℕ) (s : Bytes) → IsText s → length s ≤ n → read_fixed_str (fixed n s) ≡ s
unfolding read_fixed_str
read_fixed_str-fixed n s h k = read_null_str-fixed n s h k

pub fixed_room : (s rest : Bytes) → ltb (length (fixed 20 s ++ rest)) 20 ≡ false
fixed_room s rest = ground (arith, length-fixed 20 s, length-append (fixed 20 s) rest)

pub le16_lem : (n : ℕ) → n < 65536 → n % 256 + n / 256 % 256 * 256 ≡ n
le16_lem n h = omega arith
