-- ===== src/Prelude/Decimal.antt =====
-- Package `strconv` on decimal numbers: `%d` and `Itoa`, `ParseInt(s, 10, 64)` and `Atoi`.
use Prim.Native.Nat.{ℕ, zero, suc, ◌+◌, ◌-◌, ◌*◌, ◌/◌, ◌%◌, ◌^◌, ◌≤◌, ◌<◌}
use mathlib.Core.Bool.{Bool, true, false, ◌&&◌}
use mathlib.Core.List.{[], ◌∷◌, ◌++◌, append_assoc, append-nil}
use mathlib.Core.Logic.{inl, inr}
use mathlib.Core.Option.{Option, none, some}
use mathlib.Core.Path.{◌≡◌, refl, sym, ap, subst, ◌∙◌}
use native.Mathlib.Omega.{arith}
use virt_bbs.Prelude.Int.{ℤ, pos, negsuc, IsInt64}
use virt_bbs.Prelude.Tests.{ltb, leb, ◌==◌, if◌then◌else◌, Bool-cases}
use virt_bbs.Prelude.Texts.{Bytes}
use virt_bbs.Prelude.Lists.{All, All-append}

-- The digits of a number; a number has no more digits than the fuel that it is given.
unfoldable pub digits_of : ℕ → ℕ → Bytes
digits_of zero n = []
digits_of (suc f) n = elim (ltb n 10) [
  | true ↦ (48 + n) ∷ []
  | false ↦ digits_of f (n / 10) ++ ((48 + n % 10) ∷ [])
]

unfoldable pub show_nat : ℕ → Bytes
show_nat n = digits_of (suc n) n

-- `%d`
unfoldable pub show_int : ℤ → Bytes
show_int (pos n) = show_nat n
show_int (negsuc n) = b'-' ∷ show_nat (suc n)

pub data Parsed : Type 0 where
  good range_error : ℤ → Parsed
  syntax_error : Parsed

abbrev pub is_digit_byte : ℕ → Bool
is_digit_byte c = leb 48 c && leb c 57

abbrev pub uint64_max : ℕ
uint64_max = 2 ^ 64 - 1

-- The loop of `ParseUint`: `none` at a byte that is no digit, and `uint64_max` as soon as the
-- number is out of range, whatever stands behind.
unfoldable pub digits_value : ℕ → Bytes → Option ℕ
digits_value acc [] = some acc
digits_value acc (c ∷ cs) =
    let rest = digits_value (acc * 10 + (c - 48)) cs in
    if is_digit_byte c
    then (if ltb uint64_max (acc * 10 + (c - 48)) then some uint64_max else rest)
    else none

signed_value : Bool → Option ℕ → Parsed
signed_value negative none = syntax_error
signed_value false (some n) =
    if leb (2 ^ 63) n then range_error (pos (2 ^ 63 - 1)) else good (pos n)
signed_value true (some zero) = good (pos 0)
signed_value true (some (suc n)) =
    if ltb (2 ^ 63) (suc n) then range_error (negsuc (2 ^ 63 - 1)) else good (negsuc n)

unsigned_text : Bool → Bytes → Parsed
unfolding signed_value digits_value
unsigned_text negative [] = syntax_error
unsigned_text negative (c ∷ cs) = signed_value negative (digits_value 0 (c ∷ cs))

-- `strconv.ParseInt(s, 10, 64)`: the value, and which error stands beside it.
unfoldable pub parse_int : Bytes → Parsed
unfolding unsigned_text
parse_int [] = syntax_error
parse_int (c ∷ cs) =
    if c == b'-'
    then unsigned_text true cs
    else if c == b'+'
    then unsigned_text false cs
    else unsigned_text false (c ∷ cs)

-- `n, _ := strconv.ParseInt(s, 10, 64)`
abbrev pub int_or_zero : Parsed → ℤ
int_or_zero (good n) = n
int_or_zero (range_error n) = n
int_or_zero syntax_error = pos 0

abbrev pub without_error : Parsed → Option ℤ
without_error (good n) = some n
without_error _ = none

-- `strconv.Atoi`, where `int` has 64 bits.
abbrev pub atoi : Bytes → Option ℤ
atoi s = without_error (parse_int s)

digits_value-cons :
    (acc c : ℕ) (cs : Bytes)
    → digits_value acc (c ∷ cs) ≡ (
        if is_digit_byte c
        then (if ltb uint64_max (acc * 10 + (c - 48))
            then some uint64_max
            else digits_value (acc * 10 + (c - 48)) cs)
        else none)
unfolding digits_value
digits_value-cons acc c cs = refl

digits_of-small : (f n : ℕ) → ltb n 10 ≡ true → digits_of (suc f) n ≡ (48 + n) ∷ []
unfolding digits_of
digits_of-small f n h = rw (h, digits_of)

digits_of-large :
    (f n : ℕ)
    → ltb n 10 ≡ false
    → digits_of (suc f) n ≡ digits_of f (n / 10) ++ ((48 + n % 10) ∷ [])
unfolding digits_of
digits_of-large f n h = rw (h, digits_of)

digits_value-digits_of :
    (f n : ℕ) (cs : Bytes)
    → n < f
    → n ≤ uint64_max
    → digits_value 0 (digits_of f n ++ cs) ≡ digits_value n cs
digits_value-digits_of zero n cs h m = elim h [ ]
digits_value-digits_of (suc f) n cs h m = elim (Bool-cases (ltb n 10)) [
  | inl small ↦ rw (digits_of-small f n small) (ground (arith, digits_value-cons 0 (48 + n) cs))
  | inr large ↦
      rw (digits_of-large f n large, append_assoc)
        (digits_value-digits_of f (n / 10) ((48 + n % 10) ∷ cs) (ground arith) (ground arith)
          ∙ ground (arith, digits_value-cons (n / 10) (48 + n % 10) cs))
]

-- The digits begin with a digit, so with no sign.
digits_of-cons :
    (f n : ℕ) → n < f → (c : ℕ) × (cs : Bytes) × (digits_of f n ≡ c ∷ cs) × (48 ≤ c) × (c ≤ 57)
digits_of-cons zero n h = elim h [ ]
digits_of-cons (suc f) n h = elim (Bool-cases (ltb n 10)) [
  | inl small ↦ (48 + n, [], digits_of-small f n small, ground arith, ground arith)
  | inr large ↦
      let (c, cs, e, lo, hi) = digits_of-cons f (n / 10) (ground arith) in
      (c, cs ++ ((48 + n % 10) ∷ []), digits_of-large f n large ∙ rw e, lo, hi)
]

abbrev IsDigits : Bytes → Type 0
IsDigits [] = ⊥
IsDigits (c ∷ cs) = (48 ≤ c) × (c ≤ 57)

show_nat-IsDigits : (n : ℕ) → IsDigits (show_nat n)
unfolding show_nat
show_nat-IsDigits n =
    let (c, cs, e, lo, hi) = digits_of-cons (suc n) n (omega arith) in
    subst IsDigits (sym e) (lo, hi)

digits_value-show_nat : (n : ℕ) → n ≤ uint64_max → digits_value 0 (show_nat n) ≡ some n
unfolding show_nat
digits_value-show_nat n m =
    ap (digits_value 0) (sym (append-nil (digits_of (suc n) n)))
    ∙ digits_value-digits_of (suc n) n [] (omega arith) m
    ∙ unfold digits_value in refl

unsigned_text-IsDigits :
    (negative : Bool) (s : Bytes) {n : ℕ}
    → IsDigits s
    → digits_value 0 s ≡ some n
    → unsigned_text negative s ≡ signed_value negative (some n)
unsigned_text-IsDigits negative [] d e = absurd d
unsigned_text-IsDigits negative (c ∷ cs) d e = unfold unsigned_text in ap (signed_value negative) e

parse_int-IsDigits : (s : Bytes) → IsDigits s → parse_int s ≡ unsigned_text false s
unfolding parse_int
parse_int-IsDigits [] d = absurd d
parse_int-IsDigits (c ∷ cs) d = ground arith

parse_int_minus : (s : Bytes) → parse_int (b'-' ∷ s) ≡ unsigned_text true s
unfolding parse_int
parse_int_minus s = refl

-- A 64-bit integer is read back from its decimal text.
pub parse_int-show_int : (z : ℤ) → IsInt64 z → parse_int (show_int z) ≡ good z
unfolding show_int signed_value
parse_int-show_int (pos n) h =
    parse_int-IsDigits (show_nat n) (show_nat-IsDigits n)
    ∙ unsigned_text-IsDigits false (show_nat n) (show_nat-IsDigits n)
        (digits_value-show_nat n (omega arith))
    ∙ ground arith
parse_int-show_int (negsuc n) h =
    parse_int_minus (show_nat (suc n))
    ∙ unsigned_text-IsDigits true (show_nat (suc n)) (show_nat-IsDigits (suc n))
        (digits_value-show_nat (suc n) (omega arith))
    ∙ ground arith

-- Every byte of a number's text is a digit or the sign.
abbrev pub IsDecimal : ℕ → Type 0
IsDecimal c = (b'-' ≤ c) × (c ≤ b'9')

digits_of-IsDecimal : (f n : ℕ) → All IsDecimal (digits_of f n)
digits_of-IsDecimal zero n = unfold digits_of in tt
digits_of-IsDecimal (suc f) n = elim (Bool-cases (ltb n 10)) [
  | inl e ↦ subst (All IsDecimal) (sym (digits_of-small f n e)) (ground (arith, e), tt)
  | inr e ↦ subst (All IsDecimal) (sym (digits_of-large f n e)) (
      All-append IsDecimal (digits_of f (n / 10)) ((48 + n % 10) ∷ [])
        (digits_of-IsDecimal f (n / 10)) (ground arith))
]

pub show_int-IsDecimal : (z : ℤ) → All IsDecimal (show_int z)
unfolding show_int show_nat
show_int-IsDecimal (pos n) = digits_of-IsDecimal (suc n) n
show_int-IsDecimal (negsuc n) = (omega arith, digits_of-IsDecimal (suc (suc n)) (suc n))
