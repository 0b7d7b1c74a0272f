-- ===== src/Ppl/Interpreter/Builtins.antt =====
-- The built-in functions of `evalFuncCall` that need only their arguments: texts and numbers.
-- Texts are taken to be valid UTF-8, and a result to fit into memory.
use virt_bbs.Prelude.{
  ℕ, zero, suc, ◌-◌, ◌%◌, ◌^◌, Bool, true, false, not, ◌&&◌, ◌||◌, Option, none, some, List, [],
  ◌∷◌, ◌++◌, reverse, Bytes, codes, equal, length, take, drop, ◌==◌, ltb, leb, if◌then◌else◌,
}
use virt_bbs.Prelude.Int.{ℤ, pos, negsuc, ◌-ℤ◌, ◌+ℤ◌, neg, ltb_ℤ, eqb_ℤ, wrap64, rem, pattern64}
use virt_bbs.Ppl.Host.{Unicode, FloatOps, utf8}
use virt_bbs.Ppl.Types.{
  V, int_val, str_val, real_val, zero_val, empty_val, is_real, to_int_val, to_float, to_string,
  to_bool, float_zero, bool_val,
}

-- A value, a panic of Go (an argument that is missing, a slice out of range), or another name.
pub data Answer (X : Type 0) : Type 0 where
  value : X → Answer X
  crashes : Answer X
  other : Answer X

-- `s[from:to]`, a panic unless `0 <= from <= to <= len(s)`
slice : Bytes → ℤ → ℤ → Option Bytes
slice s (pos a) (pos b) =
    if leb a b && leb b (length s) then some (take (b - a) (drop a s)) else none
slice s _ _ = none

abbrev min_ℤ : ℤ → ℤ → ℤ
min_ℤ a b = if ltb_ℤ b a then b else a

abbrev len : Bytes → ℤ
len s = pos (length s)

starts : Bytes → Bytes → Bool
starts [] s = true
starts (p ∷ ps) [] = false
starts (p ∷ ps) (c ∷ s) = p == c && starts ps s

-- `strings.Index`
index_of : Bytes → Bytes → Option ℕ
unfolding starts
index_of sub [] = if equal sub [] then some 0 else none
index_of sub (c ∷ s) =
    let later : Option ℕ = elim (index_of sub s) [ none ↦ none | some i ↦ some (suc i) ] in
    if starts sub (c ∷ s) then some 0 else later

trim_left : Bytes → Bytes
trim_left [] = []
trim_left (c ∷ s) = let rest = trim_left s in if c == b' ' then rest else c ∷ s

trim_right : Bytes → Bytes
unfolding trim_left
trim_right s = reverse (trim_left (reverse s))

-- `strings.Repeat` panics on a negative count.
repeat : Bytes → ℕ → Bytes
repeat s zero = []
repeat s (suc n) = s ++ repeat s n

printable : Bytes → Bytes
printable [] = []
printable (c ∷ s) = if ltb c 32 then printable s else c ∷ printable s

-- `string(rune(n))`, where `rune` has 32 bits: what is no scalar value becomes U+FFFD.
rune_text : ℤ → Bytes
rune_text n = utf8 (pattern64 n % 2 ^ 32)

index_plus_one : Option ℕ → ℤ
index_plus_one none = pos 0
index_plus_one (some i) = pos (suc i)

module _ (u : Unicode) (fl : FloatOps) where
  open u use {to_upper, to_lower, trim_space}
  open fl use {abs, sqrt, pow, of_int}

  abbrev arg0str : List (V u fl) → Bytes
  arg0str [] = []
  arg0str (a ∷ _) = to_string u fl a

  abbrev arg0int : List (V u fl) → ℤ
  arg0int [] = pos 0
  arg0int (a ∷ _) = to_int_val u fl a

  abbrev text : Option Bytes → Answer (V u fl)
  text none = crashes
  text (some s) = value (str_val u fl s)

  left_fn : List (V u fl) → Answer (V u fl)
  unfolding slice
  left_fn (a ∷ b ∷ _) =
      let s = to_string u fl a in text (slice s (pos 0) (min_ℤ (to_int_val u fl b) (len s)))
  left_fn _ = crashes

  right_fn : List (V u fl) → Answer (V u fl)
  unfolding slice
  right_fn (a ∷ b ∷ _) =
      let s = to_string u fl a in
      text (slice s (wrap64 (len s -ℤ min_ℤ (to_int_val u fl b) (len s))) (len s))
  right_fn _ = crashes

  mid_length : List (V u fl) → ℤ → ℤ
  mid_length [] rest = rest
  mid_length (c ∷ _) rest = to_int_val u fl c

  mid_fn : List (V u fl) → Answer (V u fl)
  unfolding slice mid_length
  mid_fn (a ∷ b ∷ more) =
      let s = to_string u fl a in
      let from = wrap64 (to_int_val u fl b -ℤ pos 1) in
      let start : ℤ = if ltb_ℤ from (pos 0) then pos 0 else from in
      if not (ltb_ℤ start (len s))
      then value (empty_val u fl)
      else let end = wrap64 (start +ℤ mid_length more (len s -ℤ start)) in
        text (slice s start (min_ℤ end (len s)))
  mid_fn _ = crashes

  asc_fn : Bytes → Answer (V u fl)
  asc_fn [] = value (zero_val u fl)
  asc_fn (c ∷ _) = value (int_val u fl (pos c))

  instr_fn : List (V u fl) → Answer (V u fl)
  unfolding index_of index_plus_one
  instr_fn (a ∷ b ∷ _) =
      value (int_val u fl (index_plus_one (index_of (to_string u fl b) (to_string u fl a))))
  instr_fn _ = value (zero_val u fl)

  repeat_fn : Bytes → ℤ → Answer (V u fl)
  unfolding repeat
  repeat_fn s (pos n) = value (str_val u fl (repeat s n))
  repeat_fn s (negsuc n) = crashes

  replicate_fn : List (V u fl) → Answer (V u fl)
  unfolding repeat_fn
  replicate_fn (a ∷ b ∷ _) = repeat_fn (to_string u fl a) (to_int_val u fl b)
  replicate_fn _ = value (empty_val u fl)

  str_fn : List (V u fl) → Answer (V u fl)
  str_fn [] = crashes
  str_fn (a ∷ _) = value (str_val u fl (to_string u fl a))

  unfoldable pub string_function : Bytes → List (V u fl) → Answer (V u fl)
  unfolding left_fn right_fn mid_fn asc_fn instr_fn repeat_fn replicate_fn str_fn trim_left
      trim_right printable rune_text
  string_function name args =
      if equal name (codes "LEN")
      then value (int_val u fl (len (arg0str args)))
      else if equal name (codes "LEFT")
      then left_fn args
      else if equal name (codes "RIGHT")
      then right_fn args
      else if equal name (codes "MID")
      then mid_fn args
      else if equal name (codes "UPPER")
      then value (str_val u fl (to_upper (arg0str args)))
      else if equal name (codes "LOWER")
      then value (str_val u fl (to_lower (arg0str args)))
      else if equal name (codes "TRIM")
      then value (str_val u fl (trim_space (arg0str args)))
      else if equal name (codes "LTRIM")
      then value (str_val u fl (trim_left (arg0str args)))
      else if equal name (codes "RTRIM")
      then value (str_val u fl (trim_right (arg0str args)))
      else if equal name (codes "CHR")
      then value (str_val u fl (rune_text (arg0int args)))
      else if equal name (codes "ASC")
      then asc_fn (arg0str args)
      else if equal name (codes "STR") || equal name (codes "STRING")
      then str_fn args
      else if equal name (codes "VAL") || equal name (codes "INT")
      then value (int_val u fl (arg0int args))
      else if equal name (codes "INSTR")
      then instr_fn args
      else if equal name (codes "SPACE")
      then repeat_fn (b' ' ∷ []) (arg0int args)
      else if equal name (codes "REPLICATE")
      then replicate_fn args
      else if equal name (codes "STRIP")
      then value (str_val u fl (printable (arg0str args)))
      else other

  abs_fn : List (V u fl) → Answer (V u fl)
  abs_fn [] = crashes
  abs_fn (a ∷ _) =
      if is_real u fl a.typ
      then value (real_val u fl (abs a.fnum))
      else let v = to_int_val u fl a in
        value (int_val u fl (if ltb_ℤ v (pos 0) then wrap64 (neg v) else v))

  sqrt_fn : List (V u fl) → Answer (V u fl)
  sqrt_fn [] = crashes
  sqrt_fn (a ∷ _) = value (real_val u fl (sqrt (to_float u fl a)))

  pow_fn : List (V u fl) → Answer (V u fl)
  pow_fn (a ∷ b ∷ _) = value (real_val u fl (pow (to_float u fl a) (to_float u fl b)))
  pow_fn _ = value (real_val u fl (float_zero u fl))

  mod_fn : List (V u fl) → Answer (V u fl)
  mod_fn (a ∷ b ∷ _) =
      if eqb_ℤ (to_int_val u fl b) (pos 0)
      then value (zero_val u fl)
      else value (int_val u fl (rem (to_int_val u fl a) (to_int_val u fl b)))
  mod_fn _ = value (zero_val u fl)

  iif_fn : List (V u fl) → Answer (V u fl)
  iif_fn (c ∷ a ∷ b ∷ _) = value (if to_bool u fl c then a else b)
  iif_fn _ = value (bool_val u fl false)

  unfoldable pub math_function : Bytes → List (V u fl) → Answer (V u fl)
  unfolding abs_fn sqrt_fn pow_fn mod_fn iif_fn
  math_function name args =
      if equal name (codes "ABS")
      then abs_fn args
      else if equal name (codes "SQR") || equal name (codes "SQRT")
      then sqrt_fn args
      else if equal name (codes "POW")
      then pow_fn args
      else if equal name (codes "MOD")
      then mod_fn args
      else if equal name (codes "IIF")
      then iif_fn args
      else other
