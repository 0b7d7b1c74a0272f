-- ===== src/Ppl/Host.antt =====
-- What internal/ppl takes from Go: the tables of package `unicode`, the functions of package
-- `strings` that stand on them, and `float64`, which are arguments of the definitions.
-- A Go string is a list of bytes, a source text a list of runes.
use virt_bbs.Prelude.{
  ℕ, true, false, ◌+◌, ◌/◌, ◌%◌, Bool, List, [], ◌∷◌, ◌++◌, Bytes, ltb, leb, if◌then◌else◌, ◌||◌,
  ◌&&◌, ◌-◌, map, equal,
}
use virt_bbs.Prelude.Int.{ℤ, pos}
use virt_bbs.Prelude.Decimal.{parse_int, int_or_zero}

pub record Unicode : Type 0 where
  pub is_letter : ℕ → Bool
  pub is_digit : ℕ → Bool
  pub to_upper : Bytes → Bytes
  pub to_lower : Bytes → Bytes
  pub trim_space : Bytes → Bytes
  pub equal_fold : Bytes → Bytes → Bool
  -- `fmt.Sscanf(s, "%d", &n)`, which skips the blanks of package `unicode`; 0 where it fails
  pub scan_int : Bytes → ℤ

-- The tables and functions on ASCII text.
abbrev in_range : ℕ → ℕ → ℕ → Bool
in_range lo hi c = leb lo c && leb c hi

abbrev upper_byte : ℕ → ℕ
upper_byte c = if in_range b'a' b'z' c then c - 32 else c

abbrev lower_byte : ℕ → ℕ
lower_byte c = if in_range b'A' b'Z' c then c + 32 else c

abbrev pub ascii : Unicode
ascii = record {
  is_letter = λ c. in_range b'a' b'z' c || in_range b'A' b'Z' c;
  is_digit = λ c. in_range b'0' b'9' c;
  to_upper = map upper_byte;
  to_lower = map lower_byte;
  trim_space = λ s. s;
  equal_fold = λ a b. equal (map upper_byte a) (map upper_byte b);
  scan_int = λ s. int_or_zero (parse_int s);
}

-- `WriteRune`: the UTF-8 bytes of a rune; what is no scalar value becomes U+FFFD.
continuation : ℕ → ℕ
continuation n = 0x80 + n % 64

unfoldable pub utf8 : ℕ → Bytes
unfolding continuation
utf8 c =
    if ltb c 0x80
    then c ∷ []
    else if ltb c 0x800
    then (0xC0 + c / 64) ∷ continuation c ∷ []
    else if in_range 0xD800 0xDFFF c || ltb 0x10FFFF c
    then 0xEF ∷ 0xBF ∷ 0xBD ∷ []
    else if ltb c 0x1_0000
    then (0xE0 + c / 4096) ∷ continuation (c / 64) ∷ continuation c ∷ []
    else (0xF0 + c / 262144) ∷ continuation (c / 4096) ∷ continuation (c / 64) ∷ continuation c ∷ []

abbrev pub encode : List ℕ → Bytes
encode [] = []
encode (c ∷ cs) = utf8 c ++ encode cs

pub record FloatOps : Type 1 where
  pub Float : Type 0
  pub of_int : ℤ → Float
  pub to_int : Float → ℤ
  pub neg : Float → Float
  pub add : Float → Float → Float
  pub sub : Float → Float → Float
  pub mul : Float → Float → Float
  pub div : Float → Float → Float
  pub pow : Float → Float → Float
  pub abs : Float → Float
  pub sqrt : Float → Float
  pub eq : Float → Float → Bool
  pub lt : Float → Float → Bool
  pub le : Float → Float → Bool
  -- `strconv.ParseFloat`, `fmt.Sscanf` with `%f`, `fmt.Sprintf` with `%g`
  pub parse : Bytes → Float
  pub scan : Bytes → Float
  pub show : Float → Bytes

-- A `float64` of no content, for programs with no real numbers.
abbrev pub no_floats : FloatOps
no_floats = record {
  Float = Unit {0};
  of_int = λ _. tt;
  to_int = λ _. pos 0;
  neg = λ _. tt;
  add = λ _ _. tt;
  sub = λ _ _. tt;
  mul = λ _ _. tt;
  div = λ _ _. tt;
  pow = λ _ _. tt;
  abs = λ _. tt;
  sqrt = λ _. tt;
  eq = λ _ _. true;
  lt = λ _ _. false;
  le = λ _ _. true;
  parse = λ _. tt;
  scan = λ _. tt;
  show = λ _. [];
}
