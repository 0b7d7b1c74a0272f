-- ===== src/Ppl/Types.antt =====
-- internal/ppl/types.go: the values of the language and their coercions. A value carries every
-- field of its struct, and its type says which is read.
use virt_bbs.Prelude.{Bool, true, false, not, ◌&&◌, [], Bytes, codes, equal, if◌then◌else◌}
use virt_bbs.Prelude.Int.{ℤ, pos, eqb_ℤ}
use virt_bbs.Prelude.Decimal.{show_int}
use virt_bbs.Ppl.Host.{Unicode, FloatOps}
use virt_bbs.Ppl.Ast.{TypeCode, type_boolean, type_integer, type_real, type_string, type_big_str}

pub record Value (F : Type 0) : Type 0 where
  pub typ : TypeCode
  pub inum : ℤ
  pub fnum : F
  pub str : Bytes

module _ (u : Unicode) (fl : FloatOps) where
  open u use {scan_int}
  open fl use {Float, of_int, to_int, eq, scan, show}

  abbrev pub V : Type 0
  V = Value Float

  abbrev pub float_zero : Float
  float_zero = of_int (pos 0)

  abbrev pub int_val : ℤ → V
  int_val n = record { typ = type_integer; inum = n; fnum = float_zero; str = [] }

  abbrev pub str_val : Bytes → V
  str_val s = record { typ = type_string; inum = pos 0; fnum = float_zero; str = s }

  abbrev pub bool_val : Bool → V
  bool_val b = record {
    typ = type_boolean;
    inum = if b then pos 1 else pos 0;
    fnum = float_zero;
    str = [];
  }

  abbrev pub real_val : Float → V
  real_val f = record { typ = type_real; inum = pos 0; fnum = f; str = [] }

  abbrev pub zero_val : V
  zero_val = int_val (pos 0)

  abbrev pub empty_val : V
  empty_val = str_val []

  abbrev pub is_string : TypeCode → Bool
  is_string type_string = true
  is_string type_big_str = true
  is_string _ = false

  abbrev pub is_real : TypeCode → Bool
  is_real type_real = true
  is_real _ = false

  int_of : TypeCode → V → ℤ
  int_of type_real v = to_int v.fnum
  int_of type_string v = scan_int v.str
  int_of type_big_str v = scan_int v.str
  int_of _ v = v.inum

  unfoldable pub to_int_val : V → ℤ
  unfolding int_of
  to_int_val v = int_of v.typ v

  float_of : TypeCode → V → Float
  unfolding to_int_val
  float_of type_real v = v.fnum
  float_of type_string v = scan v.str
  float_of type_big_str v = scan v.str
  float_of _ v = of_int (to_int_val v)

  unfoldable pub to_float : V → Float
  unfolding float_of
  to_float v = float_of v.typ v

  string_of : TypeCode → V → Bytes
  string_of type_string v = v.str
  string_of type_big_str v = v.str
  string_of type_boolean v = if not (eqb_ℤ v.inum (pos 0)) then codes "TRUE" else codes "FALSE"
  string_of type_real v = show v.fnum
  string_of _ v = show_int v.inum

  unfoldable pub to_string : V → Bytes
  unfolding string_of
  to_string v = string_of v.typ v

  bool_of : TypeCode → V → Bool
  bool_of type_string v =
      not (equal v.str []) && not (equal v.str (codes "FALSE")) && not (equal v.str (codes "0"))
  bool_of type_big_str v =
      not (equal v.str []) && not (equal v.str (codes "FALSE")) && not (equal v.str (codes "0"))
  bool_of type_real v = not (eq v.fnum float_zero)
  bool_of _ v = not (eqb_ℤ v.inum (pos 0))

  unfoldable pub to_bool : V → Bool
  unfolding bool_of
  to_bool v = bool_of v.typ v

  -- `zeroValue` of interpreter.go
  unfoldable pub zero_value : TypeCode → V
  zero_value type_boolean = bool_val false
  zero_value type_real = real_val float_zero
  zero_value type_string = empty_val
  zero_value type_big_str = empty_val
  zero_value _ = zero_val
