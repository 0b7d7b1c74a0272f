-- ===== src/Ppl/Interpreter/Eval.antt =====
-- internal/ppl/interpreter.go: `evalExpr`, `evalBin`, `evalFuncCall` and `callFunc`. A part of a
-- run that another part calls is reached through a `Machine`, which `Exec` builds on fuel.
use virt_bbs.Prelude.{
  Bool, true, false, not, ◌&&◌, ◌||◌, Option, none, some, List, [], ◌∷◌, ◌++◌, Bytes, codes, equal,
  get_elem?, if◌then◌else◌,
}
use virt_bbs.Prelude.Int.{ℤ, pos, ◌+ℤ◌, ◌-ℤ◌, ◌*ℤ◌, neg, quot, rem, eqb_ℤ, ltb_ℤ, wrap64}
use virt_bbs.Ppl.Host.{Unicode, FloatOps}
use virt_bbs.Ppl.Ast.{
  TypeCode, BinOp, op_or, op_and, op_eq, op_ne, op_lt, op_le, op_gt, op_ge, op_add, op_sub, op_mul,
  op_div, op_mod, op_pow, UnaryOp, op_neg, op_not, Expr, int_lit, real_lit, str_lit, bool_lit,
  var_expr, bin_expr, unary_expr, call_expr, Exprs, no_exprs, cons_expr, Param, Nodes,
}
use virt_bbs.Ppl.Types.{
  V, int_val, str_val, real_val, bool_val, zero_val, is_string, is_real, to_int_val, to_float,
  to_string, to_bool, float_zero, zero_value,
}
use virt_bbs.Ppl.Interpreter.{
  Host, Info, Signal, Outcome, done, failed, panic, out_of_fuel, Store, M, continue, get, put,
  get_var, find_func,
}
use virt_bbs.Ppl.Interpreter.Builtins.{value, crashes, other, string_function, math_function}

pub record Machine (u : Unicode) (fl : FloatOps) (W : Type 0) : Type 0 where
  pub eval : Expr fl.Float → M u fl W (V u fl)
  pub stmts : Nodes fl.Float → Nodes fl.Float → M u fl W Signal
  pub while_loop : Expr fl.Float → Nodes fl.Float → M u fl W Signal
  pub for_loop : Bytes → ℤ → ℤ → ℤ → Nodes fl.Float → M u fl W Signal

-- `evalBin` on the two values, the short circuit apart.
module _ (u : Unicode) (fl : FloatOps) where
  open u use {equal_fold}
  open fl use {Float, of_int, to_int, add, sub, mul, div, pow, eq, lt, le}

  unfoldable pub float_op : BinOp → Float → Float → Option (V u fl)
  float_op op_add l r = some (real_val u fl (add l r))
  float_op op_sub l r = some (real_val u fl (sub l r))
  float_op op_mul l r = some (real_val u fl (mul l r))
  float_op op_div l r =
      some (real_val u fl (if eq r (float_zero u fl) then float_zero u fl else div l r))
  float_op op_pow l r = some (real_val u fl (pow l r))
  float_op op_eq l r = some (bool_val u fl (eq l r))
  float_op op_ne l r = some (bool_val u fl (not (eq l r)))
  float_op op_lt l r = some (bool_val u fl (lt l r))
  float_op op_le l r = some (bool_val u fl (le l r))
  float_op op_gt l r = some (bool_val u fl (lt r l))
  float_op op_ge l r = some (bool_val u fl (le r l))
  float_op _ l r = none

  abbrev equal_vals : V u fl → V u fl → Bool
  equal_vals left right =
      if is_string u fl left.typ
      then equal_fold left.str right.str
      else eqb_ℤ (to_int_val u fl left) (to_int_val u fl right)

  unfoldable pub int_op : BinOp → V u fl → V u fl → V u fl
  int_op op_add left right = int_val u fl (wrap64 (to_int_val u fl left +ℤ to_int_val u fl right))
  int_op op_sub left right = int_val u fl (wrap64 (to_int_val u fl left -ℤ to_int_val u fl right))
  int_op op_mul left right = int_val u fl (wrap64 (to_int_val u fl left *ℤ to_int_val u fl right))
  int_op op_div left right = int_val u fl (
      if eqb_ℤ (to_int_val u fl right) (pos 0)
      then pos 0
      else wrap64 (quot (to_int_val u fl left) (to_int_val u fl right)))
  int_op op_mod left right = int_val u fl (
      if eqb_ℤ (to_int_val u fl right) (pos 0)
      then pos 0
      else rem (to_int_val u fl left) (to_int_val u fl right))
  int_op op_pow left right =
      int_val u fl (to_int (pow (of_int (to_int_val u fl left)) (of_int (to_int_val u fl right))))
  int_op op_eq left right = bool_val u fl (equal_vals left right)
  int_op op_ne left right = bool_val u fl (not (equal_vals left right))
  int_op op_lt left right = bool_val u fl (ltb_ℤ (to_int_val u fl left) (to_int_val u fl right))
  int_op op_le left right =
      bool_val u fl (not (ltb_ℤ (to_int_val u fl right) (to_int_val u fl left)))
  int_op op_gt left right = bool_val u fl (ltb_ℤ (to_int_val u fl right) (to_int_val u fl left))
  int_op op_ge left right =
      bool_val u fl (not (ltb_ℤ (to_int_val u fl left) (to_int_val u fl right)))
  int_op op_and left right = bool_val u fl (to_bool u fl left && to_bool u fl right)
  int_op op_or left right = bool_val u fl (to_bool u fl left || to_bool u fl right)

  abbrev is_add : BinOp → Bool
  is_add op_add = true
  is_add _ = false

  abbrev int_unless : Option (V u fl) → BinOp → V u fl → V u fl → V u fl
  int_unless none op left right = int_op op left right
  int_unless (some v) op left right = v

  unfoldable pub bin_value : BinOp → V u fl → V u fl → V u fl
  bin_value op left right =
      if is_add op && is_string u fl left.typ
      then str_val u fl (to_string u fl left ++ to_string u fl right)
      else if is_real u fl left.typ || is_real u fl right.typ
      then int_unless (float_op op (to_float u fl left) (to_float u fl right)) op left right
      else int_op op left right

  -- The value that the left operand alone decides.
  unfoldable pub short_circuit : BinOp → V u fl → Option (V u fl)
  short_circuit op_and left = if to_bool u fl left then none else some (bool_val u fl false)
  short_circuit op_or left = if to_bool u fl left then some (bool_val u fl true) else none
  short_circuit _ left = none

  unfoldable pub unary_value : UnaryOp → V u fl → V u fl
  unary_value op_neg v =
      if is_real u fl v.typ
      then real_val u fl (fl.neg v.fnum)
      else int_val u fl (wrap64 (neg (to_int_val u fl v)))
  unary_value op_not v = bool_val u fl (not (to_bool u fl v))

  -- `arr[i]`, or `Zero` out of range and where there is no array.
  unfoldable pub element : Option (List (V u fl)) → ℤ → V u fl
  element (some arr) (pos i) = elim (get_elem? arr i) [ none ↦ zero_val u fl | some v ↦ v ]
  element _ _ = zero_val u fl

  unfoldable pub bind_params :
      List Param → List (V u fl) → List (Bytes × V u fl) → List (Bytes × V u fl)
  bind_params (p ∷ ps) (a ∷ args) vars = bind_params ps args (put p.name a vars)
  bind_params _ _ vars = vars

module _ (u : Unicode) (fl : FloatOps) (W : Type 0) where
  -- A result whose error is ignored: `v, _ := ...`.
  abbrev pub settle :
      {B : Type 0}
      → Outcome (V u fl) (Store u fl W) (V u fl)
      → (V u fl → M u fl W B)
      → Outcome (V u fl) (Store u fl W) B
  settle (done v st) f = f v st
  settle (failed e v st) f = f v st
  settle panic f = panic
  settle out_of_fuel f = out_of_fuel

  abbrev result_var : Bytes → Store u fl W → V u fl
  result_var name st = elim (get name st.vars) [ none ↦ bool_val u fl false | some v ↦ v ]

  -- The end of `callFunc`: the result is read from the variables of the call, which are dropped.
  unfoldable pub leave_func :
      List (Bytes × V u fl)
      → Bytes
      → Outcome (V u fl) (Store u fl W) Signal
      → Outcome (V u fl) (Store u fl W) (V u fl)
  leave_func saved name (done sig st) = done (result_var name st) (record st { vars = saved })
  leave_func saved name (failed e v st) = failed e (result_var name st) (record st { vars = saved })
  leave_func saved name panic = panic
  leave_func saved name out_of_fuel = out_of_fuel

module _ (u : Unicode) (fl : FloatOps) (W : Type 0) (host : Host fl.Float W) (info : Info)
    (prog : Nodes fl.Float) (m : Machine u fl W) where
  unfoldable pub call_func :
      Bytes → List Param × TypeCode × Nodes fl.Float → List (V u fl) → M u fl W (V u fl)
  call_func name (ps, tc, body) args st = leave_func u fl W st.vars name (
      m.stmts body body
        (record st { vars = put name (zero_value u fl tc) (bind_params u fl ps args st.vars) }))

  unfoldable pub eval_args : Exprs fl.Float → M u fl W (List (V u fl))
  eval_args no_exprs st = done [] st
  eval_args (cons_expr e es) st =
      continue u fl W (m.eval e st)
        (λ v st1. continue u fl W (eval_args es st1) (λ vs st2. done (v ∷ vs) st2))

  abbrev with_world :
      {A : Type 0} → (A → V u fl) → Store u fl W → A × W → Outcome (V u fl) (Store u fl W) (V u fl)
  with_world f st (a, w) = done (f a) (record st { world = w })

  random_below_fn : List (V u fl) → M u fl W (V u fl)
  random_below_fn [] st = done (zero_val u fl) st
  random_below_fn (a ∷ _) st =
      if ltb_ℤ (pos 0) (to_int_val u fl a)
      then with_world (int_val u fl) st (host.random_below (to_int_val u fl a) st.world)
      else done (zero_val u fl) st

  abbrev first_text : List (V u fl) → Bytes
  first_text [] = []
  first_text (a ∷ _) = to_string u fl a

  -- The functions that read the BBS, the clock and the random numbers, and those of the program.
  unfoldable pub bbs_function : Bytes → List (V u fl) → M u fl W (V u fl)
  unfolding random_below_fn
  bbs_function name args st =
      if equal name (codes "RND")
      then with_world (real_val u fl) st (host.random_float st.world)
      else if equal name (codes "RANDOM")
      then random_below_fn args st
      else if equal name (codes "DATE")
      then done (str_val u fl (host.date st.world)) st
      else if equal name (codes "TIME")
      then done (str_val u fl (host.time st.world)) st
      else if equal name (codes "U_NAME")
      then done (str_val u fl st.user_name) st
      else if equal name (codes "U_CITY")
      then done (str_val u fl st.user_city) st
      else if equal name (codes "U_SEC") || equal name (codes "CURSEC")
      then done (int_val u fl info.user_sec) st
      else if equal name (codes "U_TIMESON")
      then done (int_val u fl info.user_times_on) st
      else if equal name (codes "BBSNAME")
      then done (str_val u fl info.bbs_name) st
      else if equal name (codes "SYSOPNAME")
      then done (str_val u fl info.sysop_name) st
      else if equal name (codes "NODENUM")
      then done (int_val u fl info.node_num) st
      else if equal name (codes "EXIST")
      then done (bool_val u fl (host.exist (first_text args) st.world)) st
      else if equal name (codes "PPEPATH")
      then done (str_val u fl info.ppe_path) st
      else elim (find_func u prog name) [
        | none ↦ done (zero_val u fl) st
        | some fn ↦ call_func name fn args st
      ]

  unfoldable pub function_value : Bytes → List (V u fl) → M u fl W (V u fl)
  function_value name args st = elim (string_function u fl name args) [
    | value v ↦ done v st
    | crashes ↦ panic
    | other ↦ elim (math_function u fl name args) [
      | value v ↦ done v st
      | crashes ↦ panic
      | other ↦ bbs_function name args st
    ]
  ]

  unfoldable pub eval_func_call : Bytes → Exprs fl.Float → M u fl W (V u fl)
  eval_func_call name args st = continue u fl W (eval_args args st) (function_value name)

  unfoldable pub eval_bin : BinOp → Expr fl.Float → Expr fl.Float → M u fl W (V u fl)
  eval_bin op l r st = continue u fl W (m.eval l st) (λ left st1.
      elim (short_circuit u fl op left) [
        | some v ↦ done v st1
        | none ↦
            continue u fl W (m.eval r st1) (λ right st2. done (bin_value u fl op left right) st2)
      ])

  unfoldable pub eval_expr : Expr fl.Float → M u fl W (V u fl)
  eval_expr (int_lit n) st = done (int_val u fl n) st
  eval_expr (real_lit f) st = done (real_val u fl f) st
  eval_expr (str_lit s) st = done (str_val u fl s) st
  eval_expr (bool_lit b) st = done (bool_val u fl b) st
  eval_expr (var_expr name no_exprs) st = get_var u fl W name st
  eval_expr (var_expr name (cons_expr i _)) st =
      settle u fl W (m.eval i st)
        (λ idx st1. done (element u fl (get name st1.arrays) (to_int_val u fl idx)) st1)
  eval_expr (unary_expr op e) st =
      continue u fl W (m.eval e st) (λ v st1. done (unary_value u fl op v) st1)
  eval_expr (bin_expr op l r) st = eval_bin op l r st
  eval_expr (call_expr name args) st = eval_func_call name args st
