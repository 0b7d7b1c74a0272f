-- ===== src/Ppl/Interpreter/Fuel/Evaluation.antt =====
-- internal/ppl/interpreter.go: `evalExpr` with a deeper machine.
use virt_bbs.Prelude.{refl, subst, List, [], ◌∷◌, Bytes, arith, Option-cases, inl, inr}
use virt_bbs.Ppl.Host.{Unicode, FloatOps}
use virt_bbs.Ppl.Ast.{
  Expr, int_lit, real_lit, str_lit, bool_lit, var_expr, bin_expr, unary_expr, call_expr, Exprs,
  no_exprs, cons_expr, Nodes, Param, TypeCode, BinOp,
}
use virt_bbs.Ppl.Types.{V}
use virt_bbs.Ppl.Interpreter.{
  Host, Info, Signal, done, failed, panic, out_of_fuel, Store, find_func,
}
use virt_bbs.Ppl.Interpreter.Builtins.{
  Answer, value, crashes, other, string_function, math_function,
}
use virt_bbs.Ppl.Interpreter.Eval.{
  Machine, leave_func, call_func, eval_args, bbs_function, function_value, eval_func_call, eval_bin,
  eval_expr, short_circuit,
}
use virt_bbs.Ppl.Interpreter.Fuel.{Out, Below, Below-refl, continue-Below, settle-Below}

module _ (u : Unicode) (fl : FloatOps) (W : Type 0) where
  answer-Below :
      (o : Answer (V u fl)) (st : Store u fl W) (p q : Out u fl W (V u fl))
      → Below u fl W p q
      → Below u fl W
          (elim o [ value v ↦ done v st | crashes ↦ panic | other ↦ p ])
          (elim o [ value v ↦ done v st | crashes ↦ panic | other ↦ q ])
  answer-Below (value v) st p q h = refl
  answer-Below crashes st p q h = refl
  answer-Below other st p q h = h

  leave_func-Below :
      (vs : List (Bytes × V u fl)) (name : Bytes) (o p : Out u fl W Signal)
      → Below u fl W o p
      → Below u fl W (leave_func u fl W vs name o) (leave_func u fl W vs name p)
  unfolding leave_func
  leave_func-Below vs name (done a st) p h =
      subst
        (λ x. Below u fl W (leave_func u fl W vs name (done a st)) (leave_func u fl W vs name x)) h
        refl
  leave_func-Below vs name (failed e v st) p h =
      subst
        (λ x.
          Below u fl W (leave_func u fl W vs name (failed e v st)) (leave_func u fl W vs name x))
        h refl
  leave_func-Below vs name panic p h =
      subst (λ x. Below u fl W (leave_func u fl W vs name panic) (leave_func u fl W vs name x)) h
        refl
  leave_func-Below vs name out_of_fuel p h = tt

module _ (u : Unicode) (fl : FloatOps) (W : Type 0) (host : Host fl.Float W) (info : Info)
    (prog : Nodes fl.Float) (m m1 : Machine u fl W)
    (evals : (e : Expr fl.Float) (st : Store u fl W) → Below u fl W (m.eval e st) (m1.eval e st))
    (runs : (whole rest : Nodes fl.Float) (st : Store u fl W)
      → Below u fl W (m.stmts whole rest st) (m1.stmts whole rest st)) where
  call_func-Below :
      (name : Bytes) (fn : List Param × TypeCode × Nodes fl.Float) (args : List (V u fl))
      (st : Store u fl W)
      → Below u fl W
          (call_func u fl W host info prog m name fn args st)
          (call_func u fl W host info prog m1 name fn args st)
  unfolding call_func
  call_func-Below name (ps, tc, body) args st =
      leave_func-Below u fl W st.vars name _ _ (runs body body _)

  pub eval_args-Below :
      (es : Exprs fl.Float) (st : Store u fl W)
      → Below u fl W
          (eval_args u fl W host info prog m es st)
          (eval_args u fl W host info prog m1 es st)
  unfolding eval_args
  eval_args-Below no_exprs st = refl
  eval_args-Below (cons_expr e es) st =
      continue-Below u fl W _ _ _ _ (evals e st)
        (λ v st1. continue-Below u fl W _ _ _ _ (eval_args-Below es st1) (λ vs st2. refl))

  bbs_function-Below :
      (name : Bytes) (args : List (V u fl)) (st : Store u fl W)
      → Below u fl W
          (bbs_function u fl W host info prog m name args st)
          (bbs_function u fl W host info prog m1 name args st)
  unfolding bbs_function
  bbs_function-Below name [] st = elim (Option-cases (find_func u prog name)) [
    | inl e ↦ ground (arith, e)
    | inr (fn, e) ↦ ground (arith, e, call_func-Below name fn [] st)
  ]
  bbs_function-Below name (a ∷ args) st = elim (Option-cases (find_func u prog name)) [
    | inl e ↦ ground (arith, e)
    | inr (fn, e) ↦ ground (arith, e, call_func-Below name fn (a ∷ args) st)
  ]

  function_value-Below :
      (name : Bytes) (args : List (V u fl)) (st : Store u fl W)
      → Below u fl W
          (function_value u fl W host info prog m name args st)
          (function_value u fl W host info prog m1 name args st)
  unfolding function_value
  function_value-Below name args st =
      answer-Below u fl W (string_function u fl name args) st _ _ (
        answer-Below u fl W (math_function u fl name args) st _ _ (bbs_function-Below name args st))

  eval_bin-Below :
      (op : BinOp) (l r : Expr fl.Float) (st : Store u fl W)
      → Below u fl W
          (eval_bin u fl W host info prog m op l r st)
          (eval_bin u fl W host info prog m1 op l r st)
  unfolding eval_bin
  eval_bin-Below op l r st = continue-Below u fl W _ _ _ _ (evals l st) (λ left st1.
      elim (Option-cases (short_circuit u fl op left)) [
        | inl e ↦ rw e (continue-Below u fl W _ _ _ _ (evals r st1) (λ right st2. refl))
        | inr (v, e) ↦ rw e refl
      ])

  pub eval_expr-Below :
      (e : Expr fl.Float) (st : Store u fl W)
      → Below u fl W
          (eval_expr u fl W host info prog m e st)
          (eval_expr u fl W host info prog m1 e st)
  unfolding eval_expr eval_func_call
  eval_expr-Below (int_lit n) st = refl
  eval_expr-Below (real_lit n) st = refl
  eval_expr-Below (str_lit n) st = refl
  eval_expr-Below (bool_lit b) st = refl
  eval_expr-Below (var_expr name no_exprs) st = Below-refl u fl W _
  eval_expr-Below (var_expr name (cons_expr i es)) st =
      settle-Below u fl W _ _ _ _ (evals i st) (λ v st1. refl)
  eval_expr-Below (unary_expr op e) st = continue-Below u fl W _ _ _ _ (evals e st) (λ v st1. refl)
  eval_expr-Below (bin_expr op l r) st = eval_bin-Below op l r st
  eval_expr-Below (call_expr name args) st =
      continue-Below u fl W _ _ _ _ (eval_args-Below args st)
        (λ v st1. function_value-Below name v st1)
