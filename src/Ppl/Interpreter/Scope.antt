-- ===== src/Ppl/Interpreter/Scope.antt =====
-- internal/ppl/interpreter.go: what `evalExpr`, `callFunc` and `callProc` do to the variables.
use virt_bbs.Prelude.{
  ◌≡◌, refl, subst, arith, Option-cases, inl, inr, ℕ, zero, suc, Bool, true, false, List, [], ◌∷◌,
  Bytes,
}
use virt_bbs.Ppl.Host.{Unicode, FloatOps}
use virt_bbs.Ppl.Ast.{
  Expr, int_lit, real_lit, str_lit, bool_lit, var_expr, bin_expr, unary_expr, call_expr, Exprs,
  no_exprs, cons_expr, Nodes, Param, TypeCode, BinOp,
}
use virt_bbs.Ppl.Types.{V}
use virt_bbs.Ppl.Interpreter.{
  Host, Info, Signal, sig_return, Outcome, done, failed, panic, out_of_fuel, Store, M, continue,
  get_var, find_func,
}
use virt_bbs.Ppl.Interpreter.Eval.{
  Machine, settle, leave_func, call_func, eval_args, bbs_function, function_value, eval_func_call,
  eval_bin, eval_expr, short_circuit,
}
use virt_bbs.Ppl.Interpreter.Calls.{call_proc, leave_proc}
use virt_bbs.Ppl.Interpreter.Exec.{machine}

module _ (u : Unicode) (fl : FloatOps) (W : Type 0) where
  -- The outcome leaves the variables `vs`, an error's as a result's.
  abbrev pub KeepsVars :
      {A : Type 0} → List (Bytes × V u fl) → Outcome (V u fl) (Store u fl W) A → Type 0
  KeepsVars vs (done a st) = st.vars ≡ vs
  KeepsVars vs (failed e v st) = st.vars ≡ vs
  KeepsVars vs panic = Unit
  KeepsVars vs out_of_fuel = Unit

  continue-KeepsVars :
      {A B : Type 0} (vs : List (Bytes × V u fl)) (o : Outcome (V u fl) (Store u fl W) A)
      (f : A → M u fl W B)
      → KeepsVars vs o
      → ((a : A) (st : Store u fl W) → st.vars ≡ vs → KeepsVars vs (f a st))
      → KeepsVars vs (continue u fl W o f)
  continue-KeepsVars vs (done a st) f h k = k a st h
  continue-KeepsVars vs (failed e v st) f h k = h
  continue-KeepsVars vs panic f h k = tt
  continue-KeepsVars vs out_of_fuel f h k = tt

  settle-KeepsVars :
      {B : Type 0} (vs : List (Bytes × V u fl)) (o : Outcome (V u fl) (Store u fl W) (V u fl))
      (f : V u fl → M u fl W B)
      → KeepsVars vs o
      → ((a : V u fl) (st : Store u fl W) → st.vars ≡ vs → KeepsVars vs (f a st))
      → KeepsVars vs (settle u fl W o f)
  settle-KeepsVars vs (done a st) f h k = k a st h
  settle-KeepsVars vs (failed e v st) f h k = k v st h
  settle-KeepsVars vs panic f h k = tt
  settle-KeepsVars vs out_of_fuel f h k = tt

  leave_func-KeepsVars :
      (vs : List (Bytes × V u fl)) (name : Bytes) (o : Outcome (V u fl) (Store u fl W) Signal)
      → KeepsVars vs (leave_func u fl W vs name o)
  unfolding leave_func
  leave_func-KeepsVars vs name (done a st) = refl
  leave_func-KeepsVars vs name (failed e v st) = refl
  leave_func-KeepsVars vs name panic = tt
  leave_func-KeepsVars vs name out_of_fuel = tt

  leave_proc-KeepsVars :
      (vs : List (Bytes × V u fl)) (o : Outcome (V u fl) (Store u fl W) Signal)
      → KeepsVars vs (leave_proc u fl W vs o)
  unfolding leave_proc
  leave_proc-KeepsVars vs (done Signal.sig_none st) = refl
  leave_proc-KeepsVars vs (done sig_return st) = refl
  leave_proc-KeepsVars vs (done Signal.sig_end st) = refl
  leave_proc-KeepsVars vs (done Signal.sig_quit st) = refl
  leave_proc-KeepsVars vs (done (Signal.sig_goto l) st) = refl
  leave_proc-KeepsVars vs (done (Signal.sig_gosub l) st) = refl
  leave_proc-KeepsVars vs (failed e v st) = refl
  leave_proc-KeepsVars vs panic = tt
  leave_proc-KeepsVars vs out_of_fuel = tt

  -- The outcome is the signal of RETURN.
  abbrev pub returns : Outcome (V u fl) (Store u fl W) Signal → Bool
  returns (done sig_return st) = true
  returns _ = false

  leave_proc-returns :
      (vs : List (Bytes × V u fl)) (o : Outcome (V u fl) (Store u fl W) Signal)
      → returns (leave_proc u fl W vs o) ≡ false
  unfolding leave_proc
  leave_proc-returns vs (done Signal.sig_none st) = refl
  leave_proc-returns vs (done sig_return st) = refl
  leave_proc-returns vs (done Signal.sig_end st) = refl
  leave_proc-returns vs (done Signal.sig_quit st) = refl
  leave_proc-returns vs (done (Signal.sig_goto l) st) = refl
  leave_proc-returns vs (done (Signal.sig_gosub l) st) = refl
  leave_proc-returns vs (failed e v st) = refl
  leave_proc-returns vs panic = refl
  leave_proc-returns vs out_of_fuel = refl

module _ (u : Unicode) (fl : FloatOps) (W : Type 0) (host : Host fl.Float W) (info : Info)
    (prog : Nodes fl.Float) (m : Machine u fl W)
    (m-keeps : (e : Expr fl.Float) (st : Store u fl W)
      → KeepsVars u fl W st.vars (m.eval e st)) where
  -- At variables that are only known to be equal.
  eval_at :
      (vs : List (Bytes × V u fl)) (e : Expr fl.Float) (st : Store u fl W)
      → st.vars ≡ vs
      → KeepsVars u fl W vs (m.eval e st)
  eval_at vs e st h = subst (λ vars. KeepsVars u fl W vars (m.eval e st)) h (m-keeps e st)

  call_func-KeepsVars :
      (vs : List (Bytes × V u fl)) (name : Bytes) (fn : List Param × TypeCode × Nodes fl.Float)
      (args : List (V u fl)) (st : Store u fl W)
      → st.vars ≡ vs
      → KeepsVars u fl W vs (call_func u fl W host info prog m name fn args st)
  unfolding call_func
  call_func-KeepsVars vs name fn args st h =
      subst (λ vars. KeepsVars u fl W vars (call_func u fl W host info prog m name fn args st)) h
        (leave_func-KeepsVars u fl W st.vars name _)

  bbs_function-KeepsVars :
      (vs : List (Bytes × V u fl)) (name : Bytes) (args : List (V u fl)) (st : Store u fl W)
      → st.vars ≡ vs
      → KeepsVars u fl W vs (bbs_function u fl W host info prog m name args st)
  unfolding bbs_function
  bbs_function-KeepsVars vs name [] st h = elim (Option-cases (find_func u prog name)) [
    | inl e ↦ ground (arith, e)
    | inr (fn, e) ↦ ground (arith, e, call_func-KeepsVars vs name fn [] st h)
  ]
  bbs_function-KeepsVars vs name (a ∷ args) st h = elim (Option-cases (find_func u prog name)) [
    | inl e ↦ ground (arith, e)
    | inr (fn, e) ↦ ground (arith, e, call_func-KeepsVars vs name fn (a ∷ args) st h)
  ]

  function_value-KeepsVars :
      (vs : List (Bytes × V u fl)) (name : Bytes) (args : List (V u fl)) (st : Store u fl W)
      → st.vars ≡ vs
      → KeepsVars u fl W vs (function_value u fl W host info prog m name args st)
  unfolding function_value
  function_value-KeepsVars vs name args st h =
      ground (arith, bbs_function-KeepsVars vs name args st h)

  eval_args-KeepsVars :
      (vs : List (Bytes × V u fl)) (es : Exprs fl.Float) (st : Store u fl W)
      → st.vars ≡ vs
      → KeepsVars u fl W vs (eval_args u fl W host info prog m es st)
  unfolding eval_args
  eval_args-KeepsVars vs no_exprs st h = h
  eval_args-KeepsVars vs (cons_expr e es) st h =
      continue-KeepsVars u fl W vs _ _ (eval_at vs e st h) (λ v st1 h1.
        continue-KeepsVars u fl W vs _ _ (eval_args-KeepsVars vs es st1 h1) (λ vs2 st2 h2. h2))

  eval_bin-KeepsVars :
      (vs : List (Bytes × V u fl)) (op : BinOp) (l r : Expr fl.Float) (st : Store u fl W)
      → st.vars ≡ vs
      → KeepsVars u fl W vs (eval_bin u fl W host info prog m op l r st)
  unfolding eval_bin
  eval_bin-KeepsVars vs op l r st h =
      continue-KeepsVars u fl W vs _ _ (eval_at vs l st h) (λ left st1 h1.
        elim (Option-cases (short_circuit u fl op left)) [
          | inl e ↦
              rw e (continue-KeepsVars u fl W vs _ _ (eval_at vs r st1 h1) (λ right st2 h2. h2))
          | inr (v, e) ↦ rw e h1
        ])

  eval_expr-KeepsVars :
      (vs : List (Bytes × V u fl)) (e : Expr fl.Float) (st : Store u fl W)
      → st.vars ≡ vs
      → KeepsVars u fl W vs (eval_expr u fl W host info prog m e st)
  unfolding eval_expr eval_func_call get_var
  eval_expr-KeepsVars vs (int_lit n) st h = h
  eval_expr-KeepsVars vs (real_lit n) st h = h
  eval_expr-KeepsVars vs (str_lit n) st h = h
  eval_expr-KeepsVars vs (bool_lit n) st h = h
  eval_expr-KeepsVars vs (var_expr name no_exprs) st h = ground arith
  eval_expr-KeepsVars vs (var_expr name (cons_expr i es)) st h =
      settle-KeepsVars u fl W vs _ _ (eval_at vs i st h) (λ v st1 h1. h1)
  eval_expr-KeepsVars vs (unary_expr op e) st h =
      continue-KeepsVars u fl W vs _ _ (eval_at vs e st h) (λ v st1 h1. h1)
  eval_expr-KeepsVars vs (bin_expr op l r) st h = eval_bin-KeepsVars vs op l r st h
  eval_expr-KeepsVars vs (call_expr name args) st h =
      continue-KeepsVars u fl W vs _ _ (eval_args-KeepsVars vs args st h)
        (λ v st1 h1. function_value-KeepsVars vs name v st1 h1)

module _ (u : Unicode) (fl : FloatOps) (W : Type 0) (host : Host fl.Float W) (info : Info)
    (prog : Nodes fl.Float) where
  -- An expression, evaluated to any depth in any program, ends with the variables that it started
  -- with, whatever functions of the program it calls and whether it ends with a value or an error.
  pub eval-KeepsVars :
      (n : ℕ) (e : Expr fl.Float) (st : Store u fl W)
      → KeepsVars u fl W st.vars ((machine u fl W host info prog n).eval e st)
  unfolding machine
  eval-KeepsVars zero e st = tt
  eval-KeepsVars (suc n) e st =
      eval_expr-KeepsVars u fl W host info prog (machine u fl W host info prog n)
        (λ e1 st1. eval-KeepsVars n e1 st1) st.vars e st refl

  -- A procedure, called at any depth with any arguments, ends with the variables of its caller, and
  -- never hands a RETURN on.
  pub call_proc-KeepsVars :
      (n : ℕ) (proc : List Param × Nodes fl.Float) (args : List (V u fl)) (st : Store u fl W)
      → KeepsVars u fl W st.vars
          (call_proc u fl W host info prog (machine u fl W host info prog n) proc args st)
        × (returns u fl W
              (call_proc u fl W host info prog (machine u fl W host info prog n) proc args st)
            ≡ false)
  unfolding call_proc
  call_proc-KeepsVars n (ps, body) args st =
      (leave_proc-KeepsVars u fl W st.vars _, leave_proc-returns u fl W st.vars _)
