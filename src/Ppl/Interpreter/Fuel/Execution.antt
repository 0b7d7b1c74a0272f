-- ===== src/Ppl/Interpreter/Fuel/Execution.antt =====
-- internal/ppl/interpreter.go: `execStmts`, `execStmt` and `execCall` with a deeper machine.
use virt_bbs.Prelude.{arith, refl, subst, List, Bytes, Option-cases, inl, inr}
use virt_bbs.Prelude.Int.{ℤ}
use virt_bbs.Ppl.Host.{Unicode, FloatOps}
use virt_bbs.Ppl.Ast.{
  TypeCode, Expr, Exprs, no_exprs, cons_expr, Node, nil_node, dim_stmt, assign_stmt, if_stmt,
  while_stmt, for_stmt, goto_stmt, gosub_stmt, return_stmt, label_stmt, end_stmt, quit_stmt,
  call_stmt, proc_decl, func_decl, Nodes, no_nodes, cons_node, ElseIfs, no_else_ifs, cons_else_if,
  Param,
}
use virt_bbs.Ppl.Types.{V, int_val, to_bool}
use virt_bbs.Ppl.Interpreter.{
  Host, Info, Signal, sig_none, sig_return, sig_end, sig_quit, sig_goto, sig_gosub, done, failed,
  panic, out_of_fuel, Store, find_label, find_proc, set_var,
}
use virt_bbs.Ppl.Interpreter.Eval.{Machine}
use virt_bbs.Ppl.Interpreter.Calls.{leave_proc, call_proc, statement, exec_call}
use virt_bbs.Ppl.Interpreter.Exec.{
  array_size, exec_dim, exec_assign, exec_else_ifs, exec_if, next_round, while_step, for_step, past,
  exec_for, after_stmt, exec_stmt, exec_stmts, is_none,
}
use virt_bbs.Ppl.Interpreter.Fuel.{Out, Below, Below-refl, continue-Below, settle-Below, elim-Below}
use virt_bbs.Ppl.Interpreter.Fuel.Evaluation.{eval_args-Below}

module _ (u : Unicode) (fl : FloatOps) (W : Type 0) where
  leave_proc-Below :
      (vs : List (Bytes × V u fl)) (o p : Out u fl W Signal)
      → Below u fl W o p
      → Below u fl W (leave_proc u fl W vs o) (leave_proc u fl W vs p)
  unfolding leave_proc
  leave_proc-Below vs (done a st) p h =
      subst (λ x. Below u fl W (leave_proc u fl W vs (done a st)) (leave_proc u fl W vs x)) h
        (Below-refl u fl W (leave_proc u fl W vs (done a st)))
  leave_proc-Below vs (failed e v st) p h =
      subst (λ x. Below u fl W (leave_proc u fl W vs (failed e v st)) (leave_proc u fl W vs x)) h
        (Below-refl u fl W (leave_proc u fl W vs (failed e v st)))
  leave_proc-Below vs panic p h =
      subst (λ x. Below u fl W (leave_proc u fl W vs panic) (leave_proc u fl W vs x)) h
        (Below-refl u fl W (leave_proc u fl W vs panic))
  leave_proc-Below vs out_of_fuel p h = tt

module _ (u : Unicode) (fl : FloatOps) (W : Type 0) (m m1 : Machine u fl W)
    (evals : (e : Expr fl.Float) (st : Store u fl W) → Below u fl W (m.eval e st) (m1.eval e st))
    (runs : (whole rest : Nodes fl.Float) (st : Store u fl W)
      → Below u fl W (m.stmts whole rest st) (m1.stmts whole rest st))
    (whiles : (c : Expr fl.Float) (body : Nodes fl.Float) (st : Store u fl W)
      → Below u fl W (m.while_loop c body st) (m1.while_loop c body st))
    (fors : (name : Bytes) (i stop step : ℤ) (body : Nodes fl.Float) (st : Store u fl W)
      → Below u fl W
          (m.for_loop name i stop step body st)
          (m1.for_loop name i stop step body st)) where
  array_size-Below :
      (es : Exprs fl.Float) (n : ℤ) (st : Store u fl W)
      → Below u fl W (array_size u fl W m es n st) (array_size u fl W m1 es n st)
  unfolding array_size
  array_size-Below no_exprs n st = refl
  array_size-Below (cons_expr e es) n st =
      continue-Below u fl W _ _ _ _ (evals e st) (λ v st1. array_size-Below es _ st1)

  exec_dim-Below :
      (name : Bytes) (tc : TypeCode) (es : Exprs fl.Float) (st : Store u fl W)
      → Below u fl W (exec_dim u fl W m name tc es st) (exec_dim u fl W m1 name tc es st)
  unfolding exec_dim
  exec_dim-Below name tc no_exprs st = Below-refl u fl W _
  exec_dim-Below name tc (cons_expr e es) st =
      continue-Below u fl W _ _ _ _ (array_size-Below (cons_expr e es) _ st)
        (λ n st1. Below-refl u fl W _)

  exec_assign-Below :
      (name : Bytes) (es : Exprs fl.Float) (e : Expr fl.Float) (st : Store u fl W)
      → Below u fl W (exec_assign u fl W m name es e st) (exec_assign u fl W m1 name es e st)
  unfolding exec_assign
  exec_assign-Below name no_exprs e st =
      continue-Below u fl W _ _ _ _ (evals e st) (λ v st1. Below-refl u fl W _)
  exec_assign-Below name (cons_expr i es) e st =
      continue-Below u fl W _ _ _ _ (evals e st)
        (λ v st1. continue-Below u fl W _ _ _ _ (evals i st1) (λ idx st2. Below-refl u fl W _))

  exec_else_ifs-Below :
      (eis : ElseIfs fl.Float) (els : Nodes fl.Float) (st : Store u fl W)
      → Below u fl W (exec_else_ifs u fl W m eis els st) (exec_else_ifs u fl W m1 eis els st)
  unfolding exec_else_ifs
  exec_else_ifs-Below no_else_ifs els st = runs els els st
  exec_else_ifs-Below (cons_else_if c body eis) els st =
      continue-Below u fl W _ _ _ _ (evals c st) (λ v st1.
        elim-Below u fl W (to_bool u fl v) _ _ _ _ (runs body body st1)
          (exec_else_ifs-Below eis els st1))

  exec_if-Below :
      (c : Expr fl.Float) (thn : Nodes fl.Float) (eis : ElseIfs fl.Float) (els : Nodes fl.Float)
      (st : Store u fl W)
      → Below u fl W (exec_if u fl W m c thn eis els st) (exec_if u fl W m1 c thn eis els st)
  unfolding exec_if
  exec_if-Below c thn eis els st = continue-Below u fl W _ _ _ _ (evals c st) (λ v st1.
      elim-Below u fl W (to_bool u fl v) _ _ _ _ (runs thn thn st1)
        (exec_else_ifs-Below eis els st1))

  pub while_step-Below :
      (c : Expr fl.Float) (body : Nodes fl.Float) (st : Store u fl W)
      → Below u fl W (while_step u fl W m c body st) (while_step u fl W m1 c body st)
  unfolding while_step next_round
  while_step-Below c body st = continue-Below u fl W _ _ _ _ (evals c st) (λ v st1.
      elim-Below u fl W (to_bool u fl v) _ _ _ _
        (continue-Below u fl W _ _ _ _ (runs body body st1)
          (λ sig st2. elim-Below u fl W (is_none sig) _ _ _ _ (whiles c body st2) refl))
        refl)

  pub for_step-Below :
      (name : Bytes) (i stop step : ℤ) (body : Nodes fl.Float) (st : Store u fl W)
      → Below u fl W
          (for_step u fl W m name i stop step body st)
          (for_step u fl W m1 name i stop step body st)
  unfolding for_step next_round
  for_step-Below name i stop step body st = elim-Below u fl W (past i stop step) _ _ _ _ refl (
      continue-Below u fl W _ _ _ _ (Below-refl u fl W (set_var u fl W name (int_val u fl i) st))
        (λ x st1. continue-Below u fl W _ _ _ _ (runs body body st1) (λ sig st2.
          elim-Below u fl W (is_none sig) _ _ _ _ (fors name _ stop step body st2) refl)))

  exec_for-Below :
      (name : Bytes) (start stop step : Expr fl.Float) (body : Nodes fl.Float) (st : Store u fl W)
      → Below u fl W
          (exec_for u fl W m name start stop step body st)
          (exec_for u fl W m1 name start stop step body st)
  unfolding exec_for
  exec_for-Below name start stop step body st =
      settle-Below u fl W _ _ _ _ (evals start st) (λ a st1.
        settle-Below u fl W _ _ _ _ (evals stop st1) (λ b st2.
          settle-Below u fl W _ _ _ _ (evals step st2) (λ c st3. fors name _ _ _ body st3)))

  after_stmt-Below :
      (whole rest : Nodes fl.Float) (sig : Signal) (st : Store u fl W)
      → Below u fl W
          (after_stmt u fl W m whole rest sig st)
          (after_stmt u fl W m1 whole rest sig st)
  unfolding after_stmt
  after_stmt-Below whole rest sig_none st = runs whole rest st
  after_stmt-Below whole rest (sig_goto l) st = elim (Option-cases (find_label u whole l)) [
    | inl e ↦ ground (arith, e)
    | inr (there, e) ↦ ground (arith, e, runs whole there st)
  ]
  after_stmt-Below whole rest (sig_gosub l) st = elim (Option-cases (find_label u whole l)) [
    | inl e ↦ ground (arith, e)
    | inr (sub, e) ↦ ground (
      arith,
      e,
      continue-Below u fl W (m.stmts sub sub st) (m1.stmts sub sub st)
          (λ sig st1. m.stmts whole rest st1) (λ sig st1. m1.stmts whole rest st1) (runs sub sub st)
          (λ sig st1. runs whole rest st1),
    )
  ]
  after_stmt-Below whole rest sig_return st = refl
  after_stmt-Below whole rest sig_end st = refl
  after_stmt-Below whole rest sig_quit st = refl

module _ (u : Unicode) (fl : FloatOps) (W : Type 0) (host : Host fl.Float W) (info : Info)
    (prog : Nodes fl.Float) where
  module _ (m m1 : Machine u fl W)
      (evals : (e : Expr fl.Float) (st : Store u fl W) → Below u fl W (m.eval e st) (m1.eval e st))
      (runs : (whole rest : Nodes fl.Float) (st : Store u fl W)
        → Below u fl W (m.stmts whole rest st) (m1.stmts whole rest st)) where
    call_proc-Below :
        (proc : List Param × Nodes fl.Float) (args : List (V u fl)) (st : Store u fl W)
        → Below u fl W
            (call_proc u fl W host info prog m proc args st)
            (call_proc u fl W host info prog m1 proc args st)
    unfolding call_proc
    call_proc-Below (ps, body) args st = leave_proc-Below u fl W st.vars _ _ (runs body body _)

    statement-Below :
        (name : Bytes) (es : Exprs fl.Float) (args : List (V u fl)) (st : Store u fl W)
        → Below u fl W
            (statement u fl W host info prog m name es args st)
            (statement u fl W host info prog m1 name es args st)
    unfolding statement
    statement-Below name es args st = elim (Option-cases (find_proc u prog name)) [
      | inl e ↦ ground (arith, e)
      | inr (proc, e) ↦ ground (arith, e, call_proc-Below proc args st)
    ]

    exec_call-Below :
        (name : Bytes) (es : Exprs fl.Float) (st : Store u fl W)
        → Below u fl W
            (exec_call u fl W host info prog m name es st)
            (exec_call u fl W host info prog m1 name es st)
    unfolding exec_call
    exec_call-Below name es st =
        continue-Below u fl W _ _ _ _ (eval_args-Below u fl W host info prog m m1 evals runs es st)
          (λ args st1. statement-Below name es args st1)

  module _ (m m1 : Machine u fl W)
      (evals : (e : Expr fl.Float) (st : Store u fl W) → Below u fl W (m.eval e st) (m1.eval e st))
      (runs : (whole rest : Nodes fl.Float) (st : Store u fl W)
        → Below u fl W (m.stmts whole rest st) (m1.stmts whole rest st))
      (whiles : (c : Expr fl.Float) (body : Nodes fl.Float) (st : Store u fl W)
        → Below u fl W (m.while_loop c body st) (m1.while_loop c body st))
      (fors : (name : Bytes) (i stop step : ℤ) (body : Nodes fl.Float) (st : Store u fl W)
        → Below u fl W
            (m.for_loop name i stop step body st)
            (m1.for_loop name i stop step body st)) where
    exec_stmt-Below :
        (n : Node fl.Float) (st : Store u fl W)
        → Below u fl W
            (exec_stmt u fl W host info prog m n st)
            (exec_stmt u fl W host info prog m1 n st)
    unfolding exec_stmt
    exec_stmt-Below nil_node st = refl
    exec_stmt-Below (dim_stmt name tc dims line) st =
        exec_dim-Below u fl W m m1 evals runs whiles fors name tc dims st
    exec_stmt-Below (assign_stmt name index e line) st =
        exec_assign-Below u fl W m m1 evals runs whiles fors name index e st
    exec_stmt-Below (if_stmt c thn eis els line) st =
        exec_if-Below u fl W m m1 evals runs whiles fors c thn eis els st
    exec_stmt-Below (while_stmt c body line) st = whiles c body st
    exec_stmt-Below (for_stmt name start stop step body line) st =
        exec_for-Below u fl W m m1 evals runs whiles fors name start stop step body st
    exec_stmt-Below (goto_stmt label line) st = refl
    exec_stmt-Below (gosub_stmt label line) st = refl
    exec_stmt-Below (return_stmt line) st = refl
    exec_stmt-Below (label_stmt label line) st = refl
    exec_stmt-Below (end_stmt line) st = refl
    exec_stmt-Below (quit_stmt line) st = refl
    exec_stmt-Below (call_stmt name args line) st = exec_call-Below m m1 evals runs name args st
    exec_stmt-Below (proc_decl name ps body line) st = refl
    exec_stmt-Below (func_decl name ps tc body line) st = refl

    pub exec_stmts-Below :
        (whole rest : Nodes fl.Float) (st : Store u fl W)
        → Below u fl W
            (exec_stmts u fl W host info prog m whole rest st)
            (exec_stmts u fl W host info prog m1 whole rest st)
    unfolding exec_stmts
    exec_stmts-Below whole no_nodes st = refl
    exec_stmts-Below whole (cons_node n ns) st =
        continue-Below u fl W _ _ _ _ (exec_stmt-Below n st)
          (λ sig st1. after_stmt-Below u fl W m m1 evals runs whiles fors whole ns sig st1)
