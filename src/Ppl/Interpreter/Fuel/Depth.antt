-- ===== src/Ppl/Interpreter/Fuel/Depth.antt =====
-- internal/ppl/interpreter.go: `Run` with a greater depth of calls.
use virt_bbs.Prelude.{◌≡◌, ◌≢◌, arith, refl, sym, ℕ, zero, suc, Bytes}
use virt_bbs.Prelude.Int.{ℤ}
use virt_bbs.Ppl.Host.{Unicode, FloatOps}
use virt_bbs.Ppl.Ast.{Expr, Nodes}
use virt_bbs.Ppl.Interpreter.{Host, Info, done, failed, panic, out_of_fuel, Store}
use virt_bbs.Ppl.Interpreter.Exec.{machine, run}
use virt_bbs.Ppl.Interpreter.Loops.{deeper}
use virt_bbs.Ppl.Interpreter.Fuel.{Out, Below, Below-refl, Below-trans, continue-Below}
use virt_bbs.Ppl.Interpreter.Fuel.Evaluation.{eval_expr-Below}
use virt_bbs.Ppl.Interpreter.Fuel.Execution.{while_step-Below, for_step-Below, exec_stmts-Below}

module _ (u : Unicode) (fl : FloatOps) (W : Type 0) (host : Host fl.Float W) (info : Info)
    (prog : Nodes fl.Float) where
  -- Each part of a machine is below that of the next deeper one.
  pub record Deeper (n : ℕ) : Type 0 where
    pub evals :
        (e : Expr fl.Float) (st : Store u fl W)
        → Below u fl W
            ((machine u fl W host info prog n).eval e st)
            ((machine u fl W host info prog (suc n)).eval e st)
    pub runs :
        (whole rest : Nodes fl.Float) (st : Store u fl W)
        → Below u fl W
            ((machine u fl W host info prog n).stmts whole rest st)
            ((machine u fl W host info prog (suc n)).stmts whole rest st)
    pub whiles :
        (c : Expr fl.Float) (body : Nodes fl.Float) (st : Store u fl W)
        → Below u fl W
            ((machine u fl W host info prog n).while_loop c body st)
            ((machine u fl W host info prog (suc n)).while_loop c body st)
    pub fors :
        (name : Bytes) (i stop step : ℤ) (body : Nodes fl.Float) (st : Store u fl W)
        → Below u fl W
            ((machine u fl W host info prog n).for_loop name i stop step body st)
            ((machine u fl W host info prog (suc n)).for_loop name i stop step body st)

  pub machine-Deeper : (n : ℕ) → Deeper n
  unfolding machine
  machine-Deeper zero = record {
    evals = λ e st. tt;
    runs = λ whole rest st. tt;
    whiles = λ c body st. tt;
    fors = λ name i stop step body st. tt;
  }
  machine-Deeper (suc n) =
      let d = machine-Deeper n in
      let m = machine u fl W host info prog n in
      let m1 = machine u fl W host info prog (suc n) in
      record {
        evals = eval_expr-Below u fl W host info prog m m1 d.evals d.runs;
        runs = exec_stmts-Below u fl W host info prog m m1 d.evals d.runs d.whiles d.fors;
        whiles = while_step-Below u fl W m m1 d.evals d.runs d.whiles d.fors;
        fors = for_step-Below u fl W m m1 d.evals d.runs d.whiles d.fors;
      }

  run-Below :
      (k n : ℕ) (st : Store u fl W)
      → Below u fl W (run u fl W host info prog n st) (run u fl W host info prog (deeper k n) st)
  unfolding run
  run-Below zero n st = Below-refl u fl W (run u fl W host info prog n st)
  run-Below (suc k) n st =
      Below-trans u fl W (run u fl W host info prog n st)
        (run u fl W host info prog (deeper k n) st)
        (run u fl W host info prog (suc (deeper k n)) st) (run-Below k n st)
        (continue-Below u fl W _ _ _ _ ((machine-Deeper (deeper k n)).runs prog prog st)
          (λ sig st1. refl))

  Below-eq : {A : Type 0} (o p : Out u fl W A) → Below u fl W o p → o ≢ out_of_fuel → p ≡ o
  Below-eq (done a st) p h k = sym h
  Below-eq (failed e v st) p h k = sym h
  Below-eq panic p h k = sym h
  Below-eq out_of_fuel p h k = ground (arith, k refl)

  -- A run of a program that ends within a depth of `n` calls ends in the same way, with the same
  -- state, result, error or panic, when it is given any greater depth.
  pub run-deeper :
      (k n : ℕ) (st : Store u fl W)
      → run u fl W host info prog n st ≢ out_of_fuel
      → run u fl W host info prog (deeper k n) st ≡ run u fl W host info prog n st
  run-deeper k n st ends =
      Below-eq (run u fl W host info prog n st) (run u fl W host info prog (deeper k n) st)
        (run-Below k n st) ends
