-- ===== src/Ppl/Interpreter/Gosub.antt =====
-- internal/ppl/interpreter.go: GOSUB out of a loop's body, in `execStmts`.
use virt_bbs.Prelude.{◌≡◌, ℕ, suc, true, none, some, Bytes, arith}
use virt_bbs.Ppl.Host.{Unicode, FloatOps}
use virt_bbs.Ppl.Ast.{Expr, Node, Nodes, cons_node, gosub_stmt, while_stmt}
use virt_bbs.Ppl.Types.{V, to_bool}
use virt_bbs.Ppl.Interpreter.{Host, Info, Signal, sig_gosub, done, Store, find_label}
use virt_bbs.Ppl.Interpreter.Eval.{Machine}
use virt_bbs.Ppl.Interpreter.Exec.{
  machine, exec_stmts, exec_stmt, after_stmt, while_step, next_round,
}

module _ (u : Unicode) (fl : FloatOps) (W : Type 0) (host : Host fl.Float W) (info : Info)
    (prog : Nodes fl.Float) where
  body-gosub :
      (n : ℕ) (body : Nodes fl.Float) (label : Bytes) (line : ℕ) (st : Store u fl W)
      → find_label u (cons_node (gosub_stmt label line) body) label ≡ none
      → (machine u fl W host info prog (suc n)).stmts
          (cons_node (gosub_stmt label line) body)
          (cons_node (gosub_stmt label line) body)
          st
        ≡ done (sig_gosub label) st
  unfolding machine exec_stmts exec_stmt after_stmt
  body-gosub n body label line st absent = ground (arith, absent)

  while-gosub :
      (m : Machine u fl W) (body : Nodes fl.Float) (c : Expr fl.Float) (label : Bytes) (v : V u fl)
      (st st1 : Store u fl W)
      → m.eval c st ≡ done v st1
      → to_bool u fl v ≡ true
      → m.stmts body body st1 ≡ done (sig_gosub label) st1
      → while_step u fl W m c body st ≡ done (sig_gosub label) st1
  unfolding while_step next_round
  while-gosub m body c label v st st1 cond holds bubbles = ground (arith, cond, holds, bubbles)

  -- A statement that hands the signal on, in a block that has the label.
  stmt-gosub :
      (m : Machine u fl W) (whole rest sub : Nodes fl.Float) (node : Node fl.Float) (label : Bytes)
      (sig : Signal) (st st1 st2 : Store u fl W)
      → exec_stmt u fl W host info prog m node st ≡ done (sig_gosub label) st1
      → find_label u whole label ≡ some sub
      → m.stmts sub sub st1 ≡ done sig st2
      → exec_stmts u fl W host info prog m whole (cons_node node rest) st ≡ m.stmts whole rest st2
  unfolding exec_stmts after_stmt
  stmt-gosub m whole rest sub node label sig st st1 st2 runs found sub_ends =
      ground (arith, runs, found, sub_ends)

  -- A WHILE whose condition holds and whose body starts with a GOSUB to a label that is in the
  -- block of the WHILE but not in its body: the subroutine runs once, and the run goes on behind
  -- the WHILE, neither finishing the body nor testing the condition again.
  pub exec_stmts-while_gosub :
      (n : ℕ) (whole rest body sub : Nodes fl.Float) (c : Expr fl.Float) (label : Bytes)
      (line line1 : ℕ) (sig : Signal) (v : V u fl) (st st1 st2 : Store u fl W)
      → (machine u fl W host info prog (suc n)).eval c st ≡ done v st1
      → to_bool u fl v ≡ true
      → find_label u (cons_node (gosub_stmt label line1) body) label ≡ none
      → find_label u whole label ≡ some sub
      → (machine u fl W host info prog (suc (suc n))).stmts sub sub st1 ≡ done sig st2
      → (machine u fl W host info prog (suc (suc (suc n)))).stmts whole
          (cons_node (while_stmt c (cons_node (gosub_stmt label line1) body) line) rest)
          st
        ≡ (machine u fl W host info prog (suc (suc n))).stmts whole rest st2
  unfolding machine exec_stmt
  exec_stmts-while_gosub n whole rest body sub c label line line1 sig v st st1 st2 cond holds absent
        found sub_ends =
      stmt-gosub (machine u fl W host info prog (suc (suc n))) whole rest sub
        (while_stmt c (cons_node (gosub_stmt label line1) body) line) label sig st st1 st2
        (while-gosub (machine u fl W host info prog (suc n))
          (cons_node (gosub_stmt label line1) body) c label v st st1 cond holds
          (body-gosub n body label line1 st1 absent))
        found sub_ends
