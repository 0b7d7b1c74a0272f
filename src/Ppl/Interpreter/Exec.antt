-- ===== src/Ppl/Interpreter/Exec.antt =====
-- internal/ppl/interpreter.go: `NewInterpreter`, `Run`, `execStmts` and `execStmt`.
-- `machine n` is the interpreter with a depth of `n` calls, a loop's next round among them.
use virt_bbs.Prelude.{
  ℕ, zero, suc, Bool, true, false, ◌&&◌, ◌||◌, none, some, List, [], ◌∷◌, Bytes, length, leb,
  replicate, if◌then◌else◌,
}
use virt_bbs.Prelude.Int.{ℤ, pos, negsuc, ◌+ℤ◌, ◌*ℤ◌, ltb_ℤ, eqb_ℤ, wrap64}
use virt_bbs.Ppl.Host.{Unicode, FloatOps}
use virt_bbs.Ppl.Ast.{
  TypeCode, Expr, Exprs, no_exprs, cons_expr, Node, dim_stmt, assign_stmt, if_stmt, while_stmt,
  for_stmt, goto_stmt, gosub_stmt, return_stmt, end_stmt, quit_stmt, call_stmt, Nodes, no_nodes,
  cons_node, ElseIfs, no_else_ifs, cons_else_if,
}
use virt_bbs.Ppl.Types.{V, int_val, zero_val, zero_value, to_int_val, to_bool}
use virt_bbs.Ppl.Interpreter.{
  Host, Info, Signal, sig_none, sig_return, sig_end, sig_quit, sig_goto, sig_gosub, Outcome, done,
  failed, panic, out_of_fuel, Store, M, continue, get, put, set_var, find_label,
}
use virt_bbs.Ppl.Interpreter.Eval.{Machine, eval_expr, settle}
use virt_bbs.Ppl.Interpreter.Calls.{exec_call}

-- `arr[i] = v`; nothing where `i` is out of range.
module _ {A : Type 0} where
  unfoldable pub set_nth : List A → ℕ → A → List A
  set_nth [] i v = []
  set_nth (a ∷ arr) zero v = v ∷ arr
  set_nth (a ∷ arr) (suc i) v = a ∷ set_nth arr i v

abbrev pub past : ℤ → ℤ → ℤ → Bool
past i stop step = (ltb_ℤ (pos 0) step && ltb_ℤ stop i) || (ltb_ℤ step (pos 0) && ltb_ℤ i stop)

abbrev step_or_one : ℤ → ℤ
step_or_one n = if eqb_ℤ n (pos 0) then pos 1 else n

abbrev pub is_none : Signal → Bool
is_none sig_none = true
is_none _ = false

module _ (u : Unicode) (fl : FloatOps) (W : Type 0) where
  -- The end of `DimStmt`, where `make` panics on a negative size.
  unfoldable pub make_array : Bytes → TypeCode → ℤ → M u fl W Signal
  make_array name tc (negsuc n) st = panic
  make_array name tc (pos n) st =
      done sig_none (record st { arrays = put name (replicate n (zero_value u fl tc)) st.arrays })

  abbrev array : Bytes → Store u fl W → List (V u fl)
  array name st = elim (get name st.arrays) [ none ↦ [] | some arr ↦ arr ]

  unfoldable pub store_element : Bytes → ℤ → V u fl → M u fl W Signal
  store_element name (negsuc i) v st =
      failed (record { index = negsuc i; array = name }) (zero_val u fl) st
  store_element name (pos i) v st =
      if leb (length (array name st)) i
      then failed (record { index = pos i; array = name }) (zero_val u fl) st
      else done sig_none (record st { arrays = put name (set_nth (array name st) i v) st.arrays })

  -- `NewInterpreter`, whose tables of procedures and functions are searches of the program.
  unfoldable pub new_interpreter : Bytes → Bytes → W → Store u fl W
  new_interpreter name city w = record {
    vars = [];
    arrays = [];
    user_name = name;
    user_city = city;
    world = w;
  }

module _ (u : Unicode) (fl : FloatOps) (W : Type 0) (m : Machine u fl W) where
  unfoldable pub array_size : Exprs fl.Float → ℤ → M u fl W ℤ
  array_size no_exprs size st = done size st
  array_size (cons_expr d ds) size st =
      continue u fl W (m.eval d st)
        (λ v st1. array_size ds (wrap64 (size *ℤ wrap64 (to_int_val u fl v +ℤ pos 1))) st1)

  unfoldable pub exec_dim : Bytes → TypeCode → Exprs fl.Float → M u fl W Signal
  exec_dim name tc no_exprs st =
      continue u fl W (set_var u fl W name (zero_value u fl tc) st) (λ _ st1. done sig_none st1)
  exec_dim name tc (cons_expr d ds) st =
      continue u fl W (array_size (cons_expr d ds) (pos 1) st)
        (λ size st1. make_array u fl W name tc size st1)

  unfoldable pub exec_assign : Bytes → Exprs fl.Float → Expr fl.Float → M u fl W Signal
  exec_assign name no_exprs e st =
      continue u fl W (m.eval e st)
        (λ v st1. continue u fl W (set_var u fl W name v st1) (λ _ st2. done sig_none st2))
  exec_assign name (cons_expr i _) e st = continue u fl W (m.eval e st) (λ v st1.
      continue u fl W (m.eval i st1)
        (λ idx st2. store_element u fl W name (to_int_val u fl idx) v st2))

  unfoldable pub exec_else_ifs : ElseIfs fl.Float → Nodes fl.Float → M u fl W Signal
  exec_else_ifs no_else_ifs els st = m.stmts els els st
  exec_else_ifs (cons_else_if c body eis) els st = continue u fl W (m.eval c st) (λ v st1.
      elim (to_bool u fl v) [ true ↦ m.stmts body body st1 | false ↦ exec_else_ifs eis els st1 ])

  unfoldable pub exec_if :
      Expr fl.Float → Nodes fl.Float → ElseIfs fl.Float → Nodes fl.Float → M u fl W Signal
  exec_if c thn eis els st = continue u fl W (m.eval c st) (λ v st1. elim (to_bool u fl v) [
    | true ↦ m.stmts thn thn st1
    | false ↦ exec_else_ifs eis els st1
  ])

  -- The end of a round of a loop.
  unfoldable pub next_round : M u fl W Signal → Signal → M u fl W Signal
  next_round loop sig st = elim (is_none sig) [ true ↦ loop st | false ↦ done sig st ]

  unfoldable pub while_step : Expr fl.Float → Nodes fl.Float → M u fl W Signal
  while_step c body st = continue u fl W (m.eval c st) (λ v st1. elim (to_bool u fl v) [
    | false ↦ done sig_none st1
    | true ↦ continue u fl W (m.stmts body body st1) (next_round (m.while_loop c body))
  ])

  unfoldable pub for_step : Bytes → ℤ → ℤ → ℤ → Nodes fl.Float → M u fl W Signal
  for_step name i stop step body st = elim (past i stop step) [
    | true ↦ done sig_none st
    | false ↦ continue u fl W (set_var u fl W name (int_val u fl i) st) (λ _ st1.
        continue u fl W (m.stmts body body st1)
          (next_round (m.for_loop name (wrap64 (i +ℤ step)) stop step body)))
  ]

  unfoldable pub exec_for :
      Bytes → Expr fl.Float → Expr fl.Float → Expr fl.Float → Nodes fl.Float → M u fl W Signal
  exec_for name start stop step body st = settle u fl W (m.eval start st) (λ a st1.
      settle u fl W (m.eval stop st1) (λ b st2. settle u fl W (m.eval step st2) (λ c st3.
        m.for_loop name (to_int_val u fl a) (to_int_val u fl b) (step_or_one (to_int_val u fl c))
          body st3)))

  -- What `execStmts` does with the signal of a statement: `whole` is the block, `rest` what is behind.
  unfoldable pub after_stmt : Nodes fl.Float → Nodes fl.Float → Signal → M u fl W Signal
  after_stmt whole rest sig_none st = m.stmts whole rest st
  after_stmt whole rest (sig_goto label) st = elim (find_label u whole label) [
    | none ↦ done (sig_goto label) st
    | some there ↦ m.stmts whole there st
  ]
  after_stmt whole rest (sig_gosub label) st = elim (find_label u whole label) [
    | none ↦ done (sig_gosub label) st
    | some sub ↦ continue u fl W (m.stmts sub sub st) (λ _ st1. m.stmts whole rest st1)
  ]
  after_stmt whole rest sig st = done sig st

module _ (u : Unicode) (fl : FloatOps) (W : Type 0) (host : Host fl.Float W) (info : Info)
    (prog : Nodes fl.Float) where
  unfoldable pub exec_stmt : Machine u fl W → Node fl.Float → M u fl W Signal
  exec_stmt m (dim_stmt name tc dims line) st = exec_dim u fl W m name tc dims st
  exec_stmt m (assign_stmt name index e line) st = exec_assign u fl W m name index e st
  exec_stmt m (if_stmt c thn eis els line) st = exec_if u fl W m c thn eis els st
  exec_stmt m (while_stmt c body line) st = m.while_loop c body st
  exec_stmt m (for_stmt name start stop step body line) st =
      exec_for u fl W m name start stop step body st
  exec_stmt m (goto_stmt label line) st = done (sig_goto label) st
  exec_stmt m (gosub_stmt label line) st = done (sig_gosub label) st
  exec_stmt m (return_stmt line) st = done sig_return st
  exec_stmt m (end_stmt line) st = done sig_end st
  exec_stmt m (quit_stmt line) st = done sig_quit st
  exec_stmt m (call_stmt name args line) st = exec_call u fl W host info prog m name args st
  exec_stmt m _ st = done sig_none st

  unfoldable pub exec_stmts : Machine u fl W → Nodes fl.Float → Nodes fl.Float → M u fl W Signal
  exec_stmts m whole no_nodes st = done sig_none st
  exec_stmts m whole (cons_node n ns) st =
      continue u fl W (exec_stmt m n st) (after_stmt u fl W m whole ns)

  unfoldable pub machine : ℕ → Machine u fl W
  machine zero = record {
    eval = λ e st. out_of_fuel;
    stmts = λ whole rest st. out_of_fuel;
    while_loop = λ c body st. out_of_fuel;
    for_loop = λ name i stop step body st. out_of_fuel;
  }
  machine (suc n) = record {
    eval = eval_expr u fl W host info prog (machine n);
    stmts = exec_stmts (machine n);
    while_loop = while_step u fl W (machine n);
    for_loop = for_step u fl W (machine n);
  }

  -- `Run`, which drops the signal.
  unfoldable pub run : ℕ → Store u fl W → Outcome (V u fl) (Store u fl W) (Unit {0})
  run n st = continue u fl W ((machine n).stmts prog prog st) (λ _ st1. done tt st1)
