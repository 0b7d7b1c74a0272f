-- ===== src/Ppl/Interpreter.antt =====
-- internal/ppl/interpreter.go: the state of a run, its outcomes, and what a run takes from the BBS.
-- `Builtins` has the built-in functions, `Eval` the expressions, `Calls` the built-in statements,
-- `Exec` the statements and the machine that ties them together.
pub mod Builtins
pub mod Eval
pub mod Calls
pub mod Exec
pub mod Scope
pub mod Gosub
pub mod Loops
pub mod Fuel
mod Samples
use virt_bbs.Prelude.{
  ℕ, Bool, true, false, Option, none, some, List, [], ◌∷◌, Bytes, equal, if◌then◌else◌,
}
use virt_bbs.Prelude.Int.{ℤ}
use virt_bbs.Ppl.Host.{Unicode, FloatOps}
use virt_bbs.Ppl.Types.{V, zero_val}
use virt_bbs.Ppl.Ast.{
  TypeCode, Param, Node, Nodes, no_nodes, cons_node, proc_decl, func_decl, label_stmt,
}

-- The functions of `Environment`, the clock, the file system and the random numbers, over a state
-- `W` of the world.
pub record Host (F : Type 0) (W : Type 0) : Type 0 where
  pub print : Bytes → W → W
  pub input : Bytes → W → Bytes × W
  pub display_file : Bytes → W → W
  pub hangup : W → W
  pub sleep : ℤ → W → W
  pub exist : Bytes → W → Bool
  pub date : W → Bytes
  pub time : W → Bytes
  pub random_float : W → F × W
  pub random_below : ℤ → W → ℤ × W

-- The fields of `Environment` that a program only reads.
pub record Info : Type 0 where
  pub user_sec : ℤ
  pub user_times_on : ℤ
  pub user_mail_wait : Bool
  pub user_uploads : ℤ
  pub user_downloads : ℤ
  pub user_bytes_uploaded : ℤ
  pub user_bytes_downloaded : ℤ
  pub user_last_login_date : Bytes
  pub user_last_login_time : Bytes
  pub sess_msgs_read : ℤ
  pub sess_msgs_left : ℤ
  pub sess_files_down : ℤ
  pub sess_files_up : ℤ
  pub sess_minutes : ℤ
  pub sess_time_left : ℤ
  pub new_msgs_total : ℤ
  pub bbs_calls_today : ℤ
  pub bbs_unique_today : ℤ
  pub bbs_msg_total : ℤ
  pub bbs_conf_count : ℤ
  pub bbs_file_total : ℤ
  pub bbs_file_today : ℤ
  pub bbs_file_month : ℤ
  pub bbs_uptime_years : ℤ
  pub bbs_uptime_days : ℤ
  pub bbs_uptime_hours : ℤ
  pub bbs_uptime_minutes : ℤ
  pub bbs_uptime_seconds : ℤ
  pub bbs_uptime_since_date : Bytes
  pub bbs_uptime_since_time : Bytes
  pub bbs_name : Bytes
  pub sysop_name : Bytes
  pub node_num : ℤ
  pub ppe_path : Bytes

-- A Go map with text keys, as an association list.
module _ {V : Type 0} where
  unfoldable pub get : Bytes → List (Bytes × V) → Option V
  get k [] = none
  get k ((j, v) ∷ m) = if equal j k then some v else get k m

  unfoldable pub put : Bytes → V → List (Bytes × V) → List (Bytes × V)
  put k v [] = (k, v) ∷ []
  put k v ((j, w) ∷ m) = if equal j k then (k, v) ∷ m else (j, w) ∷ put k v m

pub data Signal : Type 0 where
  sig_none sig_return sig_end sig_quit : Signal
  sig_goto sig_gosub : Bytes → Signal

-- The variables, the arrays, and the fields of `Environment` that a program writes.
pub record State (F : Type 0) (W : Type 0) : Type 0 where
  pub vars : List (Bytes × F)
  pub arrays : List (Bytes × List F)
  pub user_name : Bytes
  pub user_city : Bytes
  pub world : W

-- The error names the index that is out of bounds and the array.
pub record Error : Type 0 where
  pub index : ℤ
  pub array : Bytes

-- What a part of a run ends with: a result, an error with the value that Go returns beside it, a
-- panic of the Go program. `out_of_fuel` is the model's.
pub data Outcome (X : Type 0) (S : Type 0) (A : Type 0) : Type 0 where
  done : A → S → Outcome X S A
  failed : Error → X → S → Outcome X S A
  panic : Outcome X S A
  out_of_fuel : Outcome X S A

module _ (u : Unicode) (fl : FloatOps) (W : Type 0) where
  abbrev pub Store : Type 0
  Store = State (V u fl) W

  abbrev pub M : Type 0 → Type 0
  M A = Store → Outcome (V u fl) Store A

  -- `if err != nil { return Zero, err }` behind a call
  abbrev pub continue :
      {A B : Type 0} → Outcome (V u fl) Store A → (A → M B) → Outcome (V u fl) Store B
  continue (done a st) f = f a st
  continue (failed e v st) f = failed e (zero_val u fl) st
  continue panic f = panic
  continue out_of_fuel f = out_of_fuel

  unfoldable pub get_var : Bytes → M (V u fl)
  get_var name st = elim (get (u.to_upper name) st.vars) [
    | none ↦ done (zero_val u fl) st
    | some v ↦ done v st
  ]

  unfoldable pub set_var : Bytes → V u fl → M (Unit {0})
  set_var name v st = done tt (record st { vars = put (u.to_upper name) v st.vars })

module _ (u : Unicode) {F : Type 0} where
  -- `interp.procs[name]`, which `NewInterpreter` fills from the program: the last one is kept.
  unfoldable pub find_proc : Nodes F → Bytes → Option (List Param × Nodes F)
  find_proc no_nodes name = none
  find_proc (cons_node (proc_decl n ps body line) ns) name = elim (find_proc ns name) [
    | some p ↦ some p
    | none ↦ if equal n name then some (ps, body) else none
  ]
  find_proc (cons_node _ ns) name = find_proc ns name

  unfoldable pub find_func : Nodes F → Bytes → Option (List Param × TypeCode × Nodes F)
  find_func no_nodes name = none
  find_func (cons_node (func_decl n ps tc body line) ns) name = elim (find_func ns name) [
    | some p ↦ some p
    | none ↦ if equal n name then some (ps, tc, body) else none
  ]
  find_func (cons_node _ ns) name = find_func ns name

  -- The search for a label in a block: the statements behind the first that fits.
  unfoldable pub find_label : Nodes F → Bytes → Option (Nodes F)
  find_label no_nodes label = none
  find_label (cons_node (label_stmt l line) ns) label =
      if equal (u.to_upper l) (u.to_upper label) then some ns else find_label ns label
  find_label (cons_node _ ns) label = find_label ns label
