-- ===== src/Ppl/Interpreter/Samples.antt =====
-- The interpreter on concrete programs, and its theorems at concrete inputs. The world is the text
-- that the user has seen.
use virt_bbs.Prelude.{
  ◌≡◌, refl, false, true, ℕ, zero, suc, some, none, List, [], ◌∷◌, ◌++◌, Bytes, codes, equal,
  String, arith, ◌^◌, ◌-◌,
}
use virt_bbs.Prelude.Int.{pos, wrap64, ◌+ℤ◌, int64_max}
use virt_bbs.Ppl.Host.{ascii, no_floats}
use virt_bbs.Ppl.Ast.{
  Param, Expr, int_lit, str_lit, var_expr, call_expr, no_exprs, cons_expr, type_integer, Nodes,
  no_nodes, cons_node, assign_stmt, call_stmt, func_decl, gosub_stmt, label_stmt, end_stmt,
  return_stmt, while_stmt, for_stmt,
}
use virt_bbs.Ppl.Types.{int_val, zero_value, to_int_val, to_string, to_bool}
use virt_bbs.Ppl.Interpreter.{
  Host, Info, Store, sig_none, sig_end, done, out_of_fuel, get, put, set_var, find_func, find_label,
}
use virt_bbs.Ppl.Interpreter.Builtins.{string_function, math_function}
use virt_bbs.Ppl.Interpreter.Eval.{
  bind_params, call_func, eval_args, bbs_function, function_value, eval_func_call, eval_expr,
  leave_func,
}
use virt_bbs.Ppl.Interpreter.Calls.{call_proc, statement, exec_call, joined}
use virt_bbs.Ppl.Interpreter.Exec.{
  machine, run, exec_stmts, exec_stmt, after_stmt, exec_assign, exec_for, for_step, next_round,
}
use virt_bbs.Ppl.Interpreter.Scope.{KeepsVars, eval-KeepsVars, returns, call_proc-KeepsVars}
use virt_bbs.Ppl.Interpreter.Gosub.{exec_stmts-while_gosub}
use virt_bbs.Ppl.Interpreter.Loops.{deeper, rounds, for_loop-rounds}
use virt_bbs.Ppl.Interpreter.Fuel.Endless.{for_loop-int64_max}

abbrev host : Host (Unit {0}) Bytes
host = record {
  print = λ s w. w ++ s;
  input = λ prompt w. (codes "yes", w ++ prompt);
  display_file = λ path w. w;
  hangup = λ w. w;
  sleep = λ n w. w;
  exist = λ path w. false;
  date = λ w. codes "01-02-2026";
  time = λ w. codes "10:00";
  random_float = λ w. (tt, w);
  random_below = λ n w. (pos 0, w);
}

abbrev info : Info
info = record {
  user_sec = pos 10;
  user_times_on = pos 1;
  user_mail_wait = false;
  user_uploads = pos 0;
  user_downloads = pos 0;
  user_bytes_uploaded = pos 0;
  user_bytes_downloaded = pos 0;
  user_last_login_date = [];
  user_last_login_time = [];
  sess_msgs_read = pos 0;
  sess_msgs_left = pos 0;
  sess_files_down = pos 0;
  sess_files_up = pos 0;
  sess_minutes = pos 0;
  sess_time_left = pos 0;
  new_msgs_total = pos 0;
  bbs_calls_today = pos 0;
  bbs_unique_today = pos 0;
  bbs_msg_total = pos 0;
  bbs_conf_count = pos 0;
  bbs_file_total = pos 0;
  bbs_file_today = pos 0;
  bbs_file_month = pos 0;
  bbs_uptime_years = pos 0;
  bbs_uptime_days = pos 0;
  bbs_uptime_hours = pos 0;
  bbs_uptime_minutes = pos 0;
  bbs_uptime_seconds = pos 0;
  bbs_uptime_since_date = [];
  bbs_uptime_since_time = [];
  bbs_name = codes "VirtBBS";
  sysop_name = [];
  node_num = pos 1;
  ppe_path = [];
}

abbrev Block : Type 0
Block = Nodes (Unit {0})

abbrev var : String → Expr (Unit {0})
var x = var_expr (codes x) no_exprs

abbrev say : String → Block → Block
say s rest = cons_node (call_stmt (codes "PRINT") (cons_expr (str_lit (codes s)) no_exprs) 1) rest

abbrev start : Store ascii no_floats Bytes
start = record { vars = []; arrays = []; user_name = codes "John"; user_city = []; world = [] }

-- FOR I = 1 TO 3: PRINT "ab": NEXT
abbrev counting : Block
counting =
    cons_node
      (for_stmt (codes "I") (int_lit (pos 1)) (int_lit (pos 3)) (int_lit (pos 1))
        (say "ab" no_nodes) 1)
      no_nodes

prints_three_times :
    run ascii no_floats Bytes host info counting 8 start
    ≡ done tt (record start {
      vars = (codes "I", int_val ascii no_floats (pos 3)) ∷ [];
      world = codes "ababab";
    })
unfolding run machine exec_stmts exec_stmt exec_for for_step next_round after_stmt exec_call
    statement eval_args eval_expr joined to_string to_int_val set_var put equal wrap64 ◌+ℤ◌
prints_three_times = refl

-- F sets X and returns 5.
abbrev with_function : Block
with_function =
    cons_node
      (func_decl (codes "F") [] type_integer
        (cons_node (assign_stmt (codes "X") no_exprs (int_lit (pos 1)) 2)
          (cons_node (assign_stmt (codes "F") no_exprs (int_lit (pos 5)) 3) no_nodes))
        1)
      no_nodes

abbrev call_f : Expr (Unit {0})
call_f = call_expr (codes "F") no_exprs

call_f_value :
    (machine ascii no_floats Bytes host info with_function 5).eval call_f start
    ≡ done (int_val ascii no_floats (pos 5)) start
unfolding machine exec_stmts exec_stmt exec_assign after_stmt eval_args eval_expr eval_func_call
    function_value bbs_function string_function math_function call_func leave_func bind_params
    zero_value find_func set_var get put equal
call_f_value = refl

eval-KeepsVars_example :
    KeepsVars ascii no_floats Bytes []
      ((machine ascii no_floats Bytes host info with_function 5).eval call_f start)
eval-KeepsVars_example = eval-KeepsVars ascii no_floats Bytes host info with_function 5 call_f start

abbrev sets_x : List Param × Block
sets_x = (
  [],
  cons_node (assign_stmt (codes "X") no_exprs (int_lit (pos 1)) 2)
      (cons_node (return_stmt 3) no_nodes),
)

call_proc-KeepsVars_example :
    KeepsVars ascii no_floats Bytes [] (
      call_proc ascii no_floats Bytes host info no_nodes
        (machine ascii no_floats Bytes host info no_nodes 5)
        sets_x
        []
        start)
    × (returns ascii no_floats Bytes (
          call_proc ascii no_floats Bytes host info no_nodes
            (machine ascii no_floats Bytes host info no_nodes 5)
            sets_x
            []
            start)
        ≡ false)
call_proc-KeepsVars_example =
    call_proc-KeepsVars ascii no_floats Bytes host info no_nodes 5 sets_x [] start

abbrev stop_sub : Block
stop_sub = cons_node (end_stmt 4) no_nodes

-- WHILE 1: GOSUB Stop: PRINT "again": WEND: :Stop: END
abbrev while_body : Block
while_body = say "again" no_nodes

abbrev after_while : Block
after_while = cons_node (label_stmt (codes "Stop") 3) stop_sub

abbrev while_block : Block
while_block =
    cons_node (while_stmt (int_lit (pos 1)) (cons_node (gosub_stmt (codes "Stop") 2) while_body) 1)
      after_while

one_holds :
    (machine ascii no_floats Bytes host info while_block 1).eval (int_lit (pos 1)) start
    ≡ done (int_val ascii no_floats (pos 1)) start
unfolding machine eval_expr
one_holds = refl

one_true : to_bool ascii no_floats (int_val ascii no_floats (pos 1)) ≡ true
unfolding to_bool
one_true = refl

absent : find_label ascii (cons_node (gosub_stmt (codes "Stop") 2) while_body) (codes "Stop") ≡ none
unfolding find_label
absent = refl

found : find_label ascii while_block (codes "Stop") ≡ some stop_sub
unfolding find_label equal
found = refl

sub_ends :
    (machine ascii no_floats Bytes host info while_block 2).stmts stop_sub stop_sub start
    ≡ done sig_end start
unfolding machine exec_stmts exec_stmt after_stmt
sub_ends = refl

exec_stmts-while_gosub_example :
    (machine ascii no_floats Bytes host info while_block 3).stmts while_block while_block start
    ≡ (machine ascii no_floats Bytes host info while_block 2).stmts while_block after_while start
exec_stmts-while_gosub_example =
    exec_stmts-while_gosub ascii no_floats Bytes host info while_block 0 while_block after_while
      while_body stop_sub (int_lit (pos 1)) (codes "Stop") 1 2 sig_end
      (int_val ascii no_floats (pos 1)) start start start one_holds one_true absent found sub_ends

abbrev say_ab : Block
say_ab = say "ab" no_nodes

abbrev prints_ab : Store ascii no_floats Bytes → Store ascii no_floats Bytes
prints_ab st = record st { world = st.world ++ codes "ab" }

say_ab_at :
    (k : ℕ) (st : Store ascii no_floats Bytes)
    → (machine ascii no_floats Bytes host info no_nodes (deeper k 5)).stmts say_ab say_ab st
      ≡ done sig_none (prints_ab st)
unfolding machine exec_stmts exec_stmt after_stmt exec_call statement eval_args eval_expr joined
    to_string equal
say_ab_at zero st = refl
say_ab_at (suc zero) st = refl
say_ab_at (suc (suc zero)) st = refl
say_ab_at (suc (suc (suc k))) st = refl

for_loop-rounds_example :
    (machine ascii no_floats Bytes host info no_nodes 9).for_loop
      (codes "I")
      (pos 1)
      (pos 3)
      (pos 1)
      say_ab
      start
    ≡ done sig_none (rounds ascii no_floats Bytes prints_ab (codes "I") 3 (pos 1) start)
for_loop-rounds_example =
    for_loop-rounds ascii no_floats Bytes host info no_nodes 5 2 prints_ab (codes "I") (pos 1)
      (pos 3) say_ab start say_ab_at (omega arith) (omega arith) (omega arith)

say_ab_ends :
    (st : Store ascii no_floats Bytes)
    → (d : ℕ) × (st1 : Store ascii no_floats Bytes) × ((machine ascii no_floats Bytes host info
            no_nodes d).stmts
          say_ab say_ab st
        ≡ done sig_none st1)
say_ab_ends st = (5, prints_ab st, say_ab_at 0 st)

-- FOR I = 9223372036854775806 TO 9223372036854775807: PRINT "ab": NEXT
for_loop-int64_max_example :
    (machine ascii no_floats Bytes host info no_nodes 1000).for_loop
      (codes "I")
      (pos (2 ^ 63 - 2))
      int64_max
      (pos 1)
      say_ab
      start
    ≡ out_of_fuel
for_loop-int64_max_example =
    for_loop-int64_max ascii no_floats Bytes host info no_nodes 1000 (codes "I") (pos (2 ^ 63 - 2))
      say_ab start say_ab_ends (omega arith)
