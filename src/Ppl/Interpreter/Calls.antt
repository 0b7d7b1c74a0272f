-- ===== src/Ppl/Interpreter/Calls.antt =====
-- internal/ppl/interpreter.go: `execCall`, the built-in statements, and `callProc`.
use virt_bbs.Prelude.{
  ℕ, zero, suc, Bool, true, false, ◌&&◌, ◌||◌, Option, none, some, List, [], ◌∷◌, ◌++◌, Bytes,
  codes, equal, if◌then◌else◌,
}
use virt_bbs.Prelude.Int.{ℤ, pos, negsuc, ◌*ℤ◌, quot, ltb_ℤ, wrap64}
use virt_bbs.Prelude.Decimal.{parse_int, int_or_zero}
use virt_bbs.Ppl.Host.{Unicode, FloatOps}
use virt_bbs.Ppl.Ast.{var_expr, Exprs, cons_expr, Param, Nodes}
use virt_bbs.Ppl.Types.{V, int_val, str_val, bool_val, to_int_val, to_string}
use virt_bbs.Ppl.Interpreter.{
  Host, Info, Signal, sig_none, sig_return, sig_quit, Outcome, done, failed, panic, out_of_fuel,
  Store, M, continue, get, put, set_var, find_proc,
}
use virt_bbs.Ppl.Interpreter.Eval.{Machine, eval_args, bind_params}

module _ (u : Unicode) (fl : FloatOps) (W : Type 0) where
  -- The end of `callProc`: the variables of the call are dropped.
  unfoldable pub leave_proc :
      List (Bytes × V u fl)
      → Outcome (V u fl) (Store u fl W) Signal
      → Outcome (V u fl) (Store u fl W) Signal
  leave_proc saved (done sig_return st) = done sig_none (record st { vars = saved })
  leave_proc saved (done sig st) = done sig (record st { vars = saved })
  leave_proc saved (failed e v st) = failed e v (record st { vars = saved })
  leave_proc saved panic = panic
  leave_proc saved out_of_fuel = out_of_fuel

  unfoldable pub set_all : List (Bytes × V u fl) → Store u fl W → Store u fl W
  set_all [] st = st
  set_all ((name, v) ∷ more) st =
      set_all more (record st { vars = put (u.to_upper name) v st.vars })

module _ (u : Unicode) (fl : FloatOps) (W : Type 0) (host : Host fl.Float W) (info : Info) where
  abbrev say : Bytes → Store u fl W → Store u fl W
  say s st = record st { world = host.print s st.world }

  abbrev go_on : Store u fl W → Outcome (V u fl) (Store u fl W) Signal
  go_on st = done sig_none st

  unfoldable pub joined : List (V u fl) → Bytes
  joined [] = []
  joined (a ∷ args) = to_string u fl a ++ joined args

  unfoldable pub newlines : ℕ → Store u fl W → Store u fl W
  newlines zero st = st
  newlines (suc n) st = newlines n (say (codes "\r\n") st)

  abbrev times : List (V u fl) → ℕ
  times [] = 1
  times (a ∷ _) = elim (to_int_val u fl a) [ pos n ↦ n | negsuc n ↦ 0 ]

  abbrev input_into :
      (Bytes → V u fl) → Bytes → Store u fl W → Bytes × W → Outcome (V u fl) (Store u fl W) Signal
  input_into read name st (line, w) =
      continue u fl W (set_var u fl W name (read line) (record st { world = w }))
        (λ _ st1. go_on st1)

  -- `if varName != ""`
  abbrev input_line : (Bytes → V u fl) → Bytes → Bytes → M u fl W Signal
  input_line read [] prompt st = go_on st
  input_line read (c ∷ name) prompt st = input_into read (c ∷ name) st (host.input prompt st.world)

  abbrev var_name : Exprs fl.Float → Option Bytes
  var_name (cons_expr (var_expr name index) es) = some name
  var_name _ = none

  abbrev prompt_of : List (V u fl) → Bytes
  prompt_of (_ ∷ p ∷ _) = to_string u fl p
  prompt_of _ = []

  abbrev has_two : List (V u fl) → Bool
  has_two (_ ∷ _ ∷ _) = true
  has_two _ = false

  -- INPUTSTR with a prompt asserts that its first argument is a variable.
  unfoldable pub input_text : Bool → Exprs fl.Float → List (V u fl) → M u fl W Signal
  input_text asserts es args st = elim (var_name es) [
    | none ↦ if asserts && has_two args then panic else go_on st
    | some name ↦ input_line (str_val u fl) name (prompt_of args) st
  ]

  unfoldable pub input_int : Exprs fl.Float → List (V u fl) → M u fl W Signal
  input_int es args st = elim (var_name es) [
    | none ↦ go_on st
    | some name ↦
        input_line (λ line. int_val u fl (int_or_zero (parse_int (u.trim_space line)))) name
          (prompt_of args) st
  ]

  abbrev first_arg :
      (V u fl → Store u fl W → Store u fl W) → List (V u fl) → Store u fl W → Store u fl W
  first_arg f [] st = st
  first_arg f (a ∷ _) st = f a st

  unfoldable pub user_vars : Store u fl W → List (Bytes × V u fl)
  user_vars st =
      (codes "U_NAME", str_val u fl st.user_name)
      ∷ (codes "U_CITY", str_val u fl st.user_city)
      ∷ (codes "U_SEC", int_val u fl info.user_sec)
      ∷ (codes "U_TIMESON", int_val u fl info.user_times_on)
      ∷ (codes "U_MAILW", bool_val u fl info.user_mail_wait)
      ∷ []

  abbrev kilo : ℤ → V u fl
  kilo n = int_val u fl (quot n (pos 1024))

  unfoldable pub stats_vars : List (Bytes × V u fl)
  stats_vars =
      (codes "U_UPLOADS", int_val u fl info.user_uploads)
      ∷ (codes "U_DOWNLOADS", int_val u fl info.user_downloads)
      ∷ (codes "U_KUP", kilo info.user_bytes_uploaded)
      ∷ (codes "U_KDOWN", kilo info.user_bytes_downloaded)
      ∷ (codes "U_LASTDATE", str_val u fl info.user_last_login_date)
      ∷ (codes "U_LASTTIME", str_val u fl info.user_last_login_time)
      ∷ (codes "S_MSGREAD", int_val u fl info.sess_msgs_read)
      ∷ (codes "S_MSGLEFT", int_val u fl info.sess_msgs_left)
      ∷ (codes "S_FILEDOWN", int_val u fl info.sess_files_down)
      ∷ (codes "S_FILEUP", int_val u fl info.sess_files_up)
      ∷ (codes "S_TIMEON", int_val u fl info.sess_minutes)
      ∷ (codes "S_TIMELEFT", int_val u fl info.sess_time_left)
      ∷ (codes "U_NEWMSG", int_val u fl info.new_msgs_total)
      ∷ (codes "BBS_TODAYCALLS", int_val u fl info.bbs_calls_today)
      ∷ (codes "BBS_TODAYUNIQUE", int_val u fl info.bbs_unique_today)
      ∷ (codes "BBS_MSGS", int_val u fl info.bbs_msg_total)
      ∷ (codes "BBS_CONFS", int_val u fl info.bbs_conf_count)
      ∷ (codes "BBS_FILETOTAL", int_val u fl info.bbs_file_total)
      ∷ (codes "BBS_FILETODAY", int_val u fl info.bbs_file_today)
      ∷ (codes "BBS_FILEMONTH", int_val u fl info.bbs_file_month)
      ∷ (codes "BBS_UPTIME_YEARS", int_val u fl info.bbs_uptime_years)
      ∷ (codes "BBS_UPTIME_DAYS", int_val u fl info.bbs_uptime_days)
      ∷ (codes "BBS_UPTIME_HOURS", int_val u fl info.bbs_uptime_hours)
      ∷ (codes "BBS_UPTIME_MINS", int_val u fl info.bbs_uptime_minutes)
      ∷ (codes "BBS_UPTIME_SECS", int_val u fl info.bbs_uptime_seconds)
      ∷ (codes "BBS_UPTIME_SINCE_DATE", str_val u fl info.bbs_uptime_since_date)
      ∷ (codes "BBS_UPTIME_SINCE_TIME", str_val u fl info.bbs_uptime_since_time)
      ∷ []

  abbrev var_text : Bytes → Store u fl W → Bytes
  var_text name st = elim (get (u.to_upper name) st.vars) [
    | none ↦ codes "0"
    | some v ↦ to_string u fl v
  ]

  abbrev put_user : Store u fl W → Store u fl W
  put_user st = record st {
    user_name = var_text (codes "U_NAME") st;
    user_city = var_text (codes "U_CITY") st;
  }

  -- The nanoseconds of DELAY, in Go's wrapping `int64`.
  unfoldable pub delay_time : ℤ → ℤ
  delay_time n =
      let ms = wrap64 (n *ℤ pos 100) in
      wrap64 ((if ltb_ℤ (pos 5000) ms then pos 5000 else ms) *ℤ pos 1000000)

module _ (u : Unicode) (fl : FloatOps) (W : Type 0) (host : Host fl.Float W) (info : Info)
    (prog : Nodes fl.Float) (m : Machine u fl W) where
  unfoldable pub call_proc : List Param × Nodes fl.Float → List (V u fl) → M u fl W Signal
  call_proc (ps, body) args st =
      leave_proc u fl W st.vars
        (m.stmts body body (record st { vars = bind_params u fl ps args st.vars }))

  -- `execCall` behind the arguments.
  unfoldable pub statement : Bytes → Exprs fl.Float → List (V u fl) → M u fl W Signal
  statement name es args st =
      if equal name (codes "PRINT") || equal name (codes "PRINTLOC")
      then go_on u fl W host info (say u fl W host info (joined u fl W host info args) st)
      else if equal name (codes "PRINTLN")
      then go_on u fl W host info
          (say u fl W host info (joined u fl W host info args ++ codes "\r\n") st)
      else if equal name (codes "NEWLINE")
      then go_on u fl W host info (newlines u fl W host info (times u fl W host info args) st)
      else if equal name (codes "CLS")
      then go_on u fl W host info
          (say u fl W host info (0x1b ∷ codes "[2J" ++ 0x1b ∷ codes "[H") st)
      else if equal name (codes "DISPFILE")
      then go_on u fl W host info (
          first_arg u fl W host info
            (λ a st1. record st1 { world = host.display_file (to_string u fl a) st1.world }) args
            st)
      else if equal name (codes "HANGUP")
      then done sig_quit (record st { world = host.hangup st.world })
      else if equal name (codes "END") || equal name (codes "QUIT") || equal name (codes "STOP")
      then done sig_quit st
      else if equal name (codes "INPUTSTR") || equal name (codes "INPUT")
      then input_text u fl W host info (equal name (codes "INPUTSTR")) es args st
      else if equal name (codes "INPUTINT")
      then input_int u fl W host info es args st
      else if equal name (codes "GETUSER")
      then go_on u fl W host info (set_all u fl W (user_vars u fl W host info st) st)
      else if equal name (codes "GETSTATS")
      then go_on u fl W host info (set_all u fl W (stats_vars u fl W host info) st)
      else if equal name (codes "PUTUSER")
      then go_on u fl W host info (put_user u fl W host info st)
      else if equal name (codes "KBDSTUFF")
      then go_on u fl W host info st
      else if equal name (codes "LOG")
      then go_on u fl W host info (
          first_arg u fl W host info
            (λ a st1. say u fl W host info (codes "[LOG] " ++ to_string u fl a ++ codes "\r\n") st1)
            args st)
      else if equal name (codes "DELAY")
      then go_on u fl W host info (
          first_arg u fl W host info
            (λ a st1. record st1 {
              world = host.sleep (delay_time u fl W host info (to_int_val u fl a)) st1.world;
            })
            args st)
      else elim (find_proc u prog name) [
        | none ↦ go_on u fl W host info st
        | some proc ↦ call_proc proc args st
      ]

  unfoldable pub exec_call : Bytes → Exprs fl.Float → M u fl W Signal
  exec_call name es st =
      continue u fl W (eval_args u fl W host info prog m es st) (statement name es)
