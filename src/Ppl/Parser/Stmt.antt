-- ===== src/Ppl/Parser/Stmt.antt =====
-- The statements of internal/ppl/parser.go. A function that parses a body takes `stmt`, the call
-- of `parseStmt`, as an argument, and the fuel of its loops and of its expressions.
use virt_bbs.Prelude.{
  ℕ, zero, suc, Bool, false, ◌&&◌, ◌||◌, Option, none, some, List, [], ◌∷◌, String, Bytes, codes,
  equal, if◌then◌else◌, length,
}
use virt_bbs.Prelude.Int.{pos}
use virt_bbs.Ppl.Host.{Unicode, FloatOps}
use virt_bbs.Ppl.Lexer.{Token}
use virt_bbs.Ppl.Ast.{
  TypeCode, type_boolean, type_integer, type_money, type_real, type_string, type_big_str, type_date,
  type_time, Expr, int_lit, Exprs, no_exprs, Param, Node, nil_node, dim_stmt, assign_stmt, if_stmt,
  while_stmt, for_stmt, goto_stmt, gosub_stmt, return_stmt, label_stmt, end_stmt, quit_stmt,
  call_stmt, proc_decl, func_decl, Nodes, no_nodes, cons_node, ElseIfs, no_else_ifs, cons_else_if,
}
use virt_bbs.Ppl.Parser.{
  P, Outcome, bad_let, ◌>>=◌, ◌>>◌, pure, stuck, head, tail, peek, peek_raw, next, skip_newlines,
  is_newline, is_eof, is_ident, is_eq, is_lparen, is_rparen, is_comma, is_colon, is_hash, is_word,
}
use virt_bbs.Ppl.Parser.Expr.{parse_expr, parse_expr_list, parse_arg_list}

unfoldable pub skip_comma : P (Unit {0})
skip_comma = do t ← peek_raw; if is_comma t.kind then (do next; pure tt) else pure tt

module _ (u : Unicode) where
  open u use {to_upper}

  unfoldable pub type_code_from_name : Bytes → TypeCode
  type_code_from_name name =
      let up = to_upper name in
      if equal up (codes "BOOLEAN")
      then type_boolean
      else if equal up (codes "INTEGER")
      then type_integer
      else if equal up (codes "REAL")
      then type_real
      else if equal up (codes "MONEY")
      then type_money
      else if equal up (codes "DATE")
      then type_date
      else if equal up (codes "TIME")
      then type_time
      else if equal up (codes "BIGSTR")
      then type_big_str
      else type_string

  -- The loop of `parseParams`, behind the parenthesis.
  unfoldable pub params_loop : ℕ → P (List Param)
  unfolding skip_comma
  params_loop zero = stuck
  params_loop (suc f) = do
    t ← peek_raw
    if is_rparen t.kind || is_eof t.kind then pure [] else do
      typ ← next
      name ← next
      skip_comma
      params ← params_loop f
      pure (record { name = to_upper name.text; type = type_code_from_name typ.text } ∷ params)

  unfoldable pub parse_params : ℕ → P (List Param)
  unfolding params_loop
  parse_params f = do
    t ← peek_raw
    if is_lparen t.kind then (do next; params ← params_loop f; next; pure params) else pure []

  abbrev pub is_one_of : Token → List String → Bool
  is_one_of t [] = false
  is_one_of t (w ∷ ws) = is_word u t w || is_one_of t ws

  -- `AS` and a type name, where they stand
  unfoldable pub parse_as : TypeCode → P TypeCode
  parse_as default = do
    t ← peek_raw
    if is_word u t "AS"
        then (do next; typ ← next; pure (type_code_from_name typ.text))
        else pure default

module _ (u : Unicode) (fl : FloatOps) where
  open u use {to_upper}
  open fl use {Float}

  abbrev pub S : Type 0
  S = P (Option (Node Float))

  abbrev pub expr : ℕ → P (Expr Float)
  expr = parse_expr u fl

  abbrev pub add_stmt : Option (Node Float) → Nodes Float → Nodes Float
  add_stmt none ns = ns
  add_stmt (some n) ns = cons_node n ns

  abbrev pub or_nil : Option (Node Float) → Node Float
  or_nil none = nil_node
  or_nil (some n) = n

  -- `parseStmts`: statements up to one of the words, which is left, or to the end.
  unfoldable pub parse_stmts : S → List String → ℕ → P (Nodes Float)
  parse_stmts stmt until zero = stuck
  parse_stmts stmt until (suc f) = do
    skip_newlines
    t ← peek
    if is_eof t.kind || is_one_of u t until
        then pure no_nodes
        else do s ← stmt; rest ← parse_stmts stmt until f; pure (add_stmt s rest)

  -- An index or dimension list in parentheses, where one stands.
  unfoldable pub optional_list : ℕ → P (Exprs Float)
  optional_list f = do
    t ← peek_raw
    if is_lparen t.kind
        then (do next; es ← parse_expr_list u fl (expr f) f; next; pure es)
        else pure no_exprs

  unfoldable pub parse_dim : ℕ → ℕ → S
  unfolding optional_list parse_as
  parse_dim f line = do
    name ← next
    dims ← optional_list f
    tc ← parse_as u type_string
    pure (some (dim_stmt (to_upper name.text) tc dims line))

  unfoldable pub parse_var_decl : ℕ → Bytes → ℕ → S
  unfolding optional_list
  parse_var_decl f type_name line = do
    name ← next
    dims ← optional_list f
    pure (some (dim_stmt (to_upper name.text) (type_code_from_name u type_name) dims line))

  -- `expectIdent("=")` passes a token, and fails whatever it is but an identifier spelled `=`.
  unfoldable pub expect_equals : ℕ → P (Unit {0})
  expect_equals line = do
    t ← next
    if is_word u t "="
        then pure tt
        else do t' ← peek_raw; if is_eq t'.kind then (do next; pure tt) else λ toks. bad_let line

  unfoldable pub parse_assign : ℕ → ℕ → S
  unfolding optional_list expect_equals
  parse_assign f line = do
    name ← next
    idx ← optional_list f
    expect_equals line
    val ← expr f
    pure (some (assign_stmt (to_upper name.text) idx val line))

  unfoldable pub skip_then : P (Unit {0})
  skip_then = do t ← peek_raw; if is_word u t "THEN" then (do next; pure tt) else pure tt

  -- The loop over `ELSEIF`.
  unfoldable pub else_ifs : S → ℕ → P (ElseIfs Float)
  unfolding skip_then
  else_ifs stmt zero = stuck
  else_ifs stmt (suc f) = do
    t ← peek
    if is_word u t "ELSEIF"
        then (do
          next
          cond ← expr f
          skip_then
          body ← parse_stmts stmt ("ELSE" ∷ "ELSEIF" ∷ "ENDIF" ∷ []) f
          rest ← else_ifs stmt f
          pure (cons_else_if cond body rest))
        else pure no_else_ifs

  unfoldable pub else_part : S → ℕ → P (Nodes Float)
  else_part stmt f = do
    t ← peek
    if is_word u t "ELSE" then (do next; parse_stmts stmt ("ENDIF" ∷ []) f) else pure no_nodes

  unfoldable pub block_if : S → ℕ → Expr Float → ℕ → S
  unfolding else_ifs else_part
  block_if stmt f cond line = do
    body ← parse_stmts stmt ("ELSE" ∷ "ELSEIF" ∷ "ENDIF" ∷ []) f
    eis ← else_ifs stmt f
    els ← else_part stmt f
    skip_newlines
    next
    pure (some (if_stmt cond body eis els line))

  unfoldable pub parse_if : S → ℕ → ℕ → S
  unfolding skip_then block_if
  parse_if stmt f line = do
    cond ← expr f
    skip_then
    t ← peek_raw
    if is_newline t.kind || is_eof t.kind then block_if stmt f cond line else do
      s ← stmt
      pure (some (if_stmt cond (cons_node (or_nil s) no_nodes) no_else_ifs no_nodes line))

  unfoldable pub parse_while : S → ℕ → ℕ → S
  parse_while stmt f line = do
    cond ← expr f
    body ← parse_stmts stmt ("WEND" ∷ []) f
    skip_newlines
    next
    pure (some (while_stmt cond body line))

  unfoldable pub step_part : ℕ → P (Expr Float)
  step_part f = do
    t ← peek_raw
    if is_word u t "STEP" then (do next; expr f) else pure (int_lit (pos 1))

  unfoldable pub parse_for : S → ℕ → ℕ → S
  unfolding step_part
  parse_for stmt f line = do
    var ← next
    next
    start ← expr f
    next
    stop ← expr f
    step ← step_part f
    body ← parse_stmts stmt ("NEXT" ∷ []) f
    skip_newlines
    next
    t ← peek_raw
    if is_ident t.kind then (do next; pure tt) else pure tt
    pure (some (for_stmt (to_upper var.text) start stop step body line))

  unfoldable pub parse_proc_decl : S → ℕ → ℕ → S
  parse_proc_decl stmt f line = do
    name ← next
    params ← parse_params u f
    body ← parse_stmts stmt ("ENDPROC" ∷ "END" ∷ []) f
    skip_newlines
    next
    pure (some (proc_decl (to_upper name.text) params body line))

  unfoldable pub parse_func_decl : S → ℕ → ℕ → S
  unfolding parse_as
  parse_func_decl stmt f line = do
    name ← next
    params ← parse_params u f
    ret ← parse_as u type_integer
    body ← parse_stmts stmt ("ENDFUNC" ∷ "END" ∷ []) f
    skip_newlines
    next
    pure (some (func_decl (to_upper name.text) params ret body line))

  -- `NAME(list)` has been passed: an array assignment, or a call.
  unfoldable pub after_list : ℕ → Bytes → Exprs Float → ℕ → S
  after_list f kw idx line = do
    t ← peek_raw
    if is_eq t.kind
        then (do next; val ← expr f; pure (some (assign_stmt kw idx val line)))
        else pure (some (call_stmt kw idx line))

  -- The `default` of the `switch kw`.
  unfoldable pub parse_other : ℕ → Bytes → ℕ → S
  unfolding after_list
  parse_other f kw line = do
    t ← peek_raw
    if is_eq t.kind
        then (do next; val ← expr f; pure (some (assign_stmt kw no_exprs val line)))
        else if is_lparen t.kind
        then (do next; idx ← parse_expr_list u fl (expr f) f; next; after_list f kw idx line)
        else (do args ← parse_arg_list u fl (expr f) f; pure (some (call_stmt kw args line)))

  abbrev pub is_type_word : Bytes → Bool
  is_type_word kw =
      equal kw (codes "BOOLEAN")
      || equal kw (codes "INTEGER")
      || equal kw (codes "STRING")
      || equal kw (codes "REAL")
      || equal kw (codes "DATE")
      || equal kw (codes "TIME")
      || equal kw (codes "MONEY")
      || equal kw (codes "BIGSTR")

  -- The `switch kw`; the keyword has been passed.
  unfoldable pub parse_keyword : S → ℕ → Bytes → ℕ → S
  unfolding parse_dim parse_var_decl parse_assign parse_if parse_while parse_for parse_proc_decl
      parse_func_decl parse_other
  parse_keyword stmt f kw line =
      if equal kw (codes "DIM")
      then parse_dim f line
      else if equal kw (codes "IF")
      then parse_if stmt f line
      else if equal kw (codes "WHILE")
      then parse_while stmt f line
      else if equal kw (codes "FOR")
      then parse_for stmt f line
      else if equal kw (codes "GOTO")
      then (do label ← next; pure (some (goto_stmt label.text line)))
      else if equal kw (codes "GOSUB")
      then (do label ← next; pure (some (gosub_stmt label.text line)))
      else if equal kw (codes "RETURN")
      then pure (some (return_stmt line))
      else if equal kw (codes "END") || equal kw (codes "STOP")
      then pure (some (end_stmt line))
      else if equal kw (codes "QUIT")
      then pure (some (quit_stmt line))
      else if equal kw (codes "LET")
      then parse_assign f line
      else if equal kw (codes "PROCEDURE") || equal kw (codes "PROC")
      then parse_proc_decl stmt f line
      else if equal kw (codes "FUNCTION") || equal kw (codes "FUNC")
      then parse_func_decl stmt f line
      else if is_type_word kw
      then parse_var_decl f kw line
      else parse_other f kw line

  abbrev pub second_kind : List Token → Bool
  second_kind toks = is_colon (head (tail toks)).kind

  unfoldable pub stmt_at : S → ℕ → Token → Bool → S
  unfolding parse_keyword
  stmt_at stmt f t colon =
      if is_eof t.kind
      then pure none
      else if is_ident t.kind && colon
      then (do next; next; pure (some (label_stmt t.text t.line)))
      else if is_hash t.kind
      then (do next; pure (some (label_stmt t.text t.line)))
      else if is_ident t.kind
      then (do next; parse_keyword stmt f (to_upper t.text) t.line)
      else (do next; pure none)

  unfoldable pub parse_stmt : ℕ → S
  unfolding stmt_at
  parse_stmt zero = stuck
  parse_stmt (suc f) = do
    skip_newlines
    t ← peek
    λ toks. stmt_at (parse_stmt f) f t (second_kind toks) toks

  -- The loop of `Parse`: a statement on each round up to the end.
  unfoldable pub parse_program : ℕ → P (Nodes Float)
  unfolding parse_stmts
  parse_program f = parse_stmts (parse_stmt f) [] f

  -- `Parse` on a list of tokens. A statement passes a token at least.
  unfoldable pub parse : List Token → Outcome (Nodes Float)
  unfolding parse_program parse_stmt
  parse toks = parse_program (suc (length toks)) toks
