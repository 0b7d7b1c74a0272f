-- ===== src/Ppl/Ast.antt =====
-- internal/ppl/ast.go, and the type codes of types.go. `F` is Go's `float64`.
use virt_bbs.Prelude.{ℕ, Bool, List, Bytes}
use virt_bbs.Prelude.Int.{ℤ}

pub data TypeCode : Type 0 where
  type_boolean type_integer type_money type_real type_string type_big_str : TypeCode
  type_date type_time type_unsigned : TypeCode

-- The texts that `tokOp` gives a binary operator, and the parser a unary one.
pub data BinOp : Type 0 where
  op_or op_and op_eq op_ne op_lt op_le op_gt op_ge : BinOp
  op_add op_sub op_mul op_div op_mod op_pow : BinOp

pub data UnaryOp : Type 0 where
  op_neg op_not : UnaryOp

mutual
  pub data Expr (F : Type 0) : Type 0 where
    int_lit : ℤ → Expr F
    real_lit : F → Expr F
    str_lit : Bytes → Expr F
    bool_lit : Bool → Expr F
    var_expr : Bytes → Exprs F → Expr F
    bin_expr : BinOp → Expr F → Expr F → Expr F
    unary_expr : UnaryOp → Expr F → Expr F
    call_expr : Bytes → Exprs F → Expr F

  pub data Exprs (F : Type 0) : Type 0 where
    no_exprs : Exprs F
    cons_expr : Expr F → Exprs F → Exprs F

pub record Param : Type 0 where
  pub name : Bytes
  pub type : TypeCode

-- A node carries the fields of its struct in their order, the line last. `nil_node` is Go's `nil`,
-- which the parser puts into a one-line IF with no statement.
mutual
  pub data Node (F : Type 0) : Type 0 where
    nil_node : Node F
    dim_stmt : Bytes → TypeCode → Exprs F → ℕ → Node F
    assign_stmt : Bytes → Exprs F → Expr F → ℕ → Node F
    if_stmt : Expr F → Nodes F → ElseIfs F → Nodes F → ℕ → Node F
    while_stmt : Expr F → Nodes F → ℕ → Node F
    for_stmt : Bytes → Expr F → Expr F → Expr F → Nodes F → ℕ → Node F
    goto_stmt : Bytes → ℕ → Node F
    gosub_stmt : Bytes → ℕ → Node F
    return_stmt : ℕ → Node F
    label_stmt : Bytes → ℕ → Node F
    end_stmt : ℕ → Node F
    quit_stmt : ℕ → Node F
    call_stmt : Bytes → Exprs F → ℕ → Node F
    proc_decl : Bytes → List Param → Nodes F → ℕ → Node F
    func_decl : Bytes → List Param → TypeCode → Nodes F → ℕ → Node F

  pub data Nodes (F : Type 0) : Type 0 where
    no_nodes : Nodes F
    cons_node : Node F → Nodes F → Nodes F

  pub data ElseIfs (F : Type 0) : Type 0 where
    no_else_ifs : ElseIfs F
    cons_else_if : Expr F → Nodes F → ElseIfs F → ElseIfs F
