-- ===== src/Ppl/Parser/Expr.antt =====
-- The expressions of internal/ppl/parser.go. Each loop and each recursion takes fuel, which bounds
-- how many tokens it passes. A function that calls `parseExpr` again takes it as an argument.
use virt_bbs.Prelude.{
  ℕ, zero, suc, Bool, true, false, ◌||◌, Option, none, some, Bytes, codes, equal, leb,
  if◌then◌else◌,
}
use virt_bbs.Prelude.Int.{pos}
use virt_bbs.Prelude.Decimal.{parse_int, int_or_zero}
use virt_bbs.Ppl.Host.{Unicode, FloatOps}
use virt_bbs.Ppl.Lexer.{
  Token, TokenKind, tok_plus, tok_minus, tok_star, tok_slash, tok_caret, tok_percent, tok_eq,
  tok_neq, tok_lt, tok_lte, tok_gt, tok_gte, tok_amp_amp, tok_pipe_pipe, tok_ident, tok_integer,
  tok_real, tok_string, tok_lparen, tok_bang,
}
use virt_bbs.Ppl.Ast.{
  BinOp, op_or, op_and, op_eq, op_ne, op_lt, op_le, op_gt, op_ge, op_add, op_sub, op_mul, op_div,
  op_mod, op_pow, op_neg, op_not, Expr, int_lit, real_lit, str_lit, bool_lit, var_expr, bin_expr,
  unary_expr, call_expr, Exprs, no_exprs, cons_expr,
}
use virt_bbs.Ppl.Parser.{
  P, ◌>>=◌, ◌>>◌, pure, stuck, peek_raw, next, is_eof, is_lparen, is_rparen, is_comma, is_colon,
  is_newline, is_word,
}

unfoldable pub precedence : BinOp → ℕ
precedence op_or = 1
precedence op_and = 2
precedence op_eq = 3
precedence op_ne = 3
precedence op_lt = 3
precedence op_le = 3
precedence op_gt = 3
precedence op_ge = 3
precedence op_add = 4
precedence op_sub = 4
precedence op_mul = 5
precedence op_div = 5
precedence op_mod = 5
precedence op_pow = 6

module _ (u : Unicode) where
  open u use {to_upper}

  unfoldable pub word_op : Bytes → Option BinOp
  word_op up =
      if equal up (codes "AND")
      then some op_and
      else if equal up (codes "OR")
      then some op_or
      else if equal up (codes "MOD")
      then some op_mod
      else none

  unfoldable pub kind_op : TokenKind → Bytes → Option BinOp
  unfolding word_op
  kind_op tok_plus text = some op_add
  kind_op tok_minus text = some op_sub
  kind_op tok_star text = some op_mul
  kind_op tok_slash text = some op_div
  kind_op tok_caret text = some op_pow
  kind_op tok_percent text = some op_mod
  kind_op tok_eq text = some op_eq
  kind_op tok_neq text = some op_ne
  kind_op tok_lt text = some op_lt
  kind_op tok_lte text = some op_le
  kind_op tok_gt text = some op_gt
  kind_op tok_gte text = some op_ge
  kind_op tok_amp_amp text = some op_and
  kind_op tok_pipe_pipe text = some op_or
  kind_op tok_ident text = word_op (to_upper text)
  kind_op _ text = none

  unfoldable pub tok_op : Token → Option BinOp
  unfolding kind_op
  tok_op t = kind_op t.kind t.text

abbrev pub ends_list : Token → Bool
ends_list t = is_rparen t.kind || is_eof t.kind

abbrev pub ends_args : Token → Bool
ends_args t = is_newline t.kind || is_eof t.kind || is_colon t.kind

abbrev pub is_minus : TokenKind → Bool
is_minus tok_minus = true
is_minus _ = false

abbrev pub is_bang : TokenKind → Bool
is_bang tok_bang = true
is_bang _ = false

module _ (u : Unicode) (fl : FloatOps) where
  open u use {to_upper}
  open fl use {Float, parse}

  -- The loops of `parseExprList` and `parseArgList`; they differ in the tokens that end them.
  unfoldable pub list_loop : (Token → Bool) → P (Expr Float) → ℕ → P (Exprs Float)
  list_loop ends expr zero = stuck
  list_loop ends expr (suc f) = do
    t ← peek_raw
    if ends t then pure no_exprs else do
      e ← expr
      t' ← peek_raw
      if is_comma t'.kind
          then (do next; es ← list_loop ends expr f; pure (cons_expr e es))
          else pure (cons_expr e no_exprs)

  unfoldable pub parse_expr_list : P (Expr Float) → ℕ → P (Exprs Float)
  unfolding list_loop
  parse_expr_list = list_loop ends_list

  unfoldable pub parse_arg_list : P (Expr Float) → ℕ → P (Exprs Float)
  unfolding list_loop
  parse_arg_list = list_loop ends_args

  -- The name has been passed.
  unfoldable pub parse_name : P (Expr Float) → ℕ → Bytes → P (Expr Float)
  unfolding parse_expr_list
  parse_name expr f name =
      if equal name (codes "TRUE")
      then pure (bool_lit true)
      else if equal name (codes "FALSE")
      then pure (bool_lit false)
      else do
        t ← peek_raw
        if is_lparen t.kind
            then (do next; args ← parse_expr_list expr f; next; pure (call_expr name args))
            else pure (var_expr name no_exprs)

  unfoldable pub primary_of : P (Expr Float) → ℕ → TokenKind → Bytes → P (Expr Float)
  unfolding parse_name
  primary_of expr f tok_integer text = do next; pure (int_lit (int_or_zero (parse_int text)))
  primary_of expr f tok_real text = do next; pure (real_lit (parse text))
  primary_of expr f tok_string text = do next; pure (str_lit text)
  primary_of expr f tok_lparen text = do next; e ← expr; next; pure e
  primary_of expr f tok_ident text = do next; parse_name expr f (to_upper text)
  primary_of expr f _ text = pure (int_lit (pos 0))

  unfoldable pub parse_primary : P (Expr Float) → ℕ → P (Expr Float)
  unfolding primary_of
  parse_primary expr f = do t ← peek_raw; primary_of expr f t.kind t.text

  unfoldable pub parse_unary : P (Expr Float) → ℕ → P (Expr Float)
  unfolding parse_primary
  parse_unary expr zero = stuck
  parse_unary expr (suc f) = do
    t ← peek_raw
    if is_minus t.kind
        then (do next; val ← parse_unary expr f; pure (unary_expr op_neg val))
        else if is_bang t.kind || is_word u t "NOT"
        then (do next; val ← parse_unary expr f; pure (unary_expr op_not val))
        else parse_primary expr (suc f)

  -- The loop of `parseBinary`; `right` is its call of itself.
  unfoldable pub binary_loop : (ℕ → P (Expr Float)) → ℕ → ℕ → Expr Float → P (Expr Float)
  binary_loop right zero min_prec left = stuck
  binary_loop right (suc f) min_prec left = do
    t ← peek_raw
    elim (tok_op u t) [
      | none ↦ pure left
      | some op ↦
          if leb (precedence op) min_prec
          then pure left
          else do next; r ← right (precedence op); binary_loop right f min_prec (bin_expr op left r)
    ]

  unfoldable pub parse_binary : ℕ → ℕ → P (Expr Float)
  unfolding parse_unary binary_loop precedence tok_op
  parse_binary zero min_prec = stuck
  parse_binary (suc f) min_prec = do
    left ← parse_unary (parse_binary f 0) (suc f)
    binary_loop (parse_binary f) (suc f) min_prec left

  unfoldable pub parse_expr : ℕ → P (Expr Float)
  unfolding parse_binary
  parse_expr f = parse_binary f 0
