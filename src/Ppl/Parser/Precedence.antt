-- ===== src/Ppl/Parser/Precedence.antt =====
-- internal/ppl/parser.go: `parseBinary` against the trees that the precedences of `tokOp` describe.
use virt_bbs.Prelude.{
  ◌≡◌, refl, sym, ap, subst, ◌∙◌, ℕ, zero, suc, ◌+◌, ◌-◌, ◌≤◌, ◌<◌, leb, if◌then◌else◌, false,
  Option, none, some, List, [], ◌∷◌, ◌++◌, Bytes, arith, append_assoc,
}
use virt_bbs.Prelude.Decimal.{parse_int, int_or_zero}
use virt_bbs.Ppl.Host.{Unicode, FloatOps}
use virt_bbs.Ppl.Lexer.{
  Token, TokenKind, tok_integer, tok_real, tok_string, tok_lparen, tok_rparen, tok_newline,
}
use virt_bbs.Ppl.Ast.{
  BinOp, op_or, op_and, op_eq, op_ne, op_lt, op_le, op_gt, op_ge, op_add, op_sub, op_mul, op_div,
  op_mod, op_pow, Expr, int_lit, real_lit, str_lit, bin_expr,
}
use virt_bbs.Ppl.Parser.{ok, P, pure, ◌>>=◌, ◌>>◌, head, skip, peek_raw, next, is_newline}
use virt_bbs.Ppl.Parser.Expr.{
  precedence, tok_op, kind_op, primary_of, parse_primary, parse_unary, binary_loop, parse_binary,
  parse_expr,
}

-- An expression of literals, parentheses and binary operators, as it is written.
pub data Tree : Type 0 where
  int_tree real_tree str_tree : Bytes → ℕ → Tree
  group : ℕ → ℕ → Tree → Tree
  node : Token → BinOp → Tree → Tree → Tree

abbrev pub written : Tree → List Token
written (int_tree s n) = record { kind = tok_integer; text = s; line = n } ∷ []
written (real_tree s n) = record { kind = tok_real; text = s; line = n } ∷ []
written (str_tree s n) = record { kind = tok_string; text = s; line = n } ∷ []
written (group m n e) =
    record { kind = tok_lparen; text = b'(' ∷ []; line = m } ∷ written e
    ++ record { kind = tok_rparen; text = b')' ∷ []; line = n } ∷ []
written (node t op l r) = written l ++ t ∷ written r

-- The precedence of the outermost operator, above all of them where there is none.
abbrev pub top : Tree → ℕ
top (node t op l r) = precedence op
top _ = 7

-- The calls of `parseBinary` and the rounds of its loop that a tree takes.
abbrev pub cost : Tree → ℕ
cost (group m n e) = suc (cost e)
cost (node t op l r) = suc (cost l + cost r)
cost _ = 0

abbrev left_ops : Tree → ℕ
left_ops (node t op l r) = suc (left_ops l)
left_ops _ = 0

left_ops-le : (e : Tree) → left_ops e ≤ cost e
left_ops-le (int_tree s n) = omega arith
left_ops-le (real_tree s n) = omega arith
left_ops-le (str_tree s n) = omega arith
left_ops-le (group m n e) = omega arith
left_ops-le (node t op l r) = omega (arith, left_ops-le l)

-- What stands behind an operand ends it: no operator, or one that binds no tighter.
abbrev pub Stops : Option BinOp → ℕ → Type 0
Stops none n = Unit
Stops (some op) n = precedence op ≤ n

Stops-le : (o : Option BinOp) (m n : ℕ) → Stops o m → m ≤ n → Stops o n
Stops-le none m n h k = tt
Stops-le (some op) m n h k = omega (arith, h, k)

precedence-pos : (op : BinOp) → 0 < precedence op
unfolding precedence
precedence-pos op_or = omega arith
precedence-pos op_and = omega arith
precedence-pos op_eq = omega arith
precedence-pos op_ne = omega arith
precedence-pos op_lt = omega arith
precedence-pos op_le = omega arith
precedence-pos op_gt = omega arith
precedence-pos op_ge = omega arith
precedence-pos op_add = omega arith
precedence-pos op_sub = omega arith
precedence-pos op_mul = omega arith
precedence-pos op_div = omega arith
precedence-pos op_mod = omega arith
precedence-pos op_pow = omega arith

top-pos : (e : Tree) → 0 < top e
top-pos (node t op l r) = precedence-pos op
top-pos (int_tree s n) = omega arith
top-pos (real_tree s n) = omega arith
top-pos (str_tree s n) = omega arith
top-pos (group m n e) = omega arith

module _ (u : Unicode) where
  close-Stops :
      (line n : ℕ)
      → Stops (tok_op u (record { kind = tok_rparen; text = b')' ∷ []; line = line })) n
  unfolding tok_op kind_op
  close-Stops line n = tt

  -- Each operator is spelled by its token, binds no tighter than its left operand and less tightly
  -- than its right one.
  abbrev pub WellNested : Tree → Type 0
  WellNested (group m n e) = WellNested e
  WellNested (node t op l r) =
      (tok_op u t ≡ some op)
      × (precedence op ≤ top l)
      × (precedence op < top r)
      × WellNested l
      × WellNested r
  WellNested _ = Unit

  kind_op-newline :
      (k : TokenKind) (text : Bytes) (op : BinOp)
      → kind_op u k text ≡ some op
      → is_newline k ≡ false
  unfolding kind_op is_newline
  kind_op-newline tok_newline text op h = ground (arith, h)
  kind_op-newline _ text op h = refl

  op-newline : (t : Token) (op : BinOp) → tok_op u t ≡ some op → is_newline t.kind ≡ false
  unfolding tok_op
  op-newline t op h = kind_op-newline t.kind t.text op h

module _ (u : Unicode) (fl : FloatOps) where
  abbrev pub tree_expr : Tree → Expr fl.Float
  tree_expr (int_tree s n) = int_lit (int_or_zero (parse_int s))
  tree_expr (real_tree s n) = real_lit (fl.parse s)
  tree_expr (str_tree s n) = str_lit s
  tree_expr (group m n e) = tree_expr e
  tree_expr (node t op l r) = bin_expr op (tree_expr l) (tree_expr r)

  -- A round of the loop, at the operator that it finds.
  abbrev round :
      (ℕ → P (Expr fl.Float))
      → (Expr fl.Float → P (Expr fl.Float))
      → ℕ
      → Expr fl.Float
      → Option BinOp
      → P (Expr fl.Float)
  round right loop p left none = pure left
  round right loop p left (some op) =
      if leb (precedence op) p
      then pure left
      else do next; r ← right (precedence op); loop (bin_expr op left r)

  loop-round :
      (right : ℕ → P (Expr fl.Float)) (f p : ℕ) (e : Expr fl.Float) (k : List Token)
      → binary_loop u fl right (suc f) p e k
        ≡ round right (binary_loop u fl right f p) p e (tok_op u (head k)) k
  unfolding binary_loop peek_raw
  loop-round right f p e k = refl

  round-Stops :
      (right : ℕ → P (Expr fl.Float)) (loop : Expr fl.Float → P (Expr fl.Float)) (p : ℕ)
      (e : Expr fl.Float) (o : Option BinOp) (k : List Token)
      → Stops o p
      → round right loop p e o k ≡ ok e k
  round-Stops right loop p e none k h = refl
  round-Stops right loop p e (some op) k h = ground (arith, h)

  round-goes_on :
      (right : ℕ → P (Expr fl.Float)) (loop : Expr fl.Float → P (Expr fl.Float)) (p : ℕ)
      (l r : Expr fl.Float) (op : BinOp) (t : Token) (rest k : List Token)
      → is_newline t.kind ≡ false
      → p < precedence op
      → right (precedence op) rest ≡ ok r k
      → round right loop p l (some op) (t ∷ rest) ≡ loop (bin_expr op l r) k
  unfolding next skip
  round-goes_on right loop p l r op t rest k stays binds parses =
      ground (arith, stays, binds, parses)

  loop-Stops :
      (right : ℕ → P (Expr fl.Float)) (f p : ℕ) (e : Expr fl.Float) (k : List Token)
      → Stops (tok_op u (head k)) p
      → binary_loop u fl right (suc f) p e k ≡ ok e k
  loop-Stops right f p e k h =
      loop-round right f p e k
      ∙ round-Stops right (binary_loop u fl right f p) p e (tok_op u (head k)) k h

  loop-goes_on :
      (right : ℕ → P (Expr fl.Float)) (f p : ℕ) (op : BinOp) (l r : Expr fl.Float) (t : Token)
      (rest k : List Token)
      → tok_op u t ≡ some op
      → p < precedence op
      → right (precedence op) rest ≡ ok r k
      → binary_loop u fl right (suc f) p l (t ∷ rest)
        ≡ binary_loop u fl right f p (bin_expr op l r) k
  loop-goes_on right f p op l r t rest k is_op binds parses =
      loop-round right f p l (t ∷ rest)
      ∙ ap (λ o. round right (binary_loop u fl right f p) p l o (t ∷ rest)) is_op
      ∙ round-goes_on right (binary_loop u fl right f p) p l r op t rest k (op-newline u t op is_op)
          binds parses

  -- An operand in front is passed, and the loop starts with its value.
  binary-operand :
      (f h p : ℕ) (toks : List Token) (e : Expr fl.Float) (k : List Token)
      → suc f ≡ h
      → parse_unary u fl (parse_binary u fl f 0) (suc f) toks ≡ ok e k
      → parse_binary u fl (suc f) p toks ≡ binary_loop u fl (parse_binary u fl f) h p e k
  unfolding parse_binary
  binary-operand f h p toks e k fuel parses =
      subst (λ x. parse_binary u fl (suc f) p toks ≡ binary_loop u fl (parse_binary u fl f) x p e k)
        fuel (ground (arith, parses))

  unary-int :
      (expr : P (Expr fl.Float)) (f n : ℕ) (s : Bytes) (k : List Token)
      → parse_unary u fl expr (suc f) (record { kind = tok_integer; text = s; line = n } ∷ k)
        ≡ ok (int_lit (int_or_zero (parse_int s))) k
  unfolding parse_unary parse_primary primary_of peek_raw next skip is_newline
  unary-int expr f n s k = refl

  unary-real :
      (expr : P (Expr fl.Float)) (f n : ℕ) (s : Bytes) (k : List Token)
      → parse_unary u fl expr (suc f) (record { kind = tok_real; text = s; line = n } ∷ k)
        ≡ ok (real_lit (fl.parse s)) k
  unfolding parse_unary parse_primary primary_of peek_raw next skip is_newline
  unary-real expr f n s k = refl

  unary-str :
      (expr : P (Expr fl.Float)) (f n : ℕ) (s : Bytes) (k : List Token)
      → parse_unary u fl expr (suc f) (record { kind = tok_string; text = s; line = n } ∷ k)
        ≡ ok (str_lit s) k
  unfolding parse_unary parse_primary primary_of peek_raw next skip is_newline
  unary-str expr f n s k = refl

  unary-group :
      (expr : P (Expr fl.Float)) (f m n : ℕ) (e : Expr fl.Float) (inner k : List Token)
      → expr inner ≡ ok e (record { kind = tok_rparen; text = b')' ∷ []; line = n } ∷ k)
      → parse_unary u fl expr
          (suc f)
          (record { kind = tok_lparen; text = b'(' ∷ []; line = m } ∷ inner)
        ≡ ok e k
  unfolding parse_unary parse_primary primary_of peek_raw next skip is_newline
  unary-group expr f m n e inner k h = rw h refl

  -- The loop that is reached behind a tree stops there.
  stop_after :
      (f h p : ℕ) (e : Expr fl.Float) (toks k : List Token)
      → parse_binary u fl (suc f) p toks ≡ binary_loop u fl (parse_binary u fl f) (suc h) p e k
      → Stops (tok_op u (head k)) p
      → parse_binary u fl (suc f) p toks ≡ ok e k
  stop_after f h p e toks k reached stops = reached ∙ loop-Stops (parse_binary u fl f) h p e k stops

  binary-tree :
      (e : Tree) (f h p : ℕ) (k : List Token)
      → WellNested u e
      → p < top e
      → Stops (tok_op u (head k)) (top e)
      → cost e ≤ f
      → suc f ≡ h + left_ops e
      → parse_binary u fl (suc f) p (written e ++ k)
        ≡ binary_loop u fl (parse_binary u fl f) h p (tree_expr e) k
  binary-tree (int_tree s n) f h p k nested low stops enough fuel =
      binary-operand f h p _ _ k (omega (arith, fuel)) (unary-int _ f n s k)
  binary-tree (real_tree s n) f h p k nested low stops enough fuel =
      binary-operand f h p _ _ k (omega (arith, fuel)) (unary-real _ f n s k)
  binary-tree (str_tree s n) f h p k nested low stops enough fuel =
      binary-operand f h p _ _ k (omega (arith, fuel)) (unary-str _ f n s k)
  binary-tree (group m n e) zero h p k nested low stops enough fuel = ground (arith, enough)
  binary-tree (group m n e) (suc f) h p k nested low stops enough fuel =
      let close : Token = record { kind = tok_rparen; text = b')' ∷ []; line = n } in
      let room = left_ops-le e in
      binary-operand (suc f) h p (written (group m n e) ++ k) (tree_expr e) k (omega (arith, fuel))
        (unary-group (parse_binary u fl (suc f) 0) (suc f) m n (tree_expr e)
          ((written e ++ close ∷ []) ++ k) k
          (ap (parse_binary u fl (suc f) 0) (append_assoc (written e) (close ∷ []) k)
            ∙ stop_after f (f - left_ops e) 0 (tree_expr e) (written e ++ close ∷ k) (close ∷ k)
                (binary-tree e f (suc (f - left_ops e)) 0 (close ∷ k) nested (top-pos e)
                  (close-Stops u n (top e)) (omega (arith, enough)) (omega (arith, room, enough)))
                (close-Stops u n 0)))
  binary-tree (node t op l r) zero h p k nested low stops enough fuel = ground (arith, enough)
  binary-tree (node t op l r) (suc f) h p k (is_op, lok, rok, wl, wr) low stops enough fuel =
      let room = left_ops-le r in
      ap (parse_binary u fl (suc (suc f)) p) (append_assoc (written l) (t ∷ written r) k)
      ∙ binary-tree l (suc f) (suc h) p (t ∷ written r ++ k) wl (omega (arith, lok, low))
          (subst (λ o. Stops o (top l)) (sym is_op) lok) (omega (arith, enough))
          (omega (arith, fuel))
      ∙ loop-goes_on (parse_binary u fl (suc f)) h p op (tree_expr l) (tree_expr r) t
          (written r ++ k) k is_op low
          (stop_after f (f - left_ops r) (precedence op) (tree_expr r) (written r ++ k) k
            (binary-tree r f (suc (f - left_ops r)) (precedence op) k wr rok
              (Stops-le (tok_op u (head k)) (precedence op) (top r) stops (omega (arith, rok)))
              (omega (arith, enough)) (omega (arith, room, enough)))
            stops)

  -- An expression of literals, parentheses and binary operators that nests by the precedences, with
  -- equal ones to the left, is what `parse_expr` makes of its tokens: in front of tokens that start
  -- with no operator, and with fuel above the tree's cost, it passes the tokens of the tree and ends.
  pub parse_expr-written :
      (e : Tree) (f : ℕ) (k : List Token)
      → WellNested u e
      → tok_op u (head k) ≡ none
      → cost e < f
      → parse_expr u fl f (written e ++ k) ≡ ok (tree_expr e) k
  unfolding parse_expr
  parse_expr-written e zero k nested ends enough = ground (arith, enough)
  parse_expr-written e (suc f) k nested ends enough =
      let room = left_ops-le e in
      stop_after f (f - left_ops e) 0 (tree_expr e) (written e ++ k) k
        (binary-tree e f (suc (f - left_ops e)) 0 k nested (top-pos e)
          (subst (λ o. Stops o (top e)) (sym ends) tt) (omega (arith, enough))
          (omega (arith, room, enough)))
        (subst (λ o. Stops o 0) (sym ends) tt)
