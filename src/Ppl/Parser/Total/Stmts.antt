-- ===== src/Ppl/Parser/Total/Stmts.antt =====
-- The parts of statements end.
use virt_bbs.Prelude.{
  ℕ, zero, suc, ◌-◌, ◌≤◌, ◌<◌, ◌≡◌, true, false, ◌||◌, List, [], ◌∷◌, String, arith, Bytes, length,
  Bool-cases, inl, inr, ◌∙◌, ap,
}
use virt_bbs.Ppl.Host.{Unicode, FloatOps}
use virt_bbs.Ppl.Lexer.{Token}
use virt_bbs.Ppl.Ast.{TypeCode, type_string, Expr, Exprs}
use virt_bbs.Ppl.Parser.{
  ◌>>=◌, pure, next, head, tail, skip, peek, peek_raw, skip_newlines, is_eof, is_rparen, is_word,
}
use virt_bbs.Ppl.Parser.Expr.{parse_expr, parse_expr_list, parse_arg_list}
use virt_bbs.Ppl.Parser.Stmt.{
  S, skip_comma, params_loop, parse_params, parse_as, parse_stmts, optional_list, parse_dim,
  parse_var_decl, expect_equals, parse_assign, skip_then, else_ifs, else_part, block_if, step_part,
  after_list, parse_other, is_one_of,
}
use virt_bbs.Ppl.Parser.Total.{
  Fits, Fits-mono, Fits-continue, length-next, length-skip, lengths, skip_idem,
}
use virt_bbs.Ppl.Parser.Total.Exprs.{parse_expr-Fits, parse_expr_list-Fits, parse_arg_list-Fits}

pub skip_comma-Fits : (toks : List Token) → Fits (length toks) (skip_comma toks)
unfolding skip_comma peek_raw next
skip_comma-Fits toks = ground (arith, length-next toks)

module _ (u : Unicode) where
  pub params_loop-Fits :
      (f : ℕ) (toks : List Token) → length toks < f → Fits (length toks) (params_loop u f toks)
  unfolding params_loop peek_raw next
  params_loop-Fits zero toks h = elim h [ ]
  params_loop-Fits (suc f) [] h = ground arith
  params_loop-Fits (suc f) (t ∷ ts) h =
      let named = tail (skip (tail (skip (t ∷ ts)))) in
      elim (Bool-cases (is_rparen t.kind || is_eof t.kind)) [
        | inl b ↦ rw b (omega arith)
        | inr b ↦ rw b (
            Fits-continue _ _ (skip_comma named) _ (skip_comma-Fits named) λ x rest q.
              Fits-continue _ _ (params_loop u f rest) _ (params_loop-Fits f rest (omega lengths))
                (λ ps r p. omega lengths))
      ]

  pub parse_params-Fits :
      (f : ℕ) (toks : List Token) → length toks < f → Fits (length toks) (parse_params u f toks)
  unfolding parse_params peek_raw next
  parse_params-Fits f toks h =
      let inside = tail (skip toks) in
      let listed : Fits (length toks) ((params_loop u f >>= λ ps. next >>= λ _. pure ps) inside) =
        Fits-continue (length inside) (length toks) (params_loop u f inside) _
          (params_loop-Fits f inside (omega lengths)) (λ ps rest q. omega lengths) in
      ground (arith, listed)

  pub parse_as-Fits : (tc : TypeCode) (toks : List Token) → Fits (length toks) (parse_as u tc toks)
  unfolding parse_as peek_raw next
  parse_as-Fits tc toks = ground (arith, length-next toks, length-next (tail (skip toks)))

module _ (u : Unicode) (fl : FloatOps) where
  open fl use {Float}

  pub expr-Fits :
      (f : ℕ) (toks : List Token) → length toks < f → Fits (length toks) (parse_expr u fl f toks)
  expr-Fits zero toks h = elim h [ ]
  expr-Fits (suc f) toks h = parse_expr-Fits u fl f toks (omega arith)

  pub expr_list-Fits :
      (f : ℕ) (toks : List Token)
      → length toks < f
      → Fits (length toks) (parse_expr_list u fl (parse_expr u fl f) f toks)
  expr_list-Fits zero toks h = elim h [ ]
  expr_list-Fits (suc f) toks h =
      parse_expr_list-Fits u fl (parse_expr u fl (suc f)) f (suc f) (parse_expr-Fits u fl f) toks h
        (omega arith)

  pub arg_list-Fits :
      (f : ℕ) (toks : List Token)
      → length toks < f
      → Fits (length toks) (parse_arg_list u fl (parse_expr u fl f) f toks)
  arg_list-Fits zero toks h = elim h [ ]
  arg_list-Fits (suc f) toks h =
      parse_arg_list-Fits u fl (parse_expr u fl (suc f)) f (suc f) (parse_expr-Fits u fl f) toks h
        (omega arith)

  pub optional_list-Fits :
      (f : ℕ) (toks : List Token) → length toks < f → Fits (length toks) (optional_list u fl f toks)
  unfolding optional_list peek_raw next
  optional_list-Fits f toks h =
      let inside = tail (skip toks) in
      let listed : Fits (length toks)
          ((parse_expr_list u fl (parse_expr u fl f) f >>= λ es. next >>= λ _. pure es) inside) =
        Fits-continue (length inside) (length toks)
          (parse_expr_list u fl (parse_expr u fl f) f inside) _
          (expr_list-Fits f inside (omega lengths)) (λ es rest q. omega lengths) in
      ground (arith, listed)

  nonempty : (toks : List Token) → is_eof (head toks).kind ≡ false → 0 < length toks
  nonempty [] h = cc
  nonempty (t ∷ ts) h = omega arith

  is_word_nonempty :
      (toks : List Token) (w : String) → is_word u (head toks) w ≡ true → 0 < length toks
  is_word_nonempty [] w h = cc
  is_word_nonempty (t ∷ ts) w h = omega arith

  -- `stmt` ends on at most `n` tokens, and passes one unless it stands at the end.
  abbrev pub StmtEnds : ℕ → S u fl → Type 0
  StmtEnds n stmt =
      (toks : List Token)
      → length toks ≤ n
      → is_eof (head (skip toks)).kind ≡ false
      → Fits (length toks - 1) (stmt toks)

  not_eof :
      (t : Token) (ws : List String)
      → (is_eof t.kind || is_one_of u t ws) ≡ false
      → is_eof t.kind ≡ false
  not_eof t ws h = ground arith

  pub parse_stmts-Fits :
      (n : ℕ) (stmt : S u fl) (ws : List String) (f : ℕ) (toks : List Token)
      → StmtEnds n stmt
      → length toks ≤ n
      → length toks < f
      → Fits (length toks) (parse_stmts u fl stmt ws f toks)
  unfolding parse_stmts skip_newlines peek
  parse_stmts-Fits n stmt ws zero toks s le h = elim h [ ]
  parse_stmts-Fits n stmt ws (suc f) toks s le h =
      let here = skip (skip toks) in
      elim (Bool-cases (is_eof (head here).kind || is_one_of u (head here) ws)) [
        | inl b ↦ rw b (omega lengths)
        | inr b ↦ rw b (
            Fits-continue _ _ (stmt here) _
              (s here (omega lengths)
                (ap (λ x. is_eof (head x).kind) (skip_idem (skip toks)) ∙ not_eof (head here) ws b))
              λ x rest q.
                Fits-continue _ _ (parse_stmts u fl stmt ws f rest) _
                  (parse_stmts-Fits n stmt ws f rest s (omega lengths)
                    (omega (lengths, nonempty here (not_eof (head here) ws b))))
                  (λ ns r p. omega lengths))
      ]

  pub parse_dim-Fits :
      (f line : ℕ) (toks : List Token)
      → length toks < f
      → Fits (length toks) (parse_dim u fl f line toks)
  unfolding parse_dim next
  parse_dim-Fits f line toks h =
      Fits-continue _ _ (optional_list u fl f (tail (skip toks))) _
        (optional_list-Fits f (tail (skip toks)) (omega lengths))
        λ dims r q.
          Fits-continue _ _ (parse_as u type_string r) _ (parse_as-Fits u type_string r)
            (λ tc r' p. omega lengths)

  pub parse_var_decl-Fits :
      (f line : ℕ) (kw : Bytes) (toks : List Token)
      → length toks < f
      → Fits (length toks) (parse_var_decl u fl f kw line toks)
  unfolding parse_var_decl next
  parse_var_decl-Fits f line kw toks h =
      Fits-continue _ _ (optional_list u fl f (tail (skip toks))) _
        (optional_list-Fits f (tail (skip toks)) (omega lengths)) (λ dims r q. omega lengths)

  pub expect_equals-Fits :
      (line : ℕ) (toks : List Token) → Fits (length toks) (expect_equals u fl line toks)
  unfolding expect_equals peek_raw next
  expect_equals-Fits line toks = ground (arith, length-next toks, length-next (tail (skip toks)))

  pub parse_assign-Fits :
      (f line : ℕ) (toks : List Token)
      → length toks < f
      → Fits (length toks) (parse_assign u fl f line toks)
  unfolding parse_assign next
  parse_assign-Fits f line toks h =
      Fits-continue _ _ (optional_list u fl f (tail (skip toks))) _
        (optional_list-Fits f (tail (skip toks)) (omega lengths))
        λ idx r q.
          Fits-continue _ _ (expect_equals u fl line r) _ (expect_equals-Fits line r) λ x r' q'.
            Fits-continue _ _ (parse_expr u fl f r') _ (expr-Fits f r' (omega lengths))
              (λ val r3 p. omega lengths)

  pub skip_then-Fits : (toks : List Token) → Fits (length toks) (skip_then u fl toks)
  unfolding skip_then peek_raw next
  skip_then-Fits toks = ground (arith, length-next toks)

  pub step_part-Fits :
      (f : ℕ) (toks : List Token) → length toks < f → Fits (length toks) (step_part u fl f toks)
  unfolding step_part peek_raw next
  step_part-Fits f toks h = ground (
    arith,
    length-next toks,
    expr-Fits f (tail (skip toks)),
    Fits-mono (length (tail (skip toks))) (length toks) (parse_expr u fl f (tail (skip toks))),
  )

  pub after_list-Fits :
      (f line : ℕ) (kw : Bytes) (idx : Exprs Float) (toks : List Token)
      → length toks < f
      → Fits (length toks) (after_list u fl f kw idx line toks)
  unfolding after_list peek_raw next
  after_list-Fits f line kw idx toks h =
      ground (arith, length-next toks, expr-Fits f (tail (skip toks)))

  -- The three forms of a line that begins with a name.
  pub parse_other-Fits :
      (f line : ℕ) (kw : Bytes) (toks : List Token)
      → length toks < f
      → Fits (length toks) (parse_other u fl f kw line toks)
  unfolding parse_other peek_raw next
  parse_other-Fits f line kw toks h =
      let inside = tail (skip toks) in
      let listed : Fits (length toks) (
          (parse_expr_list u fl (parse_expr u fl f) f >>= λ idx.
          next >>= λ _. after_list u fl f kw idx line)
            inside) =
        Fits-continue (length inside) (length toks)
          (parse_expr_list u fl (parse_expr u fl f) f inside) _
          (expr_list-Fits f inside (omega lengths))
          (λ idx rest q.
            Fits-mono (length (tail (skip rest))) (length toks)
              (after_list u fl f kw idx line (tail (skip rest))) (omega lengths)
              (after_list-Fits f line kw idx (tail (skip rest)) (omega lengths))) in
      ground (arith, listed, length-next toks, expr-Fits f inside, arg_list-Fits f toks)

  module _ (n : ℕ) (stmt : S u fl) (s : StmtEnds n stmt) where
    pub else_ifs-Fits :
        (f : ℕ) (toks : List Token)
        → length toks ≤ n
        → length toks < f
        → Fits (length toks) (else_ifs u fl stmt f toks)
    unfolding else_ifs peek next
    else_ifs-Fits zero toks le h = elim h [ ]
    else_ifs-Fits (suc f) toks le h =
        let here = skip toks in
        elim (Bool-cases (is_word u (head here) "ELSEIF")) [
          | inl b ↦ rw b (
              Fits-continue _ _ (parse_expr u fl f (tail (skip here))) _
                (expr-Fits f (tail (skip here)) (omega (lengths, is_word_nonempty here "ELSEIF" b)))
                λ c r q. Fits-continue _ _ (skip_then u fl r) _ (skip_then-Fits r) λ x r1 q1.
                  Fits-continue _ _ (parse_stmts u fl stmt ("ELSE" ∷ "ELSEIF" ∷ "ENDIF" ∷ []) f r1)
                    _
                    (parse_stmts-Fits n stmt _ f r1 s (omega lengths)
                      (omega (lengths, is_word_nonempty here "ELSEIF" b)))
                    λ body r2 q2.
                      Fits-continue _ _ (else_ifs u fl stmt f r2) _
                        (else_ifs-Fits f r2 (omega lengths)
                          (omega (lengths, is_word_nonempty here "ELSEIF" b)))
                        (λ rest r3 q3. omega lengths))
          | inr b ↦ rw b (omega lengths)
        ]

    pub else_part-Fits :
        (f : ℕ) (toks : List Token)
        → length toks ≤ n
        → length toks < f
        → Fits (length toks) (else_part u fl stmt f toks)
    unfolding else_part peek next
    else_part-Fits f toks le h =
        let inside = tail (skip (skip toks)) in
        ground (
          arith,
          length-skip toks,
          length-next (skip toks),
          parse_stmts-Fits n stmt ("ENDIF" ∷ []) f inside s,
          Fits-mono (length inside) (length toks) (parse_stmts u fl stmt ("ENDIF" ∷ []) f inside),
        )

    pub block_if-Fits :
        (f line : ℕ) (c : Expr Float) (toks : List Token)
        → length toks ≤ n
        → length toks < f
        → Fits (length toks) (block_if u fl stmt f c line toks)
    unfolding block_if next skip_newlines
    block_if-Fits f line c toks le h =
        Fits-continue _ _ (parse_stmts u fl stmt ("ELSE" ∷ "ELSEIF" ∷ "ENDIF" ∷ []) f toks) _
          (parse_stmts-Fits n stmt _ f toks s le h)
          λ b r q.
            Fits-continue _ _ (else_ifs u fl stmt f r) _
              (else_ifs-Fits f r (omega lengths) (omega lengths))
              λ eis r1 q1.
                Fits-continue _ _ (else_part u fl stmt f r1) _
                  (else_part-Fits f r1 (omega lengths) (omega lengths)) (λ els r2 q2. omega lengths)
