-- ===== src/Ppl/Parser/Total/Program.antt =====
-- `Parse` ends: it has a program, or the error of a LET, for every list of tokens.
use virt_bbs.Prelude.{
  ℕ, zero, suc, ◌-◌, ◌≤◌, ◌<◌, ◌≡◌, ◌≢◌, Bool, false, ◌||◌, List, [], ◌∷◌, arith, Bytes, length,
  Bool-cases, inl, inr, ◌∙◌, ap, subst,
}
use virt_bbs.Ppl.Host.{Unicode, FloatOps}
use virt_bbs.Ppl.Lexer.{Token}
use virt_bbs.Ppl.Ast.{Expr, type_integer}
use virt_bbs.Ppl.Parser.{
  out_of_fuel, head, tail, skip, next, peek, peek_raw, skip_newlines, is_newline, is_eof,
}
use virt_bbs.Ppl.Parser.Expr.{parse_expr}
use virt_bbs.Ppl.Parser.Stmt.{
  S, parse_params, parse_as, parse_stmts, skip_then, block_if, parse_if, parse_while, step_part,
  parse_for, parse_proc_decl, parse_func_decl, parse_keyword, stmt_at, parse_stmt, parse_program,
  parse,
}
use virt_bbs.Ppl.Parser.Total.{
  Fits, Fits-mono, Fits-continue, length-next, length-skip, lengths, skip_idem, skip_id,
}
use virt_bbs.Ppl.Parser.Total.Stmts.{
  StmtEnds, parse_stmts-Fits, parse_params-Fits, parse_as-Fits, expr-Fits, step_part-Fits,
  skip_then-Fits, block_if-Fits, parse_dim-Fits, parse_var_decl-Fits, parse_assign-Fits,
  parse_other-Fits,
}

module _ (u : Unicode) (fl : FloatOps) where
  open u use {to_upper}
  open fl use {Float}

  module _ (n : ℕ) (stmt : S u fl) (s : StmtEnds u fl n stmt) (f line : ℕ) (toks : List Token)
      (le : length toks ≤ n) (h : length toks < f) where
    body_if :
        (c : Expr Float) (r : List Token)
        → length r ≤ length toks
        → (is_newline (head r).kind || is_eof (head r).kind) ≡ false
        → Fits (length toks) (stmt r)
    body_if c r q b = Fits-mono (length r - 1) (length toks) (stmt r) (omega arith) (
        s r (omega arith)
          (ap (λ x. is_eof (head x).kind) (skip_id r (ground arith)) ∙ ground arith))

    parse_if-Fits : Fits (length toks) (parse_if u fl stmt f line toks)
    unfolding parse_if peek_raw
    parse_if-Fits = Fits-continue _ _ (parse_expr u fl f toks) _ (expr-Fits u fl f toks h) λ c r q.
        Fits-continue _ _ (skip_then u fl r) _ (skip_then-Fits u fl r) λ x r1 q1.
          elim (Bool-cases (is_newline (head r1).kind || is_eof (head r1).kind)) [
            | inl b ↦ rw b (
                Fits-mono (length r1) (length toks) (block_if u fl stmt f c line r1) (omega arith)
                  (block_if-Fits u fl n stmt s f line c r1 (omega arith) (omega arith)))
            | inr b ↦ rw b (
                Fits-continue _ _ (stmt r1) _ (body_if c r1 (omega arith) b)
                  (λ o r2 q2. omega arith))
          ]

    parse_while-Fits : Fits (length toks) (parse_while u fl stmt f line toks)
    unfolding parse_while skip_newlines next
    parse_while-Fits =
        Fits-continue _ _ (parse_expr u fl f toks) _ (expr-Fits u fl f toks h) λ c r q.
          Fits-continue _ _ (parse_stmts u fl stmt ("WEND" ∷ []) f r) _
            (parse_stmts-Fits u fl n stmt _ f r s (omega arith) (omega arith))
            (λ b r1 q1. omega lengths)

    parse_proc_decl-Fits : Fits (length toks) (parse_proc_decl u fl stmt f line toks)
    unfolding parse_proc_decl skip_newlines next
    parse_proc_decl-Fits =
        Fits-continue _ _ (parse_params u f (tail (skip toks))) _
          (parse_params-Fits u f (tail (skip toks)) (omega lengths))
          λ ps r q.
            Fits-continue _ _ (parse_stmts u fl stmt ("ENDPROC" ∷ "END" ∷ []) f r) _
              (parse_stmts-Fits u fl n stmt _ f r s (omega lengths) (omega lengths))
              (λ b r1 q1. omega lengths)

    parse_func_decl-Fits : Fits (length toks) (parse_func_decl u fl stmt f line toks)
    unfolding parse_func_decl skip_newlines next
    parse_func_decl-Fits =
        Fits-continue _ _ (parse_params u f (tail (skip toks))) _
          (parse_params-Fits u f (tail (skip toks)) (omega lengths))
          λ ps r0 q0.
            Fits-continue _ _ (parse_as u type_integer r0) _ (parse_as-Fits u type_integer r0)
              λ tc r q.
                Fits-continue _ _ (parse_stmts u fl stmt ("ENDFUNC" ∷ "END" ∷ []) f r) _
                  (parse_stmts-Fits u fl n stmt _ f r s (omega lengths) (omega lengths))
                  (λ b r1 q1. omega lengths)

    -- In parse_for the two tokens behind NEXT are looked at.
    parse_for-Fits : Fits (length toks) (parse_for u fl stmt f line toks)
    unfolding parse_for skip_newlines next peek_raw
    parse_for-Fits =
        let r0 = tail (skip (tail (skip toks))) in
        Fits-continue _ _ (parse_expr u fl f r0) _ (expr-Fits u fl f r0 (omega lengths)) λ a r q.
          Fits-continue _ _ (parse_expr u fl f (tail (skip r))) _
            (expr-Fits u fl f (tail (skip r)) (omega lengths))
            λ b r1 q1.
              Fits-continue _ _ (step_part u fl f r1) _ (step_part-Fits u fl f r1 (omega lengths))
                λ c r2 q2.
                  Fits-continue _ _ (parse_stmts u fl stmt ("NEXT" ∷ []) f r2) _
                    (parse_stmts-Fits u fl n stmt _ f r2 s (omega lengths) (omega lengths))
                    λ d r3 q3.
                      let end = tail (skip (skip r3)) in
                      ground (
                        arith,
                        length-next (skip r3),
                        length-skip r3,
                        length-next end,
                        length-next toks,
                        length-next (tail (skip toks)),
                        length-next r,
                      )

    parse_keyword-Fits : (kw : Bytes) → Fits (length toks) (parse_keyword u fl stmt f kw line toks)
    unfolding parse_keyword next
    parse_keyword-Fits kw = ground (
      arith,
      parse_if-Fits,
      parse_while-Fits,
      parse_for-Fits,
      parse_proc_decl-Fits,
      parse_func_decl-Fits,
      parse_dim-Fits u fl f line toks,
      parse_var_decl-Fits u fl f line kw toks,
      parse_assign-Fits u fl f line toks,
      parse_other-Fits u fl f line kw toks,
      length-next toks,
    )

  not_eof_nil : (toks : List Token) → is_eof (head (skip toks)).kind ≡ false → 0 < length toks
  unfolding skip
  not_eof_nil [] h = cc
  not_eof_nil (t ∷ ts) h = omega arith

  -- A statement passes its first token, and what it parses behind that ends.
  stmt_at-Fits :
      (n f : ℕ) (t : Token) (colon : Bool) (toks : List Token)
      → StmtEnds u fl n (parse_stmt u fl f)
      → length toks ≤ suc n
      → n < f
      → is_eof t.kind ≡ false
      → Fits (length toks - 1) (stmt_at u fl (parse_stmt u fl f) f t colon toks)
  unfolding stmt_at next
  stmt_at-Fits n f t colon toks s le h e =
      let r = tail (skip toks) in
      ground (
        arith,
        length-next toks,
        length-next r,
        parse_keyword-Fits n (parse_stmt u fl f) s f t.line r (omega lengths) (omega lengths)
            (to_upper t.text),
        Fits-mono (length r) (length toks - 1)
            (parse_keyword u fl (parse_stmt u fl f) f (to_upper t.text) t.line r),
      )

  parse_stmt-StmtEnds : (n f : ℕ) → n ≤ f → StmtEnds u fl n (parse_stmt u fl (suc f))
  unfolding parse_stmt skip_newlines peek
  parse_stmt-StmtEnds zero f p toks le e = absurd (omega (arith, not_eof_nil toks e))
  parse_stmt-StmtEnds (suc n) zero p toks le e = elim p [ ]
  parse_stmt-StmtEnds (suc n) (suc f) p toks le e =
      let here = skip (skip toks) in
      Fits-mono (length here - 1) (length toks - 1) _ (omega lengths) (
        stmt_at-Fits n (suc f) (head here) _ here (parse_stmt-StmtEnds n f (omega arith))
          (omega lengths) (omega arith) (ap (λ x. is_eof (head x).kind) (skip_idem toks) ∙ e))

  -- `Parse` returns on every list of tokens: its outcome is a program or the error of a LET.
  pub parse-ne-out_of_fuel : (toks : List Token) → parse u fl toks ≢ out_of_fuel
  unfolding parse parse_program
  parse-ne-out_of_fuel toks e = subst (Fits (length toks)) e (
      parse_stmts-Fits u fl (length toks) (parse_stmt u fl (suc (length toks))) []
        (suc (length toks)) toks (parse_stmt-StmtEnds (length toks) (length toks) (omega arith))
        (omega arith) (omega arith))
