-- ===== src/Ppl/Parser/Total/Exprs.antt =====
-- The expressions end: with more fuel than tokens `parseExpr` does not run out.
use virt_bbs.Prelude.{
  ℕ, zero, suc, ◌≤◌, ◌<◌, ◌≡◌, refl, Bool, true, Option, none, some, List, [], ◌∷◌, arith, Bytes,
  leb, if◌then◌else◌, length, Bool-cases, inl, inr,
}
use virt_bbs.Ppl.Host.{Unicode, FloatOps}
use virt_bbs.Ppl.Lexer.{Token, TokenKind, tok_ident, tok_lparen}
use virt_bbs.Ppl.Ast.{BinOp, Expr, bin_expr, call_expr}
use virt_bbs.Ppl.Parser.{P, ◌>>=◌, pure, next, no_token, peek_raw, tail, skip, is_newline}
use virt_bbs.Ppl.Parser.Expr.{
  list_loop, parse_expr_list, parse_arg_list, parse_name, primary_of, parse_primary, parse_unary,
  binary_loop, parse_binary, parse_expr, tok_op, precedence, ends_list, ends_args,
}
use virt_bbs.Ppl.Parser.Total.{Fits, Fits-mono, Fits-continue, length-tail, length-skip}

module _ (u : Unicode) (fl : FloatOps) where
  open u use {to_upper}
  open fl use {Float}

  list_loop-Fits :
      (ends : Token → Bool) (e : P (Expr Float)) (n f : ℕ)
      → ((toks : List Token) → length toks ≤ n → Fits (length toks) (e toks))
      → ends no_token ≡ true
      → (toks : List Token) → length toks < f
      → length toks ≤ n
      → Fits (length toks) (list_loop u fl ends e f toks)
  unfolding list_loop peek_raw next
  list_loop-Fits ends e n zero s stop toks h le = elim h [ ]
  list_loop-Fits ends e n (suc f) s stop [] h le = ground arith
  list_loop-Fits ends e n (suc f) s stop (t ∷ ts) h le = elim (Bool-cases (ends t)) [
    | inl b ↦ rw b (omega arith)
    | inr b ↦ rw b (
        Fits-continue _ _ (e (t ∷ ts)) _ (s (t ∷ ts) le) λ x rest q. ground (
          arith,
          list_loop-Fits ends e n f s stop (tail (skip rest)),
          length-tail (skip rest),
          length-skip rest,
        ))
  ]

  -- `e` ends on every list of at most `n` tokens.
  abbrev pub EndsOn : {A : Type 0} → ℕ → P A → Type 0
  EndsOn n e = (toks : List Token) → length toks ≤ n → Fits (length toks) (e toks)

  pub parse_expr_list-Fits :
      (e : P (Expr Float)) (n f : ℕ)
      → EndsOn n e
      → (toks : List Token) → length toks < f
      → length toks ≤ n
      → Fits (length toks) (parse_expr_list u fl e f toks)
  unfolding parse_expr_list
  parse_expr_list-Fits e n f s = list_loop-Fits ends_list e n f s refl

  pub parse_arg_list-Fits :
      (e : P (Expr Float)) (n f : ℕ)
      → EndsOn n e
      → (toks : List Token) → length toks < f
      → length toks ≤ n
      → Fits (length toks) (parse_arg_list u fl e f toks)
  unfolding parse_arg_list is_newline
  parse_arg_list-Fits e n f s = list_loop-Fits ends_args e n f s refl

  parse_name-Fits :
      (e : P (Expr Float)) (n f : ℕ) (name : Bytes)
      → EndsOn n e
      → (toks : List Token) → length toks < f
      → length toks ≤ n
      → Fits (length toks) (parse_name u fl e f name toks)
  unfolding parse_name peek_raw next
  parse_name-Fits e n f name s toks h le =
      let inside = tail (skip toks) in
      let shorter : length inside ≤ length toks =
        omega (arith, length-tail (skip toks), length-skip toks) in
      let called : (t : Bytes)
          → Fits (length toks) (
              (parse_expr_list u fl e f >>= λ args. next >>= λ _. pure (call_expr t args)) inside) =
        λ t.
          Fits-continue (length inside) (length toks) (parse_expr_list u fl e f inside) _
            (parse_expr_list-Fits e n f s inside (omega arith) (omega arith))
            (λ args rest q. omega (arith, length-tail (skip rest), length-skip rest)) in
      ground (arith, called name)

  primary_of-Fits :
      (e : P (Expr Float)) (n f : ℕ) (k : TokenKind) (text : Bytes)
      → EndsOn n e
      → (toks : List Token) → length toks ≤ f
      → length toks ≤ suc n
      → 0 < f
      → Fits (length toks) (primary_of u fl e f k text toks)
  unfolding primary_of next
  primary_of-Fits e n f tok_lparen text s toks h le z =
      Fits-continue _ _ (e (tail (skip toks))) _
        (s (tail (skip toks)) (omega (arith, length-tail (skip toks), length-skip toks)))
        λ x rest q. omega (
          arith,
          length-tail (skip rest),
          length-skip rest,
          length-tail (skip toks),
          length-skip toks,
        )
  primary_of-Fits e n f tok_ident text s toks h le z =
      Fits-mono (length (tail (skip toks))) (length toks) _
        (omega (arith, length-tail (skip toks), length-skip toks))
        (parse_name-Fits e n f (to_upper text) s (tail (skip toks))
          (omega (arith, length-tail (skip toks), length-skip toks))
          (omega (arith, length-tail (skip toks), length-skip toks)))
  primary_of-Fits e n f _ text s toks h le z =
      omega (arith, length-tail (skip toks), length-skip toks)

  parse_primary-Fits :
      (e : P (Expr Float)) (n f : ℕ)
      → EndsOn n e
      → (toks : List Token) → length toks ≤ f
      → length toks ≤ suc n
      → 0 < f
      → Fits (length toks) (parse_primary u fl e f toks)
  unfolding parse_primary peek_raw
  parse_primary-Fits e n f s toks h le z = primary_of-Fits e n f _ _ s toks h le z

  parse_unary-Fits :
      (e : P (Expr Float)) (n f : ℕ)
      → EndsOn n e
      → (toks : List Token) → length toks < f
      → length toks ≤ suc n
      → Fits (length toks) (parse_unary u fl e f toks)
  unfolding parse_unary peek_raw next
  parse_unary-Fits e n zero s toks h le = elim h [ ]
  parse_unary-Fits e n (suc f) s [] h le = ground (arith, parse_primary-Fits e n (suc f) s [])
  parse_unary-Fits e n (suc f) s (t ∷ ts) h le = ground (
    arith,
    parse_primary-Fits e n (suc f) s (t ∷ ts),
    parse_unary-Fits e n f s (tail (skip (t ∷ ts))),
    length-tail (skip (t ∷ ts)),
    length-skip (t ∷ ts),
  )

  binary_loop-Fits :
      (right : ℕ → P (Expr Float)) (n f p : ℕ) (left : Expr Float)
      → ((q : ℕ) → EndsOn n (right q))
      → (toks : List Token) → length toks < f
      → length toks ≤ suc n
      → Fits (length toks) (binary_loop u fl right f p left toks)
  unfolding binary_loop peek_raw next
  binary_loop-Fits right n zero p left s toks h le = elim h [ ]
  binary_loop-Fits right n (suc f) p left s [] h le = unfold tok_op in omega arith
  binary_loop-Fits right n (suc f) p left s (t ∷ ts) h le =
      let after = tail (skip (t ∷ ts)) in
      let shorter : length after ≤ length ts =
        omega (arith, length-tail (skip (t ∷ ts)), length-skip (t ∷ ts)) in
      let more : (op : BinOp)
          → Fits (length (t ∷ ts)) (
              (right (precedence op) >>= λ r. binary_loop u fl right f p (bin_expr op left r))
                after) =
        λ op.
          Fits-continue (length after) (length (t ∷ ts)) (right (precedence op) after) _
            (s (precedence op) after (omega arith))
            (λ r rest q.
              Fits-mono (length rest) (length (t ∷ ts))
                (binary_loop u fl right f p (bin_expr op left r) rest) (omega arith)
                (binary_loop-Fits right n f p (bin_expr op left r) s rest (omega arith)
                  (omega arith))) in
      on_op (tok_op u t) more
    where
      on_op :
          (o : Option BinOp)
          → ((op : BinOp)
              → Fits (length (t ∷ ts)) (
                  (right (precedence op) >>= λ r. binary_loop u fl right f p (bin_expr op left r))
                    (tail (skip (t ∷ ts)))))
          → Fits (length (t ∷ ts)) (
              (elim o as (λ _. P (Expr Float)) [
                | none ↦ pure left
                | some op ↦
                    if leb (precedence op) p
                    then pure left
                    else next >>= λ _. right (precedence op) >>= λ r.
                        binary_loop u fl right f p (bin_expr op left r)
              ])
                (t ∷ ts))
      on_op none more = omega arith
      on_op (some op) more = ground (arith, more op)

  -- With more fuel than tokens `parseBinary` does not run out, and it leaves no more tokens.
  pub parse_binary-Fits : (n p : ℕ) → EndsOn n (parse_binary u fl (suc n) p)
  unfolding parse_binary
  parse_binary-Fits zero p [] h = unfold peek_raw in omega arith
  parse_binary-Fits zero p (t ∷ ts) h = elim h [ ]
  parse_binary-Fits (suc n) p toks h =
      let rec = parse_binary u fl (suc n) in
      Fits-continue (length toks) (length toks) (parse_unary u fl (rec 0) (suc (suc n)) toks) _
        (parse_unary-Fits (rec 0) n (suc (suc n)) (parse_binary-Fits n 0) toks (omega arith) h)
        λ left rest q.
          Fits-mono (length rest) (length toks) (binary_loop u fl rec (suc (suc n)) p left rest) q (
            binary_loop-Fits rec n (suc (suc n)) p left (parse_binary-Fits n) rest (omega arith)
              (omega arith))

  -- With more fuel than tokens `parseExpr` does not run out, and it leaves no more tokens.
  pub parse_expr-Fits : (n : ℕ) → EndsOn n (parse_expr u fl (suc n))
  unfolding parse_expr
  parse_expr-Fits n = parse_binary-Fits n 0
