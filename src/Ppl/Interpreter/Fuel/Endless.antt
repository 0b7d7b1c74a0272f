-- ===== src/Ppl/Interpreter/Fuel/Endless.antt =====
-- internal/ppl/interpreter.go: a loop of `ForStmt` that no depth of calls brings to an end.
use virt_bbs.Prelude.{
  ◌≡◌, refl, sym, subst, ◌∙◌, leb, Bool-cases, ℕ, zero, suc, ◌≤◌, ◌⊎◌, inl, inr, Bytes, arith,
}
use virt_bbs.Prelude.Int.{ℤ, pos, ◌+ℤ◌, wrap64, IsInt64, int64_max, wrap64-IsInt64}
use virt_bbs.Ppl.Host.{Unicode, FloatOps}
use virt_bbs.Ppl.Ast.{Nodes}
use virt_bbs.Ppl.Types.{int_val}
use virt_bbs.Ppl.Interpreter.{
  Host, Info, Signal, sig_none, done, failed, panic, out_of_fuel, Store, put,
}
use virt_bbs.Ppl.Interpreter.Exec.{machine}
use virt_bbs.Ppl.Interpreter.Loops.{past-false, for_step-goes_on, for_step-out_of_fuel}
use virt_bbs.Ppl.Interpreter.Fuel.{Out, Below, Below-refl, Below-trans}
use virt_bbs.Ppl.Interpreter.Fuel.Depth.{machine-Deeper}

module _ (u : Unicode) (fl : FloatOps) (W : Type 0) (host : Host fl.Float W) (info : Info)
    (prog : Nodes fl.Float) where
  same_depth :
      (n m : ℕ) (whole rest : Nodes fl.Float) (st : Store u fl W)
      → n ≡ m
      → Below u fl W
          ((machine u fl W host info prog n).stmts whole rest st)
          ((machine u fl W host info prog m).stmts whole rest st)
  same_depth n m whole rest st e =
      let o = (machine u fl W host info prog n).stmts whole rest st in
      subst (λ k. Below u fl W o ((machine u fl W host info prog k).stmts whole rest st)) e
        (Below-refl u fl W o)

  stmts-Below :
      (n m : ℕ) (whole rest : Nodes fl.Float) (st : Store u fl W)
      → n ≤ m
      → Below u fl W
          ((machine u fl W host info prog n).stmts whole rest st)
          ((machine u fl W host info prog m).stmts whole rest st)
  stmts-Below n zero whole rest st h = same_depth n zero whole rest st (omega (arith, h))
  stmts-Below n (suc m) whole rest st h = elim (Bool-cases (leb n m)) [
    | inl e ↦
        Below-trans u fl W ((machine u fl W host info prog n).stmts whole rest st)
          ((machine u fl W host info prog m).stmts whole rest st)
          ((machine u fl W host info prog (suc m)).stmts whole rest st)
          (stmts-Below n m whole rest st (ground (arith, e)))
          ((machine-Deeper u fl W host info prog m).runs whole rest st)
    | inr e ↦ same_depth n (suc m) whole rest st (ground (arith, e, h))
  ]

  same_or_none : {A : Type 0} (o p : Out u fl W A) → Below u fl W o p → (o ≡ out_of_fuel) ⊎ (o ≡ p)
  same_or_none (done a st) p h = inr h
  same_or_none (failed e v st) p h = inr h
  same_or_none panic p h = inr h
  same_or_none out_of_fuel p h = inl refl

  -- A block that ends at some depth ends in the same way at every depth, or has too little fuel.
  stmts_cases :
      (n d : ℕ) (body : Nodes fl.Float) (sig : Signal) (st st1 : Store u fl W)
      → (machine u fl W host info prog d).stmts body body st ≡ done sig st1
      → ((machine u fl W host info prog n).stmts body body st ≡ out_of_fuel)
        ⊎ ((machine u fl W host info prog n).stmts body body st ≡ done sig st1)
  stmts_cases n d body sig st st1 ends =
      let o = (machine u fl W host info prog n).stmts body body st in
      let p = (machine u fl W host info prog d).stmts body body st in
      elim (Bool-cases (leb n d)) [
        | inl e ↦ elim (same_or_none o p (stmts-Below n d body body st (ground (arith, e)))) [
          | inl k ↦ inl k
          | inr k ↦ inr (k ∙ ends)
        ]
        | inr e ↦ inr (
            sym (
              subst (λ x. Below u fl W x o) ends
                (stmts-Below d n body body st (ground (arith, e)))))
      ]

  -- A FOR from a 64-bit integer to the largest one by 1, whose body ends normally on every state, at
  -- some depth, never ends: no depth gives a result.
  pub for_loop-int64_max :
      (n : ℕ) (name : Bytes) (i : ℤ) (body : Nodes fl.Float) (st : Store u fl W)
      → ((st1 : Store u fl W)
          → (d : ℕ) × (st2 : Store u fl W) × ((machine u fl W host info prog d).stmts body body st1
              ≡ done sig_none st2))
      → IsInt64 i
      → (machine u fl W host info prog n).for_loop name i int64_max (pos 1) body st ≡ out_of_fuel
  unfolding machine
  for_loop-int64_max zero name i body st ends ok = refl
  for_loop-int64_max (suc n) name i body st ends ok =
      let st0 = record st { vars = put (u.to_upper name) (int_val u fl i) st.vars } in
      let (d, st2, e) = ends st0 in
      let more = past-false i int64_max (omega (arith, ok)) in
      elim (stmts_cases n d body sig_none st0 st2 e) [
        | inl k ↦
            for_step-out_of_fuel u fl W host info prog (machine u fl W host info prog n) name i
              int64_max body st more k
        | inr k ↦
            for_step-goes_on u fl W host info prog (machine u fl W host info prog n) name i
              int64_max body st st2 more k
            ∙ for_loop-int64_max n name (wrap64 (i +ℤ pos 1)) body st2 ends
                (wrap64-IsInt64 (i +ℤ pos 1))
      ]
