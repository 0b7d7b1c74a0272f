-- ===== src/Ppl/Interpreter/Loops.antt =====
-- internal/ppl/interpreter.go: the rounds of `ForStmt`.
use virt_bbs.Prelude.{
  ◌≡◌, ◌∙◌, ap, ℕ, zero, suc, ◌+◌, ◌≤◌, ◌<◌, ◌^◌, ◌-◌, true, false, Bytes, arith,
}
use virt_bbs.Prelude.Int.{
  ℤ, pos, negsuc, pos_part, neg_part, ◌+ℤ◌, wrap64, wrap64_id, IsInt64, ◌≤ℤ◌, +ℤ_parts,
}
use virt_bbs.Ppl.Host.{Unicode, FloatOps}
use virt_bbs.Ppl.Ast.{Nodes}
use virt_bbs.Ppl.Types.{int_val}
use virt_bbs.Ppl.Interpreter.{Host, Info, sig_none, done, out_of_fuel, Store, put, set_var}
use virt_bbs.Ppl.Interpreter.Eval.{Machine}
use virt_bbs.Ppl.Interpreter.Exec.{machine, for_step, next_round, past}

successor : (i : ℤ) → IsInt64 i → (pos_part i < 2 ^ 63 - 1) → wrap64 (i +ℤ pos 1) ≡ i +ℤ pos 1
unfolding ◌+ℤ◌
successor (pos n) h k = wrap64_id (pos n +ℤ pos 1) (ground arith)
successor (negsuc n) h k = wrap64_id (negsuc n +ℤ pos 1) (ground arith)

successor_parts :
    (i : ℤ) → pos_part (i +ℤ pos 1) + neg_part i ≡ suc (neg_part (i +ℤ pos 1) + pos_part i)
successor_parts i = omega (arith, +ℤ_parts i (pos 1))

pub past-false : (i stop : ℤ) → i ≤ℤ stop → past i stop (pos 1) ≡ false
past-false i stop h = ground arith

past-true :
    (i stop : ℤ)
    → suc (pos_part stop + neg_part i) ≤ pos_part i + neg_part stop
    → past i stop (pos 1) ≡ true
past-true i stop h = ground arith

pos_part-bound : (i stop : ℤ) → i ≤ℤ stop → pos_part stop < 2 ^ 63 - 1 → pos_part i < 2 ^ 63 - 1
pos_part-bound (pos a) (pos b) h k = omega arith
pos_part-bound (pos a) (negsuc b) h k = omega arith
pos_part-bound (negsuc a) stop h k = omega arith

successor-IsInt64 : (i : ℤ) → IsInt64 i → pos_part i < 2 ^ 63 - 1 → IsInt64 (i +ℤ pos 1)
unfolding ◌+ℤ◌
successor-IsInt64 (pos n) h k = ground arith
successor-IsInt64 (negsuc n) h k = ground arith

-- `k` levels above depth `d`
abbrev pub deeper : ℕ → ℕ → ℕ
deeper zero d = d
deeper (suc k) d = suc (deeper k d)

module _ (u : Unicode) (fl : FloatOps) (W : Type 0) where
  -- The loop's variable is set, and the body's effect `g` follows, at `i`, `i + 1`, …: `n` rounds.
  abbrev pub rounds : (Store u fl W → Store u fl W) → Bytes → ℕ → ℤ → Store u fl W → Store u fl W
  rounds g name zero i st = st
  rounds g name (suc n) i st =
      rounds g name n (i +ℤ pos 1)
        (g (record st { vars = put (u.to_upper name) (int_val u fl i) st.vars }))

module _ (u : Unicode) (fl : FloatOps) (W : Type 0) (host : Host fl.Float W) (info : Info)
    (prog : Nodes fl.Float) where
  for_step-ends :
      (m : Machine u fl W) (name : Bytes) (i stop : ℤ) (body : Nodes fl.Float) (st : Store u fl W)
      → past i stop (pos 1) ≡ true
      → for_step u fl W m name i stop (pos 1) body st ≡ done sig_none st
  unfolding for_step
  for_step-ends m name i stop body st h = ground (arith, h)

  pub for_step-goes_on :
      (m : Machine u fl W) (name : Bytes) (i stop : ℤ) (body : Nodes fl.Float)
      (st st1 : Store u fl W)
      → past i stop (pos 1) ≡ false
      → m.stmts body body (record st { vars = put (u.to_upper name) (int_val u fl i) st.vars })
        ≡ done sig_none st1
      → for_step u fl W m name i stop (pos 1) body st
        ≡ m.for_loop name (wrap64 (i +ℤ pos 1)) stop (pos 1) body st1
  unfolding for_step next_round set_var
  for_step-goes_on m name i stop body st st1 h runs = ground (arith, h, runs)

  pub for_step-out_of_fuel :
      (m : Machine u fl W) (name : Bytes) (i stop : ℤ) (body : Nodes fl.Float) (st : Store u fl W)
      → past i stop (pos 1) ≡ false
      → m.stmts body body (record st { vars = put (u.to_upper name) (int_val u fl i) st.vars })
        ≡ out_of_fuel
      → for_step u fl W m name i stop (pos 1) body st ≡ out_of_fuel
  unfolding for_step next_round set_var
  for_step-out_of_fuel m name i stop body st h runs = ground (arith, h, runs)

  -- A FOR from a 64-bit integer `i` to `i + j`, below the largest integer, by 1, whose body ends
  -- normally with effect `g` at depth `d` and above, ends after `j + 1` rounds, at a depth of
  -- `j + 2` above `d`.
  pub for_loop-rounds :
      (d j : ℕ) (g : Store u fl W → Store u fl W) (name : Bytes) (i stop : ℤ)
      (body : Nodes fl.Float) (st : Store u fl W)
      → ((k : ℕ) (st1 : Store u fl W)
          → (machine u fl W host info prog (deeper k d)).stmts body body st1
            ≡ done sig_none (g st1))
      → IsInt64 i
      → pos_part stop + neg_part i ≡ j + pos_part i + neg_part stop
      → pos_part stop < 2 ^ 63 - 1
      → (machine u fl W host info prog (suc (deeper (suc j) d))).for_loop name i stop
          (pos 1)
          body
          st
        ≡ done sig_none (rounds u fl W g name (suc j) i st)
  unfolding machine
  for_loop-rounds d zero g name i stop body st ends ok dist small =
      let low = pos_part-bound i stop (omega (arith, dist)) small in
      for_step-goes_on (machine u fl W host info prog (suc d)) name i stop body st _
        (past-false i stop (omega (arith, dist))) (ends 1 _)
      ∙ for_step-ends (machine u fl W host info prog d) name (wrap64 (i +ℤ pos 1)) stop body _ (
          ap (λ x. past x stop (pos 1)) (successor i ok low)
          ∙ past-true (i +ℤ pos 1) stop (omega (arith, dist, successor_parts i)))
  for_loop-rounds d (suc j) g name i stop body st ends ok dist small =
      let st1 = g (record st { vars = put (u.to_upper name) (int_val u fl i) st.vars }) in
      let low = pos_part-bound i stop (omega (arith, dist)) small in
      for_step-goes_on (machine u fl W host info prog (suc (deeper (suc j) d))) name i stop body st
        _ (past-false i stop (omega (arith, dist))) (ends (suc (suc j)) _)
      ∙ ap
          (λ x.
            (machine u fl W host info prog (suc (deeper (suc j) d))).for_loop name x stop (pos 1)
              body st1)
          (successor i ok low)
      ∙ for_loop-rounds d j g name (i +ℤ pos 1) stop body _ ends (successor-IsInt64 i ok low)
          (omega (arith, dist, successor_parts i)) small
