-- ===== src/Transfer/Files/Cases.antt =====
-- A claim about what a branch of `ReceiveFile` returns, by the branches.
use virt_bbs.Prelude.{◌≡◌, refl, Bool, true, false, if◌then◌else◌}
use virt_bbs.Transfer.Reader.{Error, Result, ok, err}
use virt_bbs.Transfer.Files.Receive.{Outcome}

module _ (Q : Outcome → Type 0) where
  pub by_result :
      {A : Type 0} (r : Result A) (on_err : Error → Outcome) (on_ok : A → Outcome)
      → ((e : Error) → r ≡ err e → Q (on_err e))
      → ((a : A) → r ≡ ok a → Q (on_ok a))
      → Q (elim r [ err e ↦ on_err e | ok a ↦ on_ok a ])
  by_result (ok a) on_err on_ok h k = k a refl
  by_result (err e) on_err on_ok h k = h e refl

  pub by_test :
      (test : Bool) (on_true on_false : Outcome)
      → (test ≡ true → Q on_true)
      → (test ≡ false → Q on_false)
      → Q (elim test [ true ↦ on_true | false ↦ on_false ])
  by_test true on_true on_false h k = h refl
  by_test false on_true on_false h k = k refl

  pub by_if :
      (test : Bool) (on_true on_false : Outcome)
      → Q on_true
      → Q on_false
      → Q (if test then on_true else on_false)
  by_if true on_true on_false h k = h
  by_if false on_true on_false h k = k
