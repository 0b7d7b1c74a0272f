-- ===== src/Ppl/Interpreter/Fuel.antt =====
-- internal/ppl/interpreter.go: the depth of calls that a run is given bounds it, and changes nothing
-- else. Here is the order of outcomes; `Evaluation` has the expressions, `Execution` the statements,
-- `Depth` the run, and `Endless` a loop that has no end at any depth.
pub mod Evaluation
pub mod Execution
pub mod Depth
pub mod Endless
use virt_bbs.Prelude.{◌≡◌, refl, sym, subst, Bool, true, false, if◌then◌else◌}
use virt_bbs.Ppl.Host.{Unicode, FloatOps}
use virt_bbs.Ppl.Types.{V}
use virt_bbs.Ppl.Interpreter.{Outcome, done, failed, panic, out_of_fuel, Store, M, continue}
use virt_bbs.Ppl.Interpreter.Eval.{settle}

module _ (u : Unicode) (fl : FloatOps) (W : Type 0) where
  abbrev pub Out : Type 0 → Type 0
  Out A = Outcome (V u fl) (Store u fl W) A

  -- The second outcome is the first, unless the first has run out of fuel.
  abbrev pub Below : {A : Type 0} → Out A → Out A → Type 0
  Below (done a st) o = done a st ≡ o
  Below (failed e v st) o = failed e v st ≡ o
  Below panic o = panic ≡ o
  Below out_of_fuel o = Unit

  pub Below-refl : {A : Type 0} (o : Out A) → Below o o
  Below-refl (done a st) = refl
  Below-refl (failed e v st) = refl
  Below-refl panic = refl
  Below-refl out_of_fuel = tt

  pub Below-trans : {A : Type 0} (o p q : Out A) → Below o p → Below p q → Below o q
  Below-trans (done a st) p q h k = subst (λ x. Below x q) (sym h) k
  Below-trans (failed e v st) p q h k = subst (λ x. Below x q) (sym h) k
  Below-trans panic p q h k = subst (λ x. Below x q) (sym h) k
  Below-trans out_of_fuel p q h k = tt

  pub continue-Below :
      {A B : Type 0} (o p : Out A) (f g : A → M u fl W B)
      → Below o p
      → ((a : A) (st : Store u fl W) → Below (f a st) (g a st))
      → Below (continue u fl W o f) (continue u fl W p g)
  continue-Below (done a st) p f g h k =
      subst (λ x. Below (f a st) (continue u fl W x g)) h (k a st)
  continue-Below (failed e v st) p f g h k =
      subst (λ x. Below (continue u fl W (failed e v st) f) (continue u fl W x g)) h refl
  continue-Below panic p f g h k =
      subst (λ x. Below (continue u fl W panic f) (continue u fl W x g)) h refl
  continue-Below out_of_fuel p f g h k = tt

  pub settle-Below :
      {B : Type 0} (o p : Out (V u fl)) (f g : V u fl → M u fl W B)
      → Below o p
      → ((a : V u fl) (st : Store u fl W) → Below (f a st) (g a st))
      → Below (settle u fl W o f) (settle u fl W p g)
  settle-Below (done a st) p f g h k = subst (λ x. Below (f a st) (settle u fl W x g)) h (k a st)
  settle-Below (failed e v st) p f g h k =
      subst (λ x. Below (f v st) (settle u fl W x g)) h (k v st)
  settle-Below panic p f g h k =
      subst (λ x. Below (settle u fl W panic f) (settle u fl W x g)) h refl
  settle-Below out_of_fuel p f g h k = tt

  -- A test whose first branch is the same on both sides.
  pub else-Below :
      {A : Type 0} (b : Bool) (o p p1 : Out A)
      → Below p p1
      → Below (if b then o else p) (if b then o else p1)
  else-Below true o p p1 h = Below-refl o
  else-Below false o p p1 h = h

  pub elim-Below :
      {A : Type 0} (b : Bool) (o p o1 p1 : Out A)
      → Below o p
      → Below o1 p1
      → Below (elim b [ true ↦ o | false ↦ o1 ]) (elim b [ true ↦ p | false ↦ p1 ])
  elim-Below true o p o1 p1 h k = h
  elim-Below false o p o1 p1 h k = k
