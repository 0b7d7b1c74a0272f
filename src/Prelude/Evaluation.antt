-- ===== src/Prelude/Evaluation.antt =====
-- Bytes as numbers below 256, and claims about them by evaluation.
use Prim.Native.Nat.{ℕ, zero, suc, ◌<◌}
use mathlib.Core.Path.{◌≡◌}
use mathlib.Core.Bool.{Bool, true, ◌&&◌}
use native.Mathlib.Omega.{arith}

abbrev pub IsByte : ℕ → Type 0
IsByte b = b < 256

-- A test for every number below `n`.
unfoldable pub tested : (ℕ → Bool) → ℕ → Bool
tested test zero = true
tested test (suc n) = test n && tested test n

pub tested_at : (test : ℕ → Bool) (n b : ℕ) → tested test n ≡ true → b < n → test b ≡ true
unfolding tested
tested_at test zero b h lt = elim lt [ ]
tested_at test (suc n) b h lt = ground (arith, tested_at test n b)
