-- ===== src/Base/Ranges.antt =====
-- A test that is evaluated at every number below a bound.
use mathlib.Core.Path.{◌≡◌}
use mathlib.Core.Bool.{Bool, true, ◌&&◌}
use Prim.Native.Nat.{ℕ, zero, suc, ◌<◌}
use native.Mathlib.Omega.{arith}

unfoldable pub passes_below : ℕ → (ℕ → Bool) → Bool
passes_below zero test = true
passes_below (suc n) test = test n && passes_below n test

pub passes_below-at :
    (n : ℕ) (test : ℕ → Bool) (i : ℕ) → passes_below n test ≡ true → i < n → test i ≡ true
unfolding passes_below
passes_below-at zero test i h lt = absurd (omega arith)
passes_below-at (suc n) test i h lt = ground (arith, passes_below-at n test i)
