-- ===== src/Common/Below.antt =====
-- A test of every number below a bound, by running it.
use Prim.Native.Nat.{ℕ, zero, suc, ◌<◌}
use mathlib.Core.Path.{◌≡◌}
use mathlib.Core.Logic.{inl, inr}
use mathlib.Core.Bool.{Bool, true, ◌&&◌}
use native.Mathlib.Omega.{arith}
use plank.Common.{◌==◌, Bool-cases}

-- The test holds below the bound.
unfoldable pub all_below : (ℕ → Bool) → ℕ → Bool
all_below test zero = true
all_below test (suc n) = let rest = all_below test n in test n && rest

pub all_below_lem : (test : ℕ → Bool) (n k : ℕ) → all_below test n ≡ true → k < n → test k ≡ true
unfolding all_below
all_below_lem test zero k e below = absurd (omega arith)
all_below_lem test (suc n) k e below = elim (Bool-cases (k == n)) [
  | inl last ↦ let same : k ≡ n = ground (arith, last) in rw same (ground (arith, e))
  | inr other ↦ all_below_lem test n k (ground (arith, e)) (ground (arith, other, below))
]
