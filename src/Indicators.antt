-- ===== src/Indicators.antt =====
-- algorithm/algorithm.h: the indicators on a series of returns. The array and its length n are one
-- list. The square root, the power and the infinity of the machine's doubles are parameters.
pub mod Ratios
pub mod Capture
pub mod Moments
pub mod Equivalences
pub mod Drawdown
pub mod Copies
use btrader.Prelude.{ℕ, ◌+◌, ◌-◌, Bool, true, false, List, [], ◌∷◌, leb, if◌then◌else◌, length}
use btrader.Prelude.Int.{pos}
use btrader.Double.{Double}

-- std::sqrt, std::pow and infinity()
pub record Analysis {ℓ} (D : Type ℓ) : Type ℓ where
  pub sqrt : D → D
  pub pow : D → D → D
  pub infinity : D

module _ {ℓ} {D : Type ℓ} ⦃d : Double D⦄ where
  open d use {zero, add, sub, mul, div, lt, of_int}

  -- An int in an expression with doubles.
  abbrev pub number : ℕ → D
  number n = of_int (pos n)

  -- The loops that add up the returns, the squares of their deviations, the squares below a target,
  -- and that count those below.
  unfoldable pub sum_returns : D → List D → D
  sum_returns total [] = total
  sum_returns total (r ∷ rs) = sum_returns (add total r) rs

  unfoldable pub sum_squares : D → D → List D → D
  sum_squares mean total [] = total
  sum_squares mean total (r ∷ rs) = sum_squares mean (add total (mul (sub r mean) (sub r mean))) rs

  unfoldable pub sum_below : D → D → List D → D
  sum_below target total [] = total
  sum_below target total (r ∷ rs) =
      sum_below target
        (if lt r target then add total (mul (sub r target) (sub r target)) else total) rs

  unfoldable pub count_below : D → ℕ → List D → ℕ
  count_below target n [] = n
  count_below target n (r ∷ rs) = count_below target (if lt r target then n + 1 else n) rs

  abbrev pub mean_of : List D → D
  mean_of rs = div (sum_returns zero rs) (number (length rs))
