-- ===== src/Indicators/Moments.antt =====
-- algorithm/algorithm.h: the shape of the distribution of the returns, and its worst part. std::sort
-- is a parameter.
use btrader.Prelude.{
  ℕ, Bool, ◌||◌, Option, some, List, [], ◌∷◌, ◌==◌, leb, if◌then◌else◌, length, get_elem?, take,
}
use btrader.Prelude.Int.{pos_part}
use btrader.Double.{Double}
use btrader.Indicators.{Analysis, number, sum_returns, sum_squares, mean_of}

module _ {ℓ} {D : Type ℓ} ⦃d : Double D⦄ where
  open d use {zero, add, sub, mul, div, lt, le, eq, trunc, literal}

  unfoldable pub sum_cubes : D → D → List D → D
  sum_cubes mean total [] = total
  sum_cubes mean total (r ∷ rs) =
      let diff = sub r mean in sum_cubes mean (add total (mul (mul diff diff) diff)) rs

  unfoldable pub sum_fourths : D → D → List D → D
  sum_fourths mean total [] = total
  sum_fourths mean total (r ∷ rs) =
      let diff = sub r mean in sum_fourths mean (add total (mul (mul (mul diff diff) diff) diff)) rs

  unfoldable pub kurtosis : List D → D
  kurtosis rs =
      let m4 = div (sum_fourths (mean_of rs) zero rs) (number (length rs)) in
      let m2 = div (sum_squares (mean_of rs) zero rs) (number (length rs)) in
      if leb (length rs) 3
      then zero
      else if eq m2 zero
      then zero
      else sub (div m4 (mul m2 m2)) (number 3)

  abbrev pub is_invalid : List D → D → Bool
  is_invalid rs confidence = (length rs == 0) || (le confidence zero || le (literal 1 0) confidence)

  -- static_cast<int>((1 - confidence_level) * n), or 0 where it is negative
  unfoldable pub tail_index : List D → D → ℕ
  tail_index rs confidence = pos_part (trunc (mul (sub (number 1) confidence) (number (length rs))))

  -- none where the index is out of bounds
  unfoldable pub value_at_risk : (List D → List D) → List D → D → Option D
  value_at_risk sort rs confidence =
      if is_invalid rs confidence then some zero else get_elem? (sort rs) (tail_index rs confidence)

  unfoldable pub expected_shortfall : (List D → List D) → List D → D → D
  expected_shortfall sort rs confidence =
      let index = tail_index rs confidence in
      if is_invalid rs confidence
      then zero
      else div (sum_returns zero (take index (sort rs))) (number index)

module _ {ℓ} {D : Type ℓ} ⦃d : Double D⦄ ⦃an : Analysis D⦄ where
  open d use {zero, div, eq, literal}
  open an use {pow}

  unfoldable pub skewness : List D → D
  skewness rs =
      let m3 = div (sum_cubes (mean_of rs) zero rs) (number (length rs)) in
      let m2 = div (sum_squares (mean_of rs) zero rs) (number (length rs)) in
      if leb (length rs) 2
      then zero
      else if eq m2 zero
      then zero
      else div m3 (pow m2 (literal 15 1))
