-- ===== src/Indicators/Ratios.antt =====
-- algorithm/algorithm.h: volatility, and the ratios of a return to a risk.
use btrader.Prelude.{◌-◌, List, [], ◌∷◌, ◌==◌, leb, if◌then◌else◌, length}
use btrader.Prelude.Int.{ℤ, pos, ltb_ℤ}
use btrader.Double.{Double}
use btrader.Indicators.{Analysis, number, sum_squares, sum_below, count_below, mean_of}

module _ {ℓ} {D : Type ℓ} ⦃d : Double D⦄ where
  open d use {zero, add, sub, mul, div, lt, eq, of_int}

  unfoldable pub multiply_returns : D → List D → D
  multiply_returns total [] = total
  multiply_returns total (r ∷ rs) = multiply_returns (mul total (add (number 1) r)) rs

  unfoldable pub potifolio_return : List D → D
  potifolio_return rs =
      if length rs == 0 then zero else sub (multiply_returns (number 1) rs) (number 1)

  unfoldable pub calmar_ratio : D → D → D
  calmar_ratio cumulative max_drawdown =
      if eq max_drawdown zero then zero else div cumulative max_drawdown

  -- The loop of max_drawdown, from the peak, the trough and the largest drawdown.
  unfoldable pub drawdown_from : D → D → D → List D → D
  drawdown_from peak trough max_dd [] = max_dd
  drawdown_from peak trough max_dd (r ∷ rs) =
      let dd = div (sub peak r) peak in
      let at_peak = drawdown_from r r max_dd rs in
      let at_trough = drawdown_from peak r (if lt max_dd dd then dd else max_dd) rs in
      let between = drawdown_from peak trough max_dd rs in
      if lt peak r then at_peak else if lt r trough then at_trough else between

  unfoldable pub max_drawdown : List D → D
  max_drawdown [] = zero
  max_drawdown (r ∷ rs) = drawdown_from r r zero rs

  -- The loop of beta, which adds up the covariance and the variance.
  unfoldable pub sum_benchmark : D → D → List D → D
  sum_benchmark benchmark total [] = total
  sum_benchmark benchmark total (r ∷ rs) = sum_benchmark benchmark (add total benchmark) rs

  unfoldable pub sum_covariance : D → D → D → List D → D
  sum_covariance mean deviation total [] = total
  sum_covariance mean deviation total (r ∷ rs) =
      sum_covariance mean deviation (add total (mul (sub r mean) deviation)) rs

  unfoldable pub sum_variance : D → D → List D → D
  sum_variance deviation total [] = total
  sum_variance deviation total (r ∷ rs) =
      sum_variance deviation (add total (mul deviation deviation)) rs

  unfoldable pub beta : List D → D → D
  beta rs benchmark =
      let mean_benchmark = div (sum_benchmark benchmark zero rs) (number (length rs)) in
      let deviation = sub benchmark mean_benchmark in
      let covariance = sum_covariance (mean_of rs) deviation zero rs in
      let variance = sum_variance deviation zero rs in
      if leb (length rs) 1 then zero else if eq variance zero then zero else div covariance variance

  unfoldable pub alpha : List D → D → D → D
  alpha rs benchmark risk_free =
      if leb (length rs) 1
      then zero
      else sub (mean_of rs) (add risk_free (mul (beta rs benchmark) (sub benchmark risk_free)))

  unfoldable pub treynor_ratio : List D → D → D → D
  treynor_ratio rs benchmark risk_free =
      if leb (length rs) 1
      then zero
      else if eq (beta rs benchmark) zero
      then zero
      else div (sub (mean_of rs) risk_free) (beta rs benchmark)

module _ {ℓ} {D : Type ℓ} ⦃d : Double D⦄ ⦃an : Analysis D⦄ where
  open d use {zero, add, sub, mul, div, lt, eq, of_int}
  open an use {sqrt, pow, infinity}

  unfoldable pub annualized_return : D → ℤ → D
  annualized_return cumulative years =
      if ltb_ℤ (pos 0) years
      then sub (pow (add (number 1) cumulative) (div (number 1) (of_int years))) (number 1)
      else zero

  unfoldable pub volatility : List D → D
  volatility rs =
      let variance = div (sum_squares (mean_of rs) zero rs) (number (length rs - 1)) in
      if leb (length rs) 1 then zero else sqrt variance

  unfoldable pub sharpe_ratio : List D → D → D
  sharpe_ratio rs risk_free =
      if leb (length rs) 1
      then zero
      else if eq (volatility rs) zero
      then zero
      else div (sub (mean_of rs) risk_free) (volatility rs)

  unfoldable pub sortino_ratio : List D → D → D
  sortino_ratio rs target =
      let count = count_below target 0 rs in
      let deviation = sqrt (div (sum_below target zero rs) (number count)) in
      if leb (length rs) 1
      then zero
      else if count == 0
      then zero
      else if eq deviation zero
      then zero
      else div (sub (mean_of rs) target) deviation

  unfoldable pub downside_risk : List D → D → D
  downside_risk rs target =
      let count = count_below target 0 rs in
      if length rs == 0
      then zero
      else if count == 0
      then zero
      else sqrt (div (sum_below target zero rs) (number count))

  -- The loop of information_ratio over the active returns, and the one over their deviations.
  unfoldable pub sum_active : D → D → List D → D
  sum_active benchmark total [] = total
  sum_active benchmark total (r ∷ rs) = sum_active benchmark (add total (sub r benchmark)) rs

  unfoldable pub sum_tracking : D → D → D → List D → D
  sum_tracking benchmark active total [] = total
  sum_tracking benchmark active total (r ∷ rs) =
      let off = sub (sub r benchmark) active in
      sum_tracking benchmark active (add total (mul off off)) rs

  unfoldable pub information_ratio : List D → D → D
  information_ratio rs benchmark =
      let active = div (sum_active benchmark zero rs) (number (length rs)) in
      let tracking_error =
        sqrt (div (sum_tracking benchmark active zero rs) (number (length rs - 1))) in
      if leb (length rs) 1
      then zero
      else if eq tracking_error zero
      then zero
      else div active tracking_error
