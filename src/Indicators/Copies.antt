-- ===== src/Indicators/Copies.antt =====
-- algorithm/algorithm.h: the functions that compute, under other names, what others compute.
use btrader.Prelude.{◌≡◌, refl, ap, List, [], ◌∷◌, ◌==◌, leb, if◌then◌else◌, length}
use btrader.Double.{Double, Signed}
use btrader.Indicators.{Analysis, number, sum_below, count_below, mean_of}
use btrader.Indicators.Ratios.{beta, volatility}
use btrader.Indicators.Capture.{
  Gains, average_or_one, up_total, up_number, down_total, down_number, ratio_of, no_gains,
  threshold_gains, omega_ratio_below, upside_gains, upside_potential_ratio, signed_gains,
}

module _ {ℓ} {D : Type ℓ} ⦃d : Double D⦄ where
  open d use {zero, add, sub, mul, div, eq}

  unfoldable pub jensens_alpha : List D → D → D → D
  jensens_alpha rs benchmark risk_free =
      if leb (length rs) 1
      then zero
      else sub (mean_of rs) (add risk_free (mul (beta rs benchmark) (sub benchmark risk_free)))

  unfoldable pub risk_adjusted_calmar_ratio : D → D → D
  risk_adjusted_calmar_ratio cumulative max_drawdown =
      if eq max_drawdown zero then zero else div cumulative max_drawdown

  unfoldable pub risk_adjusted_risk_adjusted_calmar_ratio : D → D → D
  risk_adjusted_risk_adjusted_calmar_ratio cumulative max_drawdown =
      if eq max_drawdown zero then zero else div cumulative max_drawdown

  unfoldable pub upside_capture_ratio : List D → D → D
  upside_capture_ratio rs benchmark =
      if length rs == 0
      then zero
      else average_or_one (up_total benchmark zero rs) (up_number benchmark 0 rs)

  unfoldable pub risk_adjusted_upside_capture_ratio : List D → D → D
  risk_adjusted_upside_capture_ratio rs benchmark =
      if length rs == 0
      then zero
      else average_or_one (up_total benchmark zero rs) (up_number benchmark 0 rs)

  unfoldable pub risk_adjusted_risk_adjusted_upside_capture_ratio : List D → D → D
  risk_adjusted_risk_adjusted_upside_capture_ratio rs benchmark =
      if length rs == 0
      then zero
      else average_or_one (up_total benchmark zero rs) (up_number benchmark 0 rs)

  unfoldable pub downside_capture_ratio : List D → D → D
  downside_capture_ratio rs benchmark =
      if length rs == 0
      then zero
      else average_or_one (down_total benchmark zero rs) (down_number benchmark 0 rs)

  unfoldable pub risk_adjusted_downside_capture_ratio : List D → D → D
  risk_adjusted_downside_capture_ratio rs benchmark =
      if length rs == 0
      then zero
      else average_or_one (down_total benchmark zero rs) (down_number benchmark 0 rs)

  unfoldable pub risk_adjusted_risk_adjusted_downside_capture_ratio : List D → D → D
  risk_adjusted_risk_adjusted_downside_capture_ratio rs benchmark =
      if length rs == 0
      then zero
      else average_or_one (down_total benchmark zero rs) (down_number benchmark 0 rs)

module _ {ℓ} {D : Type ℓ} ⦃d : Double D⦄ ⦃an : Analysis D⦄ where
  open d use {zero, sub, div, eq}
  open an use {sqrt}

  unfoldable pub risk_adjusted_return : List D → D → D
  risk_adjusted_return rs risk_free =
      if leb (length rs) 1
      then zero
      else if eq (volatility rs) zero
      then zero
      else div (sub (mean_of rs) risk_free) (volatility rs)

  unfoldable pub risk_return_ratio : List D → D → D
  risk_return_ratio rs risk_free =
      if leb (length rs) 1
      then zero
      else if eq (volatility rs) zero
      then zero
      else div (sub (mean_of rs) risk_free) (volatility rs)

  unfoldable pub risk_adjusted_sharpe_ratio : List D → D → D
  risk_adjusted_sharpe_ratio rs risk_free =
      if leb (length rs) 1
      then zero
      else if eq (volatility rs) zero
      then zero
      else div (sub (mean_of rs) risk_free) (volatility rs)

  unfoldable pub risk_adjusted_risk_return_ratio : List D → D → D
  risk_adjusted_risk_return_ratio rs risk_free =
      if leb (length rs) 1
      then zero
      else if eq (volatility rs) zero
      then zero
      else div (sub (mean_of rs) risk_free) (volatility rs)

  unfoldable pub risk_adjusted_risk_adjusted_sharpe_ratio : List D → D → D
  risk_adjusted_risk_adjusted_sharpe_ratio rs risk_free =
      if leb (length rs) 1
      then zero
      else if eq (volatility rs) zero
      then zero
      else div (sub (mean_of rs) risk_free) (volatility rs)

  unfoldable pub risk_adjusted_sortino_ratio : List D → D → D
  risk_adjusted_sortino_ratio rs target =
      let count = count_below target 0 rs in
      let deviation = sqrt (div (sum_below target zero rs) (number count)) in
      if leb (length rs) 1
      then zero
      else if count == 0
      then zero
      else if eq deviation zero
      then zero
      else div (sub (mean_of rs) target) deviation

  unfoldable pub risk_adjusted_risk_adjusted_sortino_ratio : List D → D → D
  risk_adjusted_risk_adjusted_sortino_ratio rs target =
      let count = count_below target 0 rs in
      let deviation = sqrt (div (sum_below target zero rs) (number count)) in
      if leb (length rs) 1
      then zero
      else if count == 0
      then zero
      else if eq deviation zero
      then zero
      else div (sub (mean_of rs) target) deviation

  unfoldable pub risk_adjusted_omega_ratio : List D → D → D → D
  risk_adjusted_omega_ratio rs target threshold =
      if length rs == 0 then zero else ratio_of (threshold_gains target threshold no_gains rs)

  unfoldable pub risk_adjusted_risk_adjusted_omega_ratio : List D → D → D → D
  risk_adjusted_risk_adjusted_omega_ratio rs target threshold =
      if length rs == 0 then zero else ratio_of (threshold_gains target threshold no_gains rs)

  unfoldable pub risk_adjusted_upside_potential_ratio : List D → D → D
  risk_adjusted_upside_potential_ratio rs target =
      if length rs == 0 then zero else ratio_of (upside_gains target no_gains rs)

  unfoldable pub risk_adjusted_risk_adjusted_upside_potential_ratio : List D → D → D
  risk_adjusted_risk_adjusted_upside_potential_ratio rs target =
      if length rs == 0 then zero else ratio_of (upside_gains target no_gains rs)

module _ {ℓ} {D : Type ℓ} ⦃d : Double D⦄ ⦃sign : Signed D⦄ ⦃an : Analysis D⦄ where
  open d use {zero}

  unfoldable pub profit_factor : List D → D
  profit_factor rs = if length rs == 0 then zero else ratio_of (signed_gains no_gains rs)

  unfoldable pub gain_to_pain_ratio : List D → D
  gain_to_pain_ratio rs = if length rs == 0 then zero else ratio_of (signed_gains no_gains rs)

  unfoldable pub risk_adjusted_gain_loss_ratio : List D → D
  risk_adjusted_gain_loss_ratio rs =
      if length rs == 0 then zero else ratio_of (signed_gains no_gains rs)

  unfoldable pub risk_adjusted_risk_adjusted_gain_loss_ratio : List D → D
  risk_adjusted_risk_adjusted_gain_loss_ratio rs =
      if length rs == 0 then zero else ratio_of (signed_gains no_gains rs)

module _ {ℓ} {D : Type ℓ} ⦃d : Double D⦄ ⦃an : Analysis D⦄ where
  threshold_gains-upside_gains :
      (target : D) (rs : List D) (g : Gains D)
      → threshold_gains target target g rs ≡ upside_gains target g rs
  unfolding threshold_gains upside_gains
  threshold_gains-upside_gains target [] g = refl
  threshold_gains-upside_gains target (r ∷ rs) g = threshold_gains-upside_gains target rs _

  -- With the target as the threshold the omega ratio is the upside potential ratio, in each of the
  -- three versions of both.
  pub omega_ratio-upside_potential_ratio :
      (rs : List D) (target : D)
      → (omega_ratio_below rs target target ≡ upside_potential_ratio rs target)
        × ((risk_adjusted_omega_ratio rs target target
              ≡ risk_adjusted_upside_potential_ratio rs target)
            × (risk_adjusted_risk_adjusted_omega_ratio rs target target
                ≡ risk_adjusted_risk_adjusted_upside_potential_ratio rs target))
  unfolding omega_ratio_below upside_potential_ratio risk_adjusted_omega_ratio
      risk_adjusted_upside_potential_ratio risk_adjusted_risk_adjusted_omega_ratio
      risk_adjusted_risk_adjusted_upside_potential_ratio
  omega_ratio-upside_potential_ratio rs target =
      let same =
        ap (λ (g : Gains D). if length rs == 0 then d.zero else ratio_of g)
          (threshold_gains-upside_gains target rs no_gains) in
      (same, (same, same))
