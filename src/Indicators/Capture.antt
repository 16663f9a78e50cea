-- ===== src/Indicators/Capture.antt =====
-- algorithm/algorithm.h: the ratios that compare gains with losses. The loops run over the returns
-- and keep the sums, and the numbers of returns above and below the benchmark.
use btrader.Prelude.{ℕ, ◌+◌, List, [], ◌∷◌, ◌==◌, if◌then◌else◌, length}
use btrader.Double.{Double, Signed}
use btrader.Indicators.{Analysis, number}

pub record Captures {ℓ} (D : Type ℓ) : Type ℓ where
  pub up_capture : D
  pub down_capture : D
  pub up_count : ℕ
  pub down_count : ℕ

pub record Gains {ℓ} (D : Type ℓ) : Type ℓ where
  pub gain : D
  pub loss : D

module _ {ℓ} {D : Type ℓ} ⦃d : Double D⦄ where
  open d use {zero, add, sub, div, lt}

  -- The loop of capture_ratio.
  unfoldable pub capture : D → Captures D → List D → Captures D
  capture benchmark c [] = c
  capture benchmark c (r ∷ rs) =
      capture benchmark
        (if lt benchmark r
          then record c {
            up_capture = add c.up_capture (div r benchmark);
            up_count = c.up_count + 1;
          }
          else if lt r benchmark
          then record c {
            down_capture = add c.down_capture (div r benchmark);
            down_count = c.down_count + 1;
          }
          else c)
        rs

  -- The average where the count is not 0, else 1.
  abbrev pub average_or_one : D → ℕ → D
  average_or_one total n = if n == 0 then number 1 else div total (number n)

  unfoldable pub capture_ratio : List D → D → D
  capture_ratio rs benchmark =
      let c =
        capture benchmark
          (record { up_capture = zero; down_capture = zero; up_count = 0; down_count = 0 }) rs in
      if length rs == 0
      then zero
      else div (average_or_one c.up_capture c.up_count) (average_or_one c.down_capture c.down_count)

  -- The loops of up_capture_ratio and down_capture_ratio.
  unfoldable pub up_total : D → D → List D → D
  up_total benchmark total [] = total
  up_total benchmark total (r ∷ rs) =
      up_total benchmark (if lt benchmark r then add total (div r benchmark) else total) rs

  unfoldable pub up_number : D → ℕ → List D → ℕ
  up_number benchmark n [] = n
  up_number benchmark n (r ∷ rs) = up_number benchmark (if lt benchmark r then n + 1 else n) rs

  unfoldable pub down_total : D → D → List D → D
  down_total benchmark total [] = total
  down_total benchmark total (r ∷ rs) =
      down_total benchmark (if lt r benchmark then add total (div r benchmark) else total) rs

  unfoldable pub down_number : D → ℕ → List D → ℕ
  down_number benchmark n [] = n
  down_number benchmark n (r ∷ rs) = down_number benchmark (if lt r benchmark then n + 1 else n) rs

  unfoldable pub up_capture_ratio : List D → D → D
  up_capture_ratio rs benchmark =
      if length rs == 0
      then zero
      else average_or_one (up_total benchmark zero rs) (up_number benchmark 0 rs)

  unfoldable pub down_capture_ratio : List D → D → D
  down_capture_ratio rs benchmark =
      if length rs == 0
      then zero
      else average_or_one (down_total benchmark zero rs) (down_number benchmark 0 rs)

module _ {ℓ} {D : Type ℓ} ⦃d : Double D⦄ ⦃an : Analysis D⦄ where
  open d use {zero, add, sub, div, lt, eq}
  open an use {infinity}

  -- gain / loss, and infinity without a loss.
  abbrev pub ratio_of : Gains D → D
  ratio_of g = if eq g.loss zero then infinity else div g.gain g.loss

  abbrev pub no_gains : Gains D
  no_gains = record { gain = zero; loss = zero }

  unfoldable pub omega_gains : D → Gains D → List D → Gains D
  omega_gains target g [] = g
  omega_gains target g (r ∷ rs) =
      omega_gains target
        (if lt target r
          then record g { gain = add g.gain (sub r target) }
          else record g { loss = add g.loss (sub target r) })
        rs

  unfoldable pub omega_ratio : List D → D → D
  omega_ratio rs target = if length rs == 0 then zero else ratio_of (omega_gains target no_gains rs)

  unfoldable pub threshold_gains : D → D → Gains D → List D → Gains D
  threshold_gains target threshold g [] = g
  threshold_gains target threshold g (r ∷ rs) =
      threshold_gains target threshold
        (if lt target r
          then record g { gain = add g.gain (sub r target) }
          else if lt r threshold
          then record g { loss = add g.loss (sub target r) }
          else g)
        rs

  -- The overload of omega_ratio with a threshold.
  unfoldable pub omega_ratio_below : List D → D → D → D
  omega_ratio_below rs target threshold =
      if length rs == 0 then zero else ratio_of (threshold_gains target threshold no_gains rs)

  unfoldable pub upside_gains : D → Gains D → List D → Gains D
  upside_gains target g [] = g
  upside_gains target g (r ∷ rs) =
      upside_gains target
        (if lt target r
          then record g { gain = add g.gain (sub r target) }
          else if lt r target
          then record g { loss = add g.loss (sub target r) }
          else g)
        rs

  unfoldable pub upside_potential_ratio : List D → D → D
  upside_potential_ratio rs target =
      if length rs == 0 then zero else ratio_of (upside_gains target no_gains rs)

module _ {ℓ} {D : Type ℓ} ⦃d : Double D⦄ ⦃sign : Signed D⦄ ⦃an : Analysis D⦄ where
  open d use {zero, add, lt}
  open sign use {neg}

  unfoldable pub signed_gains : Gains D → List D → Gains D
  signed_gains g [] = g
  signed_gains g (r ∷ rs) =
      signed_gains
        (if lt (number 0) r
          then record g { gain = add g.gain r }
          else record g { loss = add g.loss (neg r) })
        rs

  unfoldable pub gain_loss_ratio : List D → D
  gain_loss_ratio rs = if length rs == 0 then zero else ratio_of (signed_gains no_gains rs)

  unfoldable pub tail_gains : D → Gains D → List D → Gains D
  tail_gains threshold g [] = g
  tail_gains threshold g (r ∷ rs) =
      tail_gains threshold
        (if lt threshold r
          then record g { gain = add g.gain r }
          else if lt r threshold
          then record g { loss = add g.loss (neg r) }
          else g)
        rs

  unfoldable pub tail_ratio : List D → D → D
  tail_ratio rs threshold =
      if length rs == 0 then zero else ratio_of (tail_gains threshold no_gains rs)
