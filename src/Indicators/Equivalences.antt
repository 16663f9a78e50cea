-- ===== src/Indicators/Equivalences.antt =====
-- Indicators that are the same number computed in two ways.
use btrader.Prelude.{
  ◌≡◌, refl, sym, ap, ◌∙◌, Bool, true, false, Bool-cases, inl, inr, List, [], ◌∷◌, ◌==◌, leb,
  if◌then◌else◌, if_true, if_false, length, arith,
}
use btrader.Double.{Double, IsIeee}
use btrader.Indicators.{Analysis, number, sum_below, count_below, mean_of}
use btrader.Indicators.Ratios.{sortino_ratio, downside_risk}
use btrader.Indicators.Capture.{
  Captures, capture, capture_ratio, up_total, up_number, down_total, down_number, up_capture_ratio,
  down_capture_ratio, average_or_one,
}

module _ {ℓ} {D : Type ℓ} ⦃d : Double D⦄ ⦃law : IsIeee D⦄ where
  open d use {zero, add, sub, mul, div, lt, eq}

  -- The four sums of one loop.
  abbrev captured : D → Captures D → List D → Captures D
  captured benchmark c rs = record {
    up_capture = up_total benchmark c.up_capture rs;
    down_capture = down_total benchmark c.down_capture rs;
    up_count = up_number benchmark c.up_count rs;
    down_count = down_number benchmark c.down_count rs;
  }

  capture-captured :
      (benchmark : D) (rs : List D) (c : Captures D)
      → capture benchmark c rs ≡ captured benchmark c rs
  unfolding capture up_total up_number down_total down_number
  capture-captured benchmark [] c = refl
  capture-captured benchmark (r ∷ rs) c = elim (Bool-cases (lt benchmark r)) [
    | inl e ↦
        let f = law.lt_asymmetric benchmark r e in
        rw (capture, e, f) (capture-captured benchmark rs _)
    | inr e ↦ elim (Bool-cases (lt r benchmark)) [
      | inl f ↦ rw (e, f) (capture-captured benchmark rs _)
      | inr f ↦ rw (e, f) (capture-captured benchmark rs _)
    ]
  ]

  -- For a machine whose doubles keep the IEEE laws: the capture ratio, which one loop computes, is the
  -- quotient of the up and the down capture ratios, which two other loops compute, for every series
  -- that is not empty.
  pub capture_ratio-quotient :
      (r : D) (rs : List D) (benchmark : D)
      → capture_ratio (r ∷ rs) benchmark
        ≡ div (up_capture_ratio (r ∷ rs) benchmark) (down_capture_ratio (r ∷ rs) benchmark)
  unfolding capture_ratio up_capture_ratio down_capture_ratio
  capture_ratio-quotient r rs benchmark =
      let start : Captures D = record {
        up_capture = zero;
        down_capture = zero;
        up_count = 0;
        down_count = 0;
      } in
      let some_return : (length (r ∷ rs) == 0) ≡ false = ground arith in
      if_false (length (r ∷ rs) == 0) _ _ some_return
      ∙ ap
          (λ (c : Captures D).
            div (average_or_one c.up_capture c.up_count)
              (average_or_one c.down_capture c.down_count))
          (capture-captured benchmark (r ∷ rs) start)
      ∙ ap
          (λ up. div up (
            average_or_one (down_total benchmark zero (r ∷ rs)) (down_number benchmark 0 (r ∷ rs))))
          (sym (if_false (length (r ∷ rs) == 0) _ _ some_return))
      ∙ ap (λ down. div (up_capture_ratio (r ∷ rs) benchmark) down)
          (sym (if_false (length (r ∷ rs) == 0) _ _ some_return))

module _ {ℓ} {D : Type ℓ} ⦃d : Double D⦄ ⦃an : Analysis D⦄ where
  open d use {zero, sub, div, eq}
  open an use {sqrt}

  -- A risk of 0 without anything at risk.
  no_risk :
      (nothing : Bool) (deviation : D) (ratio : D → D)
      → eq zero zero ≡ true
      → (if nothing then zero else if eq deviation zero then zero else ratio deviation) ≡ (
          if eq (if nothing then zero else deviation) zero
          then zero
          else ratio (if nothing then zero else deviation))
  no_risk true deviation ratio z = sym (if_true (eq zero zero) _ _ z)
  no_risk false deviation ratio z = refl

  -- Where 0 == 0: for more than one return the Sortino ratio is the excess of the mean over the target
  -- divided by the downside risk, or 0 where that risk is 0.
  pub sortino_ratio-downside_risk :
      (r s : D) (rs : List D) (target : D)
      → eq zero zero ≡ true
      → sortino_ratio (r ∷ s ∷ rs) target ≡ (
          if eq (downside_risk (r ∷ s ∷ rs) target) zero
          then zero
          else div (sub (mean_of (r ∷ s ∷ rs)) target) (downside_risk (r ∷ s ∷ rs) target))
  unfolding sortino_ratio downside_risk
  sortino_ratio-downside_risk r s rs target z =
      let all = r ∷ s ∷ rs in
      let count = count_below target 0 all in
      let deviation = sqrt (div (sum_below target zero all) (number count)) in
      let ratio = λ (risk : D). div (sub (mean_of all) target) risk in
      if_false (leb (length all) 1) _ _ (ground arith)
      ∙ no_risk (count == 0) deviation ratio z
      ∙ ap (λ (risk : D). if eq risk zero then zero else ratio risk)
          (sym (
            if_false (length all == 0) zero (if count == 0 then zero else deviation)
              (ground arith)))
