-- ===== src/Strategy/Signals.antt =====
-- ConsecutiveBarStrategy: the history of bars and the signals that it gives.
use btrader.Prelude.{ℕ, Bool, not, ◌&&◌, List, [], ◌∷◌, leb, if◌then◌else◌}
use btrader.Double.{Double}
use btrader.Types.{Bar}
use btrader.Strategy.{Strategy, push_bounded, max_bar_history}

module _ {ℓ} {D : Type ℓ} ⦃d : Double D⦄ where
  open d use {lt, le}

  unfoldable pub update_bar_history : Bar D → Strategy D → Strategy D
  update_bar_history bar s = record s {
    bar_history = push_bounded max_bar_history bar s.bar_history;
  }

  -- close > open, and close < open
  abbrev pub is_up : Bar D → Bool
  is_up bar = lt bar.open_price bar.close

  abbrev pub is_down : Bar D → Bool
  is_down bar = lt bar.close bar.open_price

  abbrev pub with_counts : ℕ → ℕ → Strategy D → Strategy D
  with_counts up down s = record s { consecutive_up_bars = up; consecutive_down_bars = down }

  -- The counts from whether the newest bar and the one before it are up, and are down.
  abbrev pub counted : Bool → Bool → Bool → Bool → Strategy D → Strategy D
  counted up previous_up down previous_down s =
      if up
      then with_counts (if previous_up then 2 else 1) 0 s
      else if down
      then with_counts 0 (if previous_down then 2 else 1) s
      else with_counts 0 0 s

  abbrev pub analyze_history : List (Bar D) → Strategy D → Strategy D
  analyze_history [] s = with_counts 0 0 s
  analyze_history (bar ∷ []) s = with_counts 0 0 s
  analyze_history (current ∷ previous ∷ bars) s =
      counted (is_up current) (is_up previous) (is_down current) (is_down previous) s

  unfoldable pub analyze_consecutive_bars : Strategy D → Strategy D
  analyze_consecutive_bars s = analyze_history s.bar_history s

  unfoldable pub should_buy : Strategy D → Bool
  should_buy s =
      leb 2 s.consecutive_up_bars
      && (not s.position_opened && le s.max_drawdown s.config.max_drawdown)

  unfoldable pub should_sell : Strategy D → Bool
  should_sell s =
      leb 2 s.consecutive_down_bars
      && (not s.position_opened && le s.max_drawdown s.config.max_drawdown)
