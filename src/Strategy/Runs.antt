-- ===== src/Strategy/Runs.antt =====
-- ConsecutiveBarStrategy under any sequence of callbacks.
use btrader.Prelude.{
  ℕ, suc, ◌≤◌, ◌≡◌, refl, ap, ◌∙◌, Bool, not, ◌&&◌, List, [], ◌∷◌, length, ltb, if◌then◌else◌,
  both_branches, branches_by, arith,
}
use btrader.Prelude.Int.{ℤ}
use btrader.Double.{Double, Signed}
use btrader.Types.{Bar, Order, OrderInput, Trade}
use btrader.PositionBook.{PositionBook}
use btrader.Strategy.{Strategy, drop_oldest, push_bounded, cancel_order}
use btrader.Strategy.Settings.{Settings, setup}
use btrader.Strategy.Signals.{should_buy, should_sell}
use btrader.Strategy.Orders.{
  is_working, cancel_working, send, send_order, close_order, last_close, check_exit_conditions,
  close_position, close_all_positions, execute_trade,
}
use btrader.Strategy.Events.{
  Quote, on_order, pre_start, pre_stop, on_quote, on_bar, on_trade, on_position_sync_reset,
  trade_at, take_bar, may_trade, mid_price,
}
use btrader.Strategy.Exits.{core, noted, take_bar-core, check_exit_conditions-Sends}

-- The callbacks with their arguments; post_start and post_stop only print.
pub data Event {ℓ} (D : Type ℓ) : Type ℓ where
  configured : Settings D → Event D
  started stopped : Event D
  quoted : Quote D → Event D
  bar_ended : ℤ → Bar D → Event D
  order_updated : Order D → Order D → Event D
  traded : Trade D → Event D
  positions_synced : PositionBook D → Event D

module _ {ℓ} {A : Type ℓ} where
  length-drop_oldest : (x : A) (xs : List A) → length (drop_oldest (x ∷ xs)) ≡ length xs
  unfolding drop_oldest
  length-drop_oldest x [] = refl
  length-drop_oldest x (y ∷ xs) = ap suc (length-drop_oldest y xs)

  pub length-push_bounded :
      (n : ℕ) (x : A) (xs : List A) → length xs ≤ n → length (push_bounded n x xs) ≤ n
  unfolding push_bounded
  length-push_bounded n x xs h =
      branches_by (λ ys. length ys ≤ n) (ltb n (length (x ∷ xs))) {u = drop_oldest (x ∷ xs)}
        {v = x ∷ xs} (λ e. omega (arith, h, length-drop_oldest x xs)) λ e. ground arith

module _ {ℓ} {D : Type ℓ} ⦃d : Double D⦄ ⦃sign : Signed D⦄ (blank : OrderInput D) where
  open d use {zero, lt, eq}

  unfoldable pub step : Event D → Strategy D → Strategy D
  step (configured j) s = setup j s
  step started s = pre_start s
  step stopped s = pre_stop blank s
  step (quoted q) s = on_quote blank q s
  step (bar_ended now bar) s = on_bar blank now bar s
  step (order_updated fresh order) s = on_order fresh order s
  step (traded t) s = on_trade t s
  step (positions_synced book) s = on_position_sync_reset book s

  unfoldable pub run : List (Event D) → Strategy D → Strategy D
  run [] s = s
  run (e ∷ events) s = run events (step e s)

  -- From s to t only orders were sent and ids and times given out.
  record SameCore (s t : Strategy D) : Type ℓ where
    same : core t ≡ core s

  trade_at-SameCore :
      (now : ℤ) (price : D) (s : Strategy D) → SameCore s (trade_at blank now price s)
  unfolding trade_at execute_trade core
  trade_at-SameCore now price s =
      both_branches (SameCore s) (should_buy s) (record { same = refl })
        (both_branches (SameCore s) (should_sell s) (record { same = refl })
          (record { same = refl }))

  cancel_working-core :
      (orders : List (ℕ × Order D)) (s : Strategy D) → core (cancel_working orders s) ≡ core s
  unfolding cancel_working core
  cancel_working-core [] s = refl
  cancel_working-core ((id, order) ∷ orders) s =
      cancel_working-core orders _
      ∙ both_branches (λ t. core t ≡ core s) (is_working order.status)
          {u = send (cancel_order id) s} {v = s} refl refl

  close_position-core :
      (price : D) (is_buy : Bool) (s : Strategy D)
      → core (close_position blank price is_buy s) ≡ core s
  unfolding close_position core
  close_position-core price is_buy s =
      both_branches (λ t. core t ≡ core s) (eq s.current_position zero) {u = s}
        {v = send_order (close_order blank price is_buy s) s} refl refl

  pub pre_stop-core : (s : Strategy D) → core (pre_stop blank s) ≡ core s
  unfolding pre_stop close_all_positions
  pre_stop-core s =
      let price = last_close s.bar_history in
      let closed =
        if lt zero price then close_position blank price (lt s.current_position zero) s else s in
      both_branches (λ t. core t ≡ core s) (s.position_opened && not (eq s.current_position zero))
        {u = close_all_positions blank s} {v = s}
        (both_branches (λ t. core t ≡ core s) (eq s.current_position zero) {u = s}
          {v = cancel_working s.active_orders closed} refl
          (cancel_working-core s.active_orders closed
            ∙ both_branches (λ t. core t ≡ core s) (lt zero price)
                {u = close_position blank price (lt s.current_position zero) s} {v = s}
                (close_position-core price (lt s.current_position zero) s) refl))
        refl

  pub on_quote-core : (q : Quote D) (s : Strategy D) → core (on_quote blank q s) ≡ core s
  unfolding on_quote
  on_quote-core q s =
      both_branches (λ t. core t ≡ core s) (not s.config.enable_quote_trading) {u = s}
        {v = check_exit_conditions blank (mid_price q) s} refl
        (check_exit_conditions-Sends blank (mid_price q) s).same_core

  -- A bar changes the history and the counts, and nothing else beside the orders.
  pub on_bar-core :
      (now : ℤ) (bar : Bar D) (s : Strategy D) → core (on_bar blank now bar s) ≡ core (noted bar s)
  unfolding on_bar
  on_bar-core now bar s =
      let t = take_bar blank bar s in
      both_branches (λ r. core r ≡ core (noted bar s)) (may_trade now t)
        {u = trade_at blank now bar.close t} {v = t}
        ((trade_at-SameCore now bar.close t).same ∙ take_bar-core blank bar s)
        (take_bar-core blank bar s)
