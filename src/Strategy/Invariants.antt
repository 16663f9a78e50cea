-- ===== src/Strategy/Invariants.antt =====
-- What holds of a ConsecutiveBarStrategy after any sequence of callbacks.
use btrader.Prelude.{
  ℕ, ◌≤◌, ◌≡◌, refl, sym, ap, subst, ◌∙◌, Bool, true, not, List, [], ◌∷◌, length, both_branches,
  branches_by, arith,
}
use btrader.Double.{Double, Signed}
use btrader.Types.{Bar, Order, OrderInput, Trade}
use btrader.PositionBook.{PositionBook}
use btrader.Strategy.{Config, Strategy, constructed, max_bar_history, max_trade_history}
use btrader.Json.{Entry, apply_entry, Leaves, apply_entry-Leaves}
use btrader.Strategy.Settings.{
  Settings, with_config, set_min_bars, set_max_position, set_stop_loss, set_take_profit,
  set_risk_per_trade, set_max_drawdown, set_enable_quote_trading, check_consistency, parse_entries,
  setup,
}
use btrader.Strategy.Signals.{update_bar_history, analyze_consecutive_bars}
use btrader.Strategy.Events.{
  is_finished, on_order, pre_start, on_trade, move_position, update_pnl_tracking,
  on_position_sync_reset, calculate_net_position, moved_position,
}
use btrader.Strategy.Exits.{core, noted}
use btrader.Strategy.Entries.{analyze_history-same}
use btrader.Strategy.Runs.{
  Event, configured, started, stopped, quoted, bar_ended, order_updated, traded, positions_synced,
  step, run, length-push_bounded, pre_stop-core, on_quote-core, on_bar-core,
}

module _ {ℓ} {D : Type ℓ} ⦃d : Double D⦄ ⦃sign : Signed D⦄ where
  open d use {zero, lt, eq}

  -- The histories are bounded, and a position is open just where it is not 0.
  pub record IsSound (s : Strategy D) : Type 0 where
    pub bars : length s.bar_history ≤ max_bar_history
    pub trades : length s.trade_history ≤ max_trade_history
    pub opened : s.position_opened ≡ not (eq s.current_position zero)

  core-IsSound : (s t : Strategy D) → core t ≡ core s → IsSound s → IsSound t
  unfolding core
  core-IsSound s t e h = record {
    bars = subst (λ (r : Strategy D). length r.bar_history ≤ max_bar_history) (sym e) h.bars;
    trades =
        subst (λ (r : Strategy D). length r.trade_history ≤ max_trade_history) (sym e) h.trades;
    opened =
        subst (λ (r : Strategy D). r.position_opened ≡ not (eq r.current_position zero)) (sym e)
          h.opened;
  }

  same_state :
      (s t : Strategy D)
      → IsSound s
      → t.bar_history ≡ s.bar_history
      → t.trade_history ≡ s.trade_history
      → t.position_opened ≡ s.position_opened
      → t.current_position ≡ s.current_position
      → IsSound t
  same_state s t h bars trades opened position = record {
    bars = subst (λ l. length l ≤ max_bar_history) (sym bars) h.bars;
    trades = subst (λ l. length l ≤ max_trade_history) (sym trades) h.trades;
    opened = opened ∙ h.opened ∙ ap (λ p. not (eq p zero)) (sym position);
  }

  noted-IsSound : (bar : Bar D) (s : Strategy D) → IsSound s → IsSound (noted bar s)
  unfolding analyze_consecutive_bars update_bar_history
  noted-IsSound bar s h =
      let v = update_bar_history bar s in
      let e = analyze_history-same v.bar_history v in
      record {
        bars =
            subst (λ (r : Strategy D). length r.bar_history ≤ max_bar_history) (sym e)
              (length-push_bounded max_bar_history bar s.bar_history h.bars);
        trades =
            subst (λ (r : Strategy D). length r.trade_history ≤ max_trade_history) (sym e) h.trades;
        opened =
            subst (λ (r : Strategy D). r.position_opened ≡ not (eq r.current_position zero)) (sym e)
              h.opened;
      }

  move_position-IsSound : (t : Trade D) (s : Strategy D) → IsSound s → IsSound (move_position t s)
  unfolding move_position
  move_position-IsSound t s h =
      branches_by IsSound (not (eq (moved_position t s.current_position) zero))
        (λ e. record { bars = h.bars; trades = h.trades; opened = sym e })
        λ e. record { bars = h.bars; trades = h.trades; opened = sym e }

  update_pnl_tracking-IsSound :
      (t : Trade D) (s : Strategy D) → IsSound s → IsSound (update_pnl_tracking t s)
  unfolding update_pnl_tracking
  update_pnl_tracking-IsSound t s h =
      both_branches IsSound (lt zero s.entry_price)
        (record { bars = h.bars; trades = h.trades; opened = h.opened }) h

  on_trade-IsSound : (t : Trade D) (s : Strategy D) → IsSound s → IsSound (on_trade t s)
  unfolding on_trade
  on_trade-IsSound t s h =
      let moved = move_position t s in
      let m = move_position-IsSound t s h in
      update_pnl_tracking-IsSound t _ (record {
        bars = m.bars;
        trades = length-push_bounded max_trade_history t moved.trade_history m.trades;
        opened = m.opened;
      })

  on_position_sync_reset-IsSound :
      (book : PositionBook D) (s : Strategy D) → IsSound s → IsSound (on_position_sync_reset book s)
  unfolding on_position_sync_reset
  on_position_sync_reset-IsSound book s h =
      branches_by IsSound (not (eq (calculate_net_position book) zero))
        (λ e. record { bars = h.bars; trades = h.trades; opened = sym e })
        (λ e. record { bars = h.bars; trades = h.trades; opened = sym e })

  on_order-IsSound :
      (fresh order : Order D) (s : Strategy D) → IsSound s → IsSound (on_order fresh order s)
  unfolding on_order
  on_order-IsSound fresh order s h =
      both_branches IsSound (is_finished order.status)
        (record { bars = h.bars; trades = h.trades; opened = h.opened })
        (record { bars = h.bars; trades = h.trades; opened = h.opened })

  config_entry-Leaves {κ} :
      {A : Type κ} (e : Entry A) (set : A → Config D → Config D) (p : Strategy D × Bool)
      → Leaves IsSound p
      → Leaves IsSound (apply_entry e (λ a. with_config (set a)) p)
  config_entry-Leaves e set p h =
      apply_entry-Leaves IsSound e (λ a. with_config (set a)) p
        (λ a v k. same_state v (with_config (set a) v) k refl refl refl refl) h

  parse_entries-Leaves :
      (j : Settings D) (s : Strategy D) → IsSound s → Leaves IsSound (parse_entries j s)
  unfolding parse_entries
  parse_entries-Leaves j s h =
      config_entry-Leaves j.enable_quote_trading set_enable_quote_trading _ (
        config_entry-Leaves j.max_drawdown set_max_drawdown _ (
          config_entry-Leaves j.risk_per_trade set_risk_per_trade _ (
            config_entry-Leaves j.take_profit set_take_profit _ (
              config_entry-Leaves j.stop_loss set_stop_loss _ (
                config_entry-Leaves j.max_position set_max_position _ (
                  config_entry-Leaves j.min_bars set_min_bars _ (
                    apply_entry-Leaves IsSound j.account (λ a s. record s { account = a }) _
                      (λ a v k. same_state v (record v { account = a }) k refl refl refl refl)
                      (apply_entry-Leaves IsSound j.institution
                        (λ i s. record s { institution = i }) _
                        (λ a v k. same_state v (record v { institution = a }) k refl refl refl refl)
                        (apply_entry-Leaves IsSound j.symbol (λ i s. record s { symbol = i })
                          (s, true)
                          (λ a v k. same_state v (record v { symbol = a }) k refl refl refl refl)
                          (record { holds = h }))))))))))

  setup-IsSound : (j : Settings D) (s : Strategy D) → IsSound s → IsSound (setup j s)
  unfolding setup
  setup-IsSound j s h =
      let k = (parse_entries-Leaves j s h).holds in
      both_branches IsSound (parse_entries j s).1
        (same_state (parse_entries j s).0 (with_config check_consistency (parse_entries j s).0) k
          refl refl refl refl)
        k

module _ {ℓ} {D : Type ℓ} ⦃d : Double D⦄ ⦃sign : Signed D⦄ (blank : OrderInput D) where
  open d use {zero, eq}

  step-IsSound :
      (e : Event D) (s : Strategy D) → eq zero zero ≡ true → IsSound s → IsSound (step blank e s)
  unfolding step pre_start
  step-IsSound (configured j) s z h = setup-IsSound j s h
  step-IsSound started s z h = record {
    bars = omega arith;
    trades = h.trades;
    opened = sym (ap not z);
  }
  step-IsSound stopped s z h = core-IsSound s _ (pre_stop-core blank s) h
  step-IsSound (quoted q) s z h = core-IsSound s _ (on_quote-core blank q s) h
  step-IsSound (bar_ended now bar) s z h =
      core-IsSound (noted bar s) _ (on_bar-core blank now bar s) (noted-IsSound bar s h)
  step-IsSound (order_updated fresh order) s z h = on_order-IsSound fresh order s h
  step-IsSound (traded t) s z h = on_trade-IsSound t s h
  step-IsSound (positions_synced book) s z h = on_position_sync_reset-IsSound book s h

  run-step-IsSound :
      (events : List (Event D)) (s : Strategy D)
      → eq zero zero ≡ true
      → IsSound s
      → IsSound (run blank events s)
  unfolding run
  run-step-IsSound [] s z h = h
  run-step-IsSound (e ∷ events) s z h =
      run-step-IsSound events (step blank e s) z (step-IsSound e s z h)

  -- Where 0 == 0: from the constructor on, after any sequence of callbacks, the strategy keeps at most
  -- 50 bars and 1000 trades, and its flag of an open position is set just where its position is
  -- not 0.
  pub run-IsSound :
      (n : ℕ) (events : List (Event D))
      → eq zero zero ≡ true
      → IsSound (run blank events (constructed n))
  unfolding constructed
  run-IsSound n events z =
      run-step-IsSound events (constructed n) z
        (record { bars = omega arith; trades = omega arith; opened = sym (ap not z) })
