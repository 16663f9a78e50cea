-- ===== src/Strategy/Events.antt =====
-- ConsecutiveBarStrategy: the callbacks of its life, of the market and of its trading.
use btrader.Prelude.{
  ◌+◌, Bool, true, false, not, ◌&&◌, Option, none, some, List, [], ◌∷◌, if◌then◌else◌,
}
use btrader.Prelude.Int.{ℤ, pos, ◌-ℤ◌, ltb_ℤ}
use btrader.Prelude.Dict.{find, insert, erase}
use btrader.Double.{Double, Signed}
use btrader.Types.Enums.{OrderStatus, is_buy, is_sell}
use btrader.Types.{Bar, Trade, Order, OrderInput, assign_order}
use btrader.PositionBook.{Positions, PositionBook}
use btrader.Strategy.{Strategy, push_bounded, max_trade_history, min_trade_interval}
use btrader.Strategy.Signals.{update_bar_history, analyze_consecutive_bars, should_buy, should_sell}
use btrader.Strategy.Orders.{execute_trade, check_exit_conditions, close_all_positions}

-- What on_quote reads of a quote.
pub record Quote {ℓ} (D : Type ℓ) : Type ℓ where
  pub last_price : D
  pub bid_price : List D
  pub ask_price : List D

abbrev pub is_finished : OrderStatus → Bool
is_finished OrderStatus.filled = true
is_finished OrderStatus.cancelled = true
is_finished OrderStatus.error = true
is_finished _ = false

module _ {ℓ} {D : Type ℓ} where
  -- What active_orders_[order.order_id] = order leaves there, where `fresh` is what a new Order holds.
  unfoldable pub stored_order : Order D → Order D → Strategy D → Order D
  stored_order fresh order s = elim (find order.order_id s.active_orders) [
    | none ↦ assign_order fresh order
    | some old ↦ assign_order old order
  ]

  abbrev pub store_order : Order D → Order D → Strategy D → Strategy D
  store_order fresh order s = record s {
    active_orders = insert order.order_id (stored_order fresh order s) s.active_orders;
  }

  unfoldable pub on_order : Order D → Order D → Strategy D → Strategy D
  on_order fresh order s =
      let stored = store_order fresh order s in
      if is_finished order.status
      then record stored { active_orders = erase order.order_id stored.active_orders }
      else stored

  -- bar_count >= min_bars, and more than the interval since the last trade
  unfoldable pub may_trade : ℤ → Strategy D → Bool
  may_trade now s =
      not (ltb_ℤ (pos s.bar_count) s.config.min_bars)
      && ltb_ℤ (pos min_trade_interval) (now -ℤ s.last_trade_time)

module _ {ℓ} {D : Type ℓ} ⦃d : Double D⦄ where
  open d use {zero, add, sub, mul, div, lt, eq, literal}

  unfoldable pub pre_start : Strategy D → Strategy D
  pre_start s = record s {
    bar_count = 0;
    position_opened = false;
    current_position = zero;
    consecutive_up_bars = 0;
    consecutive_down_bars = 0;
    bar_history = [];
    total_pnl = zero;
    max_drawdown = zero;
    peak_equity = zero;
  }

  abbrev pub first_of : List D → List D → Option (D × D)
  first_of (bid ∷ bids) (ask ∷ asks) = some (bid, ask)
  first_of _ _ = none

  unfoldable pub mid_price : Quote D → D
  mid_price q = elim (first_of q.bid_price q.ask_price) [
    | none ↦ q.last_price
    | some (bid, ask) ↦ div (add bid ask) (literal 2 0)
  ]

  unfoldable pub update_pnl_tracking : Trade D → Strategy D → Strategy D
  update_pnl_tracking t s =
      let pnl =
        if is_buy t.side
        then mul (sub t.price s.entry_price) t.volume
        else mul (sub s.entry_price t.price) t.volume in
      let total = add s.total_pnl pnl in
      let current_equity = add (literal 100000 0) total in
      let peak = if lt s.peak_equity current_equity then current_equity else s.peak_equity in
      let drawdown = div (sub peak current_equity) peak in
      if lt zero s.entry_price
      then record s {
        total_pnl = total;
        peak_equity = peak;
        max_drawdown = if lt s.max_drawdown drawdown then drawdown else s.max_drawdown;
      }
      else s

  -- The two loops of calculate_net_position.
  unfoldable pub add_volumes : D → Positions D → D
  add_volumes net [] = net
  add_volumes net ((_, p) ∷ ps) =
      add_volumes (if lt zero p.volume then add net p.volume else net) ps

  unfoldable pub sub_volumes : D → Positions D → D
  sub_volumes net [] = net
  sub_volumes net ((_, p) ∷ ps) =
      sub_volumes (if lt zero p.volume then sub net p.volume else net) ps

  unfoldable pub calculate_net_position : PositionBook D → D
  calculate_net_position b = sub_volumes (add_volumes zero b.long_positions) b.short_positions

  abbrev pub back_price : List (Trade D) → D → D
  back_price [] entry = entry
  back_price (t ∷ ts) entry = t.price

  unfoldable pub on_position_sync_reset : PositionBook D → Strategy D → Strategy D
  on_position_sync_reset new_book s =
      let net = calculate_net_position new_book in
      if not (eq net zero)
      then record s {
        current_position = net;
        position_opened = true;
        entry_price = back_price s.trade_history s.entry_price;
      }
      else record s { current_position = net; position_opened = false; entry_price = zero }

module _ {ℓ} {D : Type ℓ} ⦃d : Double D⦄ ⦃sign : Signed D⦄ where
  open d use {zero, add, sub, eq}
  open sign use {abs}

  abbrev pub moved_position : Trade D → D → D
  moved_position t position =
      if is_buy t.side
      then add position t.volume
      else if is_sell t.side
      then sub position t.volume
      else position

  -- The position that a trade leaves, with its entry price.
  unfoldable pub move_position : Trade D → Strategy D → Strategy D
  move_position t s =
      let position = moved_position t s.current_position in
      if not (eq position zero)
      then record s {
        current_position = position;
        position_opened = true;
        entry_price = if eq (abs position) t.volume then t.price else s.entry_price;
      }
      else record s { current_position = position; position_opened = false; entry_price = zero }

  unfoldable pub on_trade : Trade D → Strategy D → Strategy D
  on_trade t s =
      let moved = move_position t s in
      update_pnl_tracking t
        (record moved { trade_history = push_bounded max_trade_history t moved.trade_history })

module _ {ℓ} {D : Type ℓ} ⦃d : Double D⦄ ⦃sign : Signed D⦄ (blank : OrderInput D) where
  open d use {zero, eq}

  unfoldable pub pre_stop : Strategy D → Strategy D
  pre_stop s =
      if s.position_opened && not (eq s.current_position zero)
      then close_all_positions blank s
      else s

  unfoldable pub on_quote : Quote D → Strategy D → Strategy D
  on_quote q s =
      if not s.config.enable_quote_trading then s else check_exit_conditions blank (mid_price q) s

  -- What on_bar does before it looks for a trade.
  unfoldable pub take_bar : Bar D → Strategy D → Strategy D
  take_bar bar s =
      let analyzed = analyze_consecutive_bars (update_bar_history bar s) in
      check_exit_conditions blank bar.close (record analyzed { bar_count = analyzed.bar_count + 1 })

  -- The trade of on_bar, at the time of the wall clock.
  unfoldable pub trade_at : ℤ → D → Strategy D → Strategy D
  trade_at now price s =
      if should_buy s
      then record (execute_trade blank price true s) { last_trade_time = now }
      else if should_sell s
      then record (execute_trade blank price false s) { last_trade_time = now }
      else s

  unfoldable pub on_bar : ℤ → Bar D → Strategy D → Strategy D
  on_bar now bar s =
      let taken = take_bar bar s in
      if may_trade now taken then trade_at now bar.close taken else taken
