-- ===== src/Strategy/Orders.antt =====
-- ConsecutiveBarStrategy: the orders that it sends. `blank` is what a new OrderInput holds before its
-- members are set.
use btrader.Prelude.{ℕ, ◌+◌, Bool, true, false, not, ◌&&◌, ◌||◌, List, [], ◌∷◌, ◌++◌, if◌then◌else◌}
use btrader.Double.{Double, Signed}
use btrader.CharArray.{assign}
use btrader.Types.Enums.{
  InstrumentType, Side, Offset, PriceType, VolumeCondition, TimeCondition, OrderStatus,
}
use btrader.Types.{Bar, Order, OrderInput}
use btrader.Strategy.{Strategy, Action, insert_order, cancel_order}

-- "DEFAULT_EXCHANGE"
abbrev pub default_exchange : List ℕ
default_exchange =
    68 ∷ 69 ∷ 70 ∷ 65 ∷ 85 ∷ 76 ∷ 84 ∷ 95 ∷ 69 ∷ 88 ∷ 67 ∷ 72 ∷ 65 ∷ 78 ∷ 71 ∷ 69 ∷ []

-- status == Pending || status == Submitted
abbrev pub is_working : OrderStatus → Bool
is_working OrderStatus.pending = true
is_working OrderStatus.submitted = true
is_working _ = false

abbrev pub order_side : Bool → Side
order_side is_buy = if is_buy then Side.buy else Side.sell

module _ {ℓ} {D : Type ℓ} where
  abbrev pub send : Action D → Strategy D → Strategy D
  send a s = record s { sent = s.sent ++ a ∷ [] }

  -- generate_order_id() and insert_order of the order that gets the id.
  abbrev pub send_order : (ℕ → OrderInput D) → Strategy D → Strategy D
  send_order order s =
      record (send (insert_order s.institution s.account (order s.next_order_id)) s) {
        next_order_id = s.next_order_id + 1;
      }

  -- The loop of close_all_positions over active_orders_.
  unfoldable pub cancel_working : List (ℕ × Order D) → Strategy D → Strategy D
  cancel_working [] s = s
  cancel_working ((id, order) ∷ orders) s =
      cancel_working orders (if is_working order.status then send (cancel_order id) s else s)

module _ {ℓ} {D : Type ℓ} ⦃d : Double D⦄ where
  open d use {zero, sub, mul, div, lt, literal}

  unfoldable pub calculate_position_size : D → Strategy D → D
  calculate_position_size price s =
      let risk_amount = mul (literal 100000 0) s.config.risk_per_trade in
      let position_size = div risk_amount price in
      let limited =
        if lt s.config.max_position position_size then s.config.max_position else position_size in
      if lt limited (literal 1 0) then literal 1 0 else limited

  abbrev pub price_change : D → Strategy D → D
  price_change price s = div (sub price s.entry_price) s.entry_price

  -- The close of the newest bar, or 0 without one.
  abbrev pub last_close : List (Bar D) → D
  last_close [] = zero
  last_close (bar ∷ bars) = bar.close

module _ {ℓ} {D : Type ℓ} ⦃d : Double D⦄ ⦃sign : Signed D⦄ (blank : OrderInput D) where
  open d use {zero, lt, eq}
  open sign use {neg, abs}

  unfoldable pub open_order : D → Bool → Strategy D → ℕ → OrderInput D
  open_order price is_buy s id = record blank {
    order_id = id;
    instrument_id = assign blank.instrument_id s.symbol;
    exchange_id = assign blank.exchange_id s.institution;
    instrument_type = InstrumentType.stock;
    limit_price = price;
    volume = calculate_position_size price s;
    side = order_side is_buy;
    offset = Offset.open_position;
    price_type = PriceType.limit;
    volume_condition = VolumeCondition.any_volume;
    time_condition = TimeCondition.gfd;
  }

  unfoldable pub execute_trade : D → Bool → Strategy D → Strategy D
  execute_trade price is_buy s = send_order (open_order price is_buy s) s

  unfoldable pub close_order : D → Bool → Strategy D → ℕ → OrderInput D
  close_order price is_buy s id = record blank {
    order_id = id;
    instrument_id = assign blank.instrument_id s.symbol;
    exchange_id = assign blank.exchange_id default_exchange;
    instrument_type = InstrumentType.stock;
    limit_price = price;
    volume = abs s.current_position;
    side = order_side is_buy;
    offset = Offset.close_position;
    price_type = PriceType.limit;
    volume_condition = VolumeCondition.all_volume;
    time_condition = TimeCondition.ioc;
  }

  unfoldable pub close_position : D → Bool → Strategy D → Strategy D
  close_position price is_buy s =
      if eq s.current_position zero then s else send_order (close_order price is_buy s) s

  unfoldable pub check_stop_loss : D → Strategy D → Strategy D
  check_stop_loss price s =
      if lt zero s.current_position && lt (price_change price s) (neg s.config.stop_loss)
      then close_position price false s
      else if lt s.current_position zero && lt s.config.stop_loss (price_change price s)
      then close_position price true s
      else s

  unfoldable pub check_take_profit : D → Strategy D → Strategy D
  check_take_profit price s =
      if lt zero s.current_position && lt s.config.take_profit (price_change price s)
      then close_position price false s
      else if lt s.current_position zero && lt (price_change price s) (neg s.config.take_profit)
      then close_position price true s
      else s

  unfoldable pub check_exit_conditions : D → Strategy D → Strategy D
  check_exit_conditions price s =
      if not s.position_opened || eq s.entry_price zero
      then s
      else check_take_profit price (check_stop_loss price s)

  unfoldable pub close_all_positions : Strategy D → Strategy D
  close_all_positions s =
      let price = last_close s.bar_history in
      let closed =
        if lt zero price then close_position price (lt s.current_position zero) s else s in
      if eq s.current_position zero then s else cancel_working s.active_orders closed
