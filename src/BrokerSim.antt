-- ===== src/BrokerSim.antt =====
-- broker/brokersim: class BrokerSim, the simulated exchange. Every public call holds the mutex, so a
-- call is one step. The responses that notify_response writes to the journal are a list, oldest
-- first. What the calls read from outside is an argument: the clock, the depth that the call board
-- has for an instrument (of size 0 where it has none) and the random price change.
pub mod Matching
pub mod Cancel
pub mod Keyed
pub mod Lifecycle
pub mod Levels
pub mod Fractions
use Prim.Native.Nat.{min}
use btrader.Prelude.{
  ℕ, zero, suc, ◌+◌, ◌*◌, ◌/◌, ◌%◌, ◌-◌, Bool, true, false, not, ◌&&◌, ◌||◌, Option, none, some,
  List, [], ◌∷◌, ◌++◌, ltb, leb, ◌==◌, if◌then◌else◌, length, take,
}
use btrader.Prelude.Int.{ℤ, pos, negsuc}
use btrader.Prelude.Dict.{find, insert, erase}
use btrader.Double.{Double}
use btrader.CharArray.{Chars, text, assign, empty_array}
use btrader.Types.Enums.{
  InstrumentType, Side, Offset, HedgeFlag, PriceType, VolumeCondition, TimeCondition, OrderStatus,
  Direction, BrokerState, BrokerRespType, side2direction, is_buy, is_limit,
}
use btrader.Types.{
  Trade, Position, Asset, Order, OrderInput, OrderCancel, OrderActionResp, assign_order,
  order_from_input, date_len, instrument_id_len, exchange_id_len, external_id_len,
}
use btrader.PositionBook.{Positions, PositionBook, hash_instrument, side_of, with_side, get, set}

pub data Response {ℓ} (D : Type ℓ) : Type ℓ where
  action : OrderActionResp → Response D
  traded : Trade D → Response D

pub record BrokerSim {ℓ} (D : Type ℓ) : Type ℓ where
  pub active_orders : List (ℕ × Order D)
  pub asset : Asset D
  pub positions : PositionBook D
  pub commission_rate : D
  pub slippage_rate : D
  pub enable_slippage : Bool
  pub enable_commission : Bool
  pub running : Bool
  pub state : BrokerState
  pub responses : List (Response D)

-- The states in which an order can be cancelled.
abbrev pub cancellable : OrderStatus → Bool
cancellable OrderStatus.submitted = true
cancellable OrderStatus.pending = true
cancellable OrderStatus.partial_filled_active = true
cancellable _ = false

module _ {ℓ} {D : Type ℓ} ⦃d : Double D⦄ where
  -- An Order as the default constructor leaves it; its numbers are indeterminate in the source.
  unfoldable pub zero_order : Order D
  zero_order = record {
    order_id = 0;
    external_order_id = empty_array external_id_len;
    parent_id = 0;
    insert_time = 0;
    update_time = 0;
    trading_day = empty_array date_len;
    instrument_id = empty_array instrument_id_len;
    exchange_id = empty_array exchange_id_len;
    instrument_type = InstrumentType.unknown;
    limit_price = d.zero;
    frozen_price = d.zero;
    volume = d.zero;
    volume_left = d.zero;
    tax = d.zero;
    commission = d.zero;
    status = OrderStatus.unknown;
    error_id = pos 0;
    error_msg = empty_array 256;
    is_swap = false;
    side = Side.buy;
    offset = Offset.open_position;
    hedge_flag = HedgeFlag.speculation;
    price_type = PriceType.limit;
    volume_condition = VolumeCondition.any_volume;
    time_condition = TimeCondition.ioc;
  }

  unfoldable pub start : BrokerSim D → BrokerSim D
  start s = if s.running then s else record s { running = true; state = BrokerState.ready }

  unfoldable pub stop : BrokerSim D → BrokerSim D
  stop s = if s.running then record s { running = false; state = BrokerState.disconnected } else s

  unfoldable pub notify_response : Response D → BrokerSim D → BrokerSim D
  notify_response r s = record s { responses = s.responses ++ r ∷ [] }

  unfoldable pub add_order : Order D → BrokerSim D → BrokerSim D
  add_order o s = record s {
    active_orders =
        insert o.order_id
          (elim (find o.order_id s.active_orders) [
            | none ↦ assign_order zero_order o
            | some old ↦ assign_order old o
          ])
          s.active_orders;
  }

  unfoldable pub update_order_status : ℕ → ℕ → OrderStatus → BrokerSim D → BrokerSim D
  update_order_status now id status s = elim (find id s.active_orders) [
    | none ↦ s
    | some o ↦ record s {
      active_orders = insert id (record o { status = status; update_time = now }) s.active_orders;
    }
  ]

  unfoldable pub insert_order : OrderInput D → BrokerSim D → BrokerSim D × Bool
  insert_order input s =
      let order = record (order_from_input input zero_order) {
        status = OrderStatus.submitted;
        insert_time = input.insert_time;
        update_time = input.insert_time;
      } in
      if is_buy input.side && d.lt s.asset.avail (d.mul input.limit_price input.volume)
      then (s, false)
      else (add_order order s, true)

  -- The time is indeterminate in the source.
  abbrev pub cancel_response : OrderCancel D → ℤ → Response D
  cancel_response input error_id = action (record {
    order_id = input.target_order_id;
    external_order_id = empty_array external_id_len;
    order_action_id = input.order_id;
    error_id = error_id;
    error_msg = empty_array 256;
    insert_time = 0;
    resp_type = BrokerRespType.order_cancel;
  })

  unfoldable pub cancel_order : ℕ → OrderCancel D → BrokerSim D → BrokerSim D × Bool
  cancel_order now input s = elim (find input.target_order_id s.active_orders) [
    | none ↦ (notify_response (cancel_response input (negsuc 1)) s, false)
    | some o ↦
        if cancellable o.status
        then (
          notify_response (cancel_response input (pos 0))
              (update_order_status now input.target_order_id OrderStatus.cancelled s),
          true,
        )
        else (notify_response (cancel_response input (negsuc 0)) s, false)
  ]

  -- The funds and the fee after a trade.
  unfoldable pub update_asset : ℕ → Trade D → BrokerSim D → BrokerSim D
  update_asset now t s =
      let trade_value = d.mul t.price t.volume in
      let avail =
        if is_buy t.side
        then d.sub s.asset.avail trade_value
        else d.add s.asset.avail trade_value in
      let charged =
        if s.enable_commission
        then record (s.asset) {
          avail = d.sub avail t.commission;
          accumulated_fee = d.add s.asset.accumulated_fee t.commission;
        }
        else record (s.asset) { avail = avail } in
      record s { asset = record charged { update_time = now } }

  unfoldable pub update_existing_position : ℕ → Trade D → Position D → Position D
  update_existing_position now t p =
      let total_cost = d.mul p.volume p.position_cost_price in
      let new_cost = d.mul t.volume t.price in
      let total_volume = d.add p.volume t.volume in
      record p {
        update_time = now;
        position_cost_price =
            if d.lt d.zero total_volume
            then d.div (d.add total_cost new_cost) total_volume
            else p.position_cost_price;
        volume = d.add p.volume t.volume;
      }

  unfoldable pub new_position : ℕ → Trade D → Direction → Position D
  new_position now t dir = record {
    update_time = now;
    trading_day = assign (empty_array date_len) t.trading_day;
    instrument_id = assign (empty_array instrument_id_len) t.instrument_id;
    instrument_type = t.instrument_type;
    exchange_id = assign (empty_array exchange_id_len) t.exchange_id;
    direction = dir;
    volume = t.volume;
    position_cost_price = t.price;
    unrealized_pnl = d.zero;
  }

  unfoldable pub update_position : (List ℕ → ℕ) → ℕ → Trade D → BrokerSim D → BrokerSim D
  update_position hash now t s =
      let dir = side2direction t.side in
      record s {
        positions = elim (get hash t.instrument_id t.exchange_id dir s.positions) [
          | none ↦ set hash (new_position now t dir) s.positions
          | some p ↦
              with_side dir
                (insert (hash_instrument hash t.exchange_id t.instrument_id)
                  (update_existing_position now t p) (side_of dir s.positions))
                s.positions
        ];
      }
