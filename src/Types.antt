-- ===== src/Types.antt =====
-- core/types.h: the records that the engines exchange, and order_from_input of core/types.cpp.
-- Times, ids and error codes are numbers; `D` is the type of a double, which VolumeType is too.
pub mod Enums
pub mod Quotes
pub mod Products
use btrader.Prelude.{ℕ, Bool, false, List}
use btrader.Prelude.Int.{ℤ, pos}
use btrader.Double.{Double}
use btrader.CharArray.{Chars, assign, empty_array}
use Enums.{
  InstrumentType, Side, Offset, HedgeFlag, PriceType, VolumeCondition, TimeCondition, OrderStatus,
  Direction, BrokerRespType,
}

abbrev pub instrument_id_len : ℕ
instrument_id_len = 32

abbrev pub exchange_id_len : ℕ
exchange_id_len = 16

abbrev pub date_len : ℕ
date_len = 9

abbrev pub external_id_len : ℕ
external_id_len = 32

pub record Trade {ℓ} (D : Type ℓ) : Type ℓ where
  pub trade_id : ℕ
  pub order_id : ℕ
  pub external_order_id : Chars
  pub external_trade_id : Chars
  pub trade_time : ℕ
  pub trading_day : Chars
  pub instrument_id : Chars
  pub exchange_id : Chars
  pub instrument_type : InstrumentType
  pub side : Side
  pub offset : Offset
  pub hedge_flag : HedgeFlag
  pub price : D
  pub volume : D
  pub tax : D
  pub commission : D

pub record Position {ℓ} (D : Type ℓ) : Type ℓ where
  pub update_time : ℕ
  pub trading_day : Chars
  pub instrument_id : Chars
  pub instrument_type : InstrumentType
  pub exchange_id : Chars
  pub direction : Direction
  pub volume : D
  pub position_cost_price : D
  pub unrealized_pnl : D

-- The copy of a struct copies its arrays by their operator=.
unfoldable pub assign_position {ℓ} : {D : Type ℓ} → Position D → Position D → Position D
assign_position old p = record p {
  trading_day = assign old.trading_day p.trading_day;
  instrument_id = assign old.instrument_id p.instrument_id;
  exchange_id = assign old.exchange_id p.exchange_id;
}

-- Position{}
unfoldable pub zero_position {ℓ} : {D : Type ℓ} ⦃d : Double D⦄ → Position D
zero_position ⦃d⦄ = record {
  update_time = 0;
  trading_day = empty_array date_len;
  instrument_id = empty_array instrument_id_len;
  instrument_type = InstrumentType.unknown;
  exchange_id = empty_array exchange_id_len;
  direction = Direction.long;
  volume = d.zero;
  position_cost_price = d.zero;
  unrealized_pnl = d.zero;
}

pub record Bar {ℓ} (D : Type ℓ) : Type ℓ where
  pub trading_day : Chars
  pub instrument_id : Chars
  pub exchange_id : Chars
  pub instrument_type : InstrumentType
  pub start_time : ℕ
  pub end_time : ℕ
  pub open_price : D
  pub close : D
  pub low : D
  pub high : D
  pub volume : D
  pub start_volume : D
  pub tick_count : ℕ

pub record Asset {ℓ} (D : Type ℓ) : Type ℓ where
  pub update_time : ℕ
  pub trading_day : Chars
  pub avail : D
  pub margin : D
  pub accumulated_fee : D

pub record OrderInput {ℓ} (D : Type ℓ) : Type ℓ where
  pub order_id : ℕ
  pub parent_id : ℕ
  pub instrument_id : Chars
  pub exchange_id : Chars
  pub instrument_type : InstrumentType
  pub limit_price : D
  pub frozen_price : D
  pub volume : D
  pub is_swap : Bool
  pub side : Side
  pub offset : Offset
  pub hedge_flag : HedgeFlag
  pub price_type : PriceType
  pub volume_condition : VolumeCondition
  pub time_condition : TimeCondition
  pub block_id : ℕ
  pub insert_time : ℕ

pub record OrderCancel {ℓ} (D : Type ℓ) : Type ℓ where
  pub instrument_id : Chars
  pub order_id : ℕ
  pub target_order_id : ℕ
  pub price : D
  pub volume : D
  pub insert_time : ℕ

pub record OrderActionResp : Type 0 where
  pub order_id : ℕ
  pub external_order_id : Chars
  pub order_action_id : ℕ
  pub error_id : ℤ
  pub error_msg : Chars
  pub insert_time : ℕ
  pub resp_type : BrokerRespType

pub record Order {ℓ} (D : Type ℓ) : Type ℓ where
  pub order_id : ℕ
  pub external_order_id : Chars
  pub parent_id : ℕ
  pub insert_time : ℕ
  pub update_time : ℕ
  pub trading_day : Chars
  pub instrument_id : Chars
  pub exchange_id : Chars
  pub instrument_type : InstrumentType
  pub limit_price : D
  pub frozen_price : D
  pub volume : D
  pub volume_left : D
  pub tax : D
  pub commission : D
  pub status : OrderStatus
  pub error_id : ℤ
  pub error_msg : Chars
  pub is_swap : Bool
  pub side : Side
  pub offset : Offset
  pub hedge_flag : HedgeFlag
  pub price_type : PriceType
  pub volume_condition : VolumeCondition
  pub time_condition : TimeCondition

-- The copy of an order.
unfoldable pub assign_order {ℓ} : {D : Type ℓ} → Order D → Order D → Order D
assign_order old o = record o {
  external_order_id = assign old.external_order_id o.external_order_id;
  trading_day = assign old.trading_day o.trading_day;
  instrument_id = assign old.instrument_id o.instrument_id;
  exchange_id = assign old.exchange_id o.exchange_id;
  error_msg = assign old.error_msg o.error_msg;
}

unfoldable pub order_from_input {ℓ} : {D : Type ℓ} → OrderInput D → Order D → Order D
order_from_input input order = record order {
  order_id = input.order_id;
  instrument_id = assign order.instrument_id input.instrument_id;
  exchange_id = assign order.exchange_id input.exchange_id;
  instrument_type = input.instrument_type;
  limit_price = input.limit_price;
  frozen_price = input.frozen_price;
  volume = input.volume;
  volume_left = input.volume;
  status = OrderStatus.pending;
  side = input.side;
  offset = input.offset;
  is_swap = input.is_swap;
  hedge_flag = input.hedge_flag;
  price_type = input.price_type;
  volume_condition = input.volume_condition;
  time_condition = input.time_condition;
  parent_id = input.parent_id;
}

-- InstrumentDepth<N>; the four arrays as lists.
pub record InstrumentDepth {ℓ} (D : Type ℓ) : Type ℓ where
  pub real_depth_size : ℕ
  pub instrument_id : Chars
  pub exchange_id : Chars
  pub bid_price : List D
  pub ask_price : List D
  pub bid_volume : List D
  pub ask_volume : List D
