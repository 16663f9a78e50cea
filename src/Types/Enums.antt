-- ===== src/Types/Enums.antt =====
-- core/enums.h: the enumerations that the trading code reads.
use btrader.Prelude.{ℕ, Bool, true, false}

pub data InstrumentType : Type 0 where
  unknown stock future bond stock_option tech_stock fund index repo warrant iopt crypto :
      InstrumentType

pub data Side : Type 0 where
  buy sell lock unlock exec drop_exec purchase redemption split merge margin_trade short_sell : Side
  repay_margin repay_stock cash_repay_margin stock_repay_stock surplus_stock_transfer : Side
  guarantee_stock_transfer_in guarantee_stock_transfer_out unknown : Side

pub data Offset : Type 0 where
  open_position close_position close_today close_yesterday : Offset

pub data HedgeFlag : Type 0 where
  speculation arbitrage hedge covered : HedgeFlag

pub data PriceType : Type 0 where
  limit any fak_best5 forward_best reverse_best fak fok unknown : PriceType

pub data VolumeCondition : Type 0 where
  any_volume min_volume all_volume : VolumeCondition

pub data TimeCondition : Type 0 where
  ioc gfd gtc fok : TimeCondition

pub data OrderStatus : Type 0 where
  unknown submitted pending cancelled error filled : OrderStatus
  partial_filled_not_active partial_filled_active lost : OrderStatus

pub data Direction : Type 0 where
  long short unknown : Direction

pub data BrokerState : Type 0 where
  pending idle disconnected connected logged_in login_failed ready : BrokerState

pub data BrokerRespType : Type 0 where
  unknown order_place order_cancel : BrokerRespType

unfoldable pub side2direction : Side → Direction
side2direction Side.buy = Direction.long
side2direction Side.sell = Direction.short
side2direction _ = Direction.unknown

abbrev pub is_buy : Side → Bool
is_buy Side.buy = true
is_buy _ = false

abbrev pub is_sell : Side → Bool
is_sell Side.sell = true
is_sell _ = false

abbrev pub is_open : Offset → Bool
is_open Offset.open_position = true
is_open _ = false

abbrev pub is_close : Offset → Bool
is_close Offset.close_position = true
is_close _ = false

abbrev pub is_limit : PriceType → Bool
is_limit PriceType.limit = true
is_limit _ = false

abbrev pub is_long : Direction → Bool
is_long Direction.long = true
is_long _ = false

-- The numbers of the enumerators, by which two statuses are compared.
abbrev pub status_code : OrderStatus → ℕ
status_code OrderStatus.unknown = 0
status_code OrderStatus.submitted = 1
status_code OrderStatus.pending = 2
status_code OrderStatus.cancelled = 3
status_code OrderStatus.error = 4
status_code OrderStatus.filled = 5
status_code OrderStatus.partial_filled_not_active = 6
status_code OrderStatus.partial_filled_active = 7
status_code OrderStatus.lost = 8
