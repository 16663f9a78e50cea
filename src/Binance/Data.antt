-- ===== src/Binance/Data.antt =====
-- broker/binance/binance_data.h: what a BinanceData keeps. What it sends to the client and to its
-- customer's journal is recorded, newest first, and so is how many threads sleep before a reconnect.
use btrader.Prelude.{ℕ, Bool, true, false, List, [], ◌∷◌}
use btrader.Prelude.Int.{ℤ, pos}
use btrader.CharArray.{Chars}
use btrader.Types.Enums.{InstrumentType}

-- InstrumentKey of core/types.h
pub record InstrumentKey : Type 0 where
  pub key : ℕ
  pub instrument_id : Chars
  pub exchange_id : Chars
  pub instrument_type : InstrumentType

-- "SUBSCRIBE" and "UNSUBSCRIBE"
pub data Method : Type 0 where
  subscribe_method unsubscribe_method : Method

-- The message that the client is asked to write.
pub record Request : Type 0 where
  pub method : Method
  pub params : List (List ℕ)
  pub id : ℕ

pub record BinanceData : Type 0 where
  pub uri : List ℕ
  pub default_symbol : List ℕ
  pub is_connected : Bool
  pub should_reconnect : Bool
  pub reconnect_interval_ms : ℤ
  pub max_reconnect_attempts : ℤ
  pub current_reconnect_attempts : ℕ
  pub enable_kline : Bool
  pub enable_depth : Bool
  pub kline_interval : List ℕ
  pub depth_levels : ℤ
  pub subscribed_instruments : List InstrumentKey
  pub subscription_id_counter : ℕ
  pub sent : List Request
  pub opened : List (List ℕ)
  pub sleeping : ℕ

-- "btcusdt"
abbrev pub btcusdt : List ℕ
btcusdt = 98 ∷ 116 ∷ 99 ∷ 117 ∷ 115 ∷ 100 ∷ 116 ∷ []

-- "1s"
abbrev pub one_second : List ℕ
one_second = 49 ∷ 115 ∷ []

unfoldable pub constructed : BinanceData
constructed = record {
  uri = [];
  default_symbol = btcusdt;
  is_connected = false;
  should_reconnect = false;
  reconnect_interval_ms = pos 5000;
  max_reconnect_attempts = pos 10;
  current_reconnect_attempts = 0;
  enable_kline = true;
  enable_depth = true;
  kline_interval = one_second;
  depth_levels = pos 20;
  subscribed_instruments = [];
  subscription_id_counter = 1000;
  sent = [];
  opened = [];
  sleeping = 0;
}
