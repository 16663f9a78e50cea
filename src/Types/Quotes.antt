-- ===== src/Types/Quotes.antt =====
-- core/types.h: the quote of an instrument, with its ladders of 20 levels.
use btrader.Prelude.{ℕ, List, replicate}
use btrader.Double.{Double}
use btrader.CharArray.{Chars, empty_array}
use btrader.Types.{instrument_id_len, exchange_id_len, date_len}
use btrader.Types.Enums.{InstrumentType}

abbrev pub trading_phase_code_len : ℕ
trading_phase_code_len = 8

abbrev pub ladder_length : ℕ
ladder_length = 20

pub record Quote {ℓ} (D : Type ℓ) : Type ℓ where
  pub trading_day : Chars
  pub data_time : ℕ
  pub instrument_id : Chars
  pub exchange_id : Chars
  pub instrument_type : InstrumentType
  pub pre_close_price : D
  pub pre_settlement_price : D
  pub last_price : D
  pub volume : D
  pub turnover : D
  pub pre_open_interest : D
  pub open_interest : D
  pub open_price : D
  pub high_price : D
  pub low_price : D
  pub upper_limit_price : D
  pub lower_limit_price : D
  pub close_price : D
  pub settlement_price : D
  pub iopv : D
  pub bid_price : List D
  pub ask_price : List D
  pub bid_volume : List D
  pub ask_volume : List D
  pub real_depth_size : ℕ
  pub trading_phase_code : Chars

-- `Quote q;`: the arrays are zeroes, and the numbers what the memory holds.
unfoldable pub new_quote {ℓ} : {D : Type ℓ} ⦃d : Double D⦄ → Quote D → Quote D
new_quote ⦃d⦄ memory = record memory {
  trading_day = empty_array date_len;
  instrument_id = empty_array instrument_id_len;
  exchange_id = empty_array exchange_id_len;
  bid_price = replicate ladder_length d.zero;
  ask_price = replicate ladder_length d.zero;
  bid_volume = replicate ladder_length d.zero;
  ask_volume = replicate ladder_length d.zero;
  real_depth_size = ladder_length;
  trading_phase_code = empty_array trading_phase_code_len;
}
