-- ===== src/Tests/Feeds.antt =====
-- A depth message and a closed kline, as a Binance service takes them, and an order of a broker.
use btrader.Prelude.{
  ℕ, ◌*◌, ◌-◌, ◌≡◌, refl, true, false, Option, none, some, List, [], ◌∷◌, ◌++◌, map, arith,
  if◌then◌else◌,
}
use btrader.Prelude.Int.{pos}
use btrader.Json.{given, absent, found}
use btrader.CharArray.{assign, empty_array}
use btrader.Types.Enums.{
  InstrumentType, Side, Offset, HedgeFlag, PriceType, VolumeCondition, TimeCondition,
}
use btrader.Types.{date_len, instrument_id_len, exchange_id_len, Bar, OrderInput}
use btrader.Types.Quotes.{Quote}
use btrader.Tests.Tenths.{tenths}
use btrader.Tests.Exchanges.{online}
use btrader.Binance.{decimal}
use btrader.Binance.Data
use btrader.Binance.Feed.{
  Kline, Message, Written, bar, quote, binance, validate_json_data, get_mdtype, is_within,
  starts_with, process_kline_data, bar_from, price_of, safe_string_to_double, on_msg,
  process_depth_data,
}
use btrader.Binance.Connection.{on_connect}
use btrader.Binance.Ladders.{item_of, quote_of, process_depth_data-quote_of}
use btrader.Binance.Guards.{IsWarranted, on_msg-IsWarranted}
use btrader.Binance.Broker.{BinanceBroker, constructed}
use btrader.Binance.Broker.Requests.{stoull}
use btrader.Binance.Decimals.{stoull-decimal}
use btrader.Binance.Broker.Answers.{
  inserting, type_of, answer, answer_after, perform, perform-answer,
}

-- One digit, in tenths; other texts are no number.
abbrev pub stod : List ℕ → Option ℕ
stod (c ∷ []) = some (10 * (c - 48))
stod _ = none

abbrev pub memory_bar : Bar ℕ
memory_bar = record {
  trading_day = [];
  instrument_id = [];
  exchange_id = [];
  instrument_type = InstrumentType.unknown;
  start_time = 0;
  end_time = 0;
  open_price = 7;
  close = 7;
  low = 7;
  high = 7;
  volume = 7;
  start_volume = 7;
  tick_count = 7;
}

abbrev memory_quote : Quote ℕ
memory_quote = record {
  trading_day = [];
  data_time = 3;
  instrument_id = [];
  exchange_id = [];
  instrument_type = InstrumentType.unknown;
  pre_close_price = 3;
  pre_settlement_price = 3;
  last_price = 3;
  volume = 3;
  turnover = 3;
  pre_open_interest = 3;
  open_interest = 3;
  open_price = 3;
  high_price = 3;
  low_price = 3;
  upper_limit_price = 3;
  lower_limit_price = 3;
  close_price = 3;
  settlement_price = 3;
  iopv = 3;
  bid_price = [];
  ask_price = [];
  bid_volume = [];
  ask_volume = [];
  real_depth_size = 3;
  trading_phase_code = [];
}

abbrev bids : List (Option (List ℕ × List ℕ))
bids = some (53 ∷ [], 50 ∷ []) ∷ none ∷ some (52 ∷ [], 120 ∷ 120 ∷ []) ∷ []

abbrev asks : List (Option (List ℕ × List ℕ))
asks = some (54 ∷ [], 49 ∷ []) ∷ []

-- btc@depth
abbrev depth_stream : List ℕ
depth_stream = 98 ∷ 116 ∷ 99 ∷ 64 ∷ 100 ∷ 101 ∷ 112 ∷ 116 ∷ 104 ∷ 50 ∷ 48 ∷ []

abbrev depth_message : Message
depth_message = record {
  is_empty = false;
  is_json = true;
  stream = given depth_stream;
  has_data = true;
  symbol = absent;
  kline = none;
  bids = some (map item_of bids);
  asks = some (map item_of asks);
}

process_depth_data-quote_of_example :
    process_depth_data stod true memory_quote depth_message
    ≡ found (
      true,
      if true then some (quote (quote_of stod memory_quote depth_stream bids asks)) else none,
    )
process_depth_data-quote_of_example =
    process_depth_data-quote_of stod true memory_quote depth_message depth_stream bids asks refl
      refl refl refl

abbrev closed_kline : Kline
closed_kline = record {
  x = given true;
  start_time = given 100;
  end_time = given 160;
  open_price = given (53 ∷ []);
  close = given (54 ∷ []);
  high = given (55 ∷ []);
  low = given (52 ∷ []);
  volume = given (57 ∷ []);
}

abbrev kline_message : Message
kline_message = record {
  is_empty = false;
  is_json = true;
  stream = given (98 ∷ 116 ∷ 99 ∷ 64 ∷ 107 ∷ 108 ∷ 105 ∷ 110 ∷ 101 ∷ 95 ∷ 49 ∷ 115 ∷ []);
  has_data = true;
  symbol = given (66 ∷ 84 ∷ 67 ∷ []);
  kline = some closed_kline;
  bids = none;
  asks = none;
}

abbrev written_bar : Written ℕ
written_bar = bar (record memory_bar {
  trading_day = empty_array date_len;
  instrument_id = assign (empty_array instrument_id_len) ((66 ∷ 84 ∷ 67 ∷ []) ++ (0 ∷ []));
  exchange_id = assign (empty_array exchange_id_len) binance;
  start_time = 100;
  end_time = 160;
  open_price = 50;
  close = 60;
  high = 70;
  low = 40;
  volume = 90;
})

is_written :
    on_msg stod true memory_bar memory_quote online kline_message ≡ found (some written_bar)
unfolding on_msg online on_connect Data.constructed validate_json_data get_mdtype is_within
    starts_with process_kline_data bar_from price_of safe_string_to_double
is_written = refl

on_msg-IsWarranted_example : IsWarranted online kline_message written_bar
on_msg-IsWarranted_example =
    on_msg-IsWarranted stod true memory_bar memory_quote online kline_message written_bar is_written

abbrev input : OrderInput ℕ
input = record {
  order_id = 42;
  parent_id = 0;
  instrument_id = 66 ∷ 84 ∷ 67 ∷ 0 ∷ [];
  exchange_id = 98 ∷ 0 ∷ [];
  instrument_type = InstrumentType.crypto;
  limit_price = 50;
  frozen_price = 0;
  volume = 20;
  is_swap = false;
  side = Side.buy;
  offset = Offset.open_position;
  hedge_flag = HedgeFlag.speculation;
  price_type = PriceType.limit;
  volume_condition = VolumeCondition.any_volume;
  time_condition = TimeCondition.gtc;
  block_id = 0;
  insert_time = 1;
}

abbrev broker : BinanceBroker
unfolding constructed
broker = record constructed { is_connected = true }

-- A signature that is the text itself.
abbrev sign : List ℕ → List ℕ → Option (List ℕ)
sign key text = some text

perform-answer_example :
    answer 42 (perform sign decimal (pos 9) 5 (inserting input) broker).0
    ≡ answer_after 42 42
        (type_of (inserting input))
        (perform sign decimal (pos 9) 5 (inserting input) broker).1
        (answer 42 broker)
perform-answer_example =
    perform-answer sign decimal (pos 9) 5 (inserting input) 42 broker (omega arith)

stoull-decimal_example : stoull (decimal 1234567) ≡ some 1234567
stoull-decimal_example = stoull-decimal 1234567 (omega arith)
