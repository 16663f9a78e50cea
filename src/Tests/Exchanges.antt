-- ===== src/Tests/Exchanges.antt =====
-- A Binance service, what happens to it, and the requests of a broker.
use btrader.Prelude.{◌≡◌, ◌≤◌, ◌+◌, length, refl, true, false, some, List, [], ◌∷◌, map}
use btrader.Prelude.Int.{pos, negsuc}
use btrader.Json.{given, absent}
use btrader.Types.Enums.{InstrumentType}
use btrader.Tests.Tenths.{tenths}
use btrader.Binance.Data.{InstrumentKey, BinanceData, constructed}
use btrader.Binance.Bags.{count}
use btrader.Binance.Runs.{Call, subscribing, unsubscribing, run, accepted, held_after, run-count}
use btrader.Binance.Connection.{
  Extra, setup, start, parse_extra, on_connect, Event, disconnecting, waking, failing, history,
  happen, on_disconnect, on_error, wake, reconnect, set_stream_uri,
}
use btrader.Binance.Streams.{set_default_streams}
use btrader.Binance.Defaults.{setup-uri}
use btrader.Binance.Reconnects.{attempts_left, renews, RenewsNothing, history-opens}

abbrev btc : InstrumentKey
btc = record {
  key = 1;
  instrument_id = 66 ∷ 84 ∷ 67 ∷ 0 ∷ [];
  exchange_id = 98 ∷ 0 ∷ [];
  instrument_type = InstrumentType.crypto;
}

abbrev eth : InstrumentKey
eth = record btc { key = 2; instrument_id = 69 ∷ 84 ∷ 72 ∷ 0 ∷ [] }

unfoldable pub online : BinanceData
unfolding constructed on_connect
online = on_connect constructed

abbrev calls : List Call
calls =
    subscribing (pos 9) (btc ∷ eth ∷ [])
    ∷ unsubscribing (negsuc 0) (btc ∷ [])
    ∷ unsubscribing (pos 5) (btc ∷ [])
    ∷ []

run-count_example :
    (count (66 ∷ 84 ∷ 67 ∷ []) (run calls online).0.subscribed_instruments
      ≡ held_after online
          (66 ∷ 84 ∷ 67 ∷ [])
          calls
          (count (66 ∷ 84 ∷ 67 ∷ []) online.subscribed_instruments))
    × ((run calls online).1 ≡ map (accepted online) calls)
run-count_example = run-count calls online (66 ∷ 84 ∷ 67 ∷ [])

-- The settings name a symbol and no URI.
abbrev extra : Extra
extra = record {
  stream_uri = absent;
  symbol = given (101 ∷ 116 ∷ 104 ∷ []);
  enable_kline = absent;
  enable_depth = given false;
  kline_interval = absent;
  depth_levels = absent;
  reconnect_interval_ms = absent;
  max_reconnect_attempts = given (pos 3);
}

-- Three attempts that fail, and a fourth thread that wakes.
abbrev events : List Event
events =
    disconnecting
    ∷ waking true
    ∷ failing
    ∷ disconnecting
    ∷ waking true
    ∷ disconnecting
    ∷ waking true
    ∷ disconnecting
    ∷ waking true
    ∷ []

events-RenewsNothing : RenewsNothing events
unfolding RenewsNothing renews
events-RenewsNothing = (refl, (refl, (refl, (refl, (refl, (refl, (refl, (refl, (refl, tt)))))))))

-- A start that failed, with three attempts allowed.
abbrev off : BinanceData
off = start true (record constructed { max_reconnect_attempts = pos 3 })

history-opens_example :
    length (history events off).opened
    ≤ length off.opened + attempts_left off.max_reconnect_attempts off.current_reconnect_attempts
history-opens_example = history-opens events off events-RenewsNothing

all_three : length (history events off).opened ≡ 4
unfolding history happen start on_disconnect on_error wake reconnect constructed
all_three = refl

extra_complete : (parse_extra extra constructed).1 ≡ true
unfolding parse_extra set_stream_uri
extra_complete = refl

setup-uri_example : (setup (some extra) constructed).uri ≡ (set_default_streams constructed).uri
setup-uri_example = setup-uri extra constructed refl extra_complete
