-- ===== src/Binance/Streams.antt =====
-- binance_data.cpp: the names of the streams, and the URI that asks for them.
use btrader.Prelude.{ℕ, List, [], ◌∷◌, ◌++◌, map, if◌then◌else◌}
use btrader.CharArray.{text}
use btrader.Binance.{lower, signed_decimal}
use btrader.Binance.Data.{InstrumentKey, BinanceData}

-- "wss://stream.binance.com:443"
abbrev pub s_ws_stream_prefix : List ℕ
s_ws_stream_prefix =
    119 ∷ 115 ∷ 115 ∷ 58 ∷ 47 ∷ 47 ∷ 115 ∷ 116 ∷ 114 ∷ 101 ∷ 97 ∷ 109 ∷ 46 ∷ 98 ∷ 105 ∷ 110 ∷ 97
    ∷ 110 ∷ 99 ∷ 101 ∷ 46 ∷ 99 ∷ 111 ∷ 109 ∷ 58 ∷ 52 ∷ 52 ∷ 51 ∷ []

-- "/stream?streams="
abbrev pub streams_query : List ℕ
streams_query =
    47 ∷ 115 ∷ 116 ∷ 114 ∷ 101 ∷ 97 ∷ 109 ∷ 63 ∷ 115 ∷ 116 ∷ 114 ∷ 101 ∷ 97 ∷ 109 ∷ 115 ∷ 61 ∷ []

-- "btcusdt@kline_1s/btcusdt@depth20"
abbrev pub fallback_streams : List ℕ
fallback_streams =
    98 ∷ 116 ∷ 99 ∷ 117 ∷ 115 ∷ 100 ∷ 116 ∷ 64 ∷ 107 ∷ 108 ∷ 105 ∷ 110 ∷ 101 ∷ 95 ∷ 49 ∷ 115 ∷ 47
    ∷ 98 ∷ 116 ∷ 99 ∷ 117 ∷ 115 ∷ 100 ∷ 116 ∷ 64 ∷ 100 ∷ 101 ∷ 112 ∷ 116 ∷ 104 ∷ 50 ∷ 48 ∷ []

-- symbol@kline_ and the interval
unfoldable pub kline_stream : BinanceData → List ℕ → List ℕ
kline_stream s symbol = symbol ++ ((64 ∷ 107 ∷ 108 ∷ 105 ∷ 110 ∷ 101 ∷ 95 ∷ []) ++ s.kline_interval)

-- symbol@depth and the number of levels
unfoldable pub depth_stream : BinanceData → List ℕ → List ℕ
depth_stream s symbol =
    symbol ++ ((64 ∷ 100 ∷ 101 ∷ 112 ∷ 116 ∷ 104 ∷ []) ++ signed_decimal s.depth_levels)

-- The streams of one symbol, as far as they are enabled, before others.
unfoldable pub streams_before : BinanceData → List ℕ → List (List ℕ) → List (List ℕ)
streams_before s symbol others =
    let with_depth = if s.enable_depth then depth_stream s symbol ∷ others else others in
    if s.enable_kline then kline_stream s symbol ∷ with_depth else with_depth

unfoldable pub streams_of : BinanceData → List (List ℕ) → List (List ℕ)
streams_of s [] = []
streams_of s (symbol ∷ symbols) = streams_before s symbol (streams_of s symbols)

-- The streams with "/" between them.
unfoldable pub join : List (List ℕ) → List ℕ
join [] = []
join (x ∷ []) = x
join (x ∷ y ∷ xs) = x ++ (47 ∷ join (y ∷ xs))

unfoldable pub uri_for : List (List ℕ) → List ℕ
uri_for streams = (s_ws_stream_prefix ++ streams_query) ++ join streams

abbrev pub uri_or : List (List ℕ) → List ℕ → List ℕ
uri_or [] current = current
uri_or (x ∷ xs) current = uri_for (x ∷ xs)

unfoldable pub update_streams_uri : List (List ℕ) → BinanceData → BinanceData
update_streams_uri symbols s = record s { uri = uri_or (streams_of s symbols) s.uri }

-- The identifier of the instrument in lower case.
unfoldable pub symbol_of : InstrumentKey → List ℕ
symbol_of k = lower (text k.instrument_id)

unfoldable pub get_subscribed_symbols : BinanceData → List (List ℕ)
get_subscribed_symbols s = map symbol_of s.subscribed_instruments

unfoldable pub update_streams_uri_from_subscribed : BinanceData → BinanceData
update_streams_uri_from_subscribed s = update_streams_uri (map symbol_of s.subscribed_instruments) s

abbrev pub default_uri : List (List ℕ) → List ℕ
default_uri [] = (s_ws_stream_prefix ++ streams_query) ++ fallback_streams
default_uri (x ∷ xs) = uri_for (x ∷ xs)

unfoldable pub set_default_streams : BinanceData → BinanceData
set_default_streams s = record s { uri = default_uri (streams_before s s.default_symbol []) }
