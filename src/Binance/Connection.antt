-- ===== src/Binance/Connection.antt =====
-- binance_data.cpp: the settings and the connection. `failed` says that the client's open returns an
-- error; that a connection opens or closes is an event of its own.
use btrader.Prelude.{
  ℕ, ◌+◌, ◌-◌, Bool, true, false, not, Option, none, some, List, [], ◌∷◌, ltb, if◌then◌else◌,
}
use btrader.Prelude.Int.{ℤ, pos, ltb_ℤ}
use btrader.Json.{Entry, absent, mistyped, given, apply_entry}
use btrader.Binance.Data.{BinanceData}
use btrader.Binance.Streams.{set_default_streams}
use btrader.Binance.Runs.{Call, step}

-- The entries of "extra".
pub record Extra : Type 0 where
  pub stream_uri : Entry (List ℕ)
  pub symbol : Entry (List ℕ)
  pub enable_kline : Entry Bool
  pub enable_depth : Entry Bool
  pub kline_interval : Entry (List ℕ)
  pub depth_levels : Entry ℤ
  pub reconnect_interval_ms : Entry ℤ
  pub max_reconnect_attempts : Entry ℤ

-- The URI, which is looked at first.
unfoldable pub set_stream_uri : Entry (List ℕ) → BinanceData → BinanceData × Bool
set_stream_uri absent s = (set_default_streams s, true)
set_stream_uri mistyped s = (s, false)
set_stream_uri (given u) s = (record s { uri = u }, true)

unfoldable pub parse_extra : Extra → BinanceData → BinanceData × Bool
parse_extra j s =
    apply_entry j.max_reconnect_attempts (λ n s. record s { max_reconnect_attempts = n })
      (apply_entry j.reconnect_interval_ms (λ n s. record s { reconnect_interval_ms = n })
        (apply_entry j.depth_levels (λ n s. record s { depth_levels = n })
          (apply_entry j.kline_interval (λ i s. record s { kline_interval = i })
            (apply_entry j.enable_depth (λ b s. record s { enable_depth = b })
              (apply_entry j.enable_kline (λ b s. record s { enable_kline = b })
                (apply_entry j.symbol (λ n s. record s { default_symbol = n })
                  (set_stream_uri j.stream_uri s)))))))

-- An entry that throws leaves what was read before it, and the default streams.
unfoldable pub setup : Option Extra → BinanceData → BinanceData
setup none s = set_default_streams s
setup (some j) s =
    let (parsed, complete) = parse_extra j s in
    if complete then parsed else set_default_streams parsed

-- client_.open(uri_)
abbrev pub open_client : BinanceData → BinanceData
open_client s = record s { opened = s.uri ∷ s.opened }

unfoldable pub start : Bool → BinanceData → BinanceData
start failed s =
    if failed then record (open_client s) { should_reconnect = true } else record (open_client s) {
      is_connected = true;
      should_reconnect = false;
      current_reconnect_attempts = 0;
    }

unfoldable pub stop : BinanceData → BinanceData
stop s = record s { should_reconnect = false; is_connected = false }

unfoldable pub on_connect : BinanceData → BinanceData
on_connect s = record s {
  is_connected = true;
  should_reconnect = false;
  current_reconnect_attempts = 0;
}

-- A thread is started that sleeps before it reconnects.
unfoldable pub on_disconnect : BinanceData → BinanceData
on_disconnect s =
    let lost = record s { is_connected = false } in
    if s.should_reconnect then record lost { sleeping = s.sleeping + 1 } else lost

unfoldable pub on_error : BinanceData → BinanceData
on_error s = record s { is_connected = false }

unfoldable pub reconnect : Bool → BinanceData → BinanceData × Bool
reconnect failed s =
    let tried =
      open_client (record s { current_reconnect_attempts = s.current_reconnect_attempts + 1 }) in
    if not (ltb_ℤ (pos s.current_reconnect_attempts) s.max_reconnect_attempts)
    then (record s { should_reconnect = false }, false)
    else if failed
    then (tried, false)
    else (tried, true)

-- What a thread does when it wakes.
unfoldable pub wake : Bool → BinanceData → BinanceData
wake failed s =
    let awake = record s { sleeping = s.sleeping - 1 } in
    if s.should_reconnect then (reconnect failed awake).0 else awake

-- What can happen to the object once it is set up; only a thread that sleeps wakes. The client reopens
-- a connection that is lost by itself (setReconnect in infra/websocket_client.cpp), at the URI that it
-- was last opened with: that is a disconnecting and then a connecting, and no open of the service.
pub data Event : Type 0 where
  starting waking : Bool → Event
  stopping connecting disconnecting failing : Event
  calling : Call → Event

unfoldable pub happen : Event → BinanceData → BinanceData
happen (starting failed) s = start failed s
happen (waking failed) s = if ltb 0 s.sleeping then wake failed s else s
happen stopping s = stop s
happen connecting s = on_connect s
happen disconnecting s = on_disconnect s
happen failing s = on_error s
happen (calling c) s = (step c s).0

unfoldable pub history : List Event → BinanceData → BinanceData
history [] s = s
history (e ∷ events) s = history events (happen e s)
