-- ===== src/Binance/Broker.antt =====
-- broker/binance/binance_broker.cpp: what a BinanceBroker keeps, and its connection. `failed` says
-- that the client's open returns an error, and `waited` how many seconds pass before it connects,
-- where it does.
pub mod Params
pub mod Requests
pub mod Answers
use btrader.Prelude.{
  ℕ, ◌+◌, Bool, true, false, not, ◌&&◌, Option, none, some, List, [], ◌∷◌, ltb, if◌then◌else◌,
}
use btrader.Types.Enums.{BrokerState}
use btrader.Json.{Entry, absent, mistyped, given, contains}
use btrader.RequestBook.{RequestBook}

-- The message that the client is asked to write.
pub record BrokerMessage : Type 0 where
  pub id : List ℕ
  pub method : List ℕ
  pub params : List (List ℕ × List ℕ)

pub record BinanceBroker : Type 0 where
  pub public_key_str : List ℕ
  pub public_key : List ℕ
  pub secret_key : List ℕ
  pub uri : List ℕ
  pub is_connected : Bool
  pub should_reconnect : Bool
  pub connection_timeout_seconds : ℕ
  pub max_reconnect_attempts : ℕ
  pub reconnect_interval_ms : ℕ
  pub current_reconnect_attempts : ℕ
  pub req_book : RequestBook
  pub state : BrokerState
  pub sent : List BrokerMessage

-- "wss://ws-api.binance.com:443/ws-api/v3"
abbrev pub s_wss_endpoint : List ℕ
s_wss_endpoint =
    119 ∷ 115 ∷ 115 ∷ 58 ∷ 47 ∷ 47 ∷ 119 ∷ 115 ∷ 45 ∷ 97 ∷ 112 ∷ 105 ∷ 46 ∷ 98 ∷ 105 ∷ 110 ∷ 97
    ∷ 110 ∷ 99 ∷ 101 ∷ 46 ∷ 99 ∷ 111 ∷ 109 ∷ 58 ∷ 52 ∷ 52 ∷ 51 ∷ 47 ∷ 119 ∷ 115 ∷ 45 ∷ 97 ∷ 112
    ∷ 105 ∷ 47 ∷ 118 ∷ 51 ∷ []

unfoldable pub constructed : BinanceBroker
constructed = record {
  public_key_str = [];
  public_key = [];
  secret_key = [];
  uri = [];
  is_connected = false;
  should_reconnect = false;
  connection_timeout_seconds = 10;
  max_reconnect_attempts = 5;
  reconnect_interval_ms = 5000;
  current_reconnect_attempts = 0;
  req_book = [];
  state = BrokerState.pending;
  sent = [];
}

-- The entries of the settings.
pub record BrokerSettings : Type 0 where
  pub account : Entry (List ℕ)
  pub password : Entry (List ℕ)
  pub public_key_file : Entry (List ℕ)

unfoldable pub validate_config : BrokerSettings → Bool
validate_config cfg = contains cfg.account && contains cfg.password

-- EncrypKey(file, is_secret), none where it throws
module _ (read_key : List ℕ → Bool → Option (List ℕ)) where
  abbrev pub load_secret : Entry (List ℕ) → BinanceBroker → BinanceBroker × Bool
  load_secret (given file) s = elim (read_key file true) [
    | none ↦ (s, false)
    | some key ↦ (record s { secret_key = key }, true)
  ]
  load_secret _ s = (s, false)

  abbrev pub load_public : Entry (List ℕ) → Entry (List ℕ) → BinanceBroker → BinanceBroker × Bool
  load_public absent password s = load_secret password s
  load_public mistyped password s = (s, false)
  load_public (given file) password s = elim (read_key file false) [
    | none ↦ (s, false)
    | some key ↦ load_secret password (record s { public_key = key })
  ]

  abbrev pub load_account : Entry (List ℕ) → BrokerSettings → BinanceBroker → BinanceBroker × Bool
  load_account (given account) cfg s =
      load_public cfg.public_key_file cfg.password (record s { public_key_str = account })
  load_account _ cfg s = (s, false)

  -- The object, and whether nothing threw.
  unfoldable pub load_api_credentials : BrokerSettings → BinanceBroker → BinanceBroker × Bool
  load_api_credentials cfg s = load_account cfg.account cfg s

  abbrev pub with_uri : BinanceBroker × Bool → BinanceBroker × Bool
  with_uri (s, true) = (record s { uri = s_wss_endpoint }, true)
  with_uri (s, false) = (s, false)

  -- setup throws again what was thrown.
  unfoldable pub setup : BrokerSettings → BinanceBroker → BinanceBroker × Bool
  setup cfg s =
      if not (validate_config cfg) then (s, false) else with_uri (load_api_credentials cfg s)

unfoldable pub on_connect : BinanceBroker → BinanceBroker
on_connect s = record s {
  is_connected = true;
  should_reconnect = false;
  current_reconnect_attempts = 0;
  state = BrokerState.ready;
}

unfoldable pub on_disconnect : BinanceBroker → BinanceBroker
on_disconnect s = record s { is_connected = false; state = BrokerState.disconnected }

unfoldable pub on_error : BinanceBroker → BinanceBroker
on_error s = record s { is_connected = false; state = BrokerState.login_failed }

-- The connection that opens while establish_connection sleeps.
abbrev pub connect_while_waiting : Option ℕ → BinanceBroker → BinanceBroker
connect_while_waiting none s = s
connect_while_waiting (some waited) s =
    if s.is_connected
    then s
    else if ltb waited (s.connection_timeout_seconds + 1)
    then on_connect s
    else s

unfoldable pub establish_connection : Bool → Option ℕ → BinanceBroker → BinanceBroker × Bool
establish_connection failed waited s =
    let after = connect_while_waiting waited s in
    if failed then (s, false) else (after, after.is_connected)

-- start throws where this is false.
unfoldable pub start : Bool → Option ℕ → BinanceBroker → BinanceBroker × Bool
start failed waited s = establish_connection failed waited s

unfoldable pub stop : BinanceBroker → BinanceBroker
stop s = record s { should_reconnect = false; is_connected = false }

unfoldable pub handle_connection_timeout : BinanceBroker → BinanceBroker
handle_connection_timeout s = record s { is_connected = false; should_reconnect = true }

pub data ConnectionStatus : Type 0 where
  connected reconnecting disconnected : ConnectionStatus

unfoldable pub get_connection_status : BinanceBroker → ConnectionStatus
get_connection_status s =
    if s.is_connected then connected else if s.should_reconnect then reconnecting else disconnected

abbrev pub reconnected : BinanceBroker × Bool → BinanceBroker
reconnected (s, true) = record s { should_reconnect = false; current_reconnect_attempts = 0 }
reconnected (s, false) = s

unfoldable pub reconnect : Bool → Option ℕ → BinanceBroker → BinanceBroker
reconnect failed waited s =
    let tried = record s { current_reconnect_attempts = s.current_reconnect_attempts + 1 } in
    if not (ltb s.current_reconnect_attempts s.max_reconnect_attempts)
    then record s { should_reconnect = false }
    else reconnected (establish_connection failed waited tried)
