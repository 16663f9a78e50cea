-- ===== src/Binance/Subscriptions.antt =====
-- binance_data.cpp: subscribe, unsubscribe, and the queries of the subscriptions. `result` is what
-- the client returns for the write.
use btrader.Prelude.{
  ℕ, ◌+◌, ◌%◌, ◌^◌, Bool, true, false, not, ◌||◌, List, [], ◌∷◌, ◌++◌, map, if◌then◌else◌,
}
use btrader.Prelude.Int.{ℤ, pos, ltb_ℤ}
use btrader.CharArray.{text}
use btrader.KeyedBook.{same_text}
use btrader.Binance.{lower}
use btrader.Binance.Data.{InstrumentKey, Method, subscribe_method, unsubscribe_method, BinanceData}
use btrader.Binance.Streams.{
  streams_before, streams_of, symbol_of, update_streams_uri, update_streams_uri_from_subscribed,
  set_default_streams, get_subscribed_symbols,
}

abbrev pub is_empty {ℓ} : {A : Type ℓ} → List A → Bool
is_empty [] = true
is_empty (x ∷ xs) = false

-- std::find in a list of symbols
unfoldable pub is_among : List ℕ → List (List ℕ) → Bool
is_among symbol [] = false
is_among symbol (x ∷ xs) = same_text x symbol || is_among symbol xs

-- The loop of subscribe: the symbols and the streams that it appends.
unfoldable pub collect :
    BinanceData → List InstrumentKey → List (List ℕ) → List (List ℕ) → List (List ℕ) × List (List ℕ)
collect s [] symbols streams = (symbols, streams)
collect s (k ∷ keys) symbols streams =
    let symbol = symbol_of k in
    let seen = collect s keys symbols streams in
    let added = collect s keys (symbols ++ (symbol ∷ [])) (streams ++ streams_before s symbol []) in
    if is_among symbol symbols then seen else added

-- generate_subscription_id, and the write of the message with that id. The symbols are taken to be
-- valid UTF-8: dump throws where a string is not.
unfoldable pub send : Method → List (List ℕ) → BinanceData → BinanceData
send method streams s =
    let id = (s.subscription_id_counter + 1) % 2 ^ 64 in
    record s {
      subscription_id_counter = id;
      sent = record { method = method; params = streams; id = id } ∷ s.sent;
    }

unfoldable pub subscribe : ℤ → List InstrumentKey → BinanceData → BinanceData × Bool
subscribe result keys s =
    let (symbols, streams) = collect s keys [] [] in
    let asked = send subscribe_method streams s in
    let updated = update_streams_uri symbols asked in
    if is_empty keys
    then (s, false)
    else if not s.is_connected
    then (s, false)
    else if is_empty streams
    then (s, false)
    else if ltb_ℤ result (pos 0)
    then (asked, false)
    else (record updated { subscribed_instruments = updated.subscribed_instruments ++ keys }, true)

-- find_if by the identifier, and erase
unfoldable pub erase_first : List ℕ → List InstrumentKey → List InstrumentKey
erase_first id [] = []
erase_first id (k ∷ keys) =
    if same_text (text k.instrument_id) id then keys else k ∷ erase_first id keys

unfoldable pub erase_each : List InstrumentKey → List InstrumentKey → List InstrumentKey
erase_each [] held = held
erase_each (k ∷ keys) held = erase_each keys (erase_first (text k.instrument_id) held)

unfoldable pub unsubscribe : ℤ → List InstrumentKey → BinanceData → BinanceData × Bool
unsubscribe result keys s =
    let streams = streams_of s (map symbol_of keys) in
    let asked = send unsubscribe_method streams s in
    let left = record asked {
      subscribed_instruments = erase_each keys asked.subscribed_instruments;
    } in
    if is_empty keys
    then (s, false)
    else if not s.is_connected
    then (s, false)
    else if is_empty streams
    then (s, false)
    else if ltb_ℤ result (pos 0)
    then (asked, false)
    else (
      if not (is_empty left.subscribed_instruments)
          then update_streams_uri_from_subscribed left
          else set_default_streams left,
      true,
    )

unfoldable pub holds_symbol : List ℕ → List InstrumentKey → Bool
holds_symbol symbol [] = false
holds_symbol symbol (k ∷ keys) =
    if same_text (symbol_of k) symbol then true else holds_symbol symbol keys

unfoldable pub is_subscribed : List ℕ → BinanceData → Bool
is_subscribed symbol s = holds_symbol (lower symbol) s.subscribed_instruments

-- The result of the write is not looked at.
unfoldable pub clear_subscriptions : BinanceData → BinanceData
clear_subscriptions s =
    let streams = streams_of s (get_subscribed_symbols s) in
    let asked = if not (is_empty streams) then send unsubscribe_method streams s else s in
    if not (is_empty s.subscribed_instruments)
    then set_default_streams (record asked { subscribed_instruments = [] })
    else s
