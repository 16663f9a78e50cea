-- ===== src/Binance/Feed.antt =====
-- binance_data.cpp: what a message makes the service write to its customer's journal. `stod` is
-- std::stod, none where it throws; a bar and a quote start from the memory that they are built in.
use btrader.Prelude.{
  ℕ, ◌+◌, Bool, true, false, not, ◌&&◌, ◌||◌, Option, none, some, List, [], ◌∷◌, ◌++◌, ltb, ◌==◌,
  if◌then◌else◌, set,
}
use btrader.Double.{Double}
use btrader.CharArray.{Chars, assign, empty_array}
use btrader.Json.{
  Entry, absent, mistyped, given, Lookup, found, thrown, undefined, ◌>>=◌, value, contains,
}
use btrader.Types.{Bar, instrument_id_len, exchange_id_len, date_len}
use btrader.Types.Quotes.{Quote, new_quote, ladder_length}
use btrader.Binance.Data.{BinanceData}

-- The object under "k" of the data.
pub record Kline : Type 0 where
  pub x : Entry Bool
  pub start_time : Entry ℕ
  pub end_time : Entry ℕ
  pub open_price : Entry (List ℕ)
  pub close : Entry (List ℕ)
  pub high : Entry (List ℕ)
  pub low : Entry (List ℕ)
  pub volume : Entry (List ℕ)

-- An item of "bids" or "asks": an array of two or more, or anything else.
pub data Item : Type 0 where
  other : Item
  level : Entry (List ℕ) → Entry (List ℕ) → Item

-- A message, with what the code looks up in it.
pub record Message : Type 0 where
  pub is_empty : Bool
  pub is_json : Bool
  pub stream : Entry (List ℕ)
  pub has_data : Bool
  pub symbol : Entry (List ℕ)
  pub kline : Option Kline
  pub bids : Option (List Item)
  pub asks : Option (List Item)

pub data MdType : Type 0 where
  unknown kline_type depth_type trade_type : MdType

pub data Written {ℓ} (D : Type ℓ) : Type ℓ where
  bar : Bar D → Written D
  quote : Quote D → Written D

unfoldable pub starts_with : List ℕ → List ℕ → Bool
starts_with [] s = true
starts_with (c ∷ cs) [] = false
starts_with (c ∷ cs) (d ∷ ds) = (c == d) && starts_with cs ds

-- s.find(word) != npos
unfoldable pub is_within : List ℕ → List ℕ → Bool
is_within word [] = starts_with word []
is_within word (c ∷ cs) = starts_with word (c ∷ cs) || is_within word cs

-- "kline"
abbrev pub kline_word : List ℕ
kline_word = 107 ∷ 108 ∷ 105 ∷ 110 ∷ 101 ∷ []

-- "depth"
abbrev pub depth_word : List ℕ
depth_word = 100 ∷ 101 ∷ 112 ∷ 116 ∷ 104 ∷ []

abbrev pub mdtype_of : Entry (List ℕ) → MdType
mdtype_of (given name) =
    if is_within kline_word name
    then kline_type
    else if is_within depth_word name
    then depth_type
    else unknown
mdtype_of _ = unknown

unfoldable pub get_mdtype : Message → MdType
get_mdtype m = mdtype_of m.stream

unfoldable pub validate_json_data : Message → Bool
validate_json_data m = contains m.stream && m.has_data

-- s.substr(0, s.find('@'))
unfoldable pub before_at : List ℕ → List ℕ
before_at [] = []
before_at (c ∷ cs) = if c == 64 then [] else c ∷ before_at cs

-- "binance", as a C string
abbrev pub binance : Chars
binance = (98 ∷ 105 ∷ 110 ∷ 97 ∷ 110 ∷ 99 ∷ 101 ∷ []) ++ (0 ∷ [])

abbrev pub kline_closed : Entry Bool → Lookup Bool
kline_closed absent = found false
kline_closed mistyped = thrown
kline_closed (given b) = found b

-- What a handler returns, and what it writes.
abbrev pub Outcome {ℓ} : Type ℓ → Type ℓ
Outcome D = Bool × Option (Written D)

abbrev pub or_default {ℓ} : {D : Type ℓ} → D → Option D → D
or_default fallback none = fallback
or_default fallback (some x) = x

-- The catch clause of a handler.
abbrev pub caught {ℓ} : {D : Type ℓ} → Lookup (Outcome D) → Lookup (Outcome D)
caught (found o) = found o
caught thrown = found (false, none)
caught undefined = undefined

-- A handler that writes returns true, with a customer or without.
abbrev pub written {ℓ} : {D : Type ℓ} → Bool → Written D → Outcome D
written has_writer w = (true, if has_writer then some w else none)

module _ {ℓ} {D : Type ℓ} ⦃d : Double D⦄ (stod : List ℕ → Option D) where
  open d use {zero}

  unfoldable pub safe_string_to_double : List ℕ → D → D
  safe_string_to_double [] fallback = fallback
  safe_string_to_double (c ∷ cs) fallback = or_default fallback (stod (c ∷ cs))

  unfoldable pub price_of : List ℕ → D
  price_of s = safe_string_to_double s zero

  unfoldable pub bar_from : Bar D → Message → Kline → Lookup (Bar D)
  bar_from memory m k = do
    symbol ← value m.symbol
    start_time ← value k.start_time
    end_time ← value k.end_time
    open_price ← value k.open_price
    close ← value k.close
    high ← value k.high
    low ← value k.low
    volume ← value k.volume
    found (record memory {
      trading_day = empty_array date_len;
      instrument_id = assign (empty_array instrument_id_len) (symbol ++ (0 ∷ []));
      exchange_id = assign (empty_array exchange_id_len) binance;
      start_time = start_time;
      end_time = end_time;
      open_price = price_of open_price;
      close = price_of close;
      high = price_of high;
      low = price_of low;
      volume = price_of volume;
    })

  abbrev pub closed_bar : Bool → Bar D → Message → Kline → Bool → Lookup (Outcome D)
  closed_bar has_writer memory m k true = do
    b ← bar_from memory m k
    found (written has_writer (bar b))
  closed_bar has_writer memory m k false = found (false, none)

  abbrev pub kline_outcome : Bool → Bar D → Message → Option Kline → Lookup (Outcome D)
  kline_outcome has_writer memory m none = found (false, none)
  kline_outcome has_writer memory m (some k) = do
    closed ← kline_closed k.x
    closed_bar has_writer memory m k closed

  unfoldable pub process_kline_data : Bool → Bar D → Message → Lookup (Outcome D)
  process_kline_data has_writer memory m =
      if not m.has_data
      then found (false, none)
      else caught (kline_outcome has_writer memory m m.kline)

  -- The loop over the items: how many levels it stored, the prices and the volumes.
  unfoldable pub fill : List Item → ℕ → List D → List D → Lookup (ℕ × (List D × List D))
  fill [] idx prices volumes = found (idx, (prices, volumes))
  fill (other ∷ items) idx prices volumes =
      let rest = fill items idx prices volumes in
      if not (ltb idx ladder_length) then found (idx, (prices, volumes)) else rest
  fill (level price volume ∷ items) idx prices volumes =
      let rest = (do
        p ← value price
        v ← value volume
        fill items (idx + 1) (set prices idx (price_of p)) (set volumes idx (price_of v))) in
      if not (ltb idx ladder_length) then found (idx, (prices, volumes)) else rest

  unfoldable pub depth_from : Quote D → List ℕ → List Item → List Item → Lookup (Quote D)
  depth_from memory stream bids asks =
      let depth = new_quote memory in
      do
        (real, (bid_price, bid_volume)) ← fill bids 0 depth.bid_price depth.bid_volume
        (_, (ask_price, ask_volume)) ← fill asks 0 depth.ask_price depth.ask_volume
        found (record depth {
          instrument_id = assign depth.instrument_id (before_at stream ++ (0 ∷ []));
          exchange_id = assign depth.exchange_id binance;
          bid_price = bid_price;
          bid_volume = bid_volume;
          real_depth_size = real;
          ask_price = ask_price;
          ask_volume = ask_volume;
        })

  abbrev pub depth_outcome :
      Bool → Quote D → Message → Option (List Item) → Option (List Item) → Lookup (Outcome D)
  depth_outcome has_writer memory m (some bids) (some asks) = do
    stream ← value m.stream
    depth ← depth_from memory stream bids asks
    found (written has_writer (quote depth))
  depth_outcome has_writer memory m _ _ = found (false, none)

  unfoldable pub process_depth_data : Bool → Quote D → Message → Lookup (Outcome D)
  process_depth_data has_writer memory m =
      if not m.has_data
      then found (false, none)
      else caught (depth_outcome has_writer memory m m.bids m.asks)

  abbrev pub process : Bool → Bar D → Quote D → BinanceData → Message → MdType → Lookup (Outcome D)
  process has_writer memory_bar memory_quote s m kline_type =
      if s.enable_kline then process_kline_data has_writer memory_bar m else found (false, none)
  process has_writer memory_bar memory_quote s m depth_type =
      if s.enable_depth then process_depth_data has_writer memory_quote m else found (false, none)
  process has_writer memory_bar memory_quote s m _ = found (false, none)

  -- What is written, where the handlers are defined.
  unfoldable pub on_msg :
      Bool → Bar D → Quote D → BinanceData → Message → Lookup (Option (Written D))
  on_msg has_writer memory_bar memory_quote s m =
      if m.is_empty
      then found none
      else if not m.is_json
      then found none
      else if not (validate_json_data m)
      then found none
      else do
        outcome ← process has_writer memory_bar memory_quote s m (get_mdtype m)
        found outcome.1
