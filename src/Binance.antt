-- ===== src/Binance.antt =====
-- broker/binance: the market data and the trading service for Binance. The websocket client is a
-- library's: what it returns is an argument of the operations, and what is asked of it is recorded.
pub mod Data
pub mod Streams
pub mod Subscriptions
pub mod Bags
pub mod Runs
pub mod Feed
pub mod Ladders
pub mod Guards
pub mod Broker
pub mod Decimals
pub mod Connection
pub mod Defaults
pub mod Reconnects
use btrader.Prelude.{
  ℕ, zero, suc, ◌+◌, ◌-◌, ◌*◌, ◌/◌, ◌%◌, List, [], ◌∷◌, ltb, leb, ◌==◌, ◌&&◌, if◌then◌else◌, map,
}
use btrader.Prelude.Int.{ℤ, pos, negsuc}

-- ::tolower, in the C locale
abbrev pub tolower : ℕ → ℕ
tolower c = if leb 65 c && leb c 90 then c + 32 else c

unfoldable pub lower : List ℕ → List ℕ
lower = map tolower

-- std::to_string of an unsigned number of at most 20 digits, in ASCII
unfoldable pub digits : ℕ → ℕ → List ℕ → List ℕ
digits zero n rest = rest
digits (suc fuel) n rest =
    let longer = digits fuel (n / 10) ((48 + n % 10) ∷ rest) in
    if n / 10 == 0 then (48 + n % 10) ∷ rest else longer

unfoldable pub decimal : ℕ → List ℕ
decimal n = digits 20 n []

unfoldable pub signed_decimal : ℤ → List ℕ
signed_decimal (pos n) = decimal n
signed_decimal (negsuc n) = 45 ∷ decimal (suc n)
