-- ===== src/Strategy.antt =====
-- strategies/consecutive_bar_strategy.h: what a ConsecutiveBarStrategy keeps. What it asks of the
-- executor is recorded in `sent`; the wall clock is an argument of on_bar, and the histories stand
-- newest first. What is written to the console is left out.
pub mod Settings
pub mod Signals
pub mod Orders
pub mod Events
pub mod Exits
pub mod Entries
pub mod Runs
pub mod Invariants
pub mod Tracking
use btrader.Prelude.{ℕ, ◌+◌, Bool, false, List, [], ◌∷◌, ◌++◌, ltb, if◌then◌else◌, length}
use btrader.Prelude.Int.{ℤ, pos}
use btrader.Double.{Double}
use btrader.Types.{Bar, Trade, Order, OrderInput}

pub record Config {ℓ} (D : Type ℓ) : Type ℓ where
  pub min_bars : ℤ
  pub max_position : D
  pub stop_loss : D
  pub take_profit : D
  pub risk_per_trade : D
  pub max_drawdown : D
  pub enable_quote_trading : Bool

-- A call of the executor.
pub data Action {ℓ} (D : Type ℓ) : Type ℓ where
  insert_order : List ℕ → List ℕ → OrderInput D → Action D
  cancel_order : ℕ → Action D

-- The object, with its Config and State and the static counter of its order ids.
pub record Strategy {ℓ} (D : Type ℓ) : Type ℓ where
  pub config : Config D
  pub bar_history : List (Bar D)
  pub position_opened : Bool
  pub entry_price : D
  pub current_position : D
  pub consecutive_up_bars : ℕ
  pub consecutive_down_bars : ℕ
  pub bar_count : ℕ
  pub symbol : List ℕ
  pub institution : List ℕ
  pub account : List ℕ
  pub last_trade_time : ℤ
  pub total_pnl : D
  pub max_drawdown : D
  pub peak_equity : D
  pub active_orders : List (ℕ × Order D)
  pub trade_history : List (Trade D)
  pub next_order_id : ℕ
  pub sent : List (Action D)

abbrev pub max_bar_history : ℕ
max_bar_history = 50

abbrev pub max_trade_history : ℕ
max_trade_history = 1000

abbrev pub min_trade_interval : ℕ
min_trade_interval = 1000

module _ {ℓ} {A : Type ℓ} where
  -- pop_front, where the oldest stands last
  unfoldable pub drop_oldest : List A → List A
  drop_oldest [] = []
  drop_oldest (x ∷ []) = []
  drop_oldest (x ∷ y ∷ xs) = x ∷ drop_oldest (y ∷ xs)

  -- push_back, and pop_front where there are more than n
  unfoldable pub push_bounded : ℕ → A → List A → List A
  push_bounded n x xs = if ltb n (length (x ∷ xs)) then drop_oldest (x ∷ xs) else x ∷ xs

module _ {ℓ} {D : Type ℓ} ⦃d : Double D⦄ where
  open d use {zero, literal}

  unfoldable pub default_config : Config D
  default_config = record {
    min_bars = pos 3;
    max_position = literal 1000 0;
    stop_loss = literal 2 2;
    take_profit = literal 3 2;
    risk_per_trade = literal 1 2;
    max_drawdown = literal 10 2;
    enable_quote_trading = false;
  }

  -- The constructor, where n order ids were given out before.
  unfoldable pub constructed : ℕ → Strategy D
  constructed n = record {
    config = default_config;
    bar_history = [];
    position_opened = false;
    entry_price = zero;
    current_position = zero;
    consecutive_up_bars = 0;
    consecutive_down_bars = 0;
    bar_count = 0;
    symbol = [];
    institution = [];
    account = [];
    last_trade_time = pos 0;
    total_pnl = zero;
    max_drawdown = zero;
    peak_equity = zero;
    active_orders = [];
    trade_history = [];
    next_order_id = n + 1;
    sent = [];
  }
