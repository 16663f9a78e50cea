-- ===== src/Tests/Sim.antt =====
-- A simulated exchange with one order to sell half a unit, and one that was cancelled.
use btrader.Prelude.{
  ℕ, ◌+◌, ◌≡◌, ◌≢◌, refl, sym, ap, ◌∙◌, true, false, some, none, List, [], ◌∷◌, ◌++◌, ◌==◌,
  if◌then◌else◌, Bool-cases, ==_iff, inl, inr, length,
}
use mathlib.Core.Option.{some-injective}
use btrader.Prelude.Dict.{find}
use btrader.Types.Enums.{Side, OrderStatus, BrokerState}
use btrader.Types.{Order, OrderInput, OrderCancel}
use btrader.BrokerSim.{BrokerSim, zero_order, cancel_order, cancel_response, insert_order}
use btrader.BrokerSim.Matching.{Market, Fill, match_levels, process_order_matching}
use btrader.BrokerSim.Cancel.{
  find_order, cancel_code, is_cancellable, cancelled, cancel_order-answers,
}
use btrader.BrokerSim.Keyed.{IsKeyed}
use btrader.BrokerSim.Lifecycle.{match_all, match_all-done, operations-IsKeyed}
use btrader.BrokerSim.Levels.{AsOffered, take_all, match_levels-AsOffered}
use btrader.BrokerSim.Fractions.{IsFraction, rounds, IsFraction-never_filled}
use btrader.Tests.Tenths.{tenths, tenths-IsIeee}

-- Half a unit, to sell at 10.
abbrev half : Order ℕ
unfolding zero_order
half = record zero_order {
  order_id = 4;
  limit_price = 100;
  volume = 5;
  volume_left = 5;
  status = OrderStatus.submitted;
  side = Side.sell;
}

abbrev sim_with : OrderStatus → BrokerSim ℕ
sim_with status = record {
  active_orders = (4, record half { status = status }) ∷ [];
  asset = record {
    update_time = 0;
    trading_day = [];
    avail = 10000;
    margin = 0;
    accumulated_fee = 0;
  };
  positions = record { long_positions = []; short_positions = [] };
  commission_rate = 0;
  slippage_rate = 0;
  enable_slippage = false;
  enable_commission = true;
  running = true;
  state = BrokerState.ready;
  responses = [];
}

abbrev cancel_four : OrderCancel ℕ
cancel_four = record {
  instrument_id = [];
  order_id = 5;
  target_order_id = 4;
  price = 0;
  volume = 0;
  insert_time = 0;
}

abbrev market : Market ℕ
market = record {
  now = 8;
  depth = λ id. record {
    real_depth_size = 0;
    instrument_id = [];
    exchange_id = [];
    bid_price = [];
    ask_price = [];
    bid_volume = [];
    ask_volume = [];
  };
  price_change = 0;
  hash_str_32 = length;
}

none-some : (o : Order ℕ) → none ≢ some o
none-some o e = cc

sim_with-IsKeyed : (status : OrderStatus) → IsKeyed (sim_with status)
unfolding IsKeyed find half
sim_with-IsKeyed status k o e =
    let only = record half { status = status } in
    elim (Bool-cases (4 == k)) [
      | inl c ↦
          ap (λ q. q.order_id)
            (sym (some-injective _ _ (sym (ap (λ b. if b then some only else none) c) ∙ e)))
          ∙ (==_iff 4 k).0 c
      | inr c ↦ absurd (none-some o (sym (ap (λ b. if b then some only else none) c) ∙ e))
    ]

cancel_order-answers_example :
    let s = sim_with OrderStatus.submitted in
    let (after, accepted) = cancel_order 7 cancel_four s in
    let target = find_order 4 s in
    (accepted ≡ is_cancellable target)
    × (after.responses ≡ s.responses ++ cancel_response cancel_four (cancel_code target) ∷ [])
    × ((k : ℕ) → find_order k after ≡ (if 4 == k then cancelled 7 target else find_order k s))
    × (after.asset ≡ s.asset)
    × (after.positions ≡ s.positions)
cancel_order-answers_example = cancel_order-answers 7 cancel_four (sim_with OrderStatus.submitted)

operations-IsKeyed_example :
    let s = sim_with OrderStatus.submitted in
    ((input : OrderInput ℕ) → IsKeyed (insert_order input s).0)
    × ((now : ℕ) (input : OrderCancel ℕ) → IsKeyed (cancel_order now input s).0)
    × ((m : Market ℕ) → IsKeyed (process_order_matching m s))
operations-IsKeyed_example =
    operations-IsKeyed (sim_with OrderStatus.submitted) (sim_with-IsKeyed OrderStatus.submitted)

match_all-done_example :
    find_order 4 (match_all (market ∷ market ∷ []) (sim_with OrderStatus.cancelled))
    ≡ some (record half { status = OrderStatus.cancelled })
unfolding find
match_all-done_example =
    match_all-done (market ∷ market ∷ []) 4 (sim_with OrderStatus.cancelled)
      (record half { status = OrderStatus.cancelled }) (sim_with-IsKeyed OrderStatus.cancelled) refl
      refl

-- Bids for 0.3 at 10.1 and for 5 at 9.9.
abbrev bids : List (ℕ × ℕ)
bids = (101, 3) ∷ (99, 50) ∷ []

abbrev unfilled : Fill ℕ
unfilled = record { remaining = 5; weighted = 0; total = 0; executed = [] }

match_levels-AsOffered_example :
    let s = sim_with OrderStatus.submitted in
    (xs : List (ℕ × ℕ)) × AsOffered s half bids xs
    × (match_levels s half bids unfilled ≡ take_all xs unfilled)
match_levels-AsOffered_example =
    match_levels-AsOffered (sim_with OrderStatus.submitted) half bids unfilled

half-IsFraction : IsFraction market 4 5 (sim_with OrderStatus.submitted)
unfolding IsFraction find half
half-IsFraction = (half, refl, refl, refl, refl, refl, refl)

IsFraction-never_filled_example :
    IsFraction market 4 5 (rounds market 4 3 (sim_with OrderStatus.submitted))
    × (length (rounds market 4 3 (sim_with OrderStatus.submitted)).responses ≡ 3 + 0)
unfolding tenths
IsFraction-never_filled_example =
    IsFraction-never_filled 3 market 4 5 (sim_with OrderStatus.submitted) refl refl half-IsFraction
