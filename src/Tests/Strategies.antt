-- ===== src/Tests/Strategies.antt =====
-- A ConsecutiveBarStrategy that buys on a second bar that rises, and leaves at a profit.
use btrader.Prelude.{ℕ, ◌≡◌, refl, true, false, ◌⊎◌, List, [], ◌∷◌, if◌then◌else◌}
use btrader.Prelude.Int.{pos}
use btrader.Double.{Signed}
use btrader.CharArray.{empty_array}
use btrader.Types.Enums.{
  InstrumentType, Side, Offset, HedgeFlag, PriceType, VolumeCondition, TimeCondition, OrderStatus,
}
use btrader.Types.{Bar, Order, OrderInput}
use btrader.BrokerSim.{zero_order}
use btrader.Strategy.{Strategy, constructed, push_bounded, max_bar_history}
use btrader.Strategy.Orders.{check_exit_conditions, calculate_position_size}
use btrader.Strategy.Events.{take_bar, may_trade, on_bar}
use btrader.Strategy.Exits.{Sends, IsExit, check_exit_conditions-Sends}
use btrader.Strategy.Entries.{may_open, follow, signal, on_bar-signal}
use btrader.Strategy.Runs.{Event, started, stopped, bar_ended, order_updated, run}
use btrader.Strategy.Invariants.{IsSound, run-IsSound}
use btrader.Strategy.Tracking.{calculate_position_size-within}
use btrader.Tests.Tenths.{tenths, tenths-IsIeee}

-- Tenths stop at 0, so that all that is negative is 0.
instance unfoldable signed_tenths : Signed ℕ
signed_tenths = record { neg = λ a. 0; abs = λ a. a }

abbrev new_input : OrderInput ℕ
new_input = record {
  order_id = 0;
  parent_id = 0;
  instrument_id = empty_array 32;
  exchange_id = empty_array 16;
  instrument_type = InstrumentType.unknown;
  limit_price = 0;
  frozen_price = 0;
  volume = 0;
  is_swap = false;
  side = Side.buy;
  offset = Offset.open_position;
  hedge_flag = HedgeFlag.speculation;
  price_type = PriceType.limit;
  volume_condition = VolumeCondition.any_volume;
  time_condition = TimeCondition.gfd;
  block_id = 0;
  insert_time = 0;
}

-- From 1 to 2.
abbrev rising : Bar ℕ
rising = record {
  trading_day = [];
  instrument_id = [];
  exchange_id = [];
  instrument_type = InstrumentType.stock;
  start_time = 0;
  end_time = 1;
  open_price = 10;
  close = 20;
  low = 10;
  high = 20;
  volume = 10;
  start_volume = 0;
  tick_count = 1;
}

-- After two bars, with the limits of the constructor.
abbrev ready : Strategy ℕ
unfolding constructed
ready = record (constructed 0) { bar_history = rising ∷ rising ∷ []; bar_count = 2 }

-- A position of 3 that was entered at 1.
abbrev long : Strategy ℕ
long = record ready { position_opened = true; entry_price = 10; current_position = 30 }

abbrev an_order : Order ℕ
unfolding zero_order
an_order = record zero_order { order_id = 7; status = OrderStatus.submitted }

check_exit_conditions-Sends_example :
    Sends (IsExit long.current_position) long (check_exit_conditions new_input 20 long)
check_exit_conditions-Sends_example = check_exit_conditions-Sends new_input 20 long

on_bar-signal_example : on_bar new_input (pos 5000) rising ready ≡ (
    if may_trade (pos 5000) (take_bar new_input rising ready)
    then if may_open ready
      then follow new_input
          (signal (push_bounded max_bar_history rising ready.bar_history))
          (pos 5000)
          rising.close
          (take_bar new_input rising ready)
      else take_bar new_input rising ready
    else take_bar new_input rising ready)
on_bar-signal_example = on_bar-signal new_input (pos 5000) rising ready

abbrev day : List (Event ℕ)
day =
    started
    ∷ bar_ended (pos 5000) rising
    ∷ bar_ended (pos 6001) rising
    ∷ order_updated an_order an_order
    ∷ stopped
    ∷ []

run-IsSound_example : IsSound (run new_input day (constructed 0))
unfolding tenths
run-IsSound_example = run-IsSound new_input 0 day refl

calculate_position_size-within_example :
    (tenths.lt (calculate_position_size 20 ready) (tenths.literal 1 0) ≡ false)
    × ((calculate_position_size 20 ready ≡ tenths.literal 1 0)
        ⊎ (tenths.lt ready.config.max_position (calculate_position_size 20 ready) ≡ false))
calculate_position_size-within_example = calculate_position_size-within 20 ready
