-- ===== src/Engines.antt =====
-- The lockstep of the three engines in a backtest: MDEngine (engines/md/md_engine.cpp), TDEngine
-- (engines/td/td_engine.cpp), and CPEngine with its LiveSubscriber (engines/cp). They exchange
-- BacktestSyncSignals through four journals, each a queue of the signals that are not read yet. What
-- the services of an engine return is an argument of its turn. How often the services of each engine
-- were asked is counted.
pub mod Lockstep
use btrader.Prelude.{ℕ, suc, Bool, true, false, not, ◌&&◌, List, [], ◌∷◌, ◌++◌, if◌then◌else◌}

-- BacktestSyncSignal::Flag
pub data Flag : Type 0 where
  market_data match_order : Flag

pub record Engines : Type 0 where
  pub md_req : List Flag
  pub md_response : List Flag
  pub td_req : List Flag
  pub td_response : List Flag
  pub is_pre_started : Bool
  pub md_turns : ℕ
  pub td_turns : ℕ

unfoldable pub set_up : Engines
set_up = record {
  md_req = [];
  md_response = [];
  td_req = [];
  td_response = [];
  is_pre_started = false;
  md_turns = 0;
  td_turns = 0;
}

-- success &= service->handle_backtest_sync_signal(signal), over the services
unfoldable pub handle_all : Bool → List Bool → Bool
handle_all success [] = success
handle_all success (handled ∷ services) = handle_all (success && handled) services

abbrev pub reply : Bool → Flag → List Flag → List Flag
reply success signal response = if success then response ++ (signal ∷ []) else response

abbrev pub md_takes : List Bool → List Flag → Engines → Engines
md_takes services [] s = s
md_takes services (signal ∷ unread) s = record s {
  md_req = unread;
  md_response = reply (handle_all true services) signal s.md_response;
  md_turns = suc s.md_turns;
}

-- MDEngine::on_backtest_sync_signal, where a signal is there
unfoldable pub md_on_backtest_sync_signal : List Bool → Engines → Engines
md_on_backtest_sync_signal services s = md_takes services s.md_req s

abbrev pub td_takes : List Bool → List Flag → Engines → Engines
td_takes services [] s = s
td_takes services (signal ∷ unread) s = record s {
  td_req = unread;
  td_response = reply (handle_all true services) signal s.td_response;
  td_turns = suc s.td_turns;
}

-- TDEngine::on_backtest_sync_signal
unfoldable pub td_on_backtest_sync_signal : List Bool → Engines → Engines
td_on_backtest_sync_signal services s = td_takes services s.td_req s

-- LiveSubscriber::on_backtest_sync_signal
unfoldable pub cp_on_backtest_sync_signal : Flag → Engines → Engines
cp_on_backtest_sync_signal market_data s = record s { td_req = s.td_req ++ (match_order ∷ []) }
cp_on_backtest_sync_signal match_order s = record s { md_req = s.md_req ++ (market_data ∷ []) }

-- CPEngine reads a journal of responses.
abbrev pub cp_takes_md : List Flag → Engines → Engines
cp_takes_md [] s = s
cp_takes_md (signal ∷ unread) s =
    cp_on_backtest_sync_signal signal (record s { md_response = unread })

abbrev pub cp_takes_td : List Flag → Engines → Engines
cp_takes_td [] s = s
cp_takes_td (signal ∷ unread) s =
    cp_on_backtest_sync_signal signal (record s { td_response = unread })

-- CPEngine::on_active with LiveSubscriber::pre_start, in a backtest
unfoldable pub on_active : Engines → Engines
on_active s =
    if not s.is_pre_started
    then record s { md_req = s.md_req ++ (market_data ∷ []); is_pre_started = true }
    else s

-- One engine does something.
pub data Turn : Type 0 where
  cp_active cp_reads_md cp_reads_td : Turn
  md_reads td_reads : List Bool → Turn

unfoldable pub take_turn : Turn → Engines → Engines
take_turn cp_active s = on_active s
take_turn cp_reads_md s = cp_takes_md s.md_response s
take_turn cp_reads_td s = cp_takes_td s.td_response s
take_turn (md_reads services) s = md_on_backtest_sync_signal services s
take_turn (td_reads services) s = td_on_backtest_sync_signal services s

-- The engines after any sequence of turns.
unfoldable pub run : List Turn → Engines → Engines
run [] s = s
run (t ∷ turns) s = run turns (take_turn t s)
