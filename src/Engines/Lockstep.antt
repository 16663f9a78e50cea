-- ===== src/Engines/Lockstep.antt =====
-- The engines of a backtest as an automaton that holds one signal at most.
use btrader.Prelude.{
  ℕ, zero, suc, ◌+◌, ◌≤◌, ◌≡◌, refl, ap, sym, subst, ◌∙◌, Bool, true, false, List, [], ◌∷◌,
  if◌then◌else◌, length, arith, Bool-cases, inl, inr,
}
use btrader.Engines.{
  market_data, match_order, Engines, set_up, handle_all, md_on_backtest_sync_signal,
  td_on_backtest_sync_signal, cp_on_backtest_sync_signal, on_active, Turn, cp_active, cp_reads_md,
  cp_reads_td, md_reads, td_reads, take_turn, run,
}

-- Where the signal is in round n, or that a service failed and it is gone.
pub data Phase : Type 0 where
  unstarted : Phase
  asked served ordered matched data_failed matching_failed : ℕ → Phase

abbrev start_of : ℕ → Engines
start_of n = record {
  md_req = [];
  md_response = [];
  td_req = [];
  td_response = [];
  is_pre_started = true;
  md_turns = n;
  td_turns = n;
}

-- The engines in a phase.
unfoldable pub engines_in : Phase → Engines
engines_in unstarted = record (start_of 0) { is_pre_started = false }
engines_in (asked n) = record (start_of n) { md_req = market_data ∷ [] }
engines_in (served n) = record (start_of n) { md_response = market_data ∷ []; md_turns = suc n }
engines_in (ordered n) = record (start_of n) { td_req = match_order ∷ []; md_turns = suc n }
engines_in (matched n) = record (start_of (suc n)) { td_response = match_order ∷ [] }
engines_in (data_failed n) = record (start_of n) { md_turns = suc n }
engines_in (matching_failed n) = start_of (suc n)

-- What a turn does to the phase.
unfoldable pub next : Turn → Phase → Phase
next cp_active unstarted = asked 0
next (md_reads services) (asked n) = if handle_all true services then served n else data_failed n
next cp_reads_md (served n) = ordered n
next (td_reads services) (ordered n) =
    if handle_all true services then matched n else matching_failed n
next cp_reads_td (matched n) = asked (suc n)
next _ p = p

take_turn-next : (t : Turn) (p : Phase) → take_turn t (engines_in p) ≡ engines_in (next t p)
unfolding take_turn engines_in next on_active md_on_backtest_sync_signal td_on_backtest_sync_signal
    cp_on_backtest_sync_signal
take_turn-next cp_active unstarted = refl
take_turn-next cp_active (asked n) = refl
take_turn-next cp_active (served n) = refl
take_turn-next cp_active (ordered n) = refl
take_turn-next cp_active (matched n) = refl
take_turn-next cp_active (data_failed n) = refl
take_turn-next cp_active (matching_failed n) = refl
take_turn-next cp_reads_md unstarted = refl
take_turn-next cp_reads_md (asked n) = refl
take_turn-next cp_reads_md (served n) = refl
take_turn-next cp_reads_md (ordered n) = refl
take_turn-next cp_reads_md (matched n) = refl
take_turn-next cp_reads_md (data_failed n) = refl
take_turn-next cp_reads_md (matching_failed n) = refl
take_turn-next cp_reads_td unstarted = refl
take_turn-next cp_reads_td (asked n) = refl
take_turn-next cp_reads_td (served n) = refl
take_turn-next cp_reads_td (ordered n) = refl
take_turn-next cp_reads_td (matched n) = refl
take_turn-next cp_reads_td (data_failed n) = refl
take_turn-next cp_reads_td (matching_failed n) = refl
take_turn-next (md_reads services) unstarted = refl
take_turn-next (md_reads services) (asked n) = elim (Bool-cases (handle_all true services)) [
  | inl e ↦ rw e refl
  | inr e ↦ rw e refl
]
take_turn-next (md_reads services) (served n) = refl
take_turn-next (md_reads services) (ordered n) = refl
take_turn-next (md_reads services) (matched n) = refl
take_turn-next (md_reads services) (data_failed n) = refl
take_turn-next (md_reads services) (matching_failed n) = refl
take_turn-next (td_reads services) unstarted = refl
take_turn-next (td_reads services) (asked n) = refl
take_turn-next (td_reads services) (served n) = refl
take_turn-next (td_reads services) (ordered n) = elim (Bool-cases (handle_all true services)) [
  | inl e ↦ rw e refl
  | inr e ↦ rw e refl
]
take_turn-next (td_reads services) (matched n) = refl
take_turn-next (td_reads services) (data_failed n) = refl
take_turn-next (td_reads services) (matching_failed n) = refl

unfoldable pub phase_after : List Turn → Phase → Phase
phase_after [] p = p
phase_after (t ∷ turns) p = phase_after turns (next t p)

run-phase_after :
    (turns : List Turn) (p : Phase) → run turns (engines_in p) ≡ engines_in (phase_after turns p)
unfolding run phase_after
run-phase_after [] p = refl
run-phase_after (t ∷ turns) p =
    ap (run turns) (take_turn-next t p) ∙ run-phase_after turns (next t p)

-- The signals that are not read yet.
abbrev pub in_flight : Engines → ℕ
in_flight s = length s.md_req + length s.md_response + (length s.td_req + length s.td_response)

-- One signal at most, and the services of the two engines take turns.
pub record IsLockstep (s : Engines) : Type 0 where
  pub single : in_flight s ≤ 1
  pub not_ahead : s.td_turns ≤ s.md_turns
  pub not_behind : s.md_turns ≤ suc s.td_turns

engines_in-IsLockstep : (p : Phase) → IsLockstep (engines_in p)
unfolding engines_in
engines_in-IsLockstep unstarted = record {
  single = omega arith;
  not_ahead = omega arith;
  not_behind = omega arith;
}
engines_in-IsLockstep (asked n) = record {
  single = omega arith;
  not_ahead = omega arith;
  not_behind = omega arith;
}
engines_in-IsLockstep (served n) = record {
  single = omega arith;
  not_ahead = omega arith;
  not_behind = omega arith;
}
engines_in-IsLockstep (ordered n) = record {
  single = omega arith;
  not_ahead = omega arith;
  not_behind = omega arith;
}
engines_in-IsLockstep (matched n) = record {
  single = omega arith;
  not_ahead = omega arith;
  not_behind = omega arith;
}
engines_in-IsLockstep (data_failed n) = record {
  single = omega arith;
  not_ahead = omega arith;
  not_behind = omega arith;
}
engines_in-IsLockstep (matching_failed n) = record {
  single = omega arith;
  not_ahead = omega arith;
  not_behind = omega arith;
}

-- In whatever order the engines of a backtest take their turns, and whatever their services return,
-- at most one signal is unread in the four journals, and the trading services were asked as often as
-- the data services, or once less.
pub run-IsLockstep : (turns : List Turn) → IsLockstep (run turns set_up)
unfolding set_up engines_in
run-IsLockstep turns =
    subst IsLockstep (sym (run-phase_after turns unstarted))
      (engines_in-IsLockstep (phase_after turns unstarted))

-- The turns of n rounds, each engine in order.
unfoldable pub rounds : List Bool → List Bool → ℕ → List Turn
rounds data_services trade_services zero = []
rounds data_services trade_services (suc n) =
    md_reads data_services
    ∷ cp_reads_md
    ∷ td_reads trade_services
    ∷ cp_reads_td
    ∷ rounds data_services trade_services n
