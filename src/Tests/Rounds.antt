-- ===== src/Tests/Rounds.antt =====
-- The turns of the engines of a backtest with one data service and two trading services.
use btrader.Prelude.{true, false, List, [], ◌∷◌}
use btrader.Engines.{set_up, Turn, cp_active, cp_reads_md, cp_reads_td, md_reads, td_reads, run}
use btrader.Engines.Lockstep.{IsLockstep, run-IsLockstep}

-- Out of order, and with a service that fails.
abbrev turns : List Turn
turns =
    td_reads (true ∷ true ∷ [])
    ∷ cp_active
    ∷ md_reads (true ∷ [])
    ∷ md_reads (true ∷ [])
    ∷ cp_reads_md
    ∷ cp_active
    ∷ td_reads (true ∷ false ∷ [])
    ∷ cp_reads_td
    ∷ []

run-IsLockstep_example : IsLockstep (run turns set_up)
run-IsLockstep_example = run-IsLockstep turns
