-- ===== src/Tests/Series.antt =====
-- Three returns, of 2, 1 and 3, and two more, of 4 and 1.
use btrader.Prelude.{ℕ, List, [], ◌∷◌}
use btrader.Tests.Tenths.{tenths-IsIeee}

abbrev later : List ℕ
later = 10 ∷ 30 ∷ []

abbrev more : List ℕ
more = 40 ∷ 10 ∷ []
