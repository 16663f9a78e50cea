-- ===== src/Tests/Replays.antt =====
-- A file of bars after its header, with a row of a bar and one that does not convert.
use btrader.Prelude.{
  ℕ, suc, ◌*◌, ◌+◌, ◌-◌, ◌≡◌, refl, true, Option, none, some, List, [], ◌∷◌, ◌++◌, length,
}
use btrader.Prelude.Int.{ℤ, pos}
use btrader.Csv.Reader.{CsvReader, is_open, read_all_rows}
use btrader.FileData.{FileDataService}
use btrader.FileData.Replay.{until_false, written_by, replay_read, until_false-read_all_rows}
use btrader.Tests.Tenths.{tenths}
use btrader.Tests.Feeds.{stod, memory_bar}

abbrev rows : List ℕ
rows =
    (55 ∷ 44 ∷ 53 ∷ 44 ∷ 54 ∷ 44 ∷ 52 ∷ 44 ∷ 53 ∷ 44 ∷ 57 ∷ [])
    ++ (10 ∷ 56 ∷ 44 ∷ 53 ∷ 53 ∷ 44 ∷ 54 ∷ 44 ∷ 52 ∷ 44 ∷ 53 ∷ 44 ∷ 57 ∷ [])

abbrev reader : CsvReader
reader = record {
  content = rows;
  rest = rows;
  file_open = true;
  is_good = true;
  marks = record { delimiter = 44; quote_char = 34 };
  headers = [];
  header_read = true;
  estimated_rows = 0;
}

abbrev service : FileDataService ℕ
service = record { reader = reader; row_buffer = []; row_count = 0; written = [] }

-- One digit; the days are their digits.
abbrev stol : List ℕ → Option ℤ
stol (c ∷ []) = some (pos (c - 48))
stol _ = none

abbrev day_range : List ℕ → ℤ × ℤ
day_range (c ∷ []) = (pos (100 * (c - 48)), pos (100 * (c - 48) + 99))
day_range _ = (pos 0, pos 0)

reader_open : is_open reader ≡ true
unfolding is_open
reader_open = refl

until_false-read_all_rows_example :
    written_by stod stol day_range memory_bar
      (until_false stod stol day_range memory_bar (suc (length rows)) service)
    ≡ replay_read stod stol day_range memory_bar (read_all_rows reader) []
until_false-read_all_rows_example =
    until_false-read_all_rows stod stol day_range memory_bar service reader_open refl
