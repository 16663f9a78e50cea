-- ===== src/FileData.antt =====
-- broker/filedataservice/filedataservice.cpp: bars from the rows of a CSV file, one for each signal.
-- `stod` and `stol` are those of std, none where they throw, and `day_range` is strptimerange of
-- infra/time.cpp, with its strptime. A bar starts from the memory that it is built in; the customer
-- is set.
pub mod Replay
use btrader.Prelude.{
  ℕ, zero, suc, ◌+◌, Bool, true, false, not, ◌||◌, Option, none, some, List, [], ◌∷◌, ◌++◌,
  if◌then◌else◌, get_elem?,
}
use btrader.Prelude.Int.{ℤ, pos, pos_part, ltb_ℤ}
use btrader.Double.{Double}
use btrader.CharArray.{Chars, assign, empty_array}
use btrader.Json.{Lookup, found, thrown, undefined, ◌>>=◌}
use btrader.Types.Enums.{InstrumentType}
use btrader.Types.{Bar, instrument_id_len, exchange_id_len, date_len}
use btrader.Csv.Reader.{CsvReader, is_open, read_header, read_row_into, close}

pub data Output {ℓ} (D : Type ℓ) : Type ℓ where
  bar : Bar D → Output D
  termination : Output D

-- What it keeps, and what it wrote, newest first.
pub record FileDataService {ℓ} (D : Type ℓ) : Type ℓ where
  pub reader : CsvReader
  pub row_buffer : List (List ℕ)
  pub row_count : ℕ
  pub written : List (Output D)

-- setup, where the file can be opened
unfoldable pub set_up {ℓ} : {D : Type ℓ} → CsvReader → FileDataService D
set_up reader = record { reader = reader; row_buffer = []; row_count = 0; written = [] }

-- Only what the reader does to its header matters.
unfoldable pub start {ℓ} : {D : Type ℓ} → FileDataService D → FileDataService D
start s = if not (is_open s.reader) then s else record s { reader = (read_header s.reader).0 }

unfoldable pub stop {ℓ} : {D : Type ℓ} → FileDataService D → FileDataService D
stop s = record s { reader = close s.reader }

-- "BACKTEST", as a C string
abbrev pub backtest : Chars
backtest = (66 ∷ 65 ∷ 67 ∷ 75 ∷ 84 ∷ 69 ∷ 83 ∷ 84 ∷ []) ++ (0 ∷ [])

abbrev pub column : ℕ → List (List ℕ) → Lookup (List ℕ)
column i row = elim (get_elem? row i) [ none ↦ undefined | some text ↦ found text ]

abbrev pub converted {ℓ} : {A : Type ℓ} → (List ℕ → Option A) → List ℕ → Lookup A
converted convert text = elim (convert text) [ none ↦ thrown | some x ↦ found x ]

module _ {ℓ} {D : Type ℓ} ⦃d : Double D⦄ (stod : List ℕ → Option D) (stol : List ℕ → Option ℤ)
    (day_range : List ℕ → ℤ × ℤ) (memory : Bar D) where
  open d use {of_int, zero}

  abbrev pub dated : List ℕ → Bar D → Option (Bar D)
  dated date b =
      let (start_time, end_time) = day_range date in
      if not (ltb_ℤ (pos 0) start_time) || not (ltb_ℤ (pos 0) end_time)
      then none
      else some (record b {
        start_time = pos_part start_time;
        end_time = pos_part end_time;
        trading_day = empty_array date_len;
        instrument_id = assign (empty_array instrument_id_len) backtest;
        exchange_id = assign (empty_array exchange_id_len) backtest;
        instrument_type = InstrumentType.stock;
        tick_count = 1;
        start_volume = zero;
      })

  -- The bar of a row, where its days are valid. A missing column is undefined behaviour.
  unfoldable pub bar_of : List (List ℕ) → Lookup (Option (Bar D))
  bar_of row = do
    close_text ← column 1 row
    close ← converted stod close_text
    high_text ← column 2 row
    high ← converted stod high_text
    low_text ← column 3 row
    low ← converted stod low_text
    open_text ← column 4 row
    open_price ← converted stod open_text
    volume_text ← column 5 row
    volume ← converted stol volume_text
    date ← column 0 row
    found (
        dated date (record memory {
          close = close;
          high = high;
          low = low;
          open_price = open_price;
          volume = of_int volume;
        }))

  -- What a row makes the service write, if anything; the catch clause writes nothing.
  abbrev pub output_of : Lookup (Option (Bar D)) → Option (Option (Output D))
  output_of (found none) = some none
  output_of (found (some b)) = some (some (bar b))
  output_of thrown = some none
  output_of undefined = none

  abbrev pub write_all :
      Option (Option (Output D)) → FileDataService D → Option (FileDataService D × Bool)
  write_all none s = none
  write_all (some none) s = some (s, true)
  write_all (some (some o)) s =
      some (record s { written = o ∷ s.written; row_count = s.row_count + 1 }, true)

  -- The object and what the call returns; none, where the behaviour is undefined.
  unfoldable pub handle_backtest_sync_signal : FileDataService D → Option (FileDataService D × Bool)
  handle_backtest_sync_signal s =
      let (after, (row, success)) = read_row_into s.row_buffer s.reader in
      let read = record s { reader = after; row_buffer = row } in
      if not success
      then some (record read { written = termination ∷ read.written }, false)
      else write_all (output_of (bar_of row)) read
