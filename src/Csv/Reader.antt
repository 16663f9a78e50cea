-- ===== src/Csv/Reader.antt =====
-- infra/csv.cpp: class CSVReader on a file that does not change while it is read. `rest` is what the
-- stream has not read yet, and is_good is file_.good(): false once a read met the end of the file.
use btrader.Prelude.{
  ℕ, zero, suc, ◌/◌, Bool, true, false, not, ◌&&◌, Option, none, some, List, [], ◌∷◌, ◌==◌,
  if◌then◌else◌, length,
}
use btrader.Csv.Fields.{Marks, parse_line_into}

pub record CsvReader : Type 0 where
  pub content : List ℕ
  pub rest : List ℕ
  pub file_open : Bool
  pub is_good : Bool
  pub marks : Marks
  pub headers : List (List ℕ)
  pub header_read : Bool
  pub estimated_rows : ℕ

-- The constructor, where the file can be opened.
unfoldable pub opened_on : Marks → List ℕ → CsvReader
opened_on m content = record {
  content = content;
  rest = content;
  file_open = true;
  is_good = true;
  marks = m;
  headers = [];
  header_read = false;
  estimated_rows = length content / 100;
}

unfoldable pub is_open : CsvReader → Bool
is_open r = r.file_open && r.is_good

-- The bytes before the first newline, and those after it.
unfoldable pub line_of : List ℕ → List ℕ
line_of [] = []
line_of (c ∷ cs) = if c == 10 then [] else c ∷ line_of cs

unfoldable pub after_line : List ℕ → List ℕ
after_line [] = []
after_line (c ∷ cs) = if c == 10 then cs else after_line cs

unfoldable pub has_newline : List ℕ → Bool
has_newline [] = false
has_newline (c ∷ cs) = if c == 10 then true else has_newline cs

abbrev pub getline_from : CsvReader → List ℕ → CsvReader × Option (List ℕ)
getline_from r [] = (record r { is_good = false }, none)
getline_from r (c ∷ cs) = (
  record r { rest = after_line (c ∷ cs); is_good = has_newline (c ∷ cs) },
  some (line_of (c ∷ cs)),
)

-- std::getline on a good stream: what it reads, where it reads anything. A line that the end of the
-- file ends is read, and the stream is good no longer.
unfoldable pub getline : CsvReader → CsvReader × Option (List ℕ)
getline r = getline_from r r.rest

abbrev pub header_from : CsvReader × Option (List ℕ) → CsvReader × List (List ℕ)
header_from (r, none) = (r, [])
header_from (r, some line) =
    let fields = (parse_line_into r.marks line).0 in
    (record r { headers = fields; header_read = true }, fields)

unfoldable pub read_header : CsvReader → CsvReader × List (List ℕ)
read_header r =
    if not (is_open r)
    then (r, [])
    else if r.header_read
    then (r, r.headers)
    else header_from (getline r)

-- What becomes of the row that the caller passes, and whether one was read.
abbrev pub row_from :
    List (List ℕ) → CsvReader × Option (List ℕ) → CsvReader × (List (List ℕ) × Bool)
row_from row (r, none) = (r, (row, false))
row_from row (r, some line) = (r, parse_line_into r.marks line)

unfoldable pub read_row_into : List (List ℕ) → CsvReader → CsvReader × (List (List ℕ) × Bool)
read_row_into row r =
    if not (is_open r)
    then (r, (row, false))
    else if not r.header_read
    then (r, (row, false))
    else row_from row (getline r)

unfoldable pub read_row : CsvReader → CsvReader × List (List ℕ)
read_row r =
    let (after, (row, success)) = read_row_into [] r in
    if not (is_open r)
    then (r, [])
    else if not r.header_read
    then (r, [])
    else (after, if success then row else [])

-- The rows that the loop read after one more.
abbrev pub with_row :
    List (List ℕ)
    → Option (CsvReader × List (List (List ℕ)))
    → Option (CsvReader × List (List (List ℕ)))
with_row row none = none
with_row row (some (last, rows)) = some (last, row ∷ rows)

-- The loop of read_all_rows, which none leaves without fuel.
unfoldable pub read_rows : ℕ → CsvReader → Option (CsvReader × List (List (List ℕ)))
read_rows zero r = none
read_rows (suc fuel) r =
    let (after, (row, success)) = read_row_into [] r in
    let rest = read_rows fuel after in if success then with_row row rest else some (after, [])

-- Every turn of the loop reads a byte, or is the last.
unfoldable pub read_all_rows : CsvReader → Option (CsvReader × List (List (List ℕ)))
read_all_rows r =
    if not (is_open r)
    then some (r, [])
    else if not r.header_read
    then some (r, [])
    else read_rows (suc (length r.rest)) r

unfoldable pub reset : CsvReader → CsvReader
reset r =
    if r.file_open
    then record r { rest = r.content; is_good = true; headers = []; header_read = false }
    else r

unfoldable pub close : CsvReader → CsvReader
close r = record r { file_open = false }

unfoldable pub estimate_row_count : CsvReader → ℕ
estimate_row_count r = r.estimated_rows
