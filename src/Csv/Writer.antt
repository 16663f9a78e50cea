-- ===== src/Csv/Writer.antt =====
-- infra/csv.cpp: class CSVWriter. The file is the bytes written to it; a stream that fails is not
-- modelled, so a file that is open stays good. `capacity` is what reserve obtained for the buffer.
-- set_buffer_size is left out: where it moves the buffer, the bytes beyond its size of 0 are lost.
use btrader.Prelude.{
  ℕ, ◌+◌, ◌*◌, ◌/◌, Bool, true, false, not, ◌&&◌, List, [], ◌∷◌, ◌++◌, ltb, leb, if◌then◌else◌,
  length,
}
use Prim.Native.Nat.{min, max}
use btrader.Csv.Fields.{Marks}

pub record CsvWriter : Type 0 where
  pub file : List ℕ
  pub is_open : Bool
  pub marks : Marks
  pub header_written : Bool
  pub buffer_size : ℕ
  -- write_buffer_ up to buffer_pos_
  pub buffered : List ℕ
  pub capacity : ℕ

-- The constructor, where the file can be opened.
unfoldable pub opened : Marks → ℕ → CsvWriter
opened m size = record {
  file = [];
  is_open = true;
  marks = m;
  header_written = false;
  buffer_size = size;
  buffered = [];
  capacity = size;
}

unfoldable pub reserve : ℕ → CsvWriter → CsvWriter
reserve n w = record w { capacity = max w.capacity n }

unfoldable pub flush : CsvWriter → CsvWriter
flush w =
    if w.is_open && ltb 0 (length w.buffered)
    then record w { file = w.file ++ w.buffered; buffered = [] }
    else w

unfoldable pub close : CsvWriter → CsvWriter
close w = record (flush w) { is_open = false }

-- The field goes to the buffer where it is no larger than that, else to the file.
unfoldable pub store_field : List ℕ → CsvWriter → CsvWriter
store_field field w =
    let flushed = flush w in
    if leb (length field) w.buffer_size
    then record w { buffered = w.buffered ++ field }
    else record flushed { file = flushed.file ++ field }

unfoldable pub write_field : List ℕ → CsvWriter → CsvWriter
write_field field w =
    store_field field (if ltb w.buffer_size (length w.buffered + length field) then flush w else w)

-- The loop of write_row, where the first field has no delimiter before it.
unfoldable pub write_fields : List (List ℕ) → CsvWriter → CsvWriter
write_fields [] w = w
write_fields (field ∷ row) w =
    write_fields row (write_field field (write_field (w.marks.delimiter ∷ []) w))

unfoldable pub row_fields : List (List ℕ) → CsvWriter → CsvWriter
row_fields [] w = w
row_fields (field ∷ row) w = write_fields row (write_field field w)

unfoldable pub write_row : List (List ℕ) → CsvWriter → CsvWriter × Bool
write_row row w = if w.is_open then (write_field (10 ∷ []) (row_fields row w), true) else (w, false)

unfoldable pub write_header : List (List ℕ) → CsvWriter → CsvWriter × Bool
write_header headers w =
    let (written, success) = write_row headers w in
    if not w.is_open
    then (w, false)
    else if w.header_written
    then (w, false)
    else (if success then record written { header_written = true } else written, success)

-- The bytes that write_rows counts for a row.
unfoldable pub estimated_size : List (List ℕ) → ℕ
estimated_size [] = 1
estimated_size (field ∷ row) = length field + 2 + estimated_size row

unfoldable pub estimated_total : List (List (List ℕ)) → ℕ
estimated_total [] = 0
estimated_total (row ∷ rows) = estimated_size row + estimated_total rows

abbrev pub is_nonempty {ℓ} : {A : Type ℓ} → List A → Bool
is_nonempty [] = false
is_nonempty (x ∷ xs) = true

abbrev pub first_nonempty : List (List (List ℕ)) → Bool
first_nonempty [] = false
first_nonempty (row ∷ rows) = is_nonempty row

-- The loop of write_rows, which stops at the first row that fails.
unfoldable pub write_each : List (List (List ℕ)) → CsvWriter → CsvWriter × Bool
write_each [] w = (w, true)
write_each (row ∷ rows) w =
    let (written, success) = write_row row w in
    let rest = write_each rows written in if success then rest else (written, false)

unfoldable pub write_rows : List (List (List ℕ)) → CsvWriter → CsvWriter × Bool
write_rows rows w =
    let room =
      if first_nonempty rows
      then reserve (min (estimated_total rows / length rows * 10) w.buffer_size) w
      else w in
    if w.is_open then write_each rows room else (w, false)
