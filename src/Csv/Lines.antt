-- ===== src/Csv/Lines.antt =====
-- What CSVReader makes of the lines of a file.
use mathlib.Core.List.{append_assoc}
use btrader.Prelude.{
  ℕ, zero, suc, ◌≤◌, ◌<◌, ◌≡◌, refl, ap, ◌∙◌, Bool, true, false, not, Option, none, some, List, [],
  ◌∷◌, ◌++◌, ◌==◌, ==_iff, if◌then◌else◌, if_false, length, length-append, arith,
}
use btrader.Csv.Fields.{Marks, has_byte, parse_line_into}
use btrader.Csv.Output.{raw_row, raw_lines}
use btrader.Csv.Reader.{
  CsvReader, is_open, line_of, after_line, has_newline, getline, getline_from, row_from,
  read_row_into, with_row, read_rows, read_all_rows,
}
use btrader.Csv.Plain.{
  clean_row, plain_row, plain_rows, no_newline, parse_line_into-plain, line_of-append,
  after_line-append, has_newline-append,
}

-- The reader is good, and t is what is left of its file.
abbrev pub before : CsvReader → List ℕ → CsvReader
before r t = record r { rest = t; is_good = true }

getline_from-line :
    (r : CsvReader) (s t : List ℕ)
    → has_byte 10 s ≡ false
    → getline_from r (s ++ 10 ∷ t) ≡ (before r t, some s)
unfolding has_byte line_of after_line has_newline
getline_from-line r [] t h = refl
getline_from-line r (c ∷ s) t h =
    ap
      (λ after. (
        record r { rest = after; is_good = has_newline (c ∷ (s ++ 10 ∷ t)) },
        some (line_of (c ∷ (s ++ 10 ∷ t))),
      ))
      (after_line-append (c ∷ s) t h)
    ∙ ap (λ good. (record r { rest = t; is_good = good }, some (line_of (c ∷ (s ++ 10 ∷ t)))))
        (has_newline-append (c ∷ s) t)
    ∙ ap (λ line. (before r t, some line)) (line_of-append (c ∷ s) t h)

pub getline-line :
    (r : CsvReader) (s t : List ℕ)
    → r.rest ≡ s ++ 10 ∷ t
    → has_byte 10 s ≡ false
    → getline r ≡ (before r t, some s)
unfolding getline
getline-line r s t e h = ap (getline_from r) e ∙ getline_from-line r s t h

-- A reader that gives rows.
record IsReading (r : CsvReader) : Type 0 where
  ready : is_open r ≡ true
  header : r.header_read ≡ true

read_row_into-open :
    (row : List (List ℕ)) (r : CsvReader)
    → IsReading r
    → read_row_into row r ≡ row_from row (getline r)
unfolding read_row_into
read_row_into-open row r reading =
    if_false (not (is_open r)) _ _ (ap not reading.ready)
    ∙ if_false (not r.header_read) _ _ (ap not reading.header)

read_row_into-line :
    (row : List (List ℕ)) (r : CsvReader) (s t : List ℕ)
    → IsReading r
    → r.rest ≡ s ++ 10 ∷ t
    → has_byte 10 s ≡ false
    → read_row_into row r ≡ (before r t, parse_line_into r.marks s)
read_row_into-line row r s t reading e h =
    read_row_into-open row r reading ∙ ap (row_from row) (getline-line r s t e h)

before-IsReading : (r : CsvReader) (t : List ℕ) → IsReading r → IsReading (before r t)
unfolding is_open
before-IsReading r t h = record { ready = ground (arith, h.ready); header = h.header }

-- The rows of a result of the loop.
unfoldable pub rows_of : Option (CsvReader × List (List (List ℕ))) → Option (List (List (List ℕ)))
rows_of none = none
rows_of (some (r, rows)) = some rows

-- The text is at its end, or goes on with an empty line.
unfoldable pub ends_rows : List ℕ → Bool
ends_rows [] = true
ends_rows (c ∷ cs) = c == 10

with_row-rows_of :
    (row : List (List ℕ)) (rows : List (List (List ℕ)))
    (o : Option (CsvReader × List (List (List ℕ))))
    → rows_of o ≡ some rows
    → rows_of (with_row row o) ≡ some (row ∷ rows)
unfolding rows_of
with_row-rows_of row rows none h = ground (arith, h)
with_row-rows_of row rows (some (r, read)) h = ground (arith, h)

read_rows-last :
    (fuel : ℕ) (r : CsvReader)
    → (read_row_into [] r).1.1 ≡ false
    → rows_of (read_rows (suc fuel) r) ≡ some []
unfolding read_rows rows_of
read_rows-last fuel r h = ap rows_of (if_false (read_row_into [] r).1.1 _ _ h)

read_rows-more :
    (fuel : ℕ) (r after : CsvReader) (row : List (List ℕ)) (rows : List (List (List ℕ)))
    → read_row_into [] r ≡ (after, (row, true))
    → rows_of (read_rows fuel after) ≡ some rows
    → rows_of (read_rows (suc fuel) r) ≡ some (row ∷ rows)
unfolding read_rows
read_rows-more fuel r after row rows e h =
    ap
      (λ (p : CsvReader × (List (List ℕ) × Bool)).
        rows_of (if p.1.1 then with_row p.1.0 (read_rows fuel p.0) else some (p.0, [])))
      e
    ∙ with_row-rows_of row rows (read_rows fuel after) h

read_rows-end :
    (fuel : ℕ) (r : CsvReader) (tail : List ℕ)
    → IsReading r
    → r.rest ≡ tail
    → ends_rows tail ≡ true
    → rows_of (read_rows (suc fuel) r) ≡ some []
unfolding ends_rows has_byte getline parse_line_into
read_rows-end fuel r [] reading e h = read_rows-last fuel r (
    ap (λ (p : CsvReader × (List (List ℕ) × Bool)). p.1.1) (read_row_into-open [] r reading)
    ∙ ap (λ bs. (row_from [] (getline_from r bs)).1.1) e)
read_rows-end fuel r (c ∷ cs) reading e h = read_rows-last fuel r (
    ap (λ (p : CsvReader × (List (List ℕ) × Bool)). p.1.1)
      (read_row_into-line [] r [] cs reading (e ∙ ap (λ d. d ∷ cs) ((==_iff c 10).0 h)) refl))

read_rows-plain :
    (fuel : ℕ) (m : Marks) (r : CsvReader) (rows : List (List (List ℕ))) (tail : List ℕ)
    → (m.delimiter == m.quote_char) ≡ false
    → (m.delimiter == 10) ≡ false
    → IsReading r
    → r.marks ≡ m
    → r.rest ≡ raw_lines m rows ++ tail
    → plain_rows m rows ≡ true
    → ends_rows tail ≡ true
    → length rows < fuel
    → rows_of (read_rows fuel r) ≡ some rows
unfolding raw_lines plain_rows plain_row
read_rows-plain zero m r rows tail apart one_line reading marks e h end f =
    absurd (omega (arith, f))
read_rows-plain (suc fuel) m r [] tail apart one_line reading marks e h end f =
    read_rows-end fuel r tail reading e end
read_rows-plain (suc fuel) m r (row ∷ rows) tail apart one_line reading marks e h end f =
    let t = raw_lines m rows ++ tail in
    let plain : plain_row m row ≡ true = ground arith in
    let clean : clean_row m row ≡ true = ground arith in
    let line =
      read_row_into-line [] r (raw_row m row) t reading
        (e ∙ append_assoc (raw_row m row) (10 ∷ raw_lines m rows) tail)
        (no_newline m apart one_line row clean) in
    read_rows-more fuel r (before r t) row rows
      (line
        ∙ ap (λ k. (before r t, parse_line_into k (raw_row m row))) marks
        ∙ ap (λ p. (before r t, p)) (parse_line_into-plain m apart one_line row plain))
      (read_rows-plain fuel m (before r t) rows tail apart one_line (before-IsReading r t reading)
        marks refl (ground arith) end (omega (arith, f)))

rows-lines : (m : Marks) (rows : List (List (List ℕ))) → length rows ≤ length (raw_lines m rows)
unfolding raw_lines
rows-lines m [] = omega arith
rows-lines m (row ∷ rows) =
    omega (arith, rows-lines m rows, length-append (raw_row m row) (10 ∷ raw_lines m rows))

-- For a reader that is open, has read its header, and whose delimiter is neither its quote character
-- nor a newline: where what is left of the file is the lines of rows without delimiters, quotes and
-- newlines, none an empty line, and then the end of the file or an empty line, read_all_rows
-- returns those rows; it reads nothing that follows an empty line.
pub read_all_rows-lines :
    (r : CsvReader) (rows : List (List (List ℕ))) (tail : List ℕ)
    → (r.marks.delimiter == r.marks.quote_char) ≡ false
    → (r.marks.delimiter == 10) ≡ false
    → is_open r ≡ true
    → r.header_read ≡ true
    → r.rest ≡ raw_lines r.marks rows ++ tail
    → plain_rows r.marks rows ≡ true
    → ends_rows tail ≡ true
    → rows_of (read_all_rows r) ≡ some rows
unfolding read_all_rows
read_all_rows-lines r rows tail apart one_line ready header e h end =
    let enough : length rows < suc (length r.rest) =
      omega (
        arith,
        ap length e,
        rows-lines r.marks rows,
        length-append (raw_lines r.marks rows) tail,
      ) in
    ap rows_of (
      if_false (not (is_open r)) _ _ (ap not ready)
      ∙ if_false (not r.header_read) _ _ (ap not header))
    ∙ read_rows-plain (suc (length r.rest)) r.marks r rows tail apart one_line
        (record { ready = ready; header = header }) refl e h end enough
