-- ===== src/Csv/Files.antt =====
-- CSVWriter and CSVReader on one file: what is written is read.
use mathlib.Core.List.{append_assoc, append-nil}
use btrader.Prelude.{
  ℕ, ◌≡◌, refl, sym, ap, subst, ◌∙◌, Bool, true, false, some, List, [], ◌∷◌, ◌++◌, ◌==◌, arith,
}
use btrader.Csv.Fields.{Marks}
use btrader.Csv.Writer.{opened, write_header, write_rows, close}
use btrader.Csv.Output.{output, raw_row, raw_lines, opened-IsSound}
use btrader.Csv.Rows.{write_header-once, write_header-IsSound, write_rows-lines}
use btrader.Csv.Reader.{
  CsvReader, opened_on, is_open, getline, header_from, read_header, read_all_rows,
}
use btrader.Csv.Plain.{clean_row, plain_row, plain_rows, no_newline, parse_line_into-plain}
use btrader.Csv.Lines.{before, getline-line, ends_rows, rows_of, read_all_rows-lines}

-- What a file holds that CSVWriter wrote a header and rows to.
unfoldable pub written : Marks → ℕ → List (List ℕ) → List (List (List ℕ)) → List ℕ
written m size headers rows =
    (close (write_rows rows (write_header headers (opened m size)).0).0).file

written-lines :
    (m : Marks) (size : ℕ) (headers : List (List ℕ)) (rows : List (List (List ℕ)))
    → written m size headers rows ≡ raw_row m headers ++ 10 ∷ raw_lines m rows
unfolding written opened
written-lines m size headers rows =
    let w = opened m size in
    let sound = opened-IsSound m size in
    let (after_sound, same) = write_header-IsSound headers w sound refl in
    let v = (write_header headers w).0 in
    (write_rows-lines rows v after_sound).1.1
    ∙ ap (λ k. output v ++ raw_lines k rows) same
    ∙ ap (λ bs. bs ++ raw_lines m rows) (write_header-once headers w sound refl).1.0
    ∙ append_assoc (raw_row m headers) (10 ∷ []) (raw_lines m rows)

-- For a delimiter that is neither the quote character nor a newline, and a header and rows whose
-- fields have none of the three and whose lines are not empty: a CSVReader on the file that a
-- CSVWriter wrote, with any size of buffer, and closed, returns the header, and then all the rows.
pub read_all_rows-written :
    (m : Marks) (size : ℕ) (headers : List (List ℕ)) (rows : List (List (List ℕ)))
    → (m.delimiter == m.quote_char) ≡ false
    → (m.delimiter == 10) ≡ false
    → plain_row m headers ≡ true
    → plain_rows m rows ≡ true
    → ((read_header (opened_on m (written m size headers rows))).1 ≡ headers)
      × (rows_of (read_all_rows (read_header (opened_on m (written m size headers rows))).0)
          ≡ some rows)
unfolding read_header getline opened_on is_open plain_row ends_rows
read_all_rows-written m size headers rows apart one_line h hs =
    let text = written m size headers rows in
    let start = opened_on m text in
    let clean : clean_row m headers ≡ true = ground arith in
    let lines = raw_lines m rows in
    let line =
      getline-line start (raw_row m headers) (raw_lines m rows) (written-lines m size headers rows)
        (no_newline m apart one_line headers clean) in
    let after : List (List ℕ) → CsvReader =
      λ fields. record (before start lines) { headers = fields; header_read = true } in
    let header : read_header start ≡ (after headers, headers) =
      ap header_from line
      ∙ ap (λ (p : List (List ℕ) × Bool). (after p.0, p.0))
          (parse_line_into-plain m apart one_line headers h) in
    subst
      (λ (r : CsvReader × List (List ℕ)).
        (r.1 ≡ headers) × (rows_of (read_all_rows r.0) ≡ some rows))
      (sym header)
      (
        refl,
        read_all_rows-lines (after headers) rows [] apart one_line refl refl
            (sym (append-nil lines)) hs refl,
      )
