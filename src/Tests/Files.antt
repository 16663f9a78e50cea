-- ===== src/Tests/Files.antt =====
-- Messages as bytes, and a file with a header and two rows.
use btrader.Prelude.{ℕ, ◌≡◌, ◌≢◌, refl, true, none, some, List, [], ◌∷◌, ◌++◌, map, arith}
use btrader.Wire.{Register, Deregister, register_to_string, register_from}
use btrader.Wire.Messages.{register_from-to_string}
use btrader.Csv.Fields.{
  Marks, has_byte, needs_quotes, escape_field, unescape_field, parse_line_into,
}
use btrader.Csv.Quoting.{escaped_row, parse_line_into-escaped_row}
use btrader.Csv.Writer.{CsvWriter, opened, write_rows, close}
use btrader.Csv.Output.{output, raw_row, raw_tail, raw_lines, IsSound, opened-IsSound}
use btrader.Csv.Rows.{write_rows-lines}
use btrader.Csv.Reader.{CsvReader, is_open, opened_on, read_header, read_all_rows}
use btrader.Csv.Plain.{clean_row, plain_row, plain_rows, has_text}
use btrader.Csv.Loop.{read_all_rows-returns}
use btrader.Csv.Lines.{rows_of, ends_rows, read_all_rows-lines}
use btrader.Csv.Files.{written, read_all_rows-written}

-- A simulator that leaves, and one that registers at time 300.
abbrev leaving : Deregister
leaving = record {
  location_uid = 70000;
  category = 1;
  mode = 2;
  group = 115 ∷ [];
  name = 97 ∷ 98 ∷ [];
}

abbrev registering : Register
registering = record {
  location_uid = 70000;
  category = 1;
  mode = 2;
  group = 115 ∷ [];
  name = 97 ∷ 98 ∷ [];
  pid = 300;
  last_active_time = 70000;
  checkin_time = 300;
}

register_from-to_string_example :
    register_from (register_to_string registering ++ []) ≡ some (registering, [])
register_from-to_string_example = register_from-to_string registering [] (
  omega arith,
  omega arith,
  omega arith,
  omega arith,
  omega arith,
  omega arith,
  omega arith,
  omega arith,
)

-- A comma and a double quote.
abbrev marks : Marks
marks = record { delimiter = 44; quote_char = 34 }

-- Two fields, one with a comma and a quote in it.
abbrev comma_field : List ℕ
comma_field = 97 ∷ 44 ∷ 34 ∷ []

abbrev plain_field : List ℕ
plain_field = 98 ∷ []

parse_line_into-escaped_row_example :
    parse_line_into marks (escaped_row marks (comma_field ∷ plain_field ∷ []))
    ≡ (map (unescape_field marks) (comma_field ∷ plain_field ∷ []), true)
unfolding escaped_row escape_field needs_quotes has_byte
parse_line_into-escaped_row_example =
    parse_line_into-escaped_row marks refl comma_field (plain_field ∷ []) (λ e. ground (arith, e))

abbrev names : List (List ℕ)
names = (116 ∷ []) ∷ (112 ∷ 120 ∷ []) ∷ []

abbrev two_rows : List (List (List ℕ))
two_rows = ((49 ∷ []) ∷ (50 ∷ 53 ∷ []) ∷ []) ∷ ([] ∷ (55 ∷ []) ∷ []) ∷ []

-- A writer that buffers four bytes.
abbrev writer : CsvWriter
writer = opened marks 4

write_rows-lines_example :
    ((write_rows two_rows writer).1 ≡ true)
    × (IsSound (write_rows two_rows writer).0
        × ((close (write_rows two_rows writer).0).file
            ≡ output writer ++ raw_lines writer.marks two_rows))
write_rows-lines_example = write_rows-lines two_rows writer (opened-IsSound marks 4)

-- A reader in front of a row, an empty line and another row.
abbrev reader : CsvReader
reader = record (opened_on marks (49 ∷ 10 ∷ 10 ∷ 50 ∷ 10 ∷ [])) { header_read = true }

read_all_rows-returns_example : read_all_rows reader ≢ none
read_all_rows-returns_example = read_all_rows-returns reader

read_all_rows-lines_example : rows_of (read_all_rows reader) ≡ some (((49 ∷ []) ∷ []) ∷ [])
unfolding opened_on is_open raw_lines raw_row raw_tail plain_rows plain_row clean_row has_byte
    has_text ends_rows
read_all_rows-lines_example =
    read_all_rows-lines reader (((49 ∷ []) ∷ []) ∷ []) (10 ∷ 50 ∷ 10 ∷ []) refl refl refl refl refl
      refl refl

read_all_rows-written_example :
    ((read_header (opened_on marks (written marks 4 names two_rows))).1 ≡ names)
    × (rows_of (read_all_rows (read_header (opened_on marks (written marks 4 names two_rows))).0)
        ≡ some two_rows)
unfolding plain_row clean_row has_byte has_text plain_rows
read_all_rows-written_example = read_all_rows-written marks 4 names two_rows refl refl refl refl
