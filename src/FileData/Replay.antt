-- ===== src/FileData/Replay.antt =====
-- The signals of a backtest replay the rows of the file.
use btrader.Prelude.{
  ℕ, zero, suc, ◌+◌, ◌≡◌, refl, sym, ap, ◌∙◌, Bool, true, false, not, Bool-cases, Option-cases, inl,
  inr, Option, none, some, List, [], ◌∷◌, if◌then◌else◌, if_true, if_false, length, arith,
}
use btrader.Prelude.Int.{ℤ}
use btrader.Double.{Double}
use btrader.Types.{Bar}
use btrader.Csv.Reader.{
  CsvReader, is_open, getline, row_from, read_row_into, with_row, read_rows, read_all_rows,
}
use btrader.FileData.{
  Output, termination, FileDataService, bar_of, output_of, write_all, handle_backtest_sync_signal,
}

-- Two reads of a row into different vectors.
record SameRow (p q : CsvReader × (List (List ℕ) × Bool)) : Type 0 where
  reader : p.0 ≡ q.0
  success : p.1.1 ≡ q.1.1
  row : q.1.1 ≡ true → p.1.0 ≡ q.1.0

in_both :
    (test : Bool) {u v x y : CsvReader × (List (List ℕ) × Bool)}
    → SameRow u x
    → SameRow v y
    → SameRow (if test then u else v) (if test then x else y)
in_both true h k = h
in_both false h k = k

no_row : (r : CsvReader) (row other : List (List ℕ)) → SameRow (r, (row, false)) (r, (other, false))
no_row r row other = record { reader = refl; success = refl; row = λ e. absurd (ground (arith, e)) }

row_from-SameRow :
    (row other : List (List ℕ)) (p : CsvReader × Option (List ℕ))
    → SameRow (row_from row p) (row_from other p)
row_from-SameRow row other (r, none) = no_row r row other
row_from-SameRow row other (r, some line) = record {
  reader = refl;
  success = refl;
  row = λ e. refl;
}

read_row_into-SameRow :
    (row other : List (List ℕ)) (r : CsvReader)
    → SameRow (read_row_into row r) (read_row_into other r)
unfolding read_row_into
read_row_into-SameRow row other r =
    in_both (not (is_open r)) (no_row r row other)
      (in_both (not r.header_read) (no_row r row other) (row_from-SameRow row other (getline r)))

module _ {ℓ} {D : Type ℓ} ⦃d : Double D⦄ (stod : List ℕ → Option D) (stol : List ℕ → Option ℤ)
    (day_range : List ℕ → ℤ × ℤ) (memory : Bar D) where
  -- What a row makes the service write.
  abbrev pub output_for : List (List ℕ) → Option (Option (Output D))
  output_for row = output_of stod stol day_range memory (bar_of stod stol day_range memory row)

  abbrev pub after_output : Option (Output D) → List (Output D) → List (Output D)
  after_output none written = written
  after_output (some o) written = o ∷ written

  abbrev after_signal :
      (FileDataService D → Option (FileDataService D))
      → Option (FileDataService D × Bool)
      → Option (FileDataService D)
  after_signal rest none = none
  after_signal rest (some (after, more)) = if more then rest after else some after

  -- Signal after signal, until one returns false; none without fuel, or where the behaviour is
  -- undefined.
  unfoldable pub until_false : ℕ → FileDataService D → Option (FileDataService D)
  until_false zero s = none
  until_false (suc fuel) s =
      after_signal (until_false fuel) (handle_backtest_sync_signal stod stol day_range memory s)

  abbrev pub written_by : Option (FileDataService D) → Option (List (Output D))
  written_by none = none
  written_by (some s) = some s.written

  -- The outputs of the rows, and a termination behind them.
  unfoldable pub replayed : List (List (List ℕ)) → List (Output D) → Option (List (Output D))
  replayed [] written = some (termination ∷ written)
  replayed (row ∷ rows) written = elim (output_for row) [
    | none ↦ none
    | some output ↦ replayed rows (after_output output written)
  ]

  abbrev pub replay_read :
      Option (CsvReader × List (List (List ℕ))) → List (Output D) → Option (List (Output D))
  replay_read none written = none
  replay_read (some (last, rows)) written = replayed rows written

  Replays : ℕ → FileDataService D → Type ℓ
  Replays fuel s = written_by (until_false fuel s) ≡ replay_read (read_rows fuel s.reader) s.written

  write_all-replay :
      (o : Option (Option (Output D))) (fuel : ℕ) (s : FileDataService D) (r : CsvReader)
      → ((t : FileDataService D) → Replays fuel t)
      → s.reader ≡ r
      → written_by (after_signal (until_false fuel) (write_all stod stol day_range memory o s))
        ≡ (elim o [
          | none ↦ none
          | some output ↦ replay_read (read_rows fuel r) (after_output output s.written)
        ])
  unfolding Replays
  write_all-replay none fuel s r rest e = refl
  write_all-replay (some none) fuel s r rest e =
      rest s ∙ ap (λ r. replay_read (read_rows fuel r) s.written) e
  write_all-replay (some (some o)) fuel s r rest e =
      rest (record s { written = o ∷ s.written; row_count = s.row_count + 1 })
      ∙ ap (λ r. replay_read (read_rows fuel r) (o ∷ s.written)) e

  -- What is read behind a row is written behind its output.
  replay_read-with_row :
      (row : List (List ℕ)) (rest : Option (CsvReader × List (List (List ℕ))))
      (written : List (Output D))
      → replay_read (with_row row rest) written ≡ (elim (output_for row) [
        | none ↦ none
        | some output ↦ replay_read rest (after_output output written)
      ])
  unfolding replayed
  replay_read-with_row row none written = elim (Option-cases (output_for row)) [
    | inl e ↦ rw e refl
    | inr (o, e) ↦ rw e refl
  ]
  replay_read-with_row row (some (last, rows)) written = refl

  -- One signal where a row is read, and where none is.
  row-replay :
      (fuel : ℕ) (s : FileDataService D) (p q : CsvReader × (List (List ℕ) × Bool))
      → ((t : FileDataService D) → Replays fuel t)
      → SameRow p q
      → q.1.1 ≡ true
      → written_by (
          after_signal (until_false fuel) (
            let read = record s { reader = p.0; row_buffer = p.1.0 } in
            if not p.1.1
            then some (record read { written = termination ∷ read.written }, false)
            else write_all stod stol day_range memory (output_for p.1.0) read))
        ≡ replay_read (with_row q.1.0 (read_rows fuel q.0)) s.written
  row-replay fuel s p q rest same e =
      let read = record s { reader = p.0; row_buffer = p.1.0 } in
      ap (λ h. written_by (after_signal (until_false fuel) h))
        (if_false (not p.1.1) _ _ (ap not (same.success ∙ e)))
      ∙ write_all-replay (output_for p.1.0) fuel read q.0 rest same.reader
      ∙ sym (replay_read-with_row p.1.0 (read_rows fuel q.0) s.written)
      ∙ ap (λ row. replay_read (with_row row (read_rows fuel q.0)) s.written) (same.row e)

  end-replay :
      (fuel : ℕ) (s : FileDataService D) (p q : CsvReader × (List (List ℕ) × Bool))
      → SameRow p q
      → q.1.1 ≡ false
      → written_by (
          after_signal (until_false fuel) (
            let read = record s { reader = p.0; row_buffer = p.1.0 } in
            if not p.1.1
            then some (record read { written = termination ∷ read.written }, false)
            else write_all stod stol day_range memory (output_for p.1.0) read))
        ≡ some (termination ∷ s.written)
  end-replay fuel s p q same e =
      ap (λ h. written_by (after_signal (until_false fuel) h))
        (if_true (not p.1.1) _ _ (ap not (same.success ∙ e)))

  until_false-replay : (fuel : ℕ) (s : FileDataService D) → Replays fuel s
  unfolding until_false read_rows Replays handle_backtest_sync_signal replayed
  until_false-replay zero s = refl
  until_false-replay (suc fuel) s =
      let p = read_row_into s.row_buffer s.reader in
      let q = read_row_into [] s.reader in
      let same = read_row_into-SameRow s.row_buffer [] s.reader in
      elim (Bool-cases q.1.1) [
        | inl e ↦
            row-replay fuel s p q (until_false-replay fuel) same e
            ∙ ap (λ r. replay_read r s.written) (sym (if_true q.1.1 _ _ e))
        | inr e ↦
            end-replay fuel s p q same e
            ∙ ap (λ r. replay_read r s.written) (sym (if_false q.1.1 _ (some (q.0, [])) e))
      ]

  -- With the file open and its header read, as many signals as there are bytes left in it, and one,
  -- are enough for the service to return false: what it wrote until then are the bars of the rows that
  -- read_all_rows reads, in order, and a termination; rows that fail to convert, or whose days are
  -- not valid, are left out, and where a row misses a column the behaviour is undefined.
  pub until_false-read_all_rows :
      (s : FileDataService D)
      → is_open s.reader ≡ true
      → s.reader.header_read ≡ true
      → written_by (until_false (suc (length s.reader.rest)) s)
        ≡ replay_read (read_all_rows s.reader) s.written
  unfolding read_all_rows Replays
  until_false-read_all_rows s o h =
      until_false-replay (suc (length s.reader.rest)) s
      ∙ ap (λ r. replay_read r s.written)
          (sym (
            if_false (not (is_open s.reader)) _ _ (ap not o)
            ∙ if_false (not s.reader.header_read) _ _ (ap not h)))
