-- ===== src/Csv/Rows.antt =====
-- The rows that CSVWriter is given, and the bytes that the file holds after them.
use mathlib.Core.List.{append_assoc, append-nil}
use Prim.Native.Nat.{min}
use btrader.Prelude.{
  ℕ, ◌*◌, ◌/◌, ◌≡◌, refl, sym, ap, subst, ◌∙◌, Bool, true, false, not, List, [], ◌∷◌, ◌++◌, arith,
  if◌then◌else◌, if_true, if_false, length,
}
use btrader.Csv.Writer.{
  CsvWriter, reserve, close, write_field, row_fields, write_row, write_header, write_each,
  write_rows, first_nonempty, estimated_total,
}
use btrader.Csv.Output.{
  output, raw_row, raw_lines, IsSound, Appends, Appends-refl, Appends-trans, flush-eq-emptied,
  row_fields-Appends, write_field-Appends,
}

-- What a call returns where it succeeds: the writer, and true.
Succeeds : CsvWriter → CsvWriter × Bool → List ℕ → Type 0
Succeeds w r bytes = (r.1 ≡ true) × Appends w r.0 bytes

write_row-Succeeds :
    (row : List (List ℕ)) (w : CsvWriter)
    → IsSound w
    → Succeeds w (write_row row w) (raw_row w.marks row ++ 10 ∷ [])
unfolding write_row Succeeds
write_row-Succeeds row w s =
    let v = row_fields row w in
    let fields = row_fields-Appends row w s in
    let line = write_field-Appends (10 ∷ []) v fields.sound in
    subst (λ r. Succeeds w r (raw_row w.marks row ++ 10 ∷ []))
      (sym (if_true w.is_open (write_field (10 ∷ []) v, true) (w, false) s.open_file))
      (
        refl,
        Appends-trans w v (write_field (10 ∷ []) v) (raw_row w.marks row) (10 ∷ []) fields line,
      )

write_each-Succeeds :
    (rows : List (List (List ℕ))) (w : CsvWriter)
    → IsSound w
    → Succeeds w (write_each rows w) (raw_lines w.marks rows)
unfolding write_each raw_lines Succeeds
write_each-Succeeds [] w s = (refl, Appends-refl w s)
write_each-Succeeds (row ∷ rows) w s =
    let v = (write_row row w).0 in
    let (success, first) = write_row-Succeeds row w s in
    let (every, rest) = write_each-Succeeds rows v first.sound in
    subst (λ r. Succeeds w r (raw_row w.marks row ++ 10 ∷ raw_lines w.marks rows))
      (sym (if_true (write_row row w).1 (write_each rows v) (v, false) success))
      (
        every,
        subst (λ bs. Appends w (write_each rows v).0 bs)
            (append_assoc (raw_row w.marks row) (10 ∷ []) (raw_lines w.marks rows))
            (Appends-trans w v (write_each rows v).0 (raw_row w.marks row ++ 10 ∷ [])
              (raw_lines w.marks rows) first
              (subst (λ m. Appends v (write_each rows v).0 (raw_lines m rows)) first.same_marks
                rest)),
      )

reserve-Appends : (n : ℕ) (w : CsvWriter) → IsSound w → Appends w (reserve n w) []
unfolding reserve
reserve-Appends n w s = record {
  sound = record {
    open_file = s.open_file;
    within = omega (arith, s.within);
    room = omega (arith, s.room);
  };
  same_marks = refl;
  same_header = refl;
  content = sym (append-nil (output w));
}

reserve_if-Appends :
    (b : Bool) (n : ℕ) (w : CsvWriter) → IsSound w → Appends w (if b then reserve n w else w) []
reserve_if-Appends true n w s = reserve-Appends n w s
reserve_if-Appends false n w s = Appends-refl w s

write_rows-Succeeds :
    (rows : List (List (List ℕ))) (w : CsvWriter)
    → IsSound w
    → Succeeds w (write_rows rows w) (raw_lines w.marks rows)
unfolding write_rows Succeeds
write_rows-Succeeds rows w s =
    let n = min (estimated_total rows / length rows * 10) w.buffer_size in
    let v = if first_nonempty rows then reserve n w else w in
    let room = reserve_if-Appends (first_nonempty rows) n w s in
    let (every, rest) = write_each-Succeeds rows v room.sound in
    subst (λ r. Succeeds w r (raw_lines w.marks rows))
      (sym (if_true w.is_open (write_each rows v) (w, false) s.open_file))
      (
        every,
        Appends-trans w v (write_each rows v).0 [] (raw_lines w.marks rows) room
            (subst (λ m. Appends v (write_each rows v).0 (raw_lines m rows)) room.same_marks rest),
      )

-- An open writer takes every row, and a file that is closed after it holds the lines, each with the
-- fields as they are; no byte is lost in the buffer, which stays within the memory it reserved.
pub write_rows-lines :
    (rows : List (List (List ℕ))) (w : CsvWriter)
    → IsSound w
    → ((write_rows rows w).1 ≡ true)
      × (IsSound (write_rows rows w).0
          × ((close (write_rows rows w).0).file ≡ output w ++ raw_lines w.marks rows))
unfolding close Succeeds
write_rows-lines rows w s =
    let (every, done) = write_rows-Succeeds rows w s in
    (
      every,
      (
        done.sound,
        ap (λ (v : CsvWriter). v.file) (flush-eq-emptied (write_rows rows w).0 done.sound.open_file)
            ∙ done.content,
      ),
    )

abbrev with_header : CsvWriter → CsvWriter
with_header w = record w { header_written = true }

write_header-first :
    (headers : List (List ℕ)) (w : CsvWriter)
    → IsSound w
    → w.header_written ≡ false
    → write_header headers w ≡ (with_header (write_row headers w).0, true)
unfolding write_header Succeeds
write_header-first headers w s fresh =
    let v = (write_row headers w).0 in
    let (success, line) = write_row-Succeeds headers w s in
    if_false (not w.is_open) _ _ (ap not s.open_file)
    ∙ if_false w.header_written _ _ fresh
    ∙ ap (λ b. ((if b then with_header v else v), b)) success

write_header-refused :
    (headers : List (List ℕ)) (w : CsvWriter)
    → w.is_open ≡ true
    → w.header_written ≡ true
    → write_header headers w ≡ (w, false)
unfolding write_header
write_header-refused headers w open_file done =
    if_false (not w.is_open) _ _ (ap not open_file) ∙ if_true w.header_written _ _ done

-- An open writer takes one header: the first call writes its line, and a later one writes nothing
-- and fails.
pub write_header-once :
    (headers : List (List ℕ)) (w : CsvWriter)
    → IsSound w
    → w.header_written ≡ false
    → ((write_header headers w).1 ≡ true)
      × ((output (write_header headers w).0 ≡ output w ++ (raw_row w.marks headers ++ 10 ∷ []))
          × ((again : List (List ℕ))
              → write_header again (write_header headers w).0
                ≡ ((write_header headers w).0, false)))
unfolding Succeeds
write_header-once headers w s fresh =
    let v = with_header (write_row headers w).0 in
    let (success, line) = write_row-Succeeds headers w s in
    subst
      (λ (r : CsvWriter × Bool).
        (r.1 ≡ true)
        × ((output r.0 ≡ output w ++ (raw_row w.marks headers ++ 10 ∷ []))
            × ((again : List (List ℕ)) → write_header again r.0 ≡ (r.0, false))))
      (sym (write_header-first headers w s fresh))
      (refl, (line.content, λ again. write_header-refused again v line.sound.open_file refl))

pub write_header-IsSound :
    (headers : List (List ℕ)) (w : CsvWriter)
    → IsSound w
    → w.header_written ≡ false
    → IsSound (write_header headers w).0 × ((write_header headers w).0.marks ≡ w.marks)
unfolding Succeeds
write_header-IsSound headers w s fresh =
    let (success, line) = write_row-Succeeds headers w s in
    subst (λ (r : CsvWriter × Bool). IsSound r.0 × (r.0.marks ≡ w.marks))
      (sym (write_header-first headers w s fresh))
      (
        record {
          open_file = line.sound.open_file;
          within = line.sound.within;
          room = line.sound.room;
        },
        line.same_marks,
      )
