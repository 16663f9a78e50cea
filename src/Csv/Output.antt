-- ===== src/Csv/Output.antt =====
-- The buffer of CSVWriter against its specification: a file and the bytes appended to it.
use mathlib.Core.List.{append_assoc, append-nil}
use btrader.Prelude.{
  ℕ, ◌+◌, ◌≤◌, ◌≡◌, refl, sym, ap, ◌∙◌, true, false, Bool-cases, inl, inr, List, [], ◌∷◌, ◌++◌,
  arith, ◌&&◌, subst, ltb, leb, if◌then◌else◌, length, length-append,
}
use btrader.Csv.Fields.{Marks}
use btrader.Csv.Writer.{
  CsvWriter, opened, flush, store_field, write_field, write_fields, row_fields,
}

-- What the file holds once the buffer is flushed.
abbrev pub output : CsvWriter → List ℕ
output w = w.file ++ w.buffered

-- The fields of a row, as they are, between delimiters.
unfoldable pub raw_tail : Marks → List (List ℕ) → List ℕ
raw_tail m [] = []
raw_tail m (field ∷ row) = m.delimiter ∷ (field ++ raw_tail m row)

unfoldable pub raw_row : Marks → List (List ℕ) → List ℕ
raw_row m [] = []
raw_row m (field ∷ row) = field ++ raw_tail m row

unfoldable pub raw_lines : Marks → List (List (List ℕ)) → List ℕ
raw_lines m [] = []
raw_lines m (row ∷ rows) = raw_row m row ++ 10 ∷ raw_lines m rows

-- The writer is open, and what it buffers lies within the memory that it reserved.
pub record IsSound (w : CsvWriter) : Type 0 where
  pub open_file : w.is_open ≡ true
  pub within : length w.buffered ≤ w.capacity
  pub room : w.buffer_size ≤ w.capacity

pub opened-IsSound : (m : Marks) (size : ℕ) → IsSound (opened m size)
unfolding opened
opened-IsSound m size = record { open_file = refl; within = omega arith; room = omega arith }

-- From w to v the bytes were appended, and nothing else changed that a caller sees.
pub record Appends (w v : CsvWriter) (bytes : List ℕ) : Type 0 where
  pub sound : IsSound v
  pub same_marks : v.marks ≡ w.marks
  pub same_header : v.header_written ≡ w.header_written
  pub content : output v ≡ output w ++ bytes

pub Appends-refl : (w : CsvWriter) → IsSound w → Appends w w []
Appends-refl w s = record {
  sound = s;
  same_marks = refl;
  same_header = refl;
  content = sym (append-nil (output w));
}

pub Appends-trans :
    (u v w : CsvWriter) (a b : List ℕ) → Appends u v a → Appends v w b → Appends u w (a ++ b)
Appends-trans u v w a b p q = record {
  sound = q.sound;
  same_marks = q.same_marks ∙ p.same_marks;
  same_header = q.same_header ∙ p.same_header;
  content = q.content ∙ ap (λ bs. bs ++ b) p.content ∙ append_assoc (output u) a b;
}

abbrev emptied : CsvWriter → CsvWriter
emptied w = record w { file = w.file ++ w.buffered; buffered = [] }

length_zero : (bs : List ℕ) → ltb 0 (length bs) ≡ false → bs ≡ []
length_zero [] h = refl
length_zero (b ∷ bs) h = absurd (ground (arith, h))

pub flush-eq-emptied : (w : CsvWriter) → w.is_open ≡ true → flush w ≡ emptied w
unfolding flush
flush-eq-emptied w o =
    ap (λ b. if b && ltb 0 (length w.buffered) then emptied w else w) o
    ∙ elim (Bool-cases (ltb 0 (length w.buffered))) [
      | inl e ↦ ap (λ b. if b then emptied w else w) e
      | inr e ↦
          let none = length_zero w.buffered e in
          ap (λ b. if b then emptied w else w) e
          ∙ ap (λ (b : List ℕ). record w { file = w.file; buffered = b }) none
          ∙ ap (λ (f : List ℕ). record w { file = f; buffered = [] })
              (sym (append-nil w.file) ∙ ap (λ b. w.file ++ b) (sym none))
    ]

emptied-Appends : (w : CsvWriter) → IsSound w → Appends w (emptied w) []
emptied-Appends w s = record {
  sound = record { open_file = s.open_file; within = omega arith; room = s.room };
  same_marks = refl;
  same_header = refl;
  content = refl;
}

store_field-Appends :
    (field : List ℕ) (w : CsvWriter)
    → IsSound w
    → (leb (length field) w.buffer_size ≡ true → length w.buffered + length field ≤ w.buffer_size)
    → Appends w (store_field field w) field
unfolding store_field
store_field-Appends field w s h = elim (Bool-cases (leb (length field) w.buffer_size)) [
  | inl e ↦
      rw (store_field, e)
        (record {
          sound = record {
            open_file = s.open_file;
            within = omega (arith, h e, s.room, length-append w.buffered field);
            room = s.room;
          };
          same_marks = refl;
          same_header = refl;
          content = sym (append_assoc w.file w.buffered field);
        })
  | inr e ↦
      rw (store_field, e, flush-eq-emptied w s.open_file)
        (record {
          sound = record { open_file = s.open_file; within = omega arith; room = s.room };
          same_marks = refl;
          same_header = refl;
          content = append-nil _;
        })
]

pub write_field-Appends :
    (field : List ℕ) (w : CsvWriter) → IsSound w → Appends w (write_field field w) field
unfolding write_field
write_field-Appends field w s =
    elim (Bool-cases (ltb w.buffer_size (length w.buffered + length field))) [
      | inl e ↦
          let empty = emptied-Appends w s in
          rw (write_field, e, flush-eq-emptied w s.open_file)
            (Appends-trans w (emptied w) (store_field field (emptied w)) [] field empty
              (store_field-Appends field (emptied w) empty.sound λ h. ground arith))
      | inr e ↦ rw (write_field, e) (store_field-Appends field w s λ h. ground arith)
    ]

write_fields-Appends :
    (row : List (List ℕ)) (w : CsvWriter)
    → IsSound w
    → Appends w (write_fields row w) (raw_tail w.marks row)
unfolding write_fields raw_tail
write_fields-Appends [] w s = Appends-refl w s
write_fields-Appends (field ∷ row) w s =
    let u = write_field (w.marks.delimiter ∷ []) w in
    let v = write_field field u in
    let mark = write_field-Appends (w.marks.delimiter ∷ []) w s in
    let both =
      Appends-trans w u v (w.marks.delimiter ∷ []) field mark
        (write_field-Appends field u mark.sound) in
    let rest = write_fields-Appends row v both.sound in
    Appends-trans w v (write_fields row v) (w.marks.delimiter ∷ field) (raw_tail w.marks row) both
      (subst (λ m. Appends v (write_fields row v) (raw_tail m row)) both.same_marks rest)

pub row_fields-Appends :
    (row : List (List ℕ)) (w : CsvWriter)
    → IsSound w
    → Appends w (row_fields row w) (raw_row w.marks row)
unfolding row_fields raw_row
row_fields-Appends [] w s = Appends-refl w s
row_fields-Appends (field ∷ row) w s =
    let v = write_field field w in
    let first = write_field-Appends field w s in
    let rest = write_fields-Appends row v first.sound in
    Appends-trans w v (write_fields row v) field (raw_tail w.marks row) first
      (subst (λ m. Appends v (write_fields row v) (raw_tail m row)) first.same_marks rest)
