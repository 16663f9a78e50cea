-- ===== src/Csv/Loop.antt =====
-- The loop of CSVReader::read_all_rows ends, whatever the file holds.
use btrader.Prelude.{
  ℕ, zero, suc, ◌≤◌, ◌<◌, ◌≡◌, ◌≢◌, refl, sym, subst, Bool, true, not, Bool-cases, inl, inr, Option,
  none, some, List, [], ◌∷◌, ◌==◌, both_branches, length, arith,
}
use btrader.Csv.Reader.{
  CsvReader, is_open, after_line, getline, getline_from, row_from, read_row_into, with_row,
  read_rows, read_all_rows,
}

after_line-shorter : (c : ℕ) (cs : List ℕ) → length (after_line (c ∷ cs)) ≤ length cs
unfolding after_line
after_line-shorter c [] =
    both_branches (λ bs. length bs ≤ 0) (c == 10) {u = []} {v = []} (omega arith) (omega arith)
after_line-shorter c (d ∷ cs) =
    both_branches (λ bs. length bs ≤ suc (length cs)) (c == 10) {u = d ∷ cs}
      {v = after_line (d ∷ cs)} (omega arith) (omega (arith, after_line-shorter d cs))

Shortens : CsvReader → CsvReader × (List (List ℕ) × Bool) → Type 0
Shortens r p = p.1.1 ≡ true → length p.0.rest < length r.rest

getline_from-Shortens :
    (row : List (List ℕ)) (r : CsvReader) (cs : List ℕ)
    → r.rest ≡ cs
    → Shortens r (row_from row (getline_from r cs))
unfolding Shortens
getline_from-Shortens row r [] e h = absurd (ground (arith, h))
getline_from-Shortens row r (c ∷ cs) e h =
    subst (λ bs. length (after_line (c ∷ cs)) < length bs) (sym e)
      (omega (arith, after_line-shorter c cs))

-- A row that was read shortens what is left of the file.
read_row_into-Shortens : (row : List (List ℕ)) (r : CsvReader) → Shortens r (read_row_into row r)
unfolding read_row_into getline Shortens
read_row_into-Shortens row r =
    both_branches (Shortens r) (not (is_open r)) (λ h. absurd (ground (arith, h)))
      (both_branches (Shortens r) (not r.header_read) (λ h. absurd (ground (arith, h)))
        (getline_from-Shortens row r r.rest refl))

with_row-some :
    (row : List (List ℕ)) (o : Option (CsvReader × List (List (List ℕ))))
    → o ≢ none
    → with_row row o ≢ none
with_row-some row none h = h
with_row-some row (some (last, rows)) h = λ e. ground (arith, e)

read_rows-returns : (fuel : ℕ) (r : CsvReader) → length r.rest < fuel → read_rows fuel r ≢ none
unfolding read_rows Shortens
read_rows-returns zero r h = absurd (omega (arith, h))
read_rows-returns (suc fuel) r h = elim (Bool-cases (read_row_into [] r).1.1) [
  | inl e ↦
      rw (read_rows, e)
        (with_row-some _ _
          (read_rows-returns fuel _ (omega (arith, h, read_row_into-Shortens [] r e))))
  | inr e ↦ rw (read_rows, e) (λ f. ground (arith, f))
]

-- The loop of read_all_rows ends on every file, in any state of the reader: as many turns as there
-- are bytes left, and one, are enough.
pub read_all_rows-returns : (r : CsvReader) → read_all_rows r ≢ none
unfolding read_all_rows
read_all_rows-returns r =
    both_branches (λ o. o ≢ none) (not (is_open r)) (λ f. ground (arith, f))
      (both_branches (λ o. o ≢ none) (not r.header_read) (λ f. ground (arith, f))
        (read_rows-returns (suc (length r.rest)) r (omega arith)))
