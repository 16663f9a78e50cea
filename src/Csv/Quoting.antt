-- ===== src/Csv/Quoting.antt =====
-- A row of escaped fields, and what parse_line_into makes of it.
use mathlib.Core.List.{append_assoc, append-nil}
use btrader.Prelude.{
  ℕ, ◌≡◌, ◌≢◌, refl, sym, ap, ◌∙◌, Bool, true, false, not, ◌&&◌, Bool-cases, inl, inr, List, [],
  ◌∷◌, ◌++◌, map, arith, ◌==◌, ==_iff,
}
use btrader.Csv.Fields.{
  Marks, has_byte, needs_quotes, double_quotes, escape_field, starts_with, unescape_field,
  parse_from, parse_line_into,
}

-- A row as a line of escaped fields.
unfoldable pub escaped_row : Marks → List (List ℕ) → List ℕ
escaped_row m [] = []
escaped_row m (field ∷ []) = escape_field m field
escaped_row m (field ∷ more ∷ row) =
    escape_field m field ++ m.delimiter ∷ escaped_row m (more ∷ row)

module _ (m : Marks) (apart : (m.delimiter == m.quote_char) ≡ false) where
  step_added :
      (in_quotes : Bool) (f : List ℕ) (c : ℕ) (cs : List ℕ)
      → (c == m.quote_char) ≡ false
      → ((c == m.delimiter) && not in_quotes) ≡ false
      → parse_from m in_quotes f (c ∷ cs) ≡ parse_from m in_quotes (f ++ c ∷ []) cs
  unfolding parse_from
  step_added in_quotes f c [] q d = rw (q, d) refl
  step_added in_quotes f c (c' ∷ cs) q d = rw (q, d) refl

  pub step_split :
      (f cs : List ℕ)
      → parse_from m false f (m.delimiter ∷ cs) ≡ unescape_field m f ∷ parse_from m false [] cs
  unfolding parse_from
  step_split f [] = ground (arith, apart)
  step_split f (c ∷ cs) = ground (arith, apart)

  step_open : (f cs : List ℕ) → parse_from m false f (m.quote_char ∷ cs) ≡ parse_from m true f cs
  unfolding parse_from
  step_open f [] = ground arith
  step_open f (c ∷ cs) = ground arith

  step_pair :
      (f cs : List ℕ)
      → parse_from m true f (m.quote_char ∷ m.quote_char ∷ cs)
        ≡ parse_from m true (f ++ m.quote_char ∷ []) cs
  unfolding parse_from
  step_pair f cs = ground arith

  step_close :
      (f cs : List ℕ)
      → starts_with m.quote_char cs ≡ false
      → parse_from m true f (m.quote_char ∷ cs) ≡ parse_from m false f cs
  unfolding parse_from starts_with
  step_close f [] h = ground arith
  step_close f (c ∷ cs) h = ground arith

  pub parse_plain :
      (f s rest : List ℕ)
      → has_byte m.quote_char s ≡ false
      → has_byte m.delimiter s ≡ false
      → parse_from m false f (s ++ rest) ≡ parse_from m false (f ++ s) rest
  unfolding has_byte
  parse_plain f [] rest q d = rw append-nil refl
  parse_plain f (c ∷ s) rest q d =
      step_added false f c (s ++ rest) (ground arith) (ground arith)
      ∙ parse_plain (f ++ c ∷ []) s rest (ground arith) (ground arith)
      ∙ rw append_assoc refl

  parse_doubled :
      (f s rest : List ℕ)
      → parse_from m true f (double_quotes m.quote_char s ++ rest) ≡ parse_from m true (f ++ s) rest
  unfolding double_quotes
  parse_doubled f [] rest = rw append-nil refl
  parse_doubled f (c ∷ s) rest = elim (Bool-cases (c == m.quote_char)) [
    | inl e ↦
        let same = (==_iff c m.quote_char).0 e in
        rw (e, same)
          (step_pair f (double_quotes m.quote_char s ++ rest)
            ∙ parse_doubled (f ++ m.quote_char ∷ []) s rest
            ∙ rw append_assoc refl)
    | inr e ↦ rw e (
        step_added true f c _ e (ground arith)
        ∙ parse_doubled (f ++ c ∷ []) s rest
        ∙ rw append_assoc refl)
  ]

  -- An escaped field in front of a delimiter or the end of the line is read as the field.
  pub parse_escaped :
      (field rest : List ℕ)
      → starts_with m.quote_char rest ≡ false
      → parse_from m false [] (escape_field m field ++ rest) ≡ parse_from m false field rest
  unfolding escape_field needs_quotes
  parse_escaped field rest h = elim (Bool-cases (needs_quotes m field)) [
    | inl e ↦
        let body = double_quotes m.quote_char field in
        rw (escape_field, e)
          (step_open [] ((body ++ m.quote_char ∷ []) ++ rest)
            ∙ ap (parse_from m true []) (append_assoc body (m.quote_char ∷ []) rest)
            ∙ parse_doubled [] field (m.quote_char ∷ rest)
            ∙ step_close field rest h)
    | inr e ↦ rw (escape_field, e) (parse_plain [] field rest (ground arith) (ground arith))
  ]

  parse_escaped_row :
      (field : List ℕ) (row : List (List ℕ))
      → parse_from m false [] (escaped_row m (field ∷ row)) ≡ map (unescape_field m) (field ∷ row)
  unfolding escaped_row starts_with parse_from
  parse_escaped_row field [] =
      ap (parse_from m false []) (sym (append-nil (escape_field m field)))
      ∙ parse_escaped field [] refl
  parse_escaped_row field (more ∷ row) =
      parse_escaped field (m.delimiter ∷ escaped_row m (more ∷ row)) apart
      ∙ step_split field (escaped_row m (more ∷ row))
      ∙ ap (λ fields. unescape_field m field ∷ fields) (parse_escaped_row more row)

  pub parse_line :
      (line : List ℕ) → line ≢ [] → parse_line_into m line ≡ (parse_from m false [] line, true)
  unfolding parse_line_into
  parse_line [] h = absurd (h refl)
  parse_line (c ∷ cs) h = refl

  -- For a delimiter that is not the quote character, and a row of fields whose line is not empty: its
  -- line of escaped fields is parsed to the fields of the row, each stripped once more of quotes
  -- that it begins and ends with.
  pub parse_line_into-escaped_row :
      (field : List ℕ) (row : List (List ℕ))
      → escaped_row m (field ∷ row) ≢ []
      → parse_line_into m (escaped_row m (field ∷ row))
        ≡ (map (unescape_field m) (field ∷ row), true)
  parse_line_into-escaped_row field row h =
      parse_line (escaped_row m (field ∷ row)) h
      ∙ ap (λ fs. (fs, true)) (parse_escaped_row field row)
