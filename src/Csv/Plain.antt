-- ===== src/Csv/Plain.antt =====
-- Rows without special characters: what parse_line_into and getline make of their lines.
use btrader.Prelude.{
  ℕ, ◌≡◌, ◌≢◌, refl, ap, ◌∙◌, Bool, true, false, not, ◌&&◌, ◌||◌, List, [], ◌∷◌, ◌++◌, ◌==◌, arith,
}
use btrader.Csv.Fields.{Marks, has_byte, starts_with, unescape_field, parse_from, parse_line_into}
use btrader.Csv.Output.{raw_tail, raw_row}
use btrader.Csv.Quoting.{parse_line, parse_plain, step_split}
use btrader.Csv.Reader.{line_of, after_line, has_newline}

abbrev pub clean_field : Marks → List ℕ → Bool
clean_field m field =
    not (has_byte m.delimiter field || (has_byte m.quote_char field || has_byte 10 field))

unfoldable pub clean_row : Marks → List (List ℕ) → Bool
clean_row m [] = true
clean_row m (field ∷ row) = clean_field m field && clean_row m row

-- The line of the row is not empty.
unfoldable pub has_text : List (List ℕ) → Bool
has_text [] = false
has_text ([] ∷ []) = false
has_text ((c ∷ cs) ∷ row) = true
has_text ([] ∷ field ∷ row) = true

-- No delimiter, quote character or newline in a field, and a line that is not empty.
unfoldable pub plain_row : Marks → List (List ℕ) → Bool
plain_row m row = clean_row m row && has_text row

unfoldable pub plain_rows : Marks → List (List (List ℕ)) → Bool
plain_rows m [] = true
plain_rows m (row ∷ rows) = plain_row m row && plain_rows m rows

unescape_clean :
    (m : Marks) (field : List ℕ)
    → has_byte m.quote_char field ≡ false
    → unescape_field m field ≡ field
unfolding unescape_field has_byte starts_with
unescape_clean m [] h = refl
unescape_clean m (c ∷ cs) h = ground arith

has_byte-append : (c : ℕ) (s t : List ℕ) → has_byte c (s ++ t) ≡ (has_byte c s || has_byte c t)
unfolding has_byte
has_byte-append c [] t = refl
has_byte-append c (b ∷ s) t = ground (arith, has_byte-append c s t)

-- A line and the text after it.
pub line_of-append : (s t : List ℕ) → has_byte 10 s ≡ false → line_of (s ++ 10 ∷ t) ≡ s
unfolding line_of has_byte
line_of-append [] t h = refl
line_of-append (c ∷ s) t h = ground (arith, line_of-append s t)

pub after_line-append : (s t : List ℕ) → has_byte 10 s ≡ false → after_line (s ++ 10 ∷ t) ≡ t
unfolding after_line has_byte
after_line-append [] t h = refl
after_line-append (c ∷ s) t h = ground (arith, after_line-append s t)

pub has_newline-append : (s t : List ℕ) → has_newline (s ++ 10 ∷ t) ≡ true
unfolding has_newline
has_newline-append [] t = refl
has_newline-append (c ∷ s) t = ground (arith, has_newline-append s t)

module _ (m : Marks) (apart : (m.delimiter == m.quote_char) ≡ false)
    (one_line : (m.delimiter == 10) ≡ false) where
  no_newline_tail :
      (row : List (List ℕ)) → clean_row m row ≡ true → has_byte 10 (raw_tail m row) ≡ false
  unfolding clean_row raw_tail has_byte
  no_newline_tail [] h = refl
  no_newline_tail (field ∷ row) h =
      ground (arith, one_line, has_byte-append 10 field (raw_tail m row), no_newline_tail row)

  pub no_newline :
      (row : List (List ℕ)) → clean_row m row ≡ true → has_byte 10 (raw_row m row) ≡ false
  unfolding clean_row raw_row has_byte
  no_newline [] h = refl
  no_newline (field ∷ row) h =
      ground (arith, has_byte-append 10 field (raw_tail m row), no_newline_tail row)

  parse_clean :
      (field : List ℕ) (row : List (List ℕ))
      → clean_row m (field ∷ row) ≡ true
      → parse_from m false [] (raw_row m (field ∷ row)) ≡ field ∷ row
  unfolding clean_row raw_row raw_tail parse_from
  parse_clean field [] h =
      parse_plain m apart [] field [] (ground arith) (ground arith)
      ∙ ap (λ f. f ∷ []) (unescape_clean m field (ground arith))
  parse_clean field (next ∷ row) h =
      parse_plain m apart [] field (raw_tail m (next ∷ row)) (ground arith) (ground arith)
      ∙ step_split m apart field (raw_row m (next ∷ row))
      ∙ ap (λ f. f ∷ parse_from m false [] (raw_row m (next ∷ row)))
          (unescape_clean m field (ground arith))
      ∙ ap (λ fs. field ∷ fs) (parse_clean next row (ground arith))

  pub line_nonempty : (row : List (List ℕ)) → has_text row ≡ true → raw_row m row ≢ []
  unfolding has_text raw_row raw_tail
  line_nonempty [] h e = absurd (ground (arith, h))
  line_nonempty ([] ∷ []) h e = absurd (ground (arith, h))
  line_nonempty ([] ∷ field ∷ row) h e = absurd (ground (arith, e))
  line_nonempty ((c ∷ cs) ∷ row) h e = absurd (ground (arith, e))

  pub parse_line_into-plain :
      (row : List (List ℕ))
      → plain_row m row ≡ true
      → parse_line_into m (raw_row m row) ≡ (row, true)
  unfolding plain_row has_text
  parse_line_into-plain [] h = absurd (ground (arith, h))
  parse_line_into-plain (field ∷ row) h =
      parse_line m apart (raw_row m (field ∷ row)) (line_nonempty (field ∷ row) (ground arith))
      ∙ ap (λ fs. (fs, true)) (parse_clean field row (ground arith))
