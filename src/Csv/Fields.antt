-- ===== src/Csv/Fields.antt =====
-- infra/csv.cpp: the functions on fields and lines: escape_field, unescape_field, parse_line_into.
use btrader.Prelude.{
  ℕ, ◌-◌, Bool, true, false, not, ◌&&◌, ◌||◌, List, [], ◌∷◌, ◌++◌, ◌==◌, if◌then◌else◌, length,
  take, drop,
}

-- delimiter_ and quote_char_
pub record Marks : Type 0 where
  pub delimiter : ℕ
  pub quote_char : ℕ

-- memchr(field, c, size) != nullptr
unfoldable pub has_byte : ℕ → List ℕ → Bool
has_byte c [] = false
has_byte c (b ∷ bs) = (b == c) || has_byte c bs

unfoldable pub needs_quotes : Marks → List ℕ → Bool
needs_quotes m field =
    has_byte m.delimiter field
    || (has_byte m.quote_char field || (has_byte 10 field || has_byte 13 field))

unfoldable pub double_quotes : ℕ → List ℕ → List ℕ
double_quotes q [] = []
double_quotes q (c ∷ cs) = if c == q then q ∷ c ∷ double_quotes q cs else c ∷ double_quotes q cs

unfoldable pub escape_field : Marks → List ℕ → List ℕ
escape_field m field =
    if needs_quotes m field
    then m.quote_char ∷ (double_quotes m.quote_char field ++ m.quote_char ∷ [])
    else field

-- The loop that replaces two quotes by one.
unfoldable pub undouble_quotes : ℕ → List ℕ → List ℕ
undouble_quotes q [] = []
undouble_quotes q (c ∷ []) = c ∷ []
undouble_quotes q (c ∷ c' ∷ cs) =
    let pair = c ∷ undouble_quotes q cs in
    let single = c ∷ undouble_quotes q (c' ∷ cs) in if (c == q) && (c' == q) then pair else single

-- field.back() == q
unfoldable pub ends_with : ℕ → List ℕ → Bool
ends_with q [] = false
ends_with q (c ∷ []) = c == q
ends_with q (c ∷ c' ∷ cs) = ends_with q (c' ∷ cs)

unfoldable pub starts_with : ℕ → List ℕ → Bool
starts_with q [] = false
starts_with q (c ∷ cs) = c == q

-- substr(1, length - 2), where a length of 1 wraps round and gives the empty string
unfoldable pub unescape_field : Marks → List ℕ → List ℕ
unescape_field m field =
    if starts_with m.quote_char field && ends_with m.quote_char field
    then undouble_quotes m.quote_char (take (length field - 2) (drop 1 field))
    else field

-- The loop of parse_line_into, from the state of the quotes and the current field.
unfoldable pub parse_from : Marks → Bool → List ℕ → List ℕ → List (List ℕ)
parse_from m in_quotes field [] = unescape_field m field ∷ []
parse_from m in_quotes field (c ∷ []) =
    let ended = unescape_field m field ∷ [] in
    let split = unescape_field m field ∷ unescape_field m [] ∷ [] in
    let added = unescape_field m (field ++ c ∷ []) ∷ [] in
    if c == m.quote_char
    then ended
    else if (c == m.delimiter) && not in_quotes
    then split
    else added
parse_from m in_quotes field (c ∷ c' ∷ cs) =
    let quoted = parse_from m in_quotes (field ++ m.quote_char ∷ []) cs in
    let toggled = parse_from m (not in_quotes) field (c' ∷ cs) in
    let split = unescape_field m field ∷ parse_from m in_quotes [] (c' ∷ cs) in
    let added = parse_from m in_quotes (field ++ c ∷ []) (c' ∷ cs) in
    if c == m.quote_char
    then if in_quotes && (c' == m.quote_char) then quoted else toggled
    else if (c == m.delimiter) && not in_quotes
    then split
    else added

-- The fields of a line, and whether there were any.
unfoldable pub parse_line_into : Marks → List ℕ → List (List ℕ) × Bool
parse_line_into m [] = ([], false)
parse_line_into m (c ∷ cs) = (parse_from m false [] (c ∷ cs), true)
