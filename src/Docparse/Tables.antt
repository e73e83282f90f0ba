-- ===== src/Docparse/Tables.antt =====
-- pkg/doczcore/docparse/tables.go
use docz.Prelude.{
  ℕ, zero, suc, Bool, true, false, not, ◌&&◌, ◌||◌, none, some, List, [], ◌∷◌, ◌++◌, ◌==◌,
  if◌then◌else◌, length, is_empty, drop,
}
use docz.Text.{Text, codes, equal, cut_prefix}
use docz.Text.Trim.{trim_space}
use docz.Text.Lines.{lines_of}
use docz.Docparse.Blocks.{is_fence_toggle}
use docz.Docparse.Markers.{span}

pub record Table : Type 0 where
  pub header : List Text
  pub rows : List (List Text)
  pub line : ℕ

-- An unescaped pipe; the flag says that the character before is a backslash.
unfoldable pub has_pipe : Bool → Text → Bool
has_pipe escaped [] = false
has_pipe escaped (c ∷ s) = (c == b'|' && not escaped) || has_pipe (c == b'\\') s

-- isTableRow; the empty line has no pipe.
unfoldable pub is_table_row : Text → Bool
is_table_row line = has_pipe false (trim_space line)

abbrev pub drop_pipe : Text → Text
drop_pipe s = elim (cut_prefix s (codes "|")) [ none ↦ s | some r ↦ r ]

-- The trailing pipe is dropped unless a backslash stands before it; the flag is that of `has_pipe`.
unfoldable pub drop_last_pipe : Bool → Text → Text
drop_last_pipe escaped [] = []
drop_last_pipe escaped (c ∷ []) = if c == b'|' && not escaped then [] else c ∷ []
drop_last_pipe escaped (c ∷ d ∷ s) = c ∷ drop_last_pipe (c == b'\\') (d ∷ s)

-- The loop of splitRow over what is left, with the cell read so far.
unfoldable pub cells_from : Text → Text → List Text
cells_from cur [] = trim_space cur ∷ []
cells_from cur (c ∷ []) =
    if c == b'|' then trim_space cur ∷ trim_space [] ∷ [] else trim_space (cur ++ c ∷ []) ∷ []
cells_from cur (c ∷ d ∷ s) =
    let escape = cells_from (cur ++ codes "\\|") s in
    let next = cells_from [] (d ∷ s) in
    let more = cells_from (cur ++ c ∷ []) (d ∷ s) in
    if c == b'\\' && d == b'|' then escape else if c == b'|' then trim_space cur ∷ next else more

-- splitRow
unfoldable pub split_row : Text → List Text
split_row line = cells_from [] (drop_last_pipe false (drop_pipe (trim_space line)))

-- :?
abbrev pub strip_colon : Text → Text
strip_colon s = elim (cut_prefix s (codes ":")) [ none ↦ s | some r ↦ r ]

-- ^:?-+:?$
unfoldable pub is_delimiter_cell : Text → Bool
is_delimiter_cell c =
    let (dashes, rest) = span (λ x. x == b'-') (strip_colon c) in
    not (is_empty dashes) && (is_empty rest || equal rest (codes ":"))

unfoldable pub all_delimiters : List Text → Bool
all_delimiters [] = true
all_delimiters (c ∷ cs) = is_delimiter_cell c && all_delimiters cs

-- isDelimiterRow
unfoldable pub is_delimiter_row : Text → Bool
is_delimiter_row line = is_table_row line && all_delimiters (split_row line)

-- The inner loop of Tables: the rows in front of the line that ends the table.
unfoldable pub take_rows : List Text → List (List Text)
take_rows [] = []
take_rows (l ∷ ls) =
    let later = take_rows ls in
    if not (is_fence_toggle l) && is_table_row l then split_row l ∷ later else []

abbrev pub next_is_delimiter : List Text → Bool
next_is_delimiter [] = false
next_is_delimiter (l ∷ ls) = is_delimiter_row l

-- The loop of Tables at line `num`. The jump over the lines of a table is a count of lines that are
-- passed over.
unfoldable pub tables_from : Bool → ℕ → ℕ → List Text → List Table
tables_from in_code past num [] = []
tables_from in_code (suc past) num (l ∷ ls) = tables_from in_code past (suc num) ls
tables_from in_code zero num (l ∷ ls) =
    let toggled = tables_from (not in_code) 0 (suc num) ls in
    let same = tables_from in_code 0 (suc num) ls in
    let rows = take_rows (drop 1 ls) in
    let behind = tables_from in_code (suc (length rows)) (suc num) ls in
    if is_fence_toggle l
    then toggled
    else if in_code || not (is_table_row l && next_is_delimiter ls)
    then same
    else record { header = split_row l; rows = rows; line = num } ∷ behind

-- Tables
unfoldable pub tables : Text → List Table
tables content = tables_from false 0 1 (lines_of content)
