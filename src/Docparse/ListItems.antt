-- ===== src/Docparse/ListItems.antt =====
-- pkg/doczcore/docparse/listitems.go
use docz.Prelude.{
  ℕ, suc, Bool, true, false, not, ◌&&◌, ◌||◌, Option, none, some, List, [], ◌∷◌, leb, ◌==◌, within,
  if◌then◌else◌, length,
}
use docz.Text.{Text, is_blank}
use docz.Text.Trim.{trim_space}
use docz.Text.Lines.{lines_of}
use docz.Prelude.{◌>>=◌}
use docz.Docparse.Blocks.{is_fence_toggle}
use docz.Docparse.Markers.{span, add}
use docz.Docparse.TaskItems.{tail_text}

pub record ListItem : Type 0 where
  pub text : Text
  pub ordered : Bool
  pub indent : ℕ
  pub line : ℕ

-- \d
unfoldable pub is_digit : ℕ → Bool
is_digit = within b'0' b'9'

-- (\d{1,9})[.)], behind the digits `ds`
unfoldable pub ordinal_end : Text → Text → Option Text
ordinal_end ds [] = none
ordinal_end ds (c ∷ s) =
    if leb 1 (length ds) && leb (length ds) 9 && (c == b'.' || c == b')') then some s else none

-- (?:([-*+])|(\d{1,9})[.)]): whether it is a number, and what follows
unfoldable pub list_bullet : Text → Option (Bool × Text)
list_bullet [] = none
list_bullet (c ∷ s) =
    if c == b'-' || c == b'*' || c == b'+'
    then some (false, s)
    else do r ← ordinal_end (span is_digit (c ∷ s)).0 (span is_digit (c ∷ s)).1; some (true, r)

-- listItemPattern
unfoldable pub list_at : ℕ → Text → Option ListItem
list_at num line =
    let (lead, body) = span is_blank line in
    do
      (ordered, r) ← list_bullet body
      text ← tail_text r
      some (record { text = trim_space text; ordered = ordered; indent = length lead; line = num })

-- The loop over the characters of a rule: how many are the marker, or none if another occurs.
unfoldable pub count_marker : ℕ → Text → Option ℕ
count_marker marker [] = some 0
count_marker marker (c ∷ s) = do
  n ← count_marker marker s
  if c == marker then some (suc n) else if is_blank c then some n else none

unfoldable pub is_rule : Text → Bool
is_rule [] = false
is_rule (c ∷ s) =
    if leb 3 (length (c ∷ s)) && (c == b'-' || c == b'*' || c == b'_')
    then elim (count_marker c (c ∷ s)) [ none ↦ false | some n ↦ leb 3 n ]
    else false

-- isThematicBreak. A text of fewer than three bytes has fewer than three characters, and one with
-- other characters than ASCII fails either way.
unfoldable pub is_thematic_break : Text → Bool
is_thematic_break line = is_rule (trim_space line)

-- the loop of ListItems, at line `num`
unfoldable pub list_items_from : Bool → ℕ → List Text → List ListItem
list_items_from in_code num [] = []
list_items_from in_code num (line ∷ ls) =
    let toggled = list_items_from (not in_code) (suc num) ls in
    let same = list_items_from in_code (suc num) ls in
    if is_fence_toggle line
    then toggled
    else if in_code
    then same
    else if is_thematic_break line
    then same
    else add (list_at num line) same

-- ListItems
unfoldable pub list_items : Text → List ListItem
list_items content = list_items_from false 1 (lines_of content)
