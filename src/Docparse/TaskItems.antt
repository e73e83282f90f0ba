-- ===== src/Docparse/TaskItems.antt =====
-- pkg/doczcore/docparse/taskitems.go. No two parts of the pattern match the same character, so the
-- match is read from left to right.
pub mod Shape
pub mod State
use docz.Prelude.{
  ℕ, zero, suc, ◌+◌, ◌-◌, ◌*◌, ◌/◌, ◌%◌, ◌≤◌, ◌<◌, Bool, true, false, not, ◌&&◌, ◌||◌, ◌≡◌, ◌≢◌,
  ◌↔◌, ◌⊎◌, inl, inr, refl, sym, ap, ◌∙◌, subst, Option, none, some, List, [], ◌∷◌, ◌++◌,
  append-nil, append_assoc, map, String, arith, ltb, leb, ◌==◌, within, if◌then◌else◌, ltb→lt,
  lt→ltb, ==_iff, Bool-cases, Option-cases, length, is_empty, take, drop, get_elem?, length-append,
  take-append-drop, All, All-append, All-append_left, All-append_right, All-weaken,
}
use docz.Prelude.Pairs.{
  AllPairs, AllPairs-append, AllPairs-unappend, AllPairs-reverse, AllPairs-weaken, All-reverse,
}
use docz.Text.{
  Text, codes, equal, cut_prefix, has_prefix, contains, contains_byte, is_space, is_blank,
  equal_iff, cut_prefix-append, cut_prefix-eq_some, contains_byte-append,
}
use docz.Text.Trim.{trim_left, trim_right, trim_space}
use docz.Text.Lines.{split, join, lines_of, cons_head}
use docz.Prelude.{◌>>=◌}
use docz.Docparse.Blocks.{BlockSkipper, new_skipper, skip}
use docz.Docparse.Markers.{some_blanks, span, add}

pub record TaskItem : Type 0 where
  pub text : Text
  pub checked : Bool
  pub indent : ℕ
  pub line : ℕ

-- What taskItemPattern captures: the indent, the state byte, and the text before it is trimmed.
pub record TaskMatch : Type 0 where
  pub indent : ℕ
  pub state : ℕ
  pub rest : Text

-- [-*]
unfoldable pub task_bullet : Text → Option Text
task_bullet [] = none
task_bullet (c ∷ s) = if c == b'-' || c == b'*' then some s else none

-- \[([ xX])\]
unfoldable pub checkbox : Text → Option (ℕ × Text)
checkbox (o ∷ c ∷ e ∷ s) =
    if o == b'[' && (c == b' ' || c == b'x' || c == b'X') && e == b']' then some (c, s) else none
checkbox _ = none

-- (?:[ \t]+(.*))?$
unfoldable pub tail_text : Text → Option Text
tail_text [] = some []
tail_text (c ∷ s) = some_blanks (c ∷ s)

-- taskItemPattern
unfoldable pub match_task : Text → Option TaskMatch
match_task line =
    let (lead, body) = span is_blank line in
    do
      r₁ ← task_bullet body
      r₂ ← some_blanks r₁
      (c, r₃) ← checkbox r₂
      text ← tail_text r₃
      some (record { indent = length lead; state = c; rest = text })

abbrev pub to_item : ℕ → TaskMatch → TaskItem
to_item num m = record {
  text = trim_space m.rest;
  checked = m.state == b'x' || m.state == b'X';
  indent = m.indent;
  line = num;
}

unfoldable pub task_at : ℕ → Text → Option TaskItem
task_at num line = elim (match_task line) [ none ↦ none | some m ↦ some (to_item num m) ]

-- the loop of TaskItems, at line `num`
unfoldable pub task_items_from : BlockSkipper → ℕ → List Text → List TaskItem
task_items_from b num [] = []
task_items_from b num (line ∷ ls) =
    let later = task_items_from (skip b line).1 (suc num) ls in
    if (skip b line).0 then later else add (task_at num line) later

-- TaskItems
unfoldable pub task_items : Text → List TaskItem
task_items content = task_items_from new_skipper 1 (lines_of content)
