-- ===== src/Docwrite/CheckTask.antt =====
-- The byte core of pkg/doczcore/docwrite/checktask.go. An offset into the document is the text in
-- front of it and the text behind it.
pub mod Offsets
pub mod Splice
pub mod Flip
pub mod Accepts
use docz.Prelude.{
  ℕ, zero, suc, ◌+◌, ◌-◌, ◌*◌, ◌/◌, ◌%◌, ◌≤◌, ◌<◌, Bool, true, false, not, ◌&&◌, ◌||◌, ◌≡◌, ◌≢◌,
  ◌↔◌, ◌⊎◌, inl, inr, refl, sym, ap, ◌∙◌, subst, Option, none, some, List, [], ◌∷◌, ◌++◌,
  append-nil, append_assoc, map, String, arith, ltb, leb, ◌==◌, within, if◌then◌else◌, ltb→lt,
  lt→ltb, ==_iff, Bool-cases, Option-cases, length, is_empty, take, drop, get_elem?, length-append,
  take-append-drop, All, All-append, All-append_left, All-append_right, All-weaken,
}
use docz.Prelude.Pairs.{
  AllPairs, AllPairs-append, AllPairs-unappend, AllPairs-reverse, AllPairs-weaken, All-reverse,
}
use docz.Text.{
  Text, codes, equal, cut_prefix, has_prefix, contains, contains_byte, is_space, is_blank,
  equal_iff, cut_prefix-append, cut_prefix-eq_some, contains_byte-append,
}
use docz.Text.Trim.{trim_left, trim_right, trim_space}
use docz.Text.Lines.{split, join, lines_of, cons_head}
use docz.Docparse.TaskItems.{TaskItem, task_items}

-- The sentinel errors.
pub data TaskError : Type 0 where
  unsupported_line_endings line_out_of_range not_task_item : TaskError
  already_checked already_unchecked : TaskError

pub data Result {ℓ} (A : Type ℓ) : Type ℓ where
  ok : A → Result A
  err : TaskError → Result A

abbrev pub Offset : Type 0
Offset = Text × Text

-- One character further on.
abbrev pub advance : ℕ → Option Offset → Option Offset
advance c none = none
advance c (some (before, behind)) = some (c ∷ before, behind)

-- The loop over the LF boundaries: the offset at which the line begins that is `left` lines on.
unfoldable pub walk : ℕ → Text → Option Offset
walk zero s = some ([], s)
walk (suc left) [] = none
walk (suc left) (c ∷ s) = advance c (walk (if c == b'\n' then left else suc left) s)

-- nextLine: the line at the start of a text. Its length is the offset that follows it.
unfoldable pub next_line : Text → Text
next_line [] = []
next_line (c ∷ s) = let rest = next_line s in if c == b'\n' then [] else c ∷ rest

-- stateByte
unfoldable pub state_byte : Bool → ℕ
state_byte true = b'x'
state_byte false = b' '

-- out[lineStart+markerRel+1] = b: the character behind the first '[' is replaced.
unfoldable pub set_behind_bracket : ℕ → Text → Text
set_behind_bracket b [] = []
set_behind_bracket b (c ∷ []) = c ∷ []
set_behind_bracket b (c ∷ d ∷ s) =
    let rest = set_behind_bracket b (d ∷ s) in if c == b'[' then c ∷ b ∷ s else c ∷ rest

abbrev pub already : Bool → TaskError
already true = already_checked
already false = already_unchecked

abbrev pub same_state : Bool → Bool → Bool
same_state true b = b
same_state false b = not b

-- The tests on the target line, and the splice.
unfoldable pub set_at : Bool → Offset → List TaskItem → Result Text
set_at checked (before, behind) [] = err not_task_item
set_at checked (before, behind) (item ∷ items) =
    if same_state item.checked checked
    then err (already checked)
    else ok (before ++ set_behind_bracket (state_byte checked) behind)

unfoldable pub set_from : Bool → Option Offset → Result Text
set_from checked none = err line_out_of_range
set_from checked (some (before, behind)) =
    set_at checked (before, behind) (task_items (next_line behind))

-- SetTaskStateBytes; `line` is 1-based.
unfoldable pub set_task_state_bytes : Text → ℕ → Bool → Result Text
set_task_state_bytes doc line checked =
    if contains_byte doc b'\r'
    then err unsupported_line_endings
    else if ltb line 1
    then err line_out_of_range
    else set_from checked (walk (line - 1) doc)
