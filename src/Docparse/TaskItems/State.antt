-- ===== src/Docparse/TaskItems/State.antt =====
-- A task line with another state.
use docz.Prelude.{
  ℕ, true, false, ◌≡◌, inl, inr, refl, sym, ◌∙◌, some, List, [], ◌∷◌, ◌++◌, append_assoc, arith,
  if◌then◌else◌, Option-cases, All,
}
use docz.Text.{Text, contains_byte, is_blank, contains_byte-append}
use docz.Text.Lines.{split_of_lacks}
use docz.Docparse.Blocks.{new_skipper, skip}
use docz.Docparse.Markers.{add}
use docz.Docparse.TaskItems.{
  TaskItem, TaskMatch, match_task, task_at, to_item, task_items_from, task_items,
}
use docz.Docparse.TaskItems.Shape.{
  TaskShape, TaskShape-match_task, TaskShape-skip, is_state, IsBlank,
}

module _ {line : Text} {m : TaskMatch} where
  -- what stands in front of the checkbox
  abbrev pub front : TaskShape line m → Text
  front s = s.lead ++ (s.bullet ∷ s.first_blank ∷ s.blanks)

  -- the line with the state byte `c`
  abbrev pub restate : TaskShape line m → ℕ → Text
  restate s c = front s ++ (b'[' ∷ c ∷ b']' ∷ s.behind)

blanks-lack : (b : ℕ) (s : Text) → is_blank b ≡ false → All IsBlank s → contains_byte s b ≡ false
unfolding contains_byte
blanks-lack b [] hb h = refl
blanks-lack b (c ∷ s) hb (hc, h) = ground (arith, blanks-lack b s hb h)

module _ (line : Text) (m : TaskMatch) (s : TaskShape line m) where
  pub line-restate : line ≡ restate s m.state
  line-restate =
      s.line_is
      ∙ sym (
          append_assoc s.lead (s.bullet ∷ s.first_blank ∷ s.blanks)
            (b'[' ∷ m.state ∷ b']' ∷ s.behind))

  -- There is no bracket in front of the checkbox.
  pub front-lacks : contains_byte (front s) b'[' ≡ false
  unfolding contains_byte is_blank
  front-lacks = rw contains_byte-append (
      ground (
        arith,
        blanks-lack b'[' s.lead refl s.lead_blank,
        blanks-lack b'[' s.blanks refl s.blanks_blank,
        s.bullet_is,
        s.first_blank_is,
      ))

  unfoldable pub restate-TaskShape :
      (l : Text) (c : ℕ)
      → l ≡ restate s c
      → is_state c ≡ true
      → TaskShape l (record m { state = c })
  restate-TaskShape l c e h = record {
    lead = s.lead;
    bullet = s.bullet;
    first_blank = s.first_blank;
    blanks = s.blanks;
    behind = s.behind;
    line_is = e ∙ append_assoc s.lead (s.bullet ∷ s.first_blank ∷ s.blanks) _;
    lead_blank = s.lead_blank;
    bullet_is = s.bullet_is;
    first_blank_is = s.first_blank_is;
    blanks_blank = s.blanks_blank;
    state_is = h;
    behind_is = s.behind_is;
    indent_is = s.indent_is;
  }

  -- The line alone is one task item.
  pub task_items-TaskShape : contains_byte line b'\n' ≡ false → task_items line ≡ to_item 1 m ∷ []
  unfolding task_items task_items_from task_at
  task_items-TaskShape h =
      rw (split_of_lacks b'\n' line h)
        (rw (TaskShape-skip line m s) (ground (arith, TaskShape-match_task line m s)))

task_items_line :
    (line : Text)
    → contains_byte line b'\n' ≡ false
    → task_items line ≡ (if (skip new_skipper line).0 then [] else add (task_at 1 line) [])
unfolding task_items task_items_from
task_items_line line h = rw (split_of_lacks b'\n' line h)

-- A text of one line gives a task item only if it matches.
pub task_items-eq_cons :
    (line : Text) (item : TaskItem) (items : List TaskItem)
    → contains_byte line b'\n' ≡ false
    → task_items line ≡ item ∷ items
    → (m : TaskMatch) × (match_task line ≡ some m) × (item ≡ to_item 1 m)
unfolding task_at
task_items-eq_cons line item items h e = elim (Option-cases (match_task line)) [
  | inl n ↦ absurd (ground (arith, task_items_line line h))
  | inr (m, eq) ↦ (m, eq, ground (arith, task_items_line line h))
]
