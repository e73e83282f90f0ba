-- ===== src/Docwrite/CheckTask/Splice.antt =====
-- What SetTaskStateBytes writes: one state byte of one line.
use docz.Prelude.{
  ℕ, ◌-◌, ◌≤◌, Bool, true, false, not, ◌||◌, ◌≡◌, inl, inr, refl, sym, ap, ◌∙◌, some, List, [], ◌∷◌,
  ◌++◌, append_assoc, arith, ◌==◌, Option-cases,
}
use docz.Text.{Text, contains_byte}
use docz.Docparse.TaskItems.{TaskItem, TaskMatch, task_items}
use docz.Docparse.TaskItems.Shape.{TaskShape, match_task-TaskShape}
use docz.Docparse.TaskItems.State.{
  front, restate, line-restate, front-lacks, task_items-TaskShape, task_items-eq_cons,
}
use docz.Docwrite.CheckTask.{
  ok, Offset, walk, next_line, state_byte, set_behind_bracket, same_state, set_at, set_from,
  set_task_state_bytes,
}
use docz.Docwrite.CheckTask.Offsets.{
  walk-IsLineStart, behind_line, next_line-split, next_line-lacks, set_behind_bracket-append,
}

-- the state byte says "checked"
abbrev pub is_checked : ℕ → Bool
is_checked c = c == b'x' || c == b'X'

-- A document cut at the checkbox that a successful call rewrites.
pub record Target (doc : Text) (line : ℕ) (checked : Bool) : Type 0 where
  pub no_cr : contains_byte doc b'\r' ≡ false
  pub counted : 1 ≤ line
  pub at : Offset
  pub found : walk (line - 1) doc ≡ some at
  pub match : TaskMatch
  pub shape : TaskShape (next_line at.1) match
  pub other_state : is_checked match.state ≡ not checked

same_state-not : (b : Bool) → same_state (not b) b ≡ false
same_state-not true = refl
same_state-not false = refl

same_state-eq_false : (a b : Bool) → same_state a b ≡ false → a ≡ not b
same_state-eq_false true b h = ground arith
same_state-eq_false false b h = ground arith

module _ {doc : Text} {line : ℕ} {checked : Bool} where
  -- the document with the state byte `c` in the checkbox
  abbrev pub with_state : Target doc line checked → ℕ → Text
  with_state t c = t.at.0 ++ (restate t.shape c ++ behind_line t.at.1)

module _ (doc : Text) (line : ℕ) (checked : Bool) (t : Target doc line checked) where
  line_and_rest : t.at.1 ≡ restate t.shape t.match.state ++ behind_line t.at.1
  line_and_rest =
      sym (next_line-split t.at.1)
      ∙ ap (λ l. l ++ behind_line t.at.1) (line-restate (next_line t.at.1) t.match t.shape)

  -- With its own state byte this is the document.
  pub doc-with_state : doc ≡ with_state t t.match.state
  doc-with_state =
      let start = walk-IsLineStart (line - 1) doc t.at t.found in
      start.splits ∙ ap (λ l. t.at.0 ++ l) line_and_rest

  set_behind_bracket-Target :
      (c : ℕ) → set_behind_bracket c t.at.1 ≡ restate t.shape c ++ behind_line t.at.1
  set_behind_bracket-Target c =
      ap (set_behind_bracket c)
        (line_and_rest ∙ append_assoc (front t.shape) _ (behind_line t.at.1))
      ∙ set_behind_bracket-append (front t.shape) (b']' ∷ (t.shape.behind ++ behind_line t.at.1)) c
          t.match.state (front-lacks (next_line t.at.1) t.match t.shape)
      ∙ sym (append_assoc (front t.shape) _ (behind_line t.at.1))

  -- The call succeeds, and writes the new state byte into the checkbox.
  pub set-Target : set_task_state_bytes doc line checked ≡ ok (with_state t (state_byte checked))
  unfolding set_task_state_bytes set_from set_at
  set-Target =
      rw (t.no_cr, t.found)
        (rw (task_items-TaskShape (next_line t.at.1) t.match t.shape (next_line-lacks t.at.1)) (
          ground (
            arith,
            t.counted,
            t.other_state,
            same_state-not checked,
            set_behind_bracket-Target (state_byte checked),
          )))

set_from-eq_ok :
    (doc out : Text) (line : ℕ) (checked : Bool) (at : Offset)
    → contains_byte doc b'\r' ≡ false
    → 1 ≤ line
    → walk (line - 1) doc ≡ some at
    → (items : List TaskItem) → task_items (next_line at.1) ≡ items
    → set_at checked at items ≡ ok out
    → Target doc line checked
unfolding set_at
set_from-eq_ok doc out line checked at lf one f [] e h = absurd (ground arith)
set_from-eq_ok doc out line checked at lf one f (item ∷ items) e h =
    let (m, match, same) =
      task_items-eq_cons (next_line at.1) item items (next_line-lacks at.1) e in
    record {
      no_cr = lf;
      counted = one;
      at = at;
      found = f;
      match = m;
      shape = match_task-TaskShape (next_line at.1) m match;
      other_state = same_state-eq_false (is_checked m.state) checked (ground arith);
    }

-- A call that succeeds has a checkbox in the other state to write to.
pub set-eq_ok :
    (doc out : Text) (line : ℕ) (checked : Bool)
    → set_task_state_bytes doc line checked ≡ ok out
    → Target doc line checked
unfolding set_task_state_bytes set_from
set-eq_ok doc out line checked h = elim (Option-cases (walk (line - 1) doc)) [
  | inl n ↦ absurd (ground arith)
  | inr (at, f) ↦
      set_from-eq_ok doc out line checked at (ground arith) (ground arith) f
        (task_items (next_line at.1)) refl (ground arith)
]
