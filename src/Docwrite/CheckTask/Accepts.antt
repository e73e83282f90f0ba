-- ===== src/Docwrite/CheckTask/Accepts.antt =====
-- Every task item that the walker reports is a line that the writer takes.
use docz.Prelude.{
  ℕ, zero, suc, ◌-◌, Bool, true, false, not, ◌≡◌, inl, inr, refl, sym, ap, ◌∙◌, subst, none, some,
  List, [], ◌∷◌, ◌++◌, arith, ◌==◌, Bool-cases, Option-cases, All,
}
use docz.Text.{Text, contains_byte}
use docz.Text.Lines.{split, lines_of, cons_head}
use docz.Docparse.Blocks.{BlockSkipper, new_skipper, skip}
use docz.Docparse.Markers.{add}
use docz.Docparse.TaskItems.{
  TaskItem, TaskMatch, match_task, to_item, task_at, task_items_from, task_items,
}
use docz.Docparse.TaskItems.Shape.{TaskShape, match_task-TaskShape}
use docz.Docparse.TaskItems.State.{task_items-TaskShape}
use docz.Docwrite.CheckTask.{
  ok, err, Offset, walk, next_line, already, same_state, set_at, set_from, set_task_state_bytes,
}
use docz.Docwrite.CheckTask.Offsets.{advance-eq_some, behind_line, next_line-lacks}
use docz.Docwrite.CheckTask.Splice.{is_checked, Target, set-Target}

-- what follows the first line, as lines
abbrev later_lines : Text → List Text
later_lines [] = []
later_lines (c ∷ t) = lines_of t

lines_of-next_line : (s : Text) → lines_of s ≡ next_line s ∷ later_lines (behind_line s)
unfolding split next_line behind_line
lines_of-next_line [] = refl
lines_of-next_line (c ∷ s) = elim (Bool-cases (c == b'\n')) [
  | inl e ↦ rw e refl
  | inr e ↦ rw e (ap (cons_head c) (lines_of-next_line s))
]

walk_one : (s t : Text) (c : ℕ) → behind_line s ≡ c ∷ t → walk 1 s ≡ some (next_line s ++ c ∷ [], t)
unfolding walk next_line behind_line
walk_one [] t c h = cc
walk_one (x ∷ s) t c h = elim (Bool-cases (x == b'\n')) [
  | inl e ↦ rw e (ground arith)
  | inr e ↦ rw (e, walk_one s t c (rw e at h))
]

-- One line further on.
walk_next :
    (left : ℕ) (doc before s t : Text) (c : ℕ)
    → walk left doc ≡ some (before, s)
    → behind_line s ≡ c ∷ t
    → walk (suc left) doc ≡ some (before ++ (next_line s ++ c ∷ []), t)
unfolding walk
walk_next zero doc before s t c h b = ground (arith, walk_one s t c b)
walk_next (suc left) [] before s t c h b = cc
walk_next (suc left) (x ∷ doc) before s t c h b = elim (Bool-cases (x == b'\n')) [
  | inl e ↦
      let (front, o, eq) = advance-eq_some x (walk left doc) (before, s) (rw e at h) in
      rw (e, eq, walk_next left doc front s t c o b)
  | inr e ↦
      let (front, o, eq) = advance-eq_some x (walk (suc left) doc) (before, s) (rw e at h) in
      rw (e, eq, walk_next (suc left) doc front s t c o b)
]

same_state_self : (b : Bool) → same_state b b ≡ true
same_state_self true = refl
same_state_self false = refl

-- The call that sets the state which the item has is refused for that reason, and the call that
-- sets the other one succeeds.
abbrev pub Accepts : Text → TaskItem → Type 0
Accepts doc item =
    (set_task_state_bytes doc item.line item.checked ≡ err (already item.checked))
    × ((out : Text) × (set_task_state_bytes doc item.line (not item.checked) ≡ ok out))

suc-sub-one : (n : ℕ) → suc n - 1 ≡ n
suc-sub-one n = omega arith

not-not : (b : Bool) → b ≡ not (not b)
not-not true = refl
not-not false = refl

task_at-none : (num : ℕ) (line : Text) → match_task line ≡ none → task_at num line ≡ none
unfolding task_at
task_at-none num line h = ground arith

task_at-some :
    (num : ℕ) (line : Text) (m : TaskMatch)
    → match_task line ≡ some m
    → task_at num line ≡ some (to_item num m)
unfolding task_at
task_at-some num line m h = ground arith

cons_eq : (a b : Text) (xs ys : List Text) → a ∷ xs ≡ b ∷ ys → (a ≡ b) × (xs ≡ ys)
cons_eq a b xs ys h = (ground arith, ground arith)

module _ (doc : Text) (no_cr : contains_byte doc b'\r' ≡ false) where
  refused :
      (num : ℕ) (at : Offset) (m : TaskMatch)
      → walk num doc ≡ some at
      → TaskShape (next_line at.1) m
      → set_task_state_bytes doc (suc num) (is_checked m.state) ≡ err (already (is_checked m.state))
  unfolding set_task_state_bytes set_from set_at
  refused num at m w s =
      rw (no_cr, suc-sub-one num, w)
        (rw (task_items-TaskShape (next_line at.1) m s (next_line-lacks at.1))
          (ground (arith, same_state_self (is_checked m.state))))

  Accepts-line :
      (num : ℕ) (at : Offset) (m : TaskMatch)
      → walk num doc ≡ some at
      → TaskShape (next_line at.1) m
      → Accepts doc (to_item (suc num) m)
  Accepts-line num at m w s =
      let t : Target doc (suc num) (not (is_checked m.state)) = record {
        no_cr = no_cr;
        counted = omega arith;
        at = at;
        found = rw (suc-sub-one num) w;
        match = m;
        shape = s;
        other_state = not-not (is_checked m.state);
      } in
      (refused num at m w s, (_, set-Target doc (suc num) (not (is_checked m.state)) t))

  Accepts-add :
      (num : ℕ) (at : Offset) (line : Text) (items : List TaskItem)
      → walk num doc ≡ some at
      → next_line at.1 ≡ line
      → All (Accepts doc) items
      → All (Accepts doc) (add (task_at (suc num) line) items)
  Accepts-add num at line items w e h = elim (Option-cases (match_task line)) [
    | inl n ↦ rw (task_at-none (suc num) line n) h
    | inr (m, eq) ↦
        rw (task_at-some (suc num) line m eq)
          (Accepts-line num at m w (rw e (match_task-TaskShape line m eq)), h)
  ]

  -- What holds of every text behind a later newline holds of the lines behind the line at `at`.
  behind :
      (num : ℕ) (at : Offset) (ls : List Text) (P : List Text → Type 0)
      → walk num doc ≡ some at
      → P []
      → ((at' : Offset) → walk (suc num) doc ≡ some at' → lines_of at'.1 ≡ ls → P ls)
      → (r : Text) → behind_line at.1 ≡ r
      → later_lines r ≡ ls
      → P ls
  behind num at ls P w nil step [] br e = subst P e nil
  behind num at ls P w nil step (c ∷ t) br e = step _ (walk_next num doc at.0 at.1 t c w br) e

  -- `at` is where the lines begin that are left to walk.
  Accepts-from :
      (ls : List Text) (b : BlockSkipper) (num : ℕ) (at : Offset)
      → walk num doc ≡ some at
      → lines_of at.1 ≡ ls
      → All (Accepts doc) (task_items_from b (suc num) ls)
  unfolding task_items_from
  Accepts-from [] b num at w e = tt
  Accepts-from (l ∷ ls) b num at w e =
      let heads = cons_eq (next_line at.1) l _ ls (sym (lines_of-next_line at.1) ∙ e) in
      let later =
        behind num at ls (λ r. All (Accepts doc) (task_items_from (skip b l).1 (suc (suc num)) r)) w
          tt (λ at' w' e'. Accepts-from ls (skip b l).1 (suc num) at' w' e') (behind_line at.1) refl
          heads.1 in
      elim (Bool-cases (skip b l).0) [
        | inl s ↦ rw s later
        | inr s ↦ rw s (Accepts-add num at l _ w heads.0 later)
      ]

-- In a document without carriage returns, every task item that TaskItems reports is accepted: the
-- call with the item's line and the other state succeeds, and the call with the state that the item
-- has is refused as already done.
pub task_items-Accepts :
    (doc : Text) → contains_byte doc b'\r' ≡ false → All (Accepts doc) (task_items doc)
unfolding task_items walk
task_items-Accepts doc no_cr =
    Accepts-from doc no_cr (lines_of doc) new_skipper 0 ([], doc) refl refl
