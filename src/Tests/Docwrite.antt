-- ===== src/Tests/Docwrite.antt =====
-- Runs of the writers of docwrite on small documents, and the theorems about them at those.
use docz.Prelude.{ℕ, suc, true, false, not, ◌≡◌, refl, [], ◌∷◌, ◌++◌, All}
use docz.Text.{Text, codes, cut_prefix, has_prefix, contains, contains_byte, is_space, is_blank}
use docz.Text.Trim.{trim_left, trim_right, trim_space}
use docz.Text.Lines.{split, join, newlines}
use docz.Docparse.Blocks.{is_fence_toggle, opens_comment_block, skip}
use docz.Docparse.Markers.{some_blanks, span}
use docz.Docparse.TaskItems.{
  task_items, task_items_from, task_at, match_task, task_bullet, checkbox, tail_text,
}
use docz.Docparse.TaskItems.Shape.{is_state}
use docz.Docwrite.CheckTask.{
  ok, walk, next_line, state_byte, set_behind_bracket, set_at, set_from, set_task_state_bytes,
}
use docz.Docparse.Markers.{span}
use docz.Docwrite.Status.{
  is_shape, set_status_bytes, rewritten, find_status_value, frontmatter_bounds, leading, find_close,
  closes, find_in_lines, parse_status_line, parse_status_value, bare_value_len,
}
use docz.Docwrite.CheckTask.Splice.{is_checked}
use docz.Docwrite.CheckTask.Flip.{uncheck-check, set_flips_one_byte}
use docz.Docwrite.CheckTask.Accepts.{Accepts, task_items-Accepts}

abbrev tasks : Text
tasks = codes "# T\n- [ ] one\n  * [X] two\n"

abbrev checked_tasks : Text
checked_tasks = codes "# T\n- [x] one\n  * [X] two\n"

set_tasks : set_task_state_bytes tasks 2 true ≡ ok checked_tasks
unfolding set_task_state_bytes set_from set_at set_behind_bracket state_byte next_line walk
    task_items task_items_from task_at match_task task_bullet checkbox tail_text some_blanks span
    skip is_fence_toggle opens_comment_block has_prefix cut_prefix contains contains_byte trim_space
    trim_left trim_right is_space is_blank split
set_tasks = refl

uncheck-check_example : set_task_state_bytes checked_tasks 2 false ≡ ok tasks
uncheck-check_example = uncheck-check tasks checked_tasks 2 set_tasks

set_flips_one_byte_example :
    (a : Text) × (old : ℕ) × (b : Text) × (tasks ≡ a ++ (b'[' ∷ old ∷ b']' ∷ b))
    × (checked_tasks ≡ a ++ (b'[' ∷ state_byte true ∷ b']' ∷ b))
    × (is_state old ≡ true)
    × (is_checked old ≡ not true)
    × (suc (newlines a) ≡ 2)
set_flips_one_byte_example = set_flips_one_byte tasks checked_tasks 2 true set_tasks

task_items-Accepts_example : All (Accepts tasks) (task_items tasks)
unfolding contains_byte
task_items-Accepts_example = task_items-Accepts tasks refl

abbrev with_status : Text
with_status = codes "---\ntitle: T\nstatus: \"Draft\" # now\n---\n"

abbrev accepted_status : Text
accepted_status = codes "---\ntitle: T\nstatus: \"Accepted\" # now\n---\n"

-- A status that only a comment follows: the new status joins the comment.
joined_comment :
    set_status_bytes (codes "---\nstatus: # todo\n---\n") (codes "Draft")
    ≡ rewritten (codes "---\nstatus: Draft# todo\n---\n") []
unfolding set_status_bytes contains_byte find_status_value frontmatter_bounds leading cut_prefix
    find_close closes split find_in_lines parse_status_line span is_blank parse_status_value
    bare_value_len join is_shape
joined_comment = refl
