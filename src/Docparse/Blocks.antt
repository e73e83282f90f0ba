-- ===== src/Docparse/Blocks.antt =====
-- pkg/doczcore/docparse/blocks.go, and the fence test of headings.go: the lines of a document that
-- are never markdown structure.

-- isFenceToggle
use docz.Prelude.{Bool, true, false, not, ◌≡◌, Option, none, some, arith, if◌then◌else◌}
use docz.Text.{Text, codes, cut_prefix, has_prefix, contains, is_blank}
use docz.Text.Trim.{trim_left, trim_space}

unfoldable pub is_fence_toggle : Text → Bool
is_fence_toggle line = has_prefix (trim_space line) (codes "```")

-- what follows "<!--" does not close the comment
abbrev pub stays_open : Option Text → Bool
stays_open none = false
stays_open (some rest) = not (contains rest (codes "-->"))

-- opensCommentBlock
unfoldable pub opens_comment_block : Text → Bool
opens_comment_block line = stays_open (cut_prefix (trim_left is_blank line) (codes "<!--"))

pub record BlockSkipper : Type 0 where
  pub in_fence : Bool
  pub in_comment : Bool

abbrev pub new_skipper : BlockSkipper
new_skipper = record { in_fence = false; in_comment = false }

-- The result of `skip` and the advanced state.
unfoldable pub skip : BlockSkipper → Text → Bool × BlockSkipper
skip b line =
    if b.in_comment
    then (true, (if contains line (codes "-->") then record b { in_comment = false } else b))
    else if is_fence_toggle line
    then (true, record b { in_fence = not b.in_fence })
    else if b.in_fence
    then (true, b)
    else if opens_comment_block line
    then (true, record b { in_comment = true })
    else (false, b)

-- A line that is not skipped is met outside every block, is no fence and opens no comment, and it
-- leaves the state alone; a fresh skipper does not skip it either.
pub skip-eq_false :
    (b : BlockSkipper) (line : Text)
    → (skip b line).0 ≡ false
    → (b ≡ new_skipper)
      × (is_fence_toggle line ≡ false)
      × (opens_comment_block line ≡ false)
      × ((skip b line).1 ≡ b)
unfolding skip
skip-eq_false b line h = ground arith
