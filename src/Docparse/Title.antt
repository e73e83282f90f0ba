-- ===== src/Docparse/Title.antt =====
-- Title of pkg/doczcore/docparse/title.go.
pub mod Frontmatter
use docz.Prelude.{
  ℕ, zero, suc, ◌+◌, ◌-◌, ◌*◌, ◌/◌, ◌%◌, ◌≤◌, ◌<◌, Bool, true, false, not, ◌&&◌, ◌||◌, ◌≡◌, ◌≢◌,
  ◌↔◌, ◌⊎◌, inl, inr, refl, sym, ap, ◌∙◌, subst, Option, none, some, List, [], ◌∷◌, ◌++◌,
  append-nil, append_assoc, map, String, arith, ltb, leb, ◌==◌, within, if◌then◌else◌, ltb→lt,
  lt→ltb, ==_iff, Bool-cases, Option-cases, ◌>>=◌, bind-eq_some, length, is_empty, take, drop,
  get_elem?, length-append, take-append-drop, All, All-append, All-append_left, All-append_right,
  All-weaken,
}
use docz.Prelude.Pairs.{
  AllPairs, AllPairs-append, AllPairs-unappend, AllPairs-reverse, AllPairs-weaken, All-reverse,
}
use docz.Text.{
  Text, codes, equal, cut_prefix, has_prefix, contains, contains_byte, is_space, is_blank,
  equal_iff, cut_prefix-append, cut_prefix-eq_some, contains_byte-append,
}
use docz.Text.Trim.{
  trim_left, trim_right, trim_space, trim_right-concat, trim_left_self, trim_space_self,
  trim_left-append, trim_right-cons, is_space_of_blank, trim_space-head,
}
use docz.Text.Lines.{
  split, join, lines_of, cons_head, newlines, newlines-append, split_of_lacks, split-ne-nil,
  length-lines_of, newlines_of_lacks,
}
use docz.Docparse.Blocks.{BlockSkipper, new_skipper, skip}
use docz.Docparse.Markers.{span}
use docz.Docparse.Inline.{Unicode, strip_inline_markdown, is_re_space}

-- titlePattern, on a trimmed line: the text
unfoldable pub match_title : Text → Option Text
match_title [] = none
match_title (c ∷ s) =
    let (gap, text) = span is_re_space s in
    if c == b'#' && not (is_empty gap) && not (is_empty text) then some text else none

-- setextPattern
unfoldable pub is_underline : Text → Bool
is_underline [] = false
is_underline (c ∷ []) = c == b'='
is_underline (c ∷ d ∷ s) = c == b'=' && is_underline (d ∷ s)

-- [.)]\s at the start of a text
abbrev ends_number : Text → Bool
ends_number (c ∷ d ∷ _) = (c == b'.' || c == b')') && is_re_space d
ends_number _ = false

-- blockMarkerPattern
unfoldable pub has_block_marker : Text → Bool
has_block_marker [] = false
has_block_marker (c ∷ s) =
    let (digits, rest) = span (within b'0' b'9') (c ∷ s) in
    c == b'#'
    || c == b'>'
    || ((c == b'-' || c == b'*' || c == b'+') && is_re_space_head s)
    || (not (is_empty digits) && ends_number rest)
    || c == b'|'
    || c == b'<'
  where
    is_re_space_head : Text → Bool
    is_re_space_head [] = false
    is_re_space_head (d ∷ _) = is_re_space d

-- isSetextCandidate
unfoldable pub is_setext_candidate : Text → Bool
is_setext_candidate trimmed =
    if is_empty trimmed || has_block_marker trimmed
    then false
    else not (is_empty (trim_left (λ c. c == b'-' || c == b'*' || c == b'_' || c == b'=') trimmed))

abbrev pub is_next_underline : List Text → Bool
is_next_underline [] = false
is_next_underline (l ∷ _) = is_underline (trim_space l)

-- isSetextTitle; the list holds the lines behind the line
unfoldable pub is_setext_title : Text → List Text → Bool
is_setext_title trimmed later = is_setext_candidate trimmed && is_next_underline later

-- isFrontmatterDelimiter
unfoldable pub is_frontmatter_delimiter : Text → Bool
is_frontmatter_delimiter line =
    equal (trim_right (λ c. c == b' ' || c == 0x09 || c == 0x0d) line) (codes "---")

-- isBlankLine; a text is trimmed to nothing from both ends when it is from one
unfoldable pub is_blank_line : Text → Bool
is_blank_line line = is_empty (trim_left (λ c. c == 0x0d) line)

-- The lines behind the closing delimiter.
unfoldable pub behind_delimiter : List Text → Option (List Text)
behind_delimiter [] = none
behind_delimiter (l ∷ ls) =
    let later = behind_delimiter ls in if is_frontmatter_delimiter l then some ls else later

unfoldable pub drop_blank : List Text → List Text
drop_blank [] = []
drop_blank (l ∷ ls) = let rest = drop_blank ls in if is_blank_line l then rest else l ∷ ls

abbrev pub or_lines : List Text → Option (List Text) → List Text
or_lines lines none = lines
or_lines lines (some body) = body

abbrev pub behind_opener : List Text → List Text → List Text
behind_opener lines (l ∷ k ∷ ls) =
    if is_frontmatter_delimiter l && not (is_blank_line k)
    then or_lines lines (behind_delimiter (k ∷ ls))
    else lines
behind_opener lines _ = lines

-- skipFrontmatter
unfoldable pub skip_frontmatter : List Text → List Text
skip_frontmatter lines = behind_opener lines (drop_blank lines)

module _ (u : Unicode) where
  abbrev pub title_at : Text → List Text → Option Text → Option Text → Option Text
  title_at trimmed ls (some text) later = strip_inline_markdown u (trim_space text)
  title_at trimmed ls none later =
      if is_setext_title trimmed ls then strip_inline_markdown u trimmed else later

  -- the loop of Title
  unfoldable pub title_from : BlockSkipper → List Text → Option Text
  title_from b [] = some []
  title_from b (line ∷ ls) =
      let later = title_from (skip b line).1 ls in
      let met = title_at (trim_space line) ls (match_title (trim_space line)) later in
      if (skip b line).0 then later else met

  -- Title; `none` would mean that the inline reader ran out of rounds.
  unfoldable pub title : Text → Option Text
  title content = title_from new_skipper (skip_frontmatter (lines_of content))
