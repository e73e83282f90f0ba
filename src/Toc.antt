-- ===== src/Toc.antt =====
-- pkg/doczcore/toc: the table of contents and its splice (toc.go), and the report over many files
-- (update.go). The loops that count lines are that of `walk`.
pub mod Walk
pub mod First
pub mod Splice
pub mod Report
use docz.Prelude.{
  ℕ, zero, suc, ◌+◌, ◌-◌, ◌*◌, ◌/◌, ◌%◌, ◌≤◌, ◌<◌, Bool, true, false, not, ◌&&◌, ◌||◌, ◌≡◌, ◌≢◌,
  ◌↔◌, ◌⊎◌, inl, inr, refl, sym, ap, ◌∙◌, subst, Option, none, some, List, [], ◌∷◌, ◌++◌,
  append-nil, append_assoc, map, String, arith, ltb, leb, ◌==◌, within, if◌then◌else◌, ltb→lt,
  lt→ltb, ==_iff, Bool-cases, Option-cases, ◌>>=◌, bind-eq_some, length, is_empty, take, drop,
  get_elem?, length-append, take-append-drop, All, All-append, All-append_left, All-append_right,
  All-weaken,
}
use docz.Prelude.Pairs.{
  AllPairs, AllPairs-append, AllPairs-unappend, AllPairs-reverse, AllPairs-weaken, All-reverse,
}
use docz.Text.{
  Text, codes, equal, cut_prefix, has_prefix, contains, contains_byte, is_space, is_blank,
  equal_iff, cut_prefix-append, cut_prefix-eq_some, contains_byte-append,
}
use docz.Text.Trim.{
  trim_left, trim_right, trim_space, trim_right-concat, trim_left_self, trim_space_self,
  trim_left-append, trim_right-cons, is_space_of_blank, trim_space-head,
}
use docz.Text.Lines.{
  split, join, lines_of, cons_head, newlines, newlines-append, split_of_lacks, split-ne-nil,
  length-lines_of, newlines_of_lacks,
}
use docz.Docparse.Inline.{Unicode}
use docz.Docparse.Headings.{Heading, headings}
use docz.Docparse.Regions.{Region, regions}
use docz.Docwrite.CheckTask.{walk}
use docz.Docwrite.CheckTask.Offsets.{behind_line}

abbrev pub toc_begin : Text
toc_begin = codes "<!--toc:start-->"

abbrev pub toc_end : Text
toc_end = codes "<!--toc:end-->"

abbrev pub line_length_off : Text
line_length_off = codes "<!-- markdownlint-capture -->\n<!-- markdownlint-disable MD013 -->\n"

abbrev pub line_length_restore : Text
line_length_restore = codes "<!-- markdownlint-restore -->\n"

-- linesFrom
unfoldable pub lines_from : Text → ℕ → Text
lines_from content line = elim (walk (line - 1) content) [
  | none ↦ []
  | some (before, behind) ↦ behind
]

-- linesUpTo
unfoldable pub lines_up_to : Text → ℕ → Text
lines_up_to content line = elim (walk (line - 1) content) [
  | none ↦ content
  | some (before, behind) ↦ before
]

-- fromLineEnd
unfoldable pub from_line_end : Text → ℕ → Text
from_line_end content line = elim (walk (line - 1) content) [
  | none ↦ []
  | some (before, behind) ↦ behind_line behind
]

-- strings.Repeat("  ", n)
unfoldable pub indent : ℕ → Text
indent zero = []
indent (suc n) = b' ' ∷ b' ' ∷ indent n

-- the loop that finds the shallowest level
unfoldable pub min_level : ℕ → List Heading → ℕ
min_level least [] = least
min_level least (h ∷ hs) = min_level (if ltb h.level least then h.level else least) hs

unfoldable pub toc_entry : ℕ → Heading → Text
toc_entry least h =
    indent (h.level - least)
    ++ (codes "- [" ++ (h.text ++ (codes "](#" ++ (h.slug ++ codes ")\n"))))

unfoldable pub toc_entries : ℕ → List Heading → Text
toc_entries least [] = []
toc_entries least (h ∷ hs) = toc_entry least h ++ toc_entries least hs

-- GenerateToC
unfoldable pub generate_toc : List Heading → ℕ → Text
generate_toc [] min_headings = []
generate_toc (h ∷ hs) min_headings =
    if ltb (length (h ∷ hs)) min_headings
    then []
    else line_length_off ++ (toc_entries (min_level h.level hs) (h ∷ hs) ++ line_length_restore)

-- the loop of tocRegion
unfoldable pub first_toc : List Region → Option Region
first_toc [] = none
first_toc (r ∷ rs) =
    let later = first_toc rs in
    if equal r.kind (codes "toc") then (if r.closed then some r else none) else later

-- tocRegion
unfoldable pub toc_region : Text → Option Region
toc_region content = first_toc (regions content)

pub record UpdateResult : Type 0 where
  pub updated : Text
  pub headings : List Heading
  pub found : Bool

module _ (u : Unicode) where
  -- parseHeadings
  unfoldable pub parse_headings : Text → ℕ → Option (List Heading)
  parse_headings content zero = headings u content
  parse_headings content (suc line) = headings u (lines_from content (suc (suc line)))

  -- The text around the region that the generated lines take the place of.
  abbrev pub spliced : Text → ℕ → Region → List Heading → UpdateResult
  spliced content min_headings r hs = record {
    updated =
        lines_up_to content r.first
        ++ (toc_begin
            ++ (codes "\n"
                ++ (generate_toc hs min_headings ++ (toc_end ++ from_line_end content r.last))));
    headings = hs;
    found = true;
  }

  abbrev pub update_region : Text → ℕ → Option Region → Option UpdateResult
  update_region content min_headings none =
      some (record { updated = content; headings = []; found = false })
  update_region content min_headings (some r) = do
    hs ← parse_headings content r.last
    some (spliced content min_headings r hs)

  -- UpdateToC; `none` would mean that the walk over the headings ran out of rounds.
  unfoldable pub update_toc : Text → ℕ → Option UpdateResult
  update_toc content min_headings = update_region content min_headings (toc_region content)
