-- ===== src/Tests/Docparse.antt =====
-- Runs of the walkers of docparse on small documents, and the theorems about them at those.
use docz.Prelude.{
  suc, ◌+◌, ◌<◌, true, false, ◌≡◌, refl, some, List, [], ◌∷◌, ◌==◌, within, if◌then◌else◌, length,
  All,
}
use docz.Prelude.Pairs.{AllPairs}
use docz.Text.{Text, codes, equal, cut_prefix, has_prefix, contains, is_space, is_blank}
use docz.Text.Trim.{trim_left, trim_right, trim_space}
use docz.Text.Lines.{split, lines_of}
use docz.Docparse.TaskItems.{
  task_items, task_items_from, task_at, match_task, task_bullet, checkbox, tail_text,
}
use docz.Docparse.ListItems.{
  list_items, count_marker, is_digit, is_rule, is_thematic_break, list_at, list_bullet,
  list_items_from, ordinal_end,
}
use docz.Docparse.Blocks.{skip, opens_comment_block}
use docz.Docparse.Blocks.{is_fence_toggle}
use docz.Docparse.Markers.{
  finish, markers, markers_from, parse_marker, parse_trimmed, match_docz, match_toc, match_index,
  spelling, some_blanks, word, is_kind_head, is_kind_char, span, kind_token, role_token, closes,
}
use docz.Docparse.Markers.Spelling.{parse_marker-spelling}
use docz.Docparse.Blocks.{new_skipper}
use docz.Docparse.Title.{title, title_from, is_blank_line, is_frontmatter_delimiter}
use docz.Docparse.Title.Frontmatter.{IsFrontmatter, title-IsFrontmatter}
use docz.Docparse.Regions.{
  regions, pair, pair_all, paired, close, close_all, in_order, sift, sort_from, sort_regions,
  last_line,
}
use docz.Docparse.Regions.Order.{regions-starts}
use docz.Docparse.Regions.Starts.{region_keys, start_keys}
use docz.Docparse.Regions.Spans.{InDocument, regions-InDocument, Follows, regions-Follows}
use docz.Docparse.Headings.{Heading, headings, unique_slug, Taken}
use docz.Docparse.Headings.Slugs.{Fresh, unique_slug-Fresh}
use docz.Docparse.Headings.Walk.{headings-DistinctSlugs, DifferentSlug, InLines}
use docz.Docparse.Inline.{Unicode, is_ascii_letter}

abbrev doc : Text
doc =
    codes
      "# T\n<!--docz:a:start-->\n```\n<!--docz:x:start-->\n```\n <!-- docz:b:start-->\n<!--docz:a:end-->\n<!-- END DOCZ AUTO-GENERATED -->\n<!--toc:start-->\n"

regions-doc :
    regions doc
    ≡ record { kind = codes "a"; first = 2; last = 7; depth = 0; closed = true }
      ∷ record { kind = codes "b"; first = 6; last = 7; depth = 1; closed = false }
      ∷ record { kind = codes "toc"; first = 9; last = 10; depth = 0; closed = false }
      ∷ []
unfolding regions paired pair_all pair close close_all sort_regions sort_from sift in_order
    last_line markers markers_from parse_marker parse_trimmed match_docz match_toc match_index
    some_blanks word is_kind_head is_kind_char span kind_token role_token closes is_fence_toggle
    equal has_prefix cut_prefix trim_left is_blank trim_space trim_right is_space split
regions-doc = refl

regions-starts_example : region_keys (regions doc) ≡ start_keys (markers doc)
regions-starts_example = regions-starts doc

regions-InDocument_example : All (InDocument (last_line doc)) (regions doc)
regions-InDocument_example = regions-InDocument doc

regions-Follows_example : AllPairs Follows (regions doc)
regions-Follows_example = regions-Follows doc

parse_marker-spelling_example :
    parse_marker (spelling (codes "open-q2") finish) 7
    ≡ some (record { kind = codes "open-q2"; role = finish; line = 7; canonical = true })
unfolding is_kind_head is_kind_char
parse_marker-spelling_example =
    parse_marker-spelling (codes "open-q2") finish 7
      (refl, (refl, (refl, (refl, (refl, (refl, (refl, tt)))))))

-- the tables of `unicode`, for ASCII
abbrev pub ascii : Unicode
ascii = record {
  letter = is_ascii_letter;
  mark = λ c. false;
  number = λ c. within b'0' b'9' c;
  connector = λ c. c == b'_';
  lower = λ c. if within b'A' b'Z' c then c + 32 else c;
}

abbrev titled : Text
titled = codes "# Doc\n## Why *now*\n## Why now\n### Why now-1 ##\n## Why now\n"

headings-DistinctSlugs_example :
    (hs : List Heading) × (headings ascii titled ≡ some hs)
    × AllPairs DifferentSlug hs
    × All (InLines 1 (suc (length (lines_of titled)))) hs
    × AllPairs (λ (a b : Heading). a.line < b.line) hs
headings-DistinctSlugs_example = headings-DistinctSlugs ascii titled

abbrev taken : Taken
taken = (codes "a", 0) ∷ (codes "a-1", 0) ∷ []

unique_slug-Fresh_example : Fresh taken (codes "a") (unique_slug taken (codes "a"))
unique_slug-Fresh_example = unique_slug-Fresh taken (codes "a")

abbrev with_meta : Text
with_meta = codes "---\nid: 1\n# x: y\n---\n# T\n"

with_meta-IsFrontmatter : IsFrontmatter (lines_of with_meta) (codes "# T" ∷ [] ∷ [])
unfolding split is_blank_line is_frontmatter_delimiter trim_left trim_right equal
with_meta-IsFrontmatter = record {
  blanks = [];
  opener = codes "---";
  key = codes "id: 1";
  meta = codes "# x: y" ∷ [];
  closer = codes "---";
  shape = refl;
  blank = tt;
  opens = refl;
  starts = refl;
  has_key = refl;
  inside = (refl, (refl, tt));
  ends = refl;
}

title-IsFrontmatter_example :
    (t : Text) × (title ascii with_meta ≡ some t)
    × (title_from ascii new_skipper (codes "# T" ∷ [] ∷ []) ≡ some t)
title-IsFrontmatter_example =
    title-IsFrontmatter ascii with_meta (codes "# T" ∷ [] ∷ []) with_meta-IsFrontmatter

-- A fence inside a comment hides the list item behind it, but not the task item.
abbrev fence_in_comment : Text
fence_in_comment = codes "<!--\n```\n-->\n- [ ] a"

fence_in_comment-items :
    (length (task_items fence_in_comment) ≡ 1) × (list_items fence_in_comment ≡ [])
unfolding task_items list_items task_items_from split skip is_fence_toggle has_prefix trim_space
    trim_right trim_left is_space opens_comment_block cut_prefix is_blank contains task_at
    match_task task_bullet span count_marker is_digit is_rule is_thematic_break list_at list_bullet
    list_items_from ordinal_end some_blanks checkbox tail_text
fence_in_comment-items = (refl, refl)
