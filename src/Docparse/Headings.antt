-- ===== src/Docparse/Headings.antt =====
-- Headings of pkg/doczcore/docparse/headings.go. The map `taken` is an association list.
pub mod Slugs
pub mod Walk
use docz.Prelude.{
  ℕ, zero, suc, ◌+◌, ◌-◌, ◌*◌, ◌/◌, ◌%◌, ◌≤◌, ◌<◌, Bool, true, false, not, ◌&&◌, ◌||◌, ◌≡◌, ◌≢◌,
  ◌↔◌, ◌⊎◌, inl, inr, refl, sym, ap, ◌∙◌, subst, Option, none, some, List, [], ◌∷◌, ◌++◌,
  append-nil, append_assoc, map, String, arith, ltb, leb, ◌==◌, within, if◌then◌else◌, ltb→lt,
  lt→ltb, ==_iff, Bool-cases, Option-cases, ◌>>=◌, bind-eq_some, length, is_empty, take, drop,
  get_elem?, length-append, take-append-drop, All, All-append, All-append_left, All-append_right,
  All-weaken,
}
use docz.Prelude.Pairs.{
  AllPairs, AllPairs-append, AllPairs-unappend, AllPairs-reverse, AllPairs-weaken, All-reverse,
}
use docz.Text.{
  Text, codes, equal, cut_prefix, has_prefix, contains, contains_byte, is_space, is_blank,
  equal_iff, cut_prefix-append, cut_prefix-eq_some, contains_byte-append,
}
use docz.Text.Trim.{
  trim_left, trim_right, trim_space, trim_right-concat, trim_left_self, trim_space_self,
  trim_left-append, trim_right-cons, is_space_of_blank, trim_space-head,
}
use docz.Text.Lines.{
  split, join, lines_of, cons_head, newlines, newlines-append, split_of_lacks, split-ne-nil,
  length-lines_of, newlines_of_lacks,
}
use docz.Text.Decimal.{itoa}
use docz.Docparse.Blocks.{BlockSkipper, new_skipper, skip}
use docz.Docparse.Markers.{span}
use docz.Docparse.Inline.{Unicode, strip_inline_markdown, slug_source, anchor_slug, is_re_space}

pub record Heading : Type 0 where
  pub level : ℕ
  pub text : Text
  pub slug : Text
  pub line : ℕ

-- map[string]int
abbrev pub Taken : Type 0
Taken = List (Text × ℕ)

unfoldable pub lookup : Text → Taken → Option ℕ
lookup k [] = none
lookup k ((j, n) ∷ m) = if equal j k then some n else lookup k m

unfoldable pub insert : Text → ℕ → Taken → Taken
insert k v [] = (k, v) ∷ []
insert k v ((j, n) ∷ m) = if equal j k then (k, v) ∷ m else (j, n) ∷ insert k v m

abbrev pub or_zero : Option ℕ → ℕ
or_zero none = 0
or_zero (some n) = n

-- slug + "-" + strconv.Itoa(n)
abbrev pub suffixed : Text → ℕ → Text
suffixed slug n = slug ++ (b'-' ∷ itoa n)

-- The loop of uniqueSlug, at the slug `result`.
unfoldable pub unique_from : ℕ → Taken → Text → Text → Option (Text × Taken)
unique_from zero taken slug result = none
unique_from (suc fuel) taken slug result =
    let n = suc (or_zero (lookup slug taken)) in
    let next = unique_from fuel (insert slug n taken) slug (suffixed slug n) in
    elim (lookup result taken) [ none ↦ some (result, insert result 0 taken) | some _ ↦ next ]

-- uniqueSlug; each round but the last meets another slug of the map.
unfoldable pub unique_slug : Taken → Text → Option (Text × Taken)
unique_slug taken slug = unique_from (suc (suc (length taken))) taken slug slug

-- headingPattern, on a trimmed line: the level and the text
unfoldable pub match_heading : Text → Option (ℕ × Text)
match_heading line =
    let (hashes, rest) = span (λ c. c == b'#') line in
    let (gap, text) = span is_re_space rest in
    if leb 2 (length hashes) && leb (length hashes) 6 && not (is_empty gap) && not (is_empty text)
    then some (length hashes, text)
    else none

-- closingSequence at the start of a text
unfoldable pub is_closing : Text → Bool
is_closing s =
    let (gap, rest) = span is_blank s in
    let (hashes, end) = span (λ c. c == b'#') rest in
    not (is_empty gap) && not (is_empty hashes) && is_empty (trim_left is_blank end)

-- closingSequence.ReplaceAllString(text, ""); a match runs to the end of the text.
unfoldable pub drop_closing : Text → Text
drop_closing [] = []
drop_closing (c ∷ s) = let rest = drop_closing s in if is_closing (c ∷ s) then [] else c ∷ rest

-- `none` would mean that a loop ran out of rounds.
abbrev pub Walked : Type 0
Walked = Option (List Heading)

module _ (u : Unicode) where
  -- One heading of the walk, in front of the headings that the rest of the lines give.
  unfoldable pub add_heading : Taken → ℕ → ℕ × Text → (Taken → Walked) → Walked
  add_heading taken num (level, found) later = do
    let raw = drop_closing (trim_space found)
    text ← strip_inline_markdown u raw
    source ← slug_source u raw
    (slug, taken') ← unique_slug taken (anchor_slug u source)
    hs ← later taken'
    some (record { level = level; text = text; slug = slug; line = num } ∷ hs)

  -- A line that is no heading is passed over.
  abbrev pub with_heading : Taken → ℕ → Option (ℕ × Text) → (Taken → Walked) → Walked
  with_heading taken num none later = later taken
  with_heading taken num (some found) later = add_heading taken num found later

  -- the loop of Headings, at line `num`
  unfoldable pub headings_from : BlockSkipper → Taken → ℕ → List Text → Walked
  headings_from b taken num [] = some []
  headings_from b taken num (line ∷ ls) =
      let later = λ (t : Taken). headings_from (skip b line).1 t (suc num) ls in
      let skipped = later taken in
      let met = with_heading taken num (match_heading (trim_space line)) later in
      if (skip b line).0 then skipped else met

  -- Headings
  unfoldable pub headings : Text → Walked
  headings content = headings_from new_skipper [] 1 (lines_of content)
