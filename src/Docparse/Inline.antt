-- ===== src/Docparse/Inline.antt =====
-- The inline markdown of pkg/doczcore/docparse/headings.go: stripInline, slugSource and AnchorSlug.
-- The tables of the package `unicode` are a parameter.
pub mod Emphasis
use docz.Prelude.{
  ℕ, zero, suc, ◌+◌, ◌-◌, ◌*◌, ◌/◌, ◌%◌, ◌≤◌, ◌<◌, Bool, true, false, not, ◌&&◌, ◌||◌, ◌≡◌, ◌≢◌,
  ◌↔◌, ◌⊎◌, inl, inr, refl, sym, ap, ◌∙◌, subst, Option, none, some, List, [], ◌∷◌, ◌++◌,
  append-nil, append_assoc, map, String, arith, ltb, leb, ◌==◌, within, if◌then◌else◌, ltb→lt,
  lt→ltb, ==_iff, Bool-cases, Option-cases, ◌>>=◌, bind-eq_some, length, is_empty, take, drop,
  get_elem?, length-append, take-append-drop, All, All-append, All-append_left, All-append_right,
  All-weaken,
}
use docz.Prelude.Pairs.{
  AllPairs, AllPairs-append, AllPairs-unappend, AllPairs-reverse, AllPairs-weaken, All-reverse,
}
use docz.Text.{
  Text, codes, equal, cut_prefix, has_prefix, contains, contains_byte, is_space, is_blank,
  equal_iff, cut_prefix-append, cut_prefix-eq_some, contains_byte-append,
}
use docz.Text.Trim.{
  trim_left, trim_right, trim_space, trim_right-concat, trim_left_self, trim_space_self,
  trim_left-append, trim_right-cons, is_space_of_blank, trim_space-head,
}
use docz.Text.Lines.{
  split, join, lines_of, cons_head, newlines, newlines-append, split_of_lacks, split-ne-nil,
  length-lines_of, newlines_of_lacks,
}
use docz.Text.Replace.{Matcher, put, replace_from, replace_all, before, lazy_before}
use docz.Docparse.Markers.{span}

-- unicode.IsLetter, IsMark, IsNumber and Is(unicode.Pc, r), and the lower case of a rune.
pub record Unicode : Type 0 where
  pub letter : ℕ → Bool
  pub mark : ℕ → Bool
  pub number : ℕ → Bool
  pub connector : ℕ → Bool
  pub lower : ℕ → ℕ

-- `open(.+?)close`, replaced by what the group holds
unfoldable pub delimited : Text → Text → Text → Option (Text × ℕ)
delimited from to s = do
  r ← cut_prefix s from
  body ← lazy_before to r
  some (body, length from + length body + length to)

-- linkPattern, replaced by "$1"
unfoldable pub link : Matcher
link start s = do
  r ← cut_prefix s (codes "[")
  let text = (span (λ c. not (c == b']')) r).0
  r₂ ← cut_prefix (span (λ c. not (c == b']')) r).1 (codes "](")
  let url = (span (λ c. not (c == b')')) r₂).0
  r₃ ← cut_prefix (span (λ c. not (c == b')')) r₂).1 (codes ")")
  if is_empty text || is_empty url then none else some (text, length text + length url + 4)

-- codePattern
unfoldable pub code_span : Matcher
code_span start = delimited (codes "`") (codes "`")

abbrev or_else : Option (Text × ℕ) → Option (Text × ℕ) → Option (Text × ℕ)
or_else none other = other
or_else (some x) other = some x

-- boldPattern, replaced by the group that matched
unfoldable pub bold : Matcher
bold start s =
    or_else (delimited (codes "**") (codes "**") s) (delimited (codes "__") (codes "__") s)

-- starItalicPattern
unfoldable pub star_italic : Matcher
star_italic start = delimited (codes "*") (codes "*")

-- "$1$2$3" and the length of the match, unless the second group is empty
abbrev pub found_emphasis : Text → Text → Text → Option (Text × ℕ)
found_emphasis left [] right = none
found_emphasis left (c ∷ body) right =
    some (left ++ ((c ∷ body) ++ right), length left + length (c ∷ body) + length right + 2)

module _ (u : Unicode) where
  -- [^\p{L}\p{N}_]
  unfoldable pub is_boundary : ℕ → Bool
  is_boundary c = not (u.letter c || u.number c || c == b'_')

  -- ($|[^\p{L}\p{N}_]): the boundary behind the emphasis
  unfoldable pub right_boundary : Text → Option Text
  right_boundary [] = some []
  right_boundary (c ∷ s) = if is_boundary c then some (c ∷ []) else none

  -- _([^_]+?)_ and the boundary behind it, with the boundary `left` in front
  unfoldable pub emphasis : Text → Text → Option (Text × ℕ)
  emphasis left s = do
    r ← cut_prefix s (codes "_")
    let body = (span (λ c. not (c == b'_')) r).0
    r₂ ← cut_prefix (span (λ c. not (c == b'_')) r).1 (codes "_")
    right ← right_boundary r₂
    found_emphasis left body right

  unfoldable pub emphasis_behind : Text → Option (Text × ℕ)
  emphasis_behind [] = none
  emphasis_behind (c ∷ s) = if is_boundary c then emphasis (c ∷ []) s else none

  -- underItalic
  unfoldable pub under_italic : Matcher
  under_italic true s = or_else (emphasis [] s) (emphasis_behind s)
  under_italic false s = emphasis_behind s

  -- The loop of stripInline: until nothing changes.
  unfoldable pub strip_under : ℕ → Text → Option Text
  strip_under zero text = none
  strip_under (suc fuel) text =
      let next = replace_all under_italic text in
      let again = strip_under fuel next in if equal next text then some text else again

  -- stripInline; every round of the loop takes characters away.
  unfoldable pub strip_inline : Text → Option Text
  strip_inline text =
      let plain =
        replace_all star_italic
          (replace_all bold (replace_all code_span (replace_all link text))) in
      strip_under (suc (length plain)) plain

  -- stripInlineMarkdown
  unfoldable pub strip_inline_markdown : Text → Option Text
  strip_inline_markdown text = do t ← strip_inline text; some (trim_space t)

  -- AnchorSlug, on one rune
  unfoldable pub slug_rune : ℕ → Text
  slug_rune c =
      if c == b' '
      then b'-' ∷ []
      else if c == b'-' || u.letter c || u.mark c || u.number c || u.connector c
      then c ∷ []
      else []

  -- AnchorSlug
  unfoldable pub anchor_slug : Text → Text
  anchor_slug [] = []
  anchor_slug (c ∷ s) = slug_rune (u.lower c) ++ anchor_slug s

-- commentPattern, replaced by nothing
unfoldable pub comment : Matcher
comment start s = do
  r ← cut_prefix s (codes "<!--")
  body ← before (codes "-->") r
  some ([], length body + 7)

-- [A-Za-z]
abbrev pub is_ascii_letter : ℕ → Bool
is_ascii_letter c = within b'a' b'z' c || within b'A' b'Z' c

-- [A-Za-z0-9-]
abbrev pub is_tag_char : ℕ → Bool
is_tag_char c = is_ascii_letter c || within b'0' b'9' c || c == b'-'

-- \s
unfoldable pub is_re_space : ℕ → Bool
is_re_space c = c == 0x09 || c == 0x0a || c == 0x0c || c == 0x0d || c == 0x20

abbrev pub drop_slash : Text → Text
drop_slash s = elim (cut_prefix s (codes "/")) [ none ↦ s | some r ↦ r ]

-- (?:\s[^<>]*)?/?>: the text behind it
unfoldable pub tag_end : Text → Option Text
tag_end [] = none
tag_end (c ∷ s) =
    if is_re_space c
    then cut_prefix (span (λ x. not (x == b'<' || x == b'>')) s).1 (codes ">")
    else cut_prefix (drop_slash (c ∷ s)) (codes ">")

unfoldable pub tag_name : Text → Option Text
tag_name [] = none
tag_name (c ∷ s) = if is_ascii_letter c then some (span is_tag_char s).1 else none

-- inlineTagPattern, replaced by nothing
unfoldable pub inline_tag : Matcher
inline_tag start s = do
  r ← cut_prefix s (codes "<")
  r₂ ← tag_name (drop_slash r)
  r₃ ← tag_end r₂
  some ([], length s - length r₃)

-- dropHTML
unfoldable pub drop_html : Text → Text
drop_html s = replace_all inline_tag (replace_all comment s)

-- One round of slugSource, at a place where a code span may stand.
abbrev pub keep_span : Option (Text × ℕ) → Text → ℕ → Text → (ℕ → Text → Text) → Text
keep_span none outside c s later = later 0 (outside ++ c ∷ [])
keep_span (some (_, size)) outside c s later =
    drop_html outside ++ (take size (c ∷ s) ++ later (size - 1) [])

-- slugSource: `outside` is the text since the last code span, of which `past` characters are left.
unfoldable pub slug_text : ℕ → Text → Text → Text
slug_text past outside [] = drop_html outside
slug_text (suc past) outside (c ∷ s) = slug_text past outside s
slug_text zero outside (c ∷ s) =
    keep_span (code_span false (c ∷ s)) outside c s (λ past kept. slug_text past kept s)

unfoldable pub slug_source : Unicode → Text → Option Text
slug_source u raw = strip_inline u (slug_text 0 [] raw)
