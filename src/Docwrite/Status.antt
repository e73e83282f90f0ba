-- ===== src/Docwrite/Status.antt =====
-- The byte core of pkg/doczcore/docwrite/status.go. A range of the document is the text in front of
-- it, the text in it and the text behind it.
pub mod Ranges
pub mod Bare
pub mod Scalar
pub mod Field
pub mod Block
pub mod Frontmatter
pub mod Rewrite
use docz.Prelude.{
  ℕ, zero, suc, ◌+◌, ◌-◌, ◌*◌, ◌/◌, ◌%◌, ◌≤◌, ◌<◌, Bool, true, false, not, ◌&&◌, ◌||◌, ◌≡◌, ◌≢◌,
  ◌↔◌, ◌⊎◌, inl, inr, refl, sym, ap, ◌∙◌, subst, Option, none, some, List, [], ◌∷◌, ◌++◌,
  append-nil, append_assoc, map, String, arith, ltb, leb, ◌==◌, within, if◌then◌else◌, ltb→lt,
  lt→ltb, ==_iff, Bool-cases, Option-cases, ◌>>=◌, bind-eq_some, length, is_empty, take, drop,
  get_elem?, length-append, take-append-drop, All, All-append, All-append_left, All-append_right,
  All-weaken,
}
use docz.Prelude.Pairs.{
  AllPairs, AllPairs-append, AllPairs-unappend, AllPairs-reverse, AllPairs-weaken, All-reverse,
}
use docz.Text.{
  Text, codes, equal, cut_prefix, has_prefix, contains, contains_byte, is_space, is_blank,
  equal_iff, cut_prefix-append, cut_prefix-eq_some, contains_byte-append,
}
use docz.Text.Trim.{
  trim_left, trim_right, trim_space, trim_right-concat, trim_left_self, trim_space_self,
  trim_left-append, trim_right-cons, is_space_of_blank, trim_space-head,
}
use docz.Text.Lines.{
  split, join, lines_of, cons_head, newlines, newlines-append, split_of_lacks, split-ne-nil,
  length-lines_of, newlines_of_lacks,
}
use docz.Docparse.Markers.{span}

-- The sentinel errors.
pub data StatusError : Type 0 where
  unsupported_line_endings no_frontmatter status_field_missing : StatusError

-- A range, or the error in its place.
pub data Located : Type 0 where
  found : Text → Text → Text → Located
  failed : StatusError → Located

-- The new document with the old status, or an error.
pub data Outcome : Type 0 where
  rewritten : Text → Text → Outcome
  refused : StatusError → Outcome

-- Text in front of the one that a range lies in, and behind it.
abbrev pub between : Text → Text → Located → Located
between before after (found front value behind) = found (before ++ front) value (behind ++ after)
between before after (failed e) = failed e

-- A "\n---" run ends the frontmatter when a newline or the end of the file follows.
unfoldable pub closes : Text → Bool
closes s = elim (cut_prefix s (codes "\n---")) [
  | none ↦ false
  | some [] ↦ true
  | some (c ∷ _) ↦ c == b'\n'
]

abbrev pub longer : ℕ → Option (Text × Text) → Option (Text × Text)
longer c none = none
longer c (some (block, rest)) = some (c ∷ block, rest)

-- the loop that searches for the closing delimiter: the block with its last newline, and the rest
unfoldable pub find_close : Text → Option (Text × Text)
find_close [] = none
find_close (c ∷ s) =
    let later = find_close s in if closes (c ∷ s) then some (c ∷ [], s) else longer c later

unfoldable pub leading : Text → Text × Text
leading [] = ([], [])
leading (c ∷ s) = if c == b'\n' then (c ∷ [], s) else ([], c ∷ s)

abbrev pub behind_open : Text → Option Text → Option (Text × Text × Text)
behind_open lead none = none
behind_open lead (some sub) = elim (find_close sub) [
  | none ↦ none
  | some (block, rest) ↦ some (lead ++ codes "---\n", block, rest)
]

-- frontmatterBounds: what is in front of the block, the block, and what is behind it
unfoldable pub frontmatter_bounds : Text → Option (Text × Text × Text)
frontmatter_bounds content =
    let (lead, rest) = leading content in behind_open lead (cut_prefix rest (codes "---\n"))

abbrev pub behind_value : ℕ → Option (Text × Text) → Option (Text × Text)
behind_value c none = none
behind_value c (some (value, behind)) = some (c ∷ value, behind)

-- The value in front of the closing quote, and the quote with what follows it.
unfoldable pub to_quote : ℕ → Text → Option (Text × Text)
to_quote quote [] = none
to_quote quote (c ∷ s) =
    let later = to_quote quote s in if c == quote then some ([], c ∷ s) else behind_value c later

-- quotedValue, behind the opening quote
abbrev pub quoted_value : ℕ → Option (Text × Text) → Located
quoted_value quote none = failed status_field_missing
quoted_value quote (some (value, behind)) = found (quote ∷ []) value behind

-- The text in front of an inline comment.
unfoldable pub before_comment : Text → Text
before_comment [] = []
before_comment (c ∷ []) = c ∷ []
before_comment (c ∷ d ∷ s) =
    let later = before_comment (d ∷ s) in if d == b'#' && is_blank c then c ∷ [] else c ∷ later

-- bareValueLen
unfoldable pub bare_value_len : Text → ℕ
bare_value_len [] = 0
bare_value_len (c ∷ s) =
    if c == b'#' then 0 else length (trim_right is_blank (before_comment (c ∷ s)))

-- the first characters of the YAML shapes that are not rewritten
unfoldable pub is_shape : ℕ → Bool
is_shape c = c == b'|' || c == b'>' || c == b'{' || c == b'[' || c == b'&' || c == b'*'

-- parseStatusValue, behind the key and its spacing
unfoldable pub parse_status_value : Text → Located
parse_status_value [] = found [] [] []
parse_status_value (c ∷ s) =
    let n = bare_value_len (c ∷ s) in
    if c == b'"' || c == b'\''
    then quoted_value c (to_quote c s)
    else if is_shape c
    then failed status_field_missing
    else found [] (take n (c ∷ s)) (drop n (c ∷ s))

-- A line that statusKeyRE matches.
unfoldable pub parse_status_line : Text → Located
parse_status_line rest =
    let (gap, value) = span is_blank rest in
    between (codes "status:" ++ gap) [] (parse_status_value value)

-- The lines behind a line, with the newline that ends it.
abbrev pub rest_of : List Text → Text
rest_of [] = []
rest_of (l ∷ ls) = b'\n' ∷ join b'\n' (l ∷ ls)

abbrev pub at_line : Text → List Text → Option Text → Located → Located
at_line line ls (some rest) later = between [] (rest_of ls) (parse_status_line rest)
at_line line ls none later = between (line ++ (b'\n' ∷ [])) [] later

-- the loop over the lines of the block
unfoldable pub find_in_lines : List Text → Located
find_in_lines [] = failed status_field_missing
find_in_lines (l ∷ ls) = at_line l ls (cut_prefix l (codes "status:")) (find_in_lines ls)

-- findStatusValue
unfoldable pub find_status_value : Text → Located
find_status_value content = elim (frontmatter_bounds content) [
  | none ↦ failed no_frontmatter
  | some (before, block, after) ↦ between before after (find_in_lines (lines_of block))
]

abbrev pub replace : Text → Located → Outcome
replace new (found front value behind) = rewritten (front ++ (new ++ behind)) value
replace new (failed e) = refused e

-- SetStatusBytes
unfoldable pub set_status_bytes : Text → Text → Outcome
set_status_bytes doc new =
    if contains_byte doc b'\r'
    then refused unsupported_line_endings
    else replace new (find_status_value doc)
