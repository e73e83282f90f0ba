-- ===== src/Docparse/Markers.antt =====
-- The marker lines of pkg/doczcore/docparse/regions.go. A regular expression is a chain of steps,
-- each of which takes what one part of the pattern matches; the parts of these patterns exclude one
-- another at every character, so no step is ever undone.
pub mod Spelling
pub mod Order
use docz.Prelude.{
  ℕ, zero, suc, ◌+◌, ◌-◌, ◌*◌, ◌/◌, ◌%◌, ◌≤◌, ◌<◌, Bool, true, false, not, ◌&&◌, ◌||◌, ◌≡◌, ◌≢◌,
  ◌↔◌, ◌⊎◌, inl, inr, refl, sym, ap, ◌∙◌, subst, Option, none, some, List, [], ◌∷◌, ◌++◌,
  append-nil, append_assoc, map, String, arith, ltb, leb, ◌==◌, within, if◌then◌else◌, ltb→lt,
  lt→ltb, ==_iff, Bool-cases, Option-cases, length, is_empty, take, drop, get_elem?, length-append,
  take-append-drop, All, All-append, All-append_left, All-append_right, All-weaken,
}
use docz.Prelude.Pairs.{AllPairs, AllPairs-append}
use docz.Text.{
  Text, codes, equal, cut_prefix, has_prefix, contains, contains_byte, is_space, is_blank,
  equal_iff, cut_prefix-append, cut_prefix-eq_some, contains_byte-append,
}
use docz.Text.Trim.{trim_left, trim_right, trim_space}
use docz.Text.Lines.{split, join, lines_of, cons_head}
use docz.Prelude.{◌>>=◌}
use docz.Docparse.Blocks.{is_fence_toggle}

-- Role; `End` is a word of the model's own spelling, `finish`.
pub data Role : Type 0 where
  start finish : Role

-- Role.String
abbrev pub role_name : Role → Text
role_name start = codes "start"
role_name finish = codes "end"

pub record Marker : Type 0 where
  pub kind : Text
  pub role : Role
  pub line : ℕ
  pub canonical : Bool

abbrev pub toc_kind : Text
toc_kind = codes "toc"

abbrev pub index_kind : Text
index_kind = codes "index"

-- [ \t]*
abbrev pub blanks : Text → Text
blanks = trim_left is_blank

-- [ \t]+
unfoldable pub some_blanks : Text → Option Text
some_blanks [] = none
some_blanks (c ∷ s) = if is_blank c then some (blanks s) else none

-- [ \t]*word[ \t]*
unfoldable pub word : Text → Text → Option Text
word w s = do r ← cut_prefix (blanks s) w; some (blanks r)

-- [a-z]
unfoldable pub is_kind_head : ℕ → Bool
is_kind_head = within b'a' b'z'

-- [a-z0-9-]
unfoldable pub is_kind_char : ℕ → Bool
is_kind_char c = within b'a' b'z' c || within b'0' b'9' c || c == b'-'

-- the longest run of a class, and what follows it
unfoldable pub span : (ℕ → Bool) → Text → Text × Text
span p [] = ([], [])
span p (c ∷ s) = let rest = span p s in if p c then (c ∷ rest.0, rest.1) else ([], c ∷ s)

-- ([a-z][a-z0-9-]*)
unfoldable pub kind_token : Text → Option (Text × Text)
kind_token [] = none
kind_token (c ∷ s) =
    if is_kind_head c then some (c ∷ (span is_kind_char s).0, (span is_kind_char s).1) else none

-- (start|end), or another pair of words
unfoldable pub role_token : Text → Text → Text → Option (Role × Text)
role_token from to s = elim (cut_prefix s from) [
  | some r ↦ some (start, r)
  | none ↦ elim (cut_prefix s to) [ some r ↦ some (finish, r) | none ↦ none ]
]

-- [ \t]*-->$
unfoldable pub closes : Text → Bool
closes s = elim (cut_prefix (blanks s) (codes "-->")) [ none ↦ false | some r ↦ is_empty r ]

abbrev pub if_closed {ℓ} : {A : Type ℓ} → A → Text → Option A
if_closed a s = if closes s then some a else none

-- doczMarkerPattern
unfoldable pub match_docz : Text → Option (Text × Role)
match_docz s = do
  r₁ ← cut_prefix s (codes "<!--")
  r₂ ← word (codes "docz") r₁
  r₃ ← word (codes ":") r₂
  (kind, r₄) ← kind_token r₃
  r₅ ← word (codes ":") r₄
  (role, r₆) ← role_token (codes "start") (codes "end") r₅
  if_closed (kind, role) r₆

-- legacyTocPattern
unfoldable pub match_toc : Text → Option Role
match_toc s = do
  r₁ ← cut_prefix s (codes "<!--")
  r₂ ← word (codes "toc") r₁
  r₃ ← word (codes ":") r₂
  (role, r₄) ← role_token (codes "start") (codes "end") r₃
  if_closed role r₄

-- legacyIndexPattern
unfoldable pub match_index : Text → Option Role
match_index s = do
  r₁ ← cut_prefix s (codes "<!--")
  (role, r₂) ← role_token (codes "BEGIN") (codes "END") (blanks r₁)
  r₃ ← some_blanks r₂
  r₄ ← cut_prefix r₃ (codes "DOCZ")
  r₅ ← some_blanks r₄
  r₆ ← cut_prefix r₅ (codes "AUTO-GENERATED")
  if_closed role r₆

-- canonicalPrefix+kind+":"+role.String()+canonicalSuffix
unfoldable pub spelling : Text → Role → Text
spelling kind role = codes "<!--docz:" ++ (kind ++ (b':' ∷ (role_name role ++ codes "-->")))

-- legacyTocStart and legacyTocEnd
abbrev pub toc_spelling : Role → Text
toc_spelling start = codes "<!--toc:start-->"
toc_spelling finish = codes "<!--toc:end-->"

-- legacyIndexStart and legacyIndexEnd
abbrev pub index_spelling : Role → Text
index_spelling start = codes "<!-- BEGIN DOCZ AUTO-GENERATED -->"
index_spelling finish = codes "<!-- END DOCZ AUTO-GENERATED -->"

-- The three patterns in turn, on a trimmed line.
unfoldable pub parse_trimmed : Text → ℕ → Option Marker
parse_trimmed t num = elim (match_docz t) [
  | some (k, r) ↦
      some (record { kind = k; role = r; line = num; canonical = equal t (spelling k r) })
  | none ↦ elim (match_toc t) [
    | some r ↦
        some
          (record { kind = toc_kind; role = r; line = num; canonical = equal t (toc_spelling r) })
    | none ↦ elim (match_index t) [
      | some r ↦ some (record {
        kind = index_kind;
        role = r;
        line = num;
        canonical = equal t (index_spelling r);
      })
      | none ↦ none
    ]
  ]
]

-- parseMarker
unfoldable pub parse_marker : Text → ℕ → Option Marker
parse_marker line num =
    let trimmed = trim_space line in
    if has_prefix trimmed (codes "<!--") then parse_trimmed trimmed num else none

-- `some m` in front of a list
abbrev pub add {ℓ} : {A : Type ℓ} → Option A → List A → List A
add none xs = xs
add (some x) xs = x ∷ xs

-- the loop of Markers, at line `num` of the document
unfoldable pub markers_from : Bool → ℕ → List Text → List Marker
markers_from in_code num [] = []
markers_from in_code num (line ∷ rest) =
    let toggled = markers_from (not in_code) (suc num) rest in
    let same = markers_from in_code (suc num) rest in
    if is_fence_toggle line
    then toggled
    else if in_code
    then same
    else add (parse_marker line num) same

-- Markers
unfoldable pub markers : Text → List Marker
markers content = markers_from false 1 (lines_of content)
