-- ===== src/Config/Access.antt =====
-- The access block, of pkg/doczcore/config/access.go. strings.ToLower, which consults the Unicode
-- tables, is a parameter.
pub mod Grammar
pub mod Kept
pub mod Validate
use docz.Prelude.{
  ℕ, zero, suc, ◌+◌, ◌-◌, ◌*◌, ◌/◌, ◌%◌, ◌≤◌, ◌<◌, Bool, true, false, not, ◌&&◌, ◌||◌, ◌≡◌, ◌≢◌,
  ◌↔◌, ◌⊎◌, inl, inr, refl, sym, ap, ◌∙◌, subst, Option, none, some, List, [], ◌∷◌, ◌++◌,
  append-nil, append_assoc, map, String, arith, ltb, leb, ◌==◌, within, if◌then◌else◌, ltb→lt,
  lt→ltb, ==_iff, Bool-cases, Option-cases, ◌>>=◌, bind-eq_some, length, is_empty, take, drop,
  get_elem?, length-append, take-append-drop, All, All-append, All-append_left, All-append_right,
  All-weaken,
}
use docz.Prelude.Pairs.{
  AllPairs, AllPairs-append, AllPairs-unappend, AllPairs-reverse, AllPairs-weaken, All-reverse,
}
use docz.Text.{
  Text, codes, equal, cut_prefix, has_prefix, contains, contains_byte, is_space, is_blank,
  equal_iff, cut_prefix-append, cut_prefix-eq_some, contains_byte-append,
}
use docz.Text.Trim.{
  trim_left, trim_right, trim_space, trim_right-concat, trim_left_self, trim_space_self,
  trim_left-append, trim_right-cons, is_space_of_blank, trim_space-head,
}
use docz.Text.Lines.{
  split, join, lines_of, cons_head, newlines, newlines-append, split_of_lacks, split-ne-nil,
  length-lines_of, newlines_of_lacks,
}
use docz.Config.Paths.{among}

abbrev pub scope_public_read : Text
scope_public_read = codes "public:read"

abbrev pub scope_confluence_write : Text
scope_confluence_write = codes "confluence:write"

pub data ScopeError : Type 0 where
  no_action not_a_scope bad_audience reserved bad_action : ScopeError

-- AccessError: a scope that breaks the grammar, or one that is listed twice, at its position.
pub data AccessError : Type 0 where
  invalid_scope : ℕ → ScopeError → AccessError
  listed_twice : ℕ → AccessError

abbrev pub before_cut : ℕ → Option (Text × Text) → Option (Text × Text)
before_cut c none = none
before_cut c (some (front, behind)) = some (c ∷ front, behind)

-- strings.Cut on one byte
unfoldable pub cut : ℕ → Text → Option (Text × Text)
cut sep [] = none
cut sep (c ∷ s) = let later = cut sep s in if c == sep then some ([], s) else before_cut c later

-- the class [a-z0-9]
unfoldable pub is_label : ℕ → Bool
is_label c = within b'a' b'z' c || within b'0' b'9' c

-- the class [a-z0-9-] over a whole text
unfoldable pub all_label : Text → Bool
all_label [] = true
all_label (c ∷ s) = (is_label c || c == b'-') && all_label s

-- audiencePattern
unfoldable pub is_audience : Text → Bool
is_audience [] = false
is_audience (c ∷ s) = is_label c && all_label s && leb (length s) 62

abbrev pub validate_parts : Text → Option (Text × Text) → Option ScopeError
validate_parts scope none =
    if equal scope (codes "public") then some no_action else some not_a_scope
validate_parts scope (some (audience, action)) =
    if not (is_audience audience)
    then some bad_audience
    else if equal action (codes "read")
    then none
    else if equal action (codes "write")
    then (if equal scope scope_confluence_write then none else some reserved)
    else some bad_action

-- ValidateScope
unfoldable pub validate_scope : Text → Option ScopeError
validate_scope scope = validate_parts scope (cut b':' scope)

abbrev pub check_twice : ℕ → Bool → Option AccessError → Option AccessError
check_twice i true later = some (listed_twice i)
check_twice i false later = later

abbrev pub check_scope : ℕ → Option ScopeError → Option AccessError → Option AccessError
check_scope i none later = later
check_scope i (some e) later = some (invalid_scope i e)

-- The loop of validateAccess, at scope `i`; `seen` holds the scopes before it.
unfoldable pub validate_from : ℕ → List Text → List Text → Option AccessError
validate_from i seen [] = none
validate_from i seen (s ∷ ss) =
    check_scope i (validate_scope s)
      (check_twice i (among s seen) (validate_from (suc i) (s ∷ seen) ss))

-- validateAccess
unfoldable pub validate_access : List Text → Option AccessError
validate_access = validate_from 0 []

module _ (to_lower : Text → Text) where
  -- The loop of normalizeAccess; `scopes` are those kept.
  unfoldable pub normalize_from : List Text → List Text → List Text
  normalize_from scopes [] = scopes
  normalize_from scopes (s ∷ ss) =
      let t = to_lower (trim_space s) in
      let passed = normalize_from scopes ss in
      let kept = normalize_from (scopes ++ (t ∷ [])) ss in
      if is_empty t || among t scopes then passed else kept

  -- normalizeAccess, on the list of scopes
  unfoldable pub normalize_access : List Text → List Text
  normalize_access ss =
      let scopes = normalize_from [] ss in
      if is_empty scopes then scope_public_read ∷ [] else scopes
