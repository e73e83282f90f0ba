-- ===== src/Oauth/Scopes.antt =====
-- The scopes of a grant: requestedScopes of internal/oauth/authorize.go, intersect of server.go, and
-- currentScopes and refreshScopes of token.go.
pub mod Bounds
use docz.Prelude.{
  ℕ, zero, suc, ◌+◌, ◌-◌, ◌*◌, ◌/◌, ◌%◌, ◌≤◌, ◌<◌, Bool, true, false, not, ◌&&◌, ◌||◌, ◌≡◌, ◌≢◌,
  ◌↔◌, ◌⊎◌, inl, inr, refl, sym, ap, ◌∙◌, subst, Option, none, some, List, [], ◌∷◌, ◌++◌,
  append-nil, append_assoc, map, String, arith, ltb, leb, ◌==◌, within, if◌then◌else◌, ltb→lt,
  lt→ltb, ==_iff, Bool-cases, Option-cases, length, is_empty, take, drop, get_elem?, length-append,
  take-append-drop, All, All-append, All-append_left, All-append_right, All-weaken,
}
use docz.Prelude.Pairs.{
  AllPairs, AllPairs-append, AllPairs-unappend, AllPairs-reverse, AllPairs-weaken, All-reverse,
}
use docz.Text.{
  Text, codes, equal, cut_prefix, has_prefix, contains, contains_byte, is_space, is_blank,
  equal_iff, cut_prefix-append, cut_prefix-eq_some, contains_byte-append,
}
use docz.Text.Trim.{
  trim_left, trim_right, trim_space, trim_right-concat, trim_left_self, trim_space_self,
  trim_left-append, trim_right-cons, is_space_of_blank, trim_space-head,
}
use docz.Text.Lines.{
  split, join, lines_of, cons_head, newlines, newlines-append, split_of_lacks, split-ne-nil,
  length-lines_of, newlines_of_lacks,
}
use docz.Config.Paths.{among}
use docz.Config.Access.{scope_public_read}

abbrev pub word : Text → List Text → List Text
word [] ws = ws
word (c ∷ w) ws = (c ∷ w) ∷ ws

abbrev pub field_step : ℕ → Text × List Text → Text × List Text
field_step c (w, ws) = if is_space c then ([], word w ws) else (c ∷ w, ws)

-- The word at the start of a text, and the words behind it.
unfoldable pub words : Text → Text × List Text
words [] = ([], [])
words (c ∷ s) = field_step c (words s)

abbrev pub first_word : Text × List Text → List Text
first_word (w, ws) = word w ws

-- Go's strings.Fields
unfoldable pub fields : Text → List Text
fields t = first_word (words t)

-- The loop of requestedScopes; `none` is its error.
unfoldable pub requested_from : List Text → List Text → List Text → Option (List Text)
requested_from grantable out [] = some out
requested_from grantable out (sc ∷ scs) =
    let rest = requested_from grantable (if among sc out then out else out ++ (sc ∷ [])) scs in
    if among sc grantable then rest else none

-- requestedScopes
unfoldable pub requested_scopes : List Text → Text → Option (List Text)
requested_scopes grantable raw =
    if is_empty (fields raw)
    then some (scope_public_read ∷ [])
    else requested_from grantable [] (fields raw)

-- intersect
unfoldable pub intersect : List Text → List Text → List Text
intersect [] held = []
intersect (sc ∷ scs) held =
    let rest = intersect scs held in
    if equal sc scope_public_read || among sc held then sc ∷ rest else rest

unfoldable pub still_grantable : List Text → List Text → List Text
still_grantable grantable [] = []
still_grantable grantable (sc ∷ scs) =
    let rest = still_grantable grantable scs in if among sc grantable then sc ∷ rest else rest

abbrev pub or_public : List Text → List Text
or_public [] = scope_public_read ∷ []
or_public (sc ∷ scs) = sc ∷ scs

-- currentScopes
unfoldable pub current_scopes : List Text → List Text → List Text
current_scopes grantable granted = or_public (still_grantable grantable granted)

unfoldable pub all_among : List Text → List Text → Bool
all_among [] scopes = true
all_among (sc ∷ scs) scopes = among sc scopes && all_among scs scopes

-- refreshScopes; `none` is invalid_scope
unfoldable pub refresh_scopes : List Text → Text → Text → Option (List Text)
refresh_scopes grantable granted requested =
    let scopes = current_scopes grantable (fields granted) in
    if is_empty (fields requested)
    then some scopes
    else if all_among (fields requested) scopes
    then some (fields requested)
    else none
