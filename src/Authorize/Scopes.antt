-- ===== src/Authorize/Scopes.antt =====
-- ScopesFor of internal/authorize/scopes.go. The map from keys to scopes is a function, which gives
-- no scopes for a key that it lacks; the set is a list without repetitions.
pub mod Order
use docz.Prelude.{
  ℕ, zero, suc, ◌+◌, ◌-◌, ◌*◌, ◌/◌, ◌%◌, ◌≤◌, ◌<◌, Bool, true, false, not, ◌&&◌, ◌||◌, ◌≡◌, ◌≢◌,
  ◌↔◌, ◌⊎◌, inl, inr, refl, sym, ap, ◌∙◌, subst, Option, none, some, List, [], ◌∷◌, ◌++◌,
  append-nil, append_assoc, map, String, arith, ltb, leb, ◌==◌, within, if◌then◌else◌, ltb→lt,
  lt→ltb, ==_iff, Bool-cases, Option-cases, ◌>>=◌, bind-eq_some, length, is_empty, take, drop,
  get_elem?, length-append, take-append-drop, All, All-append, All-append_left, All-append_right,
  All-weaken,
}
use docz.Prelude.Pairs.{
  AllPairs, AllPairs-append, AllPairs-unappend, AllPairs-reverse, AllPairs-weaken, All-reverse,
}
use docz.Text.{
  Text, codes, equal, cut_prefix, has_prefix, contains, contains_byte, is_space, is_blank,
  equal_iff, cut_prefix-append, cut_prefix-eq_some, contains_byte-append,
}
use docz.Text.Trim.{
  trim_left, trim_right, trim_space, trim_right-concat, trim_left_self, trim_space_self,
  trim_left-append, trim_right-cons, is_space_of_blank, trim_space-head,
}
use docz.Text.Lines.{
  split, join, lines_of, cons_head, newlines, newlines-append, split_of_lacks, split-ne-nil,
  length-lines_of, newlines_of_lacks,
}
use docz.Config.Paths.{among}
use docz.Config.Access.{scope_public_read}

-- The fields of auth.Identity that ScopesFor reads.
pub record Identity : Type 0 where
  pub provider : Text
  pub login : Text
  pub groups : List Text

abbrev pub ScopeMap : Type 0
ScopeMap = Text → List Text

-- set[s] = struct{}{}
unfoldable pub add : Text → List Text → List Text
add s set = if among s set then set else s ∷ set

unfoldable pub add_all : List Text → List Text → List Text
add_all [] set = set
add_all (s ∷ ss) set = add_all ss (add s set)

-- the loop over the groups
unfoldable pub grant_groups : ScopeMap → Text → List Text → List Text → List Text
grant_groups scope_map provider [] set = set
grant_groups scope_map provider (g ∷ gs) set =
    grant_groups scope_map provider gs
      (add_all (scope_map (provider ++ (codes ":group:" ++ g))) set)

unfoldable pub grant_login : ScopeMap → Identity → List Text → List Text
grant_login scope_map identity set =
    if is_empty identity.login
    then set
    else add_all (scope_map (identity.provider ++ (codes ":login:" ++ identity.login))) set

-- the order of Go's strings
unfoldable pub less : Text → Text → Bool
less [] [] = false
less [] (d ∷ t) = true
less (c ∷ s) [] = false
less (c ∷ s) (d ∷ t) = ltb c d || (c == d && less s t)

unfoldable pub insert_sorted : Text → List Text → List Text
insert_sorted s [] = s ∷ []
insert_sorted s (t ∷ ts) =
    let rest = insert_sorted s ts in if less s t then s ∷ t ∷ ts else t ∷ rest

-- slices.Sort
unfoldable pub sort_texts : List Text → List Text
sort_texts [] = []
sort_texts (s ∷ ss) = insert_sorted s (sort_texts ss)

-- ScopesFor
unfoldable pub scopes_for : Identity → ScopeMap → List Text
scopes_for identity scope_map = sort_texts (
    grant_login scope_map identity
      (grant_groups scope_map identity.provider identity.groups (scope_public_read ∷ [])))
