-- ===== src/Authorize/Cache.antt =====
-- ScopeAuthorizer of internal/authorize/scopes.go: the answer that a session gets, and the cache.
-- Times are those that a.now() returns; a map is an association list, its first entry for a key
-- being the one that counts. The lister, which asks the database, is a parameter.
pub mod Sources
use docz.Prelude.{
  ℕ, zero, suc, ◌+◌, ◌-◌, ◌*◌, ◌/◌, ◌%◌, ◌≤◌, ◌<◌, Bool, true, false, not, ◌&&◌, ◌||◌, ◌≡◌, ◌≢◌,
  ◌↔◌, ◌⊎◌, inl, inr, refl, sym, ap, ◌∙◌, subst, Option, none, some, List, [], ◌∷◌, ◌++◌,
  append-nil, append_assoc, map, String, arith, ltb, leb, ◌==◌, within, if◌then◌else◌, ltb→lt,
  lt→ltb, ==_iff, Bool-cases, Option-cases, ◌>>=◌, bind-eq_some, length, is_empty, take, drop,
  get_elem?, length-append, take-append-drop, All, All-append, All-append_left, All-append_right,
  All-weaken,
}
use docz.Prelude.Pairs.{
  AllPairs, AllPairs-append, AllPairs-unappend, AllPairs-reverse, AllPairs-weaken, All-reverse,
}
use docz.Text.{
  Text, codes, equal, cut_prefix, has_prefix, contains, contains_byte, is_space, is_blank,
  equal_iff, cut_prefix-append, cut_prefix-eq_some, contains_byte-append,
}
use docz.Text.Trim.{
  trim_left, trim_right, trim_space, trim_right-concat, trim_left_self, trim_space_self,
  trim_left-append, trim_right-cons, is_space_of_blank, trim_space-head,
}
use docz.Text.Lines.{
  split, join, lines_of, cons_head, newlines, newlines-append, split_of_lacks, split-ne-nil,
  length-lines_of, newlines_of_lacks,
}
use docz.Config.Paths.{among}

-- cachedAllowed
pub record CachedAllowed : Type 0 where
  pub allowed : List ℕ
  pub scopes : List Text
  pub expires : ℕ

abbrev pub Cache : Type 0
Cache = List (Text × CachedAllowed)

unfoldable pub find_entry : Text → Cache → Option CachedAllowed
find_entry key [] = none
find_entry key ((k, e) ∷ cache) = if equal k key then some e else find_entry key cache

-- delete(a.cache, key)
unfoldable pub delete : Text → Cache → Cache
delete key [] = []
delete key ((k, e) ∷ cache) =
    let rest = delete key cache in if equal k key then rest else (k, e) ∷ rest

-- slices.Equal
unfoldable pub equal_scopes : List Text → List Text → Bool
equal_scopes [] [] = true
equal_scopes (s ∷ ss) (t ∷ ts) = equal s t && equal_scopes ss ts
equal_scopes _ _ = false

abbrev pub fresh : ℕ → List Text → Option CachedAllowed → Option (List ℕ)
fresh now scopes none = none
fresh now scopes (some e) =
    if ltb now e.expires && equal_scopes e.scopes scopes then some e.allowed else none

abbrev pub looked_up : Text → Cache → Option (List ℕ) → Option (List ℕ) × Cache
looked_up key cache none = (none, delete key cache)
looked_up key cache (some ids) = (some ids, cache)

-- (ScopeAuthorizer).lookup; a ttl that is not positive is 0.
unfoldable pub lookup : ℕ → ℕ → Text → List Text → Cache → Option (List ℕ) × Cache
lookup ttl now key scopes cache =
    if ttl == 0
    then (none, cache)
    else looked_up key cache (fresh now scopes (find_entry key cache))

-- (ScopeAuthorizer).remember
unfoldable pub remember : ℕ → ℕ → Text → List Text → List ℕ → Cache → Cache
remember ttl now key scopes ids cache =
    if ttl == 0
    then cache
    else (key, record { allowed = ids; scopes = scopes; expires = now + ttl }) ∷ delete key cache

-- (ScopeAuthorizer).Forget
abbrev pub forget : Text → Cache → Cache
forget = delete

-- The part of a session that the authorizer reads: PrincipalKey() and Scopes.
pub record Principal : Type 0 where
  pub key : Text
  pub scopes : List Text

-- The answer, `none` for the error of the lister, and the cache behind it. `now` is the time of the
-- lookup, `later` that of the call of remember.
abbrev pub ask :
    ℕ → ℕ → Principal → Option (List ℕ) → Option (List ℕ) × Cache → Option (List ℕ) × Cache
ask ttl later p listed (some ids, cache) = (some ids, cache)
ask ttl later p none (none, cache) = (none, cache)
ask ttl later p (some ids) (none, cache) = (some ids, remember ttl later p.key p.scopes ids cache)

-- (ScopeAuthorizer).Allowed, when no other request comes between its steps
unfoldable pub allowed :
    ℕ → (List Text → Option (List ℕ)) → ℕ → ℕ → Option Principal → Cache → Option (List ℕ) × Cache
allowed ttl list_repo_ids now later none cache = (some [], cache)
allowed ttl list_repo_ids now later (some p) cache =
    if is_empty p.scopes
    then (some [], cache)
    else ask ttl later p (list_repo_ids p.scopes) (lookup ttl now p.key p.scopes cache)
