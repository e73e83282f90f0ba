-- ===== src/Oauth/Cache.antt =====
-- The cache in memory: MemoryCache of internal/oauth/cache.go. Times and durations are numbers of a
-- clock; an `expires` that is the zero time is `none`. A section under the mutex is one step, so
-- that Take is two.
pub mod Refines
pub mod Race
use docz.Prelude.{
  ℕ, zero, suc, ◌+◌, ◌-◌, ◌*◌, ◌/◌, ◌%◌, ◌≤◌, ◌<◌, Bool, true, false, not, ◌&&◌, ◌||◌, ◌≡◌, ◌≢◌,
  ◌↔◌, ◌⊎◌, inl, inr, refl, sym, ap, ◌∙◌, subst, Option, none, some, List, [], ◌∷◌, ◌++◌,
  append-nil, append_assoc, map, String, arith, ltb, leb, ◌==◌, within, if◌then◌else◌, ltb→lt,
  lt→ltb, ==_iff, Bool-cases, Option-cases, length, is_empty, take, drop, get_elem?, length-append,
  take-append-drop, All, All-append, All-append_left, All-append_right, All-weaken,
}
use docz.Prelude.Pairs.{
  AllPairs, AllPairs-append, AllPairs-unappend, AllPairs-reverse, AllPairs-weaken, All-reverse,
}
use docz.Text.{
  Text, codes, equal, cut_prefix, has_prefix, contains, contains_byte, is_space, is_blank,
  equal_iff, cut_prefix-append, cut_prefix-eq_some, contains_byte-append,
}
use docz.Text.Trim.{
  trim_left, trim_right, trim_space, trim_right-concat, trim_left_self, trim_space_self,
  trim_left-append, trim_right-cons, is_space_of_blank, trim_space-head,
}
use docz.Text.Lines.{
  split, join, lines_of, cons_head, newlines, newlines-append, split_of_lacks, split-ne-nil,
  length-lines_of, newlines_of_lacks,
}
use docz.Text.Dict.{Dict, lookup, insert, remove}

-- memoryEntry
pub record Entry : Type 0 where
  pub value : Text
  pub expires : Option ℕ

abbrev pub MemoryCache : Type 0
MemoryCache = Dict Entry

unfoldable pub is_expired : ℕ → Entry → Bool
is_expired now e = elim e.expires [ none ↦ false | some t ↦ ltb t now ]

abbrev pub got_entry : ℕ → Text → Option Entry → MemoryCache → Option Text × MemoryCache
got_entry now key none c = (none, remove key c)
got_entry now key (some e) c = if is_expired now e then (none, remove key c) else (some e.value, c)

-- Get; ErrCacheMiss is `none`
unfoldable pub get : ℕ → Text → MemoryCache → Option Text × MemoryCache
get now key c = got_entry now key (lookup key c) c

-- Set
unfoldable pub set : ℕ → Text → Text → ℕ → MemoryCache → MemoryCache
set now key value ttl c =
    insert key (record { value = value; expires = if ltb 0 ttl then some (now + ttl) else none }) c

-- Delete
unfoldable pub delete : Text → MemoryCache → MemoryCache
delete key c = remove key c

abbrev pub taken : Text → Option Text × MemoryCache → Option Text × MemoryCache
taken key (none, c) = (none, c)
taken key (some v, c) = (some v, delete key c)

-- Take, when no other request is between its two steps
unfoldable pub take_key : ℕ → Text → MemoryCache → Option Text × MemoryCache
take_key now key c = taken key (get now key c)
