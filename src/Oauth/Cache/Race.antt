-- ===== src/Oauth/Cache/Race.antt =====
-- Requests that take from one MemoryCache of internal/oauth/cache.go at once: the steps of Take,
-- each under the mutex, in any order.
use docz.Prelude.{ℕ, ◌≡◌, refl, ◌∙◌, Option, none, some, List, [], ◌∷◌}
use docz.Text.{Text, equal_iff}
use docz.Oauth.Cache.{MemoryCache, get, delete, taken, take_key}
use docz.Oauth.Cache.Refines.{view, cache-Map}

-- Where a call of Take stands: before its Get, behind it with the value, or at its end.
pub data Phase : Type 0 where
  waiting : Phase
  holding : Text → Phase
  ended : Option Text → Phase

abbrev pub after_get : Option Text → Phase
after_get none = ended none
after_get (some v) = holding v

-- The steps of one call.
unfoldable pub step_take : ℕ → Text → Phase × MemoryCache → Phase × MemoryCache
step_take now key (waiting, c) = let (o, d) = get now key c in (after_get o, d)
step_take now key (holding v, c) = (ended (some v), delete key c)
step_take now key (ended o, c) = (ended o, c)

-- Two calls for one key, and the cache.
pub record Race : Type 0 where
  pub first : Phase
  pub second : Phase
  pub cache : MemoryCache

pub data Turn : Type 0 where
  of_first of_second : Turn

unfoldable pub step_race : ℕ → Text → Turn → Race → Race
step_race now key of_first r =
    let (p, c) = step_take now key (r.first, r.cache) in record r { first = p; cache = c }
step_race now key of_second r =
    let (p, c) = step_take now key (r.second, r.cache) in record r { second = p; cache = c }

unfoldable pub race : ℕ → Text → List Turn → Race → Race
race now key [] r = r
race now key (t ∷ ts) r = race now key ts (step_race now key t r)

-- One call behind the other, as in Take.
race_alone :
    (now : ℕ) (key : Text) (c : MemoryCache)
    → step_take now key (step_take now key (waiting, c))
      ≡ (ended (take_key now key c).0, (take_key now key c).1)
unfolding step_take take_key
race_alone now key c = go (get now key c)
  where
    go :
        (x : Option Text × MemoryCache)
        → step_take now key (after_get x.0, x.1) ≡ (ended (taken key x).0, (taken key x).1)
    go (none, d) = refl
    go (some v, d) = refl

abbrev pub two_calls : MemoryCache → Race
two_calls c = record { first = waiting; second = waiting; cache = c }

-- Two calls of Take at one time, for one key that the cache holds. If the first ends before the
-- second begins, the first gives the value and the second misses; but if both Gets come before the
-- deletes, both give the value, so that one stored value is taken twice.
pub race-twice :
    (now : ℕ) (key v : Text) (c : MemoryCache)
    → view now c key ≡ some v
    → let apart = race now key (of_first ∷ of_first ∷ of_second ∷ of_second ∷ []) (two_calls c) in
      let mixed = race now key (of_first ∷ of_second ∷ of_first ∷ of_second ∷ []) (two_calls c) in
      (apart.first ≡ ended (some v))
      × (apart.second ≡ ended none)
      × (mixed.first ≡ ended (some v))
      × (mixed.second ≡ ended (some v))
unfolding race step_race step_take
race-twice now key v c h = (
  rw got_first refl,
  rw (got_first, got_gone) refl,
  rw got_first refl,
  rw (got_first, got_second) refl,
)
  where
    got_first : (get now key c).0 ≡ some v
    got_first = (cache-Map now key v key 0 c).0 ∙ h

    got_second : (get now key (get now key c).1).0 ≡ some v
    got_second =
        (cache-Map now key v key 0 (get now key c).1).0 ∙ (cache-Map now key v key 0 c).1 ∙ h

    got_gone : (get now key (delete key (get now key c).1)).0 ≡ none
    got_gone =
        (cache-Map now key v key 0 (delete key (get now key c).1)).0
        ∙ (cache-Map now key v key 0 (get now key c).1).3
        ∙ rw ((equal_iff key key).1 refl) refl
