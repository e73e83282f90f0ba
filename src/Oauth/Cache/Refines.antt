-- ===== src/Oauth/Cache/Refines.antt =====
-- What MemoryCache of internal/oauth/cache.go promises: a map from keys to values.
use docz.Prelude.{
  ℕ, ◌+◌, true, false, ◌≡◌, inl, inr, refl, sym, ap, ◌∙◌, Option, none, some, arith, ltb, leb,
  if◌then◌else◌, Bool-cases,
}
use docz.Text.{Text, equal, equal_iff}
use docz.Text.Dict.{lookup, insert, remove, lookup-insert, lookup-remove}
use docz.Oauth.Cache.{Entry, MemoryCache, is_expired, got_entry, get, set, delete, taken, take_key}

-- The value of an entry whose time is over at `t`, if it has one: it is held up to that time.
abbrev pub up_to : ℕ → Option ℕ → Text → Option Text
up_to now none value = some value
up_to now (some t) value = if leb now t then some value else none

abbrev pub live_value : ℕ → Option Entry → Option Text
live_value now none = none
live_value now (some e) = up_to now e.expires e.value

-- What a cache holds for a reader at a time.
unfoldable pub view : ℕ → MemoryCache → Text → Option Text
view now c key = live_value now (lookup key c)

-- A map with a key set, and without it.
abbrev pub with_key : (Text → Option Text) → Text → Option Text → Text → Option Text
with_key f key v j = if equal key j then v else f j

up_to-late : (now : ℕ) (e : Entry) → is_expired now e ≡ true → up_to now e.expires e.value ≡ none
unfolding is_expired
up_to-late now e = go e.expires
  where
    go :
        (o : Option ℕ)
        → elim o [ none ↦ false | some t ↦ ltb t now ] ≡ true
        → up_to now o e.value ≡ none
    go none h = cc
    go (some t) h = ground arith

up_to-early :
    (now : ℕ) (e : Entry) → is_expired now e ≡ false → up_to now e.expires e.value ≡ some e.value
unfolding is_expired
up_to-early now e = go e.expires
  where
    go :
        (o : Option ℕ)
        → elim o [ none ↦ false | some t ↦ ltb t now ] ≡ false
        → up_to now o e.value ≡ some e.value
    go none h = refl
    go (some t) h = ground arith

got_entry-remove :
    (now : ℕ) (key j : Text) (c : MemoryCache)
    → view now (remove key c) j ≡ with_key (view now c) key none j
unfolding view
got_entry-remove now key j c = elim (Bool-cases (equal key j)) [
  | inl e ↦ rw e (ap (live_value now) (here e))
  | inr e ↦ rw e (ap (live_value now) (there e))
]
  where
    here : equal key j ≡ true → lookup j (remove key c) ≡ none
    here e = lookup-remove key j c ∙ rw e refl

    there : equal key j ≡ false → lookup j (remove key c) ≡ lookup j c
    there e = lookup-remove key j c ∙ rw e refl

-- Where the key has no value, taking it out changes nothing.
pub with_key_absent :
    (now : ℕ) (key j : Text) (c : MemoryCache)
    → view now c key ≡ none
    → with_key (view now c) key none j ≡ view now c j
with_key_absent now key j c h = elim (Bool-cases (equal key j)) [
  | inl e ↦ rw e (sym (ap (view now c) (sym ((equal_iff key j).0 e)) ∙ h))
  | inr e ↦ rw e refl
]

got : (now : ℕ) (key : Text) (c : MemoryCache) → (get now key c).0 ≡ view now c key
unfolding get view
got now key c = go (lookup key c)
  where
    go : (o : Option Entry) → (got_entry now key o c).0 ≡ live_value now o
    go none = refl
    go (some e) = elim (Bool-cases (is_expired now e)) [
      | inl k ↦ rw k (sym (up_to-late now e k))
      | inr k ↦ rw k (sym (up_to-early now e k))
    ]

get-view : (now : ℕ) (key j : Text) (c : MemoryCache) → view now (get now key c).1 j ≡ view now c j
unfolding get view
get-view now key j c = go (lookup key c) refl
  where
    gone : view now c key ≡ none → view now (remove key c) j ≡ view now c j
    gone h = got_entry-remove now key j c ∙ with_key_absent now key j c h

    go : (o : Option Entry) → lookup key c ≡ o → view now (got_entry now key o c).1 j ≡ view now c j
    go none h = gone (ap (live_value now) h)
    go (some x) h = elim (Bool-cases (is_expired now x)) [
      | inl e ↦ rw e (gone (ap (live_value now) h ∙ up_to-late now x e))
      | inr e ↦ rw e refl
    ]

set-view :
    (now : ℕ) (key value j : Text) (ttl : ℕ) (c : MemoryCache)
    → view now (set now key value ttl c) j ≡ with_key (view now c) key (some value) j
unfolding set view
set-view now key value j ttl c = elim (Bool-cases (equal key j)) [
  | inl e ↦ rw e (ap (live_value now) (here e) ∙ fresh)
  | inr e ↦ rw e (ap (live_value now) (there e))
]
  where
    stored : Entry
    stored = record { value = value; expires = if ltb 0 ttl then some (now + ttl) else none }

    here : equal key j ≡ true → lookup j (insert key stored c) ≡ some stored
    here e = lookup-insert key j stored c ∙ rw e refl

    there : equal key j ≡ false → lookup j (insert key stored c) ≡ lookup j c
    there e = lookup-insert key j stored c ∙ rw e refl

    later : leb now (now + ttl) ≡ true
    later = ground arith

    fresh : live_value now (some stored) ≡ some value
    fresh = elim (Bool-cases (ltb 0 ttl)) [ inl e ↦ rw (e, later) refl | inr e ↦ rw e refl ]

pub take_key-view :
    (now : ℕ) (key j : Text) (c : MemoryCache)
    → ((take_key now key c).0 ≡ view now c key)
      × (view now (take_key now key c).1 j ≡ with_key (view now c) key none j)
unfolding take_key delete
take_key-view now key j c = go (get now key c) refl
  where
    first : (get now key c).0 ≡ view now c key
    first = got now key c

    kept : (i : Text) → view now (get now key c).1 i ≡ view now c i
    kept i = get-view now key i c

    go :
        (x : Option Text × MemoryCache)
        → get now key c ≡ x
        → ((taken key x).0 ≡ view now c key)
          × (view now (taken key x).1 j ≡ with_key (view now c) key none j)
    go (none, d) h =
        let absent : view now c key ≡ none = sym first ∙ ap (λ p. p.0) h in
        (
          sym absent,
          ap (λ p. view now p.1 j) (sym h) ∙ kept j ∙ sym (with_key_absent now key j c absent),
        )
    go (some v, d) h = (
      sym (ap (λ p. p.0) h) ∙ first,
      got_entry-remove now key j d ∙ moved (λ i. ap (λ p. view now p.1 i) (sym h) ∙ kept i),
    )
      where
        moved :
            ((i : Text) → view now d i ≡ view now c i)
            → with_key (view now d) key none j ≡ with_key (view now c) key none j
        moved f = ap (λ v. if equal key j then none else v) (f j)

-- The operations of the cache, one after the other and at one time, are those of a map: Get gives
-- the value that the map has and leaves the map, Set gives the key its value, Delete takes the key
-- out, and Take gives the value and takes the key out; every other key keeps what it had. An entry
-- has its value up to the end of its time, that moment included, and no value behind it.
pub cache-Map :
    (now : ℕ) (key value j : Text) (ttl : ℕ) (c : MemoryCache)
    → ((get now key c).0 ≡ view now c key)
      × (view now (get now key c).1 j ≡ view now c j)
      × (view now (set now key value ttl c) j ≡ with_key (view now c) key (some value) j)
      × (view now (delete key c) j ≡ with_key (view now c) key none j)
      × ((take_key now key c).0 ≡ view now c key)
      × (view now (take_key now key c).1 j ≡ with_key (view now c) key none j)
unfolding delete
cache-Map now key value j ttl c = (
  got now key c,
  get-view now key j c,
  set-view now key value j ttl c,
  got_entry-remove now key j c,
  (take_key-view now key j c).0,
  (take_key-view now key j c).1,
)
