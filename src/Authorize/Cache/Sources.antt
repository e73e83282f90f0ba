-- ===== src/Authorize/Cache/Sources.antt =====
-- Requests at the cache of internal/authorize/scopes.go as interleaved steps: the mutex is held in
-- lookup, in remember and in Forget, and free while the lister is asked.
use docz.Prelude.{
  ℕ, Bool, true, false, ◌&&◌, ◌≡◌, ◌≢◌, ◌⊎◌, inl, inr, refl, ap, subst, Option, none, some, List,
  [], ◌∷◌, ◌++◌, arith, ltb, ◌==◌, Bool-cases, All, All-append, All-append_left, All-append_right,
}
use docz.Text.{Text, equal, equal_iff}
use mathlib.Core.Option.{some-injective}
use docz.Authorize.Cache.{
  CachedAllowed, Cache, find_entry, delete, equal_scopes, fresh, looked_up, lookup, remember,
  forget, Principal,
}

-- What was listed for a principal, on its way to the cache.
pub record Listed : Type 0 where
  pub principal : Principal
  pub ids : List ℕ

pub record State : Type 0 where
  pub cache : Cache
  pub in_flight : List Listed
  -- the answers that were given, the last one first
  pub given : List Listed

abbrev pub start_state : State
start_state = record { cache = []; in_flight = []; given = [] }

-- `Answers scopes ids`: the lister gave `ids` for `scopes` at some time.
module _ (Answers : List Text → List ℕ → Type 0) (ttl : ℕ) where
  pub data Step : State → State → Type 0 where
    hit :
        (now : ℕ) (p : Principal) (ids : List ℕ) (cache : Cache) (s : State)
        → lookup ttl now p.key p.scopes s.cache ≡ (some ids, cache)
        → Step s (record {
          cache = cache;
          in_flight = s.in_flight;
          given = record { principal = p; ids = ids } ∷ s.given;
        })
    miss :
        (now : ℕ) (p : Principal) (ids : List ℕ) (cache : Cache) (s : State)
        → lookup ttl now p.key p.scopes s.cache ≡ (none, cache)
        → Answers p.scopes ids
        → Step s (record {
          cache = cache;
          in_flight = record { principal = p; ids = ids } ∷ s.in_flight;
          given = s.given;
        })
    failure :
        (now : ℕ) (p : Principal) (cache : Cache) (s : State)
        → lookup ttl now p.key p.scopes s.cache ≡ (none, cache)
        → Step s (record { cache = cache; in_flight = s.in_flight; given = s.given })
    answer :
        (now : ℕ) (front behind : List Listed) (l : Listed) (cache : Cache) (given : List Listed)
        → Step
            (record { cache = cache; in_flight = front ++ (l ∷ behind); given = given })
            (record {
              cache = remember ttl now l.principal.key l.principal.scopes l.ids cache;
              in_flight = front ++ behind;
              given = l ∷ given;
            })
    forgotten :
        (key : Text) (s : State)
        → Step s (record { cache = forget key s.cache; in_flight = s.in_flight; given = s.given })

  pub data Reachable : State → Type 0 where
    here : Reachable start_state
    step : (s t : State) → Reachable s → Step s t → Reachable t

  abbrev pub EntryAnswers : Text × CachedAllowed → Type 0
  EntryAnswers (k, e) = Answers e.scopes e.allowed

  abbrev pub ListedAnswers : Listed → Type 0
  ListedAnswers l = Answers l.principal.scopes l.ids

  pub record Sourced (s : State) : Type 0 where
    pub cached : All EntryAnswers s.cache
    pub waiting : All ListedAnswers s.in_flight
    pub answered : All ListedAnswers s.given

  delete-answers : (key : Text) (c : Cache) → All EntryAnswers c → All EntryAnswers (delete key c)
  unfolding delete
  delete-answers key [] h = tt
  delete-answers key ((k, e) ∷ c) (p, h) = elim (Bool-cases (equal k key)) [
    | inl eq ↦ rw eq (delete-answers key c h)
    | inr ne ↦ rw ne (p, delete-answers key c h)
  ]

  equal_scopes-eq : (ss ts : List Text) → equal_scopes ss ts ≡ true → ss ≡ ts
  unfolding equal_scopes
  equal_scopes-eq [] [] h = refl
  equal_scopes-eq [] (t ∷ ts) h = cc
  equal_scopes-eq (s ∷ ss) [] h = cc
  equal_scopes-eq (s ∷ ss) (t ∷ ts) h = ground (arith, equal_iff s t, equal_scopes-eq ss ts)

  find_entry-answers :
      (key : Text) (c : Cache) (e : CachedAllowed)
      → All EntryAnswers c
      → find_entry key c ≡ some e
      → Answers e.scopes e.allowed
  unfolding find_entry
  find_entry-answers key [] e h eq = cc
  find_entry-answers key ((k, x) ∷ c) e (p, h) eq = elim (Bool-cases (equal k key)) [
    | inl y ↦ subst (λ z. Answers z.scopes z.allowed) (some-injective x e (rw y at eq)) p
    | inr n ↦ find_entry-answers key c e h (rw n at eq)
  ]

  lookup-answers :
      (now : ℕ) (key : Text) (scopes : List Text) (c c' : Cache) (o : Option (List ℕ))
      → All EntryAnswers c
      → lookup ttl now key scopes c ≡ (o, c')
      → All EntryAnswers c'
  unfolding lookup
  lookup-answers now key scopes c c' o h eq =
      subst (All EntryAnswers) (ap (λ r. r.1) eq) (kept (Bool-cases (ttl == 0)))
    where
      after : (found : Option (List ℕ)) → All EntryAnswers (looked_up key c found).1
      after none = delete-answers key c h
      after (some ids) = h

      kept :
          ((ttl == 0) ≡ true) ⊎ ((ttl == 0) ≡ false)
          → All EntryAnswers (lookup ttl now key scopes c).1
      kept (inl e) = rw e h
      kept (inr n) = rw n (after (fresh now scopes (find_entry key c)))

  fresh-answers :
      (now : ℕ) (scopes : List Text) (o : Option CachedAllowed) (ids : List ℕ)
      → ((e : CachedAllowed) → o ≡ some e → Answers e.scopes e.allowed)
      → fresh now scopes o ≡ some ids
      → Answers scopes ids
  fresh-answers now scopes none ids h eq = cc
  fresh-answers now scopes (some e) ids h eq =
      elim (Bool-cases (ltb now e.expires && equal_scopes e.scopes scopes)) [
        | inl y ↦
            subst (λ z. Answers z ids) (equal_scopes-eq e.scopes scopes (and-right _ _ y))
              (subst (Answers e.scopes) (some-injective e.allowed ids (rw y at eq)) (h e refl))
        | inr n ↦ absurd (none-some (rw n at eq))
      ]
    where
      and-right : (a b : Bool) → (a && b) ≡ true → b ≡ true
      and-right a b k = ground arith

      none-some : none ≢ some ids
      none-some k = cc

  hit-answers :
      (now : ℕ) (key : Text) (scopes : List Text) (c c' : Cache) (ids : List ℕ)
      → All EntryAnswers c
      → lookup ttl now key scopes c ≡ (some ids, c')
      → Answers scopes ids
  unfolding lookup
  hit-answers now key scopes c c' ids h eq = elim (Bool-cases (ttl == 0)) [
    | inl e ↦ absurd (none-some (ap (λ r. r.0) (rw e at eq)))
    | inr n ↦
        fresh-answers now scopes (find_entry key c) ids (λ e. find_entry-answers key c e h)
          (found (fresh now scopes (find_entry key c)) (ap (λ r. r.0) (rw n at eq)))
  ]
    where
      none-some : none ≢ some ids
      none-some k = cc

      found : (o : Option (List ℕ)) → (looked_up key c o).0 ≡ some ids → o ≡ some ids
      found none k = k
      found (some x) k = k

  remember-answers :
      (now : ℕ) (l : Listed) (c : Cache)
      → ListedAnswers l
      → All EntryAnswers c
      → All EntryAnswers (remember ttl now l.principal.key l.principal.scopes l.ids c)
  unfolding remember
  remember-answers now l c p h = elim (Bool-cases (ttl == 0)) [
    | inl e ↦ rw e h
    | inr n ↦ rw n (p, delete-answers l.principal.key c h)
  ]

  Step-Sourced : (s t : State) → Sourced s → Step s t → Sourced t
  Step-Sourced _ _ h (hit now p ids c s eq) = record {
    cached = lookup-answers now p.key p.scopes s.cache c (some ids) h.cached eq;
    waiting = h.waiting;
    answered = (hit-answers now p.key p.scopes s.cache c ids h.cached eq, h.answered);
  }
  Step-Sourced _ _ h (miss now p ids c s eq a) = record {
    cached = lookup-answers now p.key p.scopes s.cache c none h.cached eq;
    waiting = (a, h.waiting);
    answered = h.answered;
  }
  Step-Sourced _ _ h (failure now p c s eq) = record {
    cached = lookup-answers now p.key p.scopes s.cache c none h.cached eq;
    waiting = h.waiting;
    answered = h.answered;
  }
  Step-Sourced _ _ h (answer now front behind l c given) =
      let (a, rest) = All-append_right ListedAnswers front (l ∷ behind) h.waiting in
      record {
        cached = remember-answers now l c a h.cached;
        waiting =
            All-append ListedAnswers front behind
              (All-append_left ListedAnswers front (l ∷ behind) h.waiting) rest;
        answered = (a, h.answered);
      }
  Step-Sourced _ _ h (forgotten key s) = record {
    cached = delete-answers key s.cache h.cached;
    waiting = h.waiting;
    answered = h.answered;
  }

  -- In every reachable state, however the requests interleave, each answer that was given is one
  -- that the lister gave for exactly the scopes of the principal that asked; so are the answers in
  -- the cache, for the scopes beside them.
  pub Reachable-Sourced : (s : State) → Reachable s → Sourced s
  Reachable-Sourced _ here = record { cached = tt; waiting = tt; answered = tt }
  Reachable-Sourced _ (step s t r k) = Step-Sourced s t (Reachable-Sourced s r) k
