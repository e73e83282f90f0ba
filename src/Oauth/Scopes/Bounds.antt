-- ===== src/Oauth/Scopes/Bounds.antt =====
-- No grant of internal/oauth holds a scope that the server does not give out.
use docz.Prelude.{
  true, false, ◌≡◌, ◌≢◌, ◌⊎◌, inl, inr, refl, subst, none, some, List, [], ◌∷◌, ◌++◌, arith,
  Bool-cases, is_empty, All, All-append, All-weaken,
}
use docz.Prelude.Pairs.{AllPairs, AllPairs-append}
use docz.Text.{Text, equal, equal_iff}
use mathlib.Core.Option.{some-injective}
use docz.Config.Paths.{among}
use docz.Config.Access.{scope_public_read}
use docz.Oauth.Scopes.{
  fields, requested_from, requested_scopes, still_grantable, or_public, current_scopes, all_among,
  refresh_scopes,
}

-- A scope that a grant may hold: public:read, or one of the server's that was granted before.
abbrev pub Held : List Text → List Text → Text → Type 0
Held grantable granted sc =
    (sc ≡ scope_public_read) ⊎ ((among sc grantable ≡ true) × (among sc granted ≡ true))

among_head : (sc : Text) (scs : List Text) → among sc (sc ∷ scs) ≡ true
unfolding among
among_head sc scs = rw ((equal_iff sc sc).1 refl) refl

among_later : (sc t : Text) (scs : List Text) → among sc scs ≡ true → among sc (t ∷ scs) ≡ true
unfolding among
among_later sc t scs h = ground arith

still_grantable-Held :
    (grantable granted scs : List Text)
    → All (λ sc. among sc granted ≡ true) scs
    → All (Held grantable granted) (still_grantable grantable scs)
unfolding still_grantable
still_grantable-Held grantable granted [] h = tt
still_grantable-Held grantable granted (sc ∷ scs) (a, h) = elim (Bool-cases (among sc grantable)) [
  | inl e ↦ rw e (inr (e, a), still_grantable-Held grantable granted scs h)
  | inr e ↦ rw e (still_grantable-Held grantable granted scs h)
]

among_self : (scs : List Text) → All (λ sc. among sc scs ≡ true) scs
among_self [] = tt
among_self (sc ∷ scs) = (
  among_head sc scs,
  All-weaken (λ t. among t scs ≡ true) (λ t. among t (sc ∷ scs) ≡ true)
      (λ t h. among_later t sc scs h) scs (among_self scs),
)

or_public-Held :
    (grantable granted scs : List Text)
    → All (Held grantable granted) scs
    → All (Held grantable granted) (or_public scs)
or_public-Held grantable granted [] h = (inl refl, tt)
or_public-Held grantable granted (sc ∷ scs) h = h

current_scopes-Held :
    (grantable granted : List Text)
    → All (Held grantable granted) (current_scopes grantable granted)
unfolding current_scopes
current_scopes-Held grantable granted =
    or_public-Held grantable granted (still_grantable grantable granted)
      (still_grantable-Held grantable granted granted (among_self granted))

among-All :
    (P : Text → Type 0) (scopes : List Text)
    → All P scopes
    → (sc : Text) → among sc scopes ≡ true
    → P sc
unfolding among
among-All P [] h sc e = absurd (false-ne-true e)
  where
    false-ne-true : false ≢ true
    false-ne-true r = cc
among-All P (t ∷ scopes) (p, h) sc e = elim (Bool-cases (equal t sc)) [
  | inl q ↦ subst P ((equal_iff t sc).0 q) p
  | inr q ↦ among-All P scopes h sc (rw q at e)
]

not_among-Apart :
    (sc : Text) (out : List Text)
    → among sc out ≡ false
    → All (λ x. All (λ b. equal x b ≡ false) (sc ∷ [])) out
unfolding among
not_among-Apart sc [] h = tt
not_among-Apart sc (t ∷ out) h =
    let apart : equal t sc ≡ false = ground arith in
    let later : among sc out ≡ false = ground arith in ((apart, tt), not_among-Apart sc out later)

all_among-All :
    (P : Text → Type 0) (scopes : List Text)
    → All P scopes
    → (scs : List Text) → all_among scs scopes ≡ true
    → All P scs
unfolding all_among
all_among-All P scopes h [] e = tt
all_among-All P scopes h (sc ∷ scs) e = elim (Bool-cases (among sc scopes)) [
  | inl a ↦ (among-All P scopes h sc a, all_among-All P scopes h scs (rw a at e))
  | inr a ↦ absurd (false-ne-true (rw a at e))
]
  where
    false-ne-true : false ≢ true
    false-ne-true r = cc

-- A refresh grants nothing new: every scope of a refresh that is not refused is public:read, or one
-- that the server can still grant and that the token was granted before, whatever the request asks
-- for.
pub refresh_scopes-Held :
    (grantable : List Text) (granted requested : Text) (scopes : List Text)
    → refresh_scopes grantable granted requested ≡ some scopes
    → All (Held grantable (fields granted)) scopes
unfolding refresh_scopes
refresh_scopes-Held grantable granted requested scopes h =
    let current = current_scopes grantable (fields granted) in
    let held = current_scopes-Held grantable (fields granted) in
    elim (Bool-cases (is_empty (fields requested))) [
      | inl e ↦
          subst (All (Held grantable (fields granted))) (some-injective current scopes (rw e at h))
            held
      | inr e ↦ elim (Bool-cases (all_among (fields requested) current)) [
        | inl a ↦
            subst (All (Held grantable (fields granted)))
              (some-injective (fields requested) scopes (rw (e, a) at h))
              (all_among-All (Held grantable (fields granted)) current held (fields requested) a)
        | inr a ↦ absurd (none-some (rw (e, a) at h))
      ]
    ]
  where
    none-some : none ≢ some scopes
    none-some r = cc

-- A scope that an authorization may ask for.
abbrev pub Asked : List Text → Text → Type 0
Asked grantable sc = (sc ≡ scope_public_read) ⊎ (among sc grantable ≡ true)

abbrev Apart : Text → Text → Type 0
Apart a b = equal a b ≡ false

requested_from-IsAsked :
    (grantable out scs scopes : List Text)
    → All (Asked grantable) out
    → AllPairs Apart out
    → requested_from grantable out scs ≡ some scopes
    → All (Asked grantable) scopes × AllPairs Apart scopes
unfolding requested_from
requested_from-IsAsked grantable out [] scopes h d e =
    let same = some-injective out scopes e in
    (subst (All (Asked grantable)) same h, subst (AllPairs Apart) same d)
requested_from-IsAsked grantable out (sc ∷ scs) scopes h d e =
    elim (Bool-cases (among sc grantable)) [
      | inr g ↦ absurd (none-some (rw g at e))
      | inl g ↦ elim (Bool-cases (among sc out)) [
        | inl a ↦ requested_from-IsAsked grantable out scs scopes h d (rw (g, a) at e)
        | inr a ↦
            requested_from-IsAsked grantable (out ++ (sc ∷ [])) scs scopes
              (All-append (Asked grantable) out (sc ∷ []) h (inr g, tt))
              (AllPairs-append Apart out (sc ∷ []) d (tt, tt) (not_among-Apart sc out a))
              (rw (g, a) at e)
      ]
    ]
  where
    none-some : none ≢ some scopes
    none-some r = cc

-- The scopes that an authorization asks for, if they are not refused, are each public:read or one
-- that the server grants, and no two of them are equal.
pub requested_scopes-Asked :
    (grantable : List Text) (raw : Text) (scopes : List Text)
    → requested_scopes grantable raw ≡ some scopes
    → All (Asked grantable) scopes × AllPairs (λ a b. equal a b ≡ false) scopes
unfolding requested_scopes
requested_scopes-Asked grantable raw scopes h = elim (Bool-cases (is_empty (fields raw))) [
  | inl e ↦
      let same = some-injective (scope_public_read ∷ []) scopes (rw e at h) in
      (subst (All (Asked grantable)) same (inl refl, tt), subst (AllPairs Apart) same (tt, tt))
  | inr e ↦ requested_from-IsAsked grantable [] (fields raw) scopes tt tt (rw e at h)
]
