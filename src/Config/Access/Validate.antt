-- ===== src/Config/Access/Validate.antt =====
-- What pkg/doczcore/config/access.go accepts, before and after normalisation.
use docz.Prelude.{
  ℕ, suc, Bool, true, false, ◌||◌, ◌≡◌, ◌↔◌, inl, inr, refl, Option, none, some, List, [], ◌∷◌,
  ◌++◌, arith, Bool-cases, is_empty, All, All-weaken,
}
use docz.Prelude.Pairs.{AllPairs, AllPairs-append}
use docz.Text.{Text, equal}
use docz.Text.Trim.{trim_space}
use docz.Config.Access.Grammar.{IsScope, validate_scope_iff}
use docz.Config.Access.Kept.{Among, Kept, normalize_access-Kept}
use docz.Config.Paths.{among}
use docz.Config.Access.{
  ScopeError, AccessError, check_twice, check_scope, validate_scope, validate_from, validate_access,
  normalize_from, normalize_access,
}

abbrev pub Differs : Text → Text → Type 0
Differs a b = equal a b ≡ false

abbrev NotAmong : List Text → Text → Type 0
NotAmong seen s = among s seen ≡ false

among-cons :
    (s : Text) (seen : List Text) (x : Text)
    → NotAmong (s ∷ seen) x ↔ (Differs s x × NotAmong seen x)
unfolding among
among-cons s seen x = ground arith

NotAmong-cons :
    (s : Text) (seen ss : List Text)
    → All (NotAmong (s ∷ seen)) ss ↔ (All (Differs s) ss × All (NotAmong seen) ss)
NotAmong-cons s seen [] = (λ h. (tt, tt), λ h. tt)
NotAmong-cons s seen (t ∷ ss) =
    let (there, back) = NotAmong-cons s seen ss in
    let (apart, joined) = among-cons s seen t in
    (
      λ (h, hs). (((apart h).0, (there hs).0), ((apart h).1, (there hs).1)),
      λ ((d, ds), (n, ns)). (joined (d, n), back (ds, ns)),
    )

checks-none :
    (i : ℕ) (o : Option ScopeError) (b : Bool) (later : Option AccessError)
    → (check_scope i o (check_twice i b later) ≡ none) ↔ ((o ≡ none) × (b ≡ false) × (later ≡ none))
checks-none i none true later = (λ h. cc, λ (_, h, _). cc)
checks-none i none false later = (λ h. (refl, refl, h), λ (_, _, h). h)
checks-none i (some e) b later = (λ h. cc, λ (h, _, _). cc)

validate_from-valid :
    (i : ℕ) (seen ss : List Text)
    → (validate_from i seen ss ≡ none)
      ↔ (All IsScope ss × AllPairs Differs ss × All (NotAmong seen) ss)
unfolding validate_from
validate_from-valid i seen [] = (λ h. (tt, tt, tt), λ h. refl)
validate_from-valid i seen (s ∷ ss) =
    let (there, back) =
      checks-none i (validate_scope s) (among s seen) (validate_from (suc i) (s ∷ seen) ss) in
    let (keeps, accepts) = validate_scope_iff s in
    let (onward, home) = validate_from-valid (suc i) (s ∷ seen) ss in
    let (apart, together) = NotAmong-cons s seen ss in
    (
      λ h.
          let (ok, new, later) = there h in
          let (oks, pairs, fresh) = onward later in
          ((keeps ok, oks), ((apart fresh).0, pairs), (new, (apart fresh).1)),
      λ ((ok, oks), (differs, pairs), (new, news)).
          back (accepts ok, new, home (oks, pairs, together (differs, news))),
    )

All-NotAmong_nil : (ss : List Text) → All (NotAmong []) ss
unfolding among
All-NotAmong_nil [] = tt
All-NotAmong_nil (s ∷ ss) = (refl, All-NotAmong_nil ss)

-- validateAccess accepts the list of scopes exactly when no two are equal and each keeps to the
-- grammar: a lower-case letter or digit and at most 62 more of them or dashes, a colon, and "read"; or
-- the scope "confluence:write".
pub validate_access-valid :
    (ss : List Text) → (validate_access ss ≡ none) ↔ (All IsScope ss × AllPairs Differs ss)
unfolding validate_access
validate_access-valid ss =
    let (there, back) = validate_from-valid 0 [] ss in
    (λ h. ((there h).0, (there h).1), λ (oks, pairs). back (oks, pairs, All-NotAmong_nil ss))

-- A scope that is not among those kept differs from all of them.
among-Differs :
    (t : Text) (scopes : List Text) → among t scopes ≡ false → All (λ s. Differs s t) scopes
among-Differs t [] h = tt
among-Differs t (s ∷ scopes) h =
    let (differs, later) = (among-cons s scopes t).0 h in (differs, among-Differs t scopes later)

module _ (to_lower : Text → Text) where
  normalize_from-Differs :
      (scopes ss : List Text)
      → AllPairs Differs scopes
      → AllPairs Differs (normalize_from to_lower scopes ss)
  unfolding normalize_from
  normalize_from-Differs scopes [] h = h
  normalize_from-Differs scopes (s ∷ ss) h =
      let t = to_lower (trim_space s) in
      elim (Bool-cases (is_empty t || among t scopes)) [
        | inl e ↦ rw e (normalize_from-Differs scopes ss h)
        | inr e ↦ rw e (normalize_from-Differs (scopes ++ (t ∷ [])) ss (added t e))
      ]
    where
      or-right : (a b : Bool) → (a || b) ≡ false → b ≡ false
      or-right a b k = ground arith

      added :
          (t : Text)
          → (is_empty t || among t scopes) ≡ false
          → AllPairs Differs (scopes ++ (t ∷ []))
      added t k =
          AllPairs-append Differs scopes (t ∷ []) h (tt, tt)
            (All-weaken (λ x. Differs x t) (λ x. All (Differs x) (t ∷ [])) (λ x d. (d, tt)) scopes
              (among-Differs t scopes (or-right (is_empty t) (among t scopes) k)))

  normalize_access-Differs : (ss : List Text) → AllPairs Differs (normalize_access to_lower ss)
  unfolding normalize_access
  normalize_access-Differs ss = elim (Bool-cases (is_empty (normalize_from to_lower [] ss))) [
    | inl e ↦ rw e (tt, tt)
    | inr e ↦ rw e (normalize_from-Differs [] ss tt)
  ]

  -- normalizeAccess lists no scope twice; the scopes that it lists are those of its input, trimmed
  -- and in lower case, that are then not empty, and only public:read if there is none of them; and
  -- its result is valid exactly when each scope of it keeps to the grammar.
  pub normalize_access-valid :
      (ss : List Text) (t : Text)
      → AllPairs Differs (normalize_access to_lower ss)
        × (Among t (normalize_access to_lower ss) ↔ Kept to_lower ss t)
        × ((validate_access (normalize_access to_lower ss) ≡ none)
            ↔ All IsScope (normalize_access to_lower ss))
  normalize_access-valid ss t =
      let (there, back) = validate_access-valid (normalize_access to_lower ss) in
      let differs = normalize_access-Differs ss in
      (differs, normalize_access-Kept to_lower ss t, (λ h. (there h).0, λ oks. back (oks, differs)))
