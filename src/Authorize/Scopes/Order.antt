-- ===== src/Authorize/Scopes/Order.antt =====
-- The list that ScopesFor of internal/authorize/scopes.go returns.
use docz.Prelude.{
  Bool, true, false, ◌||◌, ◌≡◌, inl, inr, refl, ◌∙◌, List, [], ◌∷◌, ◌++◌, arith, Bool-cases,
  is_empty, All, All-weaken,
}
use docz.Prelude.Pairs.{AllPairs}
use docz.Text.{Text, codes, equal}
use docz.Config.Paths.{among}
use docz.Config.Access.{scope_public_read}
use docz.Authorize.Scopes.{
  Identity, ScopeMap, add, add_all, grant_groups, grant_login, less, insert_sorted, sort_texts,
  scopes_for,
}

abbrev pub Less : Text → Text → Type 0
Less a b = less a b ≡ true

Less-trans : (a b c : Text) → Less a b → Less b c → Less a c
unfolding less
Less-trans [] [] [] h k = cc
Less-trans [] (y ∷ b) [] h k = cc
Less-trans [] b (z ∷ c) h k = refl
Less-trans (x ∷ a) [] c h k = cc
Less-trans (x ∷ a) (y ∷ b) [] h k = cc
Less-trans (x ∷ a) (y ∷ b) (z ∷ c) h k = ground (arith, Less-trans a b c)

less-total : (a b : Text) → equal b a ≡ false → less a b ≡ false → Less b a
unfolding less equal
less-total [] [] h k = cc
less-total [] (d ∷ b) h k = cc
less-total (c ∷ a) [] h k = refl
less-total (c ∷ a) (d ∷ b) h k = ground (arith, less-total a b)

abbrev Apart : Text → Text → Type 0
Apart a b = equal b a ≡ false

insert_sorted-All :
    (P : Text → Type 0) (s : Text) (ts : List Text) → P s → All P ts → All P (insert_sorted s ts)
unfolding insert_sorted
insert_sorted-All P s [] p h = (p, tt)
insert_sorted-All P s (t ∷ ts) p (q, h) = elim (Bool-cases (less s t)) [
  | inl e ↦ rw e (p, (q, h))
  | inr e ↦ rw e (q, insert_sorted-All P s ts p h)
]

insert_sorted-Less :
    (s : Text) (ts : List Text)
    → All (Apart s) ts
    → AllPairs Less ts
    → AllPairs Less (insert_sorted s ts)
unfolding insert_sorted
insert_sorted-Less s [] h k = (tt, tt)
insert_sorted-Less s (t ∷ ts) (h, hs) (k, ks) = elim (Bool-cases (less s t)) [
  | inl e ↦ rw e ((e, All-weaken (Less t) (Less s) (λ x l. Less-trans s t x e l) ts k), (k, ks))
  | inr e ↦
      rw e (insert_sorted-All (Less t) s ts (less-total s t h e) k, insert_sorted-Less s ts hs ks)
]

sort_texts-All : (P : Text → Type 0) (ss : List Text) → All P ss → All P (sort_texts ss)
unfolding sort_texts
sort_texts-All P [] h = tt
sort_texts-All P (s ∷ ss) (p, h) = insert_sorted-All P s (sort_texts ss) p (sort_texts-All P ss h)

sort_texts-Less : (ss : List Text) → AllPairs Apart ss → AllPairs Less (sort_texts ss)
unfolding sort_texts
sort_texts-Less [] h = tt
sort_texts-Less (s ∷ ss) (h, hs) =
    insert_sorted-Less s (sort_texts ss) (sort_texts-All (Apart s) ss h) (sort_texts-Less ss hs)

among-Apart : (s : Text) (set : List Text) → among s set ≡ false → All (Apart s) set
unfolding among
among-Apart s [] h = tt
among-Apart s (t ∷ set) h = (ground arith, among-Apart s set (ground arith))

-- What a set of scopes keeps while scopes are added to it.
abbrev IsScopeSet : Text → List Text → Type 0
IsScopeSet held set = AllPairs Apart set × (among held set ≡ true)

add-IsScopeSet :
    (held s : Text) (set : List Text) → IsScopeSet held set → IsScopeSet held (add s set)
unfolding add among
add-IsScopeSet held s set (h, k) = elim (Bool-cases (among s set)) [
  | inl e ↦ rw e (h, k)
  | inr e ↦ rw e ((among-Apart s set e, h), or_true _ _ k)
]
  where
    or_true : (a b : Bool) → b ≡ true → (a || b) ≡ true
    or_true a b j = ground arith

add_all-IsScopeSet :
    (held : Text) (ss set : List Text) → IsScopeSet held set → IsScopeSet held (add_all ss set)
unfolding add_all
add_all-IsScopeSet held [] set h = h
add_all-IsScopeSet held (s ∷ ss) set h =
    add_all-IsScopeSet held ss (add s set) (add-IsScopeSet held s set h)

grant_groups-IsScopeSet :
    (held : Text) (scope_map : ScopeMap) (provider : Text) (gs set : List Text)
    → IsScopeSet held set
    → IsScopeSet held (grant_groups scope_map provider gs set)
unfolding grant_groups
grant_groups-IsScopeSet held scope_map provider [] set h = h
grant_groups-IsScopeSet held scope_map provider (g ∷ gs) set h =
    grant_groups-IsScopeSet held scope_map provider gs _
      (add_all-IsScopeSet held (scope_map (provider ++ (codes ":group:" ++ g))) set h)

grant_login-IsScopeSet :
    (held : Text) (scope_map : ScopeMap) (identity : Identity) (set : List Text)
    → IsScopeSet held set
    → IsScopeSet held (grant_login scope_map identity set)
unfolding grant_login
grant_login-IsScopeSet held scope_map identity set h = elim (Bool-cases (is_empty identity.login)) [
  | inl e ↦ rw e h
  | inr e ↦ rw e (add_all-IsScopeSet held _ set h)
]

among-insert_sorted :
    (x s : Text) (ts : List Text) → among x (insert_sorted s ts) ≡ (equal s x || among x ts)
unfolding insert_sorted among
among-insert_sorted x s [] = refl
among-insert_sorted x s (t ∷ ts) = ground (arith, among-insert_sorted x s ts)

among-sort_texts : (x : Text) (ss : List Text) → among x (sort_texts ss) ≡ among x ss
unfolding sort_texts among
among-sort_texts x [] = refl
among-sort_texts x (s ∷ ss) =
    ground (arith, among-insert_sorted x s (sort_texts ss), among-sort_texts x ss)

-- For every identity and every map ScopesFor returns scopes in strictly increasing order, so none
-- twice, and public:read is among them.
pub scopes_for-Less :
    (identity : Identity) (scope_map : ScopeMap)
    → AllPairs Less (scopes_for identity scope_map)
      × (among scope_public_read (scopes_for identity scope_map) ≡ true)
unfolding scopes_for
scopes_for-Less identity scope_map =
    let (apart, held) = grant_login-IsScopeSet scope_public_read scope_map identity _ (
      grant_groups-IsScopeSet scope_public_read scope_map identity.provider identity.groups
        (scope_public_read ∷ []) ((tt, tt), unfold among equal in refl)) in
    (sort_texts-Less _ apart, among-sort_texts scope_public_read _ ∙ held)
