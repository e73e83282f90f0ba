-- ===== src/Tests/Authorize.antt =====
-- Concrete inputs for internal/authorize.
use docz.Prelude.{ℕ, true, ◌≡◌, refl, List, [], ◌∷◌, if◌then◌else◌}
use docz.Prelude.Pairs.{AllPairs}
use docz.Text.{Text, codes, equal}
use docz.Config.Paths.{among}
use docz.Config.Access.{scope_public_read}
use docz.Authorize.Scopes.{Identity, ScopeMap, scopes_for}
use docz.Authorize.Scopes.Order.{Less, scopes_for-Less}
use docz.Authorize.Cache.{Cache, find_entry, delete, equal_scopes, lookup, remember, Principal}
use docz.Authorize.Cache.Sources.{
  Listed, start_state, miss, answer, hit, Reachable, here, step, Sourced, Reachable-Sourced,
}

abbrev reader : Principal
reader = record { key = codes "user:oidc:1"; scopes = codes "public:read" ∷ [] }

-- A lister that gives the repositories 3 and 5 for every list of scopes.
abbrev Gives : List Text → List ℕ → Type 0
Gives ss ids = ids ≡ 3 ∷ 5 ∷ []

abbrev listed : Listed
listed = record { principal = reader; ids = 3 ∷ 5 ∷ [] }

abbrev cached : Cache
cached = (reader.key, record { allowed = 3 ∷ 5 ∷ []; scopes = reader.scopes; expires = 160 }) ∷ []

-- A lookup misses at time 90, the answer is remembered at time 100 and served at time 159.
asked_twice :
    Reachable Gives 60 (record { cache = cached; in_flight = []; given = listed ∷ listed ∷ [] })
unfolding lookup remember find_entry delete equal_scopes equal
asked_twice =
    step _ _
      (step _ _ (step _ _ here (miss 90 reader (3 ∷ 5 ∷ []) [] start_state refl refl))
        (answer 100 [] [] listed [] []))
      (hit 159 reader (3 ∷ 5 ∷ []) cached
        (record { cache = cached; in_flight = []; given = listed ∷ [] }) refl)

Reachable-Sourced_example :
    Sourced Gives 60 (record { cache = cached; in_flight = []; given = listed ∷ listed ∷ [] })
Reachable-Sourced_example = Reachable-Sourced Gives 60 _ asked_twice

abbrev member : Identity
member = record { provider = codes "oidc"; login = []; groups = codes "ops" ∷ codes "dev" ∷ [] }

abbrev scope_map : ScopeMap
scope_map key =
    if equal key (codes "oidc:group:ops")
    then codes "team-b:read" ∷ codes "team-a:read" ∷ []
    else codes "team-a:read" ∷ []

scopes_for-Less_example :
    AllPairs Less (scopes_for member scope_map)
    × (among scope_public_read (scopes_for member scope_map) ≡ true)
scopes_for-Less_example = scopes_for-Less member scope_map
