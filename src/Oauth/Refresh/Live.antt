-- ===== src/Oauth/Refresh/Live.antt =====
-- The tokens that refresh of internal/oauth/token.go trades.
use docz.Prelude.{
  ℕ, ◌+◌, ◌≤◌, Bool, true, false, ◌≡◌, ◌≢◌, ◌⊎◌, inl, inr, refl, sym, ap, Option, none, some, List,
  arith, ltb, Bool-cases, is_empty, All,
}
use docz.Text.{Text, codes, equal, equal_iff}
use docz.Oauth.Scopes.{fields}
use docz.Oauth.Scopes.Bounds.{Held, refresh_scopes-Held}
use docz.Oauth.Token.{TokenError, accepted, TokenResponse, join_scopes, Form}
use docz.Oauth.Token.Started.{refused-ne-accepted, accepted-injective}
use docz.Oauth.Refresh.{
  refreshable_where, RefreshToken, User, Lookup, found, missing_token, unread_token, Tables,
  refreshable, signed, rotated, with_next, with_scopes, with_check, with_user, with_token, refresh,
}

module _ {T : Type 0} (tables : Tables T) (refresh_ttl : ℕ) (grantable : List Text) where
  -- A token may be traded: not revoked, not used, in date, and the caller's client.
  abbrev pub Live : ℕ → RefreshToken → Text → Type 0
  Live now current client =
      (current.revoked_at ≡ none)
      × (current.last_used_at ≡ none)
      × (now ≤ current.issued_at + refresh_ttl)
      × (is_empty client ≡ true ⊎ client ≡ current.client_id)

  refreshable-Live :
      (now : ℕ) (current : RefreshToken) (client : Text) (t : T)
      → (refreshable tables refresh_ttl grantable now current client t).0 ≡ none
      → Live now current client
        × ((refreshable tables refresh_ttl grantable now current client t).1 ≡ t)
  unfolding refreshable
  refreshable-Live now current client t h = go current.revoked_at current.last_used_at h
    where
      some-none : (e : TokenError) → some e ≢ none
      some-none e k = cc

      go :
          (revoked used : Option ℕ)
          → (refreshable_where tables refresh_ttl grantable now current client t revoked used).0
            ≡ none
          → ((revoked ≡ none)
              × (used ≡ none)
              × (now ≤ current.issued_at + refresh_ttl)
              × (is_empty client ≡ true ⊎ client ≡ current.client_id))
            × ((refreshable_where tables refresh_ttl grantable now current client t revoked used).1
                ≡ t)
      go (some at) used k = absurd (some-none _ k)
      go none (some at) k = absurd (some-none _ k)
      go none none k = elim (Bool-cases (ltb (current.issued_at + refresh_ttl) now)) [
        | inl e ↦ absurd (some-none _ (rw e at k))
        | inr e ↦ elim (Bool-cases (is_empty client)) [
          | inl q ↦ rw (e, q) ((refl, refl, ground arith, inl refl), refl)
          | inr q ↦ elim (Bool-cases (equal client current.client_id)) [
            | inl c ↦
                rw (e, q, c)
                  ((refl, refl, ground arith, inr ((equal_iff client current.client_id).0 c)), refl)
            | inr c ↦ absurd (some-none _ (rw (e, q, c) at k))
          ]
        ]
      ]

  signed-accepted :
      (u : User) (scopes : List Text) (next : Text) (x : Option Text) (resp : TokenResponse)
      → signed tables refresh_ttl grantable u scopes next x ≡ accepted resp
      → resp.scope ≡ join_scopes scopes
  signed-accepted u scopes next none resp k = absurd (refused-ne-accepted _ resp k)
  signed-accepted u scopes next (some access) resp k =
      ap (λ (r : TokenResponse). r.scope) (sym (accepted-injective _ resp k))

  -- A refresh trades only a live token: whenever it succeeds, the store holds a token under the hash
  -- of the one in the form that was not revoked and not used, is in date, and is the client's if the
  -- form names one; and the response has scopes that are each public:read, or granted to that token
  -- before and still given out by the server.
  pub refresh-Live :
      (now : ℕ) (form : Form) (t : T) (resp : TokenResponse) (t' : T)
      → refresh tables refresh_ttl grantable now form t ≡ (accepted resp, t')
      → (current : RefreshToken) × (scopes : List Text) × (tables.token
            (tables.hash (form (codes "refresh_token")))
            t
          ≡ found current)
        × Live now current (form (codes "client_id"))
        × (resp.scope ≡ join_scopes scopes)
        × All (Held grantable (fields current.scope)) scopes
  unfolding refresh
  refresh-Live now form t resp t' h = elim (Bool-cases (is_empty (form (codes "refresh_token")))) [
    | inl e ↦ absurd (refused-ne-accepted _ resp (ap (λ o. o.0) (rw e at h)))
    | inr e ↦
        of_token (tables.token (tables.hash (form (codes "refresh_token"))) t) refl (rw e at h)
  ]
    where
      Goal : Type 0
      Goal =
          (current : RefreshToken) × (scopes : List Text) × (tables.token
              (tables.hash (form (codes "refresh_token"))) t
            ≡ found current)
          × Live now current (form (codes "client_id"))
          × (resp.scope ≡ join_scopes scopes)
          × All (Held grantable (fields current.scope)) scopes

      of_rotated :
          (current : RefreshToken) (u : User) (scopes : List Text) (next : Text)
          (x : Option Bool × T)
          → rotated tables refresh_ttl grantable current u scopes next x ≡ (accepted resp, t')
          → resp.scope ≡ join_scopes scopes
      of_rotated current u scopes next (none, v) k =
          absurd (refused-ne-accepted _ resp (ap (λ o. o.0) k))
      of_rotated current u scopes next (some false, v) k =
          absurd (refused-ne-accepted _ resp (ap (λ o. o.0) k))
      of_rotated current u scopes next (some true, v) k =
          signed-accepted u scopes next _ resp (ap (λ o. o.0) k)

      of_next :
          (current : RefreshToken) (u : User) (scopes : List Text) (x : Option Text × T)
          → with_next tables refresh_ttl grantable current u scopes x ≡ (accepted resp, t')
          → resp.scope ≡ join_scopes scopes
      of_next current u scopes (none, v) k = absurd (refused-ne-accepted _ resp (ap (λ o. o.0) k))
      of_next current u scopes (some next, v) k = of_rotated current u scopes next _ k

      of_scopes :
          (current : RefreshToken) (u : User) (v : T) (x : Option (List Text))
          → with_scopes tables refresh_ttl grantable form current u x v ≡ (accepted resp, t')
          → (scopes : List Text) × (x ≡ some scopes) × (resp.scope ≡ join_scopes scopes)
      of_scopes current u v none k = absurd (refused-ne-accepted _ resp (ap (λ o. o.0) k))
      of_scopes current u v (some scopes) k = (scopes, refl, of_next current u scopes _ k)

      of_check :
          (current : RefreshToken) (u : User) (x : Option TokenError × T)
          → with_check tables refresh_ttl grantable form current u x ≡ (accepted resp, t')
          → (x.0 ≡ none)
            × ((scopes : List Text) × (resp.scope ≡ join_scopes scopes)
                × All (Held grantable (fields current.scope)) scopes)
      of_check current u (some e, v) k = absurd (refused-ne-accepted _ resp (ap (λ o. o.0) k))
      of_check current u (none, v) k =
          let (scopes, q, joined) = of_scopes current u v _ k in
          (
            refl,
            (
              scopes,
              joined,
              refresh_scopes-Held grantable current.scope (form (codes "scope")) scopes q,
            ),
          )

      of_user :
          (current : RefreshToken) (x : Option User)
          → tables.token (tables.hash (form (codes "refresh_token"))) t ≡ found current
          → with_user tables refresh_ttl grantable now form current x t ≡ (accepted resp, t')
          → Goal
      of_user current none q k = absurd (refused-ne-accepted _ resp (ap (λ o. o.0) k))
      of_user current (some u) q k =
          let client = form (codes "client_id") in
          let (live, (scopes, joined, held)) =
            of_check current u (refreshable tables refresh_ttl grantable now current client t) k in
          (current, scopes, q, (refreshable-Live now current client t live).0, joined, held)

      of_token :
          (x : Lookup)
          → tables.token (tables.hash (form (codes "refresh_token"))) t ≡ x
          → with_token tables refresh_ttl grantable now form x t ≡ (accepted resp, t')
          → Goal
      of_token missing_token q k = absurd (refused-ne-accepted _ resp (ap (λ o. o.0) k))
      of_token unread_token q k = absurd (refused-ne-accepted _ resp (ap (λ o. o.0) k))
      of_token (found current) q k = of_user current _ q k
