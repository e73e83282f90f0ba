-- ===== src/Oauth/Token/Held.antt =====
-- What a redemption of internal/oauth/token.go that succeeded was held to.
use docz.Prelude.{
  ℕ, true, false, ◌≡◌, inl, inr, refl, sym, ap, ◌∙◌, subst, Option, none, some, ◌++◌, arith,
  Bool-cases, is_empty,
}
use docz.Text.{Text, codes, equal, equal_iff}
use docz.Oauth.Cache.{MemoryCache, take_key}
use docz.Oauth.Cache.Refines.{view, with_key_absent, take_key-view}
use docz.Oauth.Token.{
  TokenError, Verdict, accepted, refused, Pending, Code, TokenResponse, Outside, Server,
  code_prefix, redeemed_prefix, valid_pkce, join_scopes, Form, check_code_request, claims_of,
  signed, mint, new_family, minted, family_made, checked, decoded, code_taken, redeemed_taken,
  redeem_code,
}
use docz.Oauth.Token.Started.{refused-ne-accepted, accepted-injective, Started, new_family-accepted}

module _ {T : Type 0} (outside : Outside T) (audience : Text) where
  -- What a redemption that succeeded was held to.
  pub record Redeemed (now : ℕ) (form : Form) (s : Server T) (resp : TokenResponse) (s' : Server T)
      : Type 0 where
    pub code : Code
    pub stored : Text
    pub held : view now s.cache (code_prefix ++ outside.hash (form (codes "code"))) ≡ some stored
    pub decodes : outside.decode stored ≡ some code
    pub started :
        Started outside audience now code (outside.hash (form (codes "code"))) resp.refresh_token s'
    pub checked : check_code_request outside audience form code.pending ≡ none
    pub scope : resp.scope ≡ join_scopes code.granted
    pub has_code : is_empty (form (codes "code")) ≡ false

  mint-accepted :
      (c : Code) (refresh : Text) (resp : TokenResponse)
      → minted outside audience c (mint outside audience c refresh) ≡ accepted resp
      → (resp.refresh_token ≡ refresh) × (resp.scope ≡ join_scopes c.granted)
  unfolding mint
  mint-accepted c refresh resp h = go (outside.issue (claims_of outside audience c)) h
    where
      go :
          (x : Option Text)
          → minted outside audience c (signed outside audience c refresh x) ≡ accepted resp
          → (resp.refresh_token ≡ refresh) × (resp.scope ≡ join_scopes c.granted)
      go none k = absurd (refused-ne-accepted _ resp k)
      go (some access) k =
          let same = accepted-injective _ resp k in
          (
            ap (λ (r : TokenResponse). r.refresh_token) (sym same),
            ap (λ (r : TokenResponse). r.scope) (sym same),
          )

  pub redeem_code-Redeemed :
      (now : ℕ) (form : Form) (s : Server T) (resp : TokenResponse) (s' : Server T)
      → redeem_code outside audience now form s ≡ (accepted resp, s')
      → Redeemed now form s resp s'
  unfolding redeem_code
  redeem_code-Redeemed now form s resp s' h = elim (Bool-cases (is_empty raw)) [
    | inl e ↦ absurd (refused-ne-accepted _ resp (ap (λ o. o.0) (rw e at h)))
    | inr e ↦ of_redeemed e (take_key now (redeemed_prefix ++ key) s.cache) refl (rw e at h)
  ]
    where
      raw : Text
      raw = form (codes "code")

      key : Text
      key = outside.hash raw

      at_code : Text
      at_code = code_prefix ++ key

      of_family :
          (c : Code) (stored : Text) (x : Verdict Text × Server T)
          → view now s.cache at_code ≡ some stored
          → outside.decode stored ≡ some c
          → is_empty raw ≡ false
          → check_code_request outside audience form c.pending ≡ none
          → ((refresh : Text) (t : Server T)
              → x ≡ (accepted refresh, t)
              → Started outside audience now c key refresh t)
          → family_made outside audience c x ≡ (accepted resp, s')
          → Redeemed now form s resp s'
      of_family c stored (refused e, t) held decodes nonempty ok_form start k =
          absurd (refused-ne-accepted _ resp (ap (λ o. o.0) k))
      of_family c stored (accepted refresh, t) held decodes nonempty ok_form start k =
          let (same, granted) = mint-accepted c refresh resp (ap (λ o. o.0) k) in
          record {
            code = c;
            stored = stored;
            held = held;
            decodes = decodes;
            started =
                subst (λ u. Started outside audience now c key resp.refresh_token u)
                  (ap (λ o. o.1) k)
                  (subst (λ r. Started outside audience now c key r t) (sym same)
                    (start refresh t refl));
            checked = ok_form;
            scope = granted;
            has_code = nonempty;
          }

      of_check :
          (c : Code) (stored : Text) (x : Option TokenError) (t : Server T)
          → view now s.cache at_code ≡ some stored
          → outside.decode stored ≡ some c
          → is_empty raw ≡ false
          → check_code_request outside audience form c.pending ≡ x
          → checked outside audience now c key x t ≡ (accepted resp, s')
          → Redeemed now form s resp s'
      of_check c stored (some e) t held decodes nonempty q k =
          absurd (refused-ne-accepted _ resp (ap (λ o. o.0) k))
      of_check c stored none t held decodes nonempty q k =
          of_family c stored (new_family outside audience now c key t) held decodes nonempty q
            (λ refresh u g. new_family-accepted outside audience now c key refresh t u g) k

      of_decoded :
          (stored : Text) (x : Option Code) (t : Server T)
          → view now s.cache at_code ≡ some stored
          → outside.decode stored ≡ x
          → is_empty raw ≡ false
          → decoded outside audience now form key x t ≡ (accepted resp, s')
          → Redeemed now form s resp s'
      of_decoded stored none t held decodes nonempty k =
          absurd (refused-ne-accepted _ resp (ap (λ o. o.0) k))
      of_decoded stored (some c) t held decodes nonempty k =
          of_check c stored _ t held decodes nonempty refl k

      of_taken :
          is_empty raw ≡ false
          → (x : Option Text × MemoryCache) → x.0 ≡ view now s.cache at_code
          → code_taken outside audience now form key s.store x ≡ (accepted resp, s')
          → Redeemed now form s resp s'
      of_taken nonempty (none, c) e k = absurd (refused-ne-accepted _ resp (ap (λ o. o.0) k))
      of_taken nonempty (some stored, c) e k =
          of_decoded stored (outside.decode stored) _ (sym e) refl nonempty k

      -- The look for a redeemed code that finds none leaves the codes.
      code_kept :
          (c : MemoryCache)
          → take_key now (redeemed_prefix ++ key) s.cache ≡ (none, c)
          → (take_key now at_code c).0 ≡ view now s.cache at_code
      code_kept c e =
          let (got, kept) = take_key-view now (redeemed_prefix ++ key) at_code s.cache in
          (take_key-view now at_code at_code c).0
          ∙ ap (λ o. view now o.1 at_code) (sym e)
          ∙ kept
          ∙ with_key_absent now (redeemed_prefix ++ key) at_code s.cache (sym got ∙ ap (λ o. o.0) e)

      of_redeemed :
          is_empty raw ≡ false
          → (x : Option Text × MemoryCache) → take_key now (redeemed_prefix ++ key) s.cache ≡ x
          → redeemed_taken outside audience now form key s.store x ≡ (accepted resp, s')
          → Redeemed now form s resp s'
      of_redeemed nonempty (some family, c) e k =
          absurd (refused-ne-accepted _ resp (ap (λ o. o.0) k))
      of_redeemed nonempty (none, c) e k = of_taken nonempty _ (code_kept c e) k

  check_code_request-none :
      (form : Form) (p : Pending)
      → check_code_request outside audience form p ≡ none
      → (valid_pkce (form (codes "code_verifier")) ≡ true)
        × (equal (outside.s256 (form (codes "code_verifier"))) p.code_challenge ≡ true)
        × (equal (form (codes "client_id")) p.client_id ≡ true)
        × (equal (form (codes "redirect_uri")) p.redirect_uri ≡ true)
        × (equal (form (codes "resource")) audience ≡ true)
  unfolding check_code_request
  check_code_request-none form p h =
      (ground arith, ground arith, ground arith, ground arith, ground arith)

  -- An authorization code gives tokens only to the request that it was issued for: whenever a
  -- redemption succeeds, the cache held at the hash of the form's code a text that decodes to a code,
  -- the verifier of the form is as PKCE asks for and hashes to that code's challenge, the client and
  -- the redirect URI of the form are that code's, the resource is the server's, and the response has
  -- the scopes that the code was granted.
  pub redeem_code-held :
      (now : ℕ) (form : Form) (s : Server T) (resp : TokenResponse) (s' : Server T)
      → redeem_code outside audience now form s ≡ (accepted resp, s')
      → (stored : Text) × (c : Code) × (view now s.cache
            (code_prefix ++ outside.hash (form (codes "code")))
          ≡ some stored)
        × (outside.decode stored ≡ some c)
        × (valid_pkce (form (codes "code_verifier")) ≡ true)
        × (outside.s256 (form (codes "code_verifier")) ≡ c.pending.code_challenge)
        × (form (codes "client_id") ≡ c.pending.client_id)
        × (form (codes "redirect_uri") ≡ c.pending.redirect_uri)
        × (form (codes "resource") ≡ audience)
        × (resp.scope ≡ join_scopes c.granted)
  redeem_code-held now form s resp s' h =
      let r = redeem_code-Redeemed now form s resp s' h in
      let (pkce, challenge, client, redirect, resource) =
        check_code_request-none form r.code.pending r.checked in
      (
        r.stored,
        r.code,
        r.held,
        r.decodes,
        pkce,
        (equal_iff _ _).0 challenge,
        (equal_iff _ _).0 client,
        (equal_iff _ _).0 redirect,
        (equal_iff _ _).0 resource,
        r.scope,
      )
