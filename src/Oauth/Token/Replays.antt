-- ===== src/Oauth/Token/Replays.antt =====
-- What a second redemption of a code of internal/oauth/token.go does.
use docz.Prelude.{
  ℕ, ◌+◌, ◌≤◌, true, false, ◌≡◌, ◌≢◌, refl, ap, ◌∙◌, Option, none, some, ◌++◌, arith, ltb,
}
use docz.Text.{Text, codes, equal_iff}
use docz.Text.Dict.{lookup, insert, lookup-insert}
use mathlib.Core.Option.{some-injective}
use docz.Oauth.Cache.{Entry, MemoryCache, is_expired, get, got_entry, set, taken, take_key}
use docz.Oauth.Token.{
  invalid_grant, TokenError, refusal, accepted, refused, TokenResponse, Outside, Server,
  redeemed_prefix, redeemed_ttl, join_scopes, Form, redeemed_taken, redeem_code,
}
use docz.Oauth.Token.Held.{redeem_code-Redeemed}

-- A value that Set wrote is taken until its time is over.
take_key-set :
    (now later : ℕ) (key value : Text) (c : MemoryCache)
    → later ≤ now + redeemed_ttl
    → (take_key later key (set now key value redeemed_ttl c)).0 ≡ some value
unfolding take_key get set is_expired
take_key-set now later key value c h =
    rw (ap (λ o. (taken key (got_entry later key o (insert key stored c))).0) here, live) refl
  where
    stored : Entry
    stored = record { value = value; expires = some (now + redeemed_ttl) }

    here : lookup key (insert key stored c) ≡ some stored
    here = lookup-insert key key stored c ∙ rw ((equal_iff key key).1 refl) refl

    live : ltb (now + redeemed_ttl) later ≡ false
    live = ground arith

-- What a redemption of a code that was redeemed says.
abbrev pub already_redeemed : TokenError
already_redeemed = refusal invalid_grant (codes "code was already redeemed; its tokens are revoked")

module _ {T : Type 0} (outside : Outside T) (audience : Text) where
  -- A code that was redeemed is not redeemed again: within the ten minutes behind a redemption that
  -- succeeded, in the state that it left, a second one with the same code, whatever else its form
  -- says, is refused, and it revokes the family under which the first one stored its refresh token.
  pub redeem_code-replayed :
      (now later : ℕ) (form again : Form) (s s' : Server T) (resp : TokenResponse)
      → redeem_code outside audience now form s ≡ (accepted resp, s')
      → again (codes "code") ≡ form (codes "code")
      → later ≤ now + redeemed_ttl
      → (family : Text) × (user : ℕ) × (client : Text) × (scope : Text) × (before : T)
        × (outside.insert (outside.hash resp.refresh_token) family user client scope before
            ≡ (true, s'.store))
        × ((redeem_code outside audience later again s').0 ≡ refused already_redeemed)
        × ((redeem_code outside audience later again s').1.store ≡ outside.revoke family s'.store)
  unfolding redeem_code
  redeem_code-replayed now later form again s s' resp h same soon =
      let r = redeem_code-Redeemed outside audience now form s resp s' h in
      let key = outside.hash (form (codes "code")) in
      let remembered : (take_key later (redeemed_prefix ++ key) s'.cache).0
          ≡ some r.started.family =
        ap (λ c. (take_key later (redeemed_prefix ++ key) c).0) r.started.remembered
        ∙ take_key-set now later (redeemed_prefix ++ key) r.started.family r.started.cache soon in
      (
        r.started.family,
        r.code.user_id,
        r.code.pending.client_id,
        join_scopes r.code.granted,
        r.started.before,
        r.started.inserted,
        rw (same, r.has_code) (known key s'.store r.started.family _ remembered).0,
        rw (same, r.has_code) (known key s'.store r.started.family _ remembered).1,
      )
    where
      known :
          (key : Text) (t : T) (family : Text) (x : Option Text × MemoryCache)
          → x.0 ≡ some family
          → ((redeemed_taken outside audience later again key t x).0 ≡ refused already_redeemed)
            × ((redeemed_taken outside audience later again key t x).1.store
                ≡ outside.revoke family t)
      known key t family (none, c) e = absurd (none-some e)
        where
          none-some : none ≢ some family
          none-some k = cc
      known key t family (some f, c) e =
          (refl, ap (λ g. outside.revoke g t) (some-injective f family e))
