-- ===== src/Oauth/Token/Started.antt =====
-- The refresh family that a redemption of internal/oauth/token.go starts.
use docz.Prelude.{ℕ, Bool, true, false, ◌≡◌, ◌≢◌, refl, sym, ap, ◌∙◌, Option, none, some, ◌++◌}
use docz.Text.{Text}
use docz.Oauth.Cache.{MemoryCache, set}
use docz.Oauth.Token.{
  TokenError, Verdict, accepted, refused, Code, Outside, Server, redeemed_prefix, redeemed_ttl,
  join_scopes, family_stored, with_refresh, with_family, new_family,
}

pub refused-ne-accepted : {A : Type 0} (e : TokenError) (a : A) → refused e ≢ accepted a
refused-ne-accepted e a h = cc

abbrev value_or : {A : Type 0} → A → Verdict A → A
value_or default (accepted a) = a
value_or default (refused e) = default

pub accepted-injective : {A : Type 0} (a b : A) → accepted a ≡ accepted b → a ≡ b
accepted-injective a b h = ap (value_or a) h

module _ {T : Type 0} (outside : Outside T) (audience : Text) where
  -- The refresh family that a redemption started, and what the cache remembers of it.
  pub record Started (now : ℕ) (c : Code) (key refresh : Text) (s : Server T) : Type 0 where
    pub family : Text
    pub cache : MemoryCache
    pub before : T
    pub remembered : s.cache ≡ set now (redeemed_prefix ++ key) family redeemed_ttl cache
    pub inserted :
        outside.insert
          (outside.hash refresh)
          family
          c.user_id
          c.pending.client_id
          (join_scopes c.granted)
          before
        ≡ (true, s.store)

  pub new_family-accepted :
      (now : ℕ) (c : Code) (key refresh : Text) (s s' : Server T)
      → new_family outside audience now c key s ≡ (accepted refresh, s')
      → Started now c key refresh s'
  unfolding new_family
  new_family-accepted now c key refresh s s' h = of_family (outside.random s.store) h
    where
      of_stored :
          (family made : Text) (t : T) (x : Bool × T)
          → outside.insert
              (outside.hash made)
              family
              c.user_id
              c.pending.client_id
              (join_scopes c.granted)
              t
            ≡ x
          → family_stored outside audience now key family made s x ≡ (accepted refresh, s')
          → Started now c key refresh s'
      of_stored family made t (false, u) e k =
          absurd (refused-ne-accepted _ refresh (ap (λ o. o.0) k))
      of_stored family made t (true, u) e k = record {
        family = family;
        cache = s.cache;
        before = t;
        remembered = ap (λ o. o.1.cache) (sym k);
        inserted =
            ap
              (λ r.
                outside.insert (outside.hash r) family c.user_id c.pending.client_id
                  (join_scopes c.granted) t)
              (sym (accepted-injective made refresh (ap (λ o. o.0) k)))
            ∙ e
            ∙ ap (λ o. (true, o.1.store)) k;
      }

      of_refresh :
          (family : Text) (x : Option Text × T)
          → with_refresh outside audience now c key family s x ≡ (accepted refresh, s')
          → Started now c key refresh s'
      of_refresh family (none, t) k = absurd (refused-ne-accepted _ refresh (ap (λ o. o.0) k))
      of_refresh family (some made, t) k = of_stored family made t _ refl k

      of_family :
          (x : Option Text × T)
          → with_family outside audience now c key s x ≡ (accepted refresh, s')
          → Started now c key refresh s'
      of_family (none, t) k = absurd (refused-ne-accepted _ refresh (ap (λ o. o.0) k))
      of_family (some family, t) k = of_refresh family (outside.random t) k
