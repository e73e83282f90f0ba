-- ===== src/Oauth/Refresh.antt =====
-- The refresh_token grant: refresh and refreshable of internal/oauth/token.go. Parameters: the
-- store's tables of refresh tokens and users, the hash, the random secrets and the signer.
pub mod Live
use docz.Prelude.{
  ℕ, zero, suc, ◌+◌, ◌-◌, ◌*◌, ◌/◌, ◌%◌, ◌≤◌, ◌<◌, Bool, true, false, not, ◌&&◌, ◌||◌, ◌≡◌, ◌≢◌,
  ◌↔◌, ◌⊎◌, inl, inr, refl, sym, ap, ◌∙◌, subst, Option, none, some, List, [], ◌∷◌, ◌++◌,
  append-nil, append_assoc, map, String, arith, ltb, leb, ◌==◌, within, if◌then◌else◌, ltb→lt,
  lt→ltb, ==_iff, Bool-cases, Option-cases, length, is_empty, take, drop, get_elem?, length-append,
  take-append-drop, All, All-append, All-append_left, All-append_right, All-weaken,
}
use docz.Prelude.Pairs.{
  AllPairs, AllPairs-append, AllPairs-unappend, AllPairs-reverse, AllPairs-weaken, All-reverse,
}
use docz.Text.{
  Text, codes, equal, cut_prefix, has_prefix, contains, contains_byte, is_space, is_blank,
  equal_iff, cut_prefix-append, cut_prefix-eq_some, contains_byte-append,
}
use docz.Text.Trim.{
  trim_left, trim_right, trim_space, trim_right-concat, trim_left_self, trim_space_self,
  trim_left-append, trim_right-cons, is_space_of_blank, trim_space-head,
}
use docz.Text.Lines.{
  split, join, lines_of, cons_head, newlines, newlines-append, split_of_lacks, split-ne-nil,
  length-lines_of, newlines_of_lacks,
}
use docz.Config.Paths.{among}
use docz.Oauth.Scopes.{fields, current_scopes, refresh_scopes}
use docz.Oauth.Token.{
  ErrorCode, invalid_request, invalid_client, invalid_grant, invalid_scope, server_error,
  temporarily_unavailable, TokenError, refusal, Verdict, accepted, refused, Claims, TokenResponse,
  join_scopes, Form,
}

-- The row of the store; a nil time is `none`.
pub record RefreshToken : Type 0 where
  pub token_hash : Text
  pub family_id : Text
  pub user_id : ℕ
  pub client_id : Text
  pub scope : Text
  pub issued_at : ℕ
  pub last_used_at : Option ℕ
  pub revoked_at : Option ℕ

pub record User : Type 0 where
  pub provider : Text
  pub subject : Text
  pub email : Text
  pub login : Text

-- The answer of GetRefreshToken; `missing_token` is store.ErrNotFound.
pub data Lookup : Type 0 where
  found : RefreshToken → Lookup
  missing_token unread_token : Lookup

-- `rotate` is RotateRefreshToken of the old hash, the new one and the scope: its error is `none`.
pub record Tables (T : Type 0) : Type 0 where
  pub hash : Text → Text
  pub token : Text → T → Lookup
  pub user : ℕ → T → Option User
  pub rotate : Text → Text → Text → T → Option Bool × T
  pub revoke : Text → T → T
  pub random : T → Option Text × T
  pub issue : Claims → Option Text
  pub ttl : ℕ

-- The first scope asked for that is not there.
unfoldable pub first_outside : List Text → List Text → Text
first_outside [] scopes = []
first_outside (sc ∷ scs) scopes =
    let later = first_outside scs scopes in if among sc scopes then later else sc

module _ {T : Type 0} (tables : Tables T) (refresh_ttl : ℕ) (grantable : List Text) where
  -- The switch of refreshable, on RevokedAt and LastUsedAt.
  abbrev refreshable_where :
      ℕ → RefreshToken → Text → T → Option ℕ → Option ℕ → Option TokenError × T
  refreshable_where now current client t (some at) used =
      (some (refusal invalid_grant (codes "refresh_token is revoked")), t)
  refreshable_where now current client t none (some at) = (
    some (refusal invalid_grant (codes "refresh_token was already used; its family is revoked")),
    tables.revoke current.family_id t,
  )
  refreshable_where now current client t none none =
      if ltb (current.issued_at + refresh_ttl) now
      then (
        some (refusal invalid_grant (codes "refresh_token expired")),
        tables.revoke current.family_id t,
      )
      else if not (is_empty client) && not (equal client current.client_id)
      then (
        some (refusal invalid_client (codes "client_id is not the one the token was issued to")),
        t,
      )
      else (none, t)

  -- refreshable
  unfoldable pub refreshable : ℕ → RefreshToken → Text → T → Option TokenError × T
  refreshable now current client t =
      refreshable_where now current client t current.revoked_at current.last_used_at

  abbrev principal_of : User → Text
  principal_of u = codes "user:" ++ (u.provider ++ (codes ":" ++ u.subject))

  abbrev named : User → TokenError → TokenError
  named u e = record e { principal = principal_of u }

  abbrev signed : User → List Text → Text → Option Text → Verdict TokenResponse
  signed u scopes next none =
      refused (named u (refusal server_error (codes "could not sign the token")))
  signed u scopes next (some access) = accepted (record {
    access_token = access;
    token_type = codes "Bearer";
    expires_in = tables.ttl;
    refresh_token = next;
    scope = join_scopes scopes;
  })

  abbrev claims_of : User → RefreshToken → List Text → Claims
  claims_of u current scopes = record {
    subject = principal_of u;
    client_id = current.client_id;
    scopes = scopes;
    email = u.email;
    login = u.login;
  }

  abbrev rotated :
      RefreshToken → User → List Text → Text → Option Bool × T → Verdict TokenResponse × T
  rotated current u scopes next (none, t) = (
    refused
        (named u (refusal temporarily_unavailable (codes "could not rotate the refresh token"))),
    t,
  )
  rotated current u scopes next (some false, t) = (
    refused (
        named u
          (refusal invalid_grant (codes "refresh_token was already used; its family is revoked"))),
    tables.revoke current.family_id t,
  )
  rotated current u scopes next (some true, t) =
      (signed u scopes next (tables.issue (claims_of u current scopes)), t)

  abbrev with_next : RefreshToken → User → List Text → Option Text × T → Verdict TokenResponse × T
  with_next current u scopes (none, t) =
      (refused (named u (refusal server_error (codes "could not mint a token"))), t)
  with_next current u scopes (some next, t) =
      rotated current u scopes next
        (tables.rotate current.token_hash (tables.hash next) (join_scopes scopes) t)

  -- The error of refreshScopes.
  abbrev scope_error : Form → RefreshToken → TokenError
  scope_error form current = refusal invalid_scope (
      codes "scope "
      ++ (first_outside (fields (form (codes "scope")))
            (current_scopes grantable (fields current.scope))
          ++ codes " was not granted"))

  abbrev with_scopes :
      Form → RefreshToken → User → Option (List Text) → T → Verdict TokenResponse × T
  with_scopes form current u none t = (refused (named u (scope_error form current)), t)
  with_scopes form current u (some scopes) t = with_next current u scopes (tables.random t)

  abbrev with_check : Form → RefreshToken → User → Option TokenError × T → Verdict TokenResponse × T
  with_check form current u (some e, t) = (refused (named u e), t)
  with_check form current u (none, t) =
      with_scopes form current u (refresh_scopes grantable current.scope (form (codes "scope"))) t

  abbrev with_user : ℕ → Form → RefreshToken → Option User → T → Verdict TokenResponse × T
  with_user now form current none t =
      (refused (refusal invalid_grant (codes "refresh_token belongs to no one")), t)
  with_user now form current (some u) t =
      with_check form current u (refreshable now current (form (codes "client_id")) t)

  abbrev with_token : ℕ → Form → Lookup → T → Verdict TokenResponse × T
  with_token now form missing_token t =
      (refused (refusal invalid_grant (codes "refresh_token is unknown")), t)
  with_token now form unread_token t =
      (refused (refusal temporarily_unavailable (codes "could not read the refresh token")), t)
  with_token now form (found current) t =
      with_user now form current (tables.user current.user_id t) t

  -- refresh
  unfoldable pub refresh : ℕ → Form → T → Verdict TokenResponse × T
  refresh now form t =
      if is_empty (form (codes "refresh_token"))
      then (refused (refusal invalid_request (codes "refresh_token is required")), t)
      else with_token now form (tables.token (tables.hash (form (codes "refresh_token"))) t) t
