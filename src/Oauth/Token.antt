-- ===== src/Oauth/Token.antt =====
-- The authorization_code grant: redeemCode, checkCodeRequest, newFamily and mint of
-- internal/oauth/token.go, on the cache in memory. Parameters: the hashes, the random secrets, the
-- store's table of refresh tokens, encoding/json on a code, and the signer.
pub mod Started
pub mod Held
pub mod Replays
use docz.Prelude.{
  ℕ, zero, suc, ◌+◌, ◌-◌, ◌*◌, ◌/◌, ◌%◌, ◌≤◌, ◌<◌, Bool, true, false, not, ◌&&◌, ◌||◌, ◌≡◌, ◌≢◌,
  ◌↔◌, ◌⊎◌, inl, inr, refl, sym, ap, ◌∙◌, subst, Option, none, some, List, [], ◌∷◌, ◌++◌,
  append-nil, append_assoc, map, String, arith, ltb, leb, ◌==◌, within, if◌then◌else◌, ltb→lt,
  lt→ltb, ==_iff, Bool-cases, Option-cases, length, is_empty, take, drop, get_elem?, length-append,
  take-append-drop, All, All-append, All-append_left, All-append_right, All-weaken,
}
use docz.Prelude.Pairs.{
  AllPairs, AllPairs-append, AllPairs-unappend, AllPairs-reverse, AllPairs-weaken, All-reverse,
}
use docz.Text.{
  Text, codes, equal, cut_prefix, has_prefix, contains, contains_byte, is_space, is_blank,
  equal_iff, cut_prefix-append, cut_prefix-eq_some, contains_byte-append,
}
use docz.Text.Trim.{
  trim_left, trim_right, trim_space, trim_right-concat, trim_left_self, trim_space_self,
  trim_left-append, trim_right-cons, is_space_of_blank, trim_space-head,
}
use docz.Text.Lines.{
  split, join, lines_of, cons_head, newlines, newlines-append, split_of_lacks, split-ne-nil,
  length-lines_of, newlines_of_lacks,
}
use docz.Text.Dict.{Dict}
use docz.Oauth.Cache.{MemoryCache, set, take_key}

pub data ErrorCode : Type 0 where
  invalid_request invalid_client invalid_grant invalid_scope invalid_target : ErrorCode
  server_error temporarily_unavailable : ErrorCode

-- tokenError
pub record TokenError : Type 0 where
  pub code : ErrorCode
  pub description : Text
  pub principal : Text

abbrev pub refusal : ErrorCode → Text → TokenError
refusal code description = record { code = code; description = description; principal = [] }

pub data Verdict (A : Type 0) : Type 0 where
  accepted : A → Verdict A
  refused : TokenError → Verdict A

-- The fields of pending that a redemption reads.
pub record Pending : Type 0 where
  pub client_id : Text
  pub redirect_uri : Text
  pub code_challenge : Text

-- code, with its identity
pub record Code : Type 0 where
  pub pending : Pending
  pub user_id : ℕ
  pub provider : Text
  pub subject : Text
  pub email : Text
  pub login : Text
  pub granted : List Text

-- The fields of Claims that mint fills.
pub record Claims : Type 0 where
  pub subject : Text
  pub client_id : Text
  pub scopes : List Text
  pub email : Text
  pub login : Text

pub record TokenResponse : Type 0 where
  pub access_token : Text
  pub token_type : Text
  pub expires_in : ℕ
  pub refresh_token : Text
  pub scope : Text

-- What is not the server's own: `hash` is hashToken, `random` randomSecret, `decode` json.Unmarshal
-- into a code, `issue` and `ttl` the signer's; `insert` and `revoke` act on the refresh tokens.
pub record Outside (T : Type 0) : Type 0 where
  pub hash : Text → Text
  pub s256 : Text → Text
  pub random : T → Option Text × T
  pub decode : Text → Option Code
  pub insert : Text → Text → ℕ → Text → Text → T → Bool × T
  pub revoke : Text → T → T
  pub issue : Claims → Option Text
  pub ttl : ℕ

pub record Server (T : Type 0) : Type 0 where
  pub cache : MemoryCache
  pub store : T

abbrev pub redeemed_prefix : Text
redeemed_prefix = codes "redeemed:"

abbrev pub code_prefix : Text
code_prefix = codes "code:"

-- ten minutes, in seconds
abbrev pub redeemed_ttl : ℕ
redeemed_ttl = 600

unfoldable pub is_verifier_char : ℕ → Bool
is_verifier_char c =
    within b'A' b'Z' c
    || within b'a' b'z' c
    || within b'0' b'9' c
    || c == b'-'
    || c == b'.'
    || c == b'_'
    || c == b'~'

unfoldable pub all_chars : Text → Bool
all_chars [] = true
all_chars (c ∷ s) = is_verifier_char c && all_chars s

-- validPKCE; a text of these characters has as many bytes as characters
unfoldable pub valid_pkce : Text → Bool
valid_pkce s = leb 43 (length s) && leb (length s) 128 && all_chars s

-- strings.Join with a space
unfoldable pub join_scopes : List Text → Text
join_scopes [] = []
join_scopes (sc ∷ scs) =
    let rest = join_scopes scs in if is_empty scs then sc else sc ++ (b' ' ∷ rest)

-- The parameters of a form; a missing one is empty.
abbrev pub Form : Type 0
Form = Text → Text

module _ {T : Type 0} (outside : Outside T) (audience : Text) where
  -- checkCodeRequest
  unfoldable pub check_code_request : Form → Pending → Option TokenError
  check_code_request form p =
      let verifier = form (codes "code_verifier") in
      if not (valid_pkce verifier) || not (equal (outside.s256 verifier) p.code_challenge)
      then some (refusal invalid_grant (codes "code_verifier does not match the code_challenge"))
      else if not (equal (form (codes "client_id")) p.client_id)
      then some (refusal invalid_client (codes "client_id is not the one the code was issued to"))
      else if not (equal (form (codes "redirect_uri")) p.redirect_uri)
      then some (refusal invalid_grant (codes "redirect_uri is not the one the authorization used"))
      else if not (equal (form (codes "resource")) audience)
      then some (refusal invalid_target (codes "resource must be " ++ audience))
      else none

  abbrev principal_of : Code → Text
  principal_of c = codes "user:" ++ (c.provider ++ (codes ":" ++ c.subject))

  abbrev claims_of : Code → Claims
  claims_of c = record {
    subject = principal_of c;
    client_id = c.pending.client_id;
    scopes = c.granted;
    email = c.email;
    login = c.login;
  }

  abbrev signed : Code → Text → Option Text → Verdict TokenResponse
  signed c refresh none = refused (refusal server_error (codes "could not sign the token"))
  signed c refresh (some access) = accepted (record {
    access_token = access;
    token_type = codes "Bearer";
    expires_in = outside.ttl;
    refresh_token = refresh;
    scope = join_scopes c.granted;
  })

  -- mint
  unfoldable pub mint : Code → Text → Verdict TokenResponse
  mint c refresh = signed c refresh (outside.issue (claims_of c))

  abbrev cannot_mint : TokenError
  cannot_mint = refusal server_error (codes "could not mint a token")

  -- newFamily, behind its secrets and its insert
  abbrev family_stored : ℕ → Text → Text → Text → Server T → Bool × T → Verdict Text × Server T
  family_stored now key family refresh s (false, t) = (
    refused (refusal temporarily_unavailable (codes "could not store the refresh token")),
    record s { store = t },
  )
  family_stored now key family refresh s (true, t) = (
    accepted refresh,
    record { cache = set now (redeemed_prefix ++ key) family redeemed_ttl s.cache; store = t },
  )

  abbrev with_refresh :
      ℕ → Code → Text → Text → Server T → Option Text × T → Verdict Text × Server T
  with_refresh now c key family s (none, t) = (refused cannot_mint, record s { store = t })
  with_refresh now c key family s (some refresh, t) = family_stored now key family refresh s (
      outside.insert (outside.hash refresh) family c.user_id c.pending.client_id
        (join_scopes c.granted) t)

  abbrev with_family : ℕ → Code → Text → Server T → Option Text × T → Verdict Text × Server T
  with_family now c key s (none, t) = (refused cannot_mint, record s { store = t })
  with_family now c key s (some family, t) = with_refresh now c key family s (outside.random t)

  -- newFamily
  unfoldable pub new_family : ℕ → Code → Text → Server T → Verdict Text × Server T
  new_family now c key s = with_family now c key s (outside.random s.store)

  abbrev named : Code → TokenError → TokenError
  named c e = record e { principal = principal_of c }

  abbrev minted : Code → Verdict TokenResponse → Verdict TokenResponse
  minted c (accepted r) = accepted r
  minted c (refused e) = refused (named c e)

  abbrev family_made : Code → Verdict Text × Server T → Verdict TokenResponse × Server T
  family_made c (refused e, s) = (refused (named c e), s)
  family_made c (accepted refresh, s) = (minted c (mint c refresh), s)

  abbrev checked : ℕ → Code → Text → Option TokenError → Server T → Verdict TokenResponse × Server T
  checked now c key (some e) s = (refused (named c e), s)
  checked now c key none s = family_made c (new_family now c key s)

  abbrev unknown_code : TokenError
  unknown_code = refusal invalid_grant (codes "code is unknown or expired")

  abbrev decoded : ℕ → Form → Text → Option Code → Server T → Verdict TokenResponse × Server T
  decoded now form key none s = (refused unknown_code, s)
  decoded now form key (some c) s = checked now c key (check_code_request form c.pending) s

  abbrev code_taken :
      ℕ → Form → Text → T → Option Text × MemoryCache → Verdict TokenResponse × Server T
  code_taken now form key t (none, c) = (refused unknown_code, record { cache = c; store = t })
  code_taken now form key t (some stored, c) =
      decoded now form key (outside.decode stored) (record { cache = c; store = t })

  abbrev redeemed_taken :
      ℕ → Form → Text → T → Option Text × MemoryCache → Verdict TokenResponse × Server T
  redeemed_taken now form key t (some family, c) = (
    refused (refusal invalid_grant (codes "code was already redeemed; its tokens are revoked")),
    record { cache = c; store = outside.revoke family t },
  )
  redeemed_taken now form key t (none, c) =
      code_taken now form key t (take_key now (code_prefix ++ key) c)

  -- redeemCode, of the code `raw`
  abbrev redeem_raw : ℕ → Form → Text → Server T → Verdict TokenResponse × Server T
  redeem_raw now form raw s =
      if is_empty raw
      then (refused (refusal invalid_request (codes "code is required")), s)
      else redeemed_taken now form (outside.hash raw) s.store
          (take_key now (redeemed_prefix ++ outside.hash raw) s.cache)

  -- redeemCode
  unfoldable pub redeem_code : ℕ → Form → Server T → Verdict TokenResponse × Server T
  redeem_code now form s = redeem_raw now form (form (codes "code")) s
