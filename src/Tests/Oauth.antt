-- ===== src/Tests/Oauth.antt =====
-- Runs of internal/oauth at small inputs, and the witnesses of its theorems.
use docz.Prelude.{
  ℕ, ◌+◌, true, false, ◌≡◌, ◌++◌, refl, none, some, List, [], ◌∷◌, arith, if◌then◌else◌, All,
}
use docz.Prelude.Pairs.{AllPairs}
use docz.Text.{Text, codes, equal, is_space}
use docz.Text.Dict.{lookup, insert, remove}
use docz.Config.Paths.{among}
use docz.Config.Access.{scope_public_read}
use docz.Oauth.Cache.{MemoryCache, is_expired, get, set, delete, take_key}
use docz.Oauth.Cache.Refines.{view, with_key, cache-Map}
use docz.Oauth.Cache.Race.{of_first, of_second, ended, two_calls, race, race-twice}
use docz.Oauth.Scopes.{
  fields, words, requested_from, requested_scopes, still_grantable, current_scopes, all_among,
  refresh_scopes,
}
use docz.Oauth.Scopes.Bounds.{Held, Asked, refresh_scopes-Held, requested_scopes-Asked}
use docz.Oauth.Token.{
  Verdict, refused, code_prefix, Code, TokenResponse, Outside, Server, is_verifier_char, all_chars,
  valid_pkce, join_scopes, Form, check_code_request, mint, new_family, redeem_code,
}
use docz.Oauth.Refresh.{RefreshToken, found, missing_token, Tables, refreshable, refresh}
use docz.Oauth.Refresh.Live.{Live, refresh-Live}
use docz.Oauth.Token.Held.{redeem_code-held}
use docz.Oauth.Token.Replays.{already_redeemed, redeem_code-replayed}

abbrev small_cache : MemoryCache
small_cache = (codes "k", record { value = codes "v"; expires = some 10 }) ∷ []

cache-Map_example :
    ((get 5 (codes "k") small_cache).0 ≡ view 5 small_cache (codes "k"))
    × (view 5 (get 5 (codes "k") small_cache).1 (codes "j") ≡ view 5 small_cache (codes "j"))
    × (view 5 (set 5 (codes "k") (codes "w") 60 small_cache) (codes "j")
        ≡ with_key (view 5 small_cache) (codes "k") (some (codes "w")) (codes "j"))
    × (view 5 (delete (codes "k") small_cache) (codes "j")
        ≡ with_key (view 5 small_cache) (codes "k") none (codes "j"))
    × ((take_key 5 (codes "k") small_cache).0 ≡ view 5 small_cache (codes "k"))
    × (view 5 (take_key 5 (codes "k") small_cache).1 (codes "j")
        ≡ with_key (view 5 small_cache) (codes "k") none (codes "j"))
cache-Map_example = cache-Map 5 (codes "k") (codes "w") (codes "j") 60 small_cache

race-twice_example :
    let apart =
      race 5
        (codes "k")
        (of_first ∷ of_first ∷ of_second ∷ of_second ∷ [])
        (two_calls small_cache) in
    let mixed =
      race 5
        (codes "k")
        (of_first ∷ of_second ∷ of_first ∷ of_second ∷ [])
        (two_calls small_cache) in
    (apart.first ≡ ended (some (codes "v")))
    × (apart.second ≡ ended none)
    × (mixed.first ≡ ended (some (codes "v")))
    × (mixed.second ≡ ended (some (codes "v")))
unfolding view lookup equal is_expired
race-twice_example = race-twice 5 (codes "k") (codes "v") small_cache refl

abbrev site_scopes : List Text
site_scopes = scope_public_read ∷ codes "team:read" ∷ codes "team:write" ∷ []

refresh_scopes-Held_example :
    All
      (Held site_scopes (fields (codes "public:read team:read old:read")))
      (codes "team:read" ∷ [])
unfolding refresh_scopes current_scopes still_grantable fields words all_among among equal is_space
refresh_scopes-Held_example =
    refresh_scopes-Held site_scopes (codes "public:read team:read old:read") (codes "team:read")
      (codes "team:read" ∷ []) refl

requested_scopes-Asked_example :
    All (Asked site_scopes) (codes "team:read" ∷ scope_public_read ∷ [])
    × AllPairs (λ a b. equal a b ≡ false) (codes "team:read" ∷ scope_public_read ∷ [])
unfolding requested_scopes requested_from fields words among equal is_space
requested_scopes-Asked_example =
    requested_scopes-Asked site_scopes (codes "team:read public:read team:read")
      (codes "team:read" ∷ scope_public_read ∷ []) refl

abbrev verifier : Text
verifier = codes "abcdefghijklmnopqrstuvwxyz0123456789-._~ABCDEF"

abbrev issued : Code
issued = record {
  pending = record {
    client_id = codes "cli";
    redirect_uri = codes "http://localhost/cb";
    code_challenge = verifier;
  };
  user_id = 7;
  provider = codes "github";
  subject = codes "1";
  email = [];
  login = codes "dg";
  granted = scope_public_read ∷ [];
}

-- The store counts what is done to it.
abbrev counting : Outside ℕ
counting = record {
  hash = λ t. t;
  s256 = λ t. t;
  random = λ n. (some (b'a' ∷ n ∷ []), n + 1);
  decode = λ t. some issued;
  insert = λ hash family user client scope n. (true, n + 10);
  revoke = λ family n. n + 100;
  issue = λ claims. some (codes "jwt");
  ttl = 900;
}

abbrev token_form : Form
token_form k =
    if equal k (codes "code")
    then codes "c0de"
    else if equal k (codes "code_verifier")
    then verifier
    else if equal k (codes "client_id")
    then codes "cli"
    else if equal k (codes "redirect_uri")
    then codes "http://localhost/cb"
    else if equal k (codes "resource")
    then codes "https://docz"
    else []

abbrev open_server : Server ℕ
open_server = record {
  cache = (codes "code:c0de", record { value = codes "{}"; expires = some 60 }) ∷ [];
  store = 0;
}

abbrev first_redemption : Verdict TokenResponse × Server ℕ
first_redemption = redeem_code counting (codes "https://docz") 5 token_form open_server

abbrev first_response : TokenResponse
first_response = record {
  access_token = codes "jwt";
  token_type = codes "Bearer";
  expires_in = 900;
  refresh_token = b'a' ∷ 1 ∷ [];
  scope = scope_public_read;
}

redeem_code-held_example :
    (stored : Text) × (c : Code) × (view 5 open_server.cache
        (code_prefix ++ counting.hash (token_form (codes "code")))
      ≡ some stored)
    × (counting.decode stored ≡ some c)
    × (valid_pkce (token_form (codes "code_verifier")) ≡ true)
    × (counting.s256 (token_form (codes "code_verifier")) ≡ c.pending.code_challenge)
    × (token_form (codes "client_id") ≡ c.pending.client_id)
    × (token_form (codes "redirect_uri") ≡ c.pending.redirect_uri)
    × (token_form (codes "resource") ≡ codes "https://docz")
    × (first_response.scope ≡ join_scopes c.granted)
unfolding redeem_code take_key get lookup remove delete set insert is_expired equal
    check_code_request valid_pkce all_chars is_verifier_char new_family mint join_scopes
redeem_code-held_example =
    redeem_code-held counting (codes "https://docz") 5 token_form open_server first_response
      first_redemption.1 refl

redeem_code-replayed_example :
    (family : Text) × (user : ℕ) × (client : Text) × (scope : Text) × (before : ℕ)
    × (counting.insert (counting.hash first_response.refresh_token) family user client scope before
        ≡ (true, first_redemption.1.store))
    × ((redeem_code counting (codes "https://docz") 65 token_form first_redemption.1).0
        ≡ refused already_redeemed)
    × ((redeem_code counting (codes "https://docz") 65 token_form first_redemption.1).1.store
        ≡ counting.revoke family first_redemption.1.store)
unfolding redeem_code take_key get lookup remove delete set insert is_expired equal
    check_code_request valid_pkce all_chars is_verifier_char new_family mint join_scopes
redeem_code-replayed_example =
    redeem_code-replayed counting (codes "https://docz") 5 65 token_form token_form open_server
      first_redemption.1 first_response refl refl (omega arith)

abbrev live_token : RefreshToken
live_token = record {
  token_hash = codes "r";
  family_id = codes "f";
  user_id = 7;
  client_id = codes "cli";
  scope = codes "public:read team:read";
  issued_at = 100;
  last_used_at = none;
  revoked_at = none;
}

abbrev tables : Tables ℕ
tables = record {
  hash = λ t. t;
  token = λ h n. if equal h (codes "r") then found live_token else missing_token;
  user = λ id n.
      some (record { provider = codes "github"; subject = codes "1"; email = []; login = [] });
  rotate = λ old new scope n. (some true, n + 1);
  revoke = λ family n. n + 100;
  random = λ n. (some (codes "r2"), n);
  issue = λ claims. some (codes "jwt");
  ttl = 900;
}

abbrev refresh_form : Form
refresh_form k =
    if equal k (codes "refresh_token")
    then codes "r"
    else if equal k (codes "scope")
    then codes "team:read"
    else []

abbrev refreshed : TokenResponse
refreshed = record {
  access_token = codes "jwt";
  token_type = codes "Bearer";
  expires_in = 900;
  refresh_token = codes "r2";
  scope = codes "team:read";
}

refresh-Live_example :
    (current : RefreshToken) × (scopes : List Text) × (tables.token
        (tables.hash (refresh_form (codes "refresh_token")))
        0
      ≡ found current)
    × Live tables 60 site_scopes 150 current (refresh_form (codes "client_id"))
    × (refreshed.scope ≡ join_scopes scopes)
    × All (Held site_scopes (fields current.scope)) scopes
unfolding refresh refreshable refresh_scopes current_scopes still_grantable fields words all_among
    among equal is_space join_scopes
refresh-Live_example = refresh-Live tables 60 site_scopes 150 refresh_form 0 refreshed 1 refl
