-- ===== src/Auth/Webdav.antt =====
-- `PaperlessBasicAuthenticator` of src/paperless_webdav/webdav_auth.py. `Backends` is what it asks: the
-- LDAP directory, whose calls raise or not, the cipher and the database of the stored tokens, and the
-- token endpoint of Paperless. `sha256` is the digest of a password, and `now` the clock in seconds.
pub mod Grants
pub mod Decisions
pub mod Stored
use paperless_webdav.Base.{
  ℕ, ◌+◌, ◌≡◌, Bool, true, false, ◌&&◌, Option, none, some, List, [], ◌∷◌, ◌++◌, if◌then◌else◌, Eq,
  ◌==◌, nat_eq, list_eq, pair_eq, ltb, Dict, lookup, insert, erase, find, Text, codes,
}
use paperless_webdav.Outcome.{Outcome, ok, raise}
use paperless_webdav.Services.Encryption.{Crypto, token_encryption, decrypt}
use paperless_webdav.Services.Shares.{User, Database, user_by_external_id}
use paperless_webdav.Provider.Moves.{filled}
use paperless_webdav.Auth.Paperless.{
  Reply, TokenAnswer, granted, denied, authenticate_with_paperless,
}

-- `AUTH_CACHE_TTL`
abbrev pub auth_cache_ttl : ℕ
auth_cache_ttl = 300

-- `__init__`: the settings
pub record Authenticator : Type 0 where
  pub oidc : Bool
  pub encryption_key : Option Text
  pub ldap_url : Option Text
  pub ldap_base_dn : Option Text
  pub ldap_bind_dn : Option Text
  pub ldap_bind_password : Option Text

-- `simple_bind_s` and `unbind_s` that do not raise, and what `search_s` finds.
pub record Directory : Type 0 where
  pub binds : Text → Text → Bool
  pub searches : Text → Option (List Text)
  pub unbinds : Bool

pub record Backends : Type 0 where
  pub directory : Directory
  pub crypto : Crypto
  pub database : Option Database
  pub paperless : Text → Text → Reply

-- `f"(cn={username})"`
abbrev pub search_filter : Text → Text
search_filter username = codes "(cn=" ++ (username ++ codes ")")

-- `f"cn={username},ou=users,{self._ldap_base_dn}"`
abbrev pub direct_dn : Text → Text → Text
direct_dn username base = codes "cn=" ++ (username ++ (codes ",ou=users," ++ base))

-- The bind as the user, which tests the password.
abbrev pub bind_user : Directory → Text → Text → Bool
bind_user dir user_dn password = dir.binds user_dn password && dir.unbinds

abbrev bind_found : Directory → Text → Option (List Text) → Bool
bind_found dir password none = false
bind_found dir password (some []) = false
bind_found dir password (some (user_dn ∷ others)) = bind_user dir user_dn password

bind_by_search : Directory → Text → Text → Option Text → Option Text → Text → Bool
bind_by_search dir username password (some dn) (some secret) base =
    if dir.binds dn secret
    then bind_found dir password (dir.searches (search_filter username))
    else false
bind_by_search dir username password (some dn) none base =
    bind_user dir (direct_dn username base) password
bind_by_search dir username password none secret base =
    bind_user dir (direct_dn username base) password

bind_in : Authenticator → Directory → Text → Text → Option Text → Option Text → Bool
unfolding bind_by_search
bind_in self dir username password none base = false
bind_in self dir username password (some url) none = false
bind_in self dir username password (some url) (some base) =
    bind_by_search dir username password (filled self.ldap_bind_dn) (filled self.ldap_bind_password)
      base

unfoldable pub authenticate_ldap : Authenticator → Directory → Text → Text → Bool
unfolding bind_in
authenticate_ldap self dir username password =
    bind_in self dir username password (filled self.ldap_url) (filled self.ldap_base_dn)

abbrev decrypted : Outcome Text → Option Text
decrypted (raise e) = none
decrypted (ok token) = some token

decrypt_token : Crypto → List ℕ → Outcome (List ℕ) → Option Text
unfolding decrypt
decrypt_token crypto encrypted (raise e) = none
decrypt_token crypto encrypted (ok key) = decrypted (decrypt crypto key encrypted)

stored_token : Crypto → Text → Option (List ℕ) → Option Text
unfolding decrypt_token token_encryption
stored_token crypto encryption_key none = none
stored_token crypto encryption_key (some encrypted) =
    decrypt_token crypto encrypted (token_encryption crypto encryption_key)

token_of_user : Crypto → Text → Option User → Option Text
unfolding stored_token
token_of_user crypto encryption_key none = none
token_of_user crypto encryption_key (some user) =
    stored_token crypto encryption_key user.paperless_token_encrypted

token_with : Backends → Text → Option Text → Option Database → Option Text
unfolding token_of_user find
token_with b username none db = none
token_with b username (some encryption_key) none = none
token_with b username (some encryption_key) (some db) =
    token_of_user b.crypto encryption_key (user_by_external_id username db)

-- `_load_token_from_db`
unfoldable pub load_token_from_db : Authenticator → Backends → Text → Option Text
unfolding token_with
load_token_from_db self b username = token_with b username (filled self.encryption_key) b.database

-- `if db_token and password == db_token`
abbrev pub token_login : Option Text → Text → Option Text
token_login none password = none
token_login (some db_token) password = if password == db_token then some db_token else none

abbrev is_set : Option Text → Bool
is_set none = false
is_set (some t) = true

unfoldable pub authenticate_oidc :
    Authenticator → Directory → Text → Text → Option Text → Option Text
unfolding authenticate_ldap
authenticate_oidc self dir username password db_token =
    if is_set (filled self.ldap_url) && is_set (filled self.ldap_base_dn)
    then (if authenticate_ldap self dir username password
        then db_token
        else token_login db_token password)
    else token_login db_token password

abbrev pub granted_token : TokenAnswer → Option Text
granted_token (granted token) = some token
granted_token (denied e) = none

-- What follows a miss of the cache: the token of the user, or none.
unfoldable pub authenticate : Authenticator → Backends → Text → Text → Option Text
unfolding authenticate_oidc load_token_from_db authenticate_with_paperless
authenticate self b username password =
    if self.oidc
    then authenticate_oidc self b.directory username password
        (filled (load_token_from_db self b username))
    else granted_token (authenticate_with_paperless (b.paperless username password))

pub record CachedToken : Type 0 where
  pub token : Text
  pub expiry : ℕ

pub record AuthState : Type 0 where
  pub auth_cache : Dict (Text × Text) CachedToken
  pub user_tokens : Dict Text Text

-- The two entries of the environ that the provider reads.
pub record Environ : Type 0 where
  pub username : Option Text
  pub token : Option Text

abbrev pub signed_in : Text → Text → Environ
signed_in username token = record { username = some username; token = some token }

-- One call of `basic_auth_user`.
pub record Attempt : Type 0 where
  pub self : Authenticator
  pub backends : Backends
  pub now : ℕ
  pub username : Text
  pub password : Text

abbrev pub answer_of : Attempt → Option Text
answer_of a = authenticate a.self a.backends a.username a.password

module _ (sha256 : Text → Text) where
  abbrev pub cache_key : Attempt → Text × Text
  cache_key a = (a.username, sha256 a.password)

  keep_answer : Attempt → Option Text → AuthState → Environ → Option Text × AuthState × Environ
  unfolding insert
  keep_answer a none s environ = (none, s, environ)
  keep_answer a (some token) s environ = (
    some a.username,
    record {
      auth_cache =
          insert (cache_key a) (record { token = token; expiry = a.now + auth_cache_ttl })
            s.auth_cache;
      user_tokens = insert a.username token s.user_tokens;
    },
    signed_in a.username token,
  )

  after_lookup :
      Attempt → Option CachedToken → AuthState → Environ → Option Text × AuthState × Environ
  unfolding keep_answer insert erase authenticate
  after_lookup a none s environ = keep_answer a (answer_of a) s environ
  after_lookup a (some cached) s environ =
      if ltb a.now cached.expiry
      then (
        some a.username,
        record s { user_tokens = insert a.username cached.token s.user_tokens },
        signed_in a.username cached.token,
      )
      else keep_answer a (answer_of a) (record s { auth_cache = erase (cache_key a) s.auth_cache })
          environ

  -- The user name, or none for `False`, with the state and the environ afterwards.
  unfoldable pub basic_auth_user : Attempt → AuthState → Environ → Option Text × AuthState × Environ
  unfolding after_lookup lookup
  basic_auth_user a s environ = after_lookup a (lookup (cache_key a) s.auth_cache) s environ

unfoldable pub get_token : Text → AuthState → Option Text
unfolding lookup
get_token username s = lookup username s.user_tokens
