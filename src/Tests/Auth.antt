-- ===== src/Tests/Auth.antt =====
-- The logins at concrete answers of the backends.
use paperless_webdav.Base.{
  ℕ, ap, ◌≡◌, ◌↔◌, refl, true, false, none, some, [], ◌∷◌, ◌++◌, length, take, drop, nat_eq,
  ℕ_discrete, list_eq, pair_eq, codes, Text, arith, lookup,
}
use paperless_webdav.Outcome.{ok, raise, http_exception}
use paperless_webdav.Services.Encryption.{Crypto}
use paperless_webdav.Auth.Paperless.{
  reply, unreachable, granted, authenticate_with_paperless, Loaded, loaded, Serializer,
  IsSerializer, Settings, login, get_current_user, bad_signature,
}
use paperless_webdav.Auth.Paperless.Sessions.{get_current_user-login}
use paperless_webdav.Auth.Webdav.{
  Authenticator, Directory, Backends, AuthState, Environ, Attempt, basic_auth_user, authenticate,
  authenticate_ldap,
}
use paperless_webdav.Auth.Webdav.Grants.{start, attempt, AuthTells, basic_auth_user-AuthTells}
use paperless_webdav.Auth.Webdav.Decisions.{Grants, authenticate_iff}

abbrev plain_crypto : Crypto
plain_crypto = record {
  b64decode = λ key. ok key;
  seal = λ key nonce plain. plain;
  unseal = λ key nonce sealed. ok sealed;
  utf8_encode = λ t. t;
  utf8_decode = λ bytes. ok bytes;
}

-- A session that is the length of the user name, the name, and the token, and that never expires.
abbrev framed : ℕ → Text → Text → Text
framed signed username token = length username ∷ (username ++ token)

abbrev unframed : Text → Loaded
unframed [] = bad_signature
unframed (n ∷ t) = loaded (take n t) (drop n t)

abbrev pub framing : Serializer
framing = record { dumps = framed; loads = λ now age t. unframed t }

take_front : (s t : Text) → take (length s) (s ++ t) ≡ s
take_front [] t = refl
take_front (c ∷ s) t = ap (λ u. c ∷ u) (take_front s t)

drop_front : (s t : Text) → drop (length s) (s ++ t) ≡ t
drop_front [] t = refl
drop_front (c ∷ s) t = drop_front s t

framing-IsSerializer : IsSerializer framing
framing-IsSerializer = record {
  loads_dumps = λ signed now age username token h k.
      rw (take_front username token, drop_front username token) refl;
  dumps_filled = λ signed username token e. ground (arith, e);
}

abbrev settings : Settings
settings = record {
  serializer = framing;
  session_expiry_hours = 24;
  crypto = plain_crypto;
  encryption_key = [];
}

accepted_reply :
    authenticate_with_paperless (reply 200 (some (codes "tok"))) ≡ granted (codes "tok")
unfolding authenticate_with_paperless nat_eq ℕ_discrete
accepted_reply = refl

get_current_user-login_example :
    (session : Text) × (login settings 50 (codes "ann") (reply 200 (some (codes "tok")))
      ≡ ok session)
    × (get_current_user settings none 60 session
        ≡ ok (record { username = codes "ann"; token = codes "tok" }))
get_current_user-login_example =
    get_current_user-login settings none 50 60 (codes "ann") (codes "tok")
      (reply 200 (some (codes "tok"))) framing-IsSerializer accepted_reply refl (omega arith)
      (omega arith)

down : login settings 50 (codes "ann") unreachable ≡ raise (http_exception 502)
unfolding login
down = refl

abbrev by_paperless : Authenticator
by_paperless = record {
  oidc = false;
  encryption_key = none;
  ldap_url = none;
  ldap_base_dn = none;
  ldap_bind_dn = none;
  ldap_bind_password = none;
}

abbrev pub by_ldap : Authenticator
by_ldap = record by_paperless {
  oidc = true;
  encryption_key = some (codes "key");
  ldap_url = some (codes "ldap://host");
  ldap_base_dn = some (codes "dc=home");
}

-- A directory that takes every bind.
abbrev open_directory : Directory
open_directory = record { binds = λ dn password. true; searches = λ f. some []; unbinds = true }

abbrev pub backends : Backends
backends = record {
  directory = open_directory;
  crypto = plain_crypto;
  database = none;
  paperless = λ username password. reply 200 (some (codes "tok"));
}

abbrev signing_in : ℕ → Attempt
signing_in now = record {
  self = by_paperless;
  backends = backends;
  now = now;
  username = codes "ann";
  password = codes "pw";
}

abbrev fresh : AuthState
fresh = record { auth_cache = []; user_tokens = [] }

abbrev no_user : Environ
no_user = record { username = none; token = none }

signs_in : (basic_auth_user (λ t. t) (signing_in 100) fresh no_user).0 ≡ some (codes "ann")
unfolding basic_auth_user authenticate lookup authenticate_with_paperless nat_eq ℕ_discrete
signs_in = refl

basic_auth_user-AuthTells_example :
    AuthTells
      (λ t. t)
      (signing_in 100 ∷ [])
      (signing_in 200)
      (basic_auth_user (λ t. t) (signing_in 100) fresh no_user).1
      no_user
      (basic_auth_user
        (λ t. t)
        (signing_in 200)
        (basic_auth_user (λ t. t) (signing_in 100) fresh no_user).1
        no_user)
basic_auth_user-AuthTells_example =
    basic_auth_user-AuthTells (λ t. t) (signing_in 100 ∷ []) (signing_in 200)
      (basic_auth_user (λ t. t) (signing_in 100) fresh no_user).1 no_user
      (attempt (signing_in 100) no_user start)

-- The empty password is bound like any other.
empty_password : authenticate_ldap by_ldap open_directory (codes "ann") [] ≡ true
unfolding authenticate_ldap
empty_password = refl

authenticate_iff_example :
    (authenticate by_ldap backends (codes "ann") (codes "pw") ≡ some (codes "tok"))
    ↔ Grants by_ldap backends (codes "ann") (codes "pw") (codes "tok") true
authenticate_iff_example =
    authenticate_iff by_ldap backends (codes "ann") (codes "pw") (codes "tok")
