-- ===== src/Auth/Paperless.antt =====
-- The login with Paperless and the session of src/paperless_webdav/auth/paperless.py. The answer of the
-- token endpoint is an argument, as is the serializer that signs a session; `now` is the clock, and
-- the database is `none` where it is not initialized.
pub mod Sessions
use paperless_webdav.Base.{
  ℕ, ◌+◌, ◌*◌, ◌≤◌, ◌≡◌, Bool, true, false, ◌&&◌, not, Option, none, some, List, [], ◌∷◌,
  if◌then◌else◌, Eq, ◌==◌, nat_eq, leb, Text,
}
use paperless_webdav.Outcome.{Outcome, ok, raise, http_exception}
use paperless_webdav.Services.Encryption.{Crypto}
use paperless_webdav.Services.Shares.{Database, get_user_token}

abbrev pub http_unauthorized : ℕ
http_unauthorized = 401

abbrev pub http_bad_gateway : ℕ
http_bad_gateway = 502

pub data LoginError : Type 0 where
  cannot_connect invalid_credentials server_error unexpected_response invalid_response : LoginError

-- What the POST to `/api/token/` comes back with: no response, or a status and the token of its body.
pub data Reply : Type 0 where
  unreachable : Reply
  reply : ℕ → Option Text → Reply

-- `(token, None)` or `(None, error)`
pub data TokenAnswer : Type 0 where
  granted : Text → TokenAnswer
  denied : LoginError → TokenAnswer

abbrev token_in : Option Text → TokenAnswer
token_in none = denied invalid_response
token_in (some token) = granted token

unfoldable pub authenticate_with_paperless : Reply → TokenAnswer
authenticate_with_paperless unreachable = denied cannot_connect
authenticate_with_paperless (reply status token) =
    if status == 400
    then denied invalid_credentials
    else if leb 500 status
    then denied server_error
    else if not (status == 200)
    then denied unexpected_response
    else token_in token

pub record AuthenticatedUser : Type 0 where
  pub username : Text
  pub token : Text

-- What `serializer.loads` comes back with.
pub data Loaded : Type 0 where
  loaded : Text → Text → Loaded
  signature_expired bad_signature bad_content : Loaded

-- `dumps` signs a user name and a token with the time; `loads` reads them within a maximal age.
pub record Serializer : Type 0 where
  pub dumps : ℕ → Text → Text → Text
  pub loads : ℕ → ℕ → Text → Loaded

pub record IsSerializer (s : Serializer) : Type 0 where
  pub loads_dumps :
      (signed now max_age : ℕ) (username token : Text)
      → signed ≤ now
      → now ≤ signed + max_age
      → s.loads now max_age (s.dumps signed username token) ≡ loaded username token
  pub dumps_filled : (signed : ℕ) (username token : Text) → ¬ (s.dumps signed username token ≡ [])

pub record Settings : Type 0 where
  pub serializer : Serializer
  pub session_expiry_hours : ℕ
  pub crypto : Crypto
  pub encryption_key : Text

abbrev pub max_age : Settings → ℕ
max_age settings = settings.session_expiry_hours * 3600

unfoldable pub create_session : Settings → ℕ → Text → Text → Text
create_session settings now username token = settings.serializer.dumps now username token

abbrev session_user : Loaded → Option AuthenticatedUser
session_user (loaded username token) = some (record { username = username; token = token })
session_user signature_expired = none
session_user bad_signature = none
session_user bad_content = none

unfoldable pub validate_session : Settings → ℕ → Text → Option AuthenticatedUser
validate_session settings now [] = none
validate_session settings now (c ∷ t) =
    session_user (settings.serializer.loads now (max_age settings) (c ∷ t))

-- `_load_token_from_db`
unfoldable pub load_token : Settings → Option Database → Text → Outcome (Option Text)
unfolding get_user_token
load_token settings none username = ok none
load_token settings (some db) username =
    get_user_token settings.crypto username settings.encryption_key db

abbrev pub is_empty : Text → Bool
is_empty [] = true
is_empty (c ∷ t) = false

-- `if db_token` on what the database holds
token_user : Text → Outcome (Option Text) → Outcome (Option AuthenticatedUser)
token_user username (raise e) = raise e
token_user username (ok none) = ok none
token_user username (ok (some [])) = ok none
token_user username (ok (some (c ∷ t))) = ok (some (record { username = username; token = c ∷ t }))

complete_user :
    Settings → Option Database → Option AuthenticatedUser → Outcome (Option AuthenticatedUser)
unfolding token_user load_token
complete_user settings db none = ok none
complete_user settings db (some user) =
    if not (is_empty user.username) && is_empty user.token
    then token_user user.username (load_token settings db user.username)
    else ok (some user)

unfoldable pub get_current_user_optional :
    Settings → Option Database → ℕ → Text → Outcome (Option AuthenticatedUser)
unfolding complete_user validate_session
get_current_user_optional settings db now session =
    complete_user settings db (validate_session settings now session)

-- The same steps, with 401 where there is no user.
or_unauthorized : Text → Outcome (Option Text) → Outcome AuthenticatedUser
or_unauthorized username (raise e) = raise e
or_unauthorized username (ok none) = raise (http_exception http_unauthorized)
or_unauthorized username (ok (some [])) = raise (http_exception http_unauthorized)
or_unauthorized username (ok (some (c ∷ t))) = ok (record { username = username; token = c ∷ t })

require_user : Settings → Option Database → Option AuthenticatedUser → Outcome AuthenticatedUser
unfolding or_unauthorized load_token
require_user settings db none = raise (http_exception http_unauthorized)
require_user settings db (some user) =
    if not (is_empty user.username) && is_empty user.token
    then or_unauthorized user.username (load_token settings db user.username)
    else ok user

unfoldable pub get_current_user : Settings → Option Database → ℕ → Text → Outcome AuthenticatedUser
unfolding require_user validate_session
get_current_user settings db now session =
    require_user settings db (validate_session settings now session)

abbrev status_of : LoginError → ℕ
status_of invalid_credentials = http_unauthorized
status_of cannot_connect = http_bad_gateway
status_of server_error = http_bad_gateway
status_of unexpected_response = http_bad_gateway
status_of invalid_response = http_bad_gateway

answer_login : Settings → ℕ → Text → TokenAnswer → Outcome Text
unfolding create_session
answer_login settings now username (denied e) = raise (http_exception (status_of e))
answer_login settings now username (granted token) = ok (create_session settings now username token)

-- `login`: the session cookie
unfoldable pub login : Settings → ℕ → Text → Reply → Outcome Text
unfolding answer_login authenticate_with_paperless
login settings now username answer =
    answer_login settings now username (authenticate_with_paperless answer)
