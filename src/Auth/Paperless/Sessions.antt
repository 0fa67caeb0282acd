-- ===== src/Auth/Paperless/Sessions.antt =====
-- What a login gives, and what the two readers of a session make of it.
use paperless_webdav.Base.{
  ℕ, ◌+◌, ◌≤◌, ◌≡◌, refl, sym, ap, ◌∙◌, Bool, false, ◌&&◌, not, Option, none, some, [], ◌∷◌,
  if◌then◌else◌, ◌==◌, nat_eq, if_map, arith, Text,
}
use paperless_webdav.Outcome.{Error, Outcome, ok, raise, http_exception}
use paperless_webdav.Services.Shares.{Database}
use paperless_webdav.Auth.Paperless.{
  http_unauthorized, http_bad_gateway, Reply, unreachable, reply, granted,
  authenticate_with_paperless, AuthenticatedUser, IsSerializer, Settings, max_age, create_session,
  session_user, validate_session, load_token, is_empty, token_user, complete_user,
  get_current_user_optional, or_unauthorized, require_user, get_current_user, answer_login, login,
}

-- 401 for no user
abbrev pub required : Outcome (Option AuthenticatedUser) → Outcome AuthenticatedUser
required (raise e) = raise e
required (ok none) = raise (http_exception http_unauthorized)
required (ok (some user)) = ok user

token_user-required :
    (username : Text) (token : Outcome (Option Text))
    → required (token_user username token) ≡ or_unauthorized username token
unfolding token_user or_unauthorized
token_user-required username (raise e) = refl
token_user-required username (ok none) = refl
token_user-required username (ok (some [])) = refl
token_user-required username (ok (some (c ∷ t))) = refl

complete_user-required :
    (settings : Settings) (db : Option Database) (user : Option AuthenticatedUser)
    → required (complete_user settings db user) ≡ require_user settings db user
unfolding complete_user require_user
complete_user-required settings db none = refl
complete_user-required settings db (some user) =
    if_map required (not (is_empty user.username) && is_empty user.token) _ _ _ _
      (λ _. token_user-required user.username (load_token settings db user.username)) (λ _. refl)

-- The two readers of a session agree: `get_current_user` answers with the user that
-- `get_current_user_optional` answers with, with 401 where that answers with none, and lets through
-- what that lets through.
pub get_current_user-get_current_user_optional :
    (settings : Settings) (db : Option Database) (now : ℕ) (session : Text)
    → get_current_user settings db now session
      ≡ required (get_current_user_optional settings db now session)
unfolding get_current_user get_current_user_optional
get_current_user-get_current_user_optional settings db now session =
    sym (complete_user-required settings db (validate_session settings now session))

validate_session-created :
    (settings : Settings) (signed now : ℕ) (username token : Text)
    → IsSerializer settings.serializer
    → signed ≤ now
    → now ≤ signed + max_age settings
    → validate_session settings now (create_session settings signed username token)
      ≡ some (record { username = username; token = token })
unfolding create_session validate_session
validate_session-created settings signed now username token laws later young =
    read (settings.serializer.dumps signed username token) refl
  where
    read :
        (session : Text)
        → session ≡ settings.serializer.dumps signed username token
        → validate_session settings now session
          ≡ some (record { username = username; token = token })
    read [] e = absurd (laws.dumps_filled signed username token (sym e))
    read (c ∷ t) e = ap session_user (
        ap (settings.serializer.loads now (max_age settings)) e
        ∙ laws.loads_dumps signed now (max_age settings) username token later young)

-- A login that Paperless grants is answered with a session that makes the user the current user, with
-- the token that Paperless gave, until the session's hours have passed. The token is not empty, and the
-- serializer reads what it signed.
pub get_current_user-login :
    (settings : Settings) (db : Option Database) (signed now : ℕ) (username token : Text)
    (answer : Reply)
    → IsSerializer settings.serializer
    → authenticate_with_paperless answer ≡ granted token
    → is_empty token ≡ false
    → signed ≤ now
    → now ≤ signed + max_age settings
    → (session : Text) × (login settings signed username answer ≡ ok session)
      × (get_current_user settings db now session
          ≡ ok (record { username = username; token = token }))
unfolding login answer_login get_current_user require_user
get_current_user-login settings db signed now username token answer laws accepted filled later
      young =
    (
      create_session settings signed username token,
      ap (answer_login settings signed username) accepted,
      ap (require_user settings db)
            (validate_session-created settings signed now username token laws later young)
          ∙ rw filled (ground arith),
    )

abbrev pub is_bad_request : Reply → Bool
is_bad_request unreachable = false
is_bad_request (reply status token) = status == 400

-- A login that is refused is answered with 401 exactly where Paperless answers with 400, and with 502
-- otherwise: no connection, another status, or a body without a token.
pub login-refused :
    (settings : Settings) (now : ℕ) (username : Text) (answer : Reply) (e : Error)
    → login settings now username answer ≡ raise e
    → e ≡ http_exception (if is_bad_request answer then http_unauthorized else http_bad_gateway)
unfolding login answer_login authenticate_with_paperless
login-refused settings now username unreachable e h = cc
login-refused settings now username (reply status none) e h = ground (arith, h)
login-refused settings now username (reply status (some token)) e h = ground (arith, h)
