-- ===== src/Tests/Ui.antt =====
-- The forms of the web pages at concrete states.
use paperless_webdav.Base.{
  ℕ, ◌≡◌, ◌≢◌, refl, Bool, true, false, Option, none, some, List, [], ◌∷◌, nat_eq, ℕ_discrete,
  list_eq, option_eq, find, contains, codes, Text, arith, strip,
}
use paperless_webdav.Outcome.{Outcome, ok, raise, http_exception, http_forbidden}
use paperless_webdav.Services.Encryption.{token_encryption}
use paperless_webdav.Services.Shares.{apply_update, share_by_name, is_share_owner, Database}
use paperless_webdav.Api.Shares.{ShareRequest, update_share_endpoint}
use paperless_webdav.Auth.Paperless.{AuthenticatedUser, Settings}
use paperless_webdav.Auth.Webdav.{Authenticator, Backends, authenticate}
use paperless_webdav.Ui.Routes.{
  share_update, parse_share_form_data, edit_share_submit, delete_share_handler, bare,
  token_setup_submit,
}
use paperless_webdav.Ui.Routes.Edits.{edit_share_submit-unowned}
use paperless_webdav.Ui.Routes.Tokens.{authenticate-token_setup_submit}
use paperless_webdav.Tests.Shares.{
  tax, a_database, a_database-IsConsistent, three_is_new, carl_finds, plain_crypto,
  plain_crypto-IsCrypto, key_32, nonce_12,
}
use paperless_webdav.Tests.Auth.{framing, backends, by_ldap}

abbrev no_time : Text → Option ℕ
no_time t = none

-- Two tags, the done folder ticked and its name left empty.
abbrev sent_form : List (Text × Text)
sent_form =
    (codes "include_tags", codes "tax")
    ∷ (codes "include_tags", codes "bills")
    ∷ (codes "done_folder_enabled", codes "on")
    ∷ (codes "done_folder_name", [])
    ∷ (codes "done_tag", codes "read")
    ∷ (codes "allowed_users", codes "carl")
    ∷ []

abbrev read_form : ShareRequest
read_form = record {
  name = [];
  include_tags = some (codes "tax" ∷ codes "bills" ∷ []);
  exclude_tags = [];
  expires_at = none;
  done_folder_enabled = true;
  done_folder_name = codes "done";
  done_tag = some (codes "read");
  allowed_users = codes "carl" ∷ [];
}

form_read : parse_share_form_data no_time sent_form ≡ read_form
unfolding parse_share_form_data contains nat_eq list_eq ℕ_discrete
form_read = refl

abbrev carl : AuthenticatedUser
carl = record { username = codes "carl"; token = codes "tok" }

carl_not_owner : is_share_owner a_database tax (codes "carl") ≡ false
unfolding is_share_owner find nat_eq list_eq option_eq ℕ_discrete
carl_not_owner = refl

edit_share_submit-unowned_example :
    (update_share_endpoint (codes "tax") (codes "carl") (share_update read_form) a_database
      ≡ (raise (http_exception http_forbidden), a_database))
    × (share_by_name
          (codes "tax")
          (edit_share_submit (codes "tax") (some carl) read_form a_database).1
        ≡ some (apply_update (share_update read_form) tax))
edit_share_submit-unowned_example =
    edit_share_submit-unowned a_database a_database-IsConsistent (codes "tax") carl tax read_form
      carl_finds carl_not_owner

delete_refused : delete_share_handler (codes "tax") (some carl) a_database ≡ (bare 404, a_database)
unfolding delete_share_handler find nat_eq list_eq ℕ_discrete
delete_refused = refl

abbrev keyed_settings : Settings
keyed_settings = record {
  serializer = framing;
  session_expiry_hours = 24;
  crypto = plain_crypto;
  encryption_key = key_32;
}

abbrev accepts_token : Text → Outcome Bool
accepts_token token = ok true

abbrev after_setup : Database
after_setup =
    (token_setup_submit keyed_settings accepts_token nonce_12 3 50 (some carl) (codes "api")
      a_database).1

abbrev closed_ldap : Authenticator
closed_ldap = record by_ldap { encryption_key = some key_32 }

abbrev with_tokens : Backends
with_tokens = record backends { crypto = plain_crypto; database = some after_setup }

key_32_valid : token_encryption plain_crypto key_32 ≡ ok key_32
unfolding token_encryption nat_eq ℕ_discrete
key_32_valid = refl

api_filled : strip (codes "api") ≢ []
unfolding strip contains nat_eq ℕ_discrete
api_filled e = ground (arith, e)

authenticate-token_setup_submit_example :
    authenticate closed_ldap with_tokens (codes "carl") (codes "api") ≡ some (codes "api")
authenticate-token_setup_submit_example =
    authenticate-token_setup_submit keyed_settings accepts_token nonce_12 key_32 3 50 carl
      (codes "api") a_database closed_ldap with_tokens plain_crypto-IsCrypto refl key_32_valid
      a_database-IsConsistent three_is_new api_filled refl refl refl refl refl
