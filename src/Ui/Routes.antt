-- ===== src/Ui/Routes.antt =====
-- The pages and forms of src/paperless_webdav/ui/routes.py. A page is what its template is given; the
-- text of a validation error is left out. `user` is what get_current_user_optional or get_session_user
-- answers, a form is its fields in order, and `fromisoformat` is that of datetime. A ShareUpdate of a
-- form has a value of the right type in each field, so it is always valid.
pub mod Edits
pub mod Tokens
use paperless_webdav.Base.{
  ℕ, ◌≡◌, Bool, true, false, Option, none, some, List, [], ◌∷◌, map, if◌then◌else◌, Eq, ◌==◌,
  nat_eq, list_eq, contains, select, Text, codes, strip,
}
use paperless_webdav.Outcome.{Error, Outcome, ok, raise}
use paperless_webdav.Services.Shares.{
  ShareRow, Database, ShareCreate, ShareUpdate, given, get_user_shares, get_share_by_name,
  create_share, update_share, delete_share, store_user_token,
}
use paperless_webdav.Api.Shares.{ShareRequest, validate_share_create}
use paperless_webdav.Auth.Paperless.{
  LoginError, Reply, TokenAnswer, granted, denied, authenticate_with_paperless, AuthenticatedUser,
  Settings, create_session, validate_session,
}

pub data FormError : Type 0 where
  not_valid : FormError
  failed : Error → FormError

pub data TokenError : Type 0 where
  token_missing no_connection token_invalid : TokenError

pub data Page : Type 0 where
  -- A redirect with status 303, and the session cookie that it sets.
  redirect : Text → Option Text → Page
  login_form : Option LoginError → Page
  shares_page : List ShareRow → Text → Page
  share_form : Option ShareRow → Text → Option FormError → Page
  token_form : Option TokenError → Page
  -- No content, with a status.
  bare : ℕ → Page

abbrev pub to_login : Page
to_login = redirect (codes "/ui/login") none

abbrev pub to_shares : Page
to_shares = redirect (codes "/ui/shares") none

login_answered : Settings → ℕ → Text → TokenAnswer → Page
unfolding create_session
login_answered settings now username (denied e) = login_form (some e)
login_answered settings now username (granted token) =
    redirect (codes "/ui/shares") (some (create_session settings now username token))

unfoldable pub login_submit : Settings → ℕ → Text → Reply → Page
unfolding login_answered authenticate_with_paperless
login_submit settings now username answer =
    login_answered settings now username (authenticate_with_paperless answer)

unfoldable pub shares_list : Option AuthenticatedUser → Database → Page
unfolding get_user_shares
shares_list none db = to_login
shares_list (some user) db = shares_page (get_user_shares db user.username) user.username

unfoldable pub create_share_page : Option AuthenticatedUser → Page
create_share_page none = to_login
create_share_page (some user) = share_form none user.username none

-- `form.getlist(key)`
unfoldable pub getlist : Text → List (Text × Text) → List Text
unfolding select
getlist key form = map (λ (entry : Text × Text). entry.1) (select (λ entry. entry.0 == key) form)

-- `form.get(key, default)`, which takes the last value
abbrev last_or : Text → List Text → Text
last_or default [] = default
last_or default (value ∷ []) = value
last_or default (value ∷ next ∷ values) = last_or default (next ∷ values)

-- `form.get(key, default) or default`
abbrev filled_or : Text → Text → Text
filled_or default [] = default
filled_or default (c ∷ t) = c ∷ t

-- `expires_at` of the form, left out where it is empty or no time
abbrev expiry_of : (Text → Option ℕ) → Text → Option ℕ
expiry_of fromisoformat [] = none
expiry_of fromisoformat (c ∷ t) = fromisoformat (c ∷ t)

-- `done_tag_values[0] if done_tag_values else None`
abbrev first_of : List Text → Option Text
first_of [] = none
first_of (value ∷ values) = some value

unfoldable pub parse_share_form_data : (Text → Option ℕ) → List (Text × Text) → ShareRequest
unfolding getlist contains
parse_share_form_data fromisoformat form = record {
  name = last_or [] (getlist (codes "name") form);
  include_tags = some (getlist (codes "include_tags") form);
  exclude_tags = getlist (codes "exclude_tags") form;
  expires_at = expiry_of fromisoformat (last_or [] (getlist (codes "expires_at") form));
  done_folder_enabled =
      contains (codes "done_folder_enabled") (map (λ (entry : Text × Text). entry.0) form);
  done_folder_name =
      filled_or (codes "done") (last_or (codes "done") (getlist (codes "done_folder_name") form));
  done_tag = first_of (getlist (codes "done_tag") form);
  allowed_users = getlist (codes "allowed_users") form;
}

abbrev created_page : AuthenticatedUser → Outcome ShareRow → Page
created_page user (raise e) = share_form none user.username (some (failed e))
created_page user (ok share) = to_shares

create_valid : ℕ → ℕ → AuthenticatedUser → Outcome ShareCreate → Database → Page × Database
unfolding create_share
create_valid new_user_id new_id user (raise e) db =
    (share_form none user.username (some not_valid), db)
create_valid new_user_id new_id user (ok share_data) db =
    let (answer, db') = create_share new_user_id new_id user.username share_data db in
    (created_page user answer, db')

unfoldable pub create_share_submit :
    ℕ → ℕ → Option AuthenticatedUser → ShareRequest → Database → Page × Database
unfolding create_valid validate_share_create
create_share_submit new_user_id new_id none form_data db = (to_login, db)
create_share_submit new_user_id new_id (some user) form_data db =
    create_valid new_user_id new_id user (validate_share_create form_data) db

abbrev pub tags_given : Option (List Text) → List Text
tags_given none = []
tags_given (some tags) = tags

-- `ShareUpdate(**form_data)`, without the name
abbrev pub share_update : ShareRequest → ShareUpdate
share_update form_data = record {
  include_tags = given (tags_given form_data.include_tags);
  exclude_tags = given form_data.exclude_tags;
  expires_at = given form_data.expires_at;
  done_folder_enabled = given form_data.done_folder_enabled;
  done_folder_name = given form_data.done_folder_name;
  done_tag = given form_data.done_tag;
  allowed_users = given form_data.allowed_users;
}

edit_found : ShareRequest → Option ShareRow → Database → Page × Database
unfolding update_share
edit_found form_data none db = (to_shares, db)
edit_found form_data (some share) db =
    let (answer, db') = update_share share.id (share_update form_data) db in (to_shares, db')

unfoldable pub edit_share_submit :
    Text → Option AuthenticatedUser → ShareRequest → Database → Page × Database
unfolding edit_found get_share_by_name
edit_share_submit name none form_data db = (to_login, db)
edit_share_submit name (some user) form_data db =
    edit_found form_data (get_share_by_name db name user.username) db

abbrev edit_page : AuthenticatedUser → Option ShareRow → Page
edit_page user none = to_shares
edit_page user (some share) = share_form (some share) user.username none

unfoldable pub edit_share_page : Text → Option AuthenticatedUser → Database → Page
unfolding get_share_by_name
edit_share_page name none db = to_login
edit_share_page name (some user) db = edit_page user (get_share_by_name db name user.username)

unfoldable pub delete_share_handler : Text → Option AuthenticatedUser → Database → Page × Database
unfolding delete_share
delete_share_handler name none db = (bare 404, db)
delete_share_handler name (some user) db =
    let (deleted, db') = delete_share name user.username db in
    (if deleted then bare 200 else bare 404, db')

abbrev pub logout : Page
logout = redirect (codes "/ui/login") (some [])

abbrev pub token_setup_page : Option AuthenticatedUser → Page
token_setup_page none = to_login
token_setup_page (some user) = token_form none

stored_page : Settings → ℕ → Text → Text → Outcome (Unit {0}) → Outcome Page
unfolding create_session
stored_page settings now username token (raise e) = raise e
stored_page settings now username token (ok done) =
    ok (redirect (codes "/ui/shares") (some (create_session settings now username token)))

-- Past the check of the token by Paperless.
keep_valid :
    Settings → List ℕ → ℕ → ℕ → Text → Text → Outcome Bool → Database → Outcome Page × Database
unfolding stored_page store_user_token
keep_valid settings nonce new_user_id now username token (raise e) db =
    (ok (token_form (some no_connection)), db)
keep_valid settings nonce new_user_id now username token (ok false) db =
    (ok (token_form (some token_invalid)), db)
keep_valid settings nonce new_user_id now username token (ok true) db =
    let (stored, db') =
      store_user_token settings.crypto nonce new_user_id username token settings.encryption_key
        db in
    (stored_page settings now username token stored, db')

unfoldable pub token_setup_submit :
    Settings
    → (Text → Outcome Bool)
    → List ℕ
    → ℕ
    → ℕ
    → Option AuthenticatedUser
    → Text
    → Database
    → Outcome Page × Database
unfolding keep_valid strip
token_setup_submit settings validate_token nonce new_user_id now none token db = (ok to_login, db)
token_setup_submit settings validate_token nonce new_user_id now (some user) token db =
    if strip token == []
    then (ok (token_form (some token_missing)), db)
    else keep_valid settings nonce new_user_id now user.username token (validate_token token) db
