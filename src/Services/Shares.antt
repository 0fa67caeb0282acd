-- ===== src/Services/Shares.antt =====
-- The share service of src/paperless_webdav/services/shares.py, over the tables of users and of
-- shares of src/paperless_webdav/models.py. The columns `created_at` and `updated_at`, which nothing
-- reads, are left out. `external_id`, `name` and the ids are unique columns: a query for one row takes
-- the first, and an insert of a name that is taken raises. A new id is an argument, as are the nonces.
pub mod Consistency
pub mod Access
pub mod Lifecycle
pub mod Creation
pub mod Tokens
use paperless_webdav.Base.{
  ℕ, zero, suc, ◌≡◌, Bool, true, false, not, ◌||◌, ◌&&◌, Option, none, some, List, [], ◌∷◌, ◌++◌,
  map, if◌then◌else◌, Eq, ◌==◌, nat_eq, list_eq, option_eq, select, find, contains, any, leb,
  length, Text,
}
use paperless_webdav.Outcome.{Outcome, ok, raise, value_error, integrity_error}
use paperless_webdav.Services.Encryption.{Crypto, token_encryption, encrypt, decrypt}

pub record User : Type 0 where
  pub id : ℕ
  pub external_id : Text
  pub paperless_token_encrypted : Option (List ℕ)

pub record ShareRow : Type 0 where
  pub id : ℕ
  pub name : Text
  pub owner_id : ℕ
  pub include_tags : List Text
  pub exclude_tags : List Text
  pub expires_at : Option ℕ
  pub done_folder_enabled : Bool
  pub done_folder_name : Text
  pub done_tag : Option Text
  pub allowed_users : List Text

pub record Database : Type 0 where
  pub users : List User
  pub shares : List ShareRow

abbrev pub user_by_external_id : Text → Database → Option User
user_by_external_id username db = find (λ user. user.external_id == username) db.users

abbrev pub user_by_id : ℕ → Database → Option User
user_by_id id db = find (λ user. user.id == id) db.users

abbrev pub share_by_name : Text → Database → Option ShareRow
share_by_name name db = find (λ share. share.name == name) db.shares

abbrev pub new_user : ℕ → Text → User
new_user new_id external_id = record {
  id = new_id;
  external_id = external_id;
  paperless_token_encrypted = none;
}

unfoldable pub get_or_create_user : ℕ → Text → Database → User × Database
unfolding find
get_or_create_user new_id external_id db = elim (user_by_external_id external_id db) [
  | some user ↦ (user, db)
  | none ↦ (
    new_user new_id external_id,
    record db { users = db.users ++ (new_user new_id external_id ∷ []) },
  )
]

-- `_get_owner_external_id`
unfoldable pub get_owner_external_id : Database → ℕ → Option Text
unfolding find
get_owner_external_id db owner_id = elim (user_by_id owner_id db) [
  | none ↦ none
  | some user ↦ some user.external_id
]

unfoldable pub is_share_owner : Database → ShareRow → Text → Bool
unfolding get_owner_external_id
is_share_owner db share username = get_owner_external_id db share.owner_id == some username

-- The query for the shares of a user, or of a name without a user.
unfoldable pub select_shares : List ShareRow → Text → Option User → List ShareRow
unfolding select contains
select_shares shares username none = select (λ share. contains username share.allowed_users) shares
select_shares shares username (some user) =
    select (λ share. (share.owner_id == user.id) || contains username share.allowed_users) shares

unfoldable pub get_user_shares : Database → Text → List ShareRow
unfolding find select_shares
get_user_shares db username = select_shares db.shares username (user_by_external_id username db)

unfoldable pub if_accessible : Database → Text → Option ShareRow → Option ShareRow
unfolding is_share_owner contains
if_accessible db username none = none
if_accessible db username (some share) =
    if is_share_owner db share username
    then some share
    else if contains username share.allowed_users
    then some share
    else none

unfoldable pub get_share_by_name : Database → Text → Text → Option ShareRow
unfolding find if_accessible
get_share_by_name db name username = if_accessible db username (share_by_name name db)

-- `SHARE_NAME_PATTERN`: one letter or digit, and up to 62 letters, digits and dashes; `$` also
-- matches before a line feed at the end.
abbrev pub is_alphanumeric : ℕ → Bool
is_alphanumeric c =
    (leb b'a' c && leb c b'z') || ((leb b'A' c && leb c b'Z') || (leb b'0' c && leb c b'9'))

unfoldable pub matches_rest : ℕ → Text → Bool
matches_rest left [] = true
matches_rest left (c ∷ []) = (c == 10) || (leb 1 left && (is_alphanumeric c || (c == b'-')))
matches_rest zero (c ∷ d ∷ t) = false
matches_rest (suc left) (c ∷ d ∷ t) =
    let rest = matches_rest left (d ∷ t) in (is_alphanumeric c || (c == b'-')) && rest

unfoldable pub matches_share_name : Text → Bool
unfolding matches_rest
matches_share_name [] = false
matches_share_name (c ∷ t) = is_alphanumeric c && matches_rest 62 t

pub record ShareCreate : Type 0 where
  pub name : Text
  pub include_tags : List Text
  pub exclude_tags : List Text
  pub expires_at : Option ℕ
  pub done_folder_enabled : Bool
  pub done_folder_name : Text
  pub done_tag : Option Text
  pub allowed_users : List Text

abbrev pub new_share : ℕ → ℕ → ShareCreate → ShareRow
new_share new_id owner_id share_data = record {
  id = new_id;
  name = share_data.name;
  owner_id = owner_id;
  include_tags = share_data.include_tags;
  exclude_tags = share_data.exclude_tags;
  expires_at = share_data.expires_at;
  done_folder_enabled = share_data.done_folder_enabled;
  done_folder_name = share_data.done_folder_name;
  done_tag = share_data.done_tag;
  allowed_users = share_data.allowed_users;
}

-- The insert and its commit, which refuses a name that is taken.
unfoldable pub insert_share : ShareRow → Database → Outcome ShareRow × Database
unfolding any
insert_share share db =
    if any (λ other. other.name == share.name) db.shares
    then (raise integrity_error, db)
    else (ok share, record db { shares = db.shares ++ (share ∷ []) })

-- `Share(...)`, which runs `validate_name`, and the commit
unfoldable pub add_share : ShareRow → Database → Outcome ShareRow × Database
unfolding matches_share_name insert_share
add_share share db =
    if matches_share_name share.name then insert_share share db else (raise value_error, db)

unfoldable pub create_share : ℕ → ℕ → Text → ShareCreate → Database → Outcome ShareRow × Database
unfolding get_or_create_user add_share
create_share new_user_id new_id username share_data db =
    let (user, db') = get_or_create_user new_user_id username db in
    add_share (new_share new_id user.id share_data) db'

-- A field of `ShareUpdate`: left out of the request, or given. A null for a column that is required,
-- which the database refuses, is left out.
pub data FieldUpdate (A : Type 0) : Type 0 where
  unset : FieldUpdate A
  given : A → FieldUpdate A

abbrev pub updated : {A : Type 0} → FieldUpdate A → A → A
updated unset old = old
updated (given value) old = value

pub record ShareUpdate : Type 0 where
  pub include_tags : FieldUpdate (List Text)
  pub exclude_tags : FieldUpdate (List Text)
  pub expires_at : FieldUpdate (Option ℕ)
  pub done_folder_enabled : FieldUpdate Bool
  pub done_folder_name : FieldUpdate Text
  pub done_tag : FieldUpdate (Option Text)
  pub allowed_users : FieldUpdate (List Text)

-- `setattr` for each field that is given
abbrev pub apply_update : ShareUpdate → ShareRow → ShareRow
apply_update u share = record share {
  include_tags = updated u.include_tags share.include_tags;
  exclude_tags = updated u.exclude_tags share.exclude_tags;
  expires_at = updated u.expires_at share.expires_at;
  done_folder_enabled = updated u.done_folder_enabled share.done_folder_enabled;
  done_folder_name = updated u.done_folder_name share.done_folder_name;
  done_tag = updated u.done_tag share.done_tag;
  allowed_users = updated u.allowed_users share.allowed_users;
}

-- To change the rows with an id.
abbrev pub change_share : ℕ → (ShareRow → ShareRow) → ShareRow → ShareRow
change_share id f share = if share.id == id then f share else share

unfoldable pub update_share : ℕ → ShareUpdate → Database → Option ShareRow × Database
unfolding find
update_share share_id share_data db = elim (find (λ share. share.id == share_id) db.shares) [
  | none ↦ (none, db)
  | some share ↦ (
    some (apply_update share_data share),
    record db { shares = map (change_share share_id (apply_update share_data)) db.shares },
  )
]

delete_owned : ℕ → Option ShareRow → Database → Bool × Database
unfolding select
delete_owned user_id none db = (false, db)
delete_owned user_id (some share) db =
    if share.owner_id == user_id
    then (true, record db { shares = select (λ other. not (other.id == share.id)) db.shares })
    else (false, db)

delete_as : Text → Database → Option User → Bool × Database
unfolding find delete_owned
delete_as name db none = (false, db)
delete_as name db (some user) = delete_owned user.id (share_by_name name db) db

unfoldable pub delete_share : Text → Text → Database → Bool × Database
unfolding find delete_as
delete_share name username db = delete_as name db (user_by_external_id username db)

abbrev pub set_token : ℕ → List ℕ → User → User
set_token id encrypted user =
    if user.id == id then record user { paperless_token_encrypted = some encrypted } else user

keep_token :
    Crypto → List ℕ → Text → User → Database → Outcome (List ℕ) → Outcome (Unit {0}) × Database
unfolding encrypt
keep_token crypto nonce plain_token user db (raise e) = (raise e, db)
keep_token crypto nonce plain_token user db (ok key) = (
  ok tt,
  record db { users = map (set_token user.id (encrypt crypto key nonce plain_token)) db.users },
)

unfoldable pub store_user_token :
    Crypto → List ℕ → ℕ → Text → Text → Text → Database → Outcome (Unit {0}) × Database
unfolding get_or_create_user keep_token token_encryption
store_user_token crypto nonce new_user_id username plain_token encryption_key db =
    let (user, db') = get_or_create_user new_user_id username db in
    keep_token crypto nonce plain_token user db' (token_encryption crypto encryption_key)

abbrev pub some_token : Outcome Text → Outcome (Option Text)
some_token (raise e) = raise e
some_token (ok token) = ok (some token)

unfoldable pub read_token : Crypto → Option (List ℕ) → Outcome (List ℕ) → Outcome (Option Text)
unfolding decrypt
read_token crypto none key = ok none
read_token crypto (some encrypted) (raise e) = raise e
read_token crypto (some encrypted) (ok key) = some_token (decrypt crypto key encrypted)

unfoldable pub token_of : Crypto → Outcome (List ℕ) → Option User → Outcome (Option Text)
unfolding read_token
token_of crypto key none = ok none
token_of crypto key (some user) = read_token crypto user.paperless_token_encrypted key

unfoldable pub get_user_token : Crypto → Text → Text → Database → Outcome (Option Text)
unfolding find token_of token_encryption
get_user_token crypto username encryption_key db =
    token_of crypto (token_encryption crypto encryption_key) (user_by_external_id username db)
