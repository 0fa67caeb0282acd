-- ===== src/Tests/Shares.antt =====
-- The share service and its endpoints at a concrete database.
use paperless_webdav.Base.{
  ℕ, ◌≡◌, ◌≢◌, ◌↔◌, refl, true, false, inl, inr, none, some, List, [], ◌∷◌, nat_eq, ℕ_discrete,
  list_eq, option_eq, find, contains, In, codes, Text, arith,
}
use paperless_webdav.Outcome.{ok}
use paperless_webdav.Services.Encryption.{Crypto, IsCrypto, token_encryption}
use paperless_webdav.Services.Shares.{
  User, ShareRow, Database, ShareCreate, ShareUpdate, unset, given, matches_share_name,
  get_user_shares, get_share_by_name, create_share, delete_share, store_user_token, get_user_token,
}
use paperless_webdav.Services.Shares.Consistency.{
  IsConsistent, IsNewUser, IsNewShare, creates, change, change-IsConsistent,
}
use paperless_webdav.Services.Shares.Access.{get_share_by_name-get_user_shares}
use paperless_webdav.Services.Shares.Lifecycle.{DeleteTells, delete_share-DeleteTells}
use paperless_webdav.Services.Shares.Creation.{CreateTells, create_share-CreateTells}
use paperless_webdav.Services.Shares.Tokens.{get_user_token-store_user_token}
use paperless_webdav.Api.Shares.{create_share_endpoint, update_share_endpoint}
use paperless_webdav.Api.Shares.Conflicts.{RefusedAs, create_share_endpoint-RefusedAs}
use paperless_webdav.Api.Shares.Updates.{UpdateTells, update_share_endpoint-UpdateTells}

abbrev ann : User
ann = record { id = 1; external_id = codes "ann"; paperless_token_encrypted = none }

abbrev bob : User
bob = record { id = 2; external_id = codes "bob"; paperless_token_encrypted = none }

abbrev pub tax : ShareRow
tax = record {
  id = 5;
  name = codes "tax";
  owner_id = 1;
  include_tags = codes "tax" ∷ [];
  exclude_tags = [];
  expires_at = none;
  done_folder_enabled = false;
  done_folder_name = codes "done";
  done_tag = none;
  allowed_users = codes "carl" ∷ [];
}

abbrev pub a_database : Database
a_database = record { users = ann ∷ bob ∷ []; shares = tax ∷ [] }

tax-owned :
    (share : ShareRow)
    → In share a_database.shares
    → (user : User) × In user a_database.users × (share.owner_id ≡ user.id)
tax-owned share (inl e) = (ann, inl refl, ground (arith, e))
tax-owned share (inr m) = absurd m

differ : ann.external_id ≢ bob.external_id
differ e = ground (arith, e)

pub a_database-IsConsistent : IsConsistent a_database
a_database-IsConsistent = record {
  user_ids = ((omega arith, tt), (tt, tt));
  external_ids = ((differ, tt), (tt, tt));
  share_ids = (tt, tt);
  names = (tt, tt);
  owned = tax-owned;
}

pub three_is_new : IsNewUser 3 a_database
three_is_new user (inl e) = ground (arith, e)
three_is_new user (inr (inl e)) = ground (arith, e)
three_is_new user (inr (inr m)) = absurd m

six_is_new : IsNewShare 6 a_database
six_is_new share (inl e) = ground (arith, e)
six_is_new share (inr m) = absurd m

abbrev request : Text → ShareCreate
request name = record {
  name = name;
  include_tags = codes "bills" ∷ [];
  exclude_tags = [];
  expires_at = none;
  done_folder_enabled = false;
  done_folder_name = codes "done";
  done_tag = none;
  allowed_users = [];
}

pub carl_finds : get_share_by_name a_database (codes "tax") (codes "carl") ≡ some tax
unfolding get_share_by_name find contains nat_eq list_eq option_eq ℕ_discrete
carl_finds = refl

bob_finds_none : get_share_by_name a_database (codes "tax") (codes "bob") ≡ none
unfolding get_share_by_name find contains nat_eq list_eq option_eq ℕ_discrete
bob_finds_none = refl

names_tested :
    (matches_share_name (codes "tax-24") ≡ true) × (matches_share_name (codes "-tax") ≡ false)
unfolding matches_share_name nat_eq ℕ_discrete
names_tested = (refl, refl)

-- A line feed at the end passes.
line_feed_passes : matches_share_name (116 ∷ 10 ∷ []) ≡ true
unfolding matches_share_name nat_eq ℕ_discrete
line_feed_passes = refl

change-IsConsistent_example :
    IsConsistent (change (creates 3 6 (codes "dora") (request (codes "bills"))) a_database)
change-IsConsistent_example =
    change-IsConsistent (creates 3 6 (codes "dora") (request (codes "bills"))) a_database
      a_database-IsConsistent (three_is_new, six_is_new)

get_share_by_name-get_user_shares_example :
    (get_share_by_name a_database (codes "tax") (codes "carl") ≡ some tax)
    ↔ (In tax (get_user_shares a_database (codes "carl")) × (tax.name ≡ codes "tax"))
get_share_by_name-get_user_shares_example =
    get_share_by_name-get_user_shares a_database a_database-IsConsistent (codes "carl")
      (codes "tax") tax

delete_share-DeleteTells_example :
    DeleteTells
      (codes "tax")
      (codes "ann")
      a_database
      (delete_share (codes "tax") (codes "ann") a_database)
delete_share-DeleteTells_example =
    delete_share-DeleteTells (codes "tax") (codes "ann") a_database a_database-IsConsistent

create_share-CreateTells_example :
    CreateTells 6
      (codes "dora")
      (request (codes "bills"))
      a_database
      (create_share 3 6 (codes "dora") (request (codes "bills")) a_database)
create_share-CreateTells_example =
    create_share-CreateTells 3 6 (codes "dora") (request (codes "bills")) a_database
      a_database-IsConsistent three_is_new six_is_new

tax_valid : matches_share_name (codes "tax") ≡ true
unfolding matches_share_name nat_eq ℕ_discrete
tax_valid = refl

create_share_endpoint-RefusedAs_example :
    RefusedAs
      (codes "tax")
      (codes "bob")
      a_database
      (create_share_endpoint 3 6 (codes "bob") (request (codes "tax")) a_database)
create_share_endpoint-RefusedAs_example =
    create_share_endpoint-RefusedAs 3 6 (codes "bob") (request (codes "tax")) a_database
      a_database-IsConsistent three_is_new six_is_new tax_valid (tax, inl refl, refl)

abbrev renamed_folder : ShareUpdate
renamed_folder = record {
  include_tags = unset;
  exclude_tags = unset;
  expires_at = given (some 100);
  done_folder_enabled = unset;
  done_folder_name = given (codes "read");
  done_tag = unset;
  allowed_users = unset;
}

update_share_endpoint-UpdateTells_example :
    UpdateTells
      (codes "tax")
      (codes "ann")
      renamed_folder
      a_database
      (update_share_endpoint (codes "tax") (codes "ann") renamed_folder a_database)
update_share_endpoint-UpdateTells_example =
    update_share_endpoint-UpdateTells (codes "tax") (codes "ann") renamed_folder a_database
      a_database-IsConsistent

-- A cipher that adds nothing, for a key of 32 bytes.
abbrev pub plain_crypto : Crypto
plain_crypto = record {
  b64decode = λ key. ok key;
  seal = λ key nonce plain. plain;
  unseal = λ key nonce sealed. ok sealed;
  utf8_encode = λ t. t;
  utf8_decode = λ bytes. ok bytes;
}

pub plain_crypto-IsCrypto : IsCrypto plain_crypto
plain_crypto-IsCrypto = record { unsealed = λ key nonce plain. refl; decoded = λ t. refl }

abbrev pub key_32 : Text
key_32 = codes "0123456789abcdef0123456789abcdef"

abbrev pub nonce_12 : List ℕ
nonce_12 = codes "abcdefghijkl"

key_32_valid : token_encryption plain_crypto key_32 ≡ ok key_32
unfolding token_encryption nat_eq ℕ_discrete
key_32_valid = refl

get_user_token-store_user_token_example :
    get_user_token plain_crypto
      (codes "bob")
      key_32
      (store_user_token plain_crypto nonce_12 3 (codes "bob") (codes "tok") key_32 a_database).1
    ≡ ok (some (codes "tok"))
get_user_token-store_user_token_example =
    get_user_token-store_user_token plain_crypto nonce_12 key_32 3 (codes "bob") (codes "tok")
      key_32 a_database plain_crypto-IsCrypto refl key_32_valid a_database-IsConsistent three_is_new
