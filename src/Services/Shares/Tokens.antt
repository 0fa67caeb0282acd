-- ===== src/Services/Shares/Tokens.antt =====
-- The tokens that the share service keeps for the users.
use mathlib.Core.Path.{subst}
use paperless_webdav.Base.{
  ℕ, ◌≡◌, sym, ap, ◌∙◌, some, List, nat_eq, list_eq, arith, In, find_key, In-map, length, Text,
}
use paperless_webdav.Outcome.{ok}
use paperless_webdav.Services.Encryption.{
  Crypto, IsCrypto, nonce_size, token_encryption, encrypt, decrypt-encrypt,
}
use paperless_webdav.Services.Shares.{
  User, Database, get_or_create_user, set_token, keep_token, store_user_token, read_token, token_of,
  get_user_token,
}
use paperless_webdav.Services.Shares.Consistency.{
  IsConsistent, IsNewUser, get_or_create_user-Got, stores, change-IsConsistent, external_id,
}

module _ (crypto : Crypto) (nonce key : List ℕ) (username token encryption_key : Text)
    (laws : IsCrypto crypto) (sized : length nonce ≡ nonce_size)
    (valid : token_encryption crypto encryption_key ≡ ok key) where
  abbrev encrypted : List ℕ
  encrypted = encrypt crypto key nonce token

  keep_token-kept :
      (user : User) (db : Database)
      → IsConsistent (keep_token crypto nonce token user db (ok key)).1
      → In user db.users
      → user.external_id ≡ username
      → get_user_token crypto username encryption_key
          (keep_token crypto nonce token user db (ok key)).1
        ≡ ok (some token)
  unfolding get_user_token keep_token token_of read_token
  keep_token-kept user db c m named =
      let found =
        find_key external_id username (set_token user.id encrypted user) _ c.external_ids
          (In-map (set_token user.id encrypted) user db.users m) (ground (arith, named)) in
      ap (token_of crypto (token_encryption crypto encryption_key)) found
      ∙ ap (λ k. token_of crypto k (some (set_token user.id encrypted user))) valid
      ∙ ground (arith, decrypt-encrypt crypto key nonce token laws sized)

-- A token that was stored for a user under a valid key is what is read for the user under that key.
-- The nonce is of 12 bytes, and decryption undoes encryption.
pub get_user_token-store_user_token :
    (crypto : Crypto) (nonce key : List ℕ) (new_user_id : ℕ) (username token encryption_key : Text)
    (db : Database)
    → IsCrypto crypto
    → length nonce ≡ nonce_size
    → token_encryption crypto encryption_key ≡ ok key
    → IsConsistent db
    → IsNewUser new_user_id db
    → get_user_token crypto username encryption_key
        (store_user_token crypto nonce new_user_id username token encryption_key db).1
      ≡ ok (some token)
unfolding store_user_token
get_user_token-store_user_token crypto nonce key new_user_id username token encryption_key db laws
      sized valid c new =
    let got = get_or_create_user-Got new_user_id username db c new in
    let db' =
      change-IsConsistent (stores crypto nonce new_user_id username token encryption_key) db c
        new in
    subst
      (λ k.
        IsConsistent
          (keep_token crypto nonce token (get_or_create_user new_user_id username db).0
            (get_or_create_user new_user_id username db).1 k).1
        → get_user_token crypto username encryption_key
            (keep_token crypto nonce token (get_or_create_user new_user_id username db).0
              (get_or_create_user new_user_id username db).1 k).1
          ≡ ok (some token))
      (sym valid)
      (λ c'.
        keep_token-kept crypto nonce key username token encryption_key laws sized valid _ _ c'
          got.present got.named)
      db'
