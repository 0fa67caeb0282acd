-- ===== src/Auth/Webdav/Stored.antt =====
-- The stored token that the WebDAV login reads is the one that the share service keeps.
use paperless_webdav.Base.{
  ℕ, ◌≡◌, ap, ◌∙◌, true, Option, none, some, List, nat_eq, list_eq, arith, Text,
}
use paperless_webdav.Outcome.{Outcome, ok, raise}
use paperless_webdav.Services.Encryption.{Crypto, token_encryption, decrypt}
use paperless_webdav.Services.Shares.{
  User, Database, user_by_external_id, some_token, read_token, token_of, get_user_token,
}
use paperless_webdav.Provider.Moves.{filled}
use paperless_webdav.Auth.Webdav.{
  Authenticator, Backends, decrypted, decrypt_token, stored_token, token_of_user, token_with,
  load_token_from_db, authenticate_oidc, authenticate,
}

module _ (crypto : Crypto) (encryption_key token : Text) where
  decrypted-some :
      (answer : Outcome Text) → some_token answer ≡ ok (some token) → decrypted answer ≡ some token
  decrypted-some (raise e) h = absurd (ground (arith, h))
  decrypted-some (ok t) h = ground (arith, h)

  decrypt_token-some :
      (encrypted : List ℕ) (key : Outcome (List ℕ))
      → read_token crypto (some encrypted) key ≡ ok (some token)
      → decrypt_token crypto encrypted key ≡ some token
  unfolding read_token decrypt_token
  decrypt_token-some encrypted (raise e) h = absurd (ground (arith, h))
  decrypt_token-some encrypted (ok key) h = decrypted-some (decrypt crypto key encrypted) h

  stored_token-some :
      (stored : Option (List ℕ))
      → read_token crypto stored (token_encryption crypto encryption_key) ≡ ok (some token)
      → stored_token crypto encryption_key stored ≡ some token
  unfolding read_token stored_token
  stored_token-some none h = absurd (ground (arith, h))
  stored_token-some (some encrypted) h =
      decrypt_token-some encrypted (token_encryption crypto encryption_key) h

  token_of_user-some :
      (found : Option User)
      → token_of crypto (token_encryption crypto encryption_key) found ≡ ok (some token)
      → token_of_user crypto encryption_key found ≡ some token
  unfolding token_of token_of_user
  token_of_user-some none h = absurd (ground (arith, h))
  token_of_user-some (some user) h = stored_token-some user.paperless_token_encrypted h

-- A token that the service reads for a user is the one that the WebDAV login loads, under the same key.
pub load_token_from_db-get_user_token :
    (self : Authenticator) (b : Backends) (db : Database) (username encryption_key token : Text)
    → filled self.encryption_key ≡ some encryption_key
    → b.database ≡ some db
    → get_user_token b.crypto username encryption_key db ≡ ok (some token)
    → load_token_from_db self b username ≡ some token
unfolding load_token_from_db token_with get_user_token
load_token_from_db-get_user_token self b db username encryption_key token keyed based h =
    ap (λ k. token_with b username k b.database) keyed
    ∙ ap (token_with b username (some encryption_key)) based
    ∙ token_of_user-some b.crypto encryption_key token (user_by_external_id username db) h

-- In OIDC mode the stored token is a password, whatever the directory answers.
pub authenticate_stored :
    (self : Authenticator) (b : Backends) (username token : Text)
    → self.oidc ≡ true
    → filled (load_token_from_db self b username) ≡ some token
    → authenticate self b username token ≡ some token
unfolding authenticate authenticate_oidc
authenticate_stored self b username token oidc stored = ground (arith, oidc, stored)
