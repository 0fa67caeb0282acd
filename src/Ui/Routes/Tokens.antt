-- ===== src/Ui/Routes/Tokens.antt =====
-- A token that a user sets up, and what it opens.
use mathlib.Core.Path.{subst}
use paperless_webdav.Base.{
  ℕ, ◌≡◌, ◌≢◌, refl, ap, ◌∙◌, sym, true, Bool, some, List, [], ◌∷◌, nat_eq, list_eq, arith, length,
  Text, strip,
}
use paperless_webdav.Outcome.{Outcome, ok}
use paperless_webdav.Services.Encryption.{IsCrypto, nonce_size, token_encryption}
use paperless_webdav.Services.Shares.{Database, store_user_token, get_user_token}
use paperless_webdav.Services.Shares.Consistency.{IsConsistent, IsNewUser}
use paperless_webdav.Services.Shares.Tokens.{get_user_token-store_user_token}
use paperless_webdav.Provider.Moves.{filled}
use paperless_webdav.Auth.Paperless.{AuthenticatedUser, Settings}
use paperless_webdav.Auth.Webdav.{Authenticator, Backends, authenticate}
use paperless_webdav.Auth.Webdav.Stored.{load_token_from_db-get_user_token, authenticate_stored}
use paperless_webdav.Ui.Routes.{keep_valid, token_setup_submit}

-- A token without spaces around it is not empty.
filled_token : (token : Text) → strip token ≢ [] → filled (some token) ≡ some token
unfolding strip
filled_token [] h = absurd (h refl)
filled_token (c ∷ t) h = refl

module _ (settings : Settings) (validate_token : Text → Outcome Bool) (nonce : List ℕ)
    (new_user_id now : ℕ) (user : AuthenticatedUser) (token : Text) (db : Database)
    (set : strip token ≢ []) (valid : validate_token token ≡ ok true) where
  token_setup_submit-stores :
      (token_setup_submit settings validate_token nonce new_user_id now (some user) token db).1
      ≡ (store_user_token settings.crypto nonce new_user_id user.username token
          settings.encryption_key db).1
  unfolding token_setup_submit keep_valid
  token_setup_submit-stores = ground (arith, set, valid)

-- A user who sets up a token that Paperless accepts can sign in to the WebDAV server with the user name
-- and that token as the password, in OIDC mode, whatever the directory answers. The server reads the
-- same database with the same valid key, and decryption undoes encryption.
pub authenticate-token_setup_submit :
    (settings : Settings) (validate_token : Text → Outcome Bool) (nonce key : List ℕ)
    (new_user_id now : ℕ) (user : AuthenticatedUser) (token : Text) (db : Database)
    (self : Authenticator) (b : Backends)
    → IsCrypto settings.crypto
    → length nonce ≡ nonce_size
    → token_encryption settings.crypto settings.encryption_key ≡ ok key
    → IsConsistent db
    → IsNewUser new_user_id db
    → strip token ≢ []
    → validate_token token ≡ ok true
    → self.oidc ≡ true
    → filled self.encryption_key ≡ some settings.encryption_key
    → b.crypto ≡ settings.crypto
    → b.database
      ≡ some
          (token_setup_submit settings validate_token nonce new_user_id now (some user) token db).1
    → authenticate self b user.username token ≡ some token
authenticate-token_setup_submit settings validate_token nonce key new_user_id now user token db self
      b laws sized keyed c new set valid oidc same_key same_crypto based =
    let stores =
      token_setup_submit-stores settings validate_token nonce new_user_id now user token db set
        valid in
    let reads =
      get_user_token-store_user_token settings.crypto nonce key new_user_id user.username token
        settings.encryption_key db laws sized keyed c new in
    let loads =
      load_token_from_db-get_user_token self b _ user.username settings.encryption_key token
        same_key (based ∙ ap some stores)
        (subst
          (λ crypto.
            get_user_token crypto user.username settings.encryption_key
              (store_user_token settings.crypto nonce new_user_id user.username token
                settings.encryption_key db).1
            ≡ ok (some token))
          (sym same_crypto) reads) in
    authenticate_stored self b user.username token oidc (ap filled loads ∙ filled_token token set)
