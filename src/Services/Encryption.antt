-- ===== src/Services/Encryption.antt =====
-- `TokenEncryption` of src/paperless_webdav/encryption.py. `Crypto` is what it calls: base64, AES-GCM
-- under a key and a nonce, and UTF-8.
use paperless_webdav.Base.{
  ℕ, ◌≡◌, refl, sym, ap, ◌∙◌, List, ◌++◌, if◌then◌else◌, nat_eq, ◌==◌, length, take, drop, Text,
  arith, take-append, drop-append, take_all, drop-length,
}
use paperless_webdav.Outcome.{Outcome, ok, raise, value_error}

pub record Crypto : Type 0 where
  pub b64decode : Text → Outcome (List ℕ)
  pub seal : List ℕ → List ℕ → List ℕ → List ℕ
  pub unseal : List ℕ → List ℕ → List ℕ → Outcome (List ℕ)
  pub utf8_encode : Text → List ℕ
  pub utf8_decode : List ℕ → Outcome Text

-- What a holder of the key gets back.
pub record IsCrypto (crypto : Crypto) : Type 0 where
  pub unsealed :
      (key nonce plain : List ℕ) → crypto.unseal key nonce (crypto.seal key nonce plain) ≡ ok plain
  pub decoded : (t : Text) → crypto.utf8_decode (crypto.utf8_encode t) ≡ ok t

-- `NONCE_SIZE`
abbrev pub nonce_size : ℕ
nonce_size = 12

abbrev of_32_bytes : Outcome (List ℕ) → Outcome (List ℕ)
of_32_bytes (raise e) = raise e
of_32_bytes (ok key) = if length key == 32 then ok key else raise value_error

-- `__init__`: the key
unfoldable pub token_encryption : Crypto → Text → Outcome (List ℕ)
token_encryption crypto key_base64 = of_32_bytes (crypto.b64decode key_base64)

-- `encrypt`, with what `os.urandom` returns
unfoldable pub encrypt : Crypto → List ℕ → List ℕ → Text → List ℕ
encrypt crypto key nonce plaintext = nonce ++ crypto.seal key nonce (crypto.utf8_encode plaintext)

abbrev decoded_by : Crypto → Outcome (List ℕ) → Outcome Text
decoded_by crypto (raise e) = raise e
decoded_by crypto (ok plaintext) = crypto.utf8_decode plaintext

unfoldable pub decrypt : Crypto → List ℕ → List ℕ → Outcome Text
decrypt crypto key encrypted =
    decoded_by crypto (crypto.unseal key (take nonce_size encrypted) (drop nonce_size encrypted))

-- What was encrypted under a key is decrypted under it, for every nonce of 12 bytes.
pub decrypt-encrypt :
    (crypto : Crypto) (key nonce : List ℕ) (plaintext : Text)
    → IsCrypto crypto
    → length nonce ≡ nonce_size
    → decrypt crypto key (encrypt crypto key nonce plaintext) ≡ ok plaintext
unfolding decrypt encrypt
decrypt-encrypt crypto key nonce plaintext laws sized =
    rw (nonce_back, sealed_back, laws.unsealed, laws.decoded) refl
  where
    sealed : List ℕ
    sealed = crypto.seal key nonce (crypto.utf8_encode plaintext)

    nonce_back : take nonce_size (nonce ++ sealed) ≡ nonce
    nonce_back =
        take-append nonce_size nonce sealed (omega arith) ∙ take_all nonce_size nonce (omega arith)

    sealed_back : drop nonce_size (nonce ++ sealed) ≡ sealed
    sealed_back =
        drop-append nonce_size nonce sealed (omega arith)
        ∙ ap (λ t. t ++ sealed) (ap (λ n. drop n nonce) (sym sized) ∙ drop-length nonce)
