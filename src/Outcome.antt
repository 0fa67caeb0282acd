-- ===== src/Outcome.antt =====
-- What a method call comes back with: a value, or the exception that it raised. The exceptions are
-- those that the modules of src/paperless_webdav raise or let through.
use paperless_webdav.Base.{ℕ}

pub data Error : Type 0 where
  -- `DAVError` with its HTTP status
  dav_error : ℕ → Error
  os_error runtime_error value_error http_error integrity_error : Error
  -- `HTTPException` with its status
  http_exception : ℕ → Error

pub data Outcome {ℓ} (A : Type ℓ) : Type ℓ where
  ok : A → Outcome A
  raise : Error → Outcome A

abbrev pub http_bad_request : ℕ
http_bad_request = 400

abbrev pub http_forbidden : ℕ
http_forbidden = 403

abbrev pub http_insufficient_storage : ℕ
http_insufficient_storage = 507
