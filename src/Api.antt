-- ===== src/Api.antt =====
-- The REST API of src/paperless_webdav/api.
pub mod Shares
