-- ===== src/Services.antt =====
-- The best-effort stores and the share service of src/paperless_webdav/services, and the encryption of
-- the tokens that the latter keeps.
pub mod DocumentSizes
pub mod Annotations
pub mod Encryption
pub mod Shares
