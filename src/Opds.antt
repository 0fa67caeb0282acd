-- ===== src/Opds.antt =====
-- The OPDS catalog of src/paperless_webdav/opds.py.
pub mod Quoting
pub mod Requests
pub mod Entries
pub mod Feeds
pub mod Routes
