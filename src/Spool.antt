-- ===== src/Spool.antt =====
-- The spool of src/paperless_webdav/spool.py.
pub mod Attribution
pub mod Store
pub mod Upload
pub mod Release
pub mod Pending
