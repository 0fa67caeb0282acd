-- ===== src/Provider.antt =====
-- The WebDAV provider of src/paperless_webdav/webdav_provider.py.
pub mod Documents
pub mod Filenames
pub mod Listing
pub mod Paths
pub mod Moves
pub mod Folders
pub mod Content
pub mod Write
pub mod Prefetch
