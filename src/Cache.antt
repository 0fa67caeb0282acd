-- ===== src/Cache.antt =====
-- The caching layer of src/paperless_webdav/cache.py.
pub mod Memory
pub mod Redis
