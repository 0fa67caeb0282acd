-- ===== src/Auth.antt =====
-- The logins: with Paperless (src/paperless_webdav/auth/paperless.py), and the HTTP Basic check of the
-- WebDAV server (src/paperless_webdav/webdav_auth.py).
pub mod Paperless
pub mod Webdav
