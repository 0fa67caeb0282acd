-- ===== src/Ui.antt =====
-- The web pages of src/paperless_webdav/ui.
pub mod Routes
