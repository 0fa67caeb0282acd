-- ===== src/Provider/Documents.antt =====
-- The records that the provider works on: `PaperlessDocument` of src/paperless_webdav/
-- paperless_client.py and `Share` of src/paperless_webdav/models.py (the columns that the provider
-- reads).
use paperless_webdav.Base.{ℕ, Bool, Option, List, Text}

pub record PaperlessDocument : Type 0 where
  pub id : ℕ
  pub title : Text
  pub original_file_name : Text
  pub created : Text
  pub modified : Text
  pub tags : List ℕ
  pub added : Text

pub record Share : Type 0 where
  pub name : Text
  pub include_tags : List Text
  pub exclude_tags : List Text
  pub done_folder_enabled : Bool
  pub done_folder_name : Text
  pub done_tag : Option Text
