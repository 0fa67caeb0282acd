-- ===== src/Tests/Services.antt =====
-- The theorems on src/paperless_webdav/services at concrete inputs.
use paperless_webdav.Base.{
  ℕ, ℕ_discrete, ◌≡◌, refl, true, false, Option, none, some, [], ◌∷◌, nat_eq, list_eq, lookup,
  NodupKeys, Dict, Text, codes,
}
use paperless_webdav.Spool.Attribution.{by_size}
use paperless_webdav.Spool.Release.{SpooledFile, spooled_file}
use paperless_webdav.Services.DocumentSizes.{SizeTable}
use paperless_webdav.Services.Annotations.{ingested, status_eq, AnnotatedUpload, upload_ingested}
use paperless_webdav.Tests.Fixtures.{toy_platform, no_faults, an_upload}

abbrev a_table : SizeTable
a_table = (1, (some (codes "v1"), 100)) ∷ (2, (some (codes "v1"), 200)) ∷ []

abbrev new_sizes : Dict ℕ ℕ
new_sizes = (1, 120) ∷ (3, 300) ∷ []

new_sizes-NodupKeys : NodupKeys new_sizes
unfolding lookup nat_eq ℕ_discrete
new_sizes-NodupKeys = (refl, (refl, tt))

abbrev new_versions : Dict ℕ (Option Text)
new_versions = (1, some (codes "v2")) ∷ (3, none) ∷ []

abbrev a_file : SpooledFile
a_file = spooled_file toy_platform 70 no_faults (some 7) by_size none an_upload

abbrev a_row : AnnotatedUpload
a_row = record {
  spool_id = codes "u0";
  md5 = codes "abc";
  size = 3;
  source_document_id = some 7;
  source_confidence = some by_size;
  username = none;
  status = ingested;
  paperless_document_id = some 12;
  error = none;
  ingested_at = some 60;
}

a_row-ingested : upload_ingested false (codes "abc") (a_row ∷ []) ≡ true
unfolding upload_ingested status_eq list_eq nat_eq ℕ_discrete
a_row-ingested = refl
