-- ===== src/Tests/Fixtures.antt =====
-- Concrete inputs for the tests.
use paperless_webdav.Base.{
  ℕ, ℕ_discrete, ◌+◌, ◌%◌, refl, true, false, some, List, [], ◌∷◌, map, lookup, Text, codes,
  pair_eq, list_eq, nat_eq,
}
use paperless_webdav.Spool.Store.{pending, spool_subdirs, subdir_eq, File, Place, Spool}
use paperless_webdav.Spool.Upload.{SpooledUpload, Sink, Faults, part_place, fresh_upload}
use paperless_webdav.Spool.Upload.Live.{IsLive}
use paperless_webdav.Spool.Release.{Platform}
use paperless_webdav.Provider.Documents.{PaperlessDocument, Share}

-- A digest that is as long as the bytes, for the md5 of the platform.
abbrev pub toy_platform : Platform
toy_platform = record {
  hexdigest = map (λ c. 97 + c % 6);
  dumps = λ m. m.md5;
  dumps_parked = λ m. m.reason;
}

abbrev pub no_faults : Faults
no_faults = record {
  close_fails = false;
  unlink_fails = false;
  sync_fails = false;
  publish_fails = false;
  rescue_fails = false;
  sidecar_fails = false;
}

abbrev pub an_upload : SpooledUpload
an_upload =
    record (fresh_upload (codes "u1") (codes "/tax/Bill.pdf") (some 7) (some (codes "ann")) 100) {
      received = 1 ∷ 2 ∷ 3 ∷ [];
      size = 3;
    }

abbrev pub a_part : File
a_part = record { content = 1 ∷ 2 ∷ 3 ∷ []; mtime = 50; synced = false }

abbrev pub old_place : Place
old_place = (pending, codes "9-fff.pdf")

abbrev pub an_old_file : File
an_old_file = record { content = 4 ∷ []; mtime = 10; synced = true }

abbrev pub a_spool : Spool
a_spool = record {
  dirs = spool_subdirs;
  files = (part_place an_upload, a_part) ∷ (old_place, an_old_file) ∷ [];
}

abbrev pub a_sink : Sink
a_sink = record { upload = an_upload; spool = a_spool }

pub a_sink-IsLive : IsLive a_sink
unfolding lookup pair_eq subdir_eq list_eq nat_eq ℕ_discrete
a_sink-IsLive = record {
  in_flight = refl;
  part = a_part;
  stored = refl;
  whole = refl;
  counted = refl;
  allowed = refl;
}

abbrev pub document_at : ℕ → Text → List ℕ → PaperlessDocument
document_at id title tags = record {
  id = id;
  title = title;
  original_file_name = codes "scan.pdf";
  created = codes "2024-01-01";
  modified = codes "2024-02-01";
  tags = tags;
  added = codes "2024-01-02";
}

abbrev pub tax_share : Share
tax_share = record {
  name = codes "tax";
  include_tags = codes "tax" ∷ [];
  exclude_tags = [];
  done_folder_enabled = true;
  done_folder_name = codes "done";
  done_tag = some (codes "read");
}
