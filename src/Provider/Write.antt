-- ===== src/Provider/Write.antt =====
-- PUT in src/paperless_webdav/webdav_provider.py: `begin_write` and `end_write` of
-- `DocumentResource`, and what they call of `PaperlessProvider`. The server writes to the sink
-- between the two, and closes it. `CONTENT_LENGTH` comes as the result of `int`: `none` where the
-- header is missing or no number.
pub mod Begin
pub mod Held
pub mod End
pub mod Keep
pub mod Session
use paperless_webdav.Base.{
  ℕ, zero, suc, ◌≡◌, Bool, true, false, ◌&&◌, not, Option, none, some, List, [], ◌∷◌, ◌++◌, decimal,
  any, contains, keys, leb, Eq, ◌==◌, if◌then◌else◌, nat_eq, list_eq, option_eq, take, Dict, lookup,
  insert, Text, codes, is_infix,
}
use paperless_webdav.Outcome.{
  Error, dav_error, Outcome, ok, raise, http_bad_request, http_forbidden, http_insufficient_storage,
}
use paperless_webdav.Spool.Attribution.{Confidence, attribute_source}
use paperless_webdav.Spool.Store.{
  Subdir, partial, subdir_eq, spool_subdirs, active_subdirs, File, Place, Spool, is_dir,
  spool_usage_bytes,
}
use paperless_webdav.Spool.Upload.{SpooledUpload, Sink, Faults, open_upload, abort}
use paperless_webdav.Spool.Release.{Platform, SpooledFile, md5, park, finalize}
use paperless_webdav.Services.DocumentSizes.{SizeTable, version_of, load_sizes}
use paperless_webdav.Services.Annotations.{UploadTable, upload_ingested, record_pending}
use paperless_webdav.Provider.Documents.{PaperlessDocument, Share}

-- The settings of `PaperlessProvider` that writes read.
pub record WriteSettings : Type 0 where
  pub write_back : Text
  pub has_spool : Bool
  pub max_upload_bytes : ℕ
  pub spool_max_bytes : ℕ

-- `_annotation_tag_ids`: the id of the marker tag in the tag map, as a set of at most one; the tag
-- map is `none` without a client, or where fetching it raised.
unfoldable pub annotation_tag_ids : Text → Option (Dict Text ℕ) → List ℕ
annotation_tag_ids [] tag_map = []
annotation_tag_ids (c ∷ name) none = []
annotation_tag_ids (c ∷ name) (some tag_map) = elim (lookup (c ∷ name) tag_map) [
  | none ↦ []
  | some tag_id ↦ tag_id ∷ []
]

-- `set(document.tags) & annotation_tag_ids`, as a test
abbrev pub is_annotated_copy : List ℕ → PaperlessDocument → Bool
is_annotated_copy ids doc = any (λ t. contains t ids) doc.tags

-- `self._provider._spool_max_bytes` is set, and used up.
abbrev pub spool_full : WriteSettings → Spool → Bool
spool_full settings s =
    not (settings.spool_max_bytes == 0)
    && leb settings.spool_max_bytes (spool_usage_bytes s active_subdirs)

-- `begin_write`; `ids` is what `_annotation_tag_ids` returned, `spool_id` what `uuid4` did, and
-- `open_fails` whether the open of the `.part` file raises.
unfoldable pub begin_write :
    Bool
    → WriteSettings
    → List ℕ
    → PaperlessDocument
    → Text
    → Option Text
    → ℕ
    → Text
    → Spool
    → Outcome SpooledUpload × Spool
unfolding any contains
begin_write open_fails settings ids doc path username now spool_id s =
    if settings.write_back == codes "off"
    then (raise (dav_error http_forbidden), s)
    else if is_annotated_copy ids doc
    then (raise (dav_error http_forbidden), s)
    else if not settings.has_spool
    then (raise (dav_error http_forbidden), s)
    else if spool_full settings s
    then (raise (dav_error http_insufficient_storage), s)
    else open_upload open_fails now spool_id path (some doc.id) username settings.max_upload_bytes s

-- One entry of the loop of `_share_document_sizes`.
abbrev pub is_usable : Dict ℕ (Option Text) → ℕ → Option Text → ℕ → Bool
is_usable versions i none size = not (size == 0)
is_usable versions i (some v) size = not (size == 0) && (some v == version_of i versions)

unfoldable pub usable_sizes : Dict ℕ (Option Text) → SizeTable → Dict ℕ ℕ
usable_sizes versions [] = []
usable_sizes versions ((i, (version, size)) ∷ rows) =
    let rest = usable_sizes versions rows in
    if is_usable versions i version size then (i, size) ∷ rest else rest

-- `{doc.id: doc.modified for doc in documents}`
unfoldable pub versions_from : Dict ℕ (Option Text) → List PaperlessDocument → Dict ℕ (Option Text)
versions_from acc [] = acc
versions_from acc (doc ∷ documents) =
    versions_from (insert doc.id (some doc.modified) acc) documents

-- `_share_document_sizes`, from the documents of the share on; `[]` stands for no share too.
unfoldable pub share_document_sizes : Bool → List PaperlessDocument → SizeTable → Dict ℕ ℕ
unfolding usable_sizes versions_from
share_document_sizes down documents table =
    let versions = versions_from [] documents in
    usable_sizes versions (load_sizes down (keys versions) table)

-- `any(directory.glob(f"*{md5[:12]}*"))`
unfoldable pub any_named : Text → Subdir → Dict Place File → Bool
any_named digest d [] = false
any_named digest d (((e, name), _) ∷ files) =
    let rest = any_named digest d files in if (d == e) && is_infix digest name then true else rest

-- `_upload_already_held`
unfoldable pub upload_already_held : Bool → UploadTable → Bool → Text → Spool → Bool
unfolding any any_named
upload_already_held down table has_spool digest s =
    if upload_ingested down digest table
    then true
    else if not has_spool
    then false
    else any (λ d. is_dir s.dirs d && any_named (take 12 digest) d s.files) spool_subdirs

-- What `end_write` reads of its surroundings: the database, the share's documents and its name,
-- the header, the settings and the clock.
pub record WriteContext : Type 0 where
  pub db_down : Bool
  pub sizes : SizeTable
  pub documents : List PaperlessDocument
  pub share_name : Option Text
  pub document_id : ℕ
  pub content_length : Option ℕ
  pub has_spool : Bool
  pub now : ℕ
  pub faults : Faults

-- The upload and the index that a PUT changes.
pub record WriteState : Type 0 where
  pub sink : Sink
  pub uploads : UploadTable

-- `expected_size`
abbrev pub expected_size : Option ℕ → ℕ
expected_size none = 0
expected_size (some n) = n

-- `expected_size and upload.size != expected_size`
abbrev pub is_short : Option ℕ → ℕ → Bool
is_short content_length size =
    not (expected_size content_length == 0) && not (size == expected_size content_length)

module _ (platform : Platform) (context : WriteContext) where
  open context use {
    db_down, sizes, documents, share_name, document_id, content_length, has_spool, now, faults,
  }

  -- The raise behind `park`, which may raise itself.
  unfoldable pub refuse_short : UploadTable → Outcome Place × Sink → Outcome (Unit {0}) × WriteState
  refuse_short uploads (ok _, s) =
      (raise (dav_error http_bad_request), record { sink = s; uploads = uploads })
  refuse_short uploads (raise e, s) = (raise e, record { sink = s; uploads = uploads })

  -- What `abort`, which may raise, leaves.
  unfoldable pub dropped : UploadTable → Outcome (Unit {0}) × Sink → Outcome (Unit {0}) × WriteState
  dropped uploads (answer, s) = (answer, record { sink = s; uploads = uploads })

  -- `_record_spooled_upload` behind `finalize`.
  unfoldable pub index_upload :
      UploadTable → Outcome SpooledFile × Sink → Outcome (Unit {0}) × WriteState
  index_upload uploads (ok f, s) =
      (ok tt, record { sink = s; uploads = record_pending db_down f uploads })
  index_upload uploads (raise e, s) = (raise e, record { sink = s; uploads = uploads })

  -- `_attribute_source`
  abbrev pub attributed : ℕ → Option ℕ × Confidence
  attributed upload_size =
      attribute_source upload_size (share_document_sizes db_down documents sizes) (some document_id)

  abbrev pub short_reason : ℕ → Text
  short_reason size =
      codes "expected "
      ++ (decimal (expected_size content_length) ++ (codes " bytes, received " ++ decimal size))

  -- `end_write` with an upload in hand
  unfoldable pub end_upload : Bool → WriteState → Outcome (Unit {0}) × WriteState
  unfolding refuse_short dropped index_upload upload_already_held
  end_upload with_errors s =
      let u = s.sink.upload in
      if with_errors
      then dropped s.uploads (abort faults s.sink)
      else if is_short content_length u.size
      then refuse_short s.uploads (park platform now faults partial (short_reason u.size) s.sink)
      else if u.size == 0
      then dropped s.uploads (abort faults s.sink)
      else if upload_already_held db_down s.uploads has_spool (md5 platform u) s.sink.spool
      then dropped s.uploads (abort faults s.sink)
      else index_upload s.uploads (
          finalize platform now faults (attributed u.size).0 (attributed u.size).1 share_name
            s.sink)

  -- `end_write`; `self._upload` is reset in every case
  unfoldable pub end_write :
      Bool → Option SpooledUpload → Spool → UploadTable → Outcome (Unit {0}) × (Spool × UploadTable)
  unfolding end_upload
  end_write with_errors none s uploads = (ok tt, (s, uploads))
  end_write with_errors (some u) s uploads =
      let (answer, t) =
        end_upload with_errors
          (record { sink = record { upload = u; spool = s }; uploads = uploads }) in
      (answer, (t.sink.spool, t.uploads))
