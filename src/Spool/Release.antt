-- ===== src/Spool/Release.antt =====
-- The ends of an upload in src/paperless_webdav/spool.py: `park`, `finalize`, and what they share.
-- Where the operating system may raise `OSError`, `Faults` says whether it does. The digest and the
-- JSON text come from `Platform`.
pub mod Steps
pub mod Publish
pub mod Parked
pub mod Frame
use paperless_webdav.Base.{
  ℕ, zero, suc, ◌+◌, ◌≡◌, Bool, true, false, ◌||◌, not, Option, none, some, List, [], ◌∷◌, ◌++◌, Eq,
  if◌then◌else◌, nat_eq, list_eq, pair_eq, take, lookup, insert, erase, Text, codes, decimal,
}
use paperless_webdav.Outcome.{os_error, runtime_error, Outcome, ok, raise}
use paperless_webdav.Spool.Attribution.{Confidence}
use paperless_webdav.Spool.Store.{Subdir, pending, failed, subdir_eq, File, Place, Spool, is_dir}
use paperless_webdav.Spool.Upload.{SpooledUpload, Sink, Faults, part_place, sync_file}

-- The sidecar that `finalize` writes.
pub record Meta : Type 0 where
  pub spool_id : Text
  pub md5 : Text
  pub size : ℕ
  pub request_path : Text
  pub path_document_id : Option ℕ
  pub source_document_id : Option ℕ
  pub source_confidence : Confidence
  pub share : Option Text
  pub username : Option Text
  pub received_at : ℕ

-- The sidecar that `park` writes.
pub record ParkedMeta : Type 0 where
  pub spool_id : Text
  pub md5 : Text
  pub size : ℕ
  pub request_path : Text
  pub path_document_id : Option ℕ
  pub username : Option Text
  pub reason : Text

-- `hashlib.md5(...).hexdigest()` and `json.dumps`.
pub record Platform : Type 0 where
  pub hexdigest : List ℕ → Text
  pub dumps : Meta → Text
  pub dumps_parked : ParkedMeta → Text

pub record SpooledFile : Type 0 where
  pub path : Place
  pub sidecar : Place
  pub md5 : Text
  pub size : ℕ
  pub meta : Meta

-- Flush, fsync, close and release: the start of `park` and of `finalize`.
unfoldable pub release : Sink → Sink
unfolding sync_file
release s = record {
  upload = record s.upload { released = true };
  spool = sync_file (part_place s.upload) s.spool;
}

-- `os.replace`; `none` is an `OSError`
unfoldable pub rename : Bool → Place → Place → Spool → Option Spool
rename fails source target s =
    if fails || not (is_dir s.dirs target.0) then none else elim (lookup source s.files) [
      | none ↦ none
      | some f ↦ some (record s { files = insert target f (erase source s.files) })
    ]

-- `write_text`
unfoldable pub write_text : ℕ → Place → Text → Spool → Spool
write_text now p text s = record s {
  files = insert p (record { content = text; mtime = now; synced = false }) s.files;
}

module _ (platform : Platform) where
  -- `md5`
  abbrev pub md5 : SpooledUpload → Text
  md5 u = platform.hexdigest u.received

  -- The name of a parked or rescued upload, with no suffix.
  abbrev pub parked_stem : SpooledUpload → Text
  parked_stem u = u.spool_id ++ (codes "-" ++ take 12 (md5 u))

  abbrev pub parked_meta : SpooledUpload → Text → ParkedMeta
  parked_meta u reason = record {
    spool_id = u.spool_id;
    md5 = md5 u;
    size = u.size;
    request_path = u.request_path;
    path_document_id = u.path_document_id;
    username = u.username;
    reason = reason;
  }

  abbrev pub parked_place : Subdir → SpooledUpload → Place
  parked_place subdir u = (subdir, parked_stem u ++ codes ".pdf")

  -- `park` after its rename
  unfoldable pub settle_parked :
      ℕ → Faults → Subdir → Text → Sink → Option Spool → Outcome Place × Sink
  unfolding write_text
  settle_parked now faults subdir reason s none = (raise os_error, s)
  settle_parked now faults subdir reason s (some moved) =
      if faults.sidecar_fails then (raise os_error, record s { spool = moved }) else (
        ok (parked_place subdir s.upload),
        record s {
          spool =
              write_text now (subdir, parked_stem s.upload ++ codes ".json")
                (platform.dumps_parked (parked_meta s.upload reason)) moved;
        },
      )

  -- `park`
  unfoldable pub park : ℕ → Faults → Subdir → Text → Sink → Outcome Place × Sink
  unfolding release rename settle_parked
  park now faults subdir reason s =
      if s.upload.released
      then (raise runtime_error, s)
      else if faults.sync_fails
      then (raise os_error, s)
      else settle_parked now faults subdir reason (release s) (
          rename faults.publish_fails (part_place s.upload) (parked_place subdir s.upload)
            (release s).spool)

  -- `source_document_id or 'unknown'`
  abbrev pub source_label : Option ℕ → Text
  source_label none = codes "unknown"
  source_label (some zero) = codes "unknown"
  source_label (some (suc n)) = decimal (suc n)

  abbrev pub published_stem : Option ℕ → SpooledUpload → Text
  published_stem source u = source_label source ++ (codes "-" ++ take 12 (md5 u))

  abbrev pub published_meta : ℕ → Option ℕ → Confidence → Option Text → SpooledUpload → Meta
  published_meta now source confidence share u = record {
    spool_id = u.spool_id;
    md5 = md5 u;
    size = u.size;
    request_path = u.request_path;
    path_document_id = u.path_document_id;
    source_document_id = source;
    source_confidence = confidence;
    share = share;
    username = u.username;
    received_at = now;
  }

  -- The second chance of `finalize`: the bytes go to `failed/`, or stay a `.part` file.
  or_stay : Sink → Option Spool → Sink
  or_stay s none = s
  or_stay s (some moved) = record s { spool = moved }

  unfoldable pub rescue : Faults → Sink → Sink
  unfolding rename or_stay
  rescue faults s = or_stay s (
      rename faults.rescue_fails (part_place s.upload)
        (failed, parked_stem s.upload ++ codes ".pdf") s.spool)

  module _ (now : ℕ) (faults : Faults) (source : Option ℕ) (confidence : Confidence)
      (share : Option Text) where
    abbrev pub target : SpooledUpload → Place
    target u = (pending, published_stem source u ++ codes ".pdf")

    abbrev pub sidecar : SpooledUpload → Place
    sidecar u = (pending, published_stem source u ++ codes ".json")

    abbrev pub spooled_file : SpooledUpload → SpooledFile
    spooled_file u = record {
      path = target u;
      sidecar = sidecar u;
      md5 = md5 u;
      size = u.size;
      meta = published_meta now source confidence share u;
    }

    -- `finalize` after its rename: `none` is the `except` branch.
    unfoldable pub settle : Sink → Option Spool → Outcome SpooledFile × Sink
    unfolding write_text rescue
    settle s none = (raise os_error, rescue faults s)
    settle s (some moved) = (
      ok (spooled_file s.upload),
      record s {
        spool =
            if faults.sidecar_fails
            then moved
            else write_text now (sidecar s.upload)
                (platform.dumps (published_meta now source confidence share s.upload)) moved;
      },
    )

    -- `finalize`
    unfoldable pub finalize : Sink → Outcome SpooledFile × Sink
    unfolding release rename settle
    finalize s =
        if s.upload.released
        then (raise runtime_error, s)
        else if faults.sync_fails
        then (raise os_error, s)
        else settle (release s)
            (rename faults.publish_fails (part_place s.upload) (target s.upload) (release s).spool)
