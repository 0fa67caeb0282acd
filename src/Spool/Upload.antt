-- ===== src/Spool/Upload.antt =====
-- `SpooledUpload` of src/paperless_webdav/spool.py: the sink of one PUT. Writes reach the `.part`
-- file at once (the process sees its own buffered writes before every rename), and a file is
-- `synced` from an fsync to the next write. Each call of the operating system may raise `OSError`:
-- an argument, a field of `Faults` or a field of a chunk says whether it does.
pub mod Live
pub mod Laws
pub mod Torn
use paperless_webdav.Base.{
  ℕ, ◌+◌, ◌≡◌, Bool, true, false, ◌||◌, ◌&&◌, not, Option, none, some, List, [], ◌∷◌, ◌++◌, ltb, Eq,
  ◌==◌, if◌then◌else◌, nat_eq, list_eq, pair_eq, length, take, Dict, lookup, insert, erase, Text,
  codes, decimal,
}
use paperless_webdav.Outcome.{
  Error, dav_error, os_error, runtime_error, value_error, Outcome, ok, raise,
}
use paperless_webdav.Outcome.{http_insufficient_storage}
use paperless_webdav.Spool.Attribution.{Confidence}
use paperless_webdav.Spool.Store.{
  Subdir, incoming, pending, failed, subdir_eq, File, Place, Spool, is_dir,
}

-- `received` is what the hash and the file have been given.
pub record SpooledUpload : Type 0 where
  pub spool_id : Text
  pub request_path : Text
  pub path_document_id : Option ℕ
  pub username : Option Text
  pub max_bytes : ℕ
  pub received : List ℕ
  pub size : ℕ
  pub released : Bool

-- An upload and the spool that it writes to.
pub record Sink : Type 0 where
  pub upload : SpooledUpload
  pub spool : Spool

-- Which calls of the operating system raise `OSError` when an upload ends: in `abort` the close of the
-- file and its unlink; in `park` and `finalize` the flush, fsync and close, the rename, the rename to
-- `failed/`, and the write of the sidecar.
pub record Faults : Type 0 where
  pub close_fails : Bool
  pub unlink_fails : Bool
  pub sync_fails : Bool
  pub publish_fails : Bool
  pub rescue_fails : Bool
  pub sidecar_fails : Bool

-- One chunk of a body: when it arrives, its bytes, and, where the write of the file raises `OSError`,
-- what the file holds afterwards.
pub record Chunk : Type 0 where
  pub at : ℕ
  pub bytes : List ℕ
  pub torn : Option (List ℕ)

-- `self._part`
abbrev pub part_place : SpooledUpload → Place
part_place u = (incoming, u.spool_id ++ codes ".part")

-- `open(path, "wb")`
unfoldable pub open_file : ℕ → Place → Spool → Spool
open_file now p s = record s {
  files = insert p (record { content = []; mtime = now; synced = false }) s.files;
}

abbrev pub fresh_upload : Text → Text → Option ℕ → Option Text → ℕ → SpooledUpload
fresh_upload spool_id request_path path_document_id username max_bytes = record {
  spool_id = spool_id;
  request_path = request_path;
  path_document_id = path_document_id;
  username = username;
  max_bytes = max_bytes;
  received = [];
  size = 0;
  released = false;
}

-- `__init__`; `open` raises where `incoming/` is not there, and wherever else `open_fails` says so
unfoldable pub open_upload :
    Bool → ℕ → Text → Text → Option ℕ → Option Text → ℕ → Spool → Outcome SpooledUpload × Spool
unfolding open_file
open_upload open_fails now spool_id request_path path_document_id username max_bytes s =
    let u = fresh_upload spool_id request_path path_document_id username max_bytes in
    if not open_fails && is_dir s.dirs incoming
    then (ok u, open_file now (part_place u) s)
    else (raise os_error, s)

-- A write to the open file, which is gone from the tree if somebody unlinked it.
unfoldable pub append_to : ℕ → List ℕ → Place → Spool → Spool
append_to now bytes p s = elim (lookup p s.files) [
  | none ↦ s
  | some f ↦ record s {
    files = insert p (record { content = f.content ++ bytes; mtime = now; synced = false }) s.files;
  }
]

-- A write to the open file that raises, and leaves it with some content.
unfoldable pub tear : ℕ → List ℕ → Place → Spool → Spool
tear now left p s = elim (lookup p s.files) [
  | none ↦ s
  | some f ↦ record s {
    files = insert p (record { content = left; mtime = now; synced = false }) s.files;
  }
]

-- `os.fsync` of the open file
unfoldable pub sync_file : Place → Spool → Spool
sync_file p s = elim (lookup p s.files) [
  | none ↦ s
  | some f ↦ record s { files = insert p (record f { synced = true }) s.files }
]

-- `abort`: the unlink is tried where the close raises too
unfoldable pub abort : Faults → Sink → Outcome (Unit {0}) × Sink
abort faults s = if s.upload.released then (ok tt, s) else (
  if faults.close_fails || faults.unlink_fails then raise os_error else ok tt,
  record {
    upload = record s.upload { released = true };
    spool = record s.spool {
      files =
          if faults.unlink_fails then s.spool.files else erase (part_place s.upload) s.spool.files;
    };
  },
)

-- `self._max_bytes and self.size > self._max_bytes`
abbrev pub too_large : SpooledUpload → Bool
too_large u = not (u.max_bytes == 0) && ltb u.max_bytes u.size

-- The raise behind `abort`, which may raise itself.
abbrev pub refuse_large : Outcome (Unit {0}) × Sink → Outcome ℕ × Sink
refuse_large (ok _, s) = (raise (dav_error http_insufficient_storage), s)
refuse_large (raise e, s) = (raise e, s)

-- `self._fh.write(data)`, for an upload in flight; `u` is the upload afterwards
abbrev pub write_file : Chunk → SpooledUpload → Spool → Option (List ℕ) → Outcome ℕ × Sink
write_file c u s none =
    (ok (length c.bytes), record { upload = u; spool = append_to c.at c.bytes (part_place u) s })
write_file c u s (some left) =
    (raise os_error, record { upload = u; spool = tear c.at left (part_place u) s })

-- `write`; a write to a closed file raises `ValueError`
unfoldable pub write : Faults → Chunk → Sink → Outcome ℕ × Sink
unfolding abort append_to tear
write faults c s =
    let grown = record s.upload { size = s.upload.size + length c.bytes } in
    let hashed = record grown { received = s.upload.received ++ c.bytes } in
    if too_large grown
    then refuse_large (abort faults (record s { upload = grown }))
    else if s.upload.released
    then (raise value_error, record s { upload = hashed })
    else write_file c hashed s.spool c.torn

abbrev go_on : Outcome ℕ × Sink → (Sink → Outcome (Unit {0}) × Sink) → Outcome (Unit {0}) × Sink
go_on (ok _, s) k = k s
go_on (raise e, s) k = (raise e, s)

-- `writelines`
unfoldable pub writelines : Faults → List Chunk → Sink → Outcome (Unit {0}) × Sink
unfolding write
writelines faults [] s = (ok tt, s)
writelines faults (c ∷ chunks) s = go_on (write faults c s) (λ s'. writelines faults chunks s')

-- `close`: its flush and fsync
unfoldable pub close : Bool → Sink → Outcome (Unit {0}) × Sink
unfolding sync_file
close sync_fails s =
    if s.upload.released
    then (ok tt, s)
    else if sync_fails
    then (raise os_error, s)
    else (ok tt, record s { spool = sync_file (part_place s.upload) s.spool })
