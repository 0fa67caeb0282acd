-- ===== src/Spool/Upload/Torn.antt =====
-- A write of the `.part` file that raises `OSError`.
use paperless_webdav.Base.{
  ℕ, ◌+◌, ◌≡◌, refl, false, some, List, ◌++◌, arith, ◌==◌, if◌then◌else◌, nat_eq, list_eq, pair_eq,
  length, lookup, lookup-insert,
}
use paperless_webdav.Outcome.{os_error, raise}
use paperless_webdav.Spool.Store.{subdir_eq, File, Place, Spool}
use paperless_webdav.Spool.Upload.{Sink, Faults, Chunk, part_place, tear, write}
use paperless_webdav.Spool.Upload.Live.{IsLive}
use paperless_webdav.Spool.Upload.Laws.{SameElsewhere, Allowed}

lookup-tear :
    (now : ℕ) (left : List ℕ) (s : Spool) (q p : Place) (f : File)
    → lookup p s.files ≡ some f
    → lookup q (tear now left p s).files ≡ (
        if q == p
        then some (record { content = left; mtime = now; synced = false })
        else lookup q s.files)
unfolding tear
lookup-tear now left s q p f h = rw (h, tear) (lookup-insert q p _ s.files)

-- A write of the file that raises lets the error through: the upload stays open, and no other file has
-- changed.
pub write-torn :
    (faults : Faults) (c : Chunk) (left : List ℕ) (s : Sink)
    → IsLive s
    → c.torn ≡ some left
    → Allowed s.upload (s.upload.size + length c.bytes)
    → (t : Sink) × (write faults c s ≡ (raise os_error, t))
      × (t.upload.released ≡ false)
      × SameElsewhere s t
unfolding write
write-torn faults c left s live torn h = (
  record {
    upload = record s.upload {
      size = s.upload.size + length c.bytes;
      received = s.upload.received ++ c.bytes;
    };
    spool = tear c.at left (part_place s.upload) s.spool;
  },
  ground (arith, live.in_flight, torn),
  live.in_flight,
  record {
    same_id = refl;
    same_max = refl;
    elsewhere = λ p other.
        ground (arith, lookup-tear c.at left s.spool p (part_place s.upload) live.part live.stored);
  },
)
