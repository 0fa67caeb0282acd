-- ===== src/Spool/Upload/Live.antt =====
-- An upload in flight: how it begins, and what `close` makes of it.
use paperless_webdav.Base.{
  ℕ, ◌≡◌, refl, true, false, Option, some, [], ◌++◌, arith, ◌==◌, if◌then◌else◌, nat_eq, list_eq,
  pair_eq, length, lookup, lookup-insert, Text, codes,
}
use paperless_webdav.Outcome.{ok}
use paperless_webdav.Spool.Store.{incoming, subdir_eq, File, Place, Spool}
use paperless_webdav.Spool.Upload.{
  Sink, part_place, fresh_upload, open_file, sync_file, too_large, close,
}

-- An upload in flight: its `.part` file holds the bytes received, which its size counts and the
-- maximum allows.
pub record IsLive (s : Sink) : Type 0 where
  pub in_flight : s.upload.released ≡ false
  pub part : File
  pub stored : lookup (part_place s.upload) s.spool.files ≡ some part
  pub whole : part.content ≡ s.upload.received
  pub counted : s.upload.size ≡ length s.upload.received
  pub allowed : too_large s.upload ≡ false

-- A new upload is in flight, with nothing received.
pub fresh_upload-IsLive :
    (now : ℕ) (spool_id path : Text) (doc : Option ℕ) (user : Option Text) (max_bytes : ℕ)
    (s : Spool)
    → (let u = fresh_upload spool_id path doc user max_bytes in
        IsLive (record { upload = u; spool = open_file now (part_place u) s }))
unfolding open_file
fresh_upload-IsLive now spool_id path doc user max_bytes s =
    let p : Place = (incoming, spool_id ++ codes ".part") in
    let f : File = record { content = []; mtime = now; synced = false } in
    record {
      in_flight = refl;
      part = f;
      stored = ground (arith, lookup-insert p p f s.files);
      whole = refl;
      counted = refl;
      allowed = ground arith;
    }

pub lookup-sync_file :
    (s : Spool) (q p : Place) (f : File)
    → lookup p s.files ≡ some f
    → lookup q (sync_file p s).files
      ≡ (if q == p then some (record f { synced = true }) else lookup q s.files)
unfolding sync_file
lookup-sync_file s q p f h = rw (h, sync_file) (lookup-insert q p _ s.files)

-- A `close` that does not raise keeps the upload in flight with the bytes that it holds, now on disk,
-- as `end_write` needs.
pub close-IsLive :
    (s : Sink)
    → IsLive s
    → (t : Sink) × (close false s ≡ (ok tt, t))
      × IsLive t
      × (t.upload ≡ s.upload)
      × ((f : File) × (lookup (part_place s.upload) t.spool.files ≡ some f)
          × (f.content ≡ s.upload.received)
          × (f.synced ≡ true))
unfolding close
close-IsLive s live =
    let at_part =
      lookup-sync_file s.spool (part_place s.upload) (part_place s.upload) live.part live.stored in
    (
      record s { spool = sync_file (part_place s.upload) s.spool },
      ground (arith, live.in_flight),
      record {
        in_flight = live.in_flight;
        part = record live.part { synced = true };
        stored = ground arith;
        whole = live.whole;
        counted = live.counted;
        allowed = live.allowed;
      },
      refl,
      (record live.part { synced = true }, ground arith, live.whole, refl),
    )
