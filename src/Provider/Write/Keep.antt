-- ===== src/Provider/Write/Keep.antt =====
-- A PUT destroys no file that the spool held before.
use paperless_webdav.Base.{
  ◌≡◌, ◌≢◌, ◌∙◌, Bool, true, false, some, arith, ◌==◌, nat_eq, list_eq, pair_eq, if_cases, lookup,
  lookup-erase, In, Bool-cases, ◌++◌, codes,
}
use paperless_webdav.Outcome.{Outcome, ok, raise}
use paperless_webdav.Spool.Store.{partial, subdir_eq, File, Place, is_dir}
use paperless_webdav.Spool.Upload.{Sink, Faults, part_place, abort}
use paperless_webdav.Spool.Upload.Live.{IsLive}
use paperless_webdav.Spool.Release.{Platform, SpooledFile, md5, parked_stem, parked_place}
use paperless_webdav.Spool.Release.Frame.{park-elsewhere, finalize-elsewhere}
use paperless_webdav.Provider.Write.{
  WriteContext, WriteState, is_short, refuse_short, short_reason, dropped, index_upload, end_upload,
  upload_already_held,
}
use paperless_webdav.Provider.Write.Held.{not_held-unnamed}

abort-elsewhere :
    (faults : Faults) (s : Sink) (q : Place)
    → q ≢ part_place s.upload
    → lookup q (abort faults s).1.spool.files ≡ lookup q s.spool.files
unfolding abort
abort-elsewhere faults s q other =
    let stays = Bool-cases faults.unlink_fails in
    ground (arith, lookup-erase q (part_place s.upload) s.spool.files)

module _ (platform : Platform) (context : WriteContext) (s : WriteState)
    (live : IsLive s.sink) where
  -- The file is as it was.
  abbrev Keeps : Place → Outcome (Unit {0}) × WriteState → Type 0
  Keeps q (_, t) = lookup q t.sink.spool.files ≡ lookup q s.sink.spool.files

  index-Keeps :
      (q : Place) (r : Outcome SpooledFile × Sink)
      → lookup q r.1.spool.files ≡ lookup q s.sink.spool.files
      → Keeps q (index_upload platform context s.uploads r)
  unfolding index_upload
  index-Keeps q (ok f, t) h = h
  index-Keeps q (raise e, t) h = h

  refuse-Keeps :
      (q : Place) (r : Outcome Place × Sink)
      → lookup q r.1.spool.files ≡ lookup q s.sink.spool.files
      → Keeps q (refuse_short platform context s.uploads r)
  unfolding refuse_short
  refuse-Keeps q (ok p, t) h = h
  refuse-Keeps q (raise e, t) h = h

  dropped-Keeps :
      (q : Place)
      → q ≢ part_place s.sink.upload
      → Keeps q (dropped platform context s.uploads (abort context.faults s.sink))
  unfolding dropped
  dropped-Keeps q other = abort-elsewhere context.faults s.sink q other

  -- With a spool whose files all stand in its directories, the end of a PUT in flight, failed in
  -- transfer or not, short or whole, returning or raising, leaves every file as it was but its own
  -- `.part` file and, where a transfer that reported no error is short, the two files of `partial/`
  -- named with the id and the digest of the upload. A publication under a name in use cannot
  -- happen, since a file of that name counts as proof that the bytes are held.
  pub end_upload-Keeps :
      (with_errors : Bool)
      → context.has_spool ≡ true
      → ((q : Place) (f : File)
          → In (q, f) s.sink.spool.files
          → is_dir s.sink.spool.dirs q.0 ≡ true)
      → (q : Place) (f : File) → lookup q s.sink.spool.files ≡ some f
      → q ≢ part_place s.sink.upload
      → (with_errors ≡ false
          → is_short context.content_length s.sink.upload.size ≡ true
          → (q ≢ parked_place platform partial s.sink.upload)
            × (q ≢ (partial, parked_stem platform s.sink.upload ++ codes ".json")))
      → lookup q (end_upload platform context with_errors s).1.sink.spool.files ≡ some f
  unfolding end_upload
  end_upload-Keeps with_errors has placed q f found other parked =
      if_cases (Keeps q) with_errors _ _ (λ _. dropped-Keeps q other)
        (λ sent.
          if_cases (Keeps q) (is_short context.content_length s.sink.upload.size) _ _
            (λ short. refuse-Keeps q _ (
              park-elsewhere s.sink live platform context.now context.faults partial
                (short_reason platform context s.sink.upload.size) q other (parked sent short).0
                (parked sent short).1))
            λ _.
              if_cases (Keeps q) (s.sink.upload.size == 0) _ _ (λ _. dropped-Keeps q other)
                λ _.
                  if_cases (Keeps q)
                    (upload_already_held context.db_down s.uploads context.has_spool
                      (md5 platform s.sink.upload) s.sink.spool)
                    _ _ (λ _. dropped-Keeps q other)
                    (λ free. index-Keeps q _ (
                      finalize-elsewhere s.sink live platform q other
                        (not_held-unnamed context.db_down s.uploads (md5 platform s.sink.upload)
                          s.sink.spool placed (rw has at free) q f found)
                        context.now context.faults _ _ context.share_name)))
      ∙ found
