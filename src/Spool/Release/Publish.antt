-- ===== src/Spool/Release/Publish.antt =====
-- No ending of an upload loses bytes that were received.
use paperless_webdav.Base.{
  ℕ, ◌≡◌, ◌≢◌, inl, inr, refl, ap, sym, ◌∙◌, Bool, true, false, Option, some, arith, if◌then◌else◌,
  nat_eq, list_eq, pair_eq, lookup, if_cases, Text,
}
use mathlib.Core.Bool.{false≢true}
use paperless_webdav.Outcome.{os_error, Outcome, ok, raise}
use paperless_webdav.Spool.Attribution.{Confidence}
use paperless_webdav.Spool.Store.{pending, failed, subdir_eq, Place, Spool}
use paperless_webdav.Spool.Upload.{Faults, Sink, part_place}
use paperless_webdav.Spool.Upload.Live.{IsLive}
use paperless_webdav.Spool.Release.{
  Platform, SpooledFile, release, write_text, published_stem, published_meta, rescue, parked_place,
  target, sidecar, settle, finalize,
}
use paperless_webdav.Spool.Release.Steps.{
  pdf-ne-json, Holds, OnDisk, lookup-write_text, Moved, on_disk, lookup-release, part-release,
  Moved-cases,
}

module _ (s : Sink) (live : IsLive s) where
  module _ (platform : Platform) where
    rescue-Holds :
        (faults : Faults)
        → (p : Place) × Holds s.upload.received p (rescue platform faults (release s)).spool
    unfolding rescue release
    rescue-Holds faults =
        elim (Moved-cases s live faults.rescue_fails (parked_place platform failed s.upload)) [
          | inl e ↦ (
            part_place s.upload,
            rw (e, rescue)
                (record { file = on_disk s live; found = part-release s live; same = live.whole }),
          )
          | inr (t, e, m) ↦ (
            parked_place platform failed s.upload,
            rw (e, rescue)
                (record {
                  file = on_disk s live;
                  found = ground (arith, m.lookup_moved (parked_place platform failed s.upload));
                  same = live.whole;
                }),
          )
        ]

    module _ (now : ℕ) (faults : Faults) (source : Option ℕ) (confidence : Confidence)
        (share : Option Text) where
      -- What `finalize` leaves, whether it returns or raises.
      abbrev pub Retains : Outcome SpooledFile × Sink → Type 0
      Retains (ok f, t) =
          OnDisk s.upload.received f.path t.spool
          × (f.path.0 ≡ pending)
          × (f.md5 ≡ platform.hexdigest s.upload.received)
          × (f.meta ≡ published_meta platform now source confidence share s.upload)
          × (lookup f.sidecar t.spool.files ≡ (
              if faults.sidecar_fails
              then lookup f.sidecar s.spool.files
              else some (record { content = platform.dumps f.meta; mtime = now; synced = false })))
          × (t.upload.released ≡ true)
      Retains (raise e, t) = (e ≡ os_error) × ((p : Place) × Holds s.upload.received p t.spool)

      settled : Spool → Outcome SpooledFile × Sink
      settled t = settle platform now faults source confidence share (release s) (some t)

      settled-Retains :
          (t : Spool)
          → Moved
              (part_place s.upload)
              (target platform now faults source confidence share s.upload)
              (on_disk s live)
              (release s).spool
              t
          → Retains (settled t)
      unfolding settled settle release
      settled-Retains t m = (
        record {
          holds = record {
            file = on_disk s live;
            found =
                if_cases (λ x. lookup place x.files ≡ some (on_disk s live)) faults.sidecar_fails t
                  _ (λ e. at_target)
                  (λ e. lookup-write_text now side place _ t ∙ ground (arith, other, at_target));
            same = live.whole;
          };
          synced = refl;
        },
        refl,
        refl,
        refl,
        at_side faults.sidecar_fails,
        refl,
      )
        where
          place : Place
          place = target platform now faults source confidence share s.upload

          side : Place
          side = sidecar platform now faults source confidence share s.upload

          at_target : lookup place t.files ≡ some (on_disk s live)
          at_target = ground (arith, m.lookup_moved place)

          other : side ≢ place
          other =
              λ e. pdf-ne-json (published_stem platform source s.upload) (ap (λ (p : Place). p.1) e)

          at_side :
              (b : Bool)
              → lookup side
                  (if b
                    then t
                    else write_text now side
                        (platform.dumps
                          (published_meta platform now source confidence share s.upload))
                        t).files
                ≡ (if b
                    then lookup side s.spool.files
                    else some (record {
                      content =
                          platform.dumps
                            (published_meta platform now source confidence share s.upload);
                      mtime = now;
                      synced = false;
                    }))
          at_side true = ground (arith, other, m.lookup_moved side, lookup-release s live side)
          at_side false = ground (
            arith,
            lookup-write_text now side side
                (platform.dumps (published_meta platform now source confidence share s.upload)) t,
          )

      -- `finalize` of an upload in flight never loses it, whichever system calls fail: if it
      -- returns, the named file of `pending/` has exactly the bytes received, on disk, the record
      -- has their digest and the provenance given, and the sidecar is written unless that failed;
      -- if it raises, it is an `OSError` and some file of the spool has exactly the bytes
      -- received.
      pub finalize-Retains : Retains (finalize platform now faults source confidence share s)
      unfolding finalize settled
      finalize-Retains =
          if_cases Retains s.upload.released _ _ (λ e. absurd (false≢true (sym live.in_flight ∙ e)))
            λ _.
              if_cases Retains faults.sync_fails _ _
                (λ _. (
                  refl,
                  (
                    part_place s.upload,
                    record { file = live.part; found = live.stored; same = live.whole },
                  ),
                ))
                λ _.
                  elim (Moved-cases s live faults.publish_fails
                    (target platform now faults source confidence share s.upload)) [
                      | inl e ↦ rw e (refl, rescue-Holds faults)
                      | inr (t, e, m) ↦ rw e (settled-Retains t m)
                    ]
