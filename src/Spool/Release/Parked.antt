-- ===== src/Spool/Release/Parked.antt =====
-- A parked upload keeps its bytes.
use paperless_webdav.Base.{
  ℕ, ◌≡◌, ◌≢◌, inl, inr, refl, ap, sym, ◌∙◌, true, false, some, ◌++◌, arith, nat_eq, list_eq,
  pair_eq, lookup, if_cases, Text, codes,
}
use mathlib.Core.Bool.{false≢true}
use paperless_webdav.Outcome.{os_error, Outcome, ok, raise}
use paperless_webdav.Spool.Store.{Subdir, subdir_eq, Place, Spool}
use paperless_webdav.Spool.Upload.{Faults, Sink, part_place}
use paperless_webdav.Spool.Upload.Live.{IsLive}
use paperless_webdav.Spool.Release.{
  Platform, release, parked_stem, parked_meta, park, parked_place, settle_parked,
}
use paperless_webdav.Spool.Release.Steps.{
  pdf-ne-json, Holds, OnDisk, lookup-write_text, Moved, on_disk, part-release, Moved-cases,
}

module _ (s : Sink) (live : IsLive s) (platform : Platform) (now : ℕ) (faults : Faults)
    (subdir : Subdir) (reason : Text) where
  -- What `park` leaves, whether it returns or raises.
  abbrev pub RetainsParked : Outcome Place × Sink → Type 0
  RetainsParked (ok p, t) =
      OnDisk s.upload.received p t.spool
      × (p.0 ≡ subdir)
      × (lookup (subdir, parked_stem platform s.upload ++ codes ".json") t.spool.files
          ≡ some (record {
            content = platform.dumps_parked (parked_meta platform s.upload reason);
            mtime = now;
            synced = false;
          }))
      × (t.upload.released ≡ true)
  RetainsParked (raise e, t) = (e ≡ os_error) × ((p : Place) × Holds s.upload.received p t.spool)

  module _ (t : Spool)
      (m : Moved
        (part_place s.upload)
        (parked_place platform subdir s.upload)
        (on_disk s live)
        (release s).spool
        t) where
    at_place : lookup (parked_place platform subdir s.upload) t.files ≡ some (on_disk s live)
    at_place = ground (arith, m.lookup_moved (parked_place platform subdir s.upload))

    settle_parked-Retains :
        RetainsParked (settle_parked platform now faults subdir reason (release s) (some t))
    unfolding settle_parked release
    settle_parked-Retains =
        if_cases RetainsParked faults.sidecar_fails _ _
          (λ _. (
            refl,
            (
              parked_place platform subdir s.upload,
              record { file = on_disk s live; found = at_place; same = live.whole },
            ),
          ))
          (λ _. (
            record {
              holds = record {
                file = on_disk s live;
                found =
                    lookup-write_text now side (parked_place platform subdir s.upload) text t
                    ∙ ground (arith, other, at_place);
                same = live.whole;
              };
              synced = refl;
            },
            refl,
            ground (arith, lookup-write_text now side side text t),
            refl,
          ))
      where
        side : Place
        side = (subdir, parked_stem platform s.upload ++ codes ".json")

        text : Text
        text = platform.dumps_parked (parked_meta platform s.upload reason)

        other : side ≢ parked_place platform subdir s.upload
        other = λ e. pdf-ne-json (parked_stem platform s.upload) (ap (λ (p : Place). p.1) e)

  -- `park` of an upload in flight never loses it: if it returns, the named file of the directory has
  -- exactly the bytes received, on disk, beside its sidecar; if it raises, it is an `OSError` and
  -- some file of the spool has exactly the bytes received.
  pub park-Retains : RetainsParked (park platform now faults subdir reason s)
  unfolding park settle_parked
  park-Retains =
      if_cases RetainsParked s.upload.released _ _
        (λ e. absurd (false≢true (sym live.in_flight ∙ e)))
        λ _.
          if_cases RetainsParked faults.sync_fails _ _
            (λ _. (
              refl,
              (
                part_place s.upload,
                record { file = live.part; found = live.stored; same = live.whole },
              ),
            ))
            λ _.
              elim (Moved-cases s live faults.publish_fails
                (parked_place platform subdir s.upload)) [
                  | inl e ↦ rw e (
                    refl,
                    (
                      part_place s.upload,
                      record {
                        file = on_disk s live;
                        found = part-release s live;
                        same = live.whole;
                      },
                    ),
                  )
                  | inr (t, e, m) ↦ rw e (settle_parked-Retains t m)
                ]
