-- ===== src/Spool/Release/Frame.antt =====
-- What the ends of an upload leave alone, and that an upload ends once.
use paperless_webdav.Base.{
  ℕ, ◌≡◌, ◌≢◌, inl, inr, refl, ap, sym, ◌∙◌, true, false, Option, some, ◌++◌, append_assoc, arith,
  nat_eq, list_eq, pair_eq, lookup, if_cases, Text, codes, take, is_infix, is_infix-append,
}
use mathlib.Core.Bool.{false≢true}
use paperless_webdav.Outcome.{Outcome}
use paperless_webdav.Spool.Attribution.{Confidence}
use paperless_webdav.Spool.Store.{Subdir, pending, failed, subdir_eq, Place, Spool}
use paperless_webdav.Spool.Upload.{Sink, Faults, part_place}
use paperless_webdav.Spool.Upload.Live.{IsLive}
use paperless_webdav.Spool.Release.{
  Platform, SpooledFile, parked_stem, parked_meta, settle_parked, park, release, md5,
  published_stem, published_meta, source_label, rescue, parked_place, target, sidecar, settle,
  finalize,
}
use paperless_webdav.Spool.Release.Steps.{
  lookup-write_text, Moved, on_disk, lookup-release, Moved-cases,
}

-- A name that the text stands in.
named :
    (label dash digest suffix : Text)
    → is_infix digest ((label ++ (dash ++ digest)) ++ suffix) ≡ true
named label dash digest suffix =
    rw
      (
        append_assoc label (dash ++ digest) suffix,
        append_assoc dash digest suffix,
        ← append_assoc label dash (digest ++ suffix),
      )
      (is_infix-append (label ++ dash) digest suffix)

-- A place whose name the digest does not stand in is none that an end of the upload names.
foreign :
    (label dash digest suffix : Text) (d : Subdir) (q : Place)
    → is_infix digest q.1 ≡ false
    → q ≢ (d, (label ++ (dash ++ digest)) ++ suffix)
foreign label dash digest suffix d q h e =
    false≢true (sym h ∙ ap (λ (p : Place). is_infix digest p.1) e ∙ named label dash digest suffix)

module _ (s : Sink) (live : IsLive s) (platform : Platform) (now : ℕ) (faults : Faults)
    (subdir : Subdir) (reason : Text) (q : Place) (part : q ≢ part_place s.upload)
    (pdf : q ≢ parked_place platform subdir s.upload)
    (json : q ≢ (subdir, parked_stem platform s.upload ++ codes ".json")) where
  settle_parked-elsewhere :
      (t : Spool)
      → lookup q t.files ≡ lookup q s.spool.files
      → lookup q
          (settle_parked platform now faults subdir reason (release s) (some t)).1.spool.files
        ≡ lookup q s.spool.files
  unfolding settle_parked release
  settle_parked-elsewhere t kept =
      if_cases (λ (r : Outcome Place × Sink). lookup q r.1.spool.files ≡ lookup q s.spool.files)
        faults.sidecar_fails _ _ (λ _. kept)
        (λ _.
          lookup-write_text now (subdir, parked_stem platform s.upload ++ codes ".json") q
            (platform.dumps_parked (parked_meta platform s.upload reason)) t
          ∙ ground (arith, kept, json))

  -- `park` of an upload in flight changes no file but the `.part` file and the two that it names.
  pub park-elsewhere :
      lookup q (park platform now faults subdir reason s).1.spool.files ≡ lookup q s.spool.files
  unfolding park settle_parked
  park-elsewhere =
      let Same : Outcome Place × Sink → Type 0 =
        λ r. lookup q r.1.spool.files ≡ lookup q s.spool.files in
      let released : lookup q (release s).spool.files ≡ lookup q s.spool.files =
        ground (arith, lookup-release s live q, part) in
      if_cases Same s.upload.released _ _ (λ e. refl)
        λ _.
          if_cases Same faults.sync_fails _ _ (λ _. refl)
            λ _.
              elim (Moved-cases s live faults.publish_fails
                (parked_place platform subdir s.upload)) [
                  | inl e ↦ rw e released
                  | inr (t, e, m) ↦ rw e (
                      settle_parked-elsewhere t
                        (ground (arith, m.lookup_moved q, released, part, pdf)))
                ]

module _ (s : Sink) (live : IsLive s) (platform : Platform) (q : Place)
    (other : q ≢ part_place s.upload)
    (strange : is_infix (take 12 (md5 platform s.upload)) q.1 ≡ false) where
  lookup-release_other : lookup q (release s).spool.files ≡ lookup q s.spool.files
  lookup-release_other = ground (arith, lookup-release s live q)

  lookup-Moved :
      (p : Place) (t : Spool)
      → q ≢ p
      → Moved (part_place s.upload) p (on_disk s live) (release s).spool t
      → lookup q t.files ≡ lookup q s.spool.files
  lookup-Moved p t ne m = ground (arith, m.lookup_moved q, lookup-release_other)

  module _ (now : ℕ) (faults : Faults) (source : Option ℕ) (confidence : Confidence)
      (share : Option Text) where
    abbrev Same : Outcome SpooledFile × Sink → Type 0
    Same r = lookup q r.1.spool.files ≡ lookup q s.spool.files

    rescue-elsewhere :
        lookup q (rescue platform faults (release s)).spool.files ≡ lookup q s.spool.files
    unfolding rescue release
    rescue-elsewhere =
        elim (Moved-cases s live faults.rescue_fails (parked_place platform failed s.upload)) [
          | inl e ↦ rw (e, rescue) lookup-release_other
          | inr (t, e, m) ↦
              rw (e, rescue)
                (lookup-Moved (parked_place platform failed s.upload) t
                  (foreign s.upload.spool_id (codes "-") (take 12 (md5 platform s.upload))
                    (codes ".pdf") failed q strange)
                  m)
        ]

    settle-elsewhere :
        (t : Spool)
        → Moved
            (part_place s.upload)
            (target platform now faults source confidence share s.upload)
            (on_disk s live)
            (release s).spool
            t
        → Same (settle platform now faults source confidence share (release s) (some t))
    unfolding settle release
    settle-elsewhere t m =
        if_cases (λ x. lookup q x.files ≡ lookup q s.spool.files) faults.sidecar_fails t _
          (λ _. kept)
          (λ _.
            lookup-write_text now (sidecar platform now faults source confidence share s.upload) q
              (platform.dumps (published_meta platform now source confidence share s.upload)) t
            ∙ ground (arith, kept, away (codes ".json")))
      where
        away : (suffix : Text) → q ≢ (pending, published_stem platform source s.upload ++ suffix)
        away suffix =
            foreign (source_label platform source) (codes "-") (take 12 (md5 platform s.upload))
              suffix pending q strange

        kept : lookup q t.files ≡ lookup q s.spool.files
        kept =
            lookup-Moved (target platform now faults source confidence share s.upload) t
              (away (codes ".pdf")) m

    -- `finalize` of an upload in flight changes no file but the `.part` file and those whose names
    -- hold the first twelve digits of the digest.
    pub finalize-elsewhere :
        lookup q (finalize platform now faults source confidence share s).1.spool.files
        ≡ lookup q s.spool.files
    unfolding finalize settle
    finalize-elsewhere =
        if_cases Same s.upload.released _ _ (λ e. refl)
          λ _.
            if_cases Same faults.sync_fails _ _ (λ _. refl)
              λ _.
                elim (Moved-cases s live faults.publish_fails
                  (target platform now faults source confidence share s.upload)) [
                    | inl e ↦ rw e rescue-elsewhere
                    | inr (t, e, m) ↦ rw e (settle-elsewhere t m)
                  ]
