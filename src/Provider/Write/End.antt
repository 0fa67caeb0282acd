-- ===== src/Provider/Write/End.antt =====
-- What the answer to a PUT means for the bytes received.
use paperless_webdav.Base.{
  ℕ, ◌≡◌, ◌⊎◌, inl, inr, refl, ap, true, false, List, [], ◌∷◌, Bool-cases, ◌||◌, length, arith,
  ◌==◌, nat_eq, list_eq, pair_eq, if_cases,
}
use paperless_webdav.Outcome.{dav_error, os_error, Outcome, ok, raise, http_bad_request}
use paperless_webdav.Spool.Store.{pending, partial, subdir_eq, Place}
use paperless_webdav.Spool.Upload.{Sink, Faults, abort}
use paperless_webdav.Spool.Upload.Live.{IsLive}
use paperless_webdav.Spool.Release.{Platform, Meta, SpooledFile, md5, park}
use paperless_webdav.Spool.Release.Steps.{Holds, OnDisk}
use paperless_webdav.Spool.Release.Publish.{Retains, finalize-Retains}
use paperless_webdav.Spool.Release.Parked.{RetainsParked, park-Retains}
use paperless_webdav.Services.Annotations.{upload_ingested, record_pending}
use paperless_webdav.Provider.Write.{
  WriteContext, WriteState, is_short, refuse_short, dropped, index_upload, attributed, short_reason,
  end_upload, upload_already_held,
}
use paperless_webdav.Provider.Write.Held.{Named, upload_already_held_sound}

length-eq-zero : (xs : List ℕ) → length xs ≡ 0 → xs ≡ []
length-eq-zero [] h = refl
length-eq-zero (x ∷ xs) h = absurd (omega arith)

-- The close or the unlink of `abort` raises.
abbrev pub AbortFails : Faults → Type 0
AbortFails faults = (faults.close_fails ≡ true) ⊎ (faults.unlink_fails ≡ true)

abort_answer :
    (faults : Faults) (s : Sink)
    → ((abort faults s).0 ≡ ok tt) ⊎ (((abort faults s).0 ≡ raise os_error) × AbortFails faults)
unfolding abort
abort_answer faults s = elim (Bool-cases s.upload.released) [
  | inl e ↦ ground arith
  | inr e ↦ elim (Bool-cases (faults.close_fails || faults.unlink_fails)) [
    | inl fails ↦ inr (ground arith, ground arith)
    | inr works ↦ inl (ground arith)
  ]
]

module _ (platform : Platform) (context : WriteContext) (s : WriteState)
    (live : IsLive s.sink) where
  -- The upload went to `pending/`, on disk, with its attribution, and was recorded in the index.
  pub record Spooled (t : WriteState) : Type 0 where
    pub file : SpooledFile
    pub on_disk : OnDisk s.sink.upload.received file.path t.sink.spool
    pub in_pending : file.path.0 ≡ pending
    pub source : file.meta.source_document_id ≡ (attributed platform context s.sink.upload.size).0
    pub confidence :
        file.meta.source_confidence ≡ (attributed platform context s.sink.upload.size).1
    pub recorded : t.uploads ≡ record_pending context.db_down file s.uploads

  -- The bytes were accounted for before the PUT.
  abbrev Accounted : Type 0
  Accounted =
      (s.sink.upload.received ≡ [])
      ⊎ ((upload_ingested context.db_down (md5 platform s.sink.upload) s.uploads ≡ true)
          ⊎ Named context.db_down s.uploads (md5 platform s.sink.upload) s.sink.spool)

  -- What an answer means for the bytes received.
  abbrev pub EndTells : Outcome (Unit {0}) × WriteState → Type 0
  EndTells (ok _, t) =
      (is_short context.content_length s.sink.upload.size ≡ false)
      × ((s.sink.upload.received ≡ [])
          ⊎ ((upload_ingested context.db_down (md5 platform s.sink.upload) s.uploads ≡ true)
              ⊎ (Named context.db_down s.uploads (md5 platform s.sink.upload) s.sink.spool
                  ⊎ Spooled t)))
  EndTells (raise e, t) =
      ((e ≡ dav_error http_bad_request)
        × (is_short context.content_length s.sink.upload.size ≡ true)
        × ((p : Place) × OnDisk s.sink.upload.received p t.sink.spool × (p.0 ≡ partial)))
      ⊎ ((e ≡ os_error)
          × (((p : Place) × Holds s.sink.upload.received p t.sink.spool)
              ⊎ (Accounted × AbortFails context.faults)))

  refuse-EndTells :
      (r : Outcome Place × Sink)
      → RetainsParked s.sink live platform context.now context.faults partial
          (short_reason platform context s.sink.upload.size)
          r
      → is_short context.content_length s.sink.upload.size ≡ true
      → EndTells (refuse_short platform context s.uploads r)
  unfolding refuse_short
  refuse-EndTells (ok p, t) kept short = inl (refl, short, (p, kept.0, kept.1))
  refuse-EndTells (raise e, t) kept short = inr (kept.0, inl kept.1)

  dropped-EndTells :
      (r : Outcome (Unit {0}) × Sink)
      → (r.0 ≡ ok tt) ⊎ ((r.0 ≡ raise os_error) × AbortFails context.faults)
      → is_short context.content_length s.sink.upload.size ≡ false
      → Accounted
      → EndTells (dropped platform context s.uploads r)
  unfolding dropped
  dropped-EndTells (ok _, t) answer whole (inl e) = (whole, inl e)
  dropped-EndTells (ok _, t) answer whole (inr (inl e)) = (whole, inr (inl e))
  dropped-EndTells (ok _, t) answer whole (inr (inr e)) = (whole, inr (inr (inl e)))
  dropped-EndTells (raise x, t) (inl e) whole held = cc
  dropped-EndTells (raise x, t) (inr (e, fails)) whole held =
      inr (ground (arith, e), inr (held, fails))

  index-EndTells :
      (r : Outcome SpooledFile × Sink)
      → Retains s.sink live platform context.now context.faults
          (attributed platform context s.sink.upload.size).0
          (attributed platform context s.sink.upload.size).1
          context.share_name
          r
      → is_short context.content_length s.sink.upload.size ≡ false
      → EndTells (index_upload platform context s.uploads r)
  unfolding index_upload
  index-EndTells (ok f, t) kept whole =
      let (on_disk, in_pending, digest, meta, side, free) = kept in
      (
        whole,
        inr (
            inr (
              inr (record {
                file = f;
                on_disk = on_disk;
                in_pending = in_pending;
                source = ap (λ (m : Meta). m.source_document_id) meta;
                confidence = ap (λ (m : Meta). m.source_confidence) meta;
                recorded = refl;
              }))),
      )
  index-EndTells (raise e, t) kept whole = inr (kept.0, inl kept.1)

  -- A PUT whose upload is in flight and whose transfer reported no error is answered with success
  -- only if it was as long as announced and the bytes are accounted for: there were none; or their
  -- digest has an ingested row; or a file of the spool is named with its first twelve digits; or
  -- exactly they stand in `pending/` on disk, attributed by their size and recorded in the index.
  -- A short transfer is refused with 400, and what arrived stands in `partial/` on disk. The only
  -- other exception is an `OSError`, after which some file of the spool has exactly the bytes
  -- received, or they are accounted for in one of the first three ways and the
  -- close or the unlink of `abort` raised.
  pub end_upload-EndTells : EndTells (end_upload platform context false s)
  unfolding end_upload
  end_upload-EndTells =
      if_cases EndTells (is_short context.content_length s.sink.upload.size) _ _
        (λ short.
          refuse-EndTells (park platform context.now context.faults partial _ s.sink)
            (park-Retains s.sink live platform context.now context.faults partial _) short)
        λ whole.
          if_cases EndTells (s.sink.upload.size == 0) _ _
            (λ e.
              dropped-EndTells (abort context.faults s.sink) (abort_answer context.faults s.sink)
                whole (inl (length-eq-zero _ (ground (arith, live.counted)))))
            λ _.
              if_cases EndTells
                (upload_already_held context.db_down s.uploads context.has_spool
                  (md5 platform s.sink.upload) s.sink.spool)
                _ _
                (λ held.
                  dropped-EndTells (abort context.faults s.sink)
                    (abort_answer context.faults s.sink) whole
                    (inr (
                      upload_already_held_sound context.db_down s.uploads
                        (md5 platform s.sink.upload) s.sink.spool context.has_spool held)))
                (λ _.
                  index-EndTells _
                    (finalize-Retains s.sink live platform context.now context.faults _ _
                      context.share_name)
                    whole)
