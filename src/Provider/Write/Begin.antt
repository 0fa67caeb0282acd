-- ===== src/Provider/Write/Begin.antt =====
-- When a PUT is let in.
use paperless_webdav.Base.{
  ℕ, ◌≡◌, ◌≢◌, ◌⊎◌, ◌&&◌, inl, inr, refl, Bool, true, false, not, Option, some, List, [], arith,
  ◌==◌, nat_eq, list_eq, pair_eq, ◌<◌, if_cases, Text, codes,
}
use paperless_webdav.Outcome.{
  dav_error, os_error, Outcome, ok, raise, http_forbidden, http_insufficient_storage,
}
use paperless_webdav.Spool.Store.{
  incoming, subdir_eq, active_subdirs, Spool, is_dir, spool_usage_bytes,
}
use paperless_webdav.Spool.Upload.{SpooledUpload, open_upload}
use paperless_webdav.Spool.Upload.Live.{IsLive, fresh_upload-IsLive}
use paperless_webdav.Provider.Documents.{PaperlessDocument}
use paperless_webdav.Provider.Write.{WriteSettings, is_annotated_copy, spool_full, begin_write}

module _ (open_fails : Bool) (settings : WriteSettings) (ids : List ℕ) (doc : PaperlessDocument)
    (path : Text) (username : Option Text) (now : ℕ) (spool_id : Text) (s : Spool) where
  abbrev begun : Outcome SpooledUpload × Spool
  begun = begin_write open_fails settings ids doc path username now spool_id s

  -- What each answer of `begin_write` tells.
  abbrev pub BeginTells : Outcome SpooledUpload × Spool → Type 0
  BeginTells (ok u, t) =
      (settings.write_back ≢ codes "off")
      × (is_annotated_copy ids doc ≡ false)
      × (settings.has_spool ≡ true)
      × ((settings.spool_max_bytes ≡ 0)
          ⊎ (spool_usage_bytes s active_subdirs < settings.spool_max_bytes))
      × IsLive (record { upload = u; spool = t })
      × (open_fails ≡ false)
      × (is_dir s.dirs incoming ≡ true)
      × (u.received ≡ [])
      × (u.max_bytes ≡ settings.max_upload_bytes)
      × (u.path_document_id ≡ some doc.id)
  BeginTells (raise e, t) =
      (t ≡ s)
      × ((e ≡ os_error)
            × ((settings.write_back ≢ codes "off")
                × (is_annotated_copy ids doc ≡ false)
                × (settings.has_spool ≡ true)
                × (spool_full settings s ≡ false)
                × ((open_fails ≡ true) ⊎ (is_dir s.dirs incoming ≡ false)))
          ⊎ ((e ≡ dav_error http_forbidden)
                × ((settings.write_back ≡ codes "off")
                    ⊎ ((is_annotated_copy ids doc ≡ true) ⊎ (settings.has_spool ≡ false)))
              ⊎ ((e ≡ dav_error http_insufficient_storage) × (spool_full settings s ≡ true))))

  opened :
      settings.write_back ≢ codes "off"
      → is_annotated_copy ids doc ≡ false
      → settings.has_spool ≡ true
      → spool_full settings s ≡ false
      → BeginTells (
          open_upload open_fails now spool_id path
            (some doc.id)
            username
            settings.max_upload_bytes
            s)
  unfolding open_upload
  opened w a h f =
      if_cases BeginTells (not open_fails && is_dir s.dirs incoming) _ _
        (λ opens. (
          w,
          a,
          h,
          ground arith,
          fresh_upload-IsLive now spool_id path (some doc.id) username settings.max_upload_bytes s,
          ground arith,
          ground arith,
          refl,
          refl,
          refl,
        ))
        (λ closed. (refl, inl (refl, (w, a, h, f, ground arith))))

  pub begin_write-BeginTells :
      BeginTells (begin_write open_fails settings ids doc path username now spool_id s)
  unfolding begin_write
  begin_write-BeginTells =
      if_cases BeginTells (settings.write_back == codes "off") _ _
        (λ e. (refl, inr (inl (refl, inl (ground arith)))))
        λ w.
          if_cases BeginTells (is_annotated_copy ids doc) _ _
            (λ e. (refl, inr (inl (refl, inr (inl e)))))
            λ a.
              if_cases BeginTells (not settings.has_spool) _ _
                (λ e. (refl, inr (inl (refl, inr (inr (ground arith))))))
                λ h.
                  if_cases BeginTells (spool_full settings s) _ _ (λ e. (refl, inr (inr (refl, e))))
                    (λ f. opened (ground arith) a (ground arith) f)
