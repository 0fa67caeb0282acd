-- ===== src/Provider/Write/Session.antt =====
-- A whole PUT, as the server drives it: `begin_write`, `writelines` and `close` on the sink, and
-- `end_write`.
use paperless_webdav.Base.{
  ℕ, ◌≤◌, ◌≡◌, ◌⊎◌, inl, inr, ap, ◌∙◌, Bool, All, false, Option, List, [], ◌++◌, length, arith,
  Text,
}
use mathlib.Core.Path.{subst}
use paperless_webdav.Outcome.{ok}
use paperless_webdav.Spool.Store.{Spool}
use paperless_webdav.Spool.Upload.{SpooledUpload, Sink, Faults, Chunk, writelines, close}
use paperless_webdav.Spool.Upload.Live.{IsLive, close-IsLive}
use paperless_webdav.Spool.Upload.Laws.{joined, Arrives, writelines-IsLive}
use paperless_webdav.Spool.Release.{Platform}
use paperless_webdav.Services.Annotations.{UploadTable}
use paperless_webdav.Provider.Documents.{PaperlessDocument}
use paperless_webdav.Provider.Write.{WriteSettings, WriteContext, begin_write, end_upload}
use paperless_webdav.Provider.Write.Begin.{BeginTells, begin_write-BeginTells}
use paperless_webdav.Provider.Write.End.{EndTells, end_upload-EndTells}

module _ (platform : Platform) (open_fails : Bool) (settings : WriteSettings) (ids : List ℕ)
    (doc : PaperlessDocument) (path : Text) (username : Option Text) (now : ℕ) (spool_id : Text)
    (s : Spool) (faults : Faults) (context : WriteContext) (uploads : UploadTable) where
  -- A PUT that `begin_write` lets in, with chunks within the configured maximum, goes through every
  -- write, where no write of the file and not the flush and fsync of `close` raise `OSError`; and
  -- after `close` the sink holds exactly the bytes of the chunks in their order. Where `end_write`
  -- then returns, the transfer was as long as announced and these bytes are accounted for (there
  -- were none, or their digest has an ingested row, or a file of the spool is named with its first
  -- twelve digits, or they stand in `pending/` on disk). Where it raises, be it 400 for a short
  -- transfer or an `OSError`, some file of the spool has exactly these bytes, or they were
  -- accounted for in one of the first three ways before and the close or the unlink of `abort`
  -- raised.
  pub end_upload-begin_write :
      (u : SpooledUpload) (begun : Spool) (chunks : List Chunk)
      → begin_write open_fails settings ids doc path username now spool_id s ≡ (ok u, begun)
      → (settings.max_upload_bytes ≡ 0) ⊎ (length (joined chunks) ≤ settings.max_upload_bytes)
      → All Arrives chunks
      → (t c : Sink) × (writelines faults chunks (record { upload = u; spool = begun })
          ≡ (ok tt, t))
        × (close false t ≡ (ok tt, c))
        × (c.upload.received ≡ joined chunks)
        × ((live : IsLive c) × EndTells platform context
              (record { sink = c; uploads = uploads })
              live
              (end_upload platform context false (record { sink = c; uploads = uploads })))
  end_upload-begin_write u begun chunks let_in within arrive =
      let told =
        subst (BeginTells open_fails settings ids doc path username now spool_id s) let_in
          (begin_write-BeginTells open_fails settings ids doc path username now spool_id s) in
      let live : IsLive (record { upload = u; spool = begun }) = told.4 in
      let empty : u.received ≡ [] = told.7 in
      let max : u.max_bytes ≡ settings.max_upload_bytes = told.8 in
      let zero : u.size ≡ 0 = live.counted ∙ ap length empty in
      let (t, went, still, all, elsewhere) =
        writelines-IsLive faults chunks (record { upload = u; spool = begun }) live arrive
          (elim within [ inl z ↦ inl (max ∙ z) | inr le ↦ inr (omega (arith, le, max, zero)) ]) in
      let (c, shut, closed, same, disk) = close-IsLive t still in
      (
        t,
        c,
        went,
        shut,
        ap (λ (v : SpooledUpload). v.received) same
            ∙ all
            ∙ ap (λ (r : List ℕ). r ++ joined chunks) empty,
        (
          closed,
          end_upload-EndTells platform context (record { sink = c; uploads = uploads }) closed,
        ),
      )
