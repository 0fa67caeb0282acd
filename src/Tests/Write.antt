-- ===== src/Tests/Write.antt =====
-- The theorems on PUT in src/paperless_webdav/webdav_provider.py at concrete inputs.
use paperless_webdav.Base.{
  All, List, arith, ℕ_discrete, ◌≡◌, ◌≢◌, inl, inr, refl, ap, true, false, none, some, [], ◌∷◌,
  nat_eq, list_eq, pair_eq, lookup, In, is_infix, codes,
}
use paperless_webdav.Outcome.{ok}
use paperless_webdav.Spool.Store.{Spool, spool_usage_bytes, subdir_eq, File, Place, is_dir}
use paperless_webdav.Spool.Upload.{
  SpooledUpload, Sink, Chunk, part_place, fresh_upload, open_file, open_upload, writelines, close,
}
use paperless_webdav.Spool.Upload.Laws.{Arrives}
use paperless_webdav.Spool.Upload.Live.{IsLive}
use paperless_webdav.Services.Annotations.{upload_ingested}
use paperless_webdav.Provider.Write.{
  WriteSettings, WriteContext, WriteState, begin_write, upload_already_held, end_upload,
}
use paperless_webdav.Provider.Write.End.{EndTells, end_upload-EndTells}
use paperless_webdav.Provider.Write.Session.{end_upload-begin_write}
use paperless_webdav.Provider.Write.Keep.{end_upload-Keeps}
use paperless_webdav.Tests.Fixtures.{
  toy_platform, no_faults, old_place, an_old_file, a_spool, a_sink, a_sink-IsLive, document_at,
}

abbrev some_settings : WriteSettings
some_settings = record {
  write_back = codes "spool";
  has_spool = true;
  max_upload_bytes = 100;
  spool_max_bytes = 1000;
}

In-dirs : (q : Place) (f : File) → In (q, f) a_spool.files → is_dir a_spool.dirs q.0 ≡ true
unfolding is_dir subdir_eq
In-dirs q f (inl e) = ap (λ (t : Place × File). is_dir a_spool.dirs t.0.0) e
In-dirs q f (inr (inl e)) = ap (λ (t : Place × File). is_dir a_spool.dirs t.0.0) e
In-dirs q f (inr (inr m)) = absurd m

not_held : upload_already_held false [] true (codes "eee") a_spool ≡ false
unfolding upload_already_held list_eq nat_eq subdir_eq ℕ_discrete upload_ingested is_dir is_infix
not_held = refl

found_old : lookup old_place a_spool.files ≡ some an_old_file
unfolding lookup pair_eq subdir_eq list_eq nat_eq ℕ_discrete
found_old = refl

abbrev a_context : WriteContext
a_context = record {
  db_down = false;
  sizes = (7, (some (codes "2024-02-01"), 2)) ∷ [];
  documents = document_at 7 (codes "Bill") (3 ∷ []) ∷ [];
  share_name = some (codes "tax");
  document_id = 7;
  content_length = some 3;
  has_spool = true;
  now = 80;
  faults = no_faults;
}

abbrev a_state : WriteState
a_state = record { sink = a_sink; uploads = [] }

end_upload-EndTells_example :
    EndTells toy_platform a_context a_state a_sink-IsLive
      (end_upload toy_platform a_context false a_state)
end_upload-EndTells_example = end_upload-EndTells toy_platform a_context a_state a_sink-IsLive

-- The announced length is another than the three bytes received.
abbrev short_context : WriteContext
short_context = record a_context { content_length = some 4 }

old_place-other : old_place ≢ part_place a_sink.upload
old_place-other e = cc

end_upload-Keeps_example :
    lookup old_place (end_upload toy_platform short_context false a_state).1.sink.spool.files
    ≡ some an_old_file
end_upload-Keeps_example =
    end_upload-Keeps toy_platform short_context a_state a_sink-IsLive false refl In-dirs old_place
      an_old_file found_old old_place-other (λ sent short. ((λ e. cc), (λ e. cc)))

abbrev new_upload : SpooledUpload
new_upload = fresh_upload (codes "u2") (codes "/tax/Bill.pdf") (some 7) none 100

abbrev after_begin : Spool
after_begin = open_file 70 (part_place new_upload) a_spool

abbrev some_chunks : List Chunk
some_chunks =
    record { at = 71; bytes = 8 ∷ 9 ∷ []; torn = none }
    ∷ record { at = 72; bytes = 10 ∷ []; torn = none }
    ∷ []

arrive : All Arrives some_chunks
arrive = (refl, (refl, tt))

let_in :
    begin_write false some_settings
      (9 ∷ [])
      (document_at 7 (codes "Bill") (3 ∷ []))
      (codes "/tax/Bill.pdf")
      none
      70
      (codes "u2")
      a_spool
    ≡ (ok new_upload, after_begin)
unfolding begin_write open_upload spool_usage_bytes is_dir subdir_eq list_eq nat_eq ℕ_discrete
let_in = refl

end_upload-begin_write_example :
    (t c : Sink) × (writelines no_faults some_chunks
        (record { upload = new_upload; spool = after_begin })
      ≡ (ok tt, t))
    × (close false t ≡ (ok tt, c))
    × (c.upload.received ≡ 8 ∷ 9 ∷ 10 ∷ [])
    × ((live : IsLive c) × EndTells toy_platform a_context
          (record { sink = c; uploads = [] })
          live
          (end_upload toy_platform a_context false (record { sink = c; uploads = [] })))
end_upload-begin_write_example =
    end_upload-begin_write toy_platform false some_settings (9 ∷ [])
      (document_at 7 (codes "Bill") (3 ∷ [])) (codes "/tax/Bill.pdf") none 70 (codes "u2") a_spool
      no_faults a_context [] new_upload after_begin some_chunks let_in (inr (omega arith)) arrive
