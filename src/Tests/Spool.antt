-- ===== src/Tests/Spool.antt =====
-- The theorems on src/paperless_webdav/spool.py at concrete inputs.
use paperless_webdav.Base.{
  ◌⊎◌, All, Option, Text, insert, In, ℕ_discrete, Bool, ◌≡◌, ◌≢◌, inr, refl, true, false, none,
  some, List, [], ◌∷◌, ◌++◌, arith, nat_eq, list_eq, pair_eq, take, lookup, NodupKeys, is_infix,
  codes,
}
use paperless_webdav.Outcome.{ok, raise}
use paperless_webdav.Spool.Attribution.{by_size, attribute_source}
use paperless_webdav.Spool.Attribution.Verdict.{Explains, attribute_source-Explains}
use paperless_webdav.Spool.Store.{pending, incoming, partial, ingested, subdir_eq, Place, is_dir}
use paperless_webdav.Spool.Upload.{Sink, Chunk, part_place, writelines}
use paperless_webdav.Spool.Upload.Live.{IsLive}
use paperless_webdav.Spool.Upload.Laws.{
  SameElsewhere, joined, Arrives, refusal, writelines-IsLive, writelines-refused,
}
use paperless_webdav.Spool.Pending.{PendingFile, list_pending}
use paperless_webdav.Spool.Pending.Published.{list_pending-finalize}
use paperless_webdav.Spool.Release.{Meta, SpooledFile, spooled_file, md5, park, finalize}
use paperless_webdav.Spool.Release.Publish.{Retains, finalize-Retains}
use paperless_webdav.Spool.Release.Parked.{RetainsParked, park-Retains}
use paperless_webdav.Tests.Fixtures.{
  toy_platform, no_faults, an_upload, a_part, old_place, a_spool, a_sink, a_sink-IsLive,
}

attribute_source-Explains_example :
    Explains 5000
      ((7, 4000) ∷ (8, 2000000) ∷ [])
      (some 8)
      (attribute_source 5000 ((7, 4000) ∷ (8, 2000000) ∷ []) (some 8))
attribute_source-Explains_example =
    attribute_source-Explains 5000 ((7, 4000) ∷ (8, 2000000) ∷ []) (some 8)

by_size_run : attribute_source 5000 ((7, 4000) ∷ (8, 2000000) ∷ []) (some 8) ≡ (some 7, by_size)
unfolding attribute_source nat_eq ℕ_discrete
by_size_run = refl

no_error : Place → Bool
no_error p = false

a_spool-NodupKeys : NodupKeys a_spool.files
unfolding lookup pair_eq subdir_eq list_eq nat_eq ℕ_discrete
a_spool-NodupKeys = (refl, (refl, tt))

a_spool-incoming : is_dir a_spool.dirs incoming ≡ true
unfolding is_dir subdir_eq
a_spool-incoming = refl

a_spool-ingested : is_dir a_spool.dirs ingested ≡ true
unfolding is_dir subdir_eq
a_spool-ingested = refl

abbrev some_chunks : List Chunk
some_chunks =
    record { at = 60; bytes = 8 ∷ 9 ∷ []; torn = none }
    ∷ record { at = 61; bytes = 10 ∷ []; torn = none }
    ∷ []

arrive : All Arrives some_chunks
arrive = (refl, (refl, tt))

writelines-IsLive_example :
    (t : Sink) × (writelines no_faults some_chunks a_sink ≡ (ok tt, t))
    × IsLive t
    × (t.upload.received ≡ (1 ∷ 2 ∷ 3 ∷ []) ++ joined some_chunks)
    × SameElsewhere a_sink t
writelines-IsLive_example =
    writelines-IsLive no_faults some_chunks a_sink a_sink-IsLive arrive (inr (omega arith))

abbrev small_sink : Sink
small_sink = record a_sink { upload = record an_upload { max_bytes = 4 } }

small_sink-IsLive : IsLive small_sink
unfolding lookup pair_eq subdir_eq list_eq nat_eq ℕ_discrete
small_sink-IsLive = record {
  in_flight = refl;
  part = a_part;
  stored = refl;
  whole = refl;
  counted = refl;
  allowed = refl;
}

writelines-refused_example :
    (t : Sink) × (writelines no_faults some_chunks small_sink ≡ (raise (refusal no_faults), t))
    × (t.upload.released ≡ true)
    × ((no_faults.unlink_fails ≡ true)
        ⊎ (lookup (part_place small_sink.upload) t.spool.files ≡ none))
    × SameElsewhere small_sink t
writelines-refused_example =
    writelines-refused no_faults some_chunks small_sink small_sink-IsLive arrive (omega arith)
      (omega arith)

finalize-Retains_example :
    Retains a_sink a_sink-IsLive toy_platform 70 no_faults
      (some 7)
      by_size
      (some (codes "tax"))
      (finalize toy_platform 70 no_faults (some 7) by_size (some (codes "tax")) a_sink)
finalize-Retains_example =
    finalize-Retains a_sink a_sink-IsLive toy_platform 70 no_faults (some 7) by_size
      (some (codes "tax"))

park-Retains_example :
    RetainsParked a_sink a_sink-IsLive toy_platform 70 no_faults partial
      (codes "short")
      (park toy_platform 70 no_faults partial (codes "short") a_sink)
park-Retains_example =
    park-Retains a_sink a_sink-IsLive toy_platform 70 no_faults partial (codes "short")

old_place-other : old_place ≢ part_place a_sink.upload
old_place-other e = cc

old_place-strange : is_infix (take 12 (md5 toy_platform a_sink.upload)) old_place.1 ≡ false
unfolding is_infix list_eq nat_eq ℕ_discrete
old_place-strange = refl

abbrev published_file : SpooledFile
published_file = spooled_file toy_platform 70 no_faults (some 7) by_size none an_upload

abbrev after_finalize : Sink
after_finalize = (finalize toy_platform 70 no_faults (some 7) by_size none a_sink).1

abbrev toy_parse : Text → Option Meta
toy_parse text = some published_file.meta

pending_there : is_dir a_sink.spool.dirs pending ≡ true
unfolding is_dir subdir_eq
pending_there = refl

finalized :
    finalize toy_platform 70 no_faults (some 7) by_size none a_sink
    ≡ (ok published_file, after_finalize)
unfolding finalize lookup insert is_dir subdir_eq pair_eq list_eq nat_eq ℕ_discrete
finalized = refl

list_pending-finalize_example :
    (e : PendingFile) × In e (list_pending toy_parse after_finalize.spool)
    × (e.path ≡ published_file.path)
    × (e.sidecar ≡ published_file.sidecar)
    × (e.md5 ≡ published_file.md5)
    × (e.size ≡ published_file.size)
    × (e.meta ≡ some published_file.meta)
list_pending-finalize_example =
    list_pending-finalize toy_platform 70 no_faults (some 7) by_size none toy_parse a_sink
      published_file after_finalize refl a_sink-IsLive pending_there refl finalized
