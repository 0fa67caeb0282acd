-- ===== src/Spool/Upload/Laws.antt =====
-- The sink keeps exactly what it was sent, and never more than the configured maximum.
use paperless_webdav.Base.{
  ℕ, ◌+◌, ◌≤◌, ◌<◌, ◌≡◌, ◌≢◌, ◌⊎◌, ◌||◌, All, inl, inr, refl, ap, true, false, none, some, List, [],
  ◌∷◌, ◌++◌, append-nil, append_assoc, arith, ◌==◌, if◌then◌else◌, nat_eq, list_eq, pair_eq, length,
  length-append, lookup, lookup-insert, lookup-erase, Bool-cases, Text, codes, ◌∙◌, sym, leb,
  leb→le,
}
use paperless_webdav.Outcome.{
  Error, Outcome, dav_error, os_error, ok, raise, http_insufficient_storage,
}
use paperless_webdav.Spool.Store.{incoming, subdir_eq, File, Place, Spool}
use paperless_webdav.Spool.Upload.{
  SpooledUpload, Sink, Faults, Chunk, part_place, append_to, abort, write, writelines, go_on,
}
use paperless_webdav.Spool.Upload.Live.{IsLive}

-- All the bytes of a list of chunks.
abbrev pub joined : List Chunk → List ℕ
joined [] = []
joined (c ∷ chunks) = c.bytes ++ joined chunks

-- The write of the file does not raise.
abbrev pub Arrives : Chunk → Type 0
Arrives c = c.torn ≡ none

-- Every file but the `.part` file is as it was.
pub record SameElsewhere (s t : Sink) : Type 0 where
  pub same_id : t.upload.spool_id ≡ s.upload.spool_id
  pub same_max : t.upload.max_bytes ≡ s.upload.max_bytes
  pub elsewhere :
      (p : Place) → p ≢ part_place s.upload → lookup p t.spool.files ≡ lookup p s.spool.files

-- `n` bytes are within the maximum of the upload, where zero means that there is none.
abbrev pub Allowed : SpooledUpload → ℕ → Type 0
Allowed u n = (u.max_bytes ≡ 0) ⊎ (n ≤ u.max_bytes)

lookup-append_to :
    (now : ℕ) (bytes : List ℕ) (s : Spool) (q p : Place) (f : File)
    → lookup p s.files ≡ some f
    → lookup q (append_to now bytes p s).files ≡ (
        if q == p
        then some (record { content = f.content ++ bytes; mtime = now; synced = false })
        else lookup q s.files)
unfolding append_to
lookup-append_to now bytes s q p f h = rw (h, append_to) (lookup-insert q p _ s.files)

-- The state after a write that is accepted.
abbrev written : Chunk → Sink → Sink
written c s = record {
  upload = record s.upload {
    size = s.upload.size + length c.bytes;
    received = s.upload.received ++ c.bytes;
  };
  spool = append_to c.at c.bytes (part_place s.upload) s.spool;
}

module _ (faults : Faults) (c : Chunk) (s : Sink) (live : IsLive s) (arrives : Arrives c) where
  write-Allowed :
      Allowed s.upload (s.upload.size + length c.bytes)
      → write faults c s ≡ (ok (length c.bytes), written c s)
  unfolding write
  write-Allowed h = ground (arith, live.in_flight, arrives)

  written-IsLive : Allowed s.upload (s.upload.size + length c.bytes) → IsLive (written c s)
  written-IsLive h = record {
    in_flight = live.in_flight;
    part = record { content = live.part.content ++ c.bytes; mtime = c.at; synced = false };
    stored = ground (
      arith,
      lookup-append_to c.at c.bytes s.spool (part_place s.upload) (part_place s.upload) live.part
          live.stored,
    );
    whole = ap (λ (r : List ℕ). r ++ c.bytes) live.whole;
    counted = omega (arith, length-append s.upload.received c.bytes, live.counted);
    allowed = ground arith;
  }

  written-SameElsewhere : SameElsewhere s (written c s)
  written-SameElsewhere = record {
    same_id = refl;
    same_max = refl;
    elsewhere = λ p other. ground (
      arith,
      lookup-append_to c.at c.bytes s.spool p (part_place s.upload) live.part live.stored,
    );
  }

SameElsewhere-trans : (s t u : Sink) → SameElsewhere s t → SameElsewhere t u → SameElsewhere s u
SameElsewhere-trans s t u a b = record {
  same_id = b.same_id ∙ a.same_id;
  same_max = b.same_max ∙ a.same_max;
  elsewhere = λ p other.
      b.elsewhere p (λ e. other (e ∙ ap (λ (i : Text). (incoming, i ++ codes ".part")) a.same_id))
      ∙ a.elsewhere p other;
}

-- Chunks to an upload in flight that stay within the maximum are all accepted, where no write of the
-- file raises `OSError`: the sink is in flight as before, it holds what it held followed by every byte
-- of the chunks in order, and no other file has changed.
pub writelines-IsLive :
    (faults : Faults) (chunks : List Chunk) (s : Sink)
    → IsLive s
    → All Arrives chunks
    → Allowed s.upload (s.upload.size + length (joined chunks))
    → (t : Sink) × (writelines faults chunks s ≡ (ok tt, t))
      × IsLive t
      × (t.upload.received ≡ s.upload.received ++ joined chunks)
      × SameElsewhere s t
unfolding writelines
writelines-IsLive faults [] s live arrive h = (
  s,
  refl,
  live,
  sym (append-nil _),
  record { same_id = refl; same_max = refl; elsewhere = λ p other. refl },
)
writelines-IsLive faults (c ∷ chunks) s live (arrives, arrive) h =
    let total = length-append c.bytes (joined chunks) in
    let e = write-Allowed faults c s live arrives (ground arith) in
    let (t, run, alive, got, same) =
      writelines-IsLive faults chunks (written c s)
        (written-IsLive faults c s live arrives (ground arith)) arrive (ground arith) in
    (
      t,
      rw (e, go_on) run,
      alive,
      got ∙ append_assoc s.upload.received c.bytes (joined chunks),
      SameElsewhere-trans _ _ _ (written-SameElsewhere faults c s live arrives) same,
    )

-- The upload that a chunk took past its maximum, with the answer of `abort`.
aborted : Faults → Chunk → Sink → Outcome (Unit {0}) × Sink
unfolding abort
aborted faults c s =
    abort faults (record s { upload = record s.upload { size = s.upload.size + length c.bytes } })

-- What a refused write raises.
abbrev pub refusal : Faults → Error
refusal faults =
    if faults.close_fails || faults.unlink_fails
    then os_error
    else dav_error http_insufficient_storage

write_refused :
    (faults : Faults) (c : Chunk) (s : Sink)
    → IsLive s
    → s.upload.max_bytes ≢ 0
    → s.upload.max_bytes < s.upload.size + length c.bytes
    → write faults c s ≡ (raise (refusal faults), (aborted faults c s).1)
unfolding write aborted abort
write_refused faults c s live h over =
    let fails = Bool-cases (faults.close_fails || faults.unlink_fails) in
    ground (arith, live.in_flight, fails)

aborted-gone :
    (faults : Faults) (c : Chunk) (s : Sink)
    → IsLive s
    → ((aborted faults c s).1.upload.released ≡ true)
      × ((faults.unlink_fails ≡ true)
          ⊎ (lookup (part_place s.upload) (aborted faults c s).1.spool.files ≡ none))
      × SameElsewhere s (aborted faults c s).1
unfolding aborted abort
aborted-gone faults c s live = rw live.in_flight (
  refl,
  elim (Bool-cases faults.unlink_fails) [
    | inl stays ↦ inl stays
    | inr e ↦
        inr (
          ground (arith, e, lookup-erase (part_place s.upload) (part_place s.upload) s.spool.files))
  ],
  record {
    same_id = refl;
    same_max = refl;
    elsewhere = λ p other. ground (arith, lookup-erase p (part_place s.upload) s.spool.files);
  },
)

-- Chunks that take an upload in flight past its maximum are refused, where no write of the file
-- raises `OSError`: with 507 Insufficient Storage, or with an `OSError` where the close or the unlink
-- raises one. The upload is released, its `.part` file is gone unless the unlink raised, and no other
-- file has changed.
pub writelines-refused :
    (faults : Faults) (chunks : List Chunk) (s : Sink)
    → IsLive s
    → All Arrives chunks
    → s.upload.max_bytes ≢ 0
    → s.upload.max_bytes < s.upload.size + length (joined chunks)
    → (t : Sink) × (writelines faults chunks s ≡ (raise (refusal faults), t))
      × (t.upload.released ≡ true)
      × ((faults.unlink_fails ≡ true) ⊎ (lookup (part_place s.upload) t.spool.files ≡ none))
      × SameElsewhere s t
unfolding writelines
writelines-refused faults [] s live arrive h over = absurd (ground (arith, live.allowed))
writelines-refused faults (c ∷ chunks) s live (arrives, arrive) h over =
    elim (Bool-cases (leb (s.upload.size + length c.bytes) s.upload.max_bytes)) [
      | inl small ↦
          let allowed = inr (leb→le _ _ small) in
          let e = write-Allowed faults c s live arrives allowed in
          let total = length-append c.bytes (joined chunks) in
          let (t, run, free, gone, same) =
            writelines-refused faults chunks (written c s)
              (written-IsLive faults c s live arrives allowed) arrive h (omega arith) in
          (
            t,
            rw (e, go_on) run,
            free,
            gone,
            SameElsewhere-trans _ _ _ (written-SameElsewhere faults c s live arrives) same,
          )
      | inr big ↦
          let e = write_refused faults c s live h (ground arith) in
          let (free, gone, same) = aborted-gone faults c s live in
          ((aborted faults c s).1, rw (e, go_on), free, gone, same)
    ]
