-- ===== src/Spool/Store/Housekeeping.antt =====
-- What the startup sweep, the pruning and the usage count do to the spool.
use paperless_webdav.Base.{
  ℕ, ◌+◌, ◌≡◌, ◌⊎◌, In, refl, Bool, true, false, ◌&&◌, not, List, [], ◌∷◌, arith, Dict, lookup,
  keep_unless, count_where, filter_value, NodupKeys, lookup-keep_unless, length-keep_unless, length,
  Text, if◌then◌else◌, ◌==◌, Bool-cases, inl, inr, pair_eq, list_eq, nat_eq,
}
use paperless_webdav.Spool.Store.{
  Subdir, incoming, pending, ingested, failed, quarantine, unmatched, partial, subdir_eq,
  spool_subdirs, active_subdirs, File, Place, Spool, is_dir, make_dir, make_dirs, spool_dirs,
  is_stale, sweep_on_start, usage_in, spool_usage_bytes, is_expired, prune_ingested,
}

is_dir-make_dir :
    (dirs : List Subdir) (d e : Subdir)
    → is_dir (make_dir dirs e) d ≡ (if d == e then true else is_dir dirs d)
unfolding make_dir is_dir
is_dir-make_dir dirs d e = ground arith

is_dir-make_dirs :
    (dirs : List Subdir) (d : Subdir) (names : List Subdir)
    → In d names ⊎ (is_dir dirs d ≡ true)
    → is_dir (make_dirs dirs names) d ≡ true
unfolding make_dirs
is_dir-make_dirs dirs d [] (inl m) = absurd m
is_dir-make_dirs dirs d [] (inr h) = h
is_dir-make_dirs dirs d (e ∷ names) (inl (inl same)) =
    is_dir-make_dirs (make_dir dirs e) d names (inr (ground (arith, is_dir-make_dir dirs d e)))
is_dir-make_dirs dirs d (e ∷ names) (inl (inr m)) =
    is_dir-make_dirs (make_dir dirs e) d names (inl m)
is_dir-make_dirs dirs d (e ∷ names) (inr h) =
    is_dir-make_dirs (make_dir dirs e) d names (inr (ground (arith, is_dir-make_dir dirs d e)))

pub In-spool_subdirs : (d : Subdir) → In d spool_subdirs
In-spool_subdirs incoming = inl refl
In-spool_subdirs pending = inr (inl refl)
In-spool_subdirs ingested = inr (inr (inl refl))
In-spool_subdirs failed = inr (inr (inr (inl refl)))
In-spool_subdirs quarantine = inr (inr (inr (inr (inl refl))))
In-spool_subdirs unmatched = inr (inr (inr (inr (inr (inl refl)))))
In-spool_subdirs partial = inr (inr (inr (inr (inr (inr (inl refl))))))

-- After `spool_dirs` every state has its directory, and the files are as they were.
pub spool_dirs-is_dir :
    (s : Spool) (d : Subdir)
    → (is_dir (spool_dirs s).dirs d ≡ true) × ((spool_dirs s).files ≡ s.files)
unfolding spool_dirs
spool_dirs-is_dir s d = (is_dir-make_dirs s.dirs d spool_subdirs (inl (In-spool_subdirs d)), refl)

usage_in-entry :
    (d : Subdir) (p : Place → File → Bool) (e : Subdir) (q : Text) (f : File)
    → p (d, q) f ≡ false
    → (kept files : Dict Place File) → usage_in d kept ≡ usage_in d files
    → usage_in d (if p (e, q) f then kept else ((e, q), f) ∷ kept)
      ≡ usage_in d (((e, q), f) ∷ files)
unfolding usage_in
usage_in-entry d p e q f h kept files same = ground arith

-- The usage of a directory in which nothing is removed.
usage_in-keep_unless :
    (d : Subdir) (p : Place → File → Bool) (files : Dict Place File)
    → ((q : Text) (f : File) → p (d, q) f ≡ false)
    → usage_in d (keep_unless p files) ≡ usage_in d files
unfolding usage_in keep_unless
usage_in-keep_unless d p [] h = refl
usage_in-keep_unless d p (((e, q), f) ∷ files) h =
    usage_in-entry d p e q f (h q f) (keep_unless p files) files (usage_in-keep_unless d p files h)

spool_usage_bytes-eq :
    (dirs : List Subdir) (old new : Dict Place File) (names : List Subdir)
    → ((d : Subdir) → In d names → usage_in d new ≡ usage_in d old)
    → spool_usage_bytes (record { dirs = dirs; files = new }) names
      ≡ spool_usage_bytes (record { dirs = dirs; files = old }) names
unfolding spool_usage_bytes
spool_usage_bytes-eq dirs old new [] h = refl
spool_usage_bytes-eq dirs old new (d ∷ names) h =
    ground (arith, h d (inl refl), spool_usage_bytes-eq dirs old new names (λ e m. h e (inr m)))

active-ne-ingested : (d : Subdir) → In d active_subdirs → (d == ingested) ≡ false
active-ne-ingested d m = ground arith

module _ (now : ℕ) (fails : Place → Bool) (s : Spool) (u : NodupKeys s.files) where
  -- Where `incoming/` is there, the startup sweep removes exactly the `.part` files of it that are
  -- at least `max_age` old and that the system lets it remove; every other file stays as it was,
  -- and the result is the number of files removed.
  pub sweep_on_start-removes :
      (max_age : ℕ)
      → is_dir s.dirs incoming ≡ true
      → ((p : Place)
          → lookup p (sweep_on_start now max_age fails s).0.files
            ≡ filter_value (λ q f. is_stale now max_age q f && not (fails q)) p (lookup p s.files))
        × (length (sweep_on_start now max_age fails s).0.files
              + (sweep_on_start now max_age fails s).1
            ≡ length s.files)
  unfolding sweep_on_start
  sweep_on_start-removes max_age dir =
      rw dir (λ p. lookup-keep_unless p _ s.files u, length-keep_unless _ s.files)

  -- Where `ingested/` is there, pruning removes exactly the files of it that are older than the
  -- days that they are kept, unless these are zero, and that the system lets it remove; the result
  -- is the number of files removed, and the bytes that count against the quota are the same as
  -- before.
  pub prune_ingested-removes :
      (retain_days : ℕ)
      → is_dir s.dirs ingested ≡ true
      → ((p : Place)
          → lookup p (prune_ingested now retain_days fails s).0.files ≡ (
              if retain_days == 0
              then lookup p s.files
              else filter_value
                  (λ q f. is_expired now retain_days q f && not (fails q))
                  p
                  (lookup p s.files)))
        × (length (prune_ingested now retain_days fails s).0.files
              + (prune_ingested now retain_days fails s).1
            ≡ length s.files)
        × (spool_usage_bytes (prune_ingested now retain_days fails s).0 active_subdirs
            ≡ spool_usage_bytes s active_subdirs)
  unfolding prune_ingested count_where
  prune_ingested-removes retain_days dir = elim (Bool-cases (retain_days == 0)) [
    | inl z ↦ rw z (λ p. refl, omega arith, refl)
    | inr nz ↦
        rw (nz, dir)
          (
            λ p. lookup-keep_unless p _ s.files u,
            length-keep_unless _ s.files,
            spool_usage_bytes-eq s.dirs s.files _ active_subdirs
                (λ d m. usage_in-keep_unless d _ s.files (λ q f. rw (active-ne-ingested d m) refl)),
          )
  ]
