-- ===== src/Spool/Pending/Published.antt =====
-- What `finalize` publishes, `list_pending` lists.
use paperless_webdav.Base.{
  ℕ, ◌+◌, ◌-◌, ◌≡◌, ◌≢◌, refl, ap, sym, ◌∙◌, inl, inr, Bool, true, false, not, ◌||◌, Option, none,
  some, List, [], ◌∷◌, ◌++◌, map, length, length-append, take, sort_with, by_key, In, In-sort_with,
  In-of_lookup, arith, ◌==◌, if◌then◌else◌, nat_eq, list_eq, pair_eq, Dict, lookup, Text, codes,
  starts_with, starts_with-append, ends_with, Option-cases, if_cases,
}
use mathlib.Core.Path.{subst}
use mathlib.Core.List.{reverse, reverse-append}
use paperless_webdav.Outcome.{Outcome, ok}
use paperless_webdav.Spool.Attribution.{Confidence}
use paperless_webdav.Spool.Store.{Subdir, pending, subdir_eq, File, Place, Spool, is_dir}
use paperless_webdav.Spool.Upload.{Faults, Sink, part_place, sync_file}
use paperless_webdav.Spool.Upload.Live.{IsLive}
use paperless_webdav.Spool.Release.{
  Meta, Platform, SpooledFile, source_label, md5, published_stem, spooled_file, settle, write_text,
  rename, release, finalize,
}
use paperless_webdav.Spool.Release.Publish.{Retains, finalize-Retains}
use paperless_webdav.Spool.Pending.{
  PendingFile, pdfs_in, with_json_suffix, read_meta, md5_of, size_of, pending_file, mtime_of,
  list_pending,
}

In-map : {A B : Type 0} (f : A → B) (x : A) (xs : List A) → In x xs → In (f x) (map f xs)
In-map f x [] m = absurd m
In-map f x (y ∷ xs) (inl e) = inl (ap f e)
In-map f x (y ∷ xs) (inr m) = inr (In-map f x xs m)

pdfs_in-In :
    (name : Text) (f : File) (files : Dict Place File)
    → In ((pending, name), f) files
    → ends_with name (codes ".pdf") ≡ true
    → In (name, f) (pdfs_in files)
unfolding pdfs_in
pdfs_in-In name f [] m h = m
pdfs_in-In name f (((d, n), g) ∷ files) (inr m) h = ground (arith, pdfs_in-In name f files m h)
pdfs_in-In name f (((d, n), g) ∷ files) (inl e) h = ground (arith, e, h)

ends_with-append : (s t : Text) → ends_with (s ++ t) t ≡ true
unfolding ends_with
ends_with-append s t =
    ap (λ (r : Text). starts_with r (reverse t)) (reverse-append s t)
    ∙ starts_with-append (reverse t) (reverse s)

take-length : (s t : Text) → take (length s) (s ++ t) ≡ s
take-length [] t = refl
take-length (c ∷ s) t = ap (◌∷◌ c) (take-length s t)

with_json_suffix-append :
    (s : Text) → s ≢ [] → with_json_suffix (s ++ codes ".pdf") ≡ s ++ codes ".json"
unfolding with_json_suffix
with_json_suffix-append [] n = absurd (n refl)
with_json_suffix-append (c ∷ s) n =
    let name = (c ∷ s) ++ codes ".pdf" in
    let long : length name ≡ length (c ∷ s) + 4 = length-append (c ∷ s) (codes ".pdf") in
    let short : length name - 4 ≡ length (c ∷ s) = omega (arith, long) in
    if_cases (λ (r : Text). r ≡ (c ∷ s) ++ codes ".json") (length name == 4) _ _
      (λ h. absurd (ground (arith, long, h)))
      (λ _.
        ap (λ (k : ℕ). take k name ++ codes ".json") short
        ∙ ap (λ (t : Text). t ++ codes ".json") (take-length (c ∷ s) (codes ".pdf")))

snoc-ne-nil : (s t : Text) (c : ℕ) → s ++ (c ∷ t) ≢ []
snoc-ne-nil [] t c e = cc
snoc-ne-nil (d ∷ s) t c e = cc

-- An upload that was published is in the list, with the sidecar that `finalize` wrote for it.
listed :
    (parse : Text → Option Meta) (stem : Text) (f : File) (s : Spool)
    → stem ≢ []
    → is_dir s.dirs pending ≡ true
    → lookup (pending, stem ++ codes ".pdf") s.files ≡ some f
    → In (pending_file parse s.files (stem ++ codes ".pdf", f)) (list_pending parse s)
unfolding list_pending
listed parse stem f s filled dir found =
    let entry : Text × File = (stem ++ codes ".pdf", f) in
    let among =
      pdfs_in-In (stem ++ codes ".pdf") f s.files
        (In-of_lookup (pending, stem ++ codes ".pdf") f s.files found)
        (ends_with-append stem (codes ".pdf")) in
    rw dir (
      In-map (pending_file parse s.files) entry (sort_with (by_key mtime_of) (pdfs_in s.files))
        ((In-sort_with (by_key mtime_of) entry (pdfs_in s.files)).1 among))

rename-dirs :
    (fails : Bool) (source target : Place) (s m : Spool)
    → rename fails source target s ≡ some m
    → m.dirs ≡ s.dirs
unfolding rename
rename-dirs fails source target s m =
    if_cases (λ (r : Option Spool). r ≡ some m → m.dirs ≡ s.dirs)
      (fails || not (is_dir s.dirs target.0)) _ _ (λ _ e. cc)
      λ _. elim (Option-cases (lookup source s.files)) [
        | inl e ↦ rw e (λ h. cc)
        | inr (f, e) ↦ rw e (λ h. cc)
      ]

release-dirs : (s : Sink) → (release s).spool.dirs ≡ s.spool.dirs
unfolding release sync_file
release-dirs s = elim (Option-cases (lookup (part_place s.upload) s.spool.files)) [
  | inl e ↦ rw (e, sync_file) refl
  | inr (f, e) ↦ rw (e, sync_file) refl
]

module _ (platform : Platform) (now : ℕ) (faults : Faults) (source : Option ℕ)
    (confidence : Confidence) (share : Option Text) where
  settle-file :
      (s : Sink) (moved : Option Spool) (f : SpooledFile) (t : Sink)
      → settle platform now faults source confidence share s moved ≡ (ok f, t)
      → (f ≡ spooled_file platform now faults source confidence share s.upload)
        × ((m : Spool) × (moved ≡ some m) × (t.spool.dirs ≡ m.dirs))
  unfolding settle write_text
  settle-file s none f t e = cc
  settle-file s (some m) f t e = (
    cc,
    (
      m,
      refl,
      ap (λ (r : Outcome SpooledFile × Sink). r.1.spool.dirs) (sym e)
          ∙ if_cases (λ (x : Spool). x.dirs ≡ m.dirs) faults.sidecar_fails _ _ (λ _. refl)
              (λ _. refl),
    ),
  )

  finalize-file :
      (s : Sink) (f : SpooledFile) (t : Sink)
      → finalize platform now faults source confidence share s ≡ (ok f, t)
      → (f ≡ spooled_file platform now faults source confidence share s.upload)
        × (t.spool.dirs ≡ s.spool.dirs)
  unfolding finalize
  finalize-file s f t =
      let Told : Outcome SpooledFile × Sink → Type 0 = λ r.
        r ≡ (ok f, t)
        → (f ≡ spooled_file platform now faults source confidence share s.upload)
          × (t.spool.dirs ≡ s.spool.dirs) in
      if_cases Told s.upload.released _ _ (λ _ e. cc)
        λ _.
          if_cases Told faults.sync_fails _ _ (λ _ e. cc)
            λ _ e.
              let (same, (m, moved, dirs)) = settle-file (release s) _ f t e in
              (same, dirs ∙ rename-dirs _ _ _ (release s).spool m moved ∙ release-dirs s)

  -- Every upload in flight that `finalize` publishes with its sidecar, where `pending/` is there,
  -- is in the list of pending uploads, under its path, with the digest, the size and the
  -- provenance that were written, as long as the sidecar reads back as it was written.
  pub list_pending-finalize :
      (parse : Text → Option Meta) (s : Sink) (f : SpooledFile) (t : Sink)
      → parse (platform.dumps f.meta) ≡ some f.meta
      → IsLive s
      → is_dir s.spool.dirs pending ≡ true
      → faults.sidecar_fails ≡ false
      → finalize platform now faults source confidence share s ≡ (ok f, t)
      → (e : PendingFile) × In e (list_pending parse t.spool)
        × (e.path ≡ f.path)
        × (e.sidecar ≡ f.sidecar)
        × (e.md5 ≡ f.md5)
        × (e.size ≡ f.size)
        × (e.meta ≡ some f.meta)
  unfolding pending_file
  list_pending-finalize parse s f t reads live dir written ended =
      let (same, dirs) = finalize-file s f t ended in
      let stem = published_stem platform source s.upload in
      let filled : stem ≢ [] =
        snoc-ne-nil (source_label platform source) (take 12 (md5 platform s.upload)) b'-' in
      let kept =
        subst
          (λ (r : Outcome SpooledFile × Sink).
            Retains s live platform now faults source confidence share r)
          ended (finalize-Retains s live platform now faults source confidence share) in
      let file = kept.0.holds.file in
      let e = pending_file parse t.spool.files (stem ++ codes ".pdf", file) in
      let at : f.path ≡ (pending, stem ++ codes ".pdf") = ap (λ (g : SpooledFile). g.path) same in
      let found : lookup (pending, stem ++ codes ".pdf") t.spool.files ≡ some file =
        ap (λ (p : Place). lookup p t.spool.files) (sym at) ∙ kept.0.holds.found in
      let beside : e.sidecar ≡ f.sidecar =
        ap (λ (n : Text). (pending, n)) (with_json_suffix-append stem filled)
        ∙ sym (ap (λ (g : SpooledFile). g.sidecar) same) in
      let stored : lookup f.sidecar t.spool.files
          ≡ some (record { content = platform.dumps f.meta; mtime = now; synced = false }) =
        kept.4
        ∙ ap
            (λ (b : Bool).
              if b
              then lookup f.sidecar s.spool.files
              else some (record { content = platform.dumps f.meta; mtime = now; synced = false }))
            written in
      let meta : e.meta ≡ some f.meta =
        ap (λ (p : Place). read_meta parse (lookup p t.spool.files)) beside
        ∙ ap (read_meta parse) stored
        ∙ reads in
      (
        e,
        listed parse stem file t.spool filled
            (ap (λ (d : List Subdir). is_dir d pending) dirs ∙ dir) found,
        sym at,
        beside,
        ap md5_of meta
            ∙ ap (λ (g : SpooledFile). g.meta.md5) same
            ∙ sym (ap (λ (g : SpooledFile). g.md5) same),
        ap (λ (m : Option Meta). size_of m file) meta
            ∙ ap (λ (g : SpooledFile). g.meta.size) same
            ∙ sym (ap (λ (g : SpooledFile). g.size) same),
        meta,
      )
