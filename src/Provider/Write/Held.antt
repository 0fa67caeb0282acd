-- ===== src/Provider/Write/Held.antt =====
-- What counts as proof that an upload is already held.
use paperless_webdav.Base.{
  ◌≡◌, ◌⊎◌, inl, inr, refl, Bool, true, false, ◌&&◌, some, [], ◌∷◌, arith, ◌==◌, nat_eq, list_eq,
  pair_eq, any-In, any_of_In, In, In-of_lookup, lookup, Dict, take, Text, is_infix, Bool-cases,
}
use paperless_webdav.Spool.Store.{Subdir, subdir_eq, spool_subdirs, File, Place, Spool, is_dir}
use paperless_webdav.Spool.Store.Housekeeping.{In-spool_subdirs}
use paperless_webdav.Services.Annotations.{UploadTable, upload_ingested}
use paperless_webdav.Provider.Write.{any_named, upload_already_held}

In-of_any_named :
    (digest : Text) (d : Subdir) (files : Dict Place File)
    → any_named digest d files ≡ true
    → (q : Place) × (f : File) × In (q, f) files × (q.0 ≡ d) × (is_infix digest q.1 ≡ true)
unfolding any_named
In-of_any_named digest d [] h = cc
In-of_any_named digest d (((e, name), f) ∷ files) h =
    elim (Bool-cases ((d == e) && is_infix digest name)) [
      | inl hit ↦ ((e, name), f, inl refl, ground arith, ground arith)
      | inr miss ↦
          (let (q, g, m, at_, i) = In-of_any_named digest d files (ground arith) in
            (q, g, inr m, at_, i))
    ]

any_named_of_In :
    (digest : Text) (q : Place) (f : File) (files : Dict Place File)
    → In (q, f) files
    → is_infix digest q.1 ≡ true
    → any_named digest q.0 files ≡ true
unfolding any_named
any_named_of_In digest q f [] m h = absurd m
any_named_of_In digest q f ((p, g) ∷ files) m h = ground (arith, any_named_of_In digest q f files)

module _ (down : Bool) (table : UploadTable) (digest : Text) (s : Spool) where
  -- A file of the spool whose name holds the first twelve digits.
  abbrev pub Named : Type 0
  Named = (q : Place) × (f : File) × In (q, f) s.files × (is_infix (take 12 digest) q.1 ≡ true)

  -- A yes rests on an ingested row of the whole digest, or on a file of the spool whose name holds
  -- its first twelve digits.
  pub upload_already_held_sound :
      (has_spool : Bool)
      → upload_already_held down table has_spool digest s ≡ true
      → (upload_ingested down digest table ≡ true) ⊎ Named
  unfolding upload_already_held
  upload_already_held_sound has_spool h = elim (Bool-cases (upload_ingested down digest table)) [
    | inl e ↦ inl e
    | inr e ↦ inr (
        let (d, m, k) =
          any-In (λ d. is_dir s.dirs d && any_named (take 12 digest) d s.files) spool_subdirs
            (ground arith) in
        let (q, f, m', at_, i) = In-of_any_named (take 12 digest) d s.files (ground arith) in
        (q, f, m', i))
  ]

  -- Where every file stands in a directory of the spool, after `_upload_already_held` has said no,
  -- no file of the spool has a name that holds the first twelve digits of the digest.
  pub not_held-unnamed :
      ((q : Place) (f : File) → In (q, f) s.files → is_dir s.dirs q.0 ≡ true)
      → upload_already_held down table true digest s ≡ false
      → (q : Place) (f : File) → lookup q s.files ≡ some f
      → is_infix (take 12 digest) q.1 ≡ false
  unfolding upload_already_held
  not_held-unnamed placed h q f found = elim (Bool-cases (is_infix (take 12 digest) q.1)) [
    | inr e ↦ e
    | inl e ↦
        let m = In-of_lookup q f s.files found in
        ground (
          arith,
          any_of_In (λ d. is_dir s.dirs d && any_named (take 12 digest) d s.files) q.0
              spool_subdirs,
          In-spool_subdirs q.0,
          placed q f m,
          any_named_of_In (take 12 digest) q f s.files m e,
        )
  ]
