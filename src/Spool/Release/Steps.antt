-- ===== src/Spool/Release/Steps.antt =====
-- The steps that the ends of an upload share: what a rename and a text write do to the files.
use paperless_webdav.Base.{
  ℕ, ◌≡◌, ◌≢◌, ◌⊎◌, inl, inr, refl, Bool, true, false, ◌||◌, not, none, some, List, ◌++◌, arith,
  ◌==◌, if◌then◌else◌, nat_eq, list_eq, pair_eq, lookup, insert, erase, lookup-insert, lookup-erase,
  Bool-cases, Text, codes,
}
use mathlib.Core.List.{append_cancel_left}
use paperless_webdav.Spool.Store.{subdir_eq, File, Place, Spool, is_dir}
use paperless_webdav.Spool.Upload.{Sink, part_place}
use paperless_webdav.Spool.Upload.Live.{IsLive, lookup-sync_file}
use paperless_webdav.Spool.Release.{release, rename, write_text, target}

-- A document and its sidecar are two files.
pub pdf-ne-json : (a : Text) → a ++ codes ".json" ≢ a ++ codes ".pdf"
pdf-ne-json a e = cc (append_cancel_left a (codes ".json") (codes ".pdf") e)

-- A file of the spool has the bytes for its content.
pub record Holds (bytes : List ℕ) (p : Place) (s : Spool) : Type 0 where
  pub file : File
  pub found : lookup p s.files ≡ some file
  pub same : file.content ≡ bytes

-- The same, on disk.
pub record OnDisk (bytes : List ℕ) (p : Place) (s : Spool) : Type 0 where
  pub holds : Holds bytes p s
  pub synced : holds.file.synced ≡ true

pub lookup-write_text :
    (now : ℕ) (p q : Place) (text : Text) (s : Spool)
    → lookup q (write_text now p text s).files ≡ (
        if q == p
        then some (record { content = text; mtime = now; synced = false })
        else lookup q s.files)
unfolding write_text
lookup-write_text now p q text s = lookup-insert q p _ s.files

-- What a rename does where it does not raise.
pub record Moved (source target : Place) (f : File) (s t : Spool) : Type 0 where
  pub lookup_moved :
      (q : Place)
      → lookup q t.files
        ≡ (if q == target then some f else if q == source then none else lookup q s.files)

pub rename-cases :
    (fails : Bool) (source target : Place) (s : Spool) (f : File)
    → lookup source s.files ≡ some f
    → (rename fails source target s ≡ none)
      ⊎ ((t : Spool) × (rename fails source target s ≡ some t) × Moved source target f s t)
unfolding rename
rename-cases fails source target s f h = elim (Bool-cases (fails || not (is_dir s.dirs target.0))) [
  | inl e ↦ inl (rw e refl)
  | inr e ↦ inr (
    record s { files = insert target f (erase source s.files) },
    rw (e, h) refl,
    record {
      lookup_moved = λ q.
          ground
            (arith, lookup-insert q target f (erase source s.files), lookup-erase q source s.files);
    },
  )
]

module _ (s : Sink) (live : IsLive s) where
  abbrev pub on_disk : File
  on_disk = record live.part { synced = true }

  pub lookup-release :
      (q : Place)
      → lookup q (release s).spool.files
        ≡ (if q == part_place s.upload then some on_disk else lookup q s.spool.files)
  unfolding release
  lookup-release q = lookup-sync_file s.spool q (part_place s.upload) live.part live.stored

  pub part-release : lookup (part_place s.upload) (release s).spool.files ≡ some on_disk
  part-release = ground (arith, lookup-release (part_place s.upload))

  -- A rename of the released upload.
  pub Moved-cases :
      (fails : Bool) (p : Place)
      → (rename fails (part_place s.upload) p (release s).spool ≡ none)
        ⊎ ((t : Spool) × (rename fails (part_place s.upload) p (release s).spool ≡ some t)
            × Moved (part_place s.upload) p on_disk (release s).spool t)
  Moved-cases fails p =
      rename-cases fails (part_place s.upload) p (release s).spool on_disk part-release
