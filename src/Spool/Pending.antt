-- ===== src/Spool/Pending.antt =====
-- `list_pending` of src/paperless_webdav/spool.py. `parse` is `json.loads` of a sidecar: `none` where
-- it raises. A `meta` that could not be read is `{}` in the program, and `none` here.
pub mod Published
use paperless_webdav.Base.{
  ℕ, ◌+◌, ◌-◌, ◌≡◌, Bool, true, false, ◌&&◌, Option, none, some, List, [], ◌∷◌, ◌++◌, map, length,
  take, sort_with, by_key, Eq, ◌==◌, if◌then◌else◌, nat_eq, list_eq, pair_eq, Dict, lookup, Text,
  codes, ends_with,
}
use paperless_webdav.Spool.Store.{Subdir, pending, subdir_eq, File, Place, Spool, is_dir}
use paperless_webdav.Spool.Release.{Meta}

-- A `SpooledFile` as it is read back.
pub record PendingFile : Type 0 where
  pub path : Place
  pub sidecar : Place
  pub md5 : Text
  pub size : ℕ
  pub meta : Option Meta

-- `pending.glob("*.pdf")`
unfoldable pub pdfs_in : Dict Place File → List (Text × File)
unfolding ends_with
pdfs_in [] = []
pdfs_in (((d, name), f) ∷ files) =
    let rest = pdfs_in files in
    if (d == pending) && ends_with name (codes ".pdf") then (name, f) ∷ rest else rest

-- `path.with_suffix(".json")` for a name that ends in ".pdf"; the name ".pdf" has no suffix.
unfoldable pub with_json_suffix : Text → Text
with_json_suffix name =
    if length name == 4 then name ++ codes ".json" else take (length name - 4) name ++ codes ".json"

-- `json.loads(sidecar.read_text()) if sidecar.exists() else {}`
abbrev pub read_meta : (Text → Option Meta) → Option File → Option Meta
read_meta parse none = none
read_meta parse (some f) = parse f.content

abbrev pub md5_of : Option Meta → Text
md5_of none = []
md5_of (some meta) = meta.md5

abbrev pub size_of : Option Meta → File → ℕ
size_of none f = length f.content
size_of (some meta) f = meta.size

unfoldable pub pending_file : (Text → Option Meta) → Dict Place File → Text × File → PendingFile
unfolding with_json_suffix
pending_file parse files (name, f) =
    let sidecar : Place = (pending, with_json_suffix name) in
    let meta = read_meta parse (lookup sidecar files) in
    record {
      path = (pending, name);
      sidecar = sidecar;
      md5 = md5_of meta;
      size = size_of meta f;
      meta = meta;
    }

-- `p.stat().st_mtime`
abbrev pub mtime_of : Text × File → ℕ
mtime_of (name, f) = f.mtime

unfoldable pub list_pending : (Text → Option Meta) → Spool → List PendingFile
unfolding is_dir pdfs_in pending_file sort_with
list_pending parse s =
    if is_dir s.dirs pending
    then map (pending_file parse s.files) (sort_with (by_key mtime_of) (pdfs_in s.files))
    else []
