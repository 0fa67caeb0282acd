-- ===== src/Spool/Store.antt =====
-- The spool directory of src/paperless_webdav/spool.py: its tree of files, and the housekeeping
-- that the provider runs on it. A file is its bytes, its modification time in seconds, and
-- whether it was fsync'd since its last write. Times are whole seconds; `fails` names the entries
-- on which the operating system raises `OSError`.
pub mod Housekeeping
use paperless_webdav.Base.{
  ℕ, ◌+◌, ◌-◌, ◌*◌, ◌≡◌, Bool, true, false, ◌&&◌, not, Option, none, some, List, [], ◌∷◌, ◌++◌, leb,
  ltb, Eq, ◌==◌, if◌then◌else◌, nat_eq, list_eq, pair_eq, sort_with, by_key, sum_of, length, Dict,
  lookup, insert, keep_unless, count_where, Text, codes, ends_with,
}

-- `SPOOL_SUBDIRS`
pub data Subdir : Type 0 where
  incoming pending ingested failed quarantine unmatched partial : Subdir

Subdir-discrete : Discrete Subdir
Subdir-discrete = hlevel

instance unfoldable pub subdir_eq : Eq Subdir
unfolding Subdir-discrete
subdir_eq = record { dec = Subdir-discrete }

abbrev pub spool_subdirs : List Subdir
spool_subdirs = incoming ∷ pending ∷ ingested ∷ failed ∷ quarantine ∷ unmatched ∷ partial ∷ []

-- `ACTIVE_SUBDIRS`
abbrev pub active_subdirs : List Subdir
active_subdirs = incoming ∷ pending ∷ []

-- `STALE_PART_SECONDS`
abbrev pub stale_part_seconds : ℕ
stale_part_seconds = 3600

pub record File : Type 0 where
  pub content : List ℕ
  pub mtime : ℕ
  pub synced : Bool

-- A path below the spool root.
abbrev pub Place : Type 0
Place = Subdir × Text

pub record Spool : Type 0 where
  pub dirs : List Subdir
  pub files : Dict Place File

-- `(root / name).is_dir()`
unfoldable pub is_dir : List Subdir → Subdir → Bool
is_dir [] d = false
is_dir (e ∷ dirs) d = let rest = is_dir dirs d in if d == e then true else rest

-- One `mkdir(exist_ok=True)`.
unfoldable pub make_dir : List Subdir → Subdir → List Subdir
unfolding is_dir
make_dir dirs d = if is_dir dirs d then dirs else d ∷ dirs

make_dirs : List Subdir → List Subdir → List Subdir
make_dirs dirs [] = dirs
make_dirs dirs (d ∷ rest) = make_dirs (make_dir dirs d) rest

unfoldable pub spool_dirs : Spool → Spool
unfolding make_dirs make_dir
spool_dirs s = record s { dirs = make_dirs s.dirs spool_subdirs }

-- A `.part` file in `incoming/` that is at least `max_age` old.
abbrev pub is_stale : ℕ → ℕ → Place → File → Bool
is_stale now max_age (d, name) f =
    (d == incoming) && (ends_with name (codes ".part") && not (ltb now (f.mtime + max_age)))

unfoldable pub sweep_on_start : ℕ → ℕ → (Place → Bool) → Spool → Spool × ℕ
unfolding is_dir keep_unless count_where
sweep_on_start now max_age fails s =
    let gone = λ (p : Place) (f : File). is_stale now max_age p f && not (fails p) in
    if is_dir s.dirs incoming
    then (record s { files = keep_unless gone s.files }, count_where gone s.files)
    else (s, 0)

-- The bytes of the files of one directory.
unfoldable pub usage_in : Subdir → Dict Place File → ℕ
usage_in d [] = 0
usage_in d (((e, _), f) ∷ files) =
    let rest = usage_in d files in if d == e then length f.content + rest else rest

unfoldable pub spool_usage_bytes : Spool → List Subdir → ℕ
unfolding usage_in is_dir
spool_usage_bytes s [] = 0
spool_usage_bytes s (d ∷ subdirs) =
    let rest = spool_usage_bytes s subdirs in
    if is_dir s.dirs d then usage_in d s.files + rest else rest

-- A file in `ingested/` older than the days that it is kept.
abbrev pub is_expired : ℕ → ℕ → Place → File → Bool
is_expired now retain_days (d, name) f = (d == ingested) && ltb (f.mtime + retain_days * 86400) now

unfoldable pub prune_ingested : ℕ → ℕ → (Place → Bool) → Spool → Spool × ℕ
unfolding is_dir keep_unless count_where
prune_ingested now retain_days fails s =
    let gone = λ (p : Place) (f : File). is_expired now retain_days p f && not (fails p) in
    if retain_days == 0
    then (s, 0)
    else if is_dir s.dirs ingested
    then (record s { files = keep_unless gone s.files }, count_where gone s.files)
    else (s, 0)
