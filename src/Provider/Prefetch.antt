-- ===== src/Provider/Prefetch.antt =====
-- `prefetch_document_sizes` of src/paperless_webdav/webdav_provider.py, over the cache and the
-- table of sizes. `measure` is `get_document_sizes_batch`: `none` where it raises, and otherwise
-- the time at its end and the sizes that it found.
pub mod Chunks
pub mod Resume
use paperless_webdav.Base.{
  ℕ, zero, suc, ◌≡◌, Bool, true, false, Option, none, some, List, [], ◌∷◌, Eq, ◌==◌, if◌then◌else◌,
  nat_eq, list_eq, option_eq, length, take, Dict, lookup, Text,
}
use paperless_webdav.Cache.Memory.{InMemoryCache, get_size, set_size}
use paperless_webdav.Services.DocumentSizes.{SizeTable, version_of, load_sizes, store_sizes}
use paperless_webdav.Provider.Documents.{PaperlessDocument}
use paperless_webdav.Provider.Write.{versions_from}

-- `SIZE_PROBE_CHUNK`
abbrev pub size_probe_chunk : ℕ
size_probe_chunk = 100

abbrev pub Versions : Type 0
Versions = Dict ℕ (Option Text)

abbrev pub Measure : Type 0
Measure = List ℕ → Option (ℕ × Dict ℕ ℕ)

pub record SizeState : Type 0 where
  pub cache : InMemoryCache
  pub table : SizeTable

abbrev pub if_missing : ℕ → Option ℕ → List ℕ → List ℕ
if_missing id none rest = id ∷ rest
if_missing id (some size) rest = rest

-- `[doc.id for doc in documents if cache.get_size(doc.id, doc.modified) is None]`
unfoldable pub missing_in : ℕ → List PaperlessDocument → InMemoryCache → List ℕ × InMemoryCache
unfolding get_size
missing_in now [] c = ([], c)
missing_in now (doc ∷ documents) c =
    let (size, d) = get_size now doc.id (some doc.modified) c in
    let (rest, e) = missing_in now documents d in (if_missing doc.id size rest, e)

-- The size of a row that was measured for the version at hand.
unfoldable pub current_size : Versions → ℕ → Option (Option Text × ℕ) → Option ℕ
unfolding version_of
current_size versions doc_id none = none
current_size versions doc_id (some (version, size)) =
    if version == version_of doc_id versions then some size else none

-- The loop over `missing`: the ids to measure, and the cache with the other ones.
unfoldable pub restore :
    ℕ → Option ℕ → Versions → SizeTable → List ℕ → InMemoryCache → List ℕ × InMemoryCache
unfolding current_size set_size
restore now ttl versions stored [] c = ([], c)
restore now ttl versions stored (doc_id ∷ missing) c =
    elim (current_size versions doc_id (lookup doc_id stored)) [
      | none ↦ (let (rest, d) = restore now ttl versions stored missing c in (doc_id ∷ rest, d))
      | some size ↦
          restore now ttl versions stored missing
            (set_size now doc_id size ttl (version_of doc_id versions) c)
    ]

unfoldable pub drop : ℕ → List ℕ → List ℕ
drop zero xs = xs
drop (suc n) [] = []
drop (suc n) (x ∷ xs) = drop n xs

-- The slices that `range(0, len(to_measure), SIZE_PROBE_CHUNK)` takes, on fuel.
unfoldable pub chunks_of : ℕ → List ℕ → List (List ℕ)
unfolding drop
chunks_of zero xs = []
chunks_of (suc fuel) [] = []
chunks_of (suc fuel) (x ∷ xs) =
    take size_probe_chunk (x ∷ xs) ∷ chunks_of fuel (drop size_probe_chunk (x ∷ xs))

unfoldable pub set_sizes : ℕ → Option ℕ → Versions → Dict ℕ ℕ → InMemoryCache → InMemoryCache
unfolding set_size
set_sizes now ttl versions [] c = c
set_sizes now ttl versions ((doc_id, size) ∷ sizes) c =
    set_sizes now ttl versions sizes (set_size now doc_id size ttl (version_of doc_id versions) c)

-- The loop over the chunks.
unfoldable pub measure_chunks :
    Measure → Option ℕ → Versions → Bool → List (List ℕ) → SizeState → SizeState
unfolding set_sizes store_sizes
measure_chunks measure ttl versions down [] s = s
measure_chunks measure ttl versions down (chunk ∷ chunks) s = elim (measure chunk) [
  | none ↦ s
  | some (now, sizes) ↦ measure_chunks measure ttl versions down chunks (record {
    cache = set_sizes now ttl versions sizes s.cache;
    table = store_sizes down sizes versions s.table;
  })
]

-- The ids that a call has to measure, and the cache by then.
unfoldable pub to_measure :
    ℕ → Option ℕ → Bool → List PaperlessDocument → SizeState → List ℕ × InMemoryCache
unfolding missing_in restore load_sizes versions_from
to_measure now ttl down documents s =
    let (missing, c) = missing_in now documents s.cache in
    restore now ttl (versions_from [] documents) (load_sizes down missing s.table) missing c

abbrev pub chunks_for : List ℕ → List (List ℕ)
chunks_for ids = chunks_of (length ids) ids

unfoldable pub prefetch_document_sizes :
    Measure → ℕ → Option ℕ → Bool → List PaperlessDocument → SizeState → SizeState
unfolding to_measure measure_chunks chunks_of versions_from
prefetch_document_sizes measure now ttl down documents s =
    let (ids, c) = to_measure now ttl down documents s in
    measure_chunks measure ttl (versions_from [] documents) down (chunks_for ids)
      (record s { cache = c })
