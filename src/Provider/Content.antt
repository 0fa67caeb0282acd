-- ===== src/Provider/Content.antt =====
-- The content of a document in src/paperless_webdav/webdav_provider.py: `_download_content`,
-- `get_content_length` and `get_content` of `DocumentResource`. `ContentContext` is what they read of
-- their surroundings, with the answers of Paperless; `ContentState` is `_content` and the cache.
pub mod Lengths
pub mod Failures
use paperless_webdav.Base.{
  ℕ, Bool, true, false, Option, none, some, List, [], ◌∷◌, ◌++◌, if◌then◌else◌, length, concat,
  nat_eq, option_eq, list_eq, pair_eq, Text,
}
use paperless_webdav.Outcome.{Outcome, ok, raise}
use paperless_webdav.Client.Stream.{DocumentStream, new_stream}
use paperless_webdav.Client.Stream.Refines.{bytes_ahead}
use paperless_webdav.Provider.Documents.{PaperlessDocument}
use paperless_webdav.Cache.Memory
use paperless_webdav.Cache.Memory.{InMemoryCache, get_size, set_size, set_content}

pub record ContentContext : Type 0 where
  pub now : ℕ
  pub stream_downloads : Bool
  pub size_ttl : ℕ
  pub has_client : Bool
  -- `download_document`, `get_document_size` and `open_document_stream` of the client
  pub download : Outcome (List ℕ)
  pub size_probe : Outcome (Option ℕ)
  pub open_stream : Outcome (List (List ℕ))

pub record ContentState : Type 0 where
  pub content : Option (List ℕ)
  pub cache : InMemoryCache

from_cache : ContentState → Option (List ℕ) × InMemoryCache → Option (List ℕ) × ContentState
from_cache s (none, cache) = (none, record s { cache = cache })
from_cache s (some cached, cache) = (some cached, record s { content = some cached; cache = cache })

-- The content that the resource holds, or else that of the cache.
unfoldable pub content_at_hand :
    ℕ → PaperlessDocument → ContentState → Option (List ℕ) × ContentState
unfolding from_cache
content_at_hand now document s = elim s.content [
  | some content ↦ (some content, s)
  | none ↦ from_cache s (Memory.get_content now document.id s.cache)
]

-- The size in the cache is read for a log line only; the read drops it if it has expired.
keep_download :
    ContentContext → PaperlessDocument → ContentState → Outcome (List ℕ) → List ℕ × ContentState
keep_download ctx document s (raise e) = ([], record s { content = some [] })
keep_download ctx document s (ok content) =
    let (cached_size, cache) = get_size ctx.now document.id (some document.modified) s.cache in
    (
      content,
      record s {
        content = some content;
        cache = set_content ctx.now document.id content none cache;
      },
    )

or_download :
    ContentContext → PaperlessDocument → Option (List ℕ) × ContentState → List ℕ × ContentState
unfolding keep_download
or_download ctx document (some content, s) = (content, s)
or_download ctx document (none, s) =
    if ctx.has_client then keep_download ctx document s ctx.download else ([], s)

-- `_download_content`
unfoldable pub download_content :
    ContentContext → PaperlessDocument → ContentState → List ℕ × ContentState
unfolding content_at_hand or_download
download_content ctx document s = or_download ctx document (content_at_hand ctx.now document s)

keep_size :
    ContentContext → PaperlessDocument → ContentState → Outcome (Option ℕ) → Option ℕ × ContentState
keep_size ctx document s (raise e) = (none, s)
keep_size ctx document s (ok none) = (none, s)
keep_size ctx document s (ok (some size)) = (
  some size,
  record s {
    cache = set_size ctx.now document.id size (some ctx.size_ttl) (some document.modified) s.cache;
  },
)

-- With neither a content nor a size at hand.
measure_content : ContentContext → PaperlessDocument → ContentState → Option ℕ × ContentState
unfolding keep_size download_content
measure_content ctx document s =
    if ctx.stream_downloads
    then (if ctx.has_client then keep_size ctx document s ctx.size_probe else (none, s))
    else let (content, s') = download_content ctx document s in (some (length content), s')

or_measure :
    ContentContext
    → PaperlessDocument
    → ContentState
    → Option ℕ × InMemoryCache
    → Option ℕ × ContentState
unfolding measure_content
or_measure ctx document s (some cached_size, cache) = (some cached_size, record s { cache = cache })
or_measure ctx document s (none, cache) = measure_content ctx document (record s { cache = cache })

or_size :
    ContentContext → PaperlessDocument → Option (List ℕ) × ContentState → Option ℕ × ContentState
unfolding or_measure
or_size ctx document (some content, s) = (some (length content), s)
or_size ctx document (none, s) =
    or_measure ctx document s (get_size ctx.now document.id (some document.modified) s.cache)

-- `get_content_length`
unfoldable pub get_content_length :
    ContentContext → PaperlessDocument → ContentState → Option ℕ × ContentState
unfolding content_at_hand or_size
get_content_length ctx document s = or_size ctx document (content_at_hand ctx.now document s)

-- A `BytesIO`, or the stream of a response.
pub data Body : Type 0 where
  bytes_io : List ℕ → Body
  stream : DocumentStream → Body

abbrev pub body_bytes : Body → List ℕ
body_bytes (bytes_io content) = content
body_bytes (stream s) = bytes_ahead s

abbrev pub opened : Outcome (List (List ℕ)) → Body
opened (ok chunks) = stream (new_stream chunks)
opened (raise e) = bytes_io []

or_open : ContentContext → PaperlessDocument → Option (List ℕ) × ContentState → Body × ContentState
unfolding download_content
or_open ctx document (some content, s) = (bytes_io content, s)
or_open ctx document (none, s) =
    if ctx.stream_downloads
    then (if ctx.has_client then opened ctx.open_stream else bytes_io [], s)
    else let (content, s') = download_content ctx document s in (bytes_io content, s')

-- `get_content`
unfoldable pub get_content : ContentContext → PaperlessDocument → ContentState → Body × ContentState
unfolding content_at_hand or_open
get_content ctx document s = or_open ctx document (content_at_hand ctx.now document s)
