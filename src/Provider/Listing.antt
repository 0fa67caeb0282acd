-- ===== src/Provider/Listing.antt =====
-- The cached, tag-filtered document lists of src/paperless_webdav/webdav_provider.py:
-- `_document_list_cache_key` and `_load_documents_cached`. `fetch` is what `client.get_documents`
-- returns for the ids; the query itself is Paperless's.
pub mod Fresh
use paperless_webdav.Base.{
  ℕ, ◌+◌, ◌≡◌, Bool, true, false, Option, none, some, List, [], ◌∷◌, ◌++◌, map, sort_with, leb, Eq,
  ◌==◌, if◌then◌else◌, nat_eq, Text, codes, decimal,
}
use paperless_webdav.Provider.Documents.{PaperlessDocument}
use paperless_webdav.Cache.Memory.{InMemoryCache, token_key, get_document_list, set_document_list}

-- `",".join(...)`
unfoldable pub join_commas : List Text → Text
join_commas [] = []
join_commas (t ∷ []) = t
join_commas (t ∷ u ∷ ts) = t ++ (codes "," ++ join_commas (u ∷ ts))

-- `",".join(str(i) for i in sorted(ids))`
unfoldable pub ids_text : List ℕ → Text
unfolding join_commas sort_with decimal
ids_text ids = join_commas (map decimal (sort_with leb ids))

unfoldable pub document_list_cache_key : Text → Text → List ℕ → List ℕ → Text
unfolding ids_text
document_list_cache_key token namespace include_tag_ids exclude_tag_ids =
    token_key token
    ++ (codes ":"
        ++ (namespace
            ++ (codes ":"
                ++ (ids_text include_tag_ids ++ (codes ":" ++ ids_text exclude_tag_ids)))))

-- The `cached is not None` test, and what follows it.
or_fetch :
    ℕ
    → Text
    → ℕ
    → List PaperlessDocument
    → Option (List PaperlessDocument) × InMemoryCache
    → List PaperlessDocument × InMemoryCache
or_fetch now key ttl fetched (some cached, cache) = (cached, cache)
or_fetch now key ttl fetched (none, cache) = (fetched, set_document_list now key fetched ttl cache)

unfoldable pub load_documents_cached :
    ℕ
    → (List ℕ → List ℕ → List PaperlessDocument)
    → Text
    → Text
    → List ℕ
    → List ℕ
    → ℕ
    → InMemoryCache
    → List PaperlessDocument × InMemoryCache
unfolding or_fetch document_list_cache_key get_document_list set_document_list
load_documents_cached now fetch token namespace include_tag_ids exclude_tag_ids ttl cache =
    let key = document_list_cache_key token namespace include_tag_ids exclude_tag_ids in
    if ttl == 0
    then (fetch include_tag_ids exclude_tag_ids, cache)
    else or_fetch now key ttl (fetch include_tag_ids exclude_tag_ids)
        (get_document_list now key cache)
