-- ===== src/Cache/Memory/Listings.antt =====
-- The listings that the cache holds, and their invalidation.
use paperless_webdav.Base.{
  ℕ, ◌+◌, ◌≡◌, none, some, List, arith, ◌==◌, if◌then◌else◌, nat_eq, list_eq, ltb, lookup,
  lookup-insert, lookup-drop_where, is_infix, Text,
}
use paperless_webdav.Provider.Documents.{PaperlessDocument}
use paperless_webdav.Cache.Memory.{
  InMemoryCache, CacheEntry, live_value, read_entry-live_value, get_document_list,
  set_document_list, share_marker, invalidate_document_lists,
}

module _ (later : ℕ) (key : Text) where
  get_document_list-live_value :
      (c : InMemoryCache)
      → (get_document_list later key c).0 ≡ live_value later (lookup key c.document_list_cache)
  unfolding get_document_list
  get_document_list-live_value c = read_entry-live_value later key c.document_list_cache

  -- After `set_document_list` the listing is answered until its time to live has passed, and other
  -- keys answer as before.
  pub get_document_list-set_document_list :
      (now : ℕ) (k : Text) (documents : List PaperlessDocument) (ttl : ℕ) (c : InMemoryCache)
      → (get_document_list later key (set_document_list now k documents ttl c)).0 ≡ (
          if key == k
          then if ltb (now + ttl) later then none else some documents
          else (get_document_list later key c).0)
  unfolding set_document_list
  get_document_list-set_document_list now k documents ttl c =
      let entry : CacheEntry (List PaperlessDocument) = record {
        value = documents;
        expires_at = now + ttl;
      } in
      ground (
        arith,
        get_document_list-live_value (set_document_list now k documents ttl c),
        get_document_list-live_value c,
        lookup-insert key k entry c.document_list_cache,
      )

  -- Invalidation forgets the listings whose keys hold the marker of the share, and no other.
  pub get_document_list-invalidate_document_lists :
      (share_name : Text) (c : InMemoryCache)
      → (get_document_list later key (invalidate_document_lists share_name c)).0 ≡ (
          if is_infix (share_marker share_name) key
          then none
          else (get_document_list later key c).0)
  unfolding invalidate_document_lists
  get_document_list-invalidate_document_lists share_name c = ground (
    arith,
    get_document_list-live_value (invalidate_document_lists share_name c),
    get_document_list-live_value c,
    lookup-drop_where key (is_infix (share_marker share_name)) c.document_list_cache,
  )
