-- ===== src/Cache/Memory/Contents.antt =====
-- What `get_content` answers after each operation of the cache.
use paperless_webdav.Base.{
  ℕ, ◌+◌, ◌≡◌, Option, none, some, List, arith, ◌==◌, if◌then◌else◌, nat_eq, ltb, lookup,
  lookup-insert, lookup-erase, Text,
}
use paperless_webdav.Cache.Memory.{
  InMemoryCache, CacheEntry, content_ttl, or_default, live_value, read_entry-live_value,
  get_content, set_content, get_size, invalidate_content,
}
use paperless_webdav.Cache.Memory.Sizes.{get_size-invalidate_content}

module _ (later i : ℕ) where
  get_content-live_value :
      (c : InMemoryCache) → (get_content later i c).0 ≡ live_value later (lookup i c.content_cache)
  unfolding get_content
  get_content-live_value c = read_entry-live_value later i c.content_cache

  -- After `set_content` the content is answered until its time to live has passed, and other
  -- documents answer as before.
  pub get_content-set_content :
      (now j : ℕ) (content : List ℕ) (ttl : Option ℕ) (c : InMemoryCache)
      → (get_content later i (set_content now j content ttl c)).0 ≡ (
          if i == j
          then if ltb (now + or_default ttl content_ttl) later then none else some content
          else (get_content later i c).0)
  unfolding set_content
  get_content-set_content now j content ttl c =
      let entry : CacheEntry (List ℕ) = record {
        value = content;
        expires_at = now + or_default ttl content_ttl;
      } in
      ground (
        arith,
        get_content-live_value (set_content now j content ttl c),
        get_content-live_value c,
        lookup-insert i j entry c.content_cache,
      )

  get_content-invalidate_content :
      (j : ℕ) (c : InMemoryCache)
      → (get_content later i (invalidate_content j c)).0
        ≡ (if i == j then none else (get_content later i c).0)
  unfolding invalidate_content
  get_content-invalidate_content j c = ground (
    arith,
    get_content-live_value (invalidate_content j c),
    get_content-live_value c,
    lookup-erase i j c.content_cache,
  )

  -- `invalidate_content` forgets the content of the document and its size under every version, and
  -- nothing of any other document.
  pub invalidate_content-forgets :
      (v : Option Text) (j : ℕ) (c : InMemoryCache)
      → ((get_content later i (invalidate_content j c)).0
          ≡ (if i == j then none else (get_content later i c).0))
        × ((get_size later i v (invalidate_content j c)).0
            ≡ (if i == j then none else (get_size later i v c).0))
  invalidate_content-forgets v j c =
      (get_content-invalidate_content j c, get_size-invalidate_content later i v j c)
