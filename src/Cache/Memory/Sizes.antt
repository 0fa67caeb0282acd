-- ===== src/Cache/Memory/Sizes.antt =====
-- What `get_size` answers after each operation of the cache.
use paperless_webdav.Base.{
  ℕ, ◌+◌, ◌≡◌, ◌≤◌, ◌&&◌, sym, ◌∙◌, drop_where, Option, none, some, List, arith, ◌==◌,
  if◌then◌else◌, nat_eq, list_eq, option_eq, pair_eq, ltb, length, lookup, lookup-insert,
  lookup-drop_where, Text,
}
use paperless_webdav.Cache.Memory.{
  InMemoryCache, CacheEntry, size_ttl, content_ttl, or_default, live_value, read_entry-live_value,
  live_value-read_entry, set_content, get_size, is_superseded, set_size, is_of, invalidate_content,
}

module _ (later i : ℕ) (v : Option Text) where
  get_size-live_value :
      (c : InMemoryCache) → (get_size later i v c).0 ≡ live_value later (lookup (i, v) c.size_cache)
  unfolding get_size
  get_size-live_value c = read_entry-live_value later (i, v) c.size_cache

  -- After `set_size` the version that was set is answered until its time to live has passed, every
  -- other version of the document is gone, and other documents answer as before.
  pub get_size-set_size :
      (now j size : ℕ) (ttl : Option ℕ) (w : Option Text) (c : InMemoryCache)
      → (get_size later i v (set_size now j size ttl w c)).0 ≡ (
          if i == j
          then if v == w
            then if ltb (now + or_default ttl size_ttl) later then none else some size
            else none
          else (get_size later i v c).0)
  unfolding set_size
  get_size-set_size now j size ttl w c =
      let entry : CacheEntry ℕ = record {
        value = size;
        expires_at = now + or_default ttl size_ttl;
      } in
      ground (
        arith,
        get_size-live_value (set_size now j size ttl w c),
        get_size-live_value c,
        lookup-insert (i, v) (j, w) entry (drop_where (is_superseded j w) c.size_cache),
        lookup-drop_where (i, v) (is_superseded j w) c.size_cache,
      )

  -- `set_content` makes the length of the content the size of the document without a version, and
  -- changes no size under a version.
  pub get_size-set_content :
      (now j : ℕ) (content : List ℕ) (ttl : Option ℕ) (c : InMemoryCache)
      → (get_size later i v (set_content now j content ttl c)).0 ≡ (
          if (i == j) && (v == none)
          then if ltb (now + or_default ttl content_ttl) later then none else some (length content)
          else (get_size later i v c).0)
  unfolding set_content
  get_size-set_content now j content ttl c =
      let entry : CacheEntry ℕ = record {
        value = length content;
        expires_at = now + or_default ttl content_ttl;
      } in
      ground (
        arith,
        get_size-live_value (set_content now j content ttl c),
        get_size-live_value c,
        lookup-insert (i, v) (j, none) entry c.size_cache,
      )

  pub get_size-invalidate_content :
      (j : ℕ) (c : InMemoryCache)
      → (get_size later i v (invalidate_content j c)).0
        ≡ (if i == j then none else (get_size later i v c).0)
  unfolding invalidate_content
  get_size-invalidate_content j c = ground (
    arith,
    get_size-live_value (invalidate_content j c),
    get_size-live_value c,
    lookup-drop_where (i, v) (is_of j) c.size_cache,
  )

  -- A read of a size, at any earlier time, changes no later answer.
  pub get_size-get_size :
      (now j : ℕ) (w : Option Text) (c : InMemoryCache)
      → now ≤ later
      → (get_size later i v (get_size now j w c).1).0 ≡ (get_size later i v c).0
  unfolding get_size
  get_size-get_size now j w c h =
      read_entry-live_value later (i, v) _
      ∙ live_value-read_entry now later (j, w) (i, v) c.size_cache h
      ∙ sym (read_entry-live_value later (i, v) c.size_cache)
