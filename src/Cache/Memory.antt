-- ===== src/Cache/Memory.antt =====
-- `InMemoryCache` of src/paperless_webdav/cache.py: four dicts of entries that expire. Each method
-- runs under the lock, so it is one step; `now` is what `time.time()` returns in it, in seconds. A
-- getter returns its result beside the cache, from which it drops the entry that it finds expired.
pub mod Sizes
pub mod Contents
pub mod Listings
use paperless_webdav.Base.{
  ℕ, ◌+◌, ◌≡◌, refl, ◌≤◌, ◌<◌, Bool, true, false, ◌&&◌, not, Option, none, some, List, [], ◌∷◌,
  ◌++◌, arith, Eq, ◌==◌, if◌then◌else◌, nat_eq, list_eq, option_eq, pair_eq, ltb, leb, length, take,
  Dict, lookup, insert, erase, drop_where, lookup-erase, Text, codes, is_infix,
}
use paperless_webdav.Provider.Documents.{PaperlessDocument}

-- `CONTENT_TTL`, `SIZE_TTL`, `TAG_MAP_TTL`
abbrev pub content_ttl : ℕ
content_ttl = 300

abbrev pub size_ttl : ℕ
size_ttl = 300

abbrev pub tag_map_ttl : ℕ
tag_map_ttl = 300

pub record CacheEntry {ℓ} (V : Type ℓ) : Type ℓ where
  pub value : V
  pub expires_at : ℕ

pub record InMemoryCache : Type 0 where
  pub content_cache : Dict ℕ (CacheEntry (List ℕ))
  pub size_cache : Dict (ℕ × Option Text) (CacheEntry ℕ)
  pub tag_map_cache : Dict Text (CacheEntry (Dict Text ℕ))
  pub document_list_cache : Dict Text (CacheEntry (List PaperlessDocument))

-- `__init__`
abbrev pub empty_cache : InMemoryCache
empty_cache = record {
  content_cache = [];
  size_cache = [];
  tag_map_cache = [];
  document_list_cache = [];
}

-- `if ttl is None: ttl = ...`
abbrev pub or_default : Option ℕ → ℕ → ℕ
or_default none d = d
or_default (some ttl) d = ttl

-- What a getter answers about an entry.
abbrev pub live_value {ℓ} : {V : Type ℓ} → ℕ → Option (CacheEntry V) → Option V
live_value now none = none
live_value now (some entry) = if ltb entry.expires_at now then none else some entry.value

module _ {K V : Type 0} ⦃e : Eq K⦄ where
  -- The body that the four getters share: the value, and the dict afterwards.
  unfoldable pub read_entry : ℕ → K → Dict K (CacheEntry V) → Option V × Dict K (CacheEntry V)
  read_entry now k d = elim (lookup k d) [
    | none ↦ (none, d)
    | some entry ↦ if ltb entry.expires_at now then (none, erase k d) else (some entry.value, d)
  ]

  pub read_entry-live_value :
      (now : ℕ) (k : K) (d : Dict K (CacheEntry V))
      → (read_entry now k d).0 ≡ live_value now (lookup k d)
  unfolding read_entry
  read_entry-live_value now k d = ground arith

  -- A read drops only what later reads would not answer either.
  pub live_value-read_entry :
      (now later : ℕ) (k j : K) (d : Dict K (CacheEntry V))
      → now ≤ later
      → live_value later (lookup j (read_entry now k d).1) ≡ live_value later (lookup j d)
  unfolding read_entry
  live_value-read_entry now later k j d h = ground (arith, lookup-erase j k d)

  -- What a read does not find, the dict does not have afterwards.
  pub read_entry-missed :
      (now : ℕ) (k : K) (d : Dict K (CacheEntry V))
      → (read_entry now k d).0 ≡ none
      → lookup k (read_entry now k d).1 ≡ none
  unfolding read_entry
  read_entry-missed now k d h = ground (arith, lookup-erase k k d)

-- `token[:16] if len(token) >= 16 else token`
abbrev pub token_key : Text → Text
token_key token = if leb 16 (length token) then take 16 token else token

unfoldable pub get_content : ℕ → ℕ → InMemoryCache → Option (List ℕ) × InMemoryCache
unfolding read_entry
get_content now document_id c =
    let (v, d) = read_entry now document_id c.content_cache in (v, record c { content_cache = d })

unfoldable pub set_content : ℕ → ℕ → List ℕ → Option ℕ → InMemoryCache → InMemoryCache
set_content now document_id content ttl c =
    let expires_at = now + or_default ttl content_ttl in
    record c {
      content_cache =
          insert document_id (record { value = content; expires_at = expires_at }) c.content_cache;
      size_cache =
          insert (document_id, none) (record { value = length content; expires_at = expires_at })
            c.size_cache;
    }

unfoldable pub get_size : ℕ → ℕ → Option Text → InMemoryCache → Option ℕ × InMemoryCache
unfolding read_entry
get_size now document_id version c =
    let (v, d) = read_entry now (document_id, version) c.size_cache in
    (v, record c { size_cache = d })

-- `k[0] == document_id and k[1] != version`
abbrev pub is_superseded : ℕ → Option Text → ℕ × Option Text → Bool
is_superseded document_id version (i, v) = (i == document_id) && not (v == version)

unfoldable pub set_size : ℕ → ℕ → ℕ → Option ℕ → Option Text → InMemoryCache → InMemoryCache
set_size now document_id size ttl version c = record c {
  size_cache =
      insert (document_id, version)
        (record { value = size; expires_at = now + or_default ttl size_ttl })
        (drop_where (is_superseded document_id version) c.size_cache);
}

unfoldable pub get_tag_map : ℕ → Text → InMemoryCache → Option (Dict Text ℕ) × InMemoryCache
unfolding read_entry
get_tag_map now token c =
    let (v, d) = read_entry now (token_key token) c.tag_map_cache in
    (v, record c { tag_map_cache = d })

unfoldable pub set_tag_map : ℕ → Text → Dict Text ℕ → Option ℕ → InMemoryCache → InMemoryCache
set_tag_map now token tag_map ttl c = record c {
  tag_map_cache =
      insert (token_key token)
        (record { value = tag_map; expires_at = now + or_default ttl tag_map_ttl }) c.tag_map_cache;
}

unfoldable pub get_document_list :
    ℕ → Text → InMemoryCache → Option (List PaperlessDocument) × InMemoryCache
unfolding read_entry
get_document_list now key c =
    let (v, d) = read_entry now key c.document_list_cache in
    (v, record c { document_list_cache = d })

unfoldable pub set_document_list :
    ℕ → Text → List PaperlessDocument → ℕ → InMemoryCache → InMemoryCache
set_document_list now key documents ttl c = record c {
  document_list_cache =
      insert key (record { value = documents; expires_at = now + ttl }) c.document_list_cache;
}

-- `f":{share_name}:"`
abbrev pub share_marker : Text → Text
share_marker share_name = codes ":" ++ (share_name ++ codes ":")

unfoldable pub invalidate_document_lists : Text → InMemoryCache → InMemoryCache
invalidate_document_lists share_name c = record c {
  document_list_cache = drop_where (is_infix (share_marker share_name)) c.document_list_cache;
}

-- `k[0] == document_id`
abbrev pub is_of : ℕ → ℕ × Option Text → Bool
is_of document_id (i, v) = i == document_id

unfoldable pub invalidate_content : ℕ → InMemoryCache → InMemoryCache
invalidate_content document_id c = record c {
  content_cache = erase document_id c.content_cache;
  size_cache = drop_where (is_of document_id) c.size_cache;
}

unfoldable pub clear : InMemoryCache → InMemoryCache
clear c = empty_cache
