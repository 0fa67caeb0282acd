-- ===== src/Cache/Redis/Answers.antt =====
-- What the getters of the Redis cache answer after its other methods.
use paperless_webdav.Base.{
  ℕ, ◌+◌, ◌≡◌, ◌≢◌, ◌<◌, refl, sym, ap, ◌∙◌, inl, inr, false, Option, none, some, List, [], ◌∷◌,
  ◌++◌, nat_eq, arith, length, drop, In, Text, decimal, to_int-decimal, is_digits-decimal,
}
use paperless_webdav.Cache.Memory
use paperless_webdav.Cache.Memory.Contents.{invalidate_content-forgets}
use paperless_webdav.Cache.Memory.{InMemoryCache, or_default, size_ttl, content_ttl}
use paperless_webdav.Cache.Redis.{
  Server, IsServer, content_key, size_key, read_size, get_content, set_content, get_size, set_size,
  invalidate_content,
}

longer : (s t : Text) (c : ℕ) → s ++ (c ∷ t) ≢ s
longer [] t c e = ground (arith, e)
longer (d ∷ s) t c e = longer s t c (ap (drop 1) e)

-- No key of a size is a key of a content, and the key with a version is not the key without.
size_key-content_key : (i j : ℕ) (v : Option Text) → size_key i v ≢ content_key j
unfolding size_key content_key
size_key-content_key i j none e = ground (arith, e)
size_key-content_key i j (some v) e = ground (arith, e)

size_key-versioned : (i : ℕ) (v : Text) → size_key i (some v) ≢ size_key i none
unfolding size_key
size_key-versioned i v e = longer (decimal i) v b':' (ap (drop 28) e)

read_size-decimal : (n : ℕ) → read_size (some (decimal n)) ≡ some n
read_size-decimal n = ground (arith, is_digits-decimal n, to_int-decimal n)

module _ {S : Type 0} (server : Server S) (laws : IsServer server) (now later i : ℕ) where
  -- A size is answered for its seconds.
  pub get_size-set_size :
      (size : ℕ) (ttl : Option ℕ) (v : Option Text) (s : S)
      → 0 < or_default ttl size_ttl
      → later < now + or_default ttl size_ttl
      → get_size server false later i v (set_size server false now i size ttl v s) ≡ some size
  unfolding get_size set_size
  get_size-set_size size ttl v s positive live =
      let found =
        laws.get_setex now later (or_default ttl size_ttl) (size_key i v) (decimal size) s live in
      ground (arith, positive, found, read_size-decimal size)

  -- A content is answered for its seconds, and so is its length as the size without a version.
  pub get_content-set_content :
      (content : List ℕ) (ttl : Option ℕ) (s : S)
      → 0 < or_default ttl content_ttl
      → later < now + or_default ttl content_ttl
      → (get_content server false later i (set_content server false now i content ttl s)
          ≡ some content)
        × (get_size server false later i none (set_content server false now i content ttl s)
            ≡ some (length content))
  unfolding get_content get_size set_content
  get_content-set_content content ttl s positive live =
      let seconds = or_default ttl content_ttl in
      let with_content = server.setex now (content_key i) seconds content s in
      let sized =
        laws.get_setex now later seconds (size_key i none) (decimal (length content)) with_content
          live in
      let kept =
        laws.get_setex_other now later seconds (size_key i none) (content_key i)
          (decimal (length content)) with_content (λ e. size_key-content_key i i none (sym e)) in
      let found = laws.get_setex now later seconds (content_key i) content s live in
      (
        ground (arith, positive, kept, found),
        ground (arith, positive, sized, read_size-decimal (length content)),
      )

  not_removed : (v : Text) → ¬ In (size_key i (some v)) (content_key i ∷ size_key i none ∷ [])
  not_removed v (inl e) = size_key-content_key i i (some v) e
  not_removed v (inr (inl e)) = size_key-versioned i v e
  not_removed v (inr (inr m)) = m

  -- `invalidate_content` forgets the content and the size without a version, and leaves the size under
  -- every version.
  pub get_size-invalidate_content :
      (v : Text) (s : S)
      → (get_content server false later i (invalidate_content server false i s) ≡ none)
        × (get_size server false later i none (invalidate_content server false i s) ≡ none)
        × (get_size server false later i (some v) (invalidate_content server false i s)
            ≡ get_size server false later i (some v) s)
  unfolding get_content get_size invalidate_content
  get_size-invalidate_content v s =
      let removed = content_key i ∷ size_key i none ∷ [] in
      let content_gone = laws.get_delete later (content_key i) removed s (inl refl) in
      let size_gone = laws.get_delete later (size_key i none) removed s (inr (inl refl)) in
      let kept = laws.get_delete_other later (size_key i (some v)) removed s (not_removed v) in
      (content_gone, ap read_size size_gone, ap read_size kept)

  -- The two backends differ: after a size was set under a version and the document was invalidated, the
  -- Redis cache still answers the size for its seconds, and the cache in memory does not.
  pub get_size_stale :
      (size : ℕ) (ttl : Option ℕ) (v : Text) (s : S) (c : InMemoryCache)
      → 0 < or_default ttl size_ttl
      → later < now + or_default ttl size_ttl
      → (get_size server false later i
            (some v)
            (invalidate_content server false i (set_size server false now i size ttl (some v) s))
          ≡ some size)
        × ((Memory.get_size later i
              (some v)
              (Memory.invalidate_content i (Memory.set_size now i size ttl (some v) c))).0
            ≡ none)
  get_size_stale size ttl v s c positive live =
      let (content_gone, size_gone, kept) =
        get_size-invalidate_content v (set_size server false now i size ttl (some v) s) in
      let (gone, forgotten) =
        invalidate_content-forgets later i (some v) i (Memory.set_size now i size ttl (some v) c) in
      (kept ∙ get_size-set_size size ttl (some v) s positive live, ground (arith, forgotten))
