-- ===== src/Provider/Content/Lengths.antt =====
-- The announced length of a document and the body that is served after it.
use mathlib.Core.Path.{subst}
use paperless_webdav.Base.{
  ℕ, ◌≡◌, refl, sym, ap, ◌∙◌, true, Option, none, some, List, [], if◌then◌else◌, length, concat,
  Text, nat_eq, option_eq, list_eq, pair_eq, arith, if_cases,
}
use paperless_webdav.Outcome.{Outcome, ok, raise}
use paperless_webdav.Provider.Documents.{PaperlessDocument}
use paperless_webdav.Cache.Memory
use paperless_webdav.Cache.Memory.{InMemoryCache, get_size, set_size, set_content}
use paperless_webdav.Provider.Content.{
  ContentContext, ContentState, from_cache, content_at_hand, keep_download, or_download,
  download_content, keep_size, measure_content, or_measure, or_size, get_content_length, Body,
  bytes_io, opened, body_bytes, or_open, get_content,
}

-- Paperless serves these bytes, whichever way it is asked for them.
pub record Serves (ctx : ContentContext) (bytes : List ℕ) : Type 0 where
  pub client : ctx.has_client ≡ true
  pub downloads : ctx.download ≡ ok bytes
  pub opens : (chunks : List (List ℕ)) × (ctx.open_stream ≡ ok chunks) × (concat chunks ≡ bytes)

-- Nothing of the document's content is at hand, now or later.
abbrev pub IsMissing : PaperlessDocument → ContentState → Type 0
IsMissing document s =
    (s.content ≡ none) × ((t : ℕ) → (Memory.get_content t document.id s.cache).0 ≡ none)

-- What the lookup of a content leaves.
abbrev LooksUp : PaperlessDocument → Option (List ℕ) × ContentState → Type 0
LooksUp document (some content, s) = s.content ≡ some content
LooksUp document (none, s) = IsMissing document s

-- A content that a read of the cache does not find, no later read finds.
get_content-missed :
    (now t i : ℕ) (c : InMemoryCache)
    → (Memory.get_content now i c).0 ≡ none
    → (Memory.get_content t i (Memory.get_content now i c).1).0 ≡ none
unfolding Memory.get_content
get_content-missed now t i c h =
    Memory.read_entry-live_value t i (Memory.read_entry now i c.content_cache).1
    ∙ ap (Memory.live_value t) (Memory.read_entry-missed now i c.content_cache h)

get_content-get_size :
    (t now i j : ℕ) (v : Option Text) (c : InMemoryCache)
    → (Memory.get_content t i (get_size now j v c).1).0 ≡ (Memory.get_content t i c).0
unfolding Memory.get_content get_size
get_content-get_size t now i j v c = refl

pub get_size-get_content :
    (t now i j : ℕ) (v : Option Text) (c : InMemoryCache)
    → (get_size t i v (Memory.get_content now j c).1).0 ≡ (get_size t i v c).0
unfolding Memory.get_content get_size
get_size-get_content t now i j v c = refl

get_content-set_size :
    (t now i j size : ℕ) (ttl : Option ℕ) (v : Option Text) (c : InMemoryCache)
    → (Memory.get_content t i (set_size now j size ttl v c)).0 ≡ (Memory.get_content t i c).0
unfolding Memory.get_content set_size
get_content-set_size t now i j size ttl v c = refl

module _ (document : PaperlessDocument) where
  from_cache-LooksUp :
      (now : ℕ) (s : ContentState) (found : Option (List ℕ)) (cache : InMemoryCache)
      → s.content ≡ none
      → (found ≡ none → (t : ℕ) → (Memory.get_content t document.id cache).0 ≡ none)
      → LooksUp document (from_cache s (found, cache))
  unfolding from_cache
  from_cache-LooksUp now s none cache h m = (h, m refl)
  from_cache-LooksUp now s (some content) cache h m = refl

  from_cache-sizes :
      (t : ℕ) (v : Option Text) (s : ContentState) (found : Option (List ℕ)) (cache : InMemoryCache)
      → (get_size t document.id v (from_cache s (found, cache)).1.cache).0
        ≡ (get_size t document.id v cache).0
  unfolding from_cache
  from_cache-sizes t v s none cache = refl
  from_cache-sizes t v s (some content) cache = refl

  -- A lookup of the content leaves the sizes.
  pub content_at_hand-sizes :
      (now t : ℕ) (v : Option Text) (s : ContentState)
      → (get_size t document.id v (content_at_hand now document s).1.cache).0
        ≡ (get_size t document.id v s.cache).0
  unfolding content_at_hand
  content_at_hand-sizes now t v s =
      (elim s.content
        as (λ o.
          (get_size t document.id v
            (elim o as (λ _. Option (List ℕ) × ContentState) [
              | some content ↦ (some content, s)
              | none ↦ from_cache s (Memory.get_content now document.id s.cache)
            ]).1.cache).0
          ≡ (get_size t document.id v s.cache).0) [
            | some content ↦ refl
            | none ↦
                from_cache-sizes t v s _ _
                ∙ get_size-get_content t now document.id document.id v s.cache
          ])

  at_hand-LooksUp :
      (now : ℕ) (content : Option (List ℕ)) (cache : InMemoryCache)
      → LooksUp document
          (content_at_hand now document (record { content = content; cache = cache }))
  unfolding content_at_hand
  at_hand-LooksUp now (some content) cache = refl
  at_hand-LooksUp now none cache =
      from_cache-LooksUp now (record { content = none; cache = cache })
        (Memory.get_content now document.id cache).0 (Memory.get_content now document.id cache).1
        refl (λ e t. get_content-missed now t document.id cache e)

  content_at_hand-LooksUp :
      (now : ℕ) (s : ContentState) → LooksUp document (content_at_hand now document s)
  content_at_hand-LooksUp now s = at_hand-LooksUp now s.content s.cache

  content_at_hand-held :
      (now : ℕ) (s : ContentState) (content : List ℕ)
      → s.content ≡ some content
      → content_at_hand now document s ≡ (some content, s)
  unfolding content_at_hand
  content_at_hand-held now s content h = ground (arith, h)

  pub content_at_hand-IsMissing :
      (now : ℕ) (s : ContentState)
      → IsMissing document s
      → content_at_hand now document s
        ≡ (none, record s { cache = (Memory.get_content now document.id s.cache).1 })
  unfolding content_at_hand from_cache
  content_at_hand-IsMissing now s (h, m) = ground (arith, h, m now)

  unfoldable pub after_miss : ℕ → ContentState → ContentState
  after_miss now s = record s { cache = (Memory.get_content now document.id s.cache).1 }

  pub after_miss-IsMissing :
      (now : ℕ) (s : ContentState) → IsMissing document s → IsMissing document (after_miss now s)
  unfolding after_miss
  after_miss-IsMissing now s missing =
      subst (LooksUp document) (content_at_hand-IsMissing now s missing)
        (content_at_hand-LooksUp now s)

  -- A state that holds these bytes serves them, and announces their length.
  get_content-held :
      (ctx : ContentContext) (s : ContentState) (content : List ℕ)
      → s.content ≡ some content
      → get_content ctx document s ≡ (bytes_io content, s)
  unfolding get_content or_open
  get_content-held ctx s content h =
      ap (or_open ctx document) (content_at_hand-held ctx.now s content h)

module _ (document : PaperlessDocument) (bytes : List ℕ) where
  abbrev Downloads : List ℕ × ContentState → Type 0
  Downloads (content, s) = (content ≡ bytes) × (s.content ≡ some bytes)

  or_download-Downloads :
      (ctx : ContentContext) (s : ContentState)
      → Serves ctx bytes
      → Downloads (or_download ctx document (none, s))
  unfolding or_download keep_download
  or_download-Downloads ctx s serves = ground (arith, serves.client, serves.downloads)

  download_content-Downloads :
      (ctx : ContentContext) (s : ContentState)
      → Serves ctx bytes
      → IsMissing document s
      → Downloads (download_content ctx document s)
  unfolding download_content after_miss
  download_content-Downloads ctx s serves missing =
      subst (λ r. Downloads (or_download ctx document r))
        (sym (content_at_hand-IsMissing document ctx.now s missing))
        (or_download-Downloads ctx (after_miss document ctx.now s) serves)

  -- The bytes of a document of which nothing is at hand are those that Paperless serves.
  get_content-Serves :
      (ctx : ContentContext) (s : ContentState)
      → Serves ctx bytes
      → IsMissing document s
      → body_bytes (get_content ctx document s).0 ≡ bytes
  unfolding get_content or_open after_miss
  get_content-Serves ctx s serves missing =
      subst (λ r. body_bytes (or_open ctx document r).0 ≡ bytes)
        (sym (content_at_hand-IsMissing document ctx.now s missing))
        (if_cases (λ (t : Body × ContentState). body_bytes t.0 ≡ bytes) ctx.stream_downloads _ _
          (λ _. streamed)
          (λ _.
            (download_content-Downloads ctx s' serves
              (after_miss-IsMissing document ctx.now s missing)).0))
    where
      s' : ContentState
      s' = after_miss document ctx.now s

      streamed : body_bytes (if ctx.has_client then opened ctx.open_stream else bytes_io []) ≡ bytes
      streamed = rw (serves.client, serves.opens.1) serves.opens.2

  module _ (ctx later : ContentContext) (serves : Serves ctx bytes) (still : Serves later bytes)
      (probe_right : (m : ℕ) → ctx.size_probe ≡ ok (some m) → m ≡ length bytes) where
    abbrev Agrees : Option ℕ × ContentState → Type 0
    Agrees (announced, s) =
        (n : ℕ) → announced ≡ some n → length (body_bytes (get_content later document s).0) ≡ n

    missing-Agrees :
        (m : ℕ) (s : ContentState) → m ≡ length bytes → IsMissing document s → Agrees (some m, s)
    missing-Agrees m s right missing n e =
        ap length (get_content-Serves later s still missing) ∙ sym right ∙ cc

    held-Agrees :
        (content : List ℕ) (s : ContentState)
        → s.content ≡ some content
        → Agrees (some (length content), s)
    held-Agrees content s h n e =
        ap (λ t. length (body_bytes t.0)) (get_content-held document later s content h) ∙ cc

    keep_size-Agrees :
        (s : ContentState) (probe : Outcome (Option ℕ))
        → ((m : ℕ) → probe ≡ ok (some m) → m ≡ length bytes)
        → IsMissing document s
        → Agrees (keep_size ctx document s probe)
    unfolding keep_size
    keep_size-Agrees s (raise e) right missing n h = cc
    keep_size-Agrees s (ok none) right missing n h = cc
    keep_size-Agrees s (ok (some m)) right missing n h =
        missing-Agrees m _ (right m refl) (resized missing) n h
      where
        resized :
            IsMissing document s
            → IsMissing document (record s {
              cache =
                  set_size ctx.now document.id m
                    (some ctx.size_ttl)
                    (some document.modified)
                    s.cache;
            })
        resized (none_held, none_cached) = (
          none_held,
          λ t. get_content-set_size t ctx.now document.id document.id m _ _ s.cache ∙ none_cached t,
        )

    measure_content-Agrees :
        (s : ContentState) → IsMissing document s → Agrees (measure_content ctx document s)
    unfolding measure_content
    measure_content-Agrees s missing =
        if_cases Agrees ctx.stream_downloads _ _
          (λ _.
            if_cases Agrees ctx.has_client _ _
              (λ _. keep_size-Agrees s ctx.size_probe probe_right missing) (λ _ n h. cc))
          (λ _.
            held-Agrees (download_content ctx document s).0 (download_content ctx document s).1
              kept)
      where
        kept :
            (download_content ctx document s).1.content ≡ some (download_content ctx document s).0
        kept =
            (download_content-Downloads ctx s serves missing).1
            ∙ ap some (sym (download_content-Downloads ctx s serves missing).0)

    or_measure-Agrees :
        (s : ContentState) (size : Option ℕ) (cache : InMemoryCache)
        → ((m : ℕ) → size ≡ some m → m ≡ length bytes)
        → IsMissing document (record s { cache = cache })
        → Agrees (or_measure ctx document s (size, cache))
    unfolding or_measure
    or_measure-Agrees s none cache right missing = measure_content-Agrees _ missing
    or_measure-Agrees s (some m) cache right missing = missing-Agrees m _ (right m refl) missing

    or_size-Agrees :
        (found : Option (List ℕ)) (s : ContentState)
        → LooksUp document (found, s)
        → ((m : ℕ)
            → (get_size ctx.now document.id (some document.modified) s.cache).0 ≡ some m
            → m ≡ length bytes)
        → Agrees (or_size ctx document (found, s))
    unfolding or_size
    or_size-Agrees (some content) s held right = held-Agrees content s held
    or_size-Agrees none s missing right = or_measure-Agrees s _ _ right (
      missing.0,
      λ t. get_content-get_size t ctx.now document.id document.id _ s.cache ∙ missing.1 t,
    )

-- A document that Paperless serves with these bytes is announced with a length, at one time, and
-- served afterwards, at another, with a body of that length: for a document that is at hand, one whose
-- size is cached, one that is probed and one that is downloaded, streamed or not. It is required that
-- the size in the cache, and a size that the probe answers, are those of the bytes.
pub get_content-get_content_length :
    (document : PaperlessDocument) (bytes : List ℕ) (ctx later : ContentContext) (s : ContentState)
    → Serves ctx bytes
    → Serves later bytes
    → ((m : ℕ) → ctx.size_probe ≡ ok (some m) → m ≡ length bytes)
    → ((m : ℕ)
        → (get_size ctx.now document.id (some document.modified) s.cache).0 ≡ some m
        → m ≡ length bytes)
    → (n : ℕ) → (get_content_length ctx document s).0 ≡ some n
    → length (body_bytes (get_content later document (get_content_length ctx document s).1).0) ≡ n
unfolding get_content_length
get_content-get_content_length document bytes ctx later s serves still probe_right right =
    or_size-Agrees document bytes ctx later serves still probe_right
      (content_at_hand ctx.now document s).0 (content_at_hand ctx.now document s).1
      (content_at_hand-LooksUp document ctx.now s)
      (λ m e. right m (sym (content_at_hand-sizes document ctx.now ctx.now _ s) ∙ e))
