-- ===== src/Provider/Content/Failures.antt =====
-- What a failed download serves, and what a download leaves of the sizes in the cache.
use mathlib.Core.Path.{subst}
use paperless_webdav.Base.{
  ℕ, ◌≡◌, refl, sym, ◌∙◌, ◌⊎◌, inl, inr, false, Option, none, some, List, [], if◌then◌else◌, nat_eq,
  option_eq, list_eq, arith, if_cases, Text,
}
use paperless_webdav.Outcome.{Error, raise}
use paperless_webdav.Provider.Documents.{PaperlessDocument}
use paperless_webdav.Cache.Memory
use paperless_webdav.Cache.Memory.{InMemoryCache, get_size, set_content}
use paperless_webdav.Cache.Memory.Sizes.{get_size-set_content}
use paperless_webdav.Provider.Content.{
  ContentContext, ContentState, keep_download, or_download, download_content, Body, bytes_io,
  opened, body_bytes, or_open, get_content,
}
use paperless_webdav.Provider.Content.Lengths.{
  get_size-get_content, Serves, IsMissing, after_miss, after_miss-IsMissing,
  content_at_hand-IsMissing,
}

-- There is no client, or both ways to ask Paperless for the content raise.
abbrev pub Fails : ContentContext → Type 0
Fails ctx =
    (ctx.has_client ≡ false)
    ⊎ ((e f : Error) × (ctx.download ≡ raise e) × (ctx.open_stream ≡ raise f))

-- An empty content, and still nothing in the cache.
abbrev ServesNothing : PaperlessDocument → Body × ContentState → Type 0
ServesNothing document (body, s) =
    (body_bytes body ≡ []) × ((t : ℕ) → (Memory.get_content t document.id s.cache).0 ≡ none)

abbrev DownloadsNothing : PaperlessDocument → List ℕ × ContentState → Type 0
DownloadsNothing document (content, s) =
    (content ≡ []) × ((t : ℕ) → (Memory.get_content t document.id s.cache).0 ≡ none)

module _ (document : PaperlessDocument) (ctx : ContentContext) (fails : Fails ctx) where
  or_download-Nothing :
      (s : ContentState)
      → IsMissing document s
      → DownloadsNothing document (or_download ctx document (none, s))
  unfolding or_download keep_download
  or_download-Nothing s missing = (elim fails [
    | inl none_there ↦ rw none_there (refl, missing.1)
    | inr (e, f, raises, _) ↦ rw raises (
        if_cases (DownloadsNothing document) ctx.has_client _ _ (λ _. (refl, missing.1))
          (λ _. (refl, missing.1)))
  ])

  download_content-Nothing :
      (s : ContentState)
      → IsMissing document s
      → DownloadsNothing document (download_content ctx document s)
  unfolding download_content after_miss
  download_content-Nothing s missing =
      subst (λ r. DownloadsNothing document (or_download ctx document r))
        (sym (content_at_hand-IsMissing document ctx.now s missing))
        (or_download-Nothing (after_miss document ctx.now s)
          (after_miss-IsMissing document ctx.now s missing))

  streams_nothing : body_bytes (if ctx.has_client then opened ctx.open_stream else bytes_io []) ≡ []
  streams_nothing = elim fails [
    | inl none_there ↦ rw none_there refl
    | inr (e, f, _, raises) ↦
        rw raises (if_cases (λ b. body_bytes b ≡ []) ctx.has_client _ _ (λ _. refl) (λ _. refl))
  ]

  -- A content that is not at hand, and that Paperless does not deliver or cannot be asked for, is
  -- served as an empty body, and the failure leaves no content in the cache.
  pub get_content-Fails :
      (s : ContentState)
      → IsMissing document s
      → (body_bytes (get_content ctx document s).0 ≡ [])
        × ((t : ℕ)
            → (Memory.get_content t document.id (get_content ctx document s).1.cache).0 ≡ none)
  unfolding get_content or_open after_miss
  get_content-Fails s missing =
      subst (λ r. ServesNothing document (or_open ctx document r))
        (sym (content_at_hand-IsMissing document ctx.now s missing))
        (if_cases (ServesNothing document) ctx.stream_downloads _ _
          (λ _. (streams_nothing, missed.1))
          (λ _. download_content-Nothing (after_miss document ctx.now s) missed))
    where
      missed : IsMissing document (after_miss document ctx.now s)
      missed = after_miss-IsMissing document ctx.now s missing

-- A size that a read of the cache answers, the next read answers.
get_size_again :
    (t i m : ℕ) (v : Option Text) (c : InMemoryCache)
    → (get_size t i v c).0 ≡ some m
    → (get_size t i v (get_size t i v c).1).0 ≡ some m
unfolding get_size
get_size_again t i m v c h = ground (arith, h)

module _ (document : PaperlessDocument) (bytes : List ℕ) (ctx : ContentContext) (m : ℕ) where
  abbrev Keeps : List ℕ × ContentState → Type 0
  Keeps (content, s) =
      (s.content ≡ some bytes)
      × ((get_size ctx.now document.id (some document.modified) s.cache).0 ≡ some m)

  or_download-Keeps :
      (s : ContentState)
      → Serves ctx bytes
      → (get_size ctx.now document.id (some document.modified) s.cache).0 ≡ some m
      → Keeps (or_download ctx document (none, s))
  unfolding or_download keep_download
  or_download-Keeps s serves sized =
      rw (serves.client, serves.downloads)
        (
          refl,
          get_size-set_content ctx.now document.id (some document.modified) ctx.now document.id
                bytes none (get_size ctx.now document.id (some document.modified) s.cache).1
              ∙ ground (
                arith,
                get_size_again ctx.now document.id m (some document.modified) s.cache sized,
              ),
        )

-- A download leaves the size that the cache has under the version of the document, right or wrong:
-- the size that it sets is the one without a version.
pub download_content-keeps_size :
    (document : PaperlessDocument) (bytes : List ℕ) (ctx : ContentContext) (s : ContentState)
    (m : ℕ)
    → Serves ctx bytes
    → IsMissing document s
    → (get_size ctx.now document.id (some document.modified) s.cache).0 ≡ some m
    → ((download_content ctx document s).1.content ≡ some bytes)
      × ((get_size ctx.now document.id
            (some document.modified)
            (download_content ctx document s).1.cache).0
          ≡ some m)
unfolding download_content after_miss
download_content-keeps_size document bytes ctx s m serves missing sized =
    subst (λ r. Keeps document bytes ctx m (or_download ctx document r))
      (sym (content_at_hand-IsMissing document ctx.now s missing))
      (or_download-Keeps document bytes ctx m (after_miss document ctx.now s) serves
        (get_size-get_content ctx.now ctx.now document.id document.id _ s.cache ∙ sized))
