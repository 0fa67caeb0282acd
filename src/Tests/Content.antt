-- ===== src/Tests/Content.antt =====
-- The content of a document at concrete states.
use paperless_webdav.Base.{
  ℕ, ◌≡◌, refl, Bool, true, false, inr, none, some, [], ◌∷◌, length, nat_eq, ℕ_discrete, list_eq,
  option_eq, pair_eq, lookup, codes, arith,
}
use paperless_webdav.Outcome.{ok, raise, http_error}
use paperless_webdav.Provider.Documents.{PaperlessDocument}
use paperless_webdav.Cache.Memory
use paperless_webdav.Cache.Memory.{InMemoryCache, empty_cache, get_size}
use paperless_webdav.Provider.Content.{
  ContentContext, ContentState, get_content_length, get_content, body_bytes,
}
use paperless_webdav.Provider.Content.Lengths.{Serves, get_content-get_content_length}
use paperless_webdav.Provider.Content.Failures.{get_content-Fails}

abbrev report : PaperlessDocument
report = record {
  id = 7;
  title = codes "Report";
  original_file_name = codes "Report.pdf";
  created = codes "2024-01-02";
  modified = codes "2024-05-06";
  tags = [];
  added = codes "";
}

abbrev answering : Bool → ContentContext
answering streaming = record {
  now = 50;
  stream_downloads = streaming;
  size_ttl = 300;
  has_client = true;
  download = ok (1 ∷ 2 ∷ 3 ∷ []);
  size_probe = ok (some 3);
  open_stream = ok ((1 ∷ []) ∷ (2 ∷ 3 ∷ []) ∷ []);
}

-- The size under the version of the document is `size`.
abbrev sized : ℕ → ContentState
sized size = record {
  content = none;
  cache = record empty_cache {
    size_cache = ((7, some (codes "2024-05-06")), record { value = size; expires_at = 100 }) ∷ [];
  };
}

answering-Serves : (streaming : Bool) → Serves (answering streaming) (1 ∷ 2 ∷ 3 ∷ [])
answering-Serves streaming = record {
  client = refl;
  downloads = refl;
  opens = ((1 ∷ []) ∷ (2 ∷ 3 ∷ []) ∷ [], refl, refl);
}

sized_answers :
    (size : ℕ) → (get_size 50 7 (some (codes "2024-05-06")) (sized size).cache).0 ≡ some size
unfolding get_size lookup nat_eq ℕ_discrete list_eq option_eq pair_eq
sized_answers size = refl

announced : (get_content_length (answering true) report (sized 3)).0 ≡ some 3
unfolding get_content_length Memory.get_content get_size lookup nat_eq ℕ_discrete list_eq option_eq
    pair_eq
announced = refl

get_content-get_content_length_example :
    length (
      body_bytes
        (get_content
          (answering false)
          report
          (get_content_length (answering true) report (sized 3)).1).0)
    ≡ 3
get_content-get_content_length_example =
    get_content-get_content_length report (1 ∷ 2 ∷ 3 ∷ []) (answering true) (answering false)
      (sized 3) (answering-Serves true) (answering-Serves false) (λ m e. ground (arith, e))
      (λ m e. ground (arith, sized_answers 3, e)) 3 announced

nothing_cached : (t : ℕ) → (Memory.get_content t 7 (sized 9).cache).0 ≡ none
unfolding Memory.get_content lookup
nothing_cached t = refl

abbrev failing : ContentContext
failing = record (answering false) { download = raise http_error; open_stream = raise http_error }

get_content-Fails_example :
    (body_bytes (get_content failing report (sized 9)).0 ≡ [])
    × ((t : ℕ) → (Memory.get_content t 7 (get_content failing report (sized 9)).1.cache).0 ≡ none)
get_content-Fails_example =
    get_content-Fails report failing (inr (http_error, http_error, refl, refl)) (sized 9)
      (refl, nothing_cached)
