-- ===== src/Provider/Listing/Fresh.antt =====
-- How stale a listing can be.
use paperless_webdav.Base.{
  ℕ, ◌≡◌, refl, ap, sym, ◌∙◌, true, Option, none, some, List, ◌∷◌, ◌++◌, ◌==◌, nat_eq, list_eq,
  Text, codes, is_infix, is_infix-append, append_assoc, if_cases,
}
use paperless_webdav.Provider.Documents.{PaperlessDocument}
use paperless_webdav.Cache.Memory.{
  InMemoryCache, token_key, share_marker, get_document_list, invalidate_document_lists,
}
use paperless_webdav.Cache.Memory.Listings.{get_document_list-invalidate_document_lists}
use paperless_webdav.Provider.Listing.{
  ids_text, document_list_cache_key, or_fetch, load_documents_cached,
}

-- The marker of a share stands in the key of each of its listings.
pub key-marked :
    (token share_name role : Text) (inc exc : List ℕ)
    → is_infix
        (share_marker share_name)
        (document_list_cache_key token (share_name ++ (codes ":" ++ role)) inc exc)
      ≡ true
unfolding document_list_cache_key
key-marked token share_name role inc exc =
    let tail = codes ":" ++ (ids_text inc ++ (codes ":" ++ ids_text exc)) in
    let e : codes ":" ++ ((share_name ++ (codes ":" ++ role)) ++ tail)
        ≡ share_marker share_name ++ (role ++ tail) =
      ap (λ (t : Text). b':' ∷ t)
        (append_assoc share_name (codes ":" ++ role) tail
          ∙ sym (append_assoc share_name (codes ":") (role ++ tail))) in
    rw e (is_infix-append (token_key token) (share_marker share_name) (role ++ tail))

fetched-when_none :
    (now : ℕ) (key : Text) (ttl : ℕ) (fetched : List PaperlessDocument)
    (r : Option (List PaperlessDocument) × InMemoryCache)
    → r.0 ≡ none
    → (or_fetch now key ttl fetched r).0 ≡ fetched
unfolding or_fetch
fetched-when_none now key ttl fetched (none, cache) e = refl
fetched-when_none now key ttl fetched (some cached, cache) e = cc

module _ (now : ℕ) (fetch : List ℕ → List ℕ → List PaperlessDocument) (token share_name role : Text)
    (inc exc : List ℕ) (ttl : ℕ) (cache : InMemoryCache) where
  -- After the lists of a share were invalidated, a listing of the share is what Paperless returns
  -- now, whatever the cache held and whatever the time to live is.
  pub load_documents_cached-invalidated :
      (load_documents_cached now fetch token
        (share_name ++ (codes ":" ++ role))
        inc
        exc
        ttl
        (invalidate_document_lists share_name cache)).0
      ≡ fetch inc exc
  unfolding load_documents_cached
  load_documents_cached-invalidated =
      let key = document_list_cache_key token (share_name ++ (codes ":" ++ role)) inc exc in
      let absent : (get_document_list now key (invalidate_document_lists share_name cache)).0
          ≡ none =
        rw
          (
            get_document_list-invalidate_document_lists now key share_name cache,
            key-marked token share_name role inc exc,
          )
          refl in
      if_cases (λ (x : List PaperlessDocument × InMemoryCache). x.0 ≡ fetch inc exc) (ttl == 0) _ _
        (λ zero_ttl. refl)
        (λ some_ttl.
          fetched-when_none now key ttl (fetch inc exc)
            (get_document_list now key (invalidate_document_lists share_name cache)) absent)
