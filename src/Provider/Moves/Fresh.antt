-- ===== src/Provider/Moves/Fresh.antt =====
-- The listings of a share after a MOVE of one of its documents, across the cache of
-- src/paperless_webdav/cache.py.
use paperless_webdav.Base.{ℕ, ◌≡◌, ◌⊎◌, refl, true, some, List, ◌++◌, arith, nat_eq, Text, codes}
use paperless_webdav.Outcome.{Outcome, ok, raise}
use paperless_webdav.Client.{Remote, add_tag_to_document, remove_tag_from_document}
use paperless_webdav.Cache.Memory.{InMemoryCache}
use paperless_webdav.Provider.Documents.{PaperlessDocument, Share}
use paperless_webdav.Provider.Paths.{path_parts}
use paperless_webdav.Provider.Listing.{load_documents_cached}
use paperless_webdav.Provider.Listing.Fresh.{load_documents_cached-invalidated}
use paperless_webdav.Provider.Moves.{
  DocumentResource, MoveContext, MoveState, is_move_to_done_folder,
  is_move_from_done_folder_to_root, get_done_tag_id, invalidate_share_document_lists, after_request,
  handle_move_to_done_folder, handle_move_from_done_folder, move_parts, handle_move,
}
use paperless_webdav.Provider.Moves.Effects.{or_forbidden-cases, or_fall_back-cases, not_both}

after_request-invalidates :
    (context : MoveContext) (r : DocumentResource) (cache : InMemoryCache)
    (x : Outcome (Unit {0}) × Remote)
    → (after_request context r cache x).0 ≡ true
    → (after_request context r cache x).1.cache ≡ invalidate_share_document_lists context r cache
unfolding after_request
after_request-invalidates context r cache (ok _, remote) e = refl
after_request-invalidates context r cache (raise x, remote) e = cc

module _ (context : MoveContext) (r : DocumentResource) (dest_path : Text) (s : MoveState)
    (share : Share) (tag : ℕ) where
  handle_move-invalidates :
      get_done_tag_id context r ≡ some tag
      → (is_move_to_done_folder r (path_parts dest_path) ≡ true)
        ⊎ (is_move_from_done_folder_to_root r (path_parts dest_path) ≡ true)
      → (handle_move context r dest_path s).0 ≡ ok true
      → (handle_move context r dest_path s).1.cache
        ≡ invalidate_share_document_lists context r s.cache
  unfolding handle_move move_parts handle_move_to_done_folder handle_move_from_done_folder
  handle_move-invalidates known moves went = ground (
    arith,
    not_both r (path_parts dest_path),
    or_forbidden-cases (handle_move_to_done_folder context r s),
    or_fall_back-cases (handle_move_from_done_folder context r s),
    after_request-invalidates context r s.cache
        (add_tag_to_document context.requests r.document.id tag s.remote),
    after_request-invalidates context r s.cache
        (remove_tag_from_document context.requests r.document.id tag s.remote),
  )

  -- After a move to the done folder or back that reports success, in a share whose done tag
  -- Paperless knows, the next listing of the share's root or done folder is what Paperless returns
  -- then, whatever listings the cache held.
  pub handle_move-Fresh :
      (now : ℕ) (fetch : List ℕ → List ℕ → List PaperlessDocument) (token role : Text)
      (inc exc : List ℕ)
      → r.share ≡ some share
      → get_done_tag_id context r ≡ some tag
      → (is_move_to_done_folder r (path_parts dest_path) ≡ true)
        ⊎ (is_move_from_done_folder_to_root r (path_parts dest_path) ≡ true)
      → (handle_move context r dest_path s).0 ≡ ok true
      → (load_documents_cached now fetch token
          (share.name ++ (codes ":" ++ role))
          inc
          exc
          context.document_list_ttl
          (handle_move context r dest_path s).1.cache).0
        ≡ fetch inc exc
  unfolding invalidate_share_document_lists load_documents_cached
  handle_move-Fresh now fetch token role inc exc e known moves went = ground (
    arith,
    handle_move-invalidates known moves went,
    load_documents_cached-invalidated now fetch token share.name role inc exc
        context.document_list_ttl s.cache,
  )
