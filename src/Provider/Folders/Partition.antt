-- ===== src/Provider/Folders/Partition.antt =====
-- How the share root and the done folder divide the documents of a share.
use paperless_webdav.Base.{
  ℕ, ◌≡◌, ◌↔◌, refl, Bool, true, false, ◌&&◌, not, none, some, List, [], ◌∷◌, ◌++◌, any, contains,
  arith, In, nat_eq, list_eq, Dict, lookup, Text, append-nil, any-append,
}
use paperless_webdav.Provider.Documents.{PaperlessDocument, Share}
use paperless_webdav.Provider.Moves.{filled}
use paperless_webdav.Provider.Folders.{
  resolve_tag_ids_from_map, Query, done_names, load_documents, load_done_documents,
}

unfoldable pub every : (ℕ → Bool) → List ℕ → Bool
every p [] = true
every p (x ∷ xs) = let rest = every p xs in p x && rest

-- All of the tags to include, and none of the tags to exclude: `tags__id__all`, `tags__id__none`.
unfoldable pub meets : List ℕ → List ℕ → PaperlessDocument → Bool
unfolding every any contains
meets include_tag_ids exclude_tag_ids doc =
    every (λ t. contains t doc.tags) include_tag_ids
    && not (any (λ t. contains t doc.tags) exclude_tag_ids)

-- What Paperless documents of its filters.
pub record IsQuery (all : List PaperlessDocument) (query : Query) : Type 0 where
  pub finds :
      (inc exc : List ℕ) (d : PaperlessDocument)
      → In d (query inc exc) ↔ (In d all × (meets inc exc d ≡ true))

-- The documents of a share, in whichever folder.
abbrev pub share_documents : Query → Dict Text ℕ → Share → List PaperlessDocument
share_documents query tag_map share =
    query (resolve_tag_ids_from_map tag_map share.include_tags)
      (resolve_tag_ids_from_map tag_map share.exclude_tags)

every-append : (p : ℕ → Bool) (xs ys : List ℕ) → every p (xs ++ ys) ≡ every p xs && every p ys
unfolding every
every-append p [] ys = refl
every-append p (x ∷ xs) ys = ground (arith, every-append p xs ys)

meets-without :
    (inc exc : List ℕ) (id : ℕ) (d : PaperlessDocument)
    → meets inc (exc ++ (id ∷ [])) d ≡ (meets inc exc d && not (contains id d.tags))
unfolding meets any
meets-without inc exc id d = ground (arith, any-append (λ t. contains t d.tags) exc (id ∷ []))

meets-with :
    (inc exc : List ℕ) (id : ℕ) (d : PaperlessDocument)
    → meets (inc ++ (id ∷ [])) exc d ≡ (meets inc exc d && contains id d.tags)
unfolding meets every
meets-with inc exc id d = ground (arith, every-append (λ t. contains t d.tags) inc (id ∷ []))

module _ (all : List PaperlessDocument) (query : Query) (paperless : IsQuery all query)
    (tag_map : Dict Text ℕ) (share : Share) (done_tag : Text)
    (named : filled share.done_tag ≡ some done_tag) where
  done_ids_known :
      (id : ℕ)
      → lookup done_tag tag_map ≡ some id
      → resolve_tag_ids_from_map tag_map (done_names (filled share.done_tag)) ≡ id ∷ []
  unfolding resolve_tag_ids_from_map
  done_ids_known id known = ground (arith, named)

  no_done_ids :
      lookup done_tag tag_map ≡ none
      → resolve_tag_ids_from_map tag_map (done_names (filled share.done_tag)) ≡ []
  unfolding resolve_tag_ids_from_map
  no_done_ids unknown = ground (arith, named)

  root_query :
      (id : ℕ)
      → lookup done_tag tag_map ≡ some id
      → share.done_folder_enabled ≡ true
      → load_documents query tag_map share
        ≡ query
            (resolve_tag_ids_from_map tag_map share.include_tags)
            (resolve_tag_ids_from_map tag_map share.exclude_tags ++ (id ∷ []))
  unfolding load_documents
  root_query id known enabled = rw (done_ids_known id known, enabled) refl

  done_query :
      (id : ℕ)
      → lookup done_tag tag_map ≡ some id
      → load_done_documents query tag_map share
        ≡ query
            (resolve_tag_ids_from_map tag_map share.include_tags ++ (id ∷ []))
            (resolve_tag_ids_from_map tag_map share.exclude_tags)
  unfolding load_done_documents
  done_query id known = rw (done_ids_known id known) refl

  -- Provided that Paperless filters by tags as it documents, with the done folder enabled and a
  -- done tag that Paperless knows, every document of the share is in exactly one of the two: in
  -- the done folder with the done tag, and in the root without it; and they hold nothing else.
  pub load_documents-partition :
      (id : ℕ) (d : PaperlessDocument)
      → lookup done_tag tag_map ≡ some id
      → share.done_folder_enabled ≡ true
      → (In d (load_documents query tag_map share)
          ↔ (In d (share_documents query tag_map share) × (contains id d.tags ≡ false)))
        × (In d (load_done_documents query tag_map share)
            ↔ (In d (share_documents query tag_map share) × (contains id d.tags ≡ true)))
  load_documents-partition id d known enabled =
      let inc = resolve_tag_ids_from_map tag_map share.include_tags in
      let exc = resolve_tag_ids_from_map tag_map share.exclude_tags in
      rw (root_query id known enabled, done_query id known)
        (ground (
          arith,
          paperless.finds inc exc d,
          paperless.finds inc (exc ++ (id ∷ [])) d,
          paperless.finds (inc ++ (id ∷ [])) exc d,
          meets-without inc exc id d,
          meets-with inc exc id d,
        ))

  -- With a done tag that Paperless does not know, the root and the done folder are each the whole
  -- share: both ask for its documents with no regard to the done tag.
  pub load_done_documents-unknown :
      lookup done_tag tag_map ≡ none
      → (load_done_documents query tag_map share ≡ share_documents query tag_map share)
        × (load_documents query tag_map share ≡ share_documents query tag_map share)
  unfolding load_documents load_done_documents
  load_done_documents-unknown unknown = ground (
    arith,
    no_done_ids unknown,
    append-nil (resolve_tag_ids_from_map tag_map share.include_tags),
    append-nil (resolve_tag_ids_from_map tag_map share.exclude_tags),
  )
