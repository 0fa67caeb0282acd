-- ===== src/Opds/Routes/Calls.antt =====
-- Every answer of the catalog, from the credentials to the share.
use paperless_webdav.Base.{
  is_digits, to_int, ℕ, ◌≡◌, refl, ◌⊎◌, Bool, true, false, ◌≢◌, ◌&&◌, Option, none, some, List, [],
  ◌∷◌, ◌++◌, map, ◌==◌, nat_eq, list_eq, In, In-of_select, All, if_cases, lookup, Text, codes,
}
use paperless_webdav.Provider.Documents.{PaperlessDocument}
use paperless_webdav.Provider.Folders.{ShareView, untagged_documents}
use paperless_webdav.Opds.Requests.{parse_credentials, page_of, origin}
use paperless_webdav.Opds.Entries.{nav_type, Entry, nav, NavEntry, tagged}
use paperless_webdav.Opds.Feeds.{share_feed, topic_entry, sorted_topics, unsorted_entry}
use paperless_webdav.Opds.Routes.{
  Catalog, Upstream, QueryValues, Response, plain, ask_credentials, answered, xml, plain_listing,
  tag_route, route_share, catalog_parts, Request, accepted,
}
use paperless_webdav.Opds.Routes.Within.{StaysIn, ListsShares}
use paperless_webdav.Opds.Routes.Members.{
  ServesMembers, navs-NamesMember, listing-ServesMembers, download-ServesMembers,
  thumb-ServesMembers, search-ServesMembers, member-HasId,
}

tagged_within :
    (tag_id : ℕ) (d : PaperlessDocument) (ds : List PaperlessDocument)
    → In d (tagged tag_id ds)
    → In d ds
unfolding tagged
tagged_within tag_id d ds m = (In-of_select _ d ds m).0

unsorted_within :
    (v : ShareView) (d : PaperlessDocument) → In d (untagged_documents v) → In d v.documents
unfolding untagged_documents
unsorted_within v d m = (In-of_select _ d v.documents m).0

module _ (catalog : Catalog) (up : Upstream) (at : Text) (head : Bool) (v : ShareView) where
  abbrev IsNav : Entry → Type 0
  IsNav e = (n : NavEntry) × (e ≡ nav n)

  topics-IsNav :
      (topics : List (Text × ℕ)) (rest : List Entry)
      → All IsNav rest
      → All IsNav (map (topic_entry catalog.now v) topics ++ rest)
  topics-IsNav [] rest h = h
  topics-IsNav ((name, tag_id) ∷ topics) rest h = ((_, refl), topics-IsNav topics rest h)

  unsorted-IsNav : (ds : List PaperlessDocument) → All IsNav (unsorted_entry catalog.now v ds)
  unsorted-IsNav [] = tt
  unsorted-IsNav (d ∷ ds) = ((_, refl), tt)

  browse-ServesMembers : ServesMembers v (xml at head nav_type (share_feed catalog.now v))
  unfolding xml share_feed
  browse-ServesMembers =
      navs-NamesMember v at (share_feed catalog.now v).entries
        ((_, refl), topics-IsNav (sorted_topics v) _ (unsorted-IsNav (untagged_documents v)))

  tag-ServesMembers :
      (page tag_id : ℕ) (name : Option Text)
      → ServesMembers v (tag_route catalog up at head v page tag_id name)
  tag-ServesMembers page tag_id none = tt
  tag-ServesMembers page tag_id (some name) =
      listing-ServesMembers catalog up at head v _ (tagged tag_id v.documents) page within
    where
      within : (d : PaperlessDocument) → In d (tagged tag_id v.documents) → In d v.documents
      within d m = tagged_within tag_id d v.documents m

  -- Whatever is asked of a share, every document that the answer lists or serves is one of the share's,
  -- by its id: in the feeds of all, of a tag, of the unsorted and of a search, whatever Paperless
  -- finds, in a download and in a thumbnail.
  pub route_share-ServesMembers :
      (query : QueryValues) (parts : List Text)
      → ServesMembers v (route_share catalog up at head v query parts)
  unfolding route_share
  route_share-ServesMembers query [] =
      listing-ServesMembers catalog up at head v (plain_listing (codes "recent") v.share.name [])
        v.documents _ (λ d m. m)
  route_share-ServesMembers query (a ∷ []) =
      if_cases (ServesMembers v) (a == codes "recent") _ _
        (λ _.
          listing-ServesMembers catalog up at head v
            (plain_listing (codes "recent") v.share.name []) v.documents _ (λ d m. m))
        λ _.
          if_cases (ServesMembers v) (a == codes "browse") _ _ (λ _. browse-ServesMembers)
            λ _.
              if_cases (ServesMembers v) (a == codes "unsorted") _ _
                (λ _.
                  listing-ServesMembers catalog up at head v
                    (plain_listing (codes "unsorted") (codes "Unsorted") (codes "unsorted"))
                    (untagged_documents v) _ (unsorted_within v))
                λ _.
                  if_cases (ServesMembers v) (a == codes "search") _ _
                    (λ _. search-ServesMembers catalog up at head v _ _) (λ _. tt)
  route_share-ServesMembers query (a ∷ b ∷ []) =
      if_cases (ServesMembers v) ((a == codes "tag") && is_digits b) _ _
        (λ _. tag-ServesMembers (page_of query.page) (to_int 0 b) _)
        λ _.
          if_cases (ServesMembers v) ((a == codes "thumb") && is_digits b) _ _
            (λ _.
              thumb-ServesMembers catalog up at head v _
                (λ d h. member-HasId catalog up at head v _ d h))
            (λ _. tt)
  route_share-ServesMembers query (a ∷ b ∷ c ∷ []) =
      if_cases (ServesMembers v) ((a == codes "download") && is_digits b) _ _
        (λ _.
          download-ServesMembers catalog up at head v _
            (λ d h. member-HasId catalog up at head v _ d h))
        (λ _. tt)
  route_share-ServesMembers query (a ∷ b ∷ c ∷ d ∷ rest) = tt

-- An answer for a path: 404, for the path of an unknown share; the list of shares, for the path of no share; or an answer for the share
-- that the path names, which serves documents of that share only, in feeds that lead into that share
-- only.
abbrev pub InShare : Catalog → Text → List Text → Response → Type 0
InShare catalog at parts response =
    ((name : Text) × (rest : List Text) × (parts ≡ name ∷ rest)
      × (lookup name catalog.shares ≡ none)
      × (response ≡ plain 404))
    ⊎ ((parts ≡ []) × ListsShares catalog.shares at response
        ⊎ ((name : Text) × (rest : List Text) × (v : ShareView) × (parts ≡ name ∷ rest)
            × (lookup name catalog.shares ≡ some v)
            × ServesMembers v (answered response)
            × StaysIn v at (answered response)))

-- An answer to a request: a refusal of the method, a request for credentials, or, for credentials
-- that the authenticator accepts, an answer for the path.
abbrev pub CallTells :
    Catalog → (Text → Option Text) → (Text → Text → Bool) → Request → Response → Type 0
CallTells catalog b64decode accepts request response =
    ((request.method ≢ codes "GET") × (request.method ≢ codes "HEAD") × (response ≡ plain 405))
    ⊎ ((accepted accepts (parse_credentials b64decode request.authorization) ≡ false)
          × (response ≡ ask_credentials)
        ⊎ ((username password : Text) × (parse_credentials b64decode request.authorization
              ≡ some (username, password))
            × (accepts username password ≡ true)
            × InShare catalog (origin request.origin_environ) (catalog_parts request.path)
                response))
