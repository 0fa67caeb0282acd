-- ===== src/Opds/Routes/Within.antt =====
-- Where the entries of the feeds of src/paperless_webdav/opds.py lead: those of a share's feeds into the
-- share, those of the root to the shares.
use mathlib.Core.Path.{subst}
use paperless_webdav.Base.{
  is_digits, to_int, ℕ, ℕ_discrete, ◌≡◌, refl, ◌&&◌, not, Option, none, some, List, [], ◌∷◌, ◌++◌,
  map, ◌==◌, nat_eq, list_eq, In, In-map, In-of_map, In-sort_with, All, All-of_In, if_cases, Dict,
  keys, Text, codes, starts_with, Bool, false, ap, ◌∙◌,
}
use paperless_webdav.Outcome.{Outcome, ok, raise}
use paperless_webdav.Provider.Documents.{PaperlessDocument}
use paperless_webdav.Provider.Folders.{ShareView, text_le, untagged_documents}
use paperless_webdav.Opds.Quoting.{quote, content_disposition}
use paperless_webdav.Opds.Requests.{page_of}
use paperless_webdav.Opds.Entries.{
  nav_type, acq_type, download_name, NavEntry, Entry, nav, document, base_of, tagged, entry_of,
  document_entry,
}
use paperless_webdav.Opds.Feeds.{
  Feed, root_entry, root_feed, share_feed, topic_entry, sorted_topics, unsorted_entry, Listing,
  page_feed, acquisition_feed,
}
use paperless_webdav.Opds.Routes.{
  Catalog, Streamed, Upstream, QueryValues, Response, plain, ask_credentials, feed_answer,
  head_answer, proxied, Routed, answered, not_found, failed, absolute_entry, xml, streamed_on,
  proxy, member, download_endpoint, thumb_endpoint, download, thumb, members_of, search_listing,
  found_feed, search_feed, feed_or_failed, plain_listing, listing_of, tag_route, route_share,
  respond,
}

-- The links of an entry are addresses below the one of the share.
abbrev pub LeadsInto : ShareView → Text → Entry → Type 0
LeadsInto v at (nav entry) = (rest : Text) × (entry.link.href ≡ at ++ (base_of v ++ rest))
LeadsInto v at (document entry) =
    ((rest : Text) × (entry.acquisition.href ≡ at ++ (base_of v ++ rest)))
    × ((rest : Text) × (entry.thumbnail.href ≡ at ++ (base_of v ++ rest)))

-- The entries of a feed lead into the share.
abbrev pub StaysIn : ShareView → Text → Routed → Type 0
StaysIn v at not_found = Unit
StaysIn v at failed = Unit
StaysIn v at (answered (plain status)) = Unit
StaysIn v at (answered ask_credentials) = Unit
StaysIn v at (answered (feed_answer head kind feed)) = All (LeadsInto v at) feed.entries
StaysIn v at (answered (head_answer disposition)) = Unit
StaysIn v at (answered (proxied head endpoint headers body)) = Unit

-- The entry of a share in the root feed.
abbrev pub ToShare : Text → Text → NavEntry → Type 0
ToShare at name entry = entry.link.href ≡ at ++ (codes "/opds/" ++ (quote name ++ codes "/"))

-- A feed that has an entry for each share, and no other entry.
abbrev pub ListsShares : Dict Text ShareView → Text → Response → Type 0
ListsShares shares at response =
    (head : Bool) × (feed : Feed) × (response ≡ feed_answer head nav_type feed)
    × All
        (λ e.
          (entry : NavEntry) × (name : Text) × (e ≡ nav entry)
          × In name (keys shares)
          × ToShare at name entry)
        feed.entries
    × All (λ name. (entry : NavEntry) × In (nav entry) feed.entries × ToShare at name entry)
        (keys shares)

root_entry-ToShare :
    (at now name : Text)
    → (entry : NavEntry) × (absolute_entry at (root_entry now name) ≡ nav entry)
      × ToShare at name entry
unfolding starts_with nat_eq ℕ_discrete
root_entry-ToShare at now name = (_, refl, refl)

pub root_feed-ListsShares :
    (shares : Dict Text ShareView) (at now : Text) (head : Bool)
    → ListsShares shares at (respond (xml at head nav_type (root_feed now shares)))
unfolding xml root_feed
root_feed-ListsShares shares at now head = (
  head,
  _,
  refl,
  All-of_In _ _ (λ e m.
      let (x, k, is_absolute) = In-of_map (absolute_entry at) e _ m in
      let (name, listed, is_root) = In-of_map (root_entry now) x _ k in
      let (entry, e_is, leads) = root_entry-ToShare at now name in
      (
        entry,
        name,
        is_absolute ∙ ap (absolute_entry at) is_root ∙ e_is,
        (In-sort_with text_le name (keys shares)).0 listed,
        leads,
      )),
  All-of_In _ (keys shares) (λ name m.
      let (entry, e_is, leads) = root_entry-ToShare at now name in
      (
        entry,
        subst (λ e. In e (map (absolute_entry at) (root_feed now shares).entries)) e_is
            (In-map (absolute_entry at) _ _
              (In-map (root_entry now) name _ ((In-sort_with text_le name (keys shares)).1 m))),
        leads,
      )),
)

module _ (at : Text) (v : ShareView) where
  topics-LeadInto :
      (now : Text) (topics : List (Text × ℕ)) (rest : List Entry)
      → All (LeadsInto v at) (map (absolute_entry at) rest)
      → All (LeadsInto v at) (map (absolute_entry at) (map (topic_entry now v) topics ++ rest))
  unfolding starts_with nat_eq ℕ_discrete
  topics-LeadInto now [] rest h = h
  topics-LeadInto now ((name, tag_id) ∷ topics) rest h =
      ((_, refl), topics-LeadInto now topics rest h)

  unsorted-LeadsInto :
      (now : Text) (ds : List PaperlessDocument)
      → All (LeadsInto v at) (map (absolute_entry at) (unsorted_entry now v ds))
  unfolding starts_with nat_eq ℕ_discrete
  unsorted-LeadsInto now [] = tt
  unsorted-LeadsInto now (d ∷ ds) = ((_, refl), tt)

  entries-LeadInto :
      (ds : List PaperlessDocument)
      → All (LeadsInto v at) (map (absolute_entry at) (map (entry_of v) ds))
  unfolding starts_with nat_eq ℕ_discrete document_entry
  entries-LeadInto [] = tt
  entries-LeadInto (d ∷ ds) = (((_, refl), (_, refl)), entries-LeadInto ds)

  module _ (catalog : Catalog) (up : Upstream) (head : Bool) where
    page_feed-StaysIn :
        (l : Listing) (ds : List PaperlessDocument) (total page : ℕ)
        → StaysIn v at
            (xml at head acq_type (page_feed catalog.now catalog.page_size v l ds total page))
    unfolding xml page_feed
    page_feed-StaysIn l ds total page = entries-LeadInto ds

    listing-StaysIn :
        (l : Listing) (ds : List PaperlessDocument) (page : ℕ)
        → StaysIn v at (listing_of catalog up at head v l ds page)
    unfolding acquisition_feed
    listing-StaysIn l ds page = page_feed-StaysIn l _ _ page

    browse-StaysIn : StaysIn v at (xml at head nav_type (share_feed catalog.now v))
    unfolding xml share_feed starts_with nat_eq ℕ_discrete
    browse-StaysIn = (
      (_, refl),
      topics-LeadInto catalog.now (sorted_topics v) _
          (unsorted-LeadsInto catalog.now (untagged_documents v)),
    )

    proxy-StaysIn :
        (h : Bool) (endpoint : Text) (extra : List (Text × Text)) (kind : Option Text)
        → StaysIn v at (proxy up h endpoint extra kind)
    unfolding proxy
    proxy-StaysIn h endpoint extra kind =
        if_cases (StaysIn v at) up.has_client _ failed (λ _. streamed (up.open_stream endpoint))
          (λ _. tt)
      where
        streamed : (s : Outcome Streamed) → StaysIn v at (streamed_on h endpoint extra kind s)
        streamed (raise e) = tt
        streamed (ok s) = tt

    download-StaysIn : (found : Option PaperlessDocument) → StaysIn v at (download up head found)
    unfolding download
    download-StaysIn none = tt
    download-StaysIn (some d) =
        if_cases (StaysIn v at) head _ _ (λ _. tt)
          (λ _.
            proxy-StaysIn false (download_endpoint d.id)
              ((codes "Content-Disposition", content_disposition (download_name d)) ∷ [])
              (some (codes "application/pdf")))

    thumb-StaysIn : (found : Option PaperlessDocument) → StaysIn v at (thumb up head found)
    unfolding thumb
    thumb-StaysIn none = tt
    thumb-StaysIn (some d) =
        proxy-StaysIn head (thumb_endpoint d.id)
          ((codes "Cache-Control", codes "private, max-age=86400") ∷ []) none

    search-StaysIn :
        (terms : Text) (page : ℕ)
        → StaysIn v at (feed_or_failed at head (search_feed catalog up v terms page))
    unfolding search_feed
    search-StaysIn terms page =
        if_cases (λ f. StaysIn v at (feed_or_failed at head f)) (terms == []) _ _
          (λ _. page_feed-StaysIn (search_listing terms) [] 0 page)
          (λ _.
            if_cases (λ f. StaysIn v at (feed_or_failed at head f)) (not up.has_client) _ _
              (λ _. tt) (λ _. found _))
      where
        found :
            (hits : Outcome (List PaperlessDocument × ℕ))
            → StaysIn v at (feed_or_failed at head (found_feed catalog v terms page hits))
        found (raise e) = tt
        found (ok (ds, total)) =
            page_feed-StaysIn (search_listing terms) (members_of v ds) total page

    tag-StaysIn :
        (page tag_id : ℕ) (name : Option Text)
        → StaysIn v at (tag_route catalog up at head v page tag_id name)
    tag-StaysIn page tag_id none = tt
    tag-StaysIn page tag_id (some name) = listing-StaysIn _ (tagged tag_id v.documents) page

    -- Whatever is asked of a share, the entries of a feed that answers lead into the share.
    pub route_share-StaysIn :
        (query : QueryValues) (parts : List Text)
        → StaysIn v at (route_share catalog up at head v query parts)
    unfolding route_share
    route_share-StaysIn query [] =
        listing-StaysIn (plain_listing (codes "recent") v.share.name []) v.documents
          (page_of query.page)
    route_share-StaysIn query (a ∷ []) =
        if_cases (StaysIn v at) (a == codes "recent") _ _
          (λ _.
            listing-StaysIn (plain_listing (codes "recent") v.share.name []) v.documents
              (page_of query.page))
          λ _.
            if_cases (StaysIn v at) (a == codes "browse") _ _ (λ _. browse-StaysIn)
              λ _.
                if_cases (StaysIn v at) (a == codes "unsorted") _ _
                  (λ _.
                    listing-StaysIn
                      (plain_listing (codes "unsorted") (codes "Unsorted") (codes "unsorted"))
                      (untagged_documents v) (page_of query.page))
                  λ _.
                    if_cases (StaysIn v at) (a == codes "search") _ _ (λ _. search-StaysIn _ _)
                      (λ _. tt)
    route_share-StaysIn query (a ∷ b ∷ []) =
        if_cases (StaysIn v at) ((a == codes "tag") && is_digits b) _ _
          (λ _. tag-StaysIn (page_of query.page) (to_int 0 b) _)
          λ _.
            if_cases (StaysIn v at) ((a == codes "thumb") && is_digits b) _ _
              (λ _. thumb-StaysIn (member v (to_int 0 b))) (λ _. tt)
    route_share-StaysIn query (a ∷ b ∷ c ∷ []) =
        if_cases (StaysIn v at) ((a == codes "download") && is_digits b) _ _
          (λ _. download-StaysIn (member v (to_int 0 b))) (λ _. tt)
    route_share-StaysIn query (a ∷ b ∷ c ∷ d ∷ rest) = tt
