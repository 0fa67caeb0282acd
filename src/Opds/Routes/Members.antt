-- ===== src/Opds/Routes/Members.antt =====
-- What the catalog serves of a share belongs to the share.
use mathlib.Core.Path.{subst}
use paperless_webdav.Base.{
  ℕ, zero, suc, ◌*◌, ◌-◌, ◌≡◌, refl, sym, ◌⊎◌, inl, inr, Bool, true, false, not, Option, none, some,
  List, [], ◌∷◌, map, ◌==◌, nat_eq, list_eq, take, drop, contains, contains_iff, In, All, All-of_In,
  In-of_select, In-of_find, In-of_map, if_cases, Text, codes,
}
use paperless_webdav.Outcome.{Outcome, ok, raise}
use paperless_webdav.Provider.Documents.{PaperlessDocument}
use paperless_webdav.Provider.Folders.{ShareView}
use paperless_webdav.Opds.Quoting.{content_disposition}
use paperless_webdav.Opds.Entries.{
  acq_type, newest_first, download_name, NavEntry, Entry, nav, document, urn_of, entry_of,
  document_entry,
}
use paperless_webdav.Opds.Feeds.{Listing, page_feed, acquisition_feed}
use paperless_webdav.Opds.Entries.Newest.{newest_first-Sorted}
use paperless_webdav.Opds.Routes.{
  Catalog, Streamed, Upstream, plain, ask_credentials, feed_answer, head_answer, proxied, Routed,
  answered, not_found, failed, absolute_entry, xml, proxy, streamed_on, member, download_endpoint,
  thumb_endpoint, download, thumb, members_of, search_listing, found_feed, search_feed,
  feed_or_failed, listing_of,
}

module _ (v : ShareView) where
  -- A document of the share has the id.
  abbrev pub HasId : ℕ → Type 0
  HasId id = (d : PaperlessDocument) × In d v.documents × (d.id ≡ id)

  -- An entry for a document is an entry for one of the share.
  abbrev pub NamesMember : Entry → Type 0
  NamesMember (nav entry) = Unit
  NamesMember (document entry) = (id : ℕ) × HasId id × (entry.id ≡ urn_of id)

  -- What is served belongs to documents of the share.
  abbrev pub ServesMembers : Routed → Type 0
  ServesMembers not_found = Unit
  ServesMembers failed = Unit
  ServesMembers (answered (plain status)) = Unit
  ServesMembers (answered ask_credentials) = Unit
  ServesMembers (answered (feed_answer head kind feed)) = All NamesMember feed.entries
  ServesMembers (answered (head_answer disposition)) =
      (d : PaperlessDocument) × In d v.documents
      × (disposition ≡ content_disposition (download_name d))
  ServesMembers (answered (proxied head endpoint headers body)) =
      (id : ℕ) × HasId id × ((endpoint ≡ download_endpoint id) ⊎ (endpoint ≡ thumb_endpoint id))

  abbrev AllMembers : List PaperlessDocument → Type 0
  AllMembers = All (λ d. HasId d.id)

  All-take : (n : ℕ) (ds : List PaperlessDocument) → AllMembers ds → AllMembers (take n ds)
  All-take zero ds h = tt
  All-take (suc n) [] h = tt
  All-take (suc n) (d ∷ ds) h = (h.0, All-take n ds h.1)

  All-drop : (n : ℕ) (ds : List PaperlessDocument) → AllMembers ds → AllMembers (drop n ds)
  All-drop zero ds h = h
  All-drop (suc n) [] h = tt
  All-drop (suc n) (d ∷ ds) h = All-drop n ds h.1

  -- The documents of a list that are documents of the share.
  listed-AllMembers :
      (ds : List PaperlessDocument)
      → ((d : PaperlessDocument) → In d ds → In d v.documents)
      → AllMembers (newest_first ds)
  listed-AllMembers ds within =
      All-of_In _ (newest_first ds)
        (λ d m. (d, within d (((newest_first-Sorted ds).1 d).0 m), refl))

  entries-NamesMember :
      (at : Text) (ds : List PaperlessDocument)
      → AllMembers ds
      → All NamesMember (map (absolute_entry at) (map (entry_of v) ds))
  unfolding document_entry
  entries-NamesMember at [] h = tt
  entries-NamesMember at (d ∷ ds) h = ((d.id, h.0, refl), entries-NamesMember at ds h.1)

  pub navs-NamesMember :
      (at : Text) (entries : List Entry)
      → All (λ e. (n : NavEntry) × (e ≡ nav n)) entries
      → All NamesMember (map (absolute_entry at) entries)
  navs-NamesMember at [] h = tt
  navs-NamesMember at (e ∷ es) ((n, is_nav), rest) =
      (subst (λ x. NamesMember (absolute_entry at x)) (sym is_nav) tt, navs-NamesMember at es rest)

module _ (catalog : Catalog) (up : Upstream) (at : Text) (head : Bool) (v : ShareView) where
  page_feed-ServesMembers :
      (l : Listing) (ds : List PaperlessDocument) (total page : ℕ)
      → AllMembers v ds
      → ServesMembers v
          (xml at head acq_type (page_feed catalog.now catalog.page_size v l ds total page))
  unfolding xml page_feed
  page_feed-ServesMembers l ds total page h = entries-NamesMember v at ds h

  pub listing-ServesMembers :
      (l : Listing) (ds : List PaperlessDocument) (page : ℕ)
      → ((d : PaperlessDocument) → In d ds → In d v.documents)
      → ServesMembers v (listing_of catalog up at head v l ds page)
  unfolding acquisition_feed
  listing-ServesMembers l ds page within = page_feed-ServesMembers l _ _ page (
      All-take v catalog.page_size _ (
        All-drop v ((page - 1) * catalog.page_size) (newest_first ds)
          (listed-AllMembers v ds within)))

  pub member-HasId : (id : ℕ) (d : PaperlessDocument) → member v id ≡ some d → In d v.documents
  unfolding member
  member-HasId id d h = (In-of_find (λ doc. doc.id == id) d v.documents h).0

  streamed_on-ServesMembers :
      (h : Bool) (endpoint : Text) (extra : List (Text × Text)) (kind : Option Text)
      (s : Outcome Streamed) (id : ℕ)
      → HasId v id
      → (endpoint ≡ download_endpoint id) ⊎ (endpoint ≡ thumb_endpoint id)
      → ServesMembers v (streamed_on h endpoint extra kind s)
  streamed_on-ServesMembers h endpoint extra kind (raise e) id has way = tt
  streamed_on-ServesMembers h endpoint extra kind (ok s) id has way = (id, has, way)

  proxy-ServesMembers :
      (h : Bool) (endpoint : Text) (extra : List (Text × Text)) (kind : Option Text) (id : ℕ)
      → HasId v id
      → (endpoint ≡ download_endpoint id) ⊎ (endpoint ≡ thumb_endpoint id)
      → ServesMembers v (proxy up h endpoint extra kind)
  unfolding proxy
  proxy-ServesMembers h endpoint extra kind id has way =
      if_cases (ServesMembers v) up.has_client
        (streamed_on h endpoint extra kind (up.open_stream endpoint)) failed
        (λ _. streamed_on-ServesMembers h endpoint extra kind (up.open_stream endpoint) id has way)
        (λ _. tt)

  pub download-ServesMembers :
      (found : Option PaperlessDocument)
      → ((d : PaperlessDocument) → found ≡ some d → In d v.documents)
      → ServesMembers v (download up head found)
  unfolding download
  download-ServesMembers none within = tt
  download-ServesMembers (some d) within =
      if_cases (ServesMembers v) head _ _ (λ _. (d, within d refl, refl))
        (λ _.
          proxy-ServesMembers false (download_endpoint d.id)
            ((codes "Content-Disposition", content_disposition (download_name d)) ∷ [])
            (some (codes "application/pdf")) d.id (d, within d refl, refl) (inl refl))

  pub thumb-ServesMembers :
      (found : Option PaperlessDocument)
      → ((d : PaperlessDocument) → found ≡ some d → In d v.documents)
      → ServesMembers v (thumb up head found)
  unfolding thumb
  thumb-ServesMembers none within = tt
  thumb-ServesMembers (some d) within =
      proxy-ServesMembers head (thumb_endpoint d.id)
        ((codes "Cache-Control", codes "private, max-age=86400") ∷ []) none d.id
        (d, within d refl, refl) (inr refl)

  members_of-AllMembers : (ds : List PaperlessDocument) → AllMembers v (members_of v ds)
  members_of-AllMembers ds = All-of_In _ (members_of v ds) (λ d m. has d (In-of_select _ d ds m).1)
    where
      has :
          (d : PaperlessDocument)
          → contains d.id (map (λ (e : PaperlessDocument). e.id) v.documents) ≡ true
          → HasId v d.id
      has d h =
          let (e, m, same) =
            In-of_map (λ (x : PaperlessDocument). x.id) d.id v.documents
              ((contains_iff d.id _).0 h) in
          (e, m, sym same)

  found-ServesMembers :
      (terms : Text) (page : ℕ) (found : Outcome (List PaperlessDocument × ℕ))
      → ServesMembers v (feed_or_failed at head (found_feed catalog v terms page found))
  found-ServesMembers terms page (raise e) = tt
  found-ServesMembers terms page (ok (ds, total)) =
      page_feed-ServesMembers (search_listing terms) (members_of v ds) total page
        (members_of-AllMembers ds)

  pub search-ServesMembers :
      (terms : Text) (page : ℕ)
      → ServesMembers v (feed_or_failed at head (search_feed catalog up v terms page))
  unfolding search_feed
  search-ServesMembers terms page =
      if_cases (λ f. ServesMembers v (feed_or_failed at head f)) (terms == []) _ _
        (λ _. page_feed-ServesMembers (search_listing terms) [] 0 page tt)
        (λ _.
          if_cases (λ f. ServesMembers v (feed_or_failed at head f)) (not up.has_client) _ _
            (λ _. tt) (λ _. found-ServesMembers terms page _))
