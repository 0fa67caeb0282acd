-- ===== src/Opds/Routes.antt =====
-- The routes of src/paperless_webdav/opds.py: `_route`, the handlers, and `OpdsApp.__call__`. `Catalog`
-- is the provider's shares as the request sees them, `Upstream` the Paperless client of the request.
-- A response is what was sent; the XML text of a feed, its length and the log lines are left out.
pub mod Members
pub mod Within
pub mod Calls
use paperless_webdav.Base.{
  is_digits, to_int, ℕ, ◌≡◌, Bool, true, false, ◌||◌, ◌&&◌, not, Option, none, some, List, [], ◌∷◌,
  ◌++◌, map, if◌then◌else◌, Eq, ◌==◌, nat_eq, list_eq, leb, drop, select, find, contains, Dict,
  lookup, Text, codes, decimal, starts_with, strip,
}
use paperless_webdav.Outcome.{Outcome, ok, raise}
use paperless_webdav.Client.Stream.{DocumentStream}
use paperless_webdav.Provider.Documents.{PaperlessDocument, Share}
use paperless_webdav.Provider.Paths.{path_parts}
use paperless_webdav.Provider.Folders.{
  ShareView, topic_tag_ids, untagged_documents, resolve_tag_ids_from_map,
}
use paperless_webdav.Opds.Quoting.{quote, content_disposition}
use paperless_webdav.Opds.Requests.{
  parse_credentials, first_or, page_of, OriginEnviron, origin, get_or,
}
use paperless_webdav.Opds.Entries.{
  nav_type, acq_type, newest_first, download_name, Link, NavEntry, DocumentEntry, Entry, nav,
  document, tagged, name_of_tag,
}
use paperless_webdav.Opds.Feeds.{Feed, root_feed, share_feed, Listing, page_feed, acquisition_feed}

pub record Catalog : Type 0 where
  pub shares : Dict Text ShareView
  pub page_size : ℕ
  pub now : Text

-- An answer of Paperless that is streamed on: two of its headers, and its body.
pub record Streamed : Type 0 where
  pub content_type : Option Text
  pub content_length : Option Text
  pub body : DocumentStream

pub record Upstream : Type 0 where
  pub has_client : Bool
  -- `search_documents`: the documents of the page, and the number of hits
  pub search : Text → List ℕ → ℕ → ℕ → Outcome (List PaperlessDocument × ℕ)
  pub open_stream : Text → Outcome Streamed

-- The values of the query for two keys.
pub record QueryValues : Type 0 where
  pub page : Option (List Text)
  pub q : Option (List Text)

pub data Response : Type 0 where
  -- a status with a line of text
  plain : ℕ → Response
  -- 401, which asks for Basic credentials
  ask_credentials : Response
  -- a feed of a type; without its body for HEAD
  feed_answer : Bool → Text → Feed → Response
  -- the headers of a download alone: its content disposition
  head_answer : Text → Response
  -- what Paperless sends for an endpoint, under these headers; without its body for HEAD
  proxied : Bool → Text → List (Text × Text) → DocumentStream → Response

-- What a handler comes to: a response, `_NotFound`, or another exception.
pub data Routed : Type 0 where
  answered : Response → Routed
  not_found failed : Routed

-- `link.set("href", origin + href)`
abbrev pub absolute_link : Text → Link → Link
absolute_link at link =
    if starts_with link.href (codes "/") then record link { href = at ++ link.href } else link

abbrev pub absolute_entry : Text → Entry → Entry
absolute_entry at (nav entry) = nav (record entry { link = absolute_link at entry.link })
absolute_entry at (document entry) = document (record entry {
  acquisition = absolute_link at entry.acquisition;
  thumbnail = absolute_link at entry.thumbnail;
})

-- `_xml`
unfoldable pub xml : Text → Bool → Text → Feed → Routed
unfolding starts_with
xml at head kind feed = answered (
    feed_answer head kind (record feed {
      links = map (absolute_link at) feed.links;
      entries = map (absolute_entry at) feed.entries;
    }))

-- The headers of a proxied answer, those that are given first.
abbrev pub length_header : Option Text → List (Text × Text)
length_header none = []
length_header (some []) = []
length_header (some (c ∷ t)) = (codes "Content-Length", c ∷ t) ∷ []

abbrev pub type_or : Option Text → Option Text → Text
type_or (some (c ∷ t)) upstream = c ∷ t
type_or (some []) upstream = get_or upstream (codes "application/octet-stream")
type_or none upstream = get_or upstream (codes "application/octet-stream")

abbrev pub streamed_on : Bool → Text → List (Text × Text) → Option Text → Outcome Streamed → Routed
streamed_on head endpoint extra content_type (raise e) = failed
streamed_on head endpoint extra content_type (ok s) = answered (
    proxied head endpoint
      ((codes "Content-Type", type_or content_type s.content_type)
        ∷ (extra ++ length_header s.content_length))
      s.body)

-- `_proxy`
unfoldable pub proxy : Upstream → Bool → Text → List (Text × Text) → Option Text → Routed
proxy up head endpoint extra content_type =
    if up.has_client
    then streamed_on head endpoint extra content_type (up.open_stream endpoint)
    else failed

-- `_member`
unfoldable pub member : ShareView → ℕ → Option PaperlessDocument
unfolding find
member v id = find (λ doc. doc.id == id) v.documents

abbrev pub download_endpoint : ℕ → Text
download_endpoint id = codes "/api/documents/" ++ (decimal id ++ codes "/download/")

abbrev pub thumb_endpoint : ℕ → Text
thumb_endpoint id = codes "/api/documents/" ++ (decimal id ++ codes "/thumb/")

-- `_download`
unfoldable pub download : Upstream → Bool → Option PaperlessDocument → Routed
unfolding proxy content_disposition download_name decimal
download up head none = not_found
download up head (some doc) =
    if head
    then answered (head_answer (content_disposition (download_name doc)))
    else proxy up false (download_endpoint doc.id)
        ((codes "Content-Disposition", content_disposition (download_name doc)) ∷ [])
        (some (codes "application/pdf"))

unfoldable pub thumb : Upstream → Bool → Option PaperlessDocument → Routed
unfolding proxy decimal
thumb up head none = not_found
thumb up head (some doc) =
    proxy up head (thumb_endpoint doc.id)
      ((codes "Cache-Control", codes "private, max-age=86400") ∷ []) none

-- `[d for d in documents if d.id in members]`
abbrev pub members_of : ShareView → List PaperlessDocument → List PaperlessDocument
members_of v documents =
    select (λ doc. contains doc.id (map (λ (d : PaperlessDocument). d.id) v.documents)) documents

abbrev pub tag_map_of : Option (Dict Text ℕ) → Dict Text ℕ
tag_map_of none = []
tag_map_of (some tag_map) = tag_map

abbrev pub search_listing : Text → Listing
search_listing terms = record {
  feed_key = codes "search";
  title = if terms == [] then codes "Search" else codes "Search: " ++ terms;
  path = codes "search";
  extra_query = codes "q=" ++ quote terms;
}

abbrev pub found_feed :
    Catalog → ShareView → Text → ℕ → Outcome (List PaperlessDocument × ℕ) → Option Feed
found_feed catalog v terms page (raise e) = none
found_feed catalog v terms page (ok (documents, total)) = some (
    page_feed catalog.now catalog.page_size v (search_listing terms) (members_of v documents) total
      page)

-- `_search_feed`; none where it raises
unfoldable pub search_feed : Catalog → Upstream → ShareView → Text → ℕ → Option Feed
unfolding page_feed select contains resolve_tag_ids_from_map quote
search_feed catalog up v terms page =
    if terms == []
    then some (page_feed catalog.now catalog.page_size v (search_listing terms) [] 0 page)
    else if not up.has_client
    then none
    else found_feed catalog v terms page (
        up.search terms (resolve_tag_ids_from_map (tag_map_of v.tag_map) v.share.include_tags) page
          catalog.page_size)

abbrev pub feed_or_failed : Text → Bool → Option Feed → Routed
feed_or_failed at head none = failed
feed_or_failed at head (some feed) = xml at head acq_type feed

abbrev pub plain_listing : Text → Text → Text → Listing
plain_listing feed_key title path = record {
  feed_key = feed_key;
  title = title;
  path = path;
  extra_query = [];
}

module _ (catalog : Catalog) (up : Upstream) (at : Text) (head : Bool) where
  abbrev pub listing_of : ShareView → Listing → List PaperlessDocument → ℕ → Routed
  listing_of v l documents page =
      xml at head acq_type
        (acquisition_feed catalog.now catalog.page_size v l (newest_first documents) page)

  -- The feed of a tag, by its name.
  abbrev pub tag_route : ShareView → ℕ → ℕ → Option Text → Routed
  tag_route v page tag_id none = not_found
  tag_route v page tag_id (some name) =
      listing_of v
        (plain_listing (codes "tag:" ++ decimal tag_id) name (codes "tag/" ++ decimal tag_id))
        (tagged tag_id v.documents) page

  -- `_route` past the share, by the parts that are left
  unfoldable pub route_share : ShareView → QueryValues → List Text → Routed
  unfolding xml acquisition_feed newest_first share_feed untagged_documents tagged name_of_tag
      topic_tag_ids search_feed download thumb member is_digits to_int page_of strip
  route_share v query [] =
      listing_of v (plain_listing (codes "recent") v.share.name []) v.documents (page_of query.page)
  route_share v query (a ∷ []) =
      if a == codes "recent"
      then listing_of v (plain_listing (codes "recent") v.share.name []) v.documents
          (page_of query.page)
      else if a == codes "browse"
      then xml at head nav_type (share_feed catalog.now v)
      else if a == codes "unsorted"
      then listing_of v (plain_listing (codes "unsorted") (codes "Unsorted") (codes "unsorted"))
          (untagged_documents v) (page_of query.page)
      else if a == codes "search"
      then feed_or_failed at head
          (search_feed catalog up v (strip (first_or [] query.q)) (page_of query.page))
      else not_found
  route_share v query (a ∷ b ∷ []) =
      if (a == codes "tag") && is_digits b
      then tag_route v (page_of query.page) (to_int 0 b)
          (name_of_tag (topic_tag_ids v) (to_int 0 b))
      else if (a == codes "thumb") && is_digits b
      then thumb up head (member v (to_int 0 b))
      else not_found
  route_share v query (a ∷ b ∷ c ∷ []) =
      if (a == codes "download") && is_digits b
      then download up head (member v (to_int 0 b))
      else not_found
  route_share v query (a ∷ b ∷ c ∷ d ∷ rest) = not_found

  -- `_route`
  unfoldable pub route : QueryValues → List Text → Routed
  unfolding route_share xml root_feed lookup
  route query [] = xml at head nav_type (root_feed catalog.now catalog.shares)
  route query (name ∷ rest) = elim (lookup name catalog.shares) [
    | none ↦ not_found
    | some v ↦ route_share v query rest
  ]

-- `[p for p in path[len(OPDS_PREFIX):].split("/") if p]`
abbrev pub catalog_parts : Text → List Text
catalog_parts path = path_parts (drop 5 path)

abbrev pub http_unserved : ℕ
http_unserved = 502

abbrev pub respond : Routed → Response
respond (answered response) = response
respond not_found = plain 404
respond failed = plain http_unserved

pub record Request : Type 0 where
  pub method : Text
  pub authorization : Text
  pub path : Text
  pub query : QueryValues
  pub origin_environ : OriginEnviron

abbrev pub accepted : (Text → Text → Bool) → Option (Text × Text) → Bool
accepted accepts none = false
accepted accepts (some (username, password)) = accepts username password

-- `OpdsApp.__call__`; `accepts` is `basic_auth_user` of the authenticator
unfoldable pub opds_call :
    Catalog → Upstream → (Text → Option Text) → (Text → Text → Bool) → Request → Response
unfolding route parse_credentials origin path_parts
opds_call catalog up b64decode accepts request =
    if not (request.method == codes "GET") && not (request.method == codes "HEAD")
    then plain 405
    else if not (accepted accepts (parse_credentials b64decode request.authorization))
    then ask_credentials
    else respond (
        route catalog up (origin request.origin_environ) (request.method == codes "HEAD")
          request.query (catalog_parts request.path))
