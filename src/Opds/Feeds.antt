-- ===== src/Opds/Feeds.antt =====
-- The feeds of src/paperless_webdav/opds.py, as records in place of XML elements. `ShareView` is the
-- `ShareResource` of the request; `now` is `_now()`. The links of a feed and its entries stand in the
-- order in which the code appends them.
pub mod Links
pub mod Paging
use paperless_webdav.Base.{
  ℕ, zero, suc, ◌+◌, ◌*◌, ◌-◌, ◌/◌, ◌≡◌, max, Bool, true, false, ◌||◌, ◌&&◌, not, Option, none,
  some, List, [], ◌∷◌, ◌++◌, map, if◌then◌else◌, Eq, ◌==◌, nat_eq, list_eq, pair_eq, leb, ltb,
  length, take, drop, select, sort_with, contains, Dict, keys, lookup, Text, codes, decimal,
}
use paperless_webdav.Provider.Documents.{PaperlessDocument, Share}
use paperless_webdav.Provider.Filenames.{sanitize_filename}
use paperless_webdav.Provider.Folders.{ShareView, topic_tag_ids, untagged_documents, text_le}
use paperless_webdav.Opds.Quoting.{quote}
use paperless_webdav.Opds.Entries.{
  default_page_size, nav_type, acq_type, or_text, date_of, key_le, newest_first, download_name,
  Link, plain_link, NavEntry, DocumentEntry, Entry, urn, base_of, tagged, name_of_tag,
  names_of_tags, join_names, tags_summary, published_if, urn_of, document_entry, entry_of, nav,
  document,
}

pub record Feed : Type 0 where
  pub id : Text
  pub title : Text
  pub updated : Text
  pub links : List Link
  pub entries : List Entry

-- `_new_feed`
abbrev pub new_feed : Text → Text → Text → Text → Text → Feed
new_feed now feed_id title self_href kind = record {
  id = feed_id;
  title = title;
  updated = now;
  links =
      plain_link (codes "self") self_href kind
      ∷ plain_link (codes "start") (codes "/opds/") nav_type
      ∷ [];
  entries = [];
}

-- `_nav_entry`
abbrev pub nav_entry : Text → Text → Text → Text → Text → Text → Option Text → Entry
nav_entry now entry_id title href kind rel summary = nav (record {
  title = title;
  id = entry_id;
  updated = now;
  summary = summary;
  link = plain_link rel href kind;
})

abbrev pub root_entry : Text → Text → Entry
root_entry now name =
    nav_entry now (urn ++ (codes ":" ++ name)) name (codes "/opds/" ++ (quote name ++ codes "/"))
      acq_type (codes "subsection") none

-- `_root_feed`
unfoldable pub root_feed : Text → Dict Text ShareView → Feed
unfolding sort_with keys quote
root_feed now shares = record (new_feed now urn (codes "Paperless") (codes "/opds/") nav_type) {
  entries = map (root_entry now) (sort_with text_le (keys shares));
}

-- `_search_link`
abbrev pub search_link : Text → Link
search_link base =
    record (plain_link (codes "search") (base ++ codes "/search?q={searchTerms}")
      (codes "application/atom+xml")) { title = some (codes "Search full text") }

-- `sorted(resource._topic_tag_ids().items())`: a name has one tag, so the names decide
unfoldable pub sorted_topics : ShareView → List (Text × ℕ)
unfolding sort_with topic_tag_ids
sorted_topics v = sort_with (λ p q. text_le p.0 q.0) (topic_tag_ids v)

abbrev pub tag_href : Text → ℕ → Text
tag_href base tag_id = base ++ (codes "/tag/" ++ decimal tag_id)

abbrev pub topic_entry : Text → ShareView → Text × ℕ → Entry
topic_entry now v (name, tag_id) =
    nav_entry now (urn ++ (codes ":" ++ (v.share.name ++ (codes ":tag:" ++ decimal tag_id)))) name
      (tag_href (base_of v) tag_id) acq_type (codes "subsection")
      (some (decimal (length (tagged tag_id v.documents)) ++ codes " documents"))

abbrev pub unsorted_entry : Text → ShareView → List PaperlessDocument → List Entry
unsorted_entry now v [] = []
unsorted_entry now v (doc ∷ documents) =
    nav_entry now (urn ++ (codes ":" ++ (v.share.name ++ codes ":unsorted"))) (codes "Unsorted")
      (base_of v ++ codes "/unsorted") acq_type (codes "subsection")
      (some (decimal (length (doc ∷ documents)) ++ codes " documents with no topic tag"))
    ∷ []

-- `_share_feed`
unfoldable pub share_feed : Text → ShareView → Feed
unfolding sorted_topics tagged untagged_documents quote decimal
share_feed now v =
    let feed =
      new_feed now (urn ++ (codes ":" ++ (v.share.name ++ codes ":browse"))) v.share.name
        (base_of v ++ codes "/browse") nav_type in
    record feed {
      links =
          feed.links
          ++ (plain_link (codes "up") (codes "/opds/") nav_type ∷ search_link (base_of v) ∷ []);
      entries =
          nav_entry now (urn ++ (codes ":" ++ (v.share.name ++ codes ":recent")))
            (codes "Recently added") (base_of v ++ codes "/") acq_type
            (codes "http://opds-spec.org/sort/new")
            (some
              (codes "All " ++ (decimal (length v.documents) ++ codes " documents, newest first")))
          ∷ (map (topic_entry now v) (sorted_topics v)
              ++ unsorted_entry now v (untagged_documents v));
    }

-- `documents[(page - 1) * size : page * size]`
abbrev pub page_slice : ℕ → ℕ → List PaperlessDocument → List PaperlessDocument
page_slice size page documents = take size (drop ((page - 1) * size) documents)

-- `max(1, math.ceil(total / self._page_size))`
abbrev pub page_count : ℕ → ℕ → ℕ
page_count size total = max 1 ((total + size - 1) / size)

-- `f"{base}/{path}" + ...`: the address of a page
unfoldable pub page_href : Text → Text → Text → ℕ → Text
unfolding decimal
page_href base path extra_query page =
    let query =
      if ltb 1 page
      then (if extra_query == [] then [] else extra_query ++ codes "&")
        ++ (codes "page=" ++ decimal page)
      else extra_query in
    base ++ (codes "/" ++ (path ++ (if query == [] then [] else codes "?" ++ query)))

-- The links to other pages: the relation, and the page.
unfoldable pub paging_links : ℕ → ℕ → List (Text × ℕ)
paging_links page pages =
    (if ltb 1 page then (codes "first", 1) ∷ (codes "previous", page - 1) ∷ [] else [])
    ++ (if ltb page pages then (codes "next", page + 1) ∷ (codes "last", pages) ∷ [] else [])

abbrev pub page_link : (ℕ → Text) → Text × ℕ → Link
page_link href (rel, page) = plain_link rel (href page) acq_type

-- One of the facets: its title, its address and its count.
abbrev pub facet_link : Text → Text × Text × ℕ → Link
facet_link active (title, href, count) = record {
  rel = codes "http://opds-spec.org/facet";
  href = href;
  kind = acq_type;
  title = some title;
  facet = some (count, href == active);
}

abbrev pub topic_facet : ShareView → Text × ℕ → Text × Text × ℕ
topic_facet v (name, tag_id) =
    (name, tag_href (base_of v) tag_id, length (tagged tag_id v.documents))

abbrev pub unsorted_facet : ShareView → List PaperlessDocument → List (Text × Text × ℕ)
unsorted_facet v [] = []
unsorted_facet v (doc ∷ documents) =
    (codes "Unsorted", base_of v ++ codes "/unsorted", length (doc ∷ documents)) ∷ []

-- `_facets`
unfoldable pub facets : ShareView → List (Text × Text × ℕ)
unfolding sorted_topics tagged untagged_documents quote decimal
facets v =
    (codes "All, newest first", base_of v ++ codes "/", length v.documents)
    ∷ (map (topic_facet v) (sorted_topics v) ++ unsorted_facet v (untagged_documents v))

-- A feed's address and its title: `feed_key`, `title`, `path` and `extra_query`.
pub record Listing : Type 0 where
  pub feed_key : Text
  pub title : Text
  pub path : Text
  pub extra_query : Text

-- The part of `_acquisition_feed` below the slice: one page, of `total` documents in all
unfoldable pub page_feed : Text → ℕ → ShareView → Listing → List PaperlessDocument → ℕ → ℕ → Feed
unfolding page_href paging_links facets document_entry topic_tag_ids quote
page_feed now size v l documents total page =
    let href = page_href (base_of v) l.path l.extra_query in
    let feed =
      new_feed now (urn ++ (codes ":" ++ (v.share.name ++ (codes ":" ++ l.feed_key)))) l.title
        (href page) acq_type in
    record feed {
      links =
          feed.links
          ++ ((plain_link (codes "up") (base_of v ++ codes "/browse") nav_type
                ∷ search_link (base_of v)
                ∷ [])
              ++ (map (page_link href) (paging_links page (page_count size total))
                  ++ map (facet_link (base_of v ++ (codes "/" ++ l.path))) (facets v)));
      entries = map (entry_of v) documents;
    }

-- `_acquisition_feed` without a `total`, of the whole list
unfoldable pub acquisition_feed : Text → ℕ → ShareView → Listing → List PaperlessDocument → ℕ → Feed
unfolding page_feed
acquisition_feed now size v l documents page =
    page_feed now size v l (page_slice size page documents) (length documents) page
