-- ===== src/Opds/Entries.antt =====
-- The entries of the feeds of src/paperless_webdav/opds.py, as records in place of XML elements, and the
-- order of the documents.
pub mod Newest
use paperless_webdav.Base.{
  ℕ, zero, suc, ◌+◌, ◌*◌, ◌-◌, ◌/◌, ◌≡◌, max, Bool, true, false, ◌||◌, ◌&&◌, not, Option, none,
  some, List, [], ◌∷◌, ◌++◌, map, if◌then◌else◌, Eq, ◌==◌, nat_eq, list_eq, pair_eq, leb, ltb,
  length, take, drop, select, sort_with, contains, Dict, keys, lookup, Text, codes, decimal,
}
use paperless_webdav.Provider.Documents.{PaperlessDocument, Share}
use paperless_webdav.Provider.Filenames.{sanitize_filename}
use paperless_webdav.Provider.Folders.{ShareView, topic_tag_ids, untagged_documents, text_le}
use paperless_webdav.Opds.Quoting.{quote}

-- `PAGE_SIZE`
abbrev pub default_page_size : ℕ
default_page_size = 50

abbrev pub nav_type : Text
nav_type = codes "application/atom+xml;profile=opds-catalog;kind=navigation"

abbrev pub acq_type : Text
acq_type = codes "application/atom+xml;profile=opds-catalog;kind=acquisition"

-- `a or b`
abbrev pub or_text : Text → Text → Text
or_text [] other = other
or_text (c ∷ t) other = c ∷ t

-- The key of `_newest_first`: the date added, or else created, and the id.
abbrev pub date_of : PaperlessDocument → Text
date_of doc = or_text doc.added doc.created

-- `(date, id) <= (date, id)`
unfoldable pub key_le : PaperlessDocument → PaperlessDocument → Bool
key_le d e = if date_of d == date_of e then leb d.id e.id else text_le (date_of d) (date_of e)

-- `_newest_first`: `reverse=True` sorts by the opposite order, and stays stable
unfoldable pub newest_first : List PaperlessDocument → List PaperlessDocument
unfolding sort_with key_le
newest_first documents = sort_with (λ d e. key_le e d) documents

-- `_download_name`
unfoldable pub download_name : PaperlessDocument → Text
unfolding sanitize_filename decimal
download_name doc =
    or_text (sanitize_filename doc.title) (codes "document-" ++ decimal doc.id) ++ codes ".pdf"

-- A `link`; `facet` is the count of a facet, and whether it is active.
pub record Link : Type 0 where
  pub rel : Text
  pub href : Text
  pub kind : Text
  pub title : Option Text
  pub facet : Option (ℕ × Bool)

abbrev pub plain_link : Text → Text → Text → Link
plain_link rel href kind = record {
  rel = rel;
  href = href;
  kind = kind;
  title = none;
  facet = none;
}

pub record NavEntry : Type 0 where
  pub title : Text
  pub id : Text
  pub updated : Text
  pub summary : Option Text
  pub link : Link

pub record DocumentEntry : Type 0 where
  pub title : Text
  pub id : Text
  pub updated : Text
  pub published : Option Text
  pub issued : Text
  pub categories : List Text
  pub summary : Text
  pub acquisition : Link
  pub thumbnail : Link

pub data Entry : Type 0 where
  nav : NavEntry → Entry
  document : DocumentEntry → Entry

-- The prefix of the feeds' ids.
abbrev pub urn : Text
urn = codes "urn:paperless-webdav:opds"

-- `f"{OPDS_PREFIX}/{quote(share.name)}"`
abbrev pub base_of : ShareView → Text
base_of v = codes "/opds/" ++ quote v.share.name

-- `[d for d in documents if tag_id in d.tags]`
unfoldable pub tagged : ℕ → List PaperlessDocument → List PaperlessDocument
unfolding select contains
tagged tag_id documents = select (λ d. contains tag_id d.tags) documents

-- `id_to_tag`: a later name of a tag replaces an earlier one
unfoldable pub name_of_tag : Dict Text ℕ → ℕ → Option Text
name_of_tag [] tag_id = none
name_of_tag ((name, id) ∷ topics) tag_id =
    let rest = name_of_tag topics tag_id in
    elim rest [ some other ↦ some other | none ↦ if id == tag_id then some name else none ]

unfoldable pub names_of_tags : Dict Text ℕ → List ℕ → List Text
unfolding name_of_tag
names_of_tags topics [] = []
names_of_tags topics (tag_id ∷ tags) =
    let rest = names_of_tags topics tags in
    elim (name_of_tag topics tag_id) [ none ↦ rest | some name ↦ name ∷ rest ]

-- `", ".join(tags)`
abbrev pub join_names : List Text → Text
join_names [] = []
join_names (name ∷ []) = name
join_names (name ∷ other ∷ names) = name ++ (codes ", " ++ join_names (other ∷ names))

abbrev pub tags_summary : List Text → Text
tags_summary [] = []
tags_summary (name ∷ names) = (32 ∷ 183 ∷ 32 ∷ []) ++ join_names (name ∷ names)

abbrev pub published_if : Text → Option Text
published_if [] = none
published_if (c ∷ t) = some (c ∷ t)

abbrev pub urn_of : ℕ → Text
urn_of id = codes "urn:paperless:document:" ++ decimal id

-- `_document_entry`
unfoldable pub document_entry : Text → Dict Text ℕ → PaperlessDocument → DocumentEntry
unfolding names_of_tags sort_with download_name quote decimal
document_entry base topics doc =
    let tags = sort_with text_le (names_of_tags topics doc.tags) in
    record {
      title = doc.title;
      id = urn_of doc.id;
      updated = doc.modified;
      published = published_if doc.added;
      issued = take 10 doc.created;
      categories = tags;
      summary = codes "Added " ++ (take 10 (date_of doc) ++ tags_summary tags);
      acquisition =
          plain_link (codes "http://opds-spec.org/acquisition")
            (base
              ++ (codes "/download/"
                  ++ (decimal doc.id ++ (codes "/" ++ quote (download_name doc)))))
            (codes "application/pdf");
      thumbnail =
          plain_link (codes "http://opds-spec.org/image/thumbnail")
            (base ++ (codes "/thumb/" ++ decimal doc.id)) (codes "image/webp");
    }

abbrev pub entry_of : ShareView → PaperlessDocument → Entry
entry_of v doc = document (document_entry (base_of v) (topic_tag_ids v) doc)
