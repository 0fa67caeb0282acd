-- ===== src/Tests/Opds.antt =====
-- The catalog at a concrete share.
use paperless_webdav.Base.{
  ℕ, inl, ◌≡◌, refl, true, false, Option, none, some, List, [], ◌∷◌, ◌++◌, nat_eq, ℕ_discrete,
  list_eq, map, strip, lstrip, contains, In, All, codes, Text, arith,
}
use paperless_webdav.Outcome.{ok, raise, http_error}
use paperless_webdav.Provider.Documents.{PaperlessDocument}
use paperless_webdav.Provider.Folders.{ShareView}
use paperless_webdav.Opds.Quoting.{
  content_disposition, quote, IsHeaderChar, read_name, content_disposition-IsHeaderChar,
}
use paperless_webdav.Opds.Requests.{to_lower}
use paperless_webdav.Opds.Entries.{key_le, newest_first}
use paperless_webdav.Opds.Feeds.{Listing}
use paperless_webdav.Opds.Routes.{Catalog, Upstream, plain_listing, Request, route_share}
use paperless_webdav.Opds.Routes.Members.{ServesMembers}
use paperless_webdav.Opds.Routes.Calls.{route_share-ServesMembers}

abbrev paper : ℕ → Text → PaperlessDocument
paper id added = record {
  id = id;
  title = codes "Paper";
  original_file_name = codes "paper.pdf";
  created = codes "2020-01-01";
  modified = codes "2024-01-01";
  tags = [];
  added = added;
}

abbrev papers : List PaperlessDocument
papers =
    paper 3 (codes "2024-02-01") ∷ paper 5 (codes "2024-03-01") ∷ paper 4 (codes "2024-03-01") ∷ []

abbrev tax_view : ShareView
tax_view = record {
  share = record {
    name = codes "tax";
    include_tags = [];
    exclude_tags = [];
    done_folder_enabled = false;
    done_folder_name = codes "done";
    done_tag = none;
  };
  tag_folders = true;
  lower = λ t. t;
  tag_map = some [];
  documents = papers;
  done_documents = [];
  static_index = [];
}

newest_runs : map (λ (d : PaperlessDocument). d.id) (newest_first papers) ≡ 5 ∷ 4 ∷ 3 ∷ []
unfolding newest_first key_le nat_eq list_eq ℕ_discrete
newest_runs = refl

abbrev recent : Listing
recent = plain_listing (codes "recent") (codes "tax") []

quotes : quote (codes "a b/é") ≡ codes "a%20b/%C3%A9"
unfolding quote nat_eq ℕ_discrete
quotes = refl

content_disposition-IsHeaderChar_example :
    (plain extended : Text) × (content_disposition (34 ∷ 10 ∷ [])
      ≡ codes "attachment; filename=\"" ++ (plain ++ (codes "\"; filename*=UTF-8''" ++ extended)))
    × All IsHeaderChar plain
    × All IsHeaderChar extended
    × (read_name plain ≡ 34 ∷ 10 ∷ [])
    × (read_name extended ≡ 34 ∷ 10 ∷ [])
content_disposition-IsHeaderChar_example =
    content_disposition-IsHeaderChar (34 ∷ 10 ∷ [])
      ((omega arith, inl (omega arith)), ((omega arith, inl (omega arith)), tt))

lowered : map to_lower (codes "BASIC") ≡ codes "basic"
lowered = refl

stripped : strip (codes "eDp5") ≡ codes "eDp5"
unfolding strip lstrip contains nat_eq ℕ_discrete
stripped = refl

no_space : ¬ In b' ' (codes "BASIC")
no_space m = ground (arith, m)

no_colon : ¬ In b':' (codes "x")
no_colon m = ground (arith, m)

abbrev decoding : Text → Option Text
decoding t = some (codes "x:y:z")

abbrev catalog : Catalog
catalog = record {
  shares = (codes "tax", tax_view) ∷ [];
  page_size = 2;
  now = codes "2024-06-01T00:00:00Z";
}

abbrev upstream : Upstream
upstream = record {
  has_client = true;
  search = λ terms include page size. ok (paper 9 [] ∷ paper 4 [] ∷ [], 2);
  open_stream = λ endpoint. raise http_error;
}

route_share-ServesMembers_example : ServesMembers tax_view (
    route_share catalog upstream
      (codes "https://host")
      false
      tax_view
      (record { page = none; q = some (codes "water" ∷ []) })
      (codes "search" ∷ []))
route_share-ServesMembers_example =
    route_share-ServesMembers catalog upstream (codes "https://host") false tax_view
      (record { page = none; q = some (codes "water" ∷ []) }) (codes "search" ∷ [])

abbrev request : Request
request = record {
  method = codes "GET";
  authorization = codes "Basic eDp5";
  path = codes "/opds/tax/recent";
  query = record { page = none; q = none };
  origin_environ = record {
    forwarded_proto = none;
    url_scheme = some (codes "http");
    forwarded_host = none;
    host = some (codes "host");
    server_name = none;
    server_port = none;
  };
}
