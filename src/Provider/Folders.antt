-- ===== src/Provider/Folders.antt =====
-- The folders of src/paperless_webdav/webdav_provider.py: which documents the share root, the done
-- folder and the tag folders list, their members, and the resolution of a path to a resource.
-- `query` is what `get_documents` of Paperless returns for the ids to include and to exclude, and
-- `lower` is `str.lower`. A request reads each listing once.
pub mod Partition
pub mod Cover
pub mod Members
pub mod Resolve
use paperless_webdav.Base.{
  ℕ, ◌≡◌, Bool, true, false, ◌&&◌, ◌||◌, not, Option, none, some, List, [], ◌∷◌, ◌++◌, map, any,
  contains, select, sort_with, ltb, Eq, ◌==◌, if◌then◌else◌, nat_eq, list_eq, Dict, lookup, keys,
  values, Text, codes,
}
use paperless_webdav.Provider.Documents.{PaperlessDocument, Share}
use paperless_webdav.Provider.Filenames.{Index, is_macos_metadata_file, index_documents}
use paperless_webdav.Provider.Paths.{path_parts}
use paperless_webdav.Provider.Moves.{DocumentResource, filled}

-- `_resolve_tag_ids_from_map`
unfoldable pub resolve_tag_ids_from_map : Dict Text ℕ → List Text → List ℕ
resolve_tag_ids_from_map tag_map [] = []
resolve_tag_ids_from_map tag_map (name ∷ tag_names) =
    let rest = resolve_tag_ids_from_map tag_map tag_names in
    elim (lookup name tag_map) [ none ↦ rest | some tag_id ↦ tag_id ∷ rest ]

abbrev pub Query : Type 0
Query = List ℕ → List ℕ → List PaperlessDocument

-- The done tag as a list of names, where it is set.
abbrev pub done_names : Option Text → List Text
done_names none = []
done_names (some done_tag) = done_tag ∷ []

-- `ShareResource._load_documents` with a client
unfoldable pub load_documents : Query → Dict Text ℕ → Share → List PaperlessDocument
unfolding resolve_tag_ids_from_map
load_documents query tag_map share =
    let exclude_tag_ids = resolve_tag_ids_from_map tag_map share.exclude_tags in
    query (resolve_tag_ids_from_map tag_map share.include_tags) (
      if share.done_folder_enabled
      then exclude_tag_ids ++ resolve_tag_ids_from_map tag_map (done_names (filled share.done_tag))
      else exclude_tag_ids)

-- `DoneFolderResource._load_documents` with a client
unfoldable pub load_done_documents : Query → Dict Text ℕ → Share → List PaperlessDocument
unfolding resolve_tag_ids_from_map
load_done_documents query tag_map share =
    query
      (resolve_tag_ids_from_map tag_map share.include_tags
        ++ resolve_tag_ids_from_map tag_map (done_names (filled share.done_tag)))
      (resolve_tag_ids_from_map tag_map share.exclude_tags)

-- `UNSORTED_FOLDER_NAME`
abbrev pub unsorted_folder_name : Text
unsorted_folder_name = codes "unsorted"

-- What a request sees of a share: the tag map is `none` without a client, `documents` is what
-- `_load_documents` returns, and `static_index` is the provider's own index of the share.
pub record ShareView : Type 0 where
  pub share : Share
  pub tag_folders : Bool
  pub lower : Text → Text
  pub tag_map : Option (Dict Text ℕ)
  pub documents : List PaperlessDocument
  pub done_documents : List PaperlessDocument
  pub static_index : Index

-- The names that make no folder.
unfoldable pub excluded_names : ShareView → List Text
excluded_names v = map v.lower (
    v.share.include_tags
    ++ (if v.share.done_folder_enabled then done_names (filled v.share.done_tag) else []))

-- `tag_id in present`
abbrev pub is_present : ℕ → List PaperlessDocument → Bool
is_present tag_id = any (λ doc. contains tag_id doc.tags)

unfoldable pub topics_of : ShareView → Dict Text ℕ → Dict Text ℕ
unfolding excluded_names any contains
topics_of v [] = []
topics_of v ((name, tag_id) ∷ tag_map) =
    let rest = topics_of v tag_map in
    if is_present tag_id v.documents && not (contains (v.lower name) (excluded_names v))
    then (name, tag_id) ∷ rest
    else rest

-- `_topic_tag_ids`
unfoldable pub topic_tag_ids : ShareView → Dict Text ℕ
unfolding topics_of
topic_tag_ids v = elim v.tag_map [ none ↦ [] | some tag_map ↦ topics_of v tag_map ]

-- `set(doc.tags) & folder_tag_ids`, as a test
abbrev pub is_filed : List ℕ → PaperlessDocument → Bool
is_filed folder_tag_ids doc = any (λ t. contains t folder_tag_ids) doc.tags

-- `_untagged_documents`
unfoldable pub untagged_documents : ShareView → List PaperlessDocument
unfolding topic_tag_ids select any contains values
untagged_documents v = select (λ doc. not (is_filed (values (topic_tag_ids v)) doc)) v.documents

-- `TagFolderResource._select_documents`
unfoldable pub select_documents : ShareView → Option ℕ → List PaperlessDocument
unfolding untagged_documents select contains
select_documents v none = untagged_documents v
select_documents v (some tag_id) = select (λ doc. contains tag_id doc.tags) v.documents

-- Python's `<=` on texts.
abbrev pub text_le : Text → Text → Bool
text_le [] t = true
text_le (c ∷ s) [] = false
text_le (c ∷ s) (d ∷ t) = let rest = text_le s t in ltb c d || ((c == d) && rest)

abbrev pub unsorted_if : List PaperlessDocument → List Text
unsorted_if [] = []
unsorted_if (doc ∷ documents) = unsorted_folder_name ∷ []

-- `ShareResource.get_member_names`
unfoldable pub get_member_names : ShareView → List Text
unfolding topic_tag_ids untagged_documents sort_with keys index_documents
get_member_names v =
    (if v.share.done_folder_enabled then v.share.done_folder_name ∷ [] else [])
    ++ (if v.tag_folders
        then sort_with text_le (keys (topic_tag_ids v)) ++ unsorted_if (untagged_documents v)
        else keys (index_documents v.documents))

-- What `get_member` returns, each in the share at hand.
pub data Member : Type 0 where
  metadata : Member
  done_folder : Member
  tag_folder : Option ℕ → Member
  document : Bool → PaperlessDocument → Member

-- A document by its name, in the index of the request or else in the provider's.
unfoldable pub get_document : ShareView → Text → Option Member
unfolding index_documents
get_document v name = elim (lookup name (index_documents v.documents)) [
  | some doc ↦ some (document false doc)
  | none ↦ elim (lookup name v.static_index) [ none ↦ none | some doc ↦ some (document false doc) ]
]

-- `ShareResource.get_member`
unfoldable pub get_member : ShareView → Text → Option Member
unfolding topic_tag_ids get_document is_macos_metadata_file
get_member v name =
    if is_macos_metadata_file name
    then some metadata
    else if (name == v.share.done_folder_name) && v.share.done_folder_enabled
    then some done_folder
    else if not v.tag_folders
    then get_document v name
    else if name == unsorted_folder_name
    then some (tag_folder none)
    else elim (lookup name (topic_tag_ids v)) [
      | none ↦ get_document v name
      | some tag_id ↦ some (tag_folder (some tag_id))
    ]

-- `get_member` of the done folder and of a tag folder
unfoldable pub get_folder_member : Bool → List PaperlessDocument → Text → Option Member
unfolding index_documents is_macos_metadata_file
get_folder_member in_done documents name =
    if is_macos_metadata_file name
    then some metadata
    else elim (lookup name (index_documents documents)) [
      | none ↦ none
      | some doc ↦ some (document in_done doc)
    ]

-- The third part of a path, below a member that is a collection.
unfoldable pub get_below : ShareView → Text → Option Member → Option Member
unfolding get_folder_member select_documents
get_below v name none = none
get_below v name (some metadata) = none
get_below v name (some (document in_done doc)) = none
get_below v name (some done_folder) = get_folder_member true v.done_documents name
get_below v name (some (tag_folder tag_id)) =
    get_folder_member false (select_documents v tag_id) name

pub data Resource : Type 0 where
  root_resource : Resource
  share_resource : Share → Resource
  member_resource : Share → Member → Resource

abbrev pub as_resource : Share → Option Member → Option Resource
as_resource share none = none
as_resource share (some member) = some (member_resource share member)

-- `get_resource_inst`, on the parts of the path
unfoldable pub resolve_in : ShareView → List Text → Option Resource
unfolding get_member get_below
resolve_in v [] = some (share_resource v.share)
resolve_in v (name ∷ []) = as_resource v.share (get_member v name)
resolve_in v (folder ∷ name ∷ []) = as_resource v.share (get_below v name (get_member v folder))
resolve_in v (folder ∷ name ∷ more ∷ rest) = none

unfoldable pub resolve_parts : Dict Text ShareView → List Text → Option Resource
unfolding resolve_in
resolve_parts shares [] = some root_resource
resolve_parts shares (share_name ∷ parts) = elim (lookup share_name shares) [
  | none ↦ none
  | some v ↦ resolve_in v parts
]

unfoldable pub get_resource_inst : Dict Text ShareView → Text → Option Resource
unfolding resolve_parts path_parts
get_resource_inst shares path = resolve_parts shares (path_parts path)

-- The `DocumentResource` of a member.
abbrev pub document_resource : Share → Bool → PaperlessDocument → DocumentResource
document_resource share in_done doc = record {
  document = doc;
  share = some share;
  in_done_folder = in_done;
}
