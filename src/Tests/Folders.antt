-- ===== src/Tests/Folders.antt =====
-- The theorems on the folders of src/paperless_webdav/webdav_provider.py at concrete inputs.
use paperless_webdav.Base.{
  ℕ, ℕ_discrete, ◌≡◌, ◌≢◌, ◌⊎◌, ◌↔◌, refl, inl, true, false, none, some, List, [], ◌∷◌, select, In,
  In-of_select, In-select, contains, nat_eq, list_eq, lookup, insert, Dict, Text, codes,
}
use paperless_webdav.Provider.Documents.{PaperlessDocument}
use paperless_webdav.Provider.Filenames.{is_macos_metadata_file, index_documents, sanitize_filename}
use paperless_webdav.Provider.Folders.{
  Query, load_documents, load_done_documents, ShareView, topic_tag_ids, unsorted_folder_name,
  get_member_names, document, member_resource, resolve_parts,
}
use paperless_webdav.Provider.Folders.Partition.{
  meets, IsQuery, share_documents, load_documents-partition,
}
use paperless_webdav.Provider.Folders.Resolve.{resolve_parts-document}
use paperless_webdav.Tests.Fixtures.{document_at, tax_share}

abbrev open_bill : PaperlessDocument
open_bill = document_at 7 (codes "Bill") (3 ∷ 4 ∷ [])

abbrev read_bill : PaperlessDocument
read_bill = document_at 8 (codes "Paid") (3 ∷ 5 ∷ [])

abbrev all_documents : List PaperlessDocument
all_documents = open_bill ∷ read_bill ∷ []

abbrev toy_query : Query
toy_query inc exc = select (meets inc exc) all_documents

toy_query-IsQuery : IsQuery all_documents toy_query
toy_query-IsQuery = record {
  finds = λ inc exc d. (
    In-of_select (meets inc exc) d all_documents,
    λ (m, h). In-select (meets inc exc) d all_documents m h,
  );
}

abbrev known_tags : Dict Text ℕ
known_tags = (codes "tax", 3) ∷ (codes "read", 5) ∷ (codes "unsorted", 4) ∷ []

abbrev few_tags : Dict Text ℕ
few_tags = (codes "tax", 3) ∷ []

read_known : lookup (codes "read") known_tags ≡ some 5
unfolding lookup list_eq nat_eq ℕ_discrete
read_known = refl

read_unknown : lookup (codes "read") few_tags ≡ none
unfolding lookup list_eq nat_eq ℕ_discrete
read_unknown = refl

load_documents-partition_example :
    (In read_bill (load_documents toy_query known_tags tax_share) ↔ (
      In read_bill (share_documents toy_query known_tags tax_share)
      × (contains 5 read_bill.tags ≡ false)))
    × (In read_bill (load_done_documents toy_query known_tags tax_share) ↔ (
        In read_bill (share_documents toy_query known_tags tax_share)
        × (contains 5 read_bill.tags ≡ true)))
load_documents-partition_example =
    load_documents-partition all_documents toy_query toy_query-IsQuery known_tags tax_share
      (codes "read") refl 5 read_bill read_known refl

abbrev tag_view : ShareView
tag_view = record {
  share = tax_share;
  tag_folders = true;
  lower = λ t. t;
  tag_map = some known_tags;
  documents = open_bill ∷ [];
  done_documents = read_bill ∷ [];
  static_index = [];
}

abbrev flat_view : ShareView
flat_view = record tag_view { tag_folders = false }

done_listed : In (codes "done") (get_member_names tag_view)
unfolding get_member_names
done_listed = inl refl

bill_indexed : lookup (codes "Bill.pdf") (index_documents (open_bill ∷ [])) ≡ some open_bill
unfolding lookup insert index_documents sanitize_filename list_eq nat_eq ℕ_discrete
bill_indexed = refl

bill_plain : is_macos_metadata_file (codes "Bill.pdf") ≡ false
unfolding is_macos_metadata_file list_eq nat_eq ℕ_discrete
bill_plain = refl

bill_apart : codes "Bill.pdf" ≢ tax_share.done_folder_name
bill_apart e = cc

unsorted_topic : lookup unsorted_folder_name (topic_tag_ids tag_view) ≡ some 4
unfolding lookup topic_tag_ids list_eq nat_eq ℕ_discrete
unsorted_topic = refl

unsorted_apart : unsorted_folder_name ≢ tax_share.done_folder_name
unsorted_apart e = cc

abbrev some_shares : Dict Text ShareView
some_shares = (codes "tax", flat_view) ∷ []

abbrev bill_parts : List Text
bill_parts = codes "tax" ∷ codes "Bill.pdf" ∷ []

bill_resolved :
    resolve_parts some_shares bill_parts
    ≡ some (member_resource tax_share (document false open_bill))
unfolding resolve_parts lookup insert index_documents sanitize_filename is_macos_metadata_file
    list_eq nat_eq ℕ_discrete
bill_resolved = refl

resolve_parts-document_example :
    (share_name : Text) × (v : ShareView) × (lookup share_name some_shares ≡ some v)
    × (v.share ≡ tax_share)
    × (((name : Text) × (bill_parts ≡ share_name ∷ name ∷ []) × (false ≡ false))
        ⊎ ((folder : Text) × (name : Text) × (bill_parts ≡ share_name ∷ folder ∷ name ∷ [])
            × ((false ≡ true)
                → (folder ≡ tax_share.done_folder_name) × (tax_share.done_folder_enabled ≡ true))))
resolve_parts-document_example =
    resolve_parts-document some_shares bill_parts tax_share false open_bill bill_resolved
