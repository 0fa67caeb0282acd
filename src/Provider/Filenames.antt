-- ===== src/Provider/Filenames.antt =====
-- The names of documents in src/paperless_webdav/webdav_provider.py: `sanitize_filename`,
-- `is_macos_metadata_file`, and the filename index that the share root, the done folder, the tag
-- folders and the static mode each build with the same loop.
pub mod Sanitize
pub mod Sound
pub mod Complete
pub mod Lowest
pub mod Overwrite
use paperless_webdav.Base.{
  ℕ, ◌≡◌, Bool, true, false, not, Option, none, some, List, [], ◌∷◌, ◌++◌, select, contains,
  sort_with, by_key, Eq, ◌==◌, if◌then◌else◌, nat_eq, list_eq, Dict, lookup, insert, Text, codes,
  starts_with, strip, decimal,
}
use paperless_webdav.Provider.Documents.{PaperlessDocument}

-- `UNSAFE_FILENAME_CHARS`
abbrev pub unsafe_filename_chars : List ℕ
unsafe_filename_chars = b'<' ∷ b'>' ∷ b':' ∷ 34 ∷ b'/' ∷ 92 ∷ b'|' ∷ b'?' ∷ b'*' ∷ []

abbrev pub is_safe : ℕ → Bool
is_safe c = not (contains c unsafe_filename_chars)

-- `MACOS_METADATA_PATTERNS`
abbrev pub macos_metadata_patterns : List Text
macos_metadata_patterns =
    codes ".DS_Store"
    ∷ codes "._.DS_Store"
    ∷ codes ".Spotlight-V100"
    ∷ codes ".Trashes"
    ∷ codes ".fseventsd"
    ∷ []

unfoldable pub is_macos_metadata_file : Text → Bool
unfolding contains starts_with
is_macos_metadata_file name =
    if starts_with name (codes "._") then true else contains name macos_metadata_patterns

abbrev pub or_untitled : Text → Text
or_untitled [] = codes "untitled"
or_untitled (c ∷ s) = c ∷ s

unfoldable pub sanitize_filename : Text → Text
unfolding select contains strip
sanitize_filename name = or_untitled (strip (select is_safe name))

abbrev pub base_name : PaperlessDocument → Text
base_name doc = sanitize_filename doc.title

-- `f"{base_name}.pdf"`
abbrev pub plain_name : PaperlessDocument → Text
plain_name doc = base_name doc ++ codes ".pdf"

-- `f"{base_name}_{doc.id}.pdf"`
abbrev pub numbered_name : PaperlessDocument → Text
numbered_name doc = (base_name doc ++ (b'_' ∷ decimal doc.id)) ++ codes ".pdf"

abbrev pub Index : Type 0
Index = Dict Text PaperlessDocument

-- The name that the loop picks for a document.
abbrev pub or_numbered : PaperlessDocument → Option PaperlessDocument → Text
or_numbered doc none = plain_name doc
or_numbered doc (some existing_doc) = numbered_name doc

unfoldable pub add_document : Index → PaperlessDocument → Index
add_document index doc = insert (or_numbered doc (lookup (plain_name doc) index)) doc index

-- The loop over the sorted documents.
unfoldable pub add_documents : Index → List PaperlessDocument → Index
unfolding add_document
add_documents index [] = index
add_documents index (doc ∷ documents) = add_documents (add_document index doc) documents

-- `d.id`
abbrev pub document_id : PaperlessDocument → ℕ
document_id doc = doc.id

unfoldable pub index_documents : List PaperlessDocument → Index
unfolding add_documents sort_with
index_documents documents = add_documents [] (sort_with (by_key document_id) documents)
