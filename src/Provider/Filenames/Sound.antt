-- ===== src/Provider/Filenames/Sound.antt =====
-- Every name of the index belongs to a document of the list.
use paperless_webdav.Base.{
  ◌≡◌, ◌⊎◌, inl, inr, refl, Option, none, some, List, [], ◌∷◌, In, In-sort_with, by_key, arith,
  nat_eq, list_eq, lookup, lookup-insert, lookup-nil, sort_with, Text,
}
use paperless_webdav.Provider.Documents.{PaperlessDocument}
use paperless_webdav.Provider.Filenames.{
  plain_name, numbered_name, Index, or_numbered, add_document, add_documents, document_id,
  index_documents,
}

-- The document is one of `seen`, and the name is its plain or its numbered one.
pub record IsEntry (seen : List PaperlessDocument) (name : Text) (doc : PaperlessDocument)
    : Type 0 where
  pub member : In doc seen
  pub spelled : (name ≡ plain_name doc) ⊎ (name ≡ numbered_name doc)

abbrev pub AllEntries : List PaperlessDocument → Index → Type 0
AllEntries seen index =
    (name : Text) (doc : PaperlessDocument) → lookup name index ≡ some doc → IsEntry seen name doc

or_numbered-cases :
    (doc : PaperlessDocument) (o : Option PaperlessDocument)
    → (or_numbered doc o ≡ plain_name doc) ⊎ (or_numbered doc o ≡ numbered_name doc)
or_numbered-cases doc none = inl refl
or_numbered-cases doc (some e) = inr refl

pub add_document-AllEntries :
    (seen : List PaperlessDocument) (index : Index) (doc : PaperlessDocument)
    → AllEntries seen index
    → AllEntries (doc ∷ seen) (add_document index doc)
unfolding add_document
add_document-AllEntries seen index doc old name d found =
    let n = or_numbered doc (lookup (plain_name doc) index) in
    let law = lookup-insert name n doc index in
    elim ((list_eq ⦃e = nat_eq⦄).dec name n) [
      | yes here ↦ record {
        member = ground arith;
        spelled = ground (arith, or_numbered-cases doc (lookup (plain_name doc) index));
      }
      | no there ↦
          let e = old name d (ground arith) in record { member = inr e.member; spelled = e.spelled }
    ]

-- The documents that the loop has seen in the end.
abbrev pub all_seen : List PaperlessDocument → List PaperlessDocument → List PaperlessDocument
all_seen seen [] = seen
all_seen seen (doc ∷ documents) = all_seen (doc ∷ seen) documents

pub add_documents-AllEntries :
    (seen : List PaperlessDocument) (index : Index) (documents : List PaperlessDocument)
    → AllEntries seen index
    → AllEntries (all_seen seen documents) (add_documents index documents)
unfolding add_documents
add_documents-AllEntries seen index [] old = old
add_documents-AllEntries seen index (doc ∷ documents) old =
    add_documents-AllEntries (doc ∷ seen) (add_document index doc) documents
      (add_document-AllEntries seen index doc old)

In-all_seen :
    (d : PaperlessDocument) (seen documents : List PaperlessDocument)
    → In d (all_seen seen documents)
    → In d seen ⊎ In d documents
In-all_seen d seen [] m = inl m
In-all_seen d seen (doc ∷ documents) m = ground (arith, In-all_seen d (doc ∷ seen) documents m)

-- A name that the index lists leads to a document of the list, and it is the sanitized title of
-- that document with `.pdf`, or with its id and `.pdf`.
pub index_documents-AllEntries :
    (documents : List PaperlessDocument) → AllEntries documents (index_documents documents)
unfolding index_documents
index_documents-AllEntries documents name doc found =
    let sorted = sort_with (by_key document_id) documents in
    let e =
      add_documents-AllEntries [] [] sorted
        (λ n d h. ground (arith, lookup-nil {V = PaperlessDocument} n)) name doc found in
    record {
      member = elim (In-all_seen doc [] sorted e.member) [
        | inl m ↦ absurd m
        | inr m ↦ (In-sort_with (by_key document_id) doc documents).0 m
      ];
      spelled = e.spelled;
    }
