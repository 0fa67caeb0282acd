-- ===== src/Provider/Filenames/Complete.antt =====
-- Every document of the list has a name in the index, unless the title of one is the title of
-- another with its number.
use paperless_webdav.Base.{
  ℕ, ◌≡◌, ◌≢◌, inl, inr, refl, ap, sym, ◌∙◌, some, List, [], ◌∷◌, ◌++◌, In, In-sort_with, by_key,
  arith, nat_eq, list_eq, lookup, lookup-insert, lookup-nil, sort_with, Option-cases, Text, codes,
  decimal, decimal-injective, In-decimal, split_last,
}
use mathlib.Core.List.{append_cancel_right}
use mathlib.Core.Option.{some-ne-none}
use paperless_webdav.Provider.Documents.{PaperlessDocument}
use paperless_webdav.Provider.Filenames.{
  base_name, plain_name, numbered_name, Index, or_numbered, add_document, add_documents,
  document_id, index_documents,
}
use paperless_webdav.Provider.Filenames.Sound.{AllEntries, add_document-AllEntries}

-- The documents of a listing: ids tell them apart, and no title reads like another one's numbered
-- name.
pub record IsListing (documents : List PaperlessDocument) : Type 0 where
  pub distinct : (d e : PaperlessDocument) → In d documents → In e documents → d.id ≡ e.id → d ≡ e
  pub no_clash :
      (d e : PaperlessDocument)
      → In d documents
      → In e documents
      → base_name e ≢ base_name d ++ (b'_' ∷ decimal d.id)

no_underscore : (n : ℕ) → ¬ In b'_' (decimal n)
no_underscore n m = let h = In-decimal n b'_' m in omega arith

module _ (documents : List PaperlessDocument) (ok : IsListing documents) where
  pub plain-ne-numbered :
      (d e : PaperlessDocument) → In d documents → In e documents → plain_name e ≢ numbered_name d
  plain-ne-numbered d e md me h = ok.no_clash d e md me (append_cancel_right _ _ (codes ".pdf") h)

  numbered_inj :
      (d e : PaperlessDocument)
      → In d documents
      → In e documents
      → numbered_name d ≡ numbered_name e
      → d ≡ e
  numbered_inj d e md me h = ok.distinct d e md me (
      decimal-injective d.id e.id (
        split_last b'_' (base_name d) (base_name e) (decimal d.id) (decimal e.id)
          (no_underscore d.id) (no_underscore e.id) (append_cancel_right _ _ (codes ".pdf") h)))

  abbrev pub Within : List PaperlessDocument → Type 0
  Within seen = (d : PaperlessDocument) → In d seen → In d documents

  -- The loop puts a document over no other one.
  no_other :
      (seen : List PaperlessDocument) (index : Index) (doc v : PaperlessDocument)
      → Within seen
      → In doc documents
      → AllEntries seen index
      → lookup (or_numbered doc (lookup (plain_name doc) index)) index ≡ some v
      → v ≡ doc
  no_other seen index doc v within m entries found =
      elim (Option-cases (lookup (plain_name doc) index)) [
        | inl free ↦ absurd (some-ne-none v (sym (rw free at found) ∙ free))
        | inr (e, taken) ↦
            let found' : lookup (numbered_name doc) index ≡ some v = (rw taken at found) in
            let entry = entries (numbered_name doc) v found' in
            elim entry.spelled [
              | inl p ↦ absurd (plain-ne-numbered doc v m (within v entry.member) (sym p))
              | inr p ↦ sym (numbered_inj doc v m (within v entry.member) p)
            ]
      ]

  pub stays :
      (seen : List PaperlessDocument) (index : Index) (doc d : PaperlessDocument) (name : Text)
      → Within seen
      → In doc documents
      → AllEntries seen index
      → lookup name index ≡ some d
      → lookup name (add_document index doc) ≡ some d
  unfolding add_document
  stays seen index doc d name within m entries found =
      let n = or_numbered doc (lookup (plain_name doc) index) in
      let law = lookup-insert name n doc index in
      elim ((list_eq ⦃e = nat_eq⦄).dec name n) [
        | yes here ↦
            let same =
              no_other seen index doc d within m entries
                (ap (λ (t : Text). lookup t index) (sym here) ∙ found) in
            ground arith
        | no there ↦ ground arith
      ]

  pub all_stay :
      (seen rest : List PaperlessDocument) (index : Index) (d : PaperlessDocument) (name : Text)
      → Within seen
      → Within rest
      → AllEntries seen index
      → lookup name index ≡ some d
      → lookup name (add_documents index rest) ≡ some d
  unfolding add_documents
  all_stay seen [] index d name within todo entries found = found
  all_stay seen (doc ∷ rest) index d name within todo entries found =
      all_stay (doc ∷ seen) rest (add_document index doc) d name
        (λ e m. elim m [ inl same ↦ rw same (todo doc (inl refl)) | inr old ↦ within e old ])
        (λ e m. todo e (inr m)) (add_document-AllEntries seen index doc entries)
        (stays seen index doc d name within (todo doc (inl refl)) entries found)

  pub added :
      (index : Index) (doc : PaperlessDocument)
      → lookup (or_numbered doc (lookup (plain_name doc) index)) (add_document index doc) ≡ some doc
  unfolding add_document
  added index doc =
      let n = or_numbered doc (lookup (plain_name doc) index) in
      ground (arith, lookup-insert n n doc index)

  all_listed :
      (seen rest : List PaperlessDocument) (index : Index) (d : PaperlessDocument)
      → Within seen
      → Within rest
      → AllEntries seen index
      → In d rest
      → (name : Text) × (lookup name (add_documents index rest) ≡ some d)
  unfolding add_documents
  all_listed seen [] index d within todo entries m = absurd m
  all_listed seen (doc ∷ rest) index d within todo entries m = elim m [
    | inl same ↦ (
      or_numbered doc (lookup (plain_name doc) index),
      all_stay (doc ∷ seen) rest (add_document index doc) d _
          (λ e k. elim k [ inl p ↦ rw p (todo doc (inl refl)) | inr old ↦ within e old ])
          (λ e k. todo e (inr k)) (add_document-AllEntries seen index doc entries)
          (rw same (added index doc)),
    )
    | inr later ↦
        all_listed (doc ∷ seen) rest (add_document index doc) d
          (λ e k. elim k [ inl p ↦ rw p (todo doc (inl refl)) | inr old ↦ within e old ])
          (λ e k. todo e (inr k)) (add_document-AllEntries seen index doc entries) later
  ]

  pub Within-nil : Within []
  Within-nil d m = absurd m

  pub nil_entries : AllEntries [] []
  nil_entries name d h = absurd (some-ne-none d (sym h ∙ lookup-nil {V = PaperlessDocument} name))

  pub sorted-Within : Within (sort_with (by_key document_id) documents)
  sorted-Within d m = (In-sort_with (by_key document_id) d documents).0 m

  -- Every document of a listing whose ids are distinct, and in which no sanitized title is another
  -- one's with an underscore and its id, has a name in the index.
  pub index_documents-lists :
      (d : PaperlessDocument)
      → In d documents
      → (name : Text) × (lookup name (index_documents documents) ≡ some d)
  unfolding index_documents
  index_documents-lists d m =
      all_listed [] (sort_with (by_key document_id) documents) [] d Within-nil sorted-Within
        nil_entries ((In-sort_with (by_key document_id) d documents).1 m)
