-- ===== src/Provider/Filenames/Lowest.antt =====
-- Of the documents that share a title, the one with the lowest id gets the plain name.
use paperless_webdav.Base.{
  ◌≤◌, ◌≡◌, ◌⊎◌, inl, inr, refl, ap, sym, ◌∙◌, none, some, List, [], ◌∷◌, In, In-sort_with, All-In,
  Sorted, Sorted-sort_with, by_key, by_key-IsOrder, nat_eq, list_eq, lookup, sort_with,
  Option-cases, codes, leb→le, true,
}
use mathlib.Core.Path.{subst}
use mathlib.Core.List.{append_cancel_right}
use native.Mathlib.Nat.{le_antisymm}
use paperless_webdav.Provider.Documents.{PaperlessDocument}
use paperless_webdav.Provider.Filenames.{
  base_name, plain_name, Index, or_numbered, add_document, add_documents, document_id,
  index_documents,
}
use paperless_webdav.Provider.Filenames.Sound.{AllEntries, add_document-AllEntries}
use paperless_webdav.Provider.Filenames.Complete.{
  IsListing, plain-ne-numbered, Within, stays, all_stay, added, Within-nil, nil_entries,
  sorted-Within,
}

module _ (documents : List PaperlessDocument) (ok : IsListing documents) where
  -- No document of the same sanitized title has a lower id.
  abbrev pub IsLowest : PaperlessDocument → Type 0
  IsLowest d = (e : PaperlessDocument) → In e documents → base_name e ≡ base_name d → d.id ≤ e.id

  abbrev Below : List PaperlessDocument → PaperlessDocument → Type 0
  Below seen d = (e : PaperlessDocument) → In e seen → e.id ≤ d.id

  -- The plain name of a lowest document is free, or its own already.
  plain_free :
      (seen : List PaperlessDocument) (index : Index) (d : PaperlessDocument)
      → Within documents ok seen
      → In d documents
      → AllEntries seen index
      → Below seen d
      → IsLowest d
      → (lookup (plain_name d) index ≡ none) ⊎ (lookup (plain_name d) index ≡ some d)
  plain_free seen index d within m entries below lowest =
      elim (Option-cases (lookup (plain_name d) index)) [
        | inl free ↦ inl free
        | inr (e, taken) ↦
            let entry = entries (plain_name d) e taken in
            elim entry.spelled [
              | inl p ↦
                  let same_base = append_cancel_right _ _ (codes ".pdf") (sym p) in
                  let me = within e entry.member in
                  let same =
                    ok.distinct e d me m
                      (le_antisymm (below e entry.member) (lowest e me same_base)) in
                  inr (taken ∙ ap some same)
              | inr p ↦ absurd (plain-ne-numbered documents ok e d (within e entry.member) m p)
            ]
      ]

  plain_added :
      (seen : List PaperlessDocument) (index : Index) (d : PaperlessDocument)
      → Within documents ok seen
      → In d documents
      → AllEntries seen index
      → Below seen d
      → IsLowest d
      → lookup (plain_name d) (add_document index d) ≡ some d
  plain_added seen index d within m entries below lowest =
      elim (plain_free seen index d within m entries below lowest) [
        | inl free ↦
            subst (λ o. lookup (or_numbered d o) (add_document index d) ≡ some d) free
              (added documents ok index d)
        | inr own ↦ stays documents ok seen index d d (plain_name d) within m entries own
      ]

  plain_listed :
      (seen rest : List PaperlessDocument) (index : Index) (d : PaperlessDocument)
      → Within documents ok seen
      → Within documents ok rest
      → AllEntries seen index
      → In d rest
      → Below seen d
      → Sorted (by_key document_id) rest
      → IsLowest d
      → lookup (plain_name d) (add_documents index rest) ≡ some d
  unfolding add_documents
  plain_listed seen [] index d within todo entries m below sorted lowest = absurd m
  plain_listed seen (doc ∷ rest) index d within todo entries m below sorted lowest =
      let within' : Within documents ok (doc ∷ seen) =
        (λ e k. elim k [ inl p ↦ rw p (todo doc (inl refl)) | inr old ↦ within e old ]) in
      let entries' = add_document-AllEntries seen index doc entries in
      elim m [
        | inl same ↦
            all_stay documents ok (doc ∷ seen) rest (add_document index doc) d (plain_name d)
              within' (λ e k. todo e (inr k)) entries'
              (subst (λ x. lookup (plain_name d) (add_document index x) ≡ some d) same
                (plain_added seen index d within (rw same (todo doc (inl refl))) entries below
                  lowest))
        | inr later ↦
            plain_listed (doc ∷ seen) rest (add_document index doc) d within'
              (λ e k. todo e (inr k)) entries' later
              (λ e k. elim k [
                | inl p ↦ rw p (
                    leb→le _ _
                      (All-In (λ y. by_key document_id doc y ≡ true) d rest sorted.0 later))
                | inr old ↦ below e old
              ])
              sorted.1 lowest
      ]

  -- In a listing whose ids are distinct, and in which no sanitized title is another one's with an
  -- underscore and its id, the document with the lowest id of those with its sanitized title is
  -- listed under that title and `.pdf`.
  pub index_documents-lowest :
      (d : PaperlessDocument)
      → In d documents
      → IsLowest d
      → lookup (plain_name d) (index_documents documents) ≡ some d
  unfolding index_documents
  index_documents-lowest d m lowest =
      plain_listed [] (sort_with (by_key document_id) documents) [] d (Within-nil documents ok)
        (sorted-Within documents ok) (nil_entries documents ok)
        ((In-sort_with (by_key document_id) d documents).1 m) (λ e k. absurd k)
        (Sorted-sort_with (by_key document_id) (by_key-IsOrder document_id) documents) lowest
