-- ===== src/Tests/Filenames.antt =====
-- The theorems on the file names of src/paperless_webdav/webdav_provider.py at concrete inputs.
use paperless_webdav.Base.{
  ℕ_discrete, ◌≡◌, ◌≢◌, refl, ap, sym, ◌∙◌, inl, inr, some, List, [], ◌∷◌, ◌++◌, arith, In, nat_eq,
  list_eq, lookup, Text, codes, decimal,
}
use paperless_webdav.Provider.Documents.{PaperlessDocument}
use paperless_webdav.Provider.Filenames.{sanitize_filename, base_name, index_documents}
use paperless_webdav.Provider.Filenames.Complete.{IsListing, index_documents-lists}
use paperless_webdav.Provider.Filenames.Lowest.{IsLowest}
use paperless_webdav.Provider.Filenames.Overwrite.{Clashes, index_documents-loses}
use paperless_webdav.Tests.Fixtures.{document_at}

abbrev first_bill : PaperlessDocument
first_bill = document_at 1 (codes "Bill") []

abbrev second_bill : PaperlessDocument
second_bill = document_at 2 (codes "Bill") []

abbrev bills : List PaperlessDocument
bills = second_bill ∷ first_bill ∷ []

bill_base : (d : PaperlessDocument) → In d bills → base_name d ≡ codes "Bill"
unfolding sanitize_filename nat_eq ℕ_discrete
bill_base d (inl e) = ap base_name e
bill_base d (inr (inl e)) = ap base_name e
bill_base d (inr (inr m)) = absurd m

bills_distinct : (d e : PaperlessDocument) → In d bills → In e bills → d.id ≡ e.id → d ≡ e
bills_distinct d e (inl m) (inl k) same = m ∙ sym k
bills_distinct d e (inl m) (inr (inl k)) same = absurd (
    omega
      (arith, ap (λ (x : PaperlessDocument). x.id) m, ap (λ (x : PaperlessDocument). x.id) k, same))
bills_distinct d e (inr (inl m)) (inl k) same = absurd (
    omega
      (arith, ap (λ (x : PaperlessDocument). x.id) m, ap (λ (x : PaperlessDocument). x.id) k, same))
bills_distinct d e (inr (inl m)) (inr (inl k)) same = m ∙ sym k
bills_distinct d e (inl m) (inr (inr k)) same = absurd k
bills_distinct d e (inr (inl m)) (inr (inr k)) same = absurd k
bills_distinct d e (inr (inr m)) k same = absurd m

bills_apart :
    (d e : PaperlessDocument)
    → In d bills
    → In e bills
    → base_name e ≢ base_name d ++ (b'_' ∷ decimal d.id)
bills_apart d e m k h =
    let longer : codes "Bill" ≡ codes "Bill" ++ (b'_' ∷ decimal d.id) =
      sym (bill_base e k) ∙ h ∙ ap (λ (t : Text). t ++ (b'_' ∷ decimal d.id)) (bill_base d m) in
    cc

bills-IsListing : IsListing bills
bills-IsListing = record { distinct = bills_distinct; no_clash = bills_apart }

IsLowest-first : IsLowest bills bills-IsListing first_bill
IsLowest-first e (inl m) same = omega (arith, ap (λ (d : PaperlessDocument). d.id) m)
IsLowest-first e (inr (inl m)) same = omega (arith, ap (λ (d : PaperlessDocument). d.id) m)
IsLowest-first e (inr (inr m)) same = absurd m

index_documents-lists_example :
    (name : Text) × (lookup name (index_documents bills) ≡ some second_bill)
index_documents-lists_example = index_documents-lists bills bills-IsListing second_bill (inl refl)

abbrev numbered_bill : PaperlessDocument
numbered_bill = document_at 2 (codes "Bill_3") []

abbrev third_bill : PaperlessDocument
third_bill = document_at 3 (codes "Bill") []

bills-Clashes : Clashes first_bill numbered_bill third_bill
unfolding sanitize_filename decimal nat_eq ℕ_discrete
bills-Clashes = record { first = omega arith; second = omega arith; same = refl; clash = refl }

index_documents-loses_example :
    lookup (codes "Bill_3.pdf") (index_documents (first_bill ∷ numbered_bill ∷ third_bill ∷ []))
    ≢ some numbered_bill
index_documents-loses_example =
    index_documents-loses first_bill numbered_bill third_bill bills-Clashes (codes "Bill_3.pdf")
