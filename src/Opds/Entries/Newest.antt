-- ===== src/Opds/Entries/Newest.antt =====
-- The order of the acquisition feeds.
use paperless_webdav.Base.{
  ◌≡◌, ◌↔◌, refl, Bool, true, false, List, [], ◌∷◌, length, IsOrder, Sorted, Sorted-sort_with, In,
  In-sort_with, length-sort_with, nat_eq, list_eq, arith, Text,
}
use paperless_webdav.Provider.Documents.{PaperlessDocument}
use paperless_webdav.Provider.Folders.{text_le}
use paperless_webdav.Opds.Entries.{date_of, key_le, newest_first}

text_le-total : (s t : Text) → text_le s t ≡ false → text_le t s ≡ true
text_le-total [] t h = cc
text_le-total (c ∷ s) [] h = refl
text_le-total (c ∷ s) (d ∷ t) h = ground (arith, h, text_le-total s t)

text_le-antisym : (s t : Text) → text_le s t ≡ true → text_le t s ≡ true → s ≡ t
text_le-antisym [] [] h k = refl
text_le-antisym [] (d ∷ t) h k = cc
text_le-antisym (c ∷ s) [] h k = cc
text_le-antisym (c ∷ s) (d ∷ t) h k = ground (arith, h, k, text_le-antisym s t)

text_le_trans : (r s t : Text) → text_le r s ≡ true → text_le s t ≡ true → text_le r t ≡ true
text_le_trans [] s t h k = refl
text_le_trans (b ∷ r) [] t h k = cc
text_le_trans (b ∷ r) (c ∷ s) [] h k = cc
text_le_trans (b ∷ r) (c ∷ s) (d ∷ t) h k = ground (arith, h, k, text_le_trans r s t)

key_le-total : (d e : PaperlessDocument) → key_le d e ≡ false → key_le e d ≡ true
unfolding key_le
key_le-total d e h = ground (arith, h, text_le-total (date_of d) (date_of e))

key_le_trans :
    (d e f : PaperlessDocument) → key_le d e ≡ true → key_le e f ≡ true → key_le d f ≡ true
unfolding key_le
key_le_trans d e f h k = ground (
  arith,
  h,
  k,
  text_le_trans (date_of d) (date_of e) (date_of f),
  text_le-antisym (date_of d) (date_of e),
  text_le-antisym (date_of e) (date_of f),
)

newer : PaperlessDocument → PaperlessDocument → Bool
newer d e = key_le e d

newer-IsOrder : IsOrder newer
unfolding newer
newer-IsOrder = record {
  total = λ d e h. key_le-total e d h;
  trans = λ d e f h k. key_le_trans f e d k h;
}

-- The list of an acquisition feed is in order, the newest date first and of one date the largest id
-- first; it has the documents that it is made of, and as many entries. Dates compare as texts.
pub newest_first-Sorted :
    (documents : List PaperlessDocument)
    → Sorted (λ d e. key_le e d) (newest_first documents)
      × ((d : PaperlessDocument) → In d (newest_first documents) ↔ In d documents)
      × (length (newest_first documents) ≡ length documents)
unfolding newest_first newer
newest_first-Sorted documents = (
  Sorted-sort_with newer newer-IsOrder documents,
  λ d. In-sort_with newer d documents,
  length-sort_with newer documents,
)
