-- ===== src/Tests/Prefetch.antt =====
-- The theorems on `prefetch_document_sizes` at concrete inputs.
use paperless_webdav.Base.{
  ℕ, ℕ_discrete, ◌≡◌, refl, false, none, some, List, [], ◌∷◌, In, lookup, Dict, codes, nat_eq,
  list_eq, option_eq,
}
use paperless_webdav.Cache.Memory.{empty_cache, get_size}
use paperless_webdav.Services.DocumentSizes.{load_sizes}
use paperless_webdav.Provider.Documents.{PaperlessDocument}
use paperless_webdav.Provider.Prefetch.{
  Measure, SizeState, chunks_of, chunks_for, to_measure, prefetch_document_sizes,
}
use paperless_webdav.Provider.Prefetch.Resume.{Reaches, here, prefetch_document_sizes-resumes}
use paperless_webdav.Tests.Fixtures.{document_at}

abbrev two_ids : List ℕ
two_ids = 1 ∷ 2 ∷ []

abbrev two_documents : List PaperlessDocument
two_documents = document_at 1 (codes "Bill") [] ∷ document_at 2 (codes "Letter") [] ∷ []

abbrev found_sizes : Dict ℕ ℕ
found_sizes = (1, 500) ∷ []

-- Measures the first document, and not the second.
abbrev toy_measure : Measure
toy_measure ids = some (20, found_sizes)

abbrev at_start : SizeState
at_start = record { cache = empty_cache; table = [] }

asked : (to_measure 10 none false two_documents at_start).0 ≡ two_ids
unfolding to_measure get_size load_sizes lookup nat_eq list_eq option_eq ℕ_discrete
asked = refl

reached :
    Reaches toy_measure two_ids (chunks_for (to_measure 10 none false two_documents at_start).0)
unfolding chunks_of
reached = rw asked (here [])

first_found : lookup 1 found_sizes ≡ some 500
unfolding lookup nat_eq ℕ_discrete
first_found = refl

prefetch_document_sizes-resumes_example :
    ¬ In 1
      (to_measure 30 none false two_documents
        (record (prefetch_document_sizes toy_measure 10 none false two_documents at_start) {
          cache = empty_cache;
        })).0
prefetch_document_sizes-resumes_example =
    prefetch_document_sizes-resumes toy_measure 10 none two_documents at_start two_ids 20 1 500
      found_sizes 30 empty_cache reached refl first_found
