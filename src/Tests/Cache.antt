-- ===== src/Tests/Cache.antt =====
-- The theorems on src/paperless_webdav/cache.py at concrete inputs.
use paperless_webdav.Base.{none, some, List, [], ◌∷◌, nat_eq, list_eq, option_eq, Text, codes}
use paperless_webdav.Cache.Memory.{InMemoryCache, empty_cache, set_size, set_content}
use paperless_webdav.Provider.Documents.{PaperlessDocument}
use paperless_webdav.Tests.Fixtures.{document_at}

abbrev warm : InMemoryCache
warm = set_size 10 5 800 none (some (codes "v1")) (set_content 10 4 (1 ∷ 2 ∷ []) none empty_cache)

abbrev a_key : Text
a_key = codes "token:tax:root:1:"

abbrev some_documents : List PaperlessDocument
some_documents = document_at 1 (codes "Bill") (3 ∷ []) ∷ []
