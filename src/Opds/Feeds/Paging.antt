-- ===== src/Opds/Feeds/Paging.antt =====
-- The pages of an acquisition feed, and the links between them.
use paperless_webdav.Base.{
  ℕ, zero, suc, ◌+◌, ◌-◌, ◌≤◌, ◌<◌, ◌≢◌, List, [], ◌∷◌, ◌++◌, nat_eq, ltb, ltb→lt, arith, if_cases,
  Text, codes, All, list_eq, none, some, map,
}
use paperless_webdav.Provider.Documents.{PaperlessDocument}
use paperless_webdav.Provider.Folders.{ShareView}
use paperless_webdav.Opds.Requests.{page_of}
use paperless_webdav.Opds.Entries.{Entry, entry_of}
use paperless_webdav.Opds.Feeds.Links.{next_href, last_value, page_at}
use paperless_webdav.Opds.Feeds.{Listing, paging_links, acquisition_feed}

-- A link leads to another page, of those that there are.
abbrev pub LeadsOn : ℕ → ℕ → Text × ℕ → Type 0
LeadsOn page pages (rel, target) = (1 ≤ target) × (target ≤ pages) × (target ≢ page)

module _ (page pages : ℕ) where
  All-both :
      (P : Text × ℕ → Type 0) (back forth : List (Text × ℕ))
      → All P back
      → All P forth
      → All P (back ++ forth)
  All-both P [] forth b f = f
  All-both P (link ∷ back) forth b f = (b.0, All-both P back forth b.1 f)

  -- The links of a page that exists lead to other pages that exist: a client that follows them finds no
  -- page that is empty, and none that it comes from.
  pub paging_links-LeadsOn :
      1 ≤ page → page ≤ pages → All (LeadsOn page pages) (paging_links page pages)
  unfolding paging_links
  paging_links-LeadsOn low high =
      All-both (LeadsOn page pages) _ _
        (if_cases (All (LeadsOn page pages)) (ltb 1 page)
          ((codes "first", 1) ∷ (codes "previous", page - 1) ∷ []) [] (λ e. back (ltb→lt 1 page e))
          (λ _. tt))
        (if_cases (All (LeadsOn page pages)) (ltb page pages)
          ((codes "next", page + 1) ∷ (codes "last", pages) ∷ []) []
          (λ e. forth (ltb→lt page pages e)) (λ _. tt))
    where
      back :
          1 < page
          → All (LeadsOn page pages) ((codes "first", 1) ∷ (codes "previous", page - 1) ∷ [])
      back h =
          ((omega arith, omega arith, omega arith), ((omega arith, omega arith, omega arith), tt))

      forth :
          page < pages
          → All (LeadsOn page pages) ((codes "next", page + 1) ∷ (codes "last", pages) ∷ [])
      forth h =
          ((omega arith, omega arith, omega arith), ((omega arith, omega arith, omega arith), tt))

module _ (now : Text) (size : ℕ) (v : ShareView) (l : Listing)
    (documents : List PaperlessDocument) where
  -- A client reads the feed of a page, and goes on by the address of its link to the next one, on
  -- fuel.
  unfoldable pub crawl : ℕ → ℕ → List Entry
  unfolding acquisition_feed next_href last_value page_of
  crawl zero page = []
  crawl (suc fuel) page =
      let feed = acquisition_feed now size v l documents page in
      feed.entries
      ++ (elim (next_href feed.links) [ none ↦ [] | some href ↦ crawl fuel (page_at href) ])

  abbrev entries : List PaperlessDocument → List Entry
  entries = map (entry_of v)
