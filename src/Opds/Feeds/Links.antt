-- ===== src/Opds/Feeds/Links.antt =====
-- What a client reads in an acquisition feed of src/paperless_webdav/opds.py: the address of the next
-- page, and the page that the server reads in it.
use paperless_webdav.Base.{
  ℕ, ◌+◌, ◌<◌, ◌≡◌, ◌≢◌, refl, sym, ◌∙◌, inl, inr, List, [], ◌∷◌, ◌++◌, length, if◌then◌else◌, ◌==◌,
  nat_eq, ltb, lt→ltb, arith, Bool-cases, if_cases, Text, codes, append-nil, list_eq, none, some,
  if_map, ℕ_discrete, Option, map, append_assoc, In, In-decimal, is_digits-decimal, to_int-decimal,
  decimal,
}
use paperless_webdav.Provider.Documents.{PaperlessDocument}
use paperless_webdav.Provider.Folders.{ShareView}
use paperless_webdav.Opds.Requests.{page_of}
use paperless_webdav.Opds.Entries.{Link, base_of}
use paperless_webdav.Opds.Feeds.{
  Listing, facets, facet_link, page_href, page_link, page_count, paging_links, page_feed,
  acquisition_feed,
}

-- A client's reading of a feed: the address of its link to the next page.
unfoldable pub next_href : List Link → Option Text
next_href [] = none
next_href (link ∷ links) =
    let rest = next_href links in if link.rel == codes "next" then some link.href else rest

-- The text behind the last equals sign of an address.
unfoldable pub last_value : Text → Text → Text
last_value acc [] = acc
last_value acc (c ∷ t) = if c == b'=' then last_value [] t else last_value (acc ++ (c ∷ [])) t

-- The page that the server takes from that value of an address.
abbrev pub page_at : Text → ℕ
page_at href = page_of (some (last_value [] href ∷ []))

next_href-append :
    (s t : List Link)
    → next_href (s ++ t) ≡ (elim (next_href s) [ none ↦ next_href t | some href ↦ some href ])
unfolding next_href
next_href-append [] t = refl
next_href-append (link ∷ s) t = ground (arith, next_href-append s t)

no_next_facet :
    (active : Text) (fs : List (Text × Text × ℕ)) → next_href (map (facet_link active) fs) ≡ none
unfolding next_href list_eq nat_eq ℕ_discrete
no_next_facet active [] = refl
no_next_facet active ((title, href, count) ∷ fs) = no_next_facet active fs

next_paging :
    (href : ℕ → Text) (page pages : ℕ)
    → next_href (map (page_link href) (paging_links page pages))
      ≡ (if ltb page pages then some (href (page + 1)) else none)
unfolding next_href paging_links list_eq nat_eq ℕ_discrete
next_paging href page pages = elim (Bool-cases (ltb 1 page)) [
  | inl e ↦ rw e (
      if_map (λ ls. next_href (map (page_link href) ls)) (ltb page pages) _ _ _ _ (λ _. refl)
        (λ _. refl))
  | inr e ↦ rw e (
      if_map (λ ls. next_href (map (page_link href) ls)) (ltb page pages) _ _ _ _ (λ _. refl)
        (λ _. refl))
]

last_value-none : (acc d : Text) → ¬ In b'=' d → last_value acc d ≡ acc ++ d
unfolding last_value
last_value-none acc [] absent = sym (append-nil acc)
last_value-none acc (c ∷ d) absent =
    let differs : c ≢ b'=' = λ e. absent (inl (sym e)) in
    let rest = last_value-none (acc ++ (c ∷ [])) d (λ m. absent (inr m)) in
    ground (arith, rest, append_assoc acc (c ∷ []) d)

-- Whatever stands before the text, its last value is `d`.
abbrev Ends : Text → Text → Type 0
Ends d t = (acc : Text) → last_value acc t ≡ d

Ends-value : (d : Text) → ¬ In b'=' d → Ends d (b'=' ∷ d)
unfolding last_value nat_eq ℕ_discrete
Ends-value d absent acc = last_value-none [] d absent

Ends-append : (d s t : Text) → Ends d t → Ends d (s ++ t)
unfolding last_value
Ends-append d [] t h acc = h acc
Ends-append d (c ∷ s) t h acc =
    if_cases (λ x. x ≡ d) (c == b'=') _ _ (λ _. Ends-append d s t h [])
      (λ _. Ends-append d s t h (acc ++ (c ∷ [])))

-- A query that is not empty follows a question mark.
Ends-query :
    (d extra : Text)
    → Ends d (extra ++ (codes "page=" ++ d))
    → Ends d (
        if extra ++ (codes "page=" ++ d) == []
        then []
        else codes "?" ++ (extra ++ (codes "page=" ++ d)))
unfolding list_eq
Ends-query d [] h = Ends-append d (codes "?") (codes "page=" ++ d) h
Ends-query d (c ∷ extra) h = Ends-append d (codes "?") (c ∷ (extra ++ (codes "page=" ++ d))) h

Ends-page_href :
    (base path extra : Text) (page : ℕ)
    → 1 < page
    → Ends (decimal page) (page_href base path extra page)
unfolding page_href
Ends-page_href base path extra page h = rw (lt→ltb 1 page h) (
    Ends-append d base _
      (Ends-append d (codes "/") _ (Ends-append d path _ (Ends-query d joined numbered))))
  where
    d : Text
    d = decimal page

    joined : Text
    joined = if extra == [] then [] else extra ++ codes "&"

    numbered : Ends d (joined ++ (codes "page=" ++ d))
    numbered = Ends-append d joined (codes "page=" ++ d) (
        Ends-append d (codes "page") (b'=' ∷ d)
          (Ends-value d (λ m. let digit = In-decimal page b'=' m in omega (arith, digit))))

pub page_at-page_href :
    (base path extra : Text) (page : ℕ) → 1 < page → page_at (page_href base path extra page) ≡ page
unfolding page_of
page_at-page_href base path extra page h =
    rw (Ends-page_href base path extra page h [])
      (rw (is_digits-decimal page, to_int-decimal page) (ground arith))

-- The feed of a page has one link to the next page, where there is one, with the address of that page.
pub next_href-acquisition_feed :
    (now : Text) (size : ℕ) (v : ShareView) (l : Listing) (documents : List PaperlessDocument)
    (page : ℕ)
    → next_href (acquisition_feed now size v l documents page).links ≡ (
        if ltb page (page_count size (length documents))
        then some (page_href (base_of v) l.path l.extra_query (page + 1))
        else none)
unfolding acquisition_feed page_feed next_href list_eq nat_eq ℕ_discrete
next_href-acquisition_feed now size v l documents page =
    next_href-append (map (page_link href) (paging_links page (page_count size (length documents))))
      (map (facet_link (base_of v ++ (codes "/" ++ l.path))) (facets v))
    ∙ rw (next_paging href page (page_count size (length documents)))
        (elim (Bool-cases (ltb page (page_count size (length documents)))) [
          | inl e ↦ rw e refl
          | inr e ↦ rw e (no_next_facet (base_of v ++ (codes "/" ++ l.path)) (facets v))
        ])
  where
    href : ℕ → Text
    href = page_href (base_of v) l.path l.extra_query
