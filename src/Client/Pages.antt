-- ===== src/Client/Pages.antt =====
-- The requests of src/paperless_webdav/paperless_client.py that read pages: `_paginated_get`,
-- `get_documents`, `search_documents` and `validate_token`. What an HTTP request comes back with is an
-- argument.
use paperless_webdav.Base.{
  ℕ, zero, suc, ◌≡◌, ap, ◌∙◌, Bool, true, false, ◌&&◌, Option, none, some, List, [], ◌∷◌, ◌++◌,
  append_assoc, append-nil, map, concat, length, if◌then◌else◌, ◌==◌, nat_eq, leb, Dict, Text,
  codes, decimal, sym,
}
use paperless_webdav.Outcome.{Outcome, ok, raise, http_error}
use paperless_webdav.Provider.Documents.{PaperlessDocument}
use paperless_webdav.Provider.Listing.{join_commas}

pub record ResultPage (A : Type 0) : Type 0 where
  pub results : List A
  pub next : Option Text

-- `get url first` is the GET of a page, with the parameters of the query where it is the first.
module _ {A : Type 0} (get : Text → Bool → Outcome (ResultPage A)) where
  -- `while url is not None`, on fuel; none where the fuel does not suffice
  unfoldable pub fetch_pages : ℕ → Option Text → Bool → List A → Option (Outcome (List A))
  fetch_pages fuel none first results = some (ok results)
  fetch_pages zero (some url) first results = none
  fetch_pages (suc fuel) (some url) first results = elim (get url first) [
    | raise e ↦ some (raise e)
    | ok page ↦ fetch_pages fuel page.next false (results ++ page.results)
  ]

  -- `_paginated_get`
  unfoldable pub paginated_get : ℕ → Text → Option (Outcome (List A))
  unfolding fetch_pages
  paginated_get fuel url = fetch_pages fuel (some url) true []

  -- The pages that lead from a link to the last one.
  abbrev pub Leads : Option Text → Bool → List (ResultPage A) → Type 0
  Leads none first [] = Unit
  Leads none first (page ∷ pages) = ⊥
  Leads (some url) first [] = ⊥
  Leads (some url) first (page ∷ pages) = (get url first ≡ ok page) × Leads page.next false pages

  fetch_pages-Leads :
      (pages : List (ResultPage A)) (link : Option Text) (first : Bool) (results : List A)
      → Leads link first pages
      → fetch_pages (length pages) link first results
        ≡ some (ok (results ++ concat (map (λ (page : ResultPage A). page.results) pages)))
  unfolding fetch_pages
  fetch_pages-Leads [] none first results h = ap (λ r. some (ok r)) (sym (append-nil results))
  fetch_pages-Leads [] (some url) first results h = absurd h
  fetch_pages-Leads (page ∷ pages) none first results h = absurd h
  fetch_pages-Leads (page ∷ pages) (some url) first results (e, h) =
      let rest = fetch_pages-Leads pages page.next false (results ++ page.results) h in
      rw e (rest ∙ ap (λ r. some (ok r)) (append_assoc results page.results _))

  -- Where the links lead to a last page, as many requests as there are pages answer the results of
  -- all of them, in order.
  pub paginated_get-Leads :
      (pages : List (ResultPage A)) (url : Text)
      → Leads (some url) true pages
      → paginated_get (length pages) url
        ≡ some (ok (concat (map (λ (page : ResultPage A). page.results) pages)))
  unfolding paginated_get
  paginated_get-Leads pages url h = fetch_pages-Leads pages (some url) true [] h

-- What a request for one page of a search comes back with.
pub record SearchReply : Type 0 where
  pub status : ℕ
  pub results : List PaperlessDocument
  pub count : Option ℕ

-- `response.raise_for_status()`, which takes every status but a success for an error
abbrev pub is_success : ℕ → Bool
is_success status = leb 200 status && leb status 299

abbrev pub count_or : ℕ → Option ℕ → ℕ
count_or otherwise none = otherwise
count_or otherwise (some count) = count

unfoldable pub search_documents : Outcome SearchReply → Outcome (List PaperlessDocument × ℕ)
search_documents (raise e) = raise e
search_documents (ok answer) =
    if answer.status == 404
    then ok ([], 0)
    else if is_success answer.status
    then ok (answer.results, count_or (length answer.results) answer.count)
    else raise http_error

-- The answer to a request for the tags, by its status.
unfoldable pub validate_token : Outcome ℕ → Outcome Bool
validate_token (raise e) = raise e
validate_token (ok status) = ok (if status == 401 then false else is_success status)

-- The filter on tags, where there are ids.
abbrev pub tag_filter : Text → List ℕ → Dict Text Text
tag_filter key [] = []
tag_filter key (id ∷ ids) = (key, join_commas (map decimal (id ∷ ids))) ∷ []

-- `params` of `get_documents`, but for the fields
unfoldable pub document_params : List ℕ → List ℕ → Dict Text Text
unfolding join_commas decimal
document_params include_tag_ids exclude_tag_ids =
    (codes "page_size", codes "200")
    ∷ (tag_filter (codes "tags__id__all") include_tag_ids
        ++ tag_filter (codes "tags__id__none") exclude_tag_ids)
