-- ===== src/Client.antt =====
-- The parts of `PaperlessClient` (src/paperless_webdav/paperless_client.py) that change Paperless, or
-- whose result the provider computes with. `Remote` is what Paperless holds of the tags of its
-- documents; `fetch_fails` and `patch_fails` say whether the two requests raise, and `patch_applied`
-- whether Paperless applied a PATCH that raises, as it may where only its answer was lost.
pub mod Pages
pub mod Stream
pub mod Tags
use paperless_webdav.Base.{
  ℕ, zero, suc, ◌≡◌, Bool, true, false, not, Option, none, some, List, [], ◌∷◌, ◌++◌, select,
  contains, Eq, ◌==◌, if◌then◌else◌, nat_eq, Dict, lookup, insert,
}
use paperless_webdav.Outcome.{Outcome, ok, raise, http_error}

-- The tags of each document that Paperless has.
abbrev pub Remote : Type 0
Remote = Dict ℕ (List ℕ)

pub record Requests : Type 0 where
  pub fetch_fails : Bool
  pub patch_fails : Bool
  pub patch_applied : Bool

-- `_get_document(document_id).get("tags", [])`
unfoldable pub get_tags_of : Requests → ℕ → Remote → Outcome (List ℕ)
get_tags_of req document_id remote =
    if req.fetch_fails
    then raise http_error
    else elim (lookup document_id remote) [ none ↦ raise http_error | some tags ↦ ok tags ]

-- The PATCH of `{"tags": new_tags}`.
unfoldable pub patch_tags : Requests → ℕ → List ℕ → Remote → Outcome (Unit {0}) × Remote
patch_tags req document_id new_tags remote =
    if req.patch_fails
    then (
      raise http_error,
      if req.patch_applied then insert document_id new_tags remote else remote,
    )
    else (ok tt, insert document_id new_tags remote)

add_to : Requests → ℕ → ℕ → Remote → Outcome (List ℕ) → Outcome (Unit {0}) × Remote
add_to req document_id tag_id remote (raise e) = (raise e, remote)
add_to req document_id tag_id remote (ok current_tags) =
    if contains tag_id current_tags
    then (ok tt, remote)
    else patch_tags req document_id (current_tags ++ (tag_id ∷ [])) remote

unfoldable pub add_tag_to_document : Requests → ℕ → ℕ → Remote → Outcome (Unit {0}) × Remote
unfolding get_tags_of patch_tags add_to contains
add_tag_to_document req document_id tag_id remote =
    add_to req document_id tag_id remote (get_tags_of req document_id remote)

-- `[t for t in current_tags if t != tag_id]`
abbrev pub without_tag : ℕ → List ℕ → List ℕ
without_tag tag_id = select (λ t. not (t == tag_id))

remove_from : Requests → ℕ → ℕ → Remote → Outcome (List ℕ) → Outcome (Unit {0}) × Remote
remove_from req document_id tag_id remote (raise e) = (raise e, remote)
remove_from req document_id tag_id remote (ok current_tags) =
    if contains tag_id current_tags
    then patch_tags req document_id (without_tag tag_id current_tags) remote
    else (ok tt, remote)

unfoldable pub remove_tag_from_document : Requests → ℕ → ℕ → Remote → Outcome (Unit {0}) × Remote
unfolding get_tags_of patch_tags remove_from contains select
remove_tag_from_document req document_id tag_id remote =
    remove_from req document_id tag_id remote (get_tags_of req document_id remote)

-- `_served_size_from_metadata`: a missing entry, or one that is no number, is `none`.
abbrev pub positive : Option ℕ → Option ℕ → Option ℕ
positive none otherwise = otherwise
positive (some zero) otherwise = otherwise
positive (some (suc n)) otherwise = some (suc n)

unfoldable pub served_size_from_metadata : Option ℕ → Option ℕ → Option ℕ
served_size_from_metadata archive_size original_size =
    positive archive_size (positive original_size none)
