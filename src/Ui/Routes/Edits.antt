-- ===== src/Ui/Routes/Edits.antt =====
-- The form that edits a share, beside the endpoint that updates it.
use paperless_webdav.Base.{
  ◌≡◌, ap, ◌∙◌, sym, true, false, some, nat_eq, list_eq, option_eq, arith, Text,
}
use paperless_webdav.Outcome.{raise, http_exception, http_forbidden}
use paperless_webdav.Services.Shares.{
  ShareRow, Database, apply_update, share_by_name, get_share_by_name, is_share_owner, update_share,
}
use paperless_webdav.Services.Shares.Consistency.{IsConsistent}
use paperless_webdav.Services.Shares.Access.{get_share_by_name_iff}
use paperless_webdav.Api.Shares.{ShareRequest, update_share_endpoint, update_found, answer_updated}
use paperless_webdav.Api.Shares.Updates.{update_share-finds}
use paperless_webdav.Auth.Paperless.{AuthenticatedUser}
use paperless_webdav.Ui.Routes.{to_shares, share_update, edit_found, edit_share_submit}

module _ (db : Database) (c : IsConsistent db) (name : Text) (user : AuthenticatedUser)
    (share : ShareRow) (form_data : ShareRequest)
    (found : get_share_by_name db name user.username ≡ some share) where
  edit_share_submit-found :
      edit_share_submit name (some user) form_data db
      ≡ (to_shares, (update_share share.id (share_update form_data) db).1)
  unfolding edit_share_submit edit_found
  edit_share_submit-found = ap (λ s. edit_found form_data s db) found

  endpoint_found :
      update_share_endpoint name user.username (share_update form_data) db
      ≡ update_found user.username (share_update form_data) db (some share)
  unfolding update_share_endpoint
  endpoint_found = ap (update_found user.username (share_update form_data) db) found

  -- For the owner of a share, the form changes the database as the endpoint does.
  pub edit_share_submit-owned :
      is_share_owner db share user.username ≡ true
      → (edit_share_submit name (some user) form_data db).1
        ≡ (update_share_endpoint name user.username (share_update form_data) db).1
  unfolding update_found answer_updated
  edit_share_submit-owned owns =
      let updates : update_found user.username (share_update form_data) db (some share)
          ≡ answer_updated (update_share share.id (share_update form_data) db) =
        ground (arith, owns) in
      ap (λ r. r.1) edit_share_submit-found ∙ sym (ap (λ r. r.1) (endpoint_found ∙ updates))

  -- A user who finds a share and is not its owner is refused by the endpoint, which changes nothing;
  -- the form changes the share for the same user, its allowed users included.
  pub edit_share_submit-unowned :
      is_share_owner db share user.username ≡ false
      → (update_share_endpoint name user.username (share_update form_data) db
          ≡ (raise (http_exception http_forbidden), db))
        × (share_by_name name (edit_share_submit name (some user) form_data db).1
            ≡ some (apply_update (share_update form_data) share))
  unfolding update_found
  edit_share_submit-unowned other =
      let (m, named, can) = (get_share_by_name_iff db c user.username name share).0 found in
      (
        endpoint_found ∙ ground (arith, other),
        ap (λ r. share_by_name name r.1) edit_share_submit-found
            ∙ update_share-finds name user.username (share_update form_data) db c share m named,
      )
