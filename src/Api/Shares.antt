-- ===== src/Api/Shares.antt =====
-- The share endpoints of src/paperless_webdav/api/shares.py, and the validation of a request by
-- `ShareCreate` of src/paperless_webdav/schemas.py. `username` is that of the current user; the audit
-- log, which only logs, is left out.
pub mod Conflicts
pub mod Updates
use paperless_webdav.Base.{
  ℕ, ◌≡◌, Bool, true, false, ◌||◌, ◌&&◌, not, Option, none, some, List, [], ◌∷◌, if◌then◌else◌, Eq,
  ◌==◌, nat_eq, length, leb, Text,
}
use paperless_webdav.Outcome.{Outcome, ok, raise, value_error, http_exception, http_forbidden}
use paperless_webdav.Services.Shares.{
  ShareRow, Database, ShareCreate, ShareUpdate, matches_share_name, get_user_shares,
  get_share_by_name, is_share_owner, create_share, update_share, delete_share,
}

abbrev pub http_not_found : ℕ
http_not_found = 404

abbrev pub http_conflict : ℕ
http_conflict = 409

-- The body of a request for a new share, where a missing list of tags takes the default.
pub record ShareRequest : Type 0 where
  pub name : Text
  pub include_tags : Option (List Text)
  pub exclude_tags : List Text
  pub expires_at : Option ℕ
  pub done_folder_enabled : Bool
  pub done_folder_name : Text
  pub done_tag : Option Text
  pub allowed_users : List Text

-- `min_length=1` is tested where the list is given; a default is not validated.
abbrev pub tags_valid : Option (List Text) → Bool
tags_valid none = true
tags_valid (some []) = false
tags_valid (some (tag ∷ tags)) = true

abbrev pub tags_or_default : Option (List Text) → List Text
tags_or_default none = []
tags_or_default (some tags) = tags

-- `not self.done_tag`
abbrev pub is_unset : Option Text → Bool
is_unset none = true
is_unset (some []) = true
is_unset (some (c ∷ t)) = false

-- `ShareCreate(...)`, with `validate_name` and `validate_done_folder`
unfoldable pub validate_share_create : ShareRequest → Outcome ShareCreate
unfolding matches_share_name
validate_share_create r =
    if (leb 1 (length r.name) && leb (length r.name) 63)
      && (matches_share_name r.name
          && (tags_valid r.include_tags && not (r.done_folder_enabled && is_unset r.done_tag)))
    then ok (record {
      name = r.name;
      include_tags = tags_or_default r.include_tags;
      exclude_tags = r.exclude_tags;
      expires_at = r.expires_at;
      done_folder_enabled = r.done_folder_enabled;
      done_folder_name = r.done_folder_name;
      done_tag = r.done_tag;
      allowed_users = r.allowed_users;
    })
    else raise value_error

unfoldable pub list_shares : Text → Database → List ShareRow
unfolding get_user_shares
list_shares username db = get_user_shares db username

create_unless :
    ℕ → ℕ → Text → ShareCreate → Database → Option ShareRow → Outcome ShareRow × Database
unfolding create_share
create_unless new_user_id new_id username share_data db (some existing) =
    (raise (http_exception http_conflict), db)
create_unless new_user_id new_id username share_data db none =
    create_share new_user_id new_id username share_data db

unfoldable pub create_share_endpoint :
    ℕ → ℕ → Text → ShareCreate → Database → Outcome ShareRow × Database
unfolding create_unless get_share_by_name
create_share_endpoint new_user_id new_id username share_data db =
    create_unless new_user_id new_id username share_data db
      (get_share_by_name db share_data.name username)

abbrev pub or_not_found : Option ShareRow → Outcome ShareRow
or_not_found none = raise (http_exception http_not_found)
or_not_found (some share) = ok share

unfoldable pub get_share : Text → Text → Database → Outcome ShareRow
unfolding get_share_by_name
get_share name username db = or_not_found (get_share_by_name db name username)

unfoldable pub answer_updated : Option ShareRow × Database → Outcome (Option ShareRow) × Database
answer_updated (share, db) = (ok share, db)

unfoldable pub update_found :
    Text → ShareUpdate → Database → Option ShareRow → Outcome (Option ShareRow) × Database
unfolding answer_updated update_share is_share_owner
update_found username share_data db none = (raise (http_exception http_not_found), db)
update_found username share_data db (some share) =
    if is_share_owner db share username
    then answer_updated (update_share share.id share_data db)
    else (raise (http_exception http_forbidden), db)

unfoldable pub update_share_endpoint :
    Text → Text → ShareUpdate → Database → Outcome (Option ShareRow) × Database
unfolding update_found get_share_by_name
update_share_endpoint name username share_data db =
    update_found username share_data db (get_share_by_name db name username)

answer_deleted : Bool × Database → Outcome (Unit {0}) × Database
answer_deleted (deleted, db) =
    (if deleted then ok tt else raise (http_exception http_not_found), db)

unfoldable pub delete_share_endpoint : Text → Text → Database → Outcome (Unit {0}) × Database
unfolding answer_deleted delete_share
delete_share_endpoint name username db = answer_deleted (delete_share name username db)
