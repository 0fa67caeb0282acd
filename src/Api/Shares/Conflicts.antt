-- ===== src/Api/Shares/Conflicts.antt =====
-- A request for a new share whose name is taken.
use paperless_webdav.Base.{ℕ, ◌≡◌, refl, ◌⊎◌, inl, inr, true, Option, none, some, Text}
use paperless_webdav.Outcome.{Outcome, ok, raise, integrity_error, http_exception}
use paperless_webdav.Services.Shares.{
  ShareRow, Database, ShareCreate, matches_share_name, get_share_by_name, create_share,
}
use paperless_webdav.Services.Shares.Consistency.{IsConsistent, IsNewUser, IsNewShare}
use paperless_webdav.Services.Shares.Creation.{IsTaken, CreateTells, create_share-CreateTells}
use paperless_webdav.Api.Shares.{http_conflict, create_unless, create_share_endpoint}

-- Refused, in the words of the endpoint or with the error of the database.
abbrev pub RefusedAs : Text → Text → Database → Outcome ShareRow × Database → Type 0
RefusedAs name username db (ok share, db') = ⊥
RefusedAs name username db (raise e, db') =
    (db'.shares ≡ db.shares)
    × (((e ≡ http_exception http_conflict)
          × ((share : ShareRow) × (get_share_by_name db name username ≡ some share)))
        ⊎ ((e ≡ integrity_error) × (get_share_by_name db name username ≡ none)))

module _ (new_user_id new_id : ℕ) (username : Text) (share_data : ShareCreate) (db : Database)
    (c : IsConsistent db) (new : IsNewUser new_user_id db) (free : IsNewShare new_id db)
    (valid : matches_share_name share_data.name ≡ true) (taken : IsTaken share_data.name db) where
  created-RefusedAs :
      (r : Outcome ShareRow × Database)
      → CreateTells new_id username share_data db r
      → get_share_by_name db share_data.name username ≡ none
      → RefusedAs share_data.name username db r
  created-RefusedAs (ok share, db') tells hidden = tells.1 taken
  created-RefusedAs (raise e, db') (inl (is_value, invalid), same) hidden = cc
  created-RefusedAs (raise e, db') (inr (is_integrity, t), same) hidden =
      (same, inr (is_integrity, hidden))

  create_unless-RefusedAs :
      (existing : Option ShareRow)
      → get_share_by_name db share_data.name username ≡ existing
      → RefusedAs share_data.name username db
          (create_unless new_user_id new_id username share_data db existing)
  unfolding create_unless
  create_unless-RefusedAs (some share) found = (refl, inl (refl, (share, found)))
  create_unless-RefusedAs none hidden =
      created-RefusedAs (create_share new_user_id new_id username share_data db)
        (create_share-CreateTells new_user_id new_id username share_data db c new free) hidden

  -- A valid name that a share has already is refused, and no share changes. It is answered with 409
  -- exactly where the user can access that share; for a share of another user, that the user cannot
  -- access, the integrity error of the database is let through instead.
  pub create_share_endpoint-RefusedAs :
      RefusedAs share_data.name username db
        (create_share_endpoint new_user_id new_id username share_data db)
  unfolding create_share_endpoint
  create_share_endpoint-RefusedAs =
      create_unless-RefusedAs (get_share_by_name db share_data.name username) refl
