-- ===== src/Services/Shares/Creation.antt =====
-- What `create_share` makes of the tables, on every branch.
use mathlib.Core.Path.{subst}
use paperless_webdav.Base.{
  ℕ, ◌≡◌, refl, sym, ◌⊎◌, inl, inr, true, false, some, [], ◌∷◌, ◌++◌, ◌==◌, nat_eq, list_eq,
  option_eq, arith, In, any, any-In, find_key, In-append_left, In-append_last, In-of_find,
  any_of_In, if_cases, Text,
}
use paperless_webdav.Outcome.{Outcome, ok, raise, value_error, integrity_error}
use paperless_webdav.Services.Shares.{
  User, ShareRow, Database, get_share_by_name, matches_share_name, ShareCreate, new_share,
  get_or_create_user, insert_share, add_share, create_share,
}
use paperless_webdav.Services.Shares.Consistency.{
  IsConsistent, IsNewUser, IsNewShare, Got, get_or_create_user-Got, creates, change-IsConsistent,
  external_id,
}
use paperless_webdav.Services.Shares.Access.{
  CanAccess, get_share_by_name_iff, user_of_owner, owner_of_user,
}

-- Some share has the name, whoever can see it.
abbrev pub IsTaken : Text → Database → Type 0
IsTaken name db = (other : ShareRow) × In other db.shares × (other.name ≡ name)

abbrev pub CreateTells : ℕ → Text → ShareCreate → Database → Outcome ShareRow × Database → Type 0
CreateTells new_id username share_data db (ok share, db') =
    (matches_share_name share_data.name ≡ true)
    × ¬ IsTaken share_data.name db
    × (share ≡ new_share new_id share.owner_id share_data)
    × (get_share_by_name db' share_data.name username ≡ some share)
    × ((n v : Text) (other : ShareRow)
        → get_share_by_name db n v ≡ some other
        → get_share_by_name db' n v ≡ some other)
CreateTells new_id username share_data db (raise e, db') =
    (((e ≡ value_error) × (matches_share_name share_data.name ≡ false))
      ⊎ ((e ≡ integrity_error) × IsTaken share_data.name db))
    × (db'.shares ≡ db.shares)

module _ (new_user_id new_id : ℕ) (username : Text) (share_data : ShareCreate) (db : Database)
    (c : IsConsistent db) (new : IsNewUser new_user_id db) (free : IsNewShare new_id db) where
  abbrev owner : User
  owner = (get_or_create_user new_user_id username db).0

  abbrev with_owner : Database
  with_owner = (get_or_create_user new_user_id username db).1

  abbrev added : ShareRow
  added = new_share new_id owner.id share_data

  abbrev with_share : Database
  with_share = record with_owner { shares = with_owner.shares ++ (added ∷ []) }

  got : Got username db owner with_owner
  got = get_or_create_user-Got new_user_id username db c new

  still_there : (other : ShareRow) → In other db.shares → In other with_share.shares
  still_there other m =
      In-append_left other with_owner.shares (added ∷ []) (subst (In other) (sym got.same_shares) m)

  module _ (c' : IsConsistent with_share) where
    finds_added : get_share_by_name with_share share_data.name username ≡ some added
    finds_added = (get_share_by_name_iff with_share c' username share_data.name added).1 (
      In-append_last added with_owner.shares,
      refl,
      inl (
          owner_of_user with_share c' username added owner
            (find_key external_id username owner with_owner.users c'.external_ids got.present
              got.named)
            refl),
    )

    still_owner :
        (v : Text) (other : ShareRow)
        → In other db.shares
        → CanAccess db v other
        → CanAccess with_share v other
    still_owner v other m (inr listed) = inr listed
    still_owner v other m (inl owns) =
        let (user, found, e) = user_of_owner db c v other m owns in
        let (k, named) = In-of_find (λ user. user.external_id == v) user db.users found in
        inl (
          owner_of_user with_share c' v other user
            (find_key external_id v user with_owner.users c'.external_ids (got.kept user k)
              (ground (arith, named)))
            e)

    finds_old :
        (n v : Text) (other : ShareRow)
        → get_share_by_name db n v ≡ some other
        → get_share_by_name with_share n v ≡ some other
    finds_old n v other h =
        let (m, named, can) = (get_share_by_name_iff db c v n other).0 h in
        (get_share_by_name_iff with_share c' v n other).1
          (still_there other m, named, still_owner v other m can)

  taken : any (λ o. o.name == share_data.name) with_owner.shares ≡ true → IsTaken share_data.name db
  taken e =
      let (other, m, k) = any-In (λ o. o.name == share_data.name) with_owner.shares e in
      (other, subst (In other) got.same_shares m, ground (arith, k))

  not-IsTaken :
      any (λ o. o.name == share_data.name) with_owner.shares ≡ false → ¬ IsTaken share_data.name db
  not-IsTaken e (other, m, named) =
      let hit : (other.name == share_data.name) ≡ true = ground (arith, named) in
      let hits =
        any_of_In (λ o. o.name == share_data.name) other with_owner.shares
          (subst (In other) (sym got.same_shares) m) hit in
      cc

  insert_share-CreateTells :
      matches_share_name share_data.name ≡ true
      → (IsConsistent (insert_share added with_owner).1)
      → CreateTells new_id username share_data db (insert_share added with_owner)
  unfolding insert_share
  insert_share-CreateTells valid =
      if_cases (λ r. IsConsistent r.1 → CreateTells new_id username share_data db r)
        (any (λ o. o.name == share_data.name) with_owner.shares) (raise integrity_error, with_owner)
        (ok added, with_share) (λ e c'. (inr (refl, taken e), got.same_shares))
        (λ e c'. (valid, not-IsTaken e, refl, finds_added c', finds_old c'))

  add_share-CreateTells :
      IsConsistent (add_share added with_owner).1
      → CreateTells new_id username share_data db (add_share added with_owner)
  unfolding add_share
  add_share-CreateTells =
      if_cases (λ r. IsConsistent r.1 → CreateTells new_id username share_data db r)
        (matches_share_name share_data.name) (insert_share added with_owner)
        (raise value_error, with_owner) (λ e. insert_share-CreateTells e)
        (λ e c'. (inl (refl, e), got.same_shares))

  -- `create_share` refuses a name of the wrong form with ValueError, and a name that any share has with
  -- an integrity error: then the shares are as they were. Otherwise the new share has the data of the
  -- request, its creator finds it by its name, and whoever found a share before still finds it.
  pub create_share-CreateTells :
      CreateTells new_id username share_data db
        (create_share new_user_id new_id username share_data db)
  unfolding create_share
  create_share-CreateTells =
      add_share-CreateTells
        (change-IsConsistent (creates new_user_id new_id username share_data) db c (new, free))
