-- ===== src/Services/Shares/Access.antt =====
-- Who can see which share: the two queries of the service agree.
use paperless_webdav.Base.{
  ◌≡◌, ◌↔◌, refl, sym, ap, ◌∙◌, ◌⊎◌, inl, inr, true, Option, none, some, nat_eq, list_eq, option_eq,
  arith, In, In-select, In-of_select, contains, contains_iff, In-of_find, find_key, Bool-cases,
  Text,
}
use paperless_webdav.Services.Shares.{
  User, ShareRow, Database, user_by_external_id, share_by_name, is_share_owner, select_shares,
  if_accessible, get_user_shares, get_share_by_name,
}
use paperless_webdav.Services.Shares.Consistency.{IsConsistent, user_id, external_id, share_name}

-- The user owns the share, or is in its list.
abbrev pub CanAccess : Database → Text → ShareRow → Type 0
CanAccess db username share =
    (is_share_owner db share username ≡ true) ⊎ In username share.allowed_users

module _ (db : Database) (c : IsConsistent db) (username : Text) where
  -- The user with a name owns the share exactly when the owner has the name.
  pub owner_of_user :
      (share : ShareRow) (user : User)
      → user_by_external_id username db ≡ some user
      → share.owner_id ≡ user.id
      → is_share_owner db share username ≡ true
  unfolding is_share_owner
  owner_of_user share user found owns =
      let (m, k) = In-of_find _ user db.users found in
      let by_id = find_key user_id share.owner_id user db.users c.user_ids m (sym owns) in
      ground (arith, by_id, k)

  pub user_of_owner :
      (share : ShareRow)
      → In share db.shares
      → is_share_owner db share username ≡ true
      → (user : User) × (user_by_external_id username db ≡ some user) × (share.owner_id ≡ user.id)
  unfolding is_share_owner
  user_of_owner share m owns =
      let (user, k, e) = c.owned share m in
      let by_id = find_key user_id share.owner_id user db.users c.user_ids k (sym e) in
      let named : user.external_id ≡ username = ground (arith, by_id, owns) in
      (user, find_key external_id username user db.users c.external_ids k named, e)

  select_shares-CanAccess :
      (share : ShareRow) (found : Option User)
      → user_by_external_id username db ≡ found
      → In share (select_shares db.shares username found)
      → In share db.shares × CanAccess db username share
  unfolding select_shares
  select_shares-CanAccess share none found m =
      let (m', k) = In-of_select _ share db.shares m in
      (m', inr ((contains_iff username share.allowed_users).0 k))
  select_shares-CanAccess share (some user) found m =
      let (m', k) = In-of_select _ share db.shares m in
      (
        m',
        elim (Bool-cases (contains username share.allowed_users)) [
          | inl listed ↦ inr ((contains_iff username share.allowed_users).0 listed)
          | inr other ↦ inl (owner_of_user share user found (ground (arith, k, other)))
        ],
      )

  CanAccess-select_shares :
      (share : ShareRow) (found : Option User)
      → user_by_external_id username db ≡ found
      → In share db.shares
      → CanAccess db username share
      → In share (select_shares db.shares username found)
  unfolding select_shares
  CanAccess-select_shares share none found m (inl owns) =
      let (user, named, e) = user_of_owner share m owns in cc
  CanAccess-select_shares share none found m (inr listed) =
      In-select _ share db.shares m ((contains_iff username share.allowed_users).1 listed)
  CanAccess-select_shares share (some user) found m (inl owns) =
      let (other, named, e) = user_of_owner share m owns in
      In-select _ share db.shares m (ground (arith, named, found, e))
  CanAccess-select_shares share (some user) found m (inr listed) =
      In-select _ share db.shares m
        (ground (arith, (contains_iff username share.allowed_users).1 listed))

  if_accessible-CanAccess :
      (share : ShareRow) (found : Option ShareRow)
      → if_accessible db username found ≡ some share
      → (found ≡ some share) × CanAccess db username share
  unfolding if_accessible
  if_accessible-CanAccess share none h = cc
  if_accessible-CanAccess share (some other) h =
      ground (arith, contains_iff username share.allowed_users)

  CanAccess-if_accessible :
      (share : ShareRow)
      → CanAccess db username share
      → if_accessible db username (some share) ≡ some share
  unfolding if_accessible
  CanAccess-if_accessible share (inl owns) = rw owns refl
  CanAccess-if_accessible share (inr listed) =
      ground (arith, (contains_iff username share.allowed_users).1 listed)

  -- `get_share_by_name` answers with a share exactly when it is the share of that name, in the table,
  -- and the user owns it or is in its list.
  pub get_share_by_name_iff :
      (name : Text) (share : ShareRow)
      → (get_share_by_name db name username ≡ some share)
        ↔ (In share db.shares × (share.name ≡ name) × CanAccess db username share)
  unfolding get_share_by_name
  get_share_by_name_iff name share = (
    λ h.
        let (found, can) = if_accessible-CanAccess share (share_by_name name db) h in
        let (m, named) = In-of_find _ share db.shares found in (m, ground (arith, named), can),
    λ (m, named, can).
        ap (if_accessible db username) (find_key share_name name share db.shares c.names m named)
        ∙ CanAccess-if_accessible share can,
  )

  -- A user finds a share by its name exactly when it is among the shares that are listed for the user
  -- and has that name, however the two queries look the owner up.
  pub get_share_by_name-get_user_shares :
      (name : Text) (share : ShareRow)
      → (get_share_by_name db name username ≡ some share)
        ↔ (In share (get_user_shares db username) × (share.name ≡ name))
  unfolding get_user_shares
  get_share_by_name-get_user_shares name share = (
    λ h.
        let (m, named, can) = (get_share_by_name_iff name share).0 h in
        (CanAccess-select_shares share (user_by_external_id username db) refl m can, named),
    λ (listed, named).
        let (m, can) =
          select_shares-CanAccess share (user_by_external_id username db) refl listed in
        (get_share_by_name_iff name share).1 (m, named, can),
  )
