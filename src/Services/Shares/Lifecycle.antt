-- ===== src/Services/Shares/Lifecycle.antt =====
-- What the creation and the deletion of a share make of the queries.
use paperless_webdav.Base.{
  ◌≡◌, ◌≢◌, refl, sym, ap, ◌∙◌, inl, inr, Bool, true, false, not, Option, none, some, ◌==◌, nat_eq,
  list_eq, option_eq, arith, In, select, In-of_find, In-of_select, find-select, find-absent,
  Distinct-same, if_cases, Bool-cases, Text,
}
use paperless_webdav.Services.Shares.{
  User, ShareRow, Database, user_by_external_id, share_by_name, is_share_owner, if_accessible,
  get_share_by_name, delete_owned, delete_as, delete_share,
}
use paperless_webdav.Services.Shares.Consistency.{IsConsistent, share_id, share_name}
use paperless_webdav.Services.Shares.Access.{user_of_owner, owner_of_user}

-- Only the owner's share goes; every other query answers as before.
abbrev pub DeleteTells : Text → Text → Database → Bool × Database → Type 0
DeleteTells name username db (false, db') =
    (db' ≡ db)
    × ((share : ShareRow)
        → share_by_name name db ≡ some share
        → is_share_owner db share username ≡ false)
DeleteTells name username db (true, db') =
    (share : ShareRow) × (share_by_name name db ≡ some share)
    × (is_share_owner db share username ≡ true)
    × ((v : Text) → get_share_by_name db' name v ≡ none)
    × ((n v : Text) → n ≢ name → get_share_by_name db' n v ≡ get_share_by_name db n v)

module _ (name username : Text) (db : Database) (c : IsConsistent db) where
  abbrev without : ShareRow → Database
  without share = record db { shares = select (λ other. not (other.id == share.id)) db.shares }

  module _ (share : ShareRow) (found : share_by_name name db ≡ some share) where
    abbrev stays : ShareRow → Bool
    stays other = not (other.id == share.id)

    is_deleted : (other : ShareRow) → In other db.shares → stays other ≡ false → other ≡ share
    is_deleted other m gone =
        Distinct-same share_id other share db.shares c.share_ids m
          (In-of_find _ share db.shares found).0 (ground (arith, gone))

    name_gone : share_by_name name (without share) ≡ none
    name_gone = find-absent _ (select stays db.shares) (λ other m.
        let (m', kept) = In-of_select stays other db.shares m in
        elim (Bool-cases (other.name == name)) [
          | inr e ↦ e
          | inl e ↦ absurd (still other m' kept (ground (arith, e)))
        ])
      where
        still : (other : ShareRow) → In other db.shares → stays other ≡ true → other.name ≡ name → ⊥
        still other m kept named =
            let (m', k) = In-of_find _ share db.shares found in
            let same : other ≡ share =
              Distinct-same share_name other share db.shares c.names m m'
                (ground (arith, k, named)) in
            ground (arith, kept, ap share_id same)

    other_names : (n : Text) → n ≢ name → share_by_name n (without share) ≡ share_by_name n db
    other_names n differs = find-select _ stays db.shares (λ other m named.
        elim (Bool-cases (stays other)) [
          | inl e ↦ e
          | inr e ↦ absurd (elsewhere other (is_deleted other m e) named)
        ])
      where
        elsewhere : (other : ShareRow) → other ≡ share → (other.name == n) ≡ true → ⊥
        elsewhere other same named =
            let k = (In-of_find _ share db.shares found).1 in
            differs (ground (arith, k, named, ap share_name same))

    deleted-DeleteTells :
        is_share_owner db share username ≡ true → DeleteTells name username db (true, without share)
    unfolding get_share_by_name if_accessible is_share_owner
    deleted-DeleteTells owns = (
      share,
      found,
      owns,
      λ v. ap (if_accessible db v) name_gone,
      λ n v differs. ap (if_accessible db v) (other_names n differs),
    )

  kept-DeleteTells :
      (found : Option User)
      → user_by_external_id username db ≡ found
      → ((share : ShareRow) (user : User)
          → share_by_name name db ≡ some share
          → found ≡ some user
          → share.owner_id ≢ user.id)
      → DeleteTells name username db (false, db)
  kept-DeleteTells found named foreign = (
    refl,
    λ share e. elim (Bool-cases (is_share_owner db share username)) [
      | inr other ↦ other
      | inl owns ↦
          let (user, found', o) =
            user_of_owner db c username share (In-of_find _ share db.shares e).0 owns in
          absurd (foreign share user e (sym named ∙ found') o)
    ],
  )

  delete_owned-DeleteTells :
      (user : User)
      → user_by_external_id username db ≡ some user
      → (found : Option ShareRow) → share_by_name name db ≡ found
      → DeleteTells name username db (delete_owned user.id found db)
  unfolding delete_owned
  delete_owned-DeleteTells user named none missing =
      kept-DeleteTells (some user) named (λ share user' e f. cc)
  delete_owned-DeleteTells user named (some share) found =
      if_cases (DeleteTells name username db) (share.owner_id == user.id) (true, without share)
        (false, db)
        (λ e.
          deleted-DeleteTells share found
            (owner_of_user db c username share user named (ground (arith, e))))
        (λ e.
          kept-DeleteTells (some user) named (λ share' user' f g o. foreign share' user' f g o e))
    where
      foreign :
          (share' : ShareRow) (user' : User)
          → share_by_name name db ≡ some share'
          → some user ≡ some user'
          → share'.owner_id ≡ user'.id
          → (share.owner_id == user.id) ≡ false
          → ⊥
      foreign share' user' f g o e =
          let same : some share ≡ some share' = sym found ∙ f in ground (arith, same, g, o, e)

  delete_as-DeleteTells :
      (found : Option User)
      → user_by_external_id username db ≡ found
      → DeleteTells name username db (delete_as name db found)
  unfolding delete_as
  delete_as-DeleteTells none named = kept-DeleteTells none named (λ share user e f. cc)
  delete_as-DeleteTells (some user) named =
      delete_owned-DeleteTells user named (share_by_name name db) refl

  -- `delete_share` succeeds only for the owner of the share of that name: then no user finds the share
  -- any more, and every query for another name answers as before. Otherwise it changes nothing, and
  -- the user owns no share of that name.
  pub delete_share-DeleteTells : DeleteTells name username db (delete_share name username db)
  unfolding delete_share
  delete_share-DeleteTells = delete_as-DeleteTells (user_by_external_id username db) refl
