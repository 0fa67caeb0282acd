-- ===== src/Services/Shares/Consistency.antt =====
-- The unique columns of the tables of users and shares, and the owners of the shares, through every
-- operation of the share service.
use mathlib.Core.Path.{subst}
use paperless_webdav.Base.{
  ℕ, ◌≡◌, ◌≢◌, refl, sym, ap, ◌∙◌, inl, inr, Bool, true, false, Option, none, some, List, [], ◌∷◌,
  ◌++◌, map, ◌==◌, nat_eq, list_eq, arith, In, any, any_of_In, In-of_select, find, Distinct,
  Distinct-add, Distinct-map, Distinct-select, In-of_find, find-none, In-append_left,
  In-append_last, In-of_append, In-map, In-of_map, if_cases, Text,
}
use paperless_webdav.Outcome.{Outcome, ok, raise, value_error, integrity_error}
use paperless_webdav.Services.Encryption.{Crypto, token_encryption, encrypt}
use paperless_webdav.Services.Shares.{
  User, ShareRow, Database, new_user, get_or_create_user, ShareCreate, new_share, insert_share,
  matches_share_name, add_share, create_share, ShareUpdate, apply_update, change_share,
  update_share, delete_owned, delete_as, delete_share, set_token, keep_token, store_user_token,
  user_by_external_id, share_by_name,
}

abbrev pub user_id : User → ℕ
user_id user = user.id

abbrev pub external_id : User → Text
external_id user = user.external_id

abbrev pub share_id : ShareRow → ℕ
share_id share = share.id

abbrev pub share_name : ShareRow → Text
share_name share = share.name

-- The owner of a share is a user.
abbrev pub IsOwned : List User → ShareRow → Type 0
IsOwned users share = (user : User) × In user users × (share.owner_id ≡ user.id)

pub record IsConsistent (db : Database) : Type 0 where
  pub user_ids : Distinct user_id db.users
  pub external_ids : Distinct external_id db.users
  pub share_ids : Distinct share_id db.shares
  pub names : Distinct share_name db.shares
  pub owned : (share : ShareRow) → In share db.shares → IsOwned db.users share

-- No row has the id.
abbrev pub IsNewUser : ℕ → Database → Type 0
IsNewUser new_id db = (user : User) → In user db.users → user.id ≢ new_id

abbrev pub IsNewShare : ℕ → Database → Type 0
IsNewShare new_id db = (share : ShareRow) → In share db.shares → share.id ≢ new_id

-- A user that is got or created is in the table, which has all that it had, and the shares are as
-- they were.
pub record Got (username : Text) (db : Database) (user : User) (db' : Database) : Type 0 where
  pub consistent : IsConsistent db'
  pub present : In user db'.users
  pub named : user.external_id ≡ username
  pub kept : (other : User) → In other db.users → In other db'.users
  pub same_shares : db'.shares ≡ db.shares

abbrev GotIt : Text → Database → User × Database → Type 0
GotIt username db (user, db') = Got username db user db'

module _ (new_id : ℕ) (username : Text) (db : Database) (c : IsConsistent db)
    (new : IsNewUser new_id db) where
  found-Got : (user : User) → user_by_external_id username db ≡ some user → Got username db user db
  found-Got user e =
      let (m, k) = In-of_find _ user db.users e in
      record {
        consistent = c;
        present = m;
        named = ground (arith, k);
        kept = λ other m'. m';
        same_shares = refl;
      }

  created-Got :
      user_by_external_id username db ≡ none
      → Got username db
          (new_user new_id username)
          (record db { users = db.users ++ (new_user new_id username ∷ []) })
  created-Got e = record {
    consistent = record {
      user_ids = Distinct-add user_id _ db.users c.user_ids new;
      external_ids =
          Distinct-add external_id _ db.users c.external_ids
            (λ other m. ground (arith, find-none _ other db.users e m));
      share_ids = c.share_ids;
      names = c.names;
      owned = λ share m.
          let (user, k, o) = c.owned share m in
          (user, In-append_left user db.users (new_user new_id username ∷ []) k, o);
    };
    present = In-append_last _ db.users;
    named = refl;
    kept = λ other m. In-append_left other db.users (new_user new_id username ∷ []) m;
    same_shares = refl;
  }

  pub get_or_create_user-Got : GotIt username db (get_or_create_user new_id username db)
  unfolding get_or_create_user
  get_or_create_user-Got =
      (elim (user_by_external_id username db)
          as (λ o.
            user_by_external_id username db ≡ o
            → GotIt username db (elim o as (λ _. User × Database) [
              | some user ↦ (user, db)
              | none ↦ (
                new_user new_id username,
                record db { users = db.users ++ (new_user new_id username ∷ []) },
              )
            ])) [ some user ↦ found-Got user | none ↦ created-Got ])
        refl

module _ (db : Database) (c : IsConsistent db) where
  module _ (share : ShareRow) where
    not-IsTaken :
        (other : ShareRow)
        → In other db.shares
        → any (λ o. o.name == share.name) db.shares ≡ false
        → other.name ≢ share.name
    not-IsTaken other m free same =
        let hit : (other.name == share.name) ≡ true = ground (arith, same) in
        let hits = any_of_In (λ o. o.name == share.name) other db.shares m hit in cc

    insert_share-IsConsistent :
        IsOwned db.users share → IsNewShare share.id db → IsConsistent (insert_share share db).1
    unfolding insert_share
    insert_share-IsConsistent owner new =
        if_cases (λ (r : Outcome ShareRow × Database). IsConsistent r.1)
          (any (λ o. o.name == share.name) db.shares) (raise integrity_error, db)
          (ok share, record db { shares = db.shares ++ (share ∷ []) }) (λ _. c)
          (λ free. record {
            user_ids = c.user_ids;
            external_ids = c.external_ids;
            share_ids = Distinct-add share_id share db.shares c.share_ids new;
            names =
                Distinct-add share_name share db.shares c.names
                  (λ other m. not-IsTaken other m free);
            owned = λ other m. elim (In-of_append other share db.shares m) [
              | inl old ↦ c.owned other old
              | inr e ↦ subst (IsOwned db.users) (sym e) owner
            ];
          })

    add_share-IsConsistent :
        IsOwned db.users share → IsNewShare share.id db → IsConsistent (add_share share db).1
    unfolding add_share
    add_share-IsConsistent owner new =
        if_cases (λ (r : Outcome ShareRow × Database). IsConsistent r.1)
          (matches_share_name share.name) (insert_share share db) (raise value_error, db)
          (λ _. insert_share-IsConsistent owner new) (λ _. c)

  update_share-IsConsistent : (id : ℕ) (u : ShareUpdate) → IsConsistent (update_share id u db).1
  unfolding update_share
  update_share-IsConsistent id u =
      (elim (find (λ share. share.id == id) db.shares)
        as (λ o.
          IsConsistent
            (elim o as (λ _. Option ShareRow × Database) [
              | none ↦ (none, db)
              | some share ↦ (
                some (apply_update u share),
                record db { shares = map (change_share id (apply_update u)) db.shares },
              )
            ]).1) [
              | none ↦ c
              | some share ↦ record {
                user_ids = c.user_ids;
                external_ids = c.external_ids;
                share_ids = Distinct-map share_id _ db.shares (λ x. ground arith) c.share_ids;
                names = Distinct-map share_name _ db.shares (λ x. ground arith) c.names;
                owned = λ other m.
                    let (x, k, e) = In-of_map _ other db.shares m in
                    let (user, present, owner) = c.owned x k in
                    (user, present, ap (λ s. s.owner_id) e ∙ same_owner x ∙ owner);
              }
            ])
    where
      same_owner : (x : ShareRow) → (change_share id (apply_update u) x).owner_id ≡ x.owner_id
      same_owner x = ground arith

  delete_owned-IsConsistent :
      (id : ℕ) (found : Option ShareRow) → IsConsistent (delete_owned id found db).1
  unfolding delete_owned
  delete_owned-IsConsistent id none = c
  delete_owned-IsConsistent id (some share) =
      if_cases (λ (r : Bool × Database). IsConsistent r.1) _ _ _
        (λ _. record {
          user_ids = c.user_ids;
          external_ids = c.external_ids;
          share_ids = Distinct-select share_id _ db.shares c.share_ids;
          names = Distinct-select share_name _ db.shares c.names;
          owned = λ other m. c.owned other (In-of_select _ other db.shares m).0;
        })
        (λ _. c)

  delete_as-IsConsistent :
      (name : Text) (found : Option User) → IsConsistent (delete_as name db found).1
  unfolding delete_as
  delete_as-IsConsistent name none = c
  delete_as-IsConsistent name (some user) =
      delete_owned-IsConsistent user.id (share_by_name name db)

  delete_share-IsConsistent :
      (name username : Text) → IsConsistent (delete_share name username db).1
  unfolding delete_share
  delete_share-IsConsistent name username =
      delete_as-IsConsistent name (user_by_external_id username db)

  keep_token-IsConsistent :
      (crypto : Crypto) (nonce : List ℕ) (token : Text) (user : User) (key : Outcome (List ℕ))
      → IsConsistent (keep_token crypto nonce token user db key).1
  unfolding keep_token
  keep_token-IsConsistent crypto nonce token user (raise e) = c
  keep_token-IsConsistent crypto nonce token user (ok key) = record {
    user_ids = Distinct-map user_id _ db.users (λ x. ground arith) c.user_ids;
    external_ids = Distinct-map external_id _ db.users (λ x. ground arith) c.external_ids;
    share_ids = c.share_ids;
    names = c.names;
    owned = λ share m.
        let (owner, k, e) = c.owned share m in
        (
          set_token user.id (encrypt crypto key nonce token) owner,
          In-map _ owner db.users k,
          e ∙ same_id owner key,
        );
  }
    where
      same_id :
          (x : User) (k : List ℕ) → x.id ≡ (set_token user.id (encrypt crypto k nonce token) x).id
      same_id x k = ground arith

-- A call of the service that changes the tables, with the new ids that it draws.
pub data Change : Type 0 where
  creates : ℕ → ℕ → Text → ShareCreate → Change
  updates : ℕ → ShareUpdate → Change
  deletes : Text → Text → Change
  stores : Crypto → List ℕ → ℕ → Text → Text → Text → Change

abbrev pub change : Change → Database → Database
change (creates new_user_id new_id username share_data) db =
    (create_share new_user_id new_id username share_data db).1
change (updates id u) db = (update_share id u db).1
change (deletes name username) db = (delete_share name username db).1
change (stores crypto nonce new_user_id username token key) db =
    (store_user_token crypto nonce new_user_id username token key db).1

-- The ids that it draws are new.
abbrev pub IsFresh : Change → Database → Type 0
IsFresh (creates new_user_id new_id username share_data) db =
    IsNewUser new_user_id db × IsNewShare new_id db
IsFresh (updates id u) db = Unit
IsFresh (deletes name username) db = Unit
IsFresh (stores crypto nonce new_user_id username token key) db = IsNewUser new_user_id db

-- Every call of the service, successful or not, keeps the tables consistent: no two users have an id
-- or an external id in common, no two shares an id or a name, and the owner of each share is a user.
-- The ids that a call draws are required to be new.
pub change-IsConsistent :
    (op : Change) (db : Database) → IsConsistent db → IsFresh op db → IsConsistent (change op db)
unfolding create_share store_user_token
change-IsConsistent (creates new_user_id new_id username share_data) db c (new, free) =
    let got = get_or_create_user-Got new_user_id username db c new in
    let user = (get_or_create_user new_user_id username db).0 in
    let db' = (get_or_create_user new_user_id username db).1 in
    add_share-IsConsistent db' got.consistent (new_share new_id user.id share_data)
      (user, got.present, refl) (λ share m. free share (subst (In share) got.same_shares m))
change-IsConsistent (updates id u) db c fresh = update_share-IsConsistent db c id u
change-IsConsistent (deletes name username) db c fresh =
    delete_share-IsConsistent db c name username
change-IsConsistent (stores crypto nonce new_user_id username token key) db c new =
    let got = get_or_create_user-Got new_user_id username db c new in
    keep_token-IsConsistent (get_or_create_user new_user_id username db).1 got.consistent crypto
      nonce token (get_or_create_user new_user_id username db).0 (token_encryption crypto key)
