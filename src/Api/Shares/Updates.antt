-- ===== src/Api/Shares/Updates.antt =====
-- A request to update a share.
use mathlib.Core.Path.{subst}
use paperless_webdav.Base.{
  ◌≡◌, ◌≢◌, refl, sym, ap, ◌∙◌, ◌⊎◌, inl, inr, true, false, Option, none, some, map, ◌==◌, nat_eq,
  list_eq, option_eq, arith, In, find_key, find-map, find-map-none, In-of_find, Option-cases,
  Bool-cases, Text, Distinct-same,
}
use paperless_webdav.Outcome.{Outcome, ok, raise, http_exception, http_forbidden}
use paperless_webdav.Services.Shares.{
  ShareRow, Database, ShareUpdate, apply_update, change_share, update_share, share_by_name,
  if_accessible, get_share_by_name, is_share_owner,
}
use paperless_webdav.Services.Shares.Consistency.{IsConsistent, share_id, share_name}
use paperless_webdav.Services.Shares.Access.{get_share_by_name_iff}
use paperless_webdav.Api.Shares.{
  http_not_found, answer_updated, update_found, update_share_endpoint,
}

-- Only the owner changes the share, and only that share.
abbrev pub UpdateTells :
    Text → Text → ShareUpdate → Database → Outcome (Option ShareRow) × Database → Type 0
UpdateTells name username share_data db (raise e, db') =
    (db' ≡ db)
    × (((e ≡ http_exception http_not_found) × (get_share_by_name db name username ≡ none))
        ⊎ ((e ≡ http_exception http_forbidden)
            × ((share : ShareRow) × (get_share_by_name db name username ≡ some share)
                × (is_share_owner db share username ≡ false))))
UpdateTells name username share_data db (ok answer, db') =
    (share : ShareRow) × (get_share_by_name db name username ≡ some share)
    × (is_share_owner db share username ≡ true)
    × (answer ≡ some (apply_update share_data share))
    × (get_share_by_name db' name username ≡ some (apply_update share_data share))
    × ((n v : Text) → n ≢ name → get_share_by_name db' n v ≡ get_share_by_name db n v)

module _ (name username : Text) (share_data : ShareUpdate) (db : Database)
    (c : IsConsistent db) where
  module _ (share : ShareRow) (m : In share db.shares) (named : share.name ≡ name) where
    abbrev changed : ShareRow → ShareRow
    changed = change_share share.id (apply_update share_data)

    abbrev updated_db : Database
    updated_db = record db { shares = map changed db.shares }

    update_share-found :
        update_share share.id share_data db ≡ (some (apply_update share_data share), updated_db)
    unfolding update_share
    update_share-found =
        ground (arith, find_key share_id share.id share db.shares c.share_ids m refl)

    same_name : (n : Text) (x : ShareRow) → ((changed x).name == n) ≡ (x.name == n)
    same_name n x = ground arith

    finds_changed :
        (n : Text) (x : ShareRow)
        → share_by_name n db ≡ some x
        → share_by_name n updated_db ≡ some (changed x)
    finds_changed n x h = find-map (λ s. s.name == n) changed db.shares (same_name n) x h

    other_names : (n : Text) → n ≢ name → share_by_name n updated_db ≡ share_by_name n db
    other_names n differs = elim (Option-cases (share_by_name n db)) [
      | inl e ↦ find-map-none (λ s. s.name == n) changed db.shares (same_name n) e ∙ sym e
      | inr (x, e) ↦ finds_changed n x e ∙ ap some (unchanged x e) ∙ sym e
    ]
      where
        unchanged : (x : ShareRow) → share_by_name n db ≡ some x → changed x ≡ x
        unchanged x e =
            let (k, found) = In-of_find _ x db.shares e in
            let differ : x.id ≢ share.id = λ same.
              let is_share = Distinct-same share_id x share db.shares c.share_ids k m same in
              differs (ground (arith, found, ap share_name is_share, named)) in
            ground (arith, differ)

    changed_self : changed share ≡ apply_update share_data share
    changed_self = ground arith

    -- The changed share has the name of the old one.
    pub update_share-finds :
        share_by_name name (update_share share.id share_data db).1
        ≡ some (apply_update share_data share)
    update_share-finds =
        ap (λ r. share_by_name name r.1) update_share-found
        ∙ finds_changed name share (find_key share_name name share db.shares c.names m named)
        ∙ ap some changed_self

  updated-UpdateTells :
      (share : ShareRow) (m : In share db.shares) (named : share.name ≡ name)
      → get_share_by_name db name username ≡ some share
      → is_share_owner db share username ≡ true
      → UpdateTells name username share_data db
          (answer_updated (update_share share.id share_data db))
  unfolding answer_updated get_share_by_name if_accessible is_share_owner
  updated-UpdateTells share m named e owns =
      subst (λ r. UpdateTells name username share_data db (answer_updated r))
        (sym (update_share-found share m named))
        (
          share,
          e,
          owns,
          refl,
          ap (if_accessible (updated_db share m named) username) by_name ∙ rw owns refl,
          λ n v differs.
              ap (if_accessible (updated_db share m named) v) (other_names share m named n differs),
        )
    where
      by_name : share_by_name name (updated_db share m named) ≡ some (apply_update share_data share)
      by_name =
          finds_changed share m named name share
            (find_key share_name name share db.shares c.names m named)
          ∙ ap some (changed_self share m named)

  update_found-UpdateTells :
      (found : Option ShareRow)
      → get_share_by_name db name username ≡ found
      → UpdateTells name username share_data db (update_found username share_data db found)
  unfolding update_found
  update_found-UpdateTells none e = (refl, inl (refl, e))
  update_found-UpdateTells (some share) e = elim (Bool-cases (is_share_owner db share username)) [
    | inr other ↦ rw other (refl, inr (refl, (share, e, other)))
    | inl owns ↦
        let (m, named, can) = (get_share_by_name_iff db c username name share).0 e in
        rw owns (updated-UpdateTells share m named e owns)
  ]

  -- An update is answered with 404 where the user finds no share of that name, with 403 where the user
  -- finds it and is not its owner, and then nothing changes. Otherwise the share has the fields that
  -- the request gives, the user finds it under the old name, and every query for another name answers
  -- as before.
  pub update_share_endpoint-UpdateTells :
      UpdateTells name username share_data db (update_share_endpoint name username share_data db)
  unfolding update_share_endpoint
  update_share_endpoint-UpdateTells =
      update_found-UpdateTells (get_share_by_name db name username) refl
