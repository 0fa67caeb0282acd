-- ===== src/Provider/Moves/Effects.antt =====
-- What MOVE and DELETE do to the tags in Paperless.
use paperless_webdav.Base.{
  ℕ, ◌≡◌, ◌≢◌, ◌⊎◌, refl, ap, Bool, true, false, ◌&&◌, some, List, arith, ◌==◌, if◌then◌else◌,
  nat_eq, list_eq, inl, inr, Bool-cases, Option-cases, Text,
}
use paperless_webdav.Outcome.{Error, dav_error, http_forbidden, Outcome, ok, raise}
use paperless_webdav.Client.{Remote, add_tag_to_document, remove_tag_from_document}
use paperless_webdav.Client.Tags.{
  has_tag, has_tag-add_tag_to_document, has_tag-remove_tag_from_document, add_tag_to_document-fails,
  remove_tag_from_document-fails, AppliedAnyway,
}
use paperless_webdav.Provider.Paths.{path_parts}
use paperless_webdav.Provider.Moves.{
  DocumentResource, MoveContext, MoveState, is_move_to_done_folder,
  is_move_from_done_folder_to_root, get_done_tag_id, after_request, handle_move_to_done_folder,
  handle_move_from_done_folder, or_forbidden, or_fall_back, move_parts, handle_move, or_not_removed,
  delete,
}

module _ (context : MoveContext) (r : DocumentResource) (s : MoveState) where
  -- The two handlers, by what they report.
  pub has_tag-to_done :
      (tag d t : ℕ)
      → get_done_tag_id context r ≡ some tag
      → (handle_move_to_done_folder context r s).0 ≡ true
      → has_tag d t (handle_move_to_done_folder context r s).1.remote
        ≡ (if (d == r.document.id) && (t == tag) then true else has_tag d t s.remote)
  unfolding handle_move_to_done_folder after_request
  has_tag-to_done tag d t e done =
      ground (arith, has_tag-add_tag_to_document context.requests r.document.id tag s.remote d t)

  pub has_tag-from_done :
      (tag d t : ℕ)
      → get_done_tag_id context r ≡ some tag
      → (handle_move_from_done_folder context r s).0 ≡ true
      → has_tag d t (handle_move_from_done_folder context r s).1.remote
        ≡ (if (d == r.document.id) && (t == tag) then false else has_tag d t s.remote)
  unfolding handle_move_from_done_folder after_request
  has_tag-from_done tag d t e done =
      ground
        (arith, has_tag-remove_tag_from_document context.requests r.document.id tag s.remote d t)

  -- A handler that reports failure changed nothing, or a PATCH of it that raised was applied.
  abbrev pub FailsWith : Bool → MoveState → Type 0
  FailsWith present after =
      (after ≡ s)
      ⊎ ((after.cache ≡ s.cache)
          × ((tag : ℕ) × (get_done_tag_id context r ≡ some tag)
              × AppliedAnyway context.requests r.document.id tag present s.remote after.remote))

  after_request-fails :
      (tag : ℕ) (present : Bool) (x : Outcome (Unit {0}) × Remote)
      → get_done_tag_id context r ≡ some tag
      → ((e : Error)
          → x.0 ≡ raise e
          → (x.1 ≡ s.remote)
            ⊎ AppliedAnyway context.requests r.document.id tag present s.remote x.1)
      → (after_request context r s.cache x).0 ≡ false
      → FailsWith present (after_request context r s.cache x).1
  unfolding after_request
  after_request-fails tag present (ok _, remote) known told e = cc
  after_request-fails tag present (raise x, remote) known told e =
      let at : Remote → MoveState = λ m. record { remote = m; cache = s.cache } in
      elim (told x refl) [
        | inl kept ↦ inl (ap at kept)
        | inr applied ↦ inr (refl, (tag, known, applied))
      ]

  pub to_done-fails :
      (handle_move_to_done_folder context r s).0 ≡ false
      → FailsWith true (handle_move_to_done_folder context r s).1
  unfolding handle_move_to_done_folder
  to_done-fails = elim (Option-cases (get_done_tag_id context r)) [
    | inl e ↦ ground arith
    | inr (tag, e) ↦ ground (
      arith,
      after_request-fails tag true (add_tag_to_document context.requests r.document.id tag s.remote)
          e (add_tag_to_document-fails context.requests r.document.id tag s.remote),
    )
  ]

  pub from_done-fails :
      (handle_move_from_done_folder context r s).0 ≡ false
      → FailsWith false (handle_move_from_done_folder context r s).1
  unfolding handle_move_from_done_folder
  from_done-fails = elim (Option-cases (get_done_tag_id context r)) [
    | inl e ↦ ground arith
    | inr (tag, e) ↦ ground (
      arith,
      after_request-fails tag false
          (remove_tag_from_document context.requests r.document.id tag s.remote) e
          (remove_tag_from_document-fails context.requests r.document.id tag s.remote),
    )
  ]

pub or_forbidden-cases :
    (x : Bool × MoveState)
    → ((x.0 ≡ true) × (or_forbidden x ≡ (ok true, x.1)))
      ⊎ ((x.0 ≡ false) × (or_forbidden x ≡ (raise (dav_error http_forbidden), x.1)))
unfolding or_forbidden
or_forbidden-cases (true, m) = inl (refl, refl)
or_forbidden-cases (false, m) = inr (refl, refl)

pub or_fall_back-cases :
    (x : Bool × MoveState)
    → ((x.0 ≡ true) × (or_fall_back x ≡ (ok true, x.1)))
      ⊎ ((x.0 ≡ false) × (or_fall_back x ≡ (ok false, x.1)))
unfolding or_fall_back
or_fall_back-cases (true, m) = inl (refl, refl)
or_fall_back-cases (false, m) = inr (refl, refl)

or_not_removed-cases :
    (x : Bool × MoveState)
    → ((x.0 ≡ true) × (or_not_removed x ≡ (ok tt, x.1)))
      ⊎ ((x.0 ≡ false) × (or_not_removed x ≡ (raise (dav_error http_forbidden), x.1)))
unfolding or_not_removed
or_not_removed-cases (true, m) = inl (refl, refl)
or_not_removed-cases (false, m) = inr (refl, refl)

-- A document is moved to the done folder only from outside it.
pub not_both :
    (r : DocumentResource) (parts : List Text)
    → is_move_from_done_folder_to_root r parts ≡ true
    → is_move_to_done_folder r parts ≡ false
unfolding is_move_to_done_folder is_move_from_done_folder_to_root
not_both r parts from_done = elim (Option-cases r.share) [
  | inl e ↦ ground arith
  | inr (share, e) ↦ ground arith
]

module _ (context : MoveContext) (r : DocumentResource) (dest_path : Text) (s : MoveState) where
  -- A move that does not report success, be it refused or failed, changes nothing in Paperless and
  -- nothing in the cache, but where a PATCH that raised was applied by Paperless all the same: then
  -- the document has the done tag after a move to the done folder, and has it no more after one back,
  -- every other tag of every document is as before, and so is the cache.
  pub handle_move-keeps :
      (handle_move context r dest_path s).0 ≢ ok true
      → FailsWith context r s
          (is_move_to_done_folder r (path_parts dest_path))
          (handle_move context r dest_path s).1
  unfolding handle_move move_parts
  handle_move-keeps n = elim (Bool-cases (is_move_to_done_folder r (path_parts dest_path))) [
    | inl to ↦ ground (
      arith,
      to_done-fails context r s,
      or_forbidden-cases (handle_move_to_done_folder context r s),
    )
    | inr elsewhere ↦ ground (
      arith,
      from_done-fails context r s,
      or_fall_back-cases (handle_move_from_done_folder context r s),
    )
  ]

  -- After a move to the done folder that reports success, in a share whose done tag Paperless knows,
  -- the document has the done tag; every other tag of it, and every tag of every other document, is
  -- as before.
  pub handle_move-Done :
      (tag d t : ℕ)
      → get_done_tag_id context r ≡ some tag
      → is_move_to_done_folder r (path_parts dest_path) ≡ true
      → (handle_move context r dest_path s).0 ≡ ok true
      → has_tag d t (handle_move context r dest_path s).1.remote
        ≡ (if (d == r.document.id) && (t == tag) then true else has_tag d t s.remote)
  unfolding handle_move move_parts
  handle_move-Done tag d t e to_done succeeded = ground (
    arith,
    has_tag-to_done context r s tag d t e,
    or_forbidden-cases (handle_move_to_done_folder context r s),
  )

  -- After a move from the done folder to the root that reports success, in a share whose done tag
  -- Paperless knows, the document has the done tag no more; every other tag of it, and every tag of
  -- every other document, is as before.
  pub handle_move-Restored :
      (tag d t : ℕ)
      → get_done_tag_id context r ≡ some tag
      → is_move_from_done_folder_to_root r (path_parts dest_path) ≡ true
      → (handle_move context r dest_path s).0 ≡ ok true
      → has_tag d t (handle_move context r dest_path s).1.remote
        ≡ (if (d == r.document.id) && (t == tag) then false else has_tag d t s.remote)
  unfolding handle_move move_parts
  handle_move-Restored tag d t e from_done succeeded = ground (
    arith,
    not_both r (path_parts dest_path) from_done,
    has_tag-from_done context r s tag d t e,
    or_fall_back-cases (handle_move_from_done_folder context r s),
  )

-- A document that is moved to the done folder and, from there, back to the root: where it did not
-- have the done tag before and both moves report success, every document has the tags that it had.
pub handle_move-there_and_back :
    (there back : MoveContext) (at_root at_done : DocumentResource) (to_done to_root : Text)
    (s : MoveState) (tag d t : ℕ)
    → at_done.document.id ≡ at_root.document.id
    → get_done_tag_id there at_root ≡ some tag
    → get_done_tag_id back at_done ≡ some tag
    → is_move_to_done_folder at_root (path_parts to_done) ≡ true
    → is_move_from_done_folder_to_root at_done (path_parts to_root) ≡ true
    → (handle_move there at_root to_done s).0 ≡ ok true
    → (handle_move back at_done to_root (handle_move there at_root to_done s).1).0 ≡ ok true
    → has_tag at_root.document.id tag s.remote ≡ false
    → has_tag d t
        (handle_move back at_done to_root (handle_move there at_root to_done s).1).1.remote
      ≡ has_tag d t s.remote
handle_move-there_and_back there back at_root at_done to_done to_root s tag d t same known still to
      from went came absent =
    ground (
      arith,
      handle_move-Done there at_root to_done s tag d t known to went,
      handle_move-Restored back at_done to_root (handle_move there at_root to_done s).1 tag d t
          still from came,
    )

module _ (context : MoveContext) (r : DocumentResource) (s : MoveState) where
  -- In a share whose done tag Paperless knows, a document can be deleted only from the done
  -- folder; there the delete takes the done tag off it, and it changes nothing else: where it
  -- raises, everything is as before, or a PATCH that raised was applied, and where it returns, every
  -- tag of every document but that one is as before.
  pub delete-Restored :
      (tag d t : ℕ)
      → get_done_tag_id context r ≡ some tag
      → ((delete context r s).0 ≡ raise (dav_error http_forbidden))
          × FailsWith context r s false (delete context r s).1
        ⊎ ((delete context r s).0 ≡ ok tt)
          × (r.in_done_folder ≡ true)
          × (has_tag d t (delete context r s).1.remote
              ≡ (if (d == r.document.id) && (t == tag) then false else has_tag d t s.remote))
  unfolding delete
  delete-Restored tag d t e = elim (Bool-cases r.in_done_folder) [
    | inr at_root ↦ inl (ground arith, ground arith)
    | inl in_done ↦ elim (or_not_removed-cases (handle_move_from_done_folder context r s)) [
      | inl (removed, result) ↦ inr (ground (arith, has_tag-from_done context r s tag d t e))
      | inr (failed, result) ↦ inl (ground arith, ground (arith, from_done-fails context r s))
    ]
  ]
