-- ===== src/Provider/Moves.antt =====
-- MOVE, COPY and DELETE of a document in src/paperless_webdav/webdav_provider.py. What Paperless and
-- the environment do in a request is in `MoveContext`: whether there is a client, the tags that
-- `get_tags` returns (`none` where it raises), and which requests fail. A destination is taken
-- apart by `path_parts`.
pub mod Destinations
pub mod Effects
pub mod Failures
pub mod Fresh
use paperless_webdav.Base.{
  ℕ, zero, suc, ◌≡◌, Bool, true, false, ◌&&◌, not, Option, none, some, List, [], ◌∷◌, Eq, ◌==◌,
  if◌then◌else◌, nat_eq, list_eq, Dict, lookup, Text,
}
use paperless_webdav.Outcome.{Error, dav_error, Outcome, ok, raise, http_forbidden}
use paperless_webdav.Client.{Remote, Requests, add_tag_to_document, remove_tag_from_document}
use paperless_webdav.Cache.Memory.{InMemoryCache, invalidate_document_lists}
use paperless_webdav.Provider.Documents.{PaperlessDocument, Share}
use paperless_webdav.Provider.Paths.{path_parts}

-- The attributes of `DocumentResource` that moves read.
pub record DocumentResource : Type 0 where
  pub document : PaperlessDocument
  pub share : Option Share
  pub in_done_folder : Bool

pub record MoveContext : Type 0 where
  pub has_client : Bool
  pub all_tags : Option (Dict Text ℕ)
  pub requests : Requests
  pub document_list_ttl : ℕ

-- What a move changes: the tags in Paperless, and the cache.
pub record MoveState : Type 0 where
  pub remote : Remote
  pub cache : InMemoryCache

-- `_is_move_to_done_folder`, on the parts of the destination
abbrev pub names_done_folder : Share → List Text → Bool
names_done_folder share (s ∷ d ∷ f ∷ rest) = (s == share.name) && (d == share.done_folder_name)
names_done_folder share _ = false

unfoldable pub is_move_to_done_folder : DocumentResource → List Text → Bool
is_move_to_done_folder r parts = elim r.share [
  | none ↦ false
  | some share ↦
      share.done_folder_enabled && (not r.in_done_folder && names_done_folder share parts)
]

-- `_is_move_from_done_folder_to_root`, on the parts of the destination
abbrev pub names_root : Share → List Text → Bool
names_root share (s ∷ f ∷ []) = s == share.name
names_root share _ = false

unfoldable pub is_move_from_done_folder_to_root : DocumentResource → List Text → Bool
is_move_from_done_folder_to_root r parts = elim r.share [
  | none ↦ false
  | some share ↦ share.done_folder_enabled && (r.in_done_folder && names_root share parts)
]

-- `_validate_move_destination`, on the parts of the destination: whether it passes
abbrev pub allows : Option Share → List Text → Bool
allows none (s ∷ f ∷ []) = true
allows none (s ∷ d ∷ f ∷ []) = true
allows (some share) (s ∷ f ∷ []) = s == share.name
allows (some share) (s ∷ d ∷ f ∷ []) = (s == share.name) && (d == share.done_folder_name)
allows _ _ = false

unfoldable pub validate_move_destination : DocumentResource → List Text → Outcome (Unit {0})
validate_move_destination r parts =
    if allows r.share parts then ok tt else raise (dav_error http_forbidden)

-- `self._share.done_tag`, where the empty text counts as none
abbrev pub filled : Option Text → Option Text
filled none = none
filled (some []) = none
filled (some (c ∷ t)) = some (c ∷ t)

abbrev pub done_tag_of : Option Share → Option Text
done_tag_of none = none
done_tag_of (some share) = filled share.done_tag

-- `_get_done_tag_id`
unfoldable pub get_done_tag_id : MoveContext → DocumentResource → Option ℕ
get_done_tag_id context r = elim (done_tag_of r.share) [
  | none ↦ none
  | some done_tag ↦
      if not context.has_client
      then none
      else elim context.all_tags [ none ↦ none | some tag_map ↦ lookup done_tag tag_map ]
]

-- `_invalidate_share_document_lists`
unfoldable pub invalidate_share_document_lists :
    MoveContext → DocumentResource → InMemoryCache → InMemoryCache
invalidate_share_document_lists context r cache =
    if context.document_list_ttl == 0
    then cache
    else elim r.share [ none ↦ cache | some share ↦ invalidate_document_lists share.name cache ]

-- The `try` of the two handlers: the lists are dropped after a request that succeeded.
pub after_request :
    MoveContext → DocumentResource → InMemoryCache → Outcome (Unit {0}) × Remote → Bool × MoveState
after_request context r cache (ok _, remote) =
    (true, record { remote = remote; cache = invalidate_share_document_lists context r cache })
after_request context r cache (raise e, remote) = (false, record { remote = remote; cache = cache })

-- `_handle_move_to_done_folder`
unfoldable pub handle_move_to_done_folder :
    MoveContext → DocumentResource → MoveState → Bool × MoveState
unfolding get_done_tag_id after_request invalidate_share_document_lists
handle_move_to_done_folder context r s = elim (get_done_tag_id context r) [
  | none ↦ (true, s)
  | some tag_id ↦
      if not context.has_client
      then (false, s)
      else after_request context r s.cache
          (add_tag_to_document context.requests r.document.id tag_id s.remote)
]

-- `_handle_move_from_done_folder`
unfoldable pub handle_move_from_done_folder :
    MoveContext → DocumentResource → MoveState → Bool × MoveState
unfolding get_done_tag_id after_request invalidate_share_document_lists
handle_move_from_done_folder context r s = elim (get_done_tag_id context r) [
  | none ↦ (true, s)
  | some tag_id ↦
      if not context.has_client
      then (false, s)
      else after_request context r s.cache
          (remove_tag_from_document context.requests r.document.id tag_id s.remote)
]

-- A failed move to the done folder raises.
pub or_forbidden : Bool × MoveState → Outcome Bool × MoveState
or_forbidden (true, s) = (ok true, s)
or_forbidden (false, s) = (raise (dav_error http_forbidden), s)

-- A failed move from the done folder falls back.
pub or_fall_back : Bool × MoveState → Outcome Bool × MoveState
or_fall_back (done, s) = (ok done, s)

-- The body that `handle_move` and `copy_move_single` share behind the validation.
unfoldable pub move_parts :
    MoveContext → DocumentResource → List Text → MoveState → Outcome Bool × MoveState
unfolding or_forbidden or_fall_back
move_parts context r parts s =
    if is_move_to_done_folder r parts
    then or_forbidden (handle_move_to_done_folder context r s)
    else if is_move_from_done_folder_to_root r parts
    then or_fall_back (handle_move_from_done_folder context r s)
    else (ok true, s)

unfoldable pub handle_move :
    MoveContext → DocumentResource → Text → MoveState → Outcome Bool × MoveState
unfolding move_parts validate_move_destination
handle_move context r dest_path s = elim (validate_move_destination r (path_parts dest_path)) [
  | ok _ ↦ move_parts context r (path_parts dest_path) s
  | raise e ↦ (raise e, s)
]

unfoldable pub copy_move_single :
    MoveContext → DocumentResource → Text → Bool → MoveState → Outcome Bool × MoveState
unfolding move_parts validate_move_destination
copy_move_single context r dest_path is_move s =
    if not is_move
    then (raise (dav_error http_forbidden), s)
    else elim (validate_move_destination r (path_parts dest_path)) [
      | ok _ ↦ move_parts context r (path_parts dest_path) s
      | raise e ↦ (raise e, s)
    ]

-- `delete`
pub or_not_removed : Bool × MoveState → Outcome (Unit {0}) × MoveState
or_not_removed (true, s) = (ok tt, s)
or_not_removed (false, s) = (raise (dav_error http_forbidden), s)

unfoldable pub delete : MoveContext → DocumentResource → MoveState → Outcome (Unit {0}) × MoveState
unfolding or_not_removed
delete context r s =
    if r.in_done_folder
    then or_not_removed (handle_move_from_done_folder context r s)
    else (raise (dav_error http_forbidden), s)
