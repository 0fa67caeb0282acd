-- ===== src/Provider/Moves/Destinations.antt =====
-- Where `handle_move` and `copy_move_single` of src/paperless_webdav/webdav_provider.py let a
-- document go.
use paperless_webdav.Base.{
  ◌≡◌, Bool, true, some, List, [], ◌∷◌, arith, if◌then◌else◌, nat_eq, list_eq, inl, inr, Bool-cases,
  Text,
}
use paperless_webdav.Outcome.{dav_error, ok, raise, http_forbidden}
use paperless_webdav.Provider.Documents.{Share}
use paperless_webdav.Provider.Paths.{path_parts}
use paperless_webdav.Provider.Moves.{
  DocumentResource, MoveContext, MoveState, is_move_to_done_folder,
  is_move_from_done_folder_to_root, allows, validate_move_destination, move_parts, handle_move,
  copy_move_single,
}

-- The destinations of a share: a file in its root, and a file in its done folder.
pub data IsDestination (share : Share) : List Text → Type 0 where
  in_root : (file : Text) → IsDestination share (share.name ∷ file ∷ [])
  in_done : (file : Text) → IsDestination share (share.name ∷ share.done_folder_name ∷ file ∷ [])

root-IsDestination :
    (share : Share) (s f : Text) → s ≡ share.name → IsDestination share (s ∷ f ∷ [])
root-IsDestination share s f e = rw e (in_root f)

done-IsDestination :
    (share : Share) (s d f : Text)
    → s ≡ share.name
    → d ≡ share.done_folder_name
    → IsDestination share (s ∷ d ∷ f ∷ [])
done-IsDestination share s d f e g = rw (e, g) (in_done f)

allows-IsDestination :
    (share : Share) (parts : List Text)
    → allows (some share) parts ≡ true
    → IsDestination share parts
allows-IsDestination share [] e = cc
allows-IsDestination share (s ∷ []) e = cc
allows-IsDestination share (s ∷ f ∷ []) e = root-IsDestination share s f (ground arith)
allows-IsDestination share (s ∷ d ∷ f ∷ []) e =
    done-IsDestination share s d f (ground arith) (ground arith)
allows-IsDestination share (s ∷ d ∷ f ∷ g ∷ rest) e = cc

IsDestination-allows :
    (share : Share) (parts : List Text)
    → IsDestination share parts
    → allows (some share) parts ≡ true
IsDestination-allows share _ (in_root f) = ground arith
IsDestination-allows share _ (in_done f) = ground arith

module _ (context : MoveContext) (r : DocumentResource) (dest_path : Text) (s : MoveState)
    (share : Share) where
  -- A document of a share can be moved only to the root and to the done folder of that share: any
  -- other destination is refused as forbidden, by both entry points, and nothing changes; and a COPY
  -- is refused in the same way wherever it goes.
  pub handle_move-refuses :
      (is_move : Bool)
      → r.share ≡ some share
      → ¬ (IsDestination share (path_parts dest_path) × (is_move ≡ true))
      → ((is_move ≡ true)
          → handle_move context r dest_path s ≡ (raise (dav_error http_forbidden), s))
        × (copy_move_single context r dest_path is_move s ≡ (raise (dav_error http_forbidden), s))
  unfolding handle_move copy_move_single validate_move_destination
  handle_move-refuses is_move e nowhere =
      ground (arith, allows-IsDestination share (path_parts dest_path))

  -- A move within the root, or within the done folder, of the document's own share, a rename, is
  -- accepted and changes nothing.
  pub handle_move-renames :
      (file : Text)
      → r.share ≡ some share
      → path_parts dest_path ≡ (
          if r.in_done_folder
          then share.name ∷ share.done_folder_name ∷ file ∷ []
          else share.name ∷ file ∷ [])
      → handle_move context r dest_path s ≡ (ok true, s)
  unfolding handle_move move_parts validate_move_destination is_move_to_done_folder
      is_move_from_done_folder_to_root
  handle_move-renames file e there = elim (Bool-cases r.in_done_folder) [
    | inl inside ↦ ground arith
    | inr at_root ↦ ground arith
  ]
