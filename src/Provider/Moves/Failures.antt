-- ===== src/Provider/Moves/Failures.antt =====
-- What the MOVE and COPY requests of src/paperless_webdav/webdav_provider.py report where Paperless
-- could not be asked.
use paperless_webdav.Base.{◌≡◌, ◌⊎◌, true, false, none, arith, Text, Option-cases, inl, inr}
use paperless_webdav.Outcome.{ok}
use paperless_webdav.Provider.Paths.{path_parts}
use paperless_webdav.Provider.Moves.{
  DocumentResource, MoveContext, MoveState, is_move_to_done_folder, validate_move_destination,
  get_done_tag_id, done_tag_of, handle_move_to_done_folder, or_forbidden, move_parts, handle_move,
}

-- Where the tags cannot be listed, be it that there is no client or that `get_tags` raises, a move to
-- the done folder that passes the validation reports success and changes nothing.
pub handle_move-unasked :
    (context : MoveContext) (r : DocumentResource) (dest_path : Text) (s : MoveState)
    → (context.has_client ≡ false) ⊎ (context.all_tags ≡ none)
    → validate_move_destination r (path_parts dest_path) ≡ ok tt
    → is_move_to_done_folder r (path_parts dest_path) ≡ true
    → handle_move context r dest_path s ≡ (ok true, s)
unfolding handle_move move_parts handle_move_to_done_folder get_done_tag_id or_forbidden
handle_move-unasked context r dest_path s (inl no_client) valid to_done =
    elim (Option-cases (done_tag_of r.share)) [ inl e ↦ ground arith | inr (tag, e) ↦ ground arith ]
handle_move-unasked context r dest_path s (inr no_tags) valid to_done =
    elim (Option-cases (done_tag_of r.share)) [ inl e ↦ ground arith | inr (tag, e) ↦ ground arith ]
