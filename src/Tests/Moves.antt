-- ===== src/Tests/Moves.antt =====
-- The theorems on MOVE and DELETE, and on the cached listings, at concrete inputs.
use paperless_webdav.Base.{
  ℕ, ℕ_discrete, ◌≡◌, ◌≢◌, refl, inl, inr, true, false, none, some, List, [], ◌∷◌, ◌++◌, nat_eq,
  list_eq, lookup, insert, contains, Dict, Text, codes,
}
use paperless_webdav.Outcome.{ok}
use paperless_webdav.Client.{add_tag_to_document, remove_tag_from_document}
use paperless_webdav.Client.Tags.{has_tag}
use paperless_webdav.Cache.Memory.{empty_cache}
use paperless_webdav.Provider.Documents.{PaperlessDocument}
use paperless_webdav.Provider.Paths.{path_parts}
use paperless_webdav.Provider.Listing.{load_documents_cached}
use paperless_webdav.Provider.Moves.{
  DocumentResource, MoveContext, MoveState, is_move_to_done_folder,
  is_move_from_done_folder_to_root, validate_move_destination, get_done_tag_id,
  handle_move_to_done_folder, handle_move_from_done_folder, handle_move,
}
use paperless_webdav.Provider.Moves.Destinations.{IsDestination, in_root, in_done}
use paperless_webdav.Provider.Moves.Effects.{
  FailsWith, handle_move-keeps, handle_move-there_and_back,
}
use paperless_webdav.Provider.Moves.Fresh.{handle_move-Fresh}
use paperless_webdav.Provider.Moves.Failures.{handle_move-unasked}
use paperless_webdav.Tests.Fixtures.{document_at, tax_share}

abbrev at_root : DocumentResource
at_root = record {
  document = document_at 7 (codes "Bill") (3 ∷ []);
  share = some tax_share;
  in_done_folder = false;
}

abbrev at_done : DocumentResource
at_done = record at_root { in_done_folder = true }

abbrev some_tags : Dict Text ℕ
some_tags = (codes "tax", 3) ∷ (codes "read", 5) ∷ []

abbrev online : MoveContext
online = record {
  has_client = true;
  all_tags = some some_tags;
  requests = record { fetch_fails = false; patch_fails = false; patch_applied = false };
  document_list_ttl = 60;
}

abbrev before : MoveState
before = record { remote = (7, 3 ∷ []) ∷ (8, 3 ∷ []) ∷ []; cache = empty_cache }

abbrev to_done : Text
to_done = codes "/tax/done/Bill.pdf"

abbrev to_root : Text
to_root = codes "/tax/Bill.pdf"

abbrev to_other : Text
to_other = codes "/photos/Bill.pdf"

tag_known : (r : DocumentResource) → r.share ≡ some tax_share → get_done_tag_id online r ≡ some 5
unfolding get_done_tag_id lookup list_eq nat_eq ℕ_discrete
tag_known r e = rw e refl

moves_to_done : is_move_to_done_folder at_root (path_parts to_done) ≡ true
unfolding is_move_to_done_folder path_parts list_eq nat_eq ℕ_discrete
moves_to_done = refl

moves_to_root : is_move_from_done_folder_to_root at_done (path_parts to_root) ≡ true
unfolding is_move_from_done_folder_to_root path_parts list_eq nat_eq ℕ_discrete
moves_to_root = refl

went : (handle_move online at_root to_done before).0 ≡ ok true
unfolding handle_move handle_move_to_done_folder add_tag_to_document path_parts list_eq nat_eq
    ℕ_discrete get_done_tag_id lookup is_move_to_done_folder validate_move_destination
went = refl

came :
    (handle_move online at_done to_root (handle_move online at_root to_done before).1).0 ≡ ok true
unfolding handle_move handle_move_to_done_folder handle_move_from_done_folder insert
    add_tag_to_document remove_tag_from_document path_parts list_eq nat_eq ℕ_discrete
    get_done_tag_id lookup is_move_to_done_folder is_move_from_done_folder_to_root
    validate_move_destination
came = refl

absent : has_tag 7 5 before.remote ≡ false
unfolding has_tag contains lookup nat_eq ℕ_discrete
absent = refl

-- The answer to the PATCH is lost, and Paperless has applied it.
abbrev lost_answer : MoveContext
lost_answer = record online {
  requests = record { fetch_fails = false; patch_fails = true; patch_applied = true };
}

reported : (handle_move lost_answer at_root to_done before).0 ≢ ok true
unfolding handle_move handle_move_to_done_folder add_tag_to_document path_parts list_eq nat_eq
    ℕ_discrete get_done_tag_id lookup is_move_to_done_folder validate_move_destination
reported e = cc

handle_move-keeps_example :
    FailsWith lost_answer at_root before
      (is_move_to_done_folder at_root (path_parts to_done))
      (handle_move lost_answer at_root to_done before).1
handle_move-keeps_example = handle_move-keeps lost_answer at_root to_done before reported

lost_answer_has : has_tag 7 5 (handle_move lost_answer at_root to_done before).1.remote ≡ true
unfolding has_tag contains insert handle_move handle_move_to_done_folder add_tag_to_document
    path_parts list_eq nat_eq ℕ_discrete get_done_tag_id lookup is_move_to_done_folder
    validate_move_destination
lost_answer_has = refl

abbrev between : MoveState
between = record before { remote = (7, 3 ∷ 5 ∷ []) ∷ (8, 3 ∷ []) ∷ [] }

came_back : (handle_move online at_done to_root between).0 ≡ ok true
unfolding handle_move handle_move_from_done_folder remove_tag_from_document path_parts list_eq
    nat_eq ℕ_discrete get_done_tag_id lookup is_move_to_done_folder is_move_from_done_folder_to_root
    validate_move_destination
came_back = refl

handle_move-there_and_back_example :
    has_tag 7 5
      (handle_move online at_done to_root (handle_move online at_root to_done before).1).1.remote
    ≡ has_tag 7 5 before.remote
handle_move-there_and_back_example =
    handle_move-there_and_back online online at_root at_done to_done to_root before 5 7 5 refl
      (tag_known at_root refl) (tag_known at_done refl) moves_to_done moves_to_root went came absent

nowhere : (parts : List Text) → parts ≡ path_parts to_other → ¬ IsDestination tax_share parts
unfolding path_parts nat_eq ℕ_discrete
nowhere _ e (in_root f) = cc
nowhere _ e (in_done f) = cc

root_parts : path_parts to_root ≡ tax_share.name ∷ codes "Bill.pdf" ∷ []
unfolding path_parts nat_eq ℕ_discrete
root_parts = refl

abbrev no_documents : List ℕ → List ℕ → List PaperlessDocument
no_documents inc exc = []

abbrev old_list : List PaperlessDocument
old_list = document_at 7 (codes "Bill") (3 ∷ []) ∷ []

handle_move-Fresh_example :
    (load_documents_cached 90 no_documents
      (codes "token")
      (tax_share.name ++ (codes ":" ++ codes "root"))
      (3 ∷ [])
      (5 ∷ [])
      online.document_list_ttl
      (handle_move online at_root to_done before).1.cache).0
    ≡ no_documents (3 ∷ []) (5 ∷ [])
handle_move-Fresh_example =
    handle_move-Fresh online at_root to_done before tax_share 5 90 no_documents (codes "token")
      (codes "root") (3 ∷ []) (5 ∷ []) refl (tag_known at_root refl) (inl moves_to_done) went

abbrev no_tags : MoveContext
no_tags = record online { all_tags = none }

valid_to_done : validate_move_destination at_root (path_parts to_done) ≡ ok tt
unfolding validate_move_destination path_parts list_eq nat_eq ℕ_discrete
valid_to_done = refl

handle_move-unasked_example : handle_move no_tags at_root to_done before ≡ (ok true, before)
handle_move-unasked_example =
    handle_move-unasked no_tags at_root to_done before (inr refl) valid_to_done moves_to_done
