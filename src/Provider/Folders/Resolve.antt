-- ===== src/Provider/Folders/Resolve.antt =====
-- What the paths of a request lead to.
use paperless_webdav.Base.{
  ℕ, ◌≡◌, ◌≢◌, ◌⊎◌, inl, inr, refl, ap, sym, ◌∙◌, Bool, true, false, ◌&&◌, not, Option, none, some,
  List, [], ◌∷◌, arith, ◌==◌, nat_eq, list_eq, Dict, lookup, Text, Option-cases, if_cases,
}
use mathlib.Core.Bool.{true≢false}
use mathlib.Core.Option.{none-ne-some}
use paperless_webdav.Provider.Documents.{PaperlessDocument, Share}
use paperless_webdav.Provider.Filenames.{is_macos_metadata_file, index_documents}
use paperless_webdav.Provider.Folders.{
  ShareView, topic_tag_ids, select_documents, unsorted_folder_name, Member, metadata, done_folder,
  tag_folder, document, get_document, get_member, get_folder_member, get_below, member_resource,
  as_resource, resolve_in, resolve_parts,
}

-- What holds of every answer of `get_member`, from each of its branches.
get_member-cases :
    (P : Option Member → Type 0) (v : ShareView) (name : Text)
    → P (some metadata)
    → (((name == v.share.done_folder_name) && v.share.done_folder_enabled) ≡ true
        → P (some done_folder))
    → P (get_document v name)
    → ((tag_id : Option ℕ) → P (some (tag_folder tag_id)))
    → P (get_member v name)
unfolding get_member
get_member-cases P v name meta done documents folders =
    if_cases P (is_macos_metadata_file name) _ _ (λ _. meta)
      λ _.
        if_cases P ((name == v.share.done_folder_name) && v.share.done_folder_enabled) _ _ done λ _.
          if_cases P (not v.tag_folders) _ _ (λ _. documents)
            λ _.
              if_cases P (name == unsorted_folder_name) _ _ (λ _. folders none)
                λ _. elim (Option-cases (lookup name (topic_tag_ids v))) [
                  | inl absent ↦ rw absent documents
                  | inr (tag_id, topic) ↦ rw topic (folders (some tag_id))
                ]

get_document-outside :
    (v : ShareView) (name : Text) (b : Bool) (d : PaperlessDocument)
    → get_document v name ≡ some (document b d)
    → b ≡ false
unfolding get_document
get_document-outside v name b d e =
    elim (Option-cases (lookup name (index_documents v.documents))) [
      | inr (doc, found) ↦ ground arith
      | inl absent ↦ elim (Option-cases (lookup name v.static_index)) [
        | inl gone ↦ ground arith
        | inr (doc, found) ↦ ground arith
      ]
    ]

get_document-no_folder : (v : ShareView) (name : Text) → get_document v name ≢ some done_folder
unfolding get_document
get_document-no_folder v name e = elim (Option-cases (lookup name (index_documents v.documents))) [
  | inr (doc, found) ↦ ground arith
  | inl absent ↦ elim (Option-cases (lookup name v.static_index)) [
    | inl gone ↦ ground arith
    | inr (doc, found) ↦ ground arith
  ]
]

get_member-outside :
    (v : ShareView) (name : Text) (b : Bool) (d : PaperlessDocument)
    → get_member v name ≡ some (document b d)
    → b ≡ false
get_member-outside v name b d =
    get_member-cases (λ m. m ≡ some (document b d) → b ≡ false) v name (λ e. cc) (λ _ e. cc)
      (get_document-outside v name b d) (λ _ e. cc)

get_member-done_folder :
    (v : ShareView) (name : Text)
    → get_member v name ≡ some done_folder
    → (name ≡ v.share.done_folder_name) × (v.share.done_folder_enabled ≡ true)
get_member-done_folder v name =
    get_member-cases
      (λ m.
        m ≡ some done_folder
        → (name ≡ v.share.done_folder_name) × (v.share.done_folder_enabled ≡ true))
      v name (λ e. cc) (λ both _. ground arith) (λ e. absurd (get_document-no_folder v name e))
      (λ _ e. cc)

get_folder_member-same :
    (b c : Bool) (documents : List PaperlessDocument) (name : Text) (d : PaperlessDocument)
    → get_folder_member b documents name ≡ some (document c d)
    → c ≡ b
unfolding get_folder_member
get_folder_member-same b c documents name d =
    if_cases (λ (m : Option Member). m ≡ some (document c d) → c ≡ b) (is_macos_metadata_file name)
      _ _ (λ _ e. cc)
      λ _ e. elim (Option-cases (lookup name (index_documents documents))) [
        | inl absent ↦ ground arith
        | inr (doc, found) ↦ ground arith
      ]

get_below-done :
    (v : ShareView) (name : Text) (m : Option Member) (d : PaperlessDocument)
    → get_below v name m ≡ some (document true d)
    → m ≡ some done_folder
unfolding get_below
get_below-done v name none d e = cc
get_below-done v name (some metadata) d e = cc
get_below-done v name (some (document b doc)) d e = cc
get_below-done v name (some done_folder) d e = refl
get_below-done v name (some (tag_folder tag_id)) d e =
    absurd (true≢false (get_folder_member-same false true (select_documents v tag_id) name d e))

as_resource-some :
    (s share : Share) (m : Option Member) (n : Member)
    → as_resource s m ≡ some (member_resource share n)
    → (s ≡ share) × (m ≡ some n)
as_resource-some s share none n e = cc
as_resource-some s share (some m) n e = (cc, cc)

resolve_in-document :
    (v : ShareView) (parts : List Text) (share : Share) (in_done : Bool) (d : PaperlessDocument)
    → resolve_in v parts ≡ some (member_resource share (document in_done d))
    → (v.share ≡ share)
      × (((name : Text) × (parts ≡ name ∷ []) × (in_done ≡ false))
          ⊎ ((folder : Text) × (name : Text) × (parts ≡ folder ∷ name ∷ [])
              × ((in_done ≡ true)
                  → (folder ≡ share.done_folder_name) × (share.done_folder_enabled ≡ true))))
unfolding resolve_in
resolve_in-document v [] share in_done d e = cc
resolve_in-document v (name ∷ []) share in_done d e =
    let (same, member) =
      as_resource-some v.share share (get_member v name) (document in_done d) e in
    (same, inl (name, refl, get_member-outside v name in_done d member))
resolve_in-document v (folder ∷ name ∷ []) share in_done d e =
    let (same, member) =
      as_resource-some v.share share (get_below v name (get_member v folder)) (document in_done d)
        e in
    (
      same,
      inr (
        folder,
        name,
        refl,
        λ inside.
            let below : get_below v name (get_member v folder) ≡ some (document true d) =
              member ∙ ap (λ (b : Bool). some (document b d)) inside in
            let through =
              get_member-done_folder v folder
                (get_below-done v name (get_member v folder) d below) in
            (
              through.0 ∙ ap (λ (s : Share). s.done_folder_name) same,
              sym (ap (λ (s : Share). s.done_folder_enabled) same) ∙ through.1,
            ),
      ),
    )
resolve_in-document v (folder ∷ name ∷ more ∷ rest) share in_done d e = cc

-- A path that leads to a document names its share first, and has two parts or three. With two, the
-- document is not taken for one in the done folder; with three, it is only if the second part is
-- the name of the share's done folder, which is enabled.
pub resolve_parts-document :
    (shares : Dict Text ShareView) (parts : List Text) (share : Share) (in_done : Bool)
    (d : PaperlessDocument)
    → resolve_parts shares parts ≡ some (member_resource share (document in_done d))
    → (share_name : Text) × (v : ShareView) × (lookup share_name shares ≡ some v)
      × (v.share ≡ share)
      × (((name : Text) × (parts ≡ share_name ∷ name ∷ []) × (in_done ≡ false))
          ⊎ ((folder : Text) × (name : Text) × (parts ≡ share_name ∷ folder ∷ name ∷ [])
              × ((in_done ≡ true)
                  → (folder ≡ share.done_folder_name) × (share.done_folder_enabled ≡ true))))
unfolding resolve_parts
resolve_parts-document shares [] share in_done d e = cc
resolve_parts-document shares (share_name ∷ parts) share in_done d e =
    elim (Option-cases (lookup share_name shares)) [
      | inl absent ↦ absurd (
          none-ne-some (member_resource share (document in_done d))
            (rw (absent, resolve_parts) at e))
      | inr (v, found) ↦
          let located =
            resolve_in-document v parts share in_done d (rw (found, resolve_parts) at e) in
          (
            share_name,
            v,
            found,
            located.0,
            elim located.1 [
              | inl (name, at, outside) ↦ inl (name, ap (◌∷◌ share_name) at, outside)
              | inr (folder, name, at, inside) ↦ inr (folder, name, ap (◌∷◌ share_name) at, inside)
            ],
          )
    ]
