-- ===== src/Provider/Folders/Members.antt =====
-- What the names of a listing lead to.
use paperless_webdav.Base.{
  ℕ, ℕ_discrete, ◌≡◌, ◌≢◌, ◌⊎◌, inl, inr, refl, sym, ◌∙◌, Bool, true, false, ◌&&◌, not, Option,
  none, some, List, [], ◌∷◌, ◌++◌, In, In-sort_with, arith, ◌==◌, if◌then◌else◌, nat_eq, list_eq,
  lookup, keys, lookup_of_In-keys, sort_with, Text, if_cases,
}
use mathlib.Core.Bool.{true≢false}
use paperless_webdav.Provider.Documents.{PaperlessDocument}
use paperless_webdav.Provider.Filenames.{is_macos_metadata_file, index_documents}
use paperless_webdav.Provider.Folders.{
  ShareView, topic_tag_ids, untagged_documents, unsorted_folder_name, unsorted_if, text_le,
  get_member_names, Member, tag_folder, document, get_document, get_member,
}

In-append : (x : Text) (xs ys : List Text) → In x (xs ++ ys) → In x xs ⊎ In x ys
In-append x [] ys m = inr m
In-append x (y ∷ xs) ys (inl e) = inl (inl e)
In-append x (y ∷ xs) ys (inr m) = elim (In-append x xs ys m) [ inl a ↦ inl (inr a) | inr b ↦ inr b ]

chosen_In :
    (x : Text) (b : Bool) (xs ys : List Text)
    → In x (if b then xs else ys)
    → ((b ≡ true) × In x xs) ⊎ ((b ≡ false) × In x ys)
chosen_In x true xs ys m = inl (refl, m)
chosen_In x false xs ys m = inr (refl, m)

both_true : (s t : Text) (b : Bool) → s ≡ t → b ≡ true → ((s == t) && b) ≢ false
both_true s t b e f h = ground (arith, e, f, h)

not_both : (s t : Text) (b : Bool) → (s ≢ t) ⊎ (b ≡ false) → ((s == t) && b) ≢ true
not_both s t b (inl n) h = ground (arith, n, h)
not_both s t b (inr f) h = ground (arith, f, h)

module _ (v : ShareView) (name : Text) where
  get_document-listed : In name (keys (index_documents v.documents)) → get_document v name ≢ none
  unfolding get_document
  get_document-listed m = ground (arith, lookup_of_In-keys name (index_documents v.documents) m)

  first_leads :
      In name (if v.share.done_folder_enabled then v.share.done_folder_name ∷ [] else [])
      → get_member v name ≢ none
  unfolding get_member
  first_leads m = elim (chosen_In name v.share.done_folder_enabled _ _ m) [
    | inr (_, none_of) ↦ absurd none_of
    | inl (_, inr none_of) ↦ absurd none_of
    | inl (enabled, inl named) ↦
        if_cases (λ (x : Option Member). x ≢ none) (is_macos_metadata_file name) _ _ (λ _ e. cc)
          λ _.
            if_cases (λ (x : Option Member). x ≢ none)
              ((name == v.share.done_folder_name) && v.share.done_folder_enabled) _ _ (λ _ e. cc)
              λ apart. absurd (
                both_true name v.share.done_folder_name v.share.done_folder_enabled named enabled
                  apart)
  ]

  unsorted_leads :
      (documents : List PaperlessDocument)
      → In name (unsorted_if documents)
      → name ≡ unsorted_folder_name
  unsorted_leads [] m = absurd m
  unsorted_leads (d ∷ documents) (inl e) = e
  unsorted_leads (d ∷ documents) (inr m) = absurd m

  folder_leads :
      In name (sort_with text_le (keys (topic_tag_ids v)) ++ unsorted_if (untagged_documents v))
      → (name ≡ unsorted_folder_name) ⊎ (lookup name (topic_tag_ids v) ≢ none)
  folder_leads m = elim (In-append name (sort_with text_le (keys (topic_tag_ids v))) _ m) [
    | inl topic ↦ inr (
        lookup_of_In-keys name (topic_tag_ids v)
          ((In-sort_with text_le name (keys (topic_tag_ids v))).0 topic))
    | inr loose ↦ inl (unsorted_leads (untagged_documents v) loose)
  ]

  rest_leads :
      In name (
        if v.tag_folders
        then sort_with text_le (keys (topic_tag_ids v)) ++ unsorted_if (untagged_documents v)
        else keys (index_documents v.documents))
      → (if not v.tag_folders
          then get_document v name
          else if name == unsorted_folder_name
          then some (tag_folder none)
          else elim (lookup name (topic_tag_ids v)) [
            | none ↦ get_document v name
            | some tag_id ↦ some (tag_folder (some tag_id))
          ])
        ≢ none
  rest_leads m = elim (chosen_In name v.tag_folders _ _ m) [
    | inl (mode, folders) ↦ ground (arith, folder_leads folders)
    | inr (mode, documents) ↦ ground (arith, get_document-listed documents)
  ]

  -- Every name that the listing of a share shows leads to a member.
  pub get_member_names-lead : In name (get_member_names v) → get_member v name ≢ none
  unfolding get_member_names get_member
  get_member_names-lead m = elim (In-append name _ _ m) [
    | inl first ↦ first_leads first
    | inr rest ↦
        if_cases (λ (x : Option Member). x ≢ none) (is_macos_metadata_file name) _ _ (λ _ e. cc)
          λ _.
            if_cases (λ (x : Option Member). x ≢ none)
              ((name == v.share.done_folder_name) && v.share.done_folder_enabled) _ _ (λ _ e. cc)
              λ _. rest_leads rest
  ]

  -- In the flat mode the name of a document in the index leads to that document, unless it is the
  -- name of a macOS metadata file or of the done folder.
  pub get_member-document :
      (d : PaperlessDocument)
      → v.tag_folders ≡ false
      → lookup name (index_documents v.documents) ≡ some d
      → is_macos_metadata_file name ≡ false
      → (name ≢ v.share.done_folder_name) ⊎ (v.share.done_folder_enabled ≡ false)
      → get_member v name ≡ some (document false d)
  unfolding get_member get_document
  get_member-document d flat found plain apart = ground arith

unsorted_plain : is_macos_metadata_file unsorted_folder_name ≡ false
unfolding is_macos_metadata_file list_eq nat_eq ℕ_discrete
unsorted_plain = refl

-- A tag that is named like the catch-all folder has no folder of its own: the name leads to the
-- catch-all, which does not hold the documents of the tag.
pub get_member-unsorted :
    (v : ShareView) (tag_id : ℕ)
    → v.tag_folders ≡ true
    → (unsorted_folder_name ≢ v.share.done_folder_name) ⊎ (v.share.done_folder_enabled ≡ false)
    → lookup unsorted_folder_name (topic_tag_ids v) ≡ some tag_id
    → get_member v unsorted_folder_name ≡ some (tag_folder none)
unfolding get_member
get_member-unsorted v tag_id mode apart topic =
    let Leads : Option Member → Type 0 = λ x. x ≡ some (tag_folder none) in
    if_cases Leads (is_macos_metadata_file unsorted_folder_name) _ _
      (λ meta. absurd (true≢false (sym meta ∙ unsorted_plain)))
      λ _.
        if_cases Leads
          ((unsorted_folder_name == v.share.done_folder_name) && v.share.done_folder_enabled) _ _
          (λ same. absurd (
            not_both unsorted_folder_name v.share.done_folder_name v.share.done_folder_enabled apart
              same))
          λ _.
            if_cases Leads (not v.tag_folders) _ _ (λ flat. ground arith)
              λ _.
                if_cases Leads (unsorted_folder_name == unsorted_folder_name) _ _ (λ _. refl)
                  (λ n. ground arith)
