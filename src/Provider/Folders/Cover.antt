-- ===== src/Provider/Folders/Cover.antt =====
-- Every document of a share is in some folder of the tag-folder mode.
use paperless_webdav.Base.{
  ℕ, ◌≡◌, ◌⊎◌, inl, inr, refl, ap, true, not, none, some, [], ◌∷◌, any-In, any_of_In, contains,
  contains_iff, In, In-of_select, In-select, arith, nat_eq, list_eq, Dict, values, Text, Bool-cases,
}
use paperless_webdav.Provider.Documents.{PaperlessDocument}
use paperless_webdav.Provider.Folders.{
  ShareView, topic_tag_ids, is_filed, untagged_documents, select_documents,
}

In-values : (i : ℕ) (d : Dict Text ℕ) → In i (values d) → (name : Text) × In (name, i) d
unfolding values
In-values i [] m = absurd m
In-values i ((n, j) ∷ d) (inl e) = (n, inl (rw e refl))
In-values i ((n, j) ∷ d) (inr m) = let (name, k) = In-values i d m in (name, inr k)

In-values_of_In : (name : Text) (i : ℕ) (d : Dict Text ℕ) → In (name, i) d → In i (values d)
unfolding values
In-values_of_In name i [] m = absurd m
In-values_of_In name i ((n, j) ∷ d) (inl e) = inl (ap (λ (t : Text × ℕ). t.1) e)
In-values_of_In name i ((n, j) ∷ d) (inr m) = inr (In-values_of_In name i d m)

-- A document that is filed has one of the tags of the folders.
filed_under :
    (topics : Dict Text ℕ) (d : PaperlessDocument)
    → is_filed (values topics) d ≡ true
    → (name : Text) × (tag_id : ℕ) × In (name, tag_id) topics × (contains tag_id d.tags ≡ true)
filed_under topics d filed =
    let (t, has, among) = any-In (λ t. contains t (values topics)) d.tags filed in
    let (name, topic) = In-values t topics ((contains_iff t (values topics)).0 among) in
    (name, t, topic, (contains_iff t d.tags).1 has)

filed_of_tag :
    (topics : Dict Text ℕ) (d : PaperlessDocument) (name : Text) (tag_id : ℕ)
    → In (name, tag_id) topics
    → contains tag_id d.tags ≡ true
    → is_filed (values topics) d ≡ true
filed_of_tag topics d name tag_id topic has =
    any_of_In (λ t. contains t (values topics)) tag_id d.tags ((contains_iff tag_id d.tags).0 has)
      ((contains_iff tag_id (values topics)).1 (In-values_of_In name tag_id topics topic))

module _ (v : ShareView) (d : PaperlessDocument) (m : In d v.documents) where
  -- In the tag-folder mode every document that the share root would list is in the folder of one of
  -- its tags, or else in the catch-all folder; and a document of a tag's folder is not in the
  -- catch-all.
  pub select_documents-cover :
      (((name : Text) × (tag_id : ℕ) × In (name, tag_id) (topic_tag_ids v)
          × In d (select_documents v (some tag_id)))
        ⊎ In d (select_documents v none))
      × ((name : Text) (tag_id : ℕ)
          → In (name, tag_id) (topic_tag_ids v)
          → In d (select_documents v (some tag_id))
          → ¬ In d (select_documents v none))
  unfolding select_documents untagged_documents
  select_documents-cover = (
    elim (Bool-cases (is_filed (values (topic_tag_ids v)) d)) [
      | inl filed ↦ inl (
          let (name, tag_id, topic, has) = filed_under (topic_tag_ids v) d filed in
          (name, tag_id, topic, In-select (λ doc. contains tag_id doc.tags) d v.documents m has))
      | inr loose ↦ inr (
          In-select (λ doc. not (is_filed (values (topic_tag_ids v)) doc)) d v.documents m
            (ground arith))
    ],
    λ name tag_id topic filed loose.
        let (_, has) = In-of_select (λ doc. contains tag_id doc.tags) d v.documents filed in
        let (_, unfiled) =
          In-of_select (λ doc. not (is_filed (values (topic_tag_ids v)) doc)) d v.documents loose in
        let is = filed_of_tag (topic_tag_ids v) d name tag_id topic has in ground arith,
  )
