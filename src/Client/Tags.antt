-- ===== src/Client/Tags.antt =====
-- What the two tag requests of src/paperless_webdav/paperless_client.py do to the tags of every
-- document.
use paperless_webdav.Base.{
  ℕ, ◌≡◌, Bool, true, false, ◌&&◌, Option, none, some, List, [], ◌∷◌, ◌++◌, select, contains, arith,
  ◌==◌, if◌then◌else◌, nat_eq, inl, inr, ◌⊎◌, Bool-cases, Option-cases, lookup, lookup-insert,
}
use paperless_webdav.Outcome.{Error, ok, raise}
use paperless_webdav.Client.{
  Remote, Requests, get_tags_of, patch_tags, add_to, add_tag_to_document, without_tag, remove_from,
  remove_tag_from_document,
}

contains-snoc :
    (x t : ℕ) (tags : List ℕ)
    → contains x (tags ++ (t ∷ [])) ≡ (if x == t then true else contains x tags)
unfolding contains
contains-snoc x t [] = ground arith
contains-snoc x t (u ∷ tags) = ground (arith, contains-snoc x t tags)

contains-without_tag :
    (x t : ℕ) (tags : List ℕ)
    → contains x (without_tag t tags) ≡ (if x == t then false else contains x tags)
unfolding contains select
contains-without_tag x t [] = ground arith
contains-without_tag x t (u ∷ tags) = ground (arith, contains-without_tag x t tags)

-- Whether Paperless has the tag on the document.
abbrev pub has_in : ℕ → Option (List ℕ) → Bool
has_in tag none = false
has_in tag (some tags) = contains tag tags

unfoldable pub has_tag : ℕ → ℕ → Remote → Bool
has_tag document_id tag remote = has_in tag (lookup document_id remote)

-- A PATCH that raised was applied: the tag is, or is not, on the document afterwards, and every other
-- tag of every document is as before.
abbrev pub AppliedAnyway : Requests → ℕ → ℕ → Bool → Remote → Remote → Type 0
AppliedAnyway req document_id tag_id present before after =
    (req.patch_fails ≡ true)
    × (req.patch_applied ≡ true)
    × ((d t : ℕ)
        → has_tag d t after
          ≡ (if (d == document_id) && (t == tag_id) then present else has_tag d t before))

module _ (req : Requests) (document_id tag_id : ℕ) (remote : Remote) where
  -- A tag that was added is there afterwards, and every other tag of every document is as before.
  pub has_tag-add_tag_to_document :
      (d t : ℕ)
      → (add_tag_to_document req document_id tag_id remote).0 ≡ ok tt
      → has_tag d t (add_tag_to_document req document_id tag_id remote).1
        ≡ (if (d == document_id) && (t == tag_id) then true else has_tag d t remote)
  unfolding add_tag_to_document has_tag add_to get_tags_of patch_tags
  has_tag-add_tag_to_document d t = elim (Option-cases (lookup document_id remote)) [
    | inl e ↦ ground arith
    | inr (tags, e) ↦ ground (
      arith,
      contains-snoc t tag_id tags,
      lookup-insert d document_id (tags ++ (tag_id ∷ [])) remote,
    )
  ]

  pub has_tag-remove_tag_from_document :
      (d t : ℕ)
      → (remove_tag_from_document req document_id tag_id remote).0 ≡ ok tt
      → has_tag d t (remove_tag_from_document req document_id tag_id remote).1
        ≡ (if (d == document_id) && (t == tag_id) then false else has_tag d t remote)
  unfolding remove_tag_from_document has_tag remove_from get_tags_of patch_tags
  has_tag-remove_tag_from_document d t = elim (Option-cases (lookup document_id remote)) [
    | inl e ↦ ground arith
    | inr (tags, e) ↦ ground (
      arith,
      contains-without_tag t tag_id tags,
      lookup-insert d document_id (without_tag tag_id tags) remote,
    )
  ]

  -- A request that fails leaves Paperless as it was, or it was a PATCH that Paperless applied.
  pub add_tag_to_document-fails :
      (e : Error)
      → (add_tag_to_document req document_id tag_id remote).0 ≡ raise e
      → ((add_tag_to_document req document_id tag_id remote).1 ≡ remote)
        ⊎ AppliedAnyway req document_id tag_id true remote
            (add_tag_to_document req document_id tag_id remote).1
  unfolding add_tag_to_document add_to get_tags_of patch_tags has_tag
  add_tag_to_document-fails e raised = elim (Option-cases (lookup document_id remote)) [
    | inl unknown ↦ inl (ground arith)
    | inr (tags, known) ↦ elim (Bool-cases (contains tag_id tags)) [
      | inl has ↦ inl (ground arith)
      | inr lacks ↦ elim (Bool-cases req.patch_applied) [
        | inr ignored ↦ inl (ground arith)
        | inl applied ↦ elim (Bool-cases req.fetch_fails) [
          | inl unread ↦ inl (ground arith)
          | inr read ↦ inr (
            ground arith,
            applied,
            λ d t. ground (
              arith,
              contains-snoc t tag_id tags,
              lookup-insert d document_id (tags ++ (tag_id ∷ [])) remote,
            ),
          )
        ]
      ]
    ]
  ]

  pub remove_tag_from_document-fails :
      (e : Error)
      → (remove_tag_from_document req document_id tag_id remote).0 ≡ raise e
      → ((remove_tag_from_document req document_id tag_id remote).1 ≡ remote)
        ⊎ AppliedAnyway req document_id tag_id false remote
            (remove_tag_from_document req document_id tag_id remote).1
  unfolding remove_tag_from_document remove_from get_tags_of patch_tags has_tag
  remove_tag_from_document-fails e raised = elim (Option-cases (lookup document_id remote)) [
    | inl unknown ↦ inl (ground arith)
    | inr (tags, known) ↦ elim (Bool-cases (contains tag_id tags)) [
      | inr lacks ↦ inl (ground arith)
      | inl has ↦ elim (Bool-cases req.patch_applied) [
        | inr ignored ↦ inl (ground arith)
        | inl applied ↦ elim (Bool-cases req.fetch_fails) [
          | inl unread ↦ inl (ground arith)
          | inr read ↦ inr (
            ground arith,
            applied,
            λ d t. ground (
              arith,
              contains-without_tag t tag_id tags,
              lookup-insert d document_id (without_tag tag_id tags) remote,
            ),
          )
        ]
      ]
    ]
  ]
