-- ===== src/Provider/Filenames/Overwrite.antt =====
-- The listings in which the loop writes one document over another.
use paperless_webdav.Base.{
  ℕ, ◌<◌, ◌≡◌, ◌≢◌, refl, ap, sym, ◌∙◌, none, some, [], ◌∷◌, ◌++◌, by_key, arith, nat_eq, list_eq,
  lookup, insert, lookup-insert, lookup-nil, sort_with, Text, codes, decimal,
}
use mathlib.Core.List.{append_cancel_left, append_cancel_right, append-nil}
use mathlib.Core.Option.{some-injective}
use paperless_webdav.Provider.Documents.{PaperlessDocument}
use paperless_webdav.Provider.Filenames.{
  base_name, plain_name, numbered_name, Index, add_document, document_id, index_documents,
}

-- Three documents in the order of their ids: the first and the last share a sanitized title, and
-- the second is titled like the last with its number.
pub record Clashes (a b c : PaperlessDocument) : Type 0 where
  pub first : a.id < b.id
  pub second : b.id < c.id
  pub same : base_name c ≡ base_name a
  pub clash : base_name b ≡ base_name c ++ (b'_' ∷ decimal c.id)

grows : (s t : Text) (c : ℕ) → s ≢ s ++ (c ∷ t)
grows s t c e = cc (append_cancel_left s [] (c ∷ t) (append-nil s ∙ e))

already_sorted :
    (a b c : PaperlessDocument)
    → a.id < b.id
    → b.id < c.id
    → sort_with (by_key document_id) (a ∷ b ∷ c ∷ []) ≡ a ∷ b ∷ c ∷ []
unfolding sort_with
already_sorted a b c h k = ground arith

module _ (a b c : PaperlessDocument) (k : Clashes a b c) where
  apart : plain_name b ≢ plain_name a
  apart e = grows (base_name a) (decimal c.id) b'_' (
      sym (append_cancel_right _ _ (codes ".pdf") e)
      ∙ k.clash
      ∙ ap (λ (t : Text). t ++ (b'_' ∷ decimal c.id)) k.same)

  plain_again : plain_name c ≡ plain_name a
  plain_again = ap (λ (t : Text). t ++ codes ".pdf") k.same

  over : numbered_name c ≡ plain_name b
  over = ap (λ (t : Text). t ++ codes ".pdf") (sym k.clash)

  first_index : Index
  first_index = insert (plain_name a) a []

  second_index : Index
  second_index = insert (plain_name b) b first_index

  step_one : add_document [] a ≡ first_index
  unfolding add_document first_index
  step_one = rw (lookup-nil {V = PaperlessDocument}) refl

  step_two : add_document first_index b ≡ second_index
  unfolding add_document second_index first_index
  step_two =
      let free : lookup (plain_name b) (insert (plain_name a) a []) ≡ none = ground (
        arith,
        apart,
        lookup-insert (plain_name b) (plain_name a) a [],
        lookup-nil {V = PaperlessDocument} (plain_name b),
      ) in
      rw free refl

  step_three : add_document second_index c ≡ insert (plain_name b) c second_index
  unfolding add_document second_index first_index
  step_three =
      let taken : lookup (plain_name c) (insert (plain_name b) b (insert (plain_name a) a []))
          ≡ some a =
        ground (
          arith,
          apart,
          plain_again,
          lookup-insert (plain_name c) (plain_name b) b (insert (plain_name a) a []),
          lookup-insert (plain_name c) (plain_name a) a [],
        ) in
      rw taken
        (ap (λ (t : Text). insert t c (insert (plain_name b) b (insert (plain_name a) a []))) over)

  -- Where the second of three documents is titled like the last with its number, and the first and
  -- the last share a sanitized title, the index has no name for the second document: the numbered
  -- name of the last one is written over its entry.
  pub index_documents-loses :
      (name : Text) → lookup name (index_documents (a ∷ b ∷ c ∷ [])) ≢ some b
  unfolding index_documents second_index first_index
  index_documents-loses name h =
      let built : index_documents (a ∷ b ∷ c ∷ []) ≡ insert (plain_name b) c second_index =
        rw (already_sorted, k.first, k.second, step_one, step_two, step_three) refl in
      let found : lookup name (insert (plain_name b) c second_index) ≡ some b = (rw built at h) in
      let differ : b ≢ c = (λ e. ground (arith, k.second, ap document_id e)) in
      ground (
        arith,
        found,
        differ,
        lookup-insert name (plain_name b) c second_index,
        lookup-insert name (plain_name b) b (insert (plain_name a) a []),
        lookup-insert name (plain_name a) a [],
        lookup-nil {V = PaperlessDocument} name,
        apart,
        some-injective {A = PaperlessDocument},
      )
