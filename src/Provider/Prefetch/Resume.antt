-- ===== src/Provider/Prefetch/Resume.antt =====
-- What a prefetch of sizes leaves for the next one.
use paperless_webdav.Base.{
  ℕ, ◌≡◌, ◌≢◌, sym, false, Option, none, some, List, [], ◌∷◌, inl, inr, arith, In, nat_eq, list_eq,
  option_eq, contains_iff, Dict, lookup, insert, lookup-insert, Option-cases,
}
use mathlib.Core.Option.{some-ne-none}
use paperless_webdav.Cache.Memory.{InMemoryCache}
use paperless_webdav.Services.DocumentSizes.{
  SizeTable, version_of, load_sizes, upsert, store_sizes, lookup-load_sizes,
}
use paperless_webdav.Provider.Documents.{PaperlessDocument}
use paperless_webdav.Provider.Write.{versions_from}
use paperless_webdav.Provider.Prefetch.{
  Versions, Measure, SizeState, missing_in, current_size, restore, measure_chunks, to_measure,
  chunks_for, prefetch_document_sizes,
}

-- The table has a size of the document under the version at hand.
pub record IsStored (versions : Versions) (i : ℕ) (table : SizeTable) : Type 0 where
  pub size : ℕ
  pub row : lookup i table ≡ some (version_of i versions, size)

upsert-IsStored :
    (versions : Versions) (i : ℕ) (sizes : Dict ℕ ℕ) (table : SizeTable)
    → IsStored versions i table
    → IsStored versions i (upsert sizes versions table)
unfolding upsert
upsert-IsStored versions i [] table h = h
upsert-IsStored versions i ((j, n) ∷ sizes) table h =
    upsert-IsStored versions i sizes (insert j (version_of j versions, n) table)
      (elim (nat_eq.dec i j) [
        | yes e ↦ record {
          size = n;
          row = ground (arith, lookup-insert i j (version_of j versions, n) table);
        }
        | no e ↦ record {
          size = h.size;
          row = ground (arith, h.row, lookup-insert i j (version_of j versions, n) table);
        }
      ])

measured-IsStored :
    (versions : Versions) (i n : ℕ) (sizes : Dict ℕ ℕ) (table : SizeTable)
    → lookup i sizes ≡ some n
    → IsStored versions i (upsert sizes versions table)
unfolding upsert lookup
measured-IsStored versions i n [] table h = absurd (some-ne-none n (sym h))
measured-IsStored versions i n ((j, m) ∷ sizes) table h = elim (nat_eq.dec i j) [
  | yes e ↦ upsert-IsStored versions i sizes (insert j (version_of j versions, m) table) (record {
    size = m;
    row = ground (arith, lookup-insert i j (version_of j versions, m) table);
  })
  | no e ↦
      measured-IsStored versions i n sizes (insert j (version_of j versions, m) table)
        (ground arith)
]

-- The walk comes to a chunk: none of the chunks before it fails.
pub data Reaches (measure : Measure) (chunk : List ℕ) : List (List ℕ) → Type 0 where
  here : (chunks : List (List ℕ)) → Reaches measure chunk (chunk ∷ chunks)
  later :
      (first : List ℕ) (chunks : List (List ℕ))
      → measure first ≢ none
      → Reaches measure chunk chunks
      → Reaches measure chunk (first ∷ chunks)

module _ (measure : Measure) (ttl : Option ℕ) (versions : Versions) (i : ℕ) where
  measure_chunks-IsStored :
      (chunks : List (List ℕ)) (s : SizeState)
      → IsStored versions i s.table
      → IsStored versions i (measure_chunks measure ttl versions false chunks s).table
  unfolding measure_chunks store_sizes
  measure_chunks-IsStored [] s h = h
  measure_chunks-IsStored (chunk ∷ chunks) s h = elim (Option-cases (measure chunk)) [
    | inl e ↦ rw (e, measure_chunks) h
    | inr ((now, sizes), e) ↦
        rw (e, measure_chunks)
          (measure_chunks-IsStored chunks _ (upsert-IsStored versions i sizes s.table h))
  ]

  reached-IsStored :
      (chunk : List ℕ) (now n : ℕ) (sizes : Dict ℕ ℕ) (chunks : List (List ℕ)) (s : SizeState)
      → measure chunk ≡ some (now, sizes)
      → lookup i sizes ≡ some n
      → Reaches measure chunk chunks
      → IsStored versions i (measure_chunks measure ttl versions false chunks s).table
  unfolding measure_chunks store_sizes
  reached-IsStored chunk now n sizes _ s e found (here chunks) =
      rw (e, measure_chunks)
        (measure_chunks-IsStored chunks _ (measured-IsStored versions i n sizes s.table found))
  reached-IsStored chunk now n sizes _ s e found (later first chunks went r) =
      elim (Option-cases (measure first)) [
        | inl failed ↦ absurd (went failed)
        | inr ((t, firsts), k) ↦
            rw (k, measure_chunks) (reached-IsStored chunk now n sizes chunks _ e found r)
      ]

-- A document whose row is current is restored, and not measured.
restore-skips :
    (now : ℕ) (ttl : Option ℕ) (versions : Versions) (stored : SizeTable) (i : ℕ) (missing : List ℕ)
    (c : InMemoryCache)
    → (In i missing → current_size versions i (lookup i stored) ≢ none)
    → ¬ In i (restore now ttl versions stored missing c).0
unfolding restore
restore-skips now ttl versions stored i [] c current = λ m. m
restore-skips now ttl versions stored i (j ∷ missing) c current =
    elim (Option-cases (current_size versions j (lookup j stored))) [
      | inr (size, e) ↦
          rw (e, restore) (restore-skips now ttl versions stored i missing _ (λ m. current (inr m)))
      | inl e ↦
          rw (e, restore)
            (λ m. elim m [
              | inl same ↦ current (inl same) (rw same e)
              | inr rest ↦
                  restore-skips now ttl versions stored i missing c (λ k. current (inr k)) rest
            ])
    ]

loaded-current :
    (versions : Versions) (i : ℕ) (missing : List ℕ) (table : SizeTable)
    → IsStored versions i table
    → In i missing
    → current_size versions i (lookup i (load_sizes false missing table)) ≢ none
unfolding current_size
loaded-current versions i missing table h m =
    let found : lookup i (load_sizes false missing table) ≡ some (version_of i versions, h.size) =
      ground
        (arith, lookup-load_sizes false i missing table, (contains_iff i missing).1 m, h.row) in
    rw found (ground arith)

module _ (measure : Measure) (now : ℕ) (ttl : Option ℕ) (documents : List PaperlessDocument)
    (s : SizeState) where
  -- While the database is up, a size that a prefetch measured is not measured again, even where
  -- the prefetch failed later on: for every chunk that it came to and every size found in it, the
  -- next prefetch of the same documents, at any time and with any cache, has no need to measure
  -- that document.
  pub prefetch_document_sizes-resumes :
      (chunk : List ℕ) (t i n : ℕ) (sizes : Dict ℕ ℕ) (next : ℕ) (cache : InMemoryCache)
      → Reaches measure chunk (chunks_for (to_measure now ttl false documents s).0)
      → measure chunk ≡ some (t, sizes)
      → lookup i sizes ≡ some n
      → ¬ In i
          (to_measure next ttl false documents
            (record (prefetch_document_sizes measure now ttl false documents s) {
              cache = cache;
            })).0
  unfolding to_measure prefetch_document_sizes
  prefetch_document_sizes-resumes chunk t i n sizes next cache reached found size =
      let versions = versions_from [] documents in
      let after = prefetch_document_sizes measure now ttl false documents s in
      let missing = (missing_in next documents cache).0 in
      let kept : IsStored versions i after.table =
        reached-IsStored measure ttl versions i chunk t n sizes _ _ found size reached in
      restore-skips next ttl versions (load_sizes false missing after.table) i missing _
        (loaded-current versions i missing after.table kept)
