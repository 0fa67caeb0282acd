-- ===== src/Provider/Prefetch/Chunks.antt =====
-- The slices of `prefetch_document_sizes` are the whole list.
use paperless_webdav.Base.{
  ℕ, zero, suc, ◌≤◌, ◌≡◌, refl, ap, ◌∙◌, List, [], ◌∷◌, ◌++◌, arith, length, take, All,
}
use paperless_webdav.Provider.Prefetch.{size_probe_chunk, drop, chunks_of, chunks_for}

-- All the ids of the chunks, in order.
abbrev pub joined_chunks : List (List ℕ) → List ℕ
joined_chunks [] = []
joined_chunks (chunk ∷ chunks) = chunk ++ joined_chunks chunks

-- What a request for sizes may be about.
abbrev pub FitsRequest : List ℕ → Type 0
FitsRequest chunk = (1 ≤ length chunk) × (length chunk ≤ size_probe_chunk)

take-drop : (n : ℕ) (xs : List ℕ) → take n xs ++ drop n xs ≡ xs
unfolding drop
take-drop zero xs = refl
take-drop (suc n) [] = refl
take-drop (suc n) (x ∷ xs) = ap (◌∷◌ x) (take-drop n xs)

length-drop : (n : ℕ) (xs : List ℕ) → length (drop n xs) ≤ length xs
unfolding drop
length-drop zero xs = omega arith
length-drop (suc n) [] = omega arith
length-drop (suc n) (x ∷ xs) = omega (arith, length-drop n xs)

length-take : (n : ℕ) (xs : List ℕ) → length (take n xs) ≤ n
length-take zero xs = omega arith
length-take (suc n) [] = omega arith
length-take (suc n) (x ∷ xs) = omega (arith, length-take n xs)

chunks_of-whole :
    (fuel : ℕ) (xs : List ℕ)
    → length xs ≤ fuel
    → (joined_chunks (chunks_of fuel xs) ≡ xs) × All FitsRequest (chunks_of fuel xs)
unfolding chunks_of
chunks_of-whole zero [] h = (refl, tt)
chunks_of-whole zero (x ∷ xs) h = absurd (omega (arith, h))
chunks_of-whole (suc fuel) [] h = (refl, tt)
chunks_of-whole (suc fuel) (x ∷ xs) h =
    let (whole, fit) = chunks_of-whole fuel (drop 99 xs) (omega (arith, h, length-drop 99 xs)) in
    (
      ap (λ (rest : List ℕ). x ∷ (take 99 xs ++ rest)) whole ∙ ap (◌∷◌ x) (take-drop 99 xs),
      ((omega arith, omega (arith, length-take 99 xs)), fit),
    )

-- The chunks of the walk are all the ids to measure, in their order, and each chunk has at least one
-- and at most a hundred.
pub chunks_for-whole :
    (ids : List ℕ) → (joined_chunks (chunks_for ids) ≡ ids) × All FitsRequest (chunks_for ids)
chunks_for-whole ids = chunks_of-whole (length ids) ids (omega arith)
