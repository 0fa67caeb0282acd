-- ===== src/Spool/Attribution/Verdict.antt =====
-- What each answer of `attribute_source` says about the candidates and the path.
use paperless_webdav.Base.{
  ℕ, ◌+◌, ◌-◌, ◌≤◌, ◌<◌, ◌≡◌, ◌≢◌, ◌⊎◌, refl, ap, true, false, Option, none, some, List, [], ◌∷◌,
  leb, Dict, arith, In, All-In, Bool-cases, inl, inr, sort_with, In-sort_with, Sorted,
  Sorted-sort_with,
}
use paperless_webdav.Spool.Attribution.{
  Confidence, by_size, conflict, ambiguous, weak, unknown, ambiguous_delta_window, tolerance, fits,
  deltas, pair_le, pair_le-IsOrder, near_tie, contradicts, judge, attribute_source,
}

-- `stored` is a size that the upload may have grown from, by `delta` bytes.
pub record Fits (upload_size stored delta : ℕ) : Type 0 where
  pub grown : stored + delta ≡ upload_size
  pub little : delta ≤ tolerance upload_size

-- The stored size behind an entry of `deltas`.
In-of_deltas :
    (n delta i : ℕ) (c : Dict ℕ ℕ)
    → In (delta, i) (deltas n c)
    → (stored : ℕ) × In (i, stored) c × Fits n stored delta
unfolding deltas
In-of_deltas n delta i [] m = absurd m
In-of_deltas n delta i ((j, stored) ∷ c) m = elim (Bool-cases (fits n stored)) [
  | inl e ↦
      (let m' : In (delta, i) ((n - stored, j) ∷ deltas n c) = (rw e at m) in
        elim m' [
          | inl here ↦
              (stored, inl (ground arith), record { grown = ground arith; little = ground arith })
          | inr there ↦ (let (s, at_, f) = In-of_deltas n delta i c there in (s, inr at_, f))
        ])
  | inr e ↦
      (let m' : In (delta, i) (deltas n c) = (rw e at m) in
        let (s, at_, f) = In-of_deltas n delta i c m' in (s, inr at_, f))
]

In-deltas :
    (n delta i stored : ℕ) (c : Dict ℕ ℕ)
    → In (i, stored) c
    → Fits n stored delta
    → In (delta, i) (deltas n c)
unfolding deltas
In-deltas n delta i stored [] m f = m
In-deltas n delta i stored ((j, s) ∷ c) m f = ground (arith, In-deltas n delta i stored c)

agreed :
    (p i d : ℕ)
    → contradicts (some p) i d ≡ false
    → (some p ≡ some i) ⊎ (d ≤ ambiguous_delta_window)
unfolding contradicts
agreed p i d h = ground arith

module _ (n : ℕ) (candidates : Dict ℕ ℕ) where
  -- No candidate can be the source.
  abbrev pub NoneFits : Type 0
  NoneFits = (i stored delta : ℕ) → In (i, stored) candidates → ¬ Fits n stored delta

  -- Document `i` fits by `delta`, and no candidate fits more closely.
  pub record Closest (i delta : ℕ) : Type 0 where
    pub stored : ℕ
    pub known : In (i, stored) candidates
    pub fitting : Fits n stored delta
    pub least : (j s d : ℕ) → In (j, s) candidates → Fits n s d → delta ≤ d

  -- Every other document that fits is further off than the window.
  abbrev pub Clear : ℕ → ℕ → Type 0
  Clear i delta =
      (j s d : ℕ) → In (j, s) candidates → Fits n s d → j ≢ i → delta + ambiguous_delta_window < d

  -- What the program promises of each answer.
  abbrev pub Explains : Option ℕ → Option ℕ × Confidence → Type 0
  Explains path (source, by_size) =
      (i delta : ℕ) × (source ≡ some i)
      × Closest i delta
      × Clear i delta
      × ((path ≡ none) ⊎ ((path ≡ some i) ⊎ (delta ≤ ambiguous_delta_window)))
  Explains path (source, conflict) =
      (i p delta : ℕ) × (source ≡ some p)
      × (path ≡ some p)
      × (p ≢ i)
      × Closest i delta
      × Clear i delta
      × (ambiguous_delta_window < delta)
  Explains path (source, ambiguous) =
      (i delta j s d : ℕ) × (source ≡ some i)
      × Closest i delta
      × In (j, s) candidates
      × Fits n s d
      × (d ≤ delta + ambiguous_delta_window)
  Explains path (source, weak) = (p : ℕ) × (source ≡ some p) × (path ≡ some p) × NoneFits
  Explains path (source, unknown) = (source ≡ none) × (path ≡ none) × NoneFits

  -- The sorted list that `judge` reads.
  ranked : List (ℕ × ℕ)
  ranked = sort_with pair_le (deltas n candidates)

  module _ (listed : List (ℕ × ℕ)) (same : ranked ≡ listed) where
    entry : (d i : ℕ) → In (d, i) listed → (s : ℕ) × In (i, s) candidates × Fits n s d
    unfolding ranked
    entry d i m =
        In-of_deltas n d i candidates
          ((In-sort_with pair_le (d, i) (deltas n candidates)).0 (rw same m))

    listed_of : (i s d : ℕ) → In (i, s) candidates → Fits n s d → In (d, i) listed
    unfolding ranked
    listed_of i s d m f =
        rw (← same)
          ((In-sort_with pair_le (d, i) (deltas n candidates)).1 (In-deltas n d i s candidates m f))

    ordered : Sorted pair_le listed
    unfolding ranked
    ordered = rw (← same) (Sorted-sort_with pair_le pair_le-IsOrder (deltas n candidates))

  NoneFits_of_nil : ranked ≡ [] → NoneFits
  NoneFits_of_nil same i s d m f = listed_of [] same i s d m f

  module _ (bd bi : ℕ) (rest : List (ℕ × ℕ)) (same : ranked ≡ (bd, bi) ∷ rest) where
    least_first : (d j : ℕ) → In (d, j) ((bd, bi) ∷ rest) → bd ≤ d
    least_first d j (inl e) = ground arith
    least_first d j (inr m) =
        let le : pair_le (bd, bi) (d, j) ≡ true =
          All-In (λ y. pair_le (bd, bi) y ≡ true) (d, j) rest (ordered _ same).0 m in
        ground arith

    first-Closest : Closest bi bd
    first-Closest =
        let (s, m, f) = entry _ same bd bi (inl refl) in
        record {
          stored = s;
          known = m;
          fitting = f;
          least = λ j t d m' f'. least_first d j (listed_of _ same j t d m' f');
        }

  second_far :
      (bd bi d2 j2 : ℕ) (rest : List (ℕ × ℕ))
      → Sorted pair_le ((d2, j2) ∷ rest)
      → leb (d2 - bd) ambiguous_delta_window ≡ false
      → (d j : ℕ) → In (d, j) ((d2, j2) ∷ rest)
      → bd + ambiguous_delta_window < d
  second_far bd bi d2 j2 rest s far d j (inl e) = ground arith
  second_far bd bi d2 j2 rest s far d j (inr m) =
      let le : pair_le (d2, j2) (d, j) ≡ true =
        All-In (λ y. pair_le (d2, j2) y ≡ true) (d, j) rest s.0 m in
      ground arith

  first-Clear :
      (bd bi : ℕ) (rest : List (ℕ × ℕ))
      → ranked ≡ (bd, bi) ∷ rest
      → near_tie bd rest ≡ false
      → Clear bi bd
  unfolding near_tie
  first-Clear bd bi [] same far j s d m f other = elim (listed_of _ same j s d m f) [
    | inl e ↦ absurd (other (ap (λ t. t.1) e))
    | inr m' ↦ absurd m'
  ]
  first-Clear bd bi ((d2, j2) ∷ rest) same far j s d m f other = elim (listed_of _ same j s d m f) [
    | inl e ↦ absurd (other (ap (λ t. t.1) e))
    | inr m' ↦ second_far bd bi d2 j2 rest (ordered _ same).1 far d j m'
  ]

  second-close :
      (bd bi : ℕ) (rest : List (ℕ × ℕ))
      → ranked ≡ (bd, bi) ∷ rest
      → near_tie bd rest ≡ true
      → (j s d : ℕ) × In (j, s) candidates × Fits n s d × (d ≤ bd + ambiguous_delta_window)
  unfolding near_tie
  second-close bd bi [] same near = cc
  second-close bd bi ((d2, j2) ∷ rest) same near =
      let (s, m, f) = entry _ same d2 j2 (inr (inl refl)) in (j2, s, d2, m, f, ground arith)

  judge-Explains :
      (path : Option ℕ) (listed : List (ℕ × ℕ))
      → ranked ≡ listed
      → Explains path (judge path listed)
  unfolding judge
  judge-Explains none [] same = (refl, refl, NoneFits_of_nil same)
  judge-Explains (some p) [] same = (p, refl, refl, NoneFits_of_nil same)
  judge-Explains none ((bd, bi) ∷ rest) same = elim (Bool-cases (near_tie bd rest)) [
    | inl near ↦ rw near (
        let (j, s, d, m, f, h) = second-close bd bi rest same near in
        (bi, bd, j, s, d, refl, first-Closest bd bi rest same, m, f, h))
    | inr far ↦
        rw far
          (bi, bd, refl, first-Closest bd bi rest same, first-Clear bd bi rest same far, inl refl)
  ]
  judge-Explains (some p) ((bd, bi) ∷ rest) same = elim (Bool-cases (near_tie bd rest)) [
    | inl near ↦ rw near (
        let (j, s, d, m, f, h) = second-close bd bi rest same near in
        (bi, bd, j, s, d, refl, first-Closest bd bi rest same, m, f, h))
    | inr far ↦ rw far (elim (Bool-cases (contradicts (some p) bi bd)) [
      | inl against ↦ rw against (
        bi,
        p,
        bd,
        refl,
        refl,
        ground arith,
        first-Closest bd bi rest same,
        first-Clear bd bi rest same far,
        ground arith,
      )
      | inr agrees ↦ rw agrees (
        bi,
        bd,
        refl,
        first-Closest bd bi rest same,
        first-Clear bd bi rest same far,
        inr (agreed p bi bd agrees),
      )
    ])
  ]

-- Every answer of `attribute_source` is explained by the candidates: "size" names the closest
-- document that fits, with no other within the window, and a path that agrees or a growth within
-- the window; "conflict" returns the path where such a document differs from it by more than the
-- window; "ambiguous" names a closest document with a second candidate within the window; "weak"
-- returns the path, and "none" nothing, only when no candidate fits.
pub attribute_source-Explains :
    (n : ℕ) (candidates : Dict ℕ ℕ) (path : Option ℕ)
    → Explains n candidates path (attribute_source n candidates path)
unfolding attribute_source ranked
attribute_source-Explains n candidates path =
    judge-Explains n candidates path (ranked n candidates) refl
