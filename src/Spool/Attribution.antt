-- ===== src/Spool/Attribution.antt =====
-- `attribute_source` of src/paperless_webdav/spool.py: which document an upload came from, judged
-- by its size. The product `int(upload_size * 0.05)` is the floor of a twentieth: the two agree on
-- every size that a double holds exactly with a few bits to spare (below 2 ^ 48).
pub mod Verdict
use paperless_webdav.Base.{
  ℕ, ◌+◌, ◌-◌, ◌*◌, ◌/◌, ◌≡◌, min, max, Bool, true, false, ◌&&◌, ◌||◌, not, Option, none, some,
  List, [], ◌∷◌, leb, ltb, Eq, ◌==◌, if◌then◌else◌, nat_eq, option_eq, sort_with, Dict, arith,
  IsOrder,
}

-- The second component of the result: "size", "conflict", "ambiguous", "weak", "none".
pub data Confidence : Type 0 where
  by_size conflict ambiguous weak unknown : Confidence

-- `MAX_ANNOTATION_DELTA`
abbrev pub max_annotation_delta : ℕ
max_annotation_delta = 64 * 1024 * 1024

-- `AMBIGUOUS_DELTA_WINDOW`
abbrev pub ambiguous_delta_window : ℕ
ambiguous_delta_window = 64 * 1024

-- The largest growth that counts as an appended annotation layer.
unfoldable pub tolerance : ℕ → ℕ
tolerance upload_size = min max_annotation_delta (max (1024 * 1024) (upload_size / 20))

-- The test of the comprehension: the upload is no smaller than the stored file, and not much larger.
abbrev pub fits : ℕ → ℕ → Bool
fits upload_size stored =
    leb stored upload_size && leb (upload_size - stored) (tolerance upload_size)

-- The comprehension, before sorting: (delta, document id) for each candidate that fits.
unfoldable pub deltas : ℕ → Dict ℕ ℕ → List (ℕ × ℕ)
deltas upload_size [] = []
deltas upload_size ((doc_id, stored) ∷ candidates) =
    let rest = deltas upload_size candidates in
    if fits upload_size stored then (upload_size - stored, doc_id) ∷ rest else rest

-- Python's order of pairs.
abbrev pub pair_le : ℕ × ℕ → ℕ × ℕ → Bool
pair_le (d, i) (e, j) = ltb d e || (leb d e && leb i j)

pub pair_le-IsOrder : IsOrder pair_le
pair_le-IsOrder = record {
  total = λ (d, i) (e, j) h. ground arith;
  trans = λ (d, i) (e, j) (f, k) h h'. ground arith;
}

-- `len(within) > 1 and within[1][0] - best_delta <= AMBIGUOUS_DELTA_WINDOW`
unfoldable pub near_tie : ℕ → List (ℕ × ℕ) → Bool
near_tie best_delta [] = false
near_tie best_delta ((delta, _) ∷ _) = leb (delta - best_delta) ambiguous_delta_window

-- The path names another document, and the delta is too large to overrule it.
unfoldable pub contradicts : Option ℕ → ℕ → ℕ → Bool
contradicts none best_id best_delta = false
contradicts (some path_id) best_id best_delta =
    not (path_id == best_id) && ltb ambiguous_delta_window best_delta

-- The body, from the sorted candidates on.
unfoldable pub judge : Option ℕ → List (ℕ × ℕ) → Option ℕ × Confidence
unfolding near_tie contradicts
judge none [] = (none, unknown)
judge (some path_id) [] = (some path_id, weak)
judge path_id ((best_delta, best_id) ∷ rest) =
    if near_tie best_delta rest
    then (some best_id, ambiguous)
    else if contradicts path_id best_id best_delta
    then (path_id, conflict)
    else (some best_id, by_size)

unfoldable pub attribute_source : ℕ → Dict ℕ ℕ → Option ℕ → Option ℕ × Confidence
unfolding deltas judge sort_with tolerance
attribute_source upload_size candidates path_document_id =
    judge path_document_id (sort_with pair_le (deltas upload_size candidates))
