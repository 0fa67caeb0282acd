-- ===== src/Provider/Paths.antt =====
-- The parts of a request path, as src/paperless_webdav/webdav_provider.py takes it apart.
use paperless_webdav.Base.{
  ℕ, ◌≡◌, ◌≢◌, refl, ap, sym, append-nil, Bool, true, false, List, [], ◌∷◌, ◌++◌, In, All, select,
  arith, ◌==◌, if◌then◌else◌, nat_eq, Text, inr, inl,
}

-- `c` in front of the first piece
push : ℕ → List Text → List Text
push c [] = (c ∷ []) ∷ []
push c (w ∷ ws) = (c ∷ w) ∷ ws

-- `s.split("/")`
unfoldable pub split_slash : Text → List Text
unfolding push
split_slash [] = [] ∷ []
split_slash (c ∷ s) = let rest = split_slash s in if c == b'/' then [] ∷ rest else push c rest

abbrev pub is_filled : Text → Bool
is_filled [] = false
is_filled (c ∷ s) = true

-- `[p for p in path.split("/") if p]`
unfoldable pub path_parts : Text → List Text
unfolding split_slash select
path_parts path = select is_filled (split_slash path)

-- `"/" + part` for each part
unfoldable pub join_path : List Text → Text
join_path [] = []
join_path (p ∷ ps) = b'/' ∷ (p ++ join_path ps)

-- A name that a path can hold.
abbrev pub IsPart : Text → Type 0
IsPart p = (p ≢ []) × (¬ In b'/' p)

split-plain :
    (p s : Text) (w : Text) (ws : List Text)
    → ¬ In b'/' p
    → split_slash s ≡ w ∷ ws
    → split_slash (p ++ s) ≡ (p ++ w) ∷ ws
unfolding split_slash
split-plain [] s w ws h e = e
split-plain (c ∷ p) s w ws h e =
    ground (arith, λ (q : c ≡ b'/'). h (inl (sym q)), split-plain p s w ws (λ m. h (inr m)) e)

-- The pieces of a path of parts: an empty one, and then the parts.
split-join : (ps : List Text) → All IsPart ps → split_slash (join_path ps) ≡ [] ∷ ps
unfolding split_slash join_path
split-join [] h = refl
split-join (p ∷ ps) h =
    let e = split-plain p (join_path ps) [] ps h.0.1 (split-join ps h.1) in
    ground (arith, e, append-nil p)

select-filled : (ps : List Text) → All IsPart ps → select is_filled ps ≡ ps
unfolding select
select-filled [] h = refl
select-filled ([] ∷ ps) h = absurd (h.0.0 refl)
select-filled ((c ∷ p) ∷ ps) h = ap (◌∷◌ (c ∷ p)) (select-filled ps h.1)

-- The parts of a path that was joined from names without a slash are those names.
pub path_parts-join_path : (ps : List Text) → All IsPart ps → path_parts (join_path ps) ≡ ps
unfolding path_parts
path_parts-join_path ps h = rw (split-join ps h) (select-filled ps h)
