-- ===== src/Base/Lists.antt =====
-- Lists over the native numbers: length, membership as a sum, filtering, and Python's stable
-- `sorted(key=...)` with the facts that its clients use.
use Prim.Native.Nat.{ℕ, zero, suc, ◌+◌, ◌-◌, ◌≤◌}
use mathlib.Core.Path.{◌≡◌, refl, sym, ap, ◌∙◌}
use mathlib.Core.Logic.{◌⊎◌, inl, inr, ◌↔◌}
use mathlib.Core.Bool.{Bool, true, false}
use mathlib.Core.Option.{Option, none, some}
use mathlib.Core.List.{List, [], ◌∷◌, ◌++◌}
use native.Mathlib.Omega.{arith}
use paperless_webdav.Base.Equality.{Eq, ◌==◌, if◌then◌else◌, Bool-cases}
use paperless_webdav.Base.Numbers.{leb}

minus_zero : (n : ℕ) → n - 0 ≡ n
minus_zero n = omega arith

minus_suc : (m n : ℕ) → suc m - suc n ≡ m - n
minus_suc m n = omega arith

module _ {ℓ} {A : Type ℓ} where
  abbrev pub length : List A → ℕ
  length [] = 0
  length (x ∷ xs) = suc (length xs)

  pub length-append : (xs ys : List A) → length (xs ++ ys) ≡ length xs + length ys
  length-append [] ys = omega arith
  length-append (x ∷ xs) ys = omega (arith, length-append xs ys)

  abbrev pub take : ℕ → List A → List A
  take zero xs = []
  take (suc n) [] = []
  take (suc n) (x ∷ xs) = x ∷ take n xs

  abbrev pub drop : ℕ → List A → List A
  drop zero xs = xs
  drop (suc n) [] = []
  drop (suc n) (x ∷ xs) = drop n xs

  -- `b"".join(xss)`
  abbrev pub concat : List (List A) → List A
  concat [] = []
  concat (xs ∷ xss) = xs ++ concat xss

  pub take-drop : (n : ℕ) (xs : List A) → take n xs ++ drop n xs ≡ xs
  take-drop zero xs = refl
  take-drop (suc n) [] = refl
  take-drop (suc n) (x ∷ xs) = ap (λ t. x ∷ t) (take-drop n xs)

  pub length-take-le : (n : ℕ) (xs : List A) → length (take n xs) ≤ n
  length-take-le zero xs = omega arith
  length-take-le (suc n) [] = omega arith
  length-take-le (suc n) (x ∷ xs) = omega (arith, length-take-le n xs)

  pub length-drop : (n : ℕ) (xs : List A) → length (drop n xs) ≡ length xs - n
  length-drop zero xs = omega arith
  length-drop (suc n) [] = omega arith
  length-drop (suc n) (x ∷ xs) = omega (arith, length-drop n xs)

  pub take_all : (n : ℕ) (xs : List A) → length xs ≤ n → take n xs ≡ xs
  take_all zero [] h = refl
  take_all zero (x ∷ xs) h = absurd (omega arith)
  take_all (suc n) [] h = refl
  take_all (suc n) (x ∷ xs) h = ap (λ t. x ∷ t) (take_all n xs (omega arith))

  pub take-append : (n : ℕ) (xs ys : List A) → n ≤ length xs → take n (xs ++ ys) ≡ take n xs
  take-append zero xs ys h = refl
  take-append (suc n) [] ys h = absurd (omega arith)
  take-append (suc n) (x ∷ xs) ys h = ap (λ t. x ∷ t) (take-append n xs ys (omega arith))

  pub drop-append : (n : ℕ) (xs ys : List A) → n ≤ length xs → drop n (xs ++ ys) ≡ drop n xs ++ ys
  drop-append zero xs ys h = refl
  drop-append (suc n) [] ys h = absurd (omega arith)
  drop-append (suc n) (x ∷ xs) ys h = drop-append n xs ys (omega arith)

  pub drop_nil : (n : ℕ) → drop n [] ≡ []
  drop_nil zero = refl
  drop_nil (suc n) = refl

  take_nil : (n : ℕ) → take n [] ≡ []
  take_nil zero = refl
  take_nil (suc n) = refl

  pub drop-drop : (m n : ℕ) (xs : List A) → drop m (drop n xs) ≡ drop (n + m) xs
  drop-drop m zero xs = ap (λ t. drop t xs) (omega arith)
  drop-drop m (suc n) [] = drop_nil m ∙ sym (drop_nil (suc n + m))
  drop-drop m (suc n) (x ∷ xs) =
      let shift : suc n + m ≡ suc (n + m) = omega arith in rw shift (drop-drop m n xs)

  pub drop_all : (n : ℕ) (xs : List A) → length xs ≤ n → drop n xs ≡ []
  drop_all n [] h = drop_nil n
  drop_all zero (x ∷ xs) h = absurd (omega arith)
  drop_all (suc n) (x ∷ xs) h = drop_all n xs (omega arith)

  pub drop-length : (xs : List A) → drop (length xs) xs ≡ []
  drop-length [] = refl
  drop-length (x ∷ xs) = drop-length xs

  -- To skip `r` entries, skip `m` of them and then those that are left to skip.
  pub drop_onward :
      (m r : ℕ) (xs : List A) → m ≤ r → drop (r - length (take m xs)) (drop m xs) ≡ drop r xs
  drop_onward zero r xs h = ap (λ t. drop t xs) (minus_zero r)
  drop_onward (suc m) zero xs h = absurd (omega arith)
  drop_onward (suc m) (suc r) [] h = drop_nil _
  drop_onward (suc m) (suc r) (x ∷ xs) h =
      ap (λ t. drop t (drop m xs)) (minus_suc r (length (take m xs)))
      ∙ drop_onward m r xs (omega arith)

  pub length-take_onward :
      (m r : ℕ) (xs : List A)
      → m ≤ r
      → length (take m xs) + length (take (r - length (take m xs)) (drop m xs)) ≡ length (take r xs)
  length-take_onward zero r xs h = rw (minus_zero r) (omega arith)
  length-take_onward (suc m) zero xs h = absurd (omega arith)
  length-take_onward (suc m) (suc r) [] h = rw take_nil refl
  length-take_onward (suc m) (suc r) (x ∷ xs) h =
      rw (minus_suc r (length (take m xs))) (omega (arith, length-take_onward m r xs (omega arith)))

  abbrev pub All {κ} : (A → Type κ) → List A → Type κ
  All P [] = Unit
  All P (x ∷ xs) = P x × All P xs

  -- `[x for x in xs if p(x)]`
  unfoldable pub select : (A → Bool) → List A → List A
  select p [] = []
  select p (x ∷ xs) = let rest = select p xs in if p x then x ∷ rest else rest

  -- The first entry that passes, as in a query for one row.
  unfoldable pub find : (A → Bool) → List A → Option A
  find p [] = none
  find p (x ∷ xs) = let rest = find p xs in if p x then some x else rest

  -- `sum(f(x) for x in xs)`
  unfoldable pub sum_of : (A → ℕ) → List A → ℕ
  sum_of f [] = 0
  sum_of f (x ∷ xs) = f x + sum_of f xs

  -- One step of `sorted`: `x` goes before the first entry that it does not exceed.
  insert_with : (A → A → Bool) → A → List A → List A
  insert_with le x [] = x ∷ []
  insert_with le x (y ∷ ys) =
      let rest = insert_with le x ys in if le x y then x ∷ y ∷ ys else y ∷ rest

  -- `sorted(xs)` for the order `le`; it is stable
  unfoldable pub sort_with : (A → A → Bool) → List A → List A
  unfolding insert_with
  sort_with le [] = []
  sort_with le (x ∷ xs) = insert_with le x (sort_with le xs)

  -- The order that `sorted` needs to put its result in order.
  pub record IsOrder (le : A → A → Bool) : Type ℓ where
    pub total : (x y : A) → le x y ≡ false → le y x ≡ true
    pub trans : (x y z : A) → le x y ≡ true → le y z ≡ true → le x z ≡ true

  -- No entry exceeds one behind it.
  abbrev pub Sorted : (A → A → Bool) → List A → Type 0
  Sorted le [] = Unit
  Sorted le (x ∷ xs) = All (λ y. le x y ≡ true) xs × Sorted le xs

  abbrev pub by_key : (A → ℕ) → A → A → Bool
  by_key key x y = leb (key x) (key y)

  pub by_key-IsOrder : (key : A → ℕ) → IsOrder (by_key key)
  by_key-IsOrder key = record { total = λ x y h. ground arith; trans = λ x y z h k. ground arith }

module _ {A : Type 0} where
  -- `x in xs`, as a sum that a proof can take apart.
  abbrev pub In : A → List A → Type 0
  In x [] = ⊥
  In x (y ∷ ys) = (x ≡ y) ⊎ In x ys

  pub All-In {κ} : (P : A → Type κ) (x : A) (xs : List A) → All P xs → In x xs → P x
  All-In P x [] h m = absurd m
  All-In P x (y ∷ ys) h (inl e) = rw e h.0
  All-In P x (y ∷ ys) h (inr m) = All-In P x ys h.1 m

  pub All-of_In {κ} : (P : A → Type κ) (xs : List A) → ((x : A) → In x xs → P x) → All P xs
  All-of_In P [] h = tt
  All-of_In P (x ∷ xs) h = (h x (inl refl), All-of_In P xs (λ y m. h y (inr m)))

  pub In-of_select :
      (p : A → Bool) (x : A) (xs : List A) → In x (select p xs) → In x xs × (p x ≡ true)
  unfolding select
  In-of_select p x [] m = absurd m
  In-of_select p x (y ∷ ys) m = ground (arith, In-of_select p x ys)

  pub In-select : (p : A → Bool) (x : A) (xs : List A) → In x xs → p x ≡ true → In x (select p xs)
  unfolding select
  In-select p x [] m h = m
  In-select p x (y ∷ ys) m h = ground (arith, In-select p x ys)

  In-insert_with :
      (le : A → A → Bool) (x y : A) (ys : List A) → In x (insert_with le y ys) ↔ ((x ≡ y) ⊎ In x ys)
  unfolding insert_with
  In-insert_with le x y [] = ground arith
  In-insert_with le x y (z ∷ zs) = ground (arith, In-insert_with le x y zs)

  -- Sorting keeps the entries.
  pub In-sort_with : (le : A → A → Bool) (x : A) (xs : List A) → In x (sort_with le xs) ↔ In x xs
  unfolding sort_with
  In-sort_with le x [] = (λ m. m, λ m. m)
  In-sort_with le x (y ∷ ys) =
      ground (arith, In-insert_with le x y (sort_with le ys), In-sort_with le x ys)

  length-insert_with :
      (le : A → A → Bool) (y : A) (ys : List A) → length (insert_with le y ys) ≡ suc (length ys)
  unfolding insert_with
  length-insert_with le y [] = refl
  length-insert_with le y (z ∷ zs) = ground (arith, length-insert_with le y zs)

  pub length-sort_with : (le : A → A → Bool) (xs : List A) → length (sort_with le xs) ≡ length xs
  unfolding sort_with
  length-sort_with le [] = refl
  length-sort_with le (x ∷ xs) =
      length-insert_with le x (sort_with le xs) ∙ ap suc (length-sort_with le xs)

  All-insert_with {κ} :
      (P : A → Type κ) (le : A → A → Bool) (y : A) (ys : List A)
      → P y
      → All P ys
      → All P (insert_with le y ys)
  All-insert_with P le y ys h all = All-of_In P (insert_with le y ys) (λ x m.
      elim ((In-insert_with le x y ys).0 m) [ inl e ↦ rw e h | inr m' ↦ All-In P x ys all m' ])

  module _ (le : A → A → Bool) (order : IsOrder le) where
    Sorted-insert_with : (y : A) (ys : List A) → Sorted le ys → Sorted le (insert_with le y ys)
    unfolding insert_with
    Sorted-insert_with y [] s = (tt, tt)
    Sorted-insert_with y (z ∷ zs) s = elim (Bool-cases (le y z)) [
      | inl e ↦ rw e ((e, All-of_In _ zs (λ w m. order.trans y z w e (All-In _ w zs s.0 m))), s)
      | inr e ↦ rw e (
        All-insert_with (λ w. le z w ≡ true) le y zs (order.total y z e) s.0,
        Sorted-insert_with y zs s.1,
      )
    ]

    -- The result of `sorted` is in order.
    pub Sorted-sort_with : (xs : List A) → Sorted le (sort_with le xs)
    unfolding sort_with
    Sorted-sort_with [] = tt
    Sorted-sort_with (x ∷ xs) = Sorted-insert_with x (sort_with le xs) (Sorted-sort_with xs)

-- `any(p(x) for x in xs)`
unfoldable pub any {ℓ} : {A : Type ℓ} → (A → Bool) → List A → Bool
any p [] = false
any p (x ∷ xs) = let rest = any p xs in if p x then true else rest

-- `x in xs`, as a test
unfoldable pub contains {ℓ} : {A : Type ℓ} ⦃e : Eq A⦄ → A → List A → Bool
contains x [] = false
contains x (y ∷ ys) = let rest = contains x ys in if x == y then true else rest

module _ {A : Type 0} where
  pub any-In : (p : A → Bool) (xs : List A) → any p xs ≡ true → (x : A) × In x xs × (p x ≡ true)
  unfolding any
  any-In p [] h = cc
  any-In p (x ∷ xs) h = elim (Bool-cases (p x)) [
    | inl e ↦ (x, inl refl, e)
    | inr e ↦ (let (y, m, k) = any-In p xs (ground arith) in (y, inr m, k))
  ]

  pub any_of_In : (p : A → Bool) (x : A) (xs : List A) → In x xs → p x ≡ true → any p xs ≡ true
  unfolding any
  any_of_In p x [] m h = absurd m
  any_of_In p x (y ∷ ys) m h = ground (arith, any_of_In p x ys)

  pub any-append :
      (p : A → Bool) (xs ys : List A) → any p (xs ++ ys) ≡ (if any p xs then true else any p ys)
  unfolding any
  any-append p [] ys = refl
  any-append p (x ∷ xs) ys = ground (arith, any-append p xs ys)

  pub contains_iff : ⦃e : Eq A⦄ → (x : A) (xs : List A) → (contains x xs ≡ true) ↔ In x xs
  unfolding contains
  contains_iff x [] = ground arith
  contains_iff x (y ∷ ys) = ground (arith, contains_iff x ys)
