-- ===== src/Base/Rows.antt =====
-- The rows of a table: the first row that a query finds, and columns that have no value twice.
use mathlib.Core.Path.{◌≡◌, refl, sym, ap, ◌∙◌}
use mathlib.Core.Logic.{◌≢◌, ◌⊎◌, inl, inr}
use mathlib.Core.Bool.{Bool, true, false}
use mathlib.Core.Option.{none, some}
use mathlib.Core.List.{List, [], ◌∷◌, ◌++◌, map}
use native.Mathlib.Omega.{arith}
use paperless_webdav.Base.Equality.{Eq, ◌==◌, if◌then◌else◌, Bool-cases}
use paperless_webdav.Base.Lists.{In, All, All-In, All-of_In, find, select, In-of_select}

module _ {A : Type 0} where
  pub In-of_find :
      (p : A → Bool) (x : A) (xs : List A) → find p xs ≡ some x → In x xs × (p x ≡ true)
  unfolding find
  In-of_find p x [] h = cc
  In-of_find p x (y ∷ ys) h = elim (Bool-cases (p y)) [
    | inl e ↦ found (rw e at h) e
    | inr e ↦ (let (m, k) = In-of_find p x ys (rw e at h) in (inr m, k))
  ]
    where
      found : some y ≡ some x → p y ≡ true → In x (y ∷ ys) × (p x ≡ true)
      found e k = ground (arith, e, k)

  pub find-none : (p : A → Bool) (x : A) (xs : List A) → find p xs ≡ none → In x xs → p x ≡ false
  unfolding find
  find-none p x [] h m = absurd m
  find-none p x (y ∷ ys) h m = ground (arith, find-none p x ys)

  pub In-append_left : (x : A) (xs ys : List A) → In x xs → In x (xs ++ ys)
  In-append_left x [] ys m = absurd m
  In-append_left x (y ∷ xs) ys (inl e) = inl e
  In-append_left x (y ∷ xs) ys (inr m) = inr (In-append_left x xs ys m)

  pub In-append_last : (x : A) (xs : List A) → In x (xs ++ (x ∷ []))
  In-append_last x [] = inl refl
  In-append_last x (y ∷ xs) = inr (In-append_last x xs)

  pub In-of_append : (x y : A) (xs : List A) → In x (xs ++ (y ∷ [])) → In x xs ⊎ (x ≡ y)
  In-of_append x y [] (inl e) = inr e
  In-of_append x y [] (inr m) = absurd m
  In-of_append x y (z ∷ xs) (inl e) = inl (inl e)
  In-of_append x y (z ∷ xs) (inr m) = elim (In-of_append x y xs m) [
    | inl m' ↦ inl (inr m')
    | inr e ↦ inr e
  ]

  pub In-map : {B : Type 0} (f : A → B) (x : A) (xs : List A) → In x xs → In (f x) (map f xs)
  In-map f x [] m = absurd m
  In-map f x (y ∷ xs) (inl e) = inl (ap f e)
  In-map f x (y ∷ xs) (inr m) = inr (In-map f x xs m)

  pub In-of_map :
      {B : Type 0} (f : A → B) (y : B) (xs : List A)
      → In y (map f xs)
      → (x : A) × In x xs × (y ≡ f x)
  In-of_map f y [] m = absurd m
  In-of_map f y (x ∷ xs) (inl e) = (x, inl refl, e)
  In-of_map f y (x ∷ xs) (inr m) = let (z, k, e) = In-of_map f y xs m in (z, inr k, e)

module _ {A K : Type 0} (key : A → K) where
  -- A unique column.
  abbrev pub Distinct : List A → Type 0
  Distinct [] = Unit
  Distinct (x ∷ xs) = All (λ y. key x ≢ key y) xs × Distinct xs

  pub Distinct-add :
      (x : A) (xs : List A)
      → Distinct xs
      → ((y : A) → In y xs → key y ≢ key x)
      → Distinct (xs ++ (x ∷ []))
  Distinct-add x [] d new = (tt, tt)
  Distinct-add x (y ∷ ys) d new = (
    All-of_In _ (ys ++ (x ∷ [])) (λ z m. elim (In-of_append z x ys m) [
      | inl old ↦ All-In _ z ys d.0 old
      | inr e ↦ λ same. new y (inl refl) (same ∙ ap key e)
    ]),
    Distinct-add x ys d.1 (λ z m. new z (inr m)),
  )

  pub Distinct-map :
      (f : A → A) (xs : List A) → ((x : A) → key (f x) ≡ key x) → Distinct xs → Distinct (map f xs)
  Distinct-map f [] keeps d = tt
  Distinct-map f (x ∷ xs) keeps d = (
    All-of_In _ (map f xs) (λ y m same.
        let (z, k, e) = In-of_map f y xs m in
        All-In _ z xs d.0 k (sym (keeps x) ∙ same ∙ ap key e ∙ keeps z)),
    Distinct-map f xs keeps d.1,
  )

  pub Distinct-select : (p : A → Bool) (xs : List A) → Distinct xs → Distinct (select p xs)
  unfolding select
  Distinct-select p [] d = tt
  Distinct-select p (x ∷ xs) d = elim (Bool-cases (p x)) [
    | inl e ↦ rw e (
      All-of_In _ (select p xs) (λ y m. All-In _ y xs d.0 (In-of_select p y xs m).0),
      Distinct-select p xs d.1,
    )
    | inr e ↦ rw e (Distinct-select p xs d.1)
  ]

  -- Two rows with one value in a unique column are one row.
  pub Distinct-same :
      (x y : A) (xs : List A) → Distinct xs → In x xs → In y xs → key x ≡ key y → x ≡ y
  Distinct-same x y [] d m k e = absurd m
  Distinct-same x y (z ∷ zs) d (inl a) (inl b) e = a ∙ sym b
  Distinct-same x y (z ∷ zs) d (inl a) (inr k) e = absurd (All-In _ y zs d.0 k (ap key (sym a) ∙ e))
  Distinct-same x y (z ∷ zs) d (inr m) (inl b) e =
      absurd (All-In _ x zs d.0 m (ap key (sym b) ∙ sym e))
  Distinct-same x y (z ∷ zs) d (inr m) (inr k) e = Distinct-same x y zs d.1 m k e

  pub find_key :
      ⦃e : Eq K⦄
      → (k : K) (x : A) (xs : List A) → Distinct xs
      → In x xs
      → key x ≡ k
      → find (λ y. key y == k) xs ≡ some x
  unfolding find
  find_key k x [] d m h = absurd m
  find_key k x (y ∷ ys) d (inl e) h = ground (arith, e, h, ap key e)
  find_key k x (y ∷ ys) d (inr m) h =
      ground (arith, find_key k x ys d.1 m h, All-In (λ z. key y ≢ key z) x ys d.0 m)

module _ {A : Type 0} (p q : A → Bool) where
  -- Rows that a query does not want can go.
  pub find-select :
      (xs : List A)
      → ((x : A) → In x xs → p x ≡ true → q x ≡ true)
      → find p (select q xs) ≡ find p xs
  unfolding find select
  find-select [] h = refl
  find-select (x ∷ xs) h = elim (Bool-cases (q x)) [
    | inl e ↦ rw e (ap (λ t. if p x then some x else t) (find-select xs (λ y m. h y (inr m))))
    | inr e ↦ ground (arith, e, h x (inl refl), find-select xs (λ y m. h y (inr m)))
  ]

module _ {A : Type 0} (p : A → Bool) where
  pub find-absent : (xs : List A) → ((x : A) → In x xs → p x ≡ false) → find p xs ≡ none
  unfolding find
  find-absent [] h = refl
  find-absent (x ∷ xs) h = ground (arith, h x (inl refl), find-absent xs (λ y m. h y (inr m)))

  pub find-append : (x : A) (xs ys : List A) → find p xs ≡ some x → find p (xs ++ ys) ≡ some x
  unfolding find
  find-append x [] ys h = cc
  find-append x (y ∷ xs) ys h = ground (arith, find-append x xs ys)

  pub find-map :
      (f : A → A) (xs : List A)
      → ((x : A) → p (f x) ≡ p x)
      → (x : A) → find p xs ≡ some x
      → find p (map f xs) ≡ some (f x)
  unfolding find
  find-map f [] same x h = cc
  find-map f (y ∷ ys) same x h = elim (Bool-cases (p y)) [
    | inl e ↦ rw (same y, e) (hit e)
    | inr e ↦ rw (same y, e) (find-map f ys same x (rw e at h))
  ]
    where
      hit : p y ≡ true → some (f y) ≡ some (f x)
      hit e = ground (arith, e, h)

  pub find-map-none :
      (f : A → A) (xs : List A)
      → ((x : A) → p (f x) ≡ p x)
      → find p xs ≡ none
      → find p (map f xs) ≡ none
  unfolding find
  find-map-none f [] same h = refl
  find-map-none f (y ∷ ys) same h = ground (arith, same y, find-map-none f ys same)
