-- ===== src/Base/Dicts.antt =====
-- Python's `dict`, in insertion order. Proofs elsewhere go by the laws.
use Prim.Native.Nat.{ℕ, suc, ◌+◌}
use mathlib.Core.Path.{◌≡◌, refl}
use mathlib.Core.Logic.{◌≢◌}
use mathlib.Core.Bool.{Bool}
use mathlib.Core.Option.{Option, none, some}
use mathlib.Core.List.{List, [], ◌∷◌}
use native.Mathlib.Omega.{arith}
use paperless_webdav.Base.Equality.{Eq, ◌==◌, if◌then◌else◌}
use paperless_webdav.Base.Lists.{In, length}

abbrev pub Dict {ℓ κ} : Type ℓ → Type κ → Type (ℓ ⊔ κ)
Dict K V = List (K × V)

-- `list(d.keys())`
unfoldable pub keys {ℓ κ} : {K : Type ℓ} {V : Type κ} → Dict K V → List K
keys [] = []
keys ((k, _) ∷ d) = k ∷ keys d

-- `list(d.values())`
unfoldable pub values {ℓ κ} : {K : Type ℓ} {V : Type κ} → Dict K V → List V
values [] = []
values ((_, v) ∷ d) = v ∷ values d

-- `for k in [k for k in d if p(k)]: del d[k]`
unfoldable pub drop_where {ℓ κ} : {K : Type ℓ} {V : Type κ} → (K → Bool) → Dict K V → Dict K V
drop_where p [] = []
drop_where p ((k, v) ∷ d) = let rest = drop_where p d in if p k then rest else (k, v) ∷ rest

module _ {ℓ κ} {K : Type ℓ} {V : Type κ} ⦃e : Eq K⦄ where
  -- `d.get(k)`
  unfoldable pub lookup : K → Dict K V → Option V
  lookup k [] = none
  lookup k ((j, v) ∷ d) = if k == j then some v else lookup k d

  -- `d[k] = v`
  unfoldable pub insert : K → V → Dict K V → Dict K V
  insert k v [] = (k, v) ∷ []
  insert k v ((j, w) ∷ d) = if k == j then (k, v) ∷ d else (j, w) ∷ insert k v d

  -- `d.pop(k, None)`, `del d[k]`. Every entry of the key goes; a real dict has at most one.
  unfoldable pub erase : K → Dict K V → Dict K V
  erase k [] = []
  erase k ((j, w) ∷ d) = let rest = erase k d in if k == j then rest else (j, w) ∷ rest

  pub lookup-insert :
      (j k : K) (v : V) (d : Dict K V)
      → lookup j (insert k v d) ≡ (if j == k then some v else lookup j d)
  unfolding insert lookup
  lookup-insert j k v [] = ground arith
  lookup-insert j k v (_ ∷ d) = ground (arith, lookup-insert j k v d)

  pub lookup-erase :
      (j k : K) (d : Dict K V) → lookup j (erase k d) ≡ (if j == k then none else lookup j d)
  unfolding erase lookup
  lookup-erase j k [] = ground arith
  lookup-erase j k (_ ∷ d) = ground (arith, lookup-erase j k d)

  pub lookup-drop_where :
      (j : K) (p : K → Bool) (d : Dict K V)
      → lookup j (drop_where p d) ≡ (if p j then none else lookup j d)
  unfolding drop_where lookup
  lookup-drop_where j p [] = ground arith
  lookup-drop_where j p ((k, _) ∷ d) = ground (arith, lookup-drop_where j p d)

  pub lookup-nil : (j : K) → lookup j [] ≡ none
  unfolding lookup
  lookup-nil j = refl

module _ {K V : Type 0} ⦃e : Eq K⦄ where
  -- What a lookup finds is an entry.
  pub In-of_lookup : (k : K) (v : V) (d : Dict K V) → lookup k d ≡ some v → In (k, v) d
  unfolding lookup
  In-of_lookup k v [] h = cc
  In-of_lookup k v ((j, w) ∷ d) h = ground (arith, In-of_lookup k v d)

  pub In-keys_of_In : (k : K) (v : V) (d : Dict K V) → In (k, v) d → In k (keys d)
  unfolding keys
  In-keys_of_In k v [] m = m
  In-keys_of_In k v ((j, w) ∷ d) m = ground (arith, In-keys_of_In k v d)

  pub lookup_of_In-keys : (k : K) (d : Dict K V) → In k (keys d) → lookup k d ≢ none
  unfolding keys lookup
  lookup_of_In-keys k [] m = absurd m
  lookup_of_In-keys k ((j, w) ∷ d) m = ground (arith, lookup_of_In-keys k d)

pub ruleset dict_laws = (lookup-nil, lookup-insert, lookup-erase, lookup-drop_where)

module _ {ℓ κ} {K : Type ℓ} {V : Type κ} where
  -- The entries that do not pass a test of the key and the value.
  unfoldable pub keep_unless : (K → V → Bool) → Dict K V → Dict K V
  keep_unless p [] = []
  keep_unless p ((k, v) ∷ d) = let rest = keep_unless p d in if p k v then rest else (k, v) ∷ rest

  -- How many entries pass a test.
  unfoldable pub count_where : (K → V → Bool) → Dict K V → ℕ
  count_where p [] = 0
  count_where p ((k, v) ∷ d) = let rest = count_where p d in if p k v then suc rest else rest

  abbrev pub filter_value : (K → V → Bool) → K → Option V → Option V
  filter_value p k none = none
  filter_value p k (some v) = if p k v then none else some v

  pub length-keep_unless :
      (p : K → V → Bool) (d : Dict K V) → length (keep_unless p d) + count_where p d ≡ length d
  unfolding keep_unless count_where
  length-keep_unless p [] = omega arith
  length-keep_unless p ((j, v) ∷ d) = ground (arith, length-keep_unless p d)

module _ {ℓ κ} {K : Type ℓ} {V : Type κ} ⦃e : Eq K⦄ where
  -- No key has two entries, as in every Python dict.
  abbrev pub NodupKeys : Dict K V → Type κ
  NodupKeys [] = Unit
  NodupKeys ((k, _) ∷ d) = (lookup k d ≡ none) × NodupKeys d

  pub insert-NodupKeys : (k : K) (v : V) (d : Dict K V) → NodupKeys d → NodupKeys (insert k v d)
  unfolding insert
  insert-NodupKeys k v [] u = (lookup-nil k, tt)
  insert-NodupKeys k v ((j, _) ∷ d) u =
      ground (arith, insert-NodupKeys k v d u.1, lookup-insert j k v d)

  pub erase-NodupKeys : (k : K) (d : Dict K V) → NodupKeys d → NodupKeys (erase k d)
  unfolding erase
  erase-NodupKeys k [] u = tt
  erase-NodupKeys k ((j, _) ∷ d) u = ground (arith, erase-NodupKeys k d u.1, lookup-erase j k d)

  lookup-keep_unless-none :
      (k : K) (p : K → V → Bool) (d : Dict K V)
      → lookup k d ≡ none
      → lookup k (keep_unless p d) ≡ none
  unfolding keep_unless lookup
  lookup-keep_unless-none k p [] h = refl
  lookup-keep_unless-none k p (_ ∷ d) h = ground (arith, lookup-keep_unless-none k p d)

  pub lookup-keep_unless :
      (k : K) (p : K → V → Bool) (d : Dict K V)
      → NodupKeys d
      → lookup k (keep_unless p d) ≡ filter_value p k (lookup k d)
  unfolding keep_unless lookup
  lookup-keep_unless k p [] u = refl
  lookup-keep_unless k p ((j, v) ∷ d) u =
      ground (arith, lookup-keep_unless k p d u.1, lookup-keep_unless-none k p d)

  pub keep_unless-NodupKeys :
      (p : K → V → Bool) (d : Dict K V) → NodupKeys d → NodupKeys (keep_unless p d)
  unfolding keep_unless
  keep_unless-NodupKeys p [] u = tt
  keep_unless-NodupKeys p ((j, v) ∷ d) u =
      ground (arith, keep_unless-NodupKeys p d u.1, lookup-keep_unless-none j p d)
