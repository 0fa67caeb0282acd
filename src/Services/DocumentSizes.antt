-- ===== src/Services/DocumentSizes.antt =====
-- src/paperless_webdav/services/document_sizes.py: the durable table of measured sizes. The table
-- is a dict by its primary key; `down` says that the database raises.
use paperless_webdav.Base.{
  ℕ, ◌≡◌, refl, Bool, true, false, Option, none, some, contains, List, [], ◌∷◌, arith,
  if◌then◌else◌, nat_eq, Dict, lookup, insert, lookup-insert, lookup-nil, NodupKeys, Text,
}

-- `document_id`, `version`, `size` of `DocumentSize`
abbrev pub SizeTable : Type 0
SizeTable = Dict ℕ (Option Text × ℕ)

-- The rows that the query selects.
unfoldable pub rows_of : List ℕ → SizeTable → SizeTable
unfolding contains
rows_of ids [] = []
rows_of ids ((i, row) ∷ table) =
    let rest = rows_of ids table in if contains i ids then (i, row) ∷ rest else rest

unfoldable pub load_sizes : Bool → List ℕ → SizeTable → SizeTable
unfolding rows_of
load_sizes down ids table = if down then [] else rows_of ids table

-- `versions.get(doc_id)`, where the value may itself be `None`
unfoldable pub version_of : ℕ → Dict ℕ (Option Text) → Option Text
version_of i versions = elim (lookup i versions) [ none ↦ none | some v ↦ v ]

-- The upsert of the rows built from `sizes`.
unfoldable pub upsert : Dict ℕ ℕ → Dict ℕ (Option Text) → SizeTable → SizeTable
unfolding version_of
upsert [] versions table = table
upsert ((i, size) ∷ sizes) versions table =
    upsert sizes versions (insert i (version_of i versions, size) table)

unfoldable pub store_sizes : Bool → Dict ℕ ℕ → Dict ℕ (Option Text) → SizeTable → SizeTable
unfolding upsert
store_sizes down sizes versions table = if down then table else upsert sizes versions table

lookup-rows_of :
    (i : ℕ) (ids : List ℕ) (table : SizeTable)
    → lookup i (rows_of ids table) ≡ (if contains i ids then lookup i table else none)
unfolding rows_of lookup
lookup-rows_of i ids [] = ground arith
lookup-rows_of i ids ((j, row) ∷ table) = ground (arith, lookup-rows_of i ids table)

-- A load returns the row of each id asked for and of no other; with the database down, none.
pub lookup-load_sizes :
    (down : Bool) (i : ℕ) (ids : List ℕ) (table : SizeTable)
    → lookup i (load_sizes down ids table)
      ≡ (if down then none else if contains i ids then lookup i table else none)
unfolding load_sizes
lookup-load_sizes true i ids table = lookup-nil i
lookup-load_sizes false i ids table = lookup-rows_of i ids table

-- A row after an upsert: the new size and version if there is one, or the old row.
abbrev pub superseded : Option ℕ → Option Text → Option (Option Text × ℕ) → Option (Option Text × ℕ)
superseded none version old = old
superseded (some size) version old = some (version, size)

lookup-upsert :
    (i : ℕ) (sizes : Dict ℕ ℕ) (versions : Dict ℕ (Option Text)) (table : SizeTable)
    → NodupKeys sizes
    → lookup i (upsert sizes versions table)
      ≡ superseded (lookup i sizes) (version_of i versions) (lookup i table)
unfolding upsert lookup
lookup-upsert i [] versions table u = refl
lookup-upsert i ((j, size) ∷ sizes) versions table u = ground (
  arith,
  lookup-upsert i sizes versions (insert j (version_of j versions, size) table) u.1,
  lookup-insert i j (version_of j versions, size) table,
)

-- With the database up and one size for each document, what is stored is what a later load
-- returns: each measured size under the version that it was measured for, and the older row for
-- every other document asked for.
pub load_sizes-store_sizes :
    (i : ℕ) (ids : List ℕ) (sizes : Dict ℕ ℕ) (versions : Dict ℕ (Option Text)) (table : SizeTable)
    → NodupKeys sizes
    → lookup i (load_sizes false ids (store_sizes false sizes versions table)) ≡ (
        if contains i ids
        then superseded (lookup i sizes) (version_of i versions) (lookup i table)
        else none)
unfolding store_sizes
load_sizes-store_sizes i ids sizes versions table u = ground (
  arith,
  lookup-load_sizes false i ids (upsert sizes versions table),
  lookup-upsert i sizes versions table u,
)
