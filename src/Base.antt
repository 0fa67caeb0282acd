-- ===== src/Base.antt =====
-- Names that the modules share: those of the libraries, and those of the children below.
mod Equality
mod Numbers
mod Lists
mod Rows
mod Dicts
mod Texts
pub use Prim.Native.Nat.{ℕ, zero, suc, ◌+◌, ◌-◌, ◌*◌, ◌/◌, ◌%◌, ◌^◌, ◌≤◌, ◌<◌, min, max}
pub use Prim.Native.String.{String}
pub use mathlib.Core.Path.{◌≡◌, refl, sym, ap, ◌∙◌}
pub use mathlib.Core.Logic.{◌≢◌, ◌↔◌, ◌⊎◌, inl, inr}
pub use mathlib.Core.Bool.{Bool, true, false, not, ◌&&◌, ◌||◌}
pub use mathlib.Core.Option.{Option, none, some}
pub use mathlib.Core.List.{List, [], ◌∷◌, ◌++◌, map, append-nil, append_assoc}
pub use native.Mathlib.Omega.{arith}
unfoldable pub use native.Mathlib.Decide.{ℕ_discrete}
pub use Equality.{Eq, ◌==◌, if◌then◌else◌, Bool-cases, Option-cases, if_cases, if_map}
unfoldable pub use Equality.{nat_eq, list_eq, option_eq, pair_eq}
pub use Numbers.{ltb, leb, ltb→lt, lt→ltb, leb→le, le→leb}
pub use Lists.{
  length, length-append, take, drop, concat, take-drop, length-take-le, length-drop, take_all,
  take-append, drop-append, drop_nil, drop-drop, drop_all, drop-length, drop_onward,
  length-take_onward, All, IsOrder, Sorted, by_key, by_key-IsOrder, In, All-In, All-of_In,
  In-of_select, In-select, In-sort_with, length-sort_with, Sorted-sort_with, any-In, any_of_In,
  any-append, contains_iff,
}
pub use Rows.{
  In-of_find, find-none, In-append_left, In-append_last, In-of_append, In-map, In-of_map, Distinct,
  Distinct-add, Distinct-map, Distinct-select, Distinct-same, find_key, find-select, find-absent,
  find-append, find-map, find-map-none,
}
unfoldable pub use Lists.{select, find, sum_of, sort_with, any, contains}
pub use Dicts.{
  Dict, lookup-insert, lookup-erase, lookup-drop_where, lookup-nil, In-of_lookup, In-keys_of_In,
  lookup_of_In-keys, dict_laws, NodupKeys, insert-NodupKeys, erase-NodupKeys, filter_value,
  lookup-keep_unless, keep_unless-NodupKeys, length-keep_unless,
}
unfoldable pub use Dicts.{keys, values, drop_where, lookup, insert, erase, keep_unless, count_where}
pub use Texts.{
  starts_with-append, Text, codes, is_infix-append, decimal-injective, to_int-decimal,
  is_digits-decimal, is_space, StartsClean, lstrip-StartsClean, In-strip, strip-ends, In-decimal,
  In-middle, split_last,
}
unfoldable pub use Texts.{
  starts_with, is_infix, ends_with, decimal, to_int, all_digits, is_digits, lstrip, strip,
}
