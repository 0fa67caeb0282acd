-- ===== src/Tests/Redis.antt =====
-- The Redis cache over a server that is a dict.
use paperless_webdav.Base.{
  ℕ, ◌+◌, ◌≡◌, false, Option, none, some, List, [], ◌==◌, if◌then◌else◌, nat_eq, list_eq, ltb,
  arith, Dict, lookup, insert, drop_where, lookup-insert, lookup-drop_where, contains, contains_iff,
  Bool-cases, inl, inr, Text, codes,
}
use paperless_webdav.Cache.Memory
use paperless_webdav.Cache.Memory.{CacheEntry, InMemoryCache, empty_cache}
use paperless_webdav.Cache.Redis.{Server, IsServer, get_size, set_size, invalidate_content}
use paperless_webdav.Cache.Redis.Answers.{get_size_stale}

abbrev State : Type 0
State = Dict Text (CacheEntry (List ℕ))

abbrev answer : ℕ → Option (CacheEntry (List ℕ)) → Option (List ℕ)
answer now none = none
answer now (some entry) = if ltb now entry.expires_at then some entry.value else none

dict_get : ℕ → Text → State → Option (List ℕ)
unfolding lookup
dict_get now key s = answer now (lookup key s)

dict_setex : ℕ → Text → ℕ → List ℕ → State → State
unfolding insert
dict_setex now key ttl value s = insert key (record { value = value; expires_at = now + ttl }) s

dict_delete : List Text → State → State
unfolding drop_where contains
dict_delete removed s = drop_where (λ key. contains key removed) s

abbrev dict_server : Server State
dict_server = record {
  get = dict_get;
  setex = dict_setex;
  delete = dict_delete;
  scan = λ pattern s. [];
}

found :
    (now later ttl : ℕ) (key other : Text) (value : List ℕ) (s : State)
    → dict_get later other (dict_setex now key ttl value s) ≡ (
        if other == key
        then if ltb later (now + ttl) then some value else none
        else dict_get later other s)
unfolding dict_get dict_setex
found now later ttl key other value s =
    let entry : CacheEntry (List ℕ) = record { value = value; expires_at = now + ttl } in
    ground (arith, lookup-insert other key entry s)

kept :
    (later : ℕ) (key : Text) (removed : List Text) (s : State)
    → dict_get later key (dict_delete removed s)
      ≡ (if contains key removed then none else dict_get later key s)
unfolding dict_get dict_delete
kept later key removed s = ground (arith, lookup-drop_where key (λ k. contains k removed) s)

dict_server-IsServer : IsServer dict_server
dict_server-IsServer = record {
  get_setex =
      λ now later ttl key value s live. ground (arith, found now later ttl key key value s, live);
  get_setex_other = λ now later ttl key other value s differs.
      ground (arith, found now later ttl key other value s, differs);
  get_delete = λ later key removed s m.
      ground (arith, kept later key removed s, (contains_iff key removed).1 m);
  get_delete_other = λ later key removed s absent. elim (Bool-cases (contains key removed)) [
    | inl e ↦ absurd (absent ((contains_iff key removed).0 e))
    | inr e ↦ ground (arith, kept later key removed s, e)
  ];
}

get_size_stale_example :
    (get_size dict_server false 60 7 (some (codes "v1")) (
        invalidate_content dict_server false 7
          (set_size dict_server false 50 7 1234 none (some (codes "v1")) []))
      ≡ some 1234)
    × ((Memory.get_size 60 7 (some (codes "v1")) (
          Memory.invalidate_content 7
            (Memory.set_size 50 7 1234 none (some (codes "v1")) empty_cache))).0
        ≡ none)
get_size_stale_example =
    get_size_stale dict_server dict_server-IsServer 50 60 7 1234 none (codes "v1") [] empty_cache
      (omega arith) (omega arith)
