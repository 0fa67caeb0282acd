-- ===== src/Cache/Redis.antt =====
-- `RedisCache` of src/paperless_webdav/cache.py. The server is an argument: a type of states and the
-- commands that the cache sends; `now` is the clock of the server, and `down` says that its calls
-- raise, which every method catches. The JSON text of a value is an argument too.
pub mod Answers
use paperless_webdav.Base.{
  ℕ, ◌+◌, ◌≡◌, ◌≢◌, ◌<◌, Bool, true, false, ◌||◌, Option, none, some, List, [], ◌∷◌, ◌++◌, Eq, ◌==◌,
  if◌then◌else◌, nat_eq, length, Dict, In, Text, codes, decimal, is_digits, to_int,
}
use paperless_webdav.Provider.Documents.{PaperlessDocument}
use paperless_webdav.Cache.Memory.{content_ttl, size_ttl, tag_map_ttl, or_default, token_key}

-- GET, SETEX and DELETE, and the batches of keys that a whole SCAN for a pattern answers.
pub record Server (S : Type 0) : Type 0 where
  pub get : ℕ → Text → S → Option (List ℕ)
  pub setex : ℕ → Text → ℕ → List ℕ → S → S
  pub delete : List Text → S → S
  pub scan : Text → S → List (List Text)

-- What the commands promise: a value is there for its seconds, a deleted key has no value, and no
-- command touches another key.
pub record IsServer {S : Type 0} (server : Server S) : Type 0 where
  pub get_setex :
      (now later ttl : ℕ) (key : Text) (value : List ℕ) (s : S)
      → later < now + ttl
      → server.get later key (server.setex now key ttl value s) ≡ some value
  pub get_setex_other :
      (now later ttl : ℕ) (key other : Text) (value : List ℕ) (s : S)
      → other ≢ key
      → server.get later other (server.setex now key ttl value s) ≡ server.get later other s
  pub get_delete :
      (later : ℕ) (key : Text) (removed : List Text) (s : S)
      → In key removed
      → server.get later key (server.delete removed s) ≡ none
  pub get_delete_other :
      (later : ℕ) (key : Text) (removed : List Text) (s : S)
      → ¬ In key removed
      → server.get later key (server.delete removed s) ≡ server.get later key s

-- `json.dumps(...).encode()` and `json.loads(...)`, none where it raises
pub record Json (A : Type 0) : Type 0 where
  pub dumps : A → List ℕ
  pub loads : List ℕ → Option A

-- `self._prefix`
abbrev pub prefix : Text
prefix = codes "paperless-webdav:cache:"

unfoldable pub content_key : ℕ → Text
unfolding decimal
content_key document_id = prefix ++ (codes "content:" ++ decimal document_id)

unfoldable pub size_key : ℕ → Option Text → Text
unfolding decimal
size_key document_id none = prefix ++ (codes "size:" ++ decimal document_id)
size_key document_id (some version) =
    prefix ++ (codes "size:" ++ (decimal document_id ++ (codes ":" ++ version)))

abbrev pub tag_map_key : Text → Text
tag_map_key token = prefix ++ (codes "tagmap:" ++ token_key token)

abbrev pub document_list_key : Text → Text
document_list_key key = prefix ++ (codes "doclist:" ++ key)

-- `int(size_bytes.decode())`; what is no number raises
abbrev pub read_size : Option (List ℕ) → Option ℕ
read_size none = none
read_size (some t) = if is_digits t then some (to_int 0 t) else none

abbrev pub read_json : {A : Type 0} → Json A → Option (List ℕ) → Option A
read_json json none = none
read_json json (some t) = json.loads t

module _ {S : Type 0} (server : Server S) (down : Bool) where
  unfoldable pub get_content : ℕ → ℕ → S → Option (List ℕ)
  unfolding content_key
  get_content now document_id s = if down then none else server.get now (content_key document_id) s

  -- SETEX refuses a time of zero seconds; the two of a pipeline fail together.
  unfoldable pub set_content : ℕ → ℕ → List ℕ → Option ℕ → S → S
  unfolding content_key size_key decimal
  set_content now document_id content ttl s =
      let seconds = or_default ttl content_ttl in
      if down || (seconds == 0)
      then s
      else server.setex now (size_key document_id none) seconds (decimal (length content))
          (server.setex now (content_key document_id) seconds content s)

  unfoldable pub get_size : ℕ → ℕ → Option Text → S → Option ℕ
  unfolding size_key is_digits to_int
  get_size now document_id version s =
      if down then none else read_size (server.get now (size_key document_id version) s)

  unfoldable pub set_size : ℕ → ℕ → ℕ → Option ℕ → Option Text → S → S
  unfolding size_key decimal
  set_size now document_id size ttl version s =
      let seconds = or_default ttl size_ttl in
      if down || (seconds == 0)
      then s
      else server.setex now (size_key document_id version) seconds (decimal size) s

  unfoldable pub get_tag_map : Json (Dict Text ℕ) → ℕ → Text → S → Option (Dict Text ℕ)
  get_tag_map json now token s =
      if down then none else read_json json (server.get now (tag_map_key token) s)

  unfoldable pub set_tag_map : Json (Dict Text ℕ) → ℕ → Text → Dict Text ℕ → Option ℕ → S → S
  set_tag_map json now token tag_map ttl s =
      let seconds = or_default ttl tag_map_ttl in
      if down || (seconds == 0)
      then s
      else server.setex now (tag_map_key token) seconds (json.dumps tag_map) s

  unfoldable pub get_document_list :
      Json (List PaperlessDocument) → ℕ → Text → S → Option (List PaperlessDocument)
  get_document_list json now key s =
      if down then none else read_json json (server.get now (document_list_key key) s)

  unfoldable pub set_document_list :
      Json (List PaperlessDocument) → ℕ → Text → List PaperlessDocument → ℕ → S → S
  set_document_list json now key documents ttl s =
      if down || (ttl == 0)
      then s
      else server.setex now (document_list_key key) ttl (json.dumps documents) s

  -- The loop over the cursor: each batch that is not empty is deleted.
  unfoldable pub delete_batches : List (List Text) → S → S
  delete_batches [] s = s
  delete_batches ([] ∷ batches) s = delete_batches batches s
  delete_batches ((key ∷ batch) ∷ batches) s =
      delete_batches batches (server.delete (key ∷ batch) s)

  unfoldable pub invalidate_document_lists : Text → S → S
  unfolding delete_batches
  invalidate_document_lists share_name s =
      if down
      then s
      else delete_batches
          (server.scan (prefix ++ (codes "doclist:*:" ++ (share_name ++ codes ":*"))) s) s

  unfoldable pub invalidate_content : ℕ → S → S
  unfolding content_key size_key
  invalidate_content document_id s =
      if down then s else server.delete (content_key document_id ∷ size_key document_id none ∷ []) s

  unfoldable pub clear : S → S
  unfolding delete_batches
  clear s = if down then s else delete_batches (server.scan (prefix ++ codes "*") s) s
