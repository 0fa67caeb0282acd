-- ===== src/Opds/Requests.antt =====
-- What src/paperless_webdav/opds.py reads of a request: the credentials, the page, the origin, and the
-- split between the catalog and WebDAV. `b64decode` is `base64.b64decode(...).decode()`, none where it
-- raises an exception that is caught; a header has ASCII characters only.
use paperless_webdav.Base.{
  ℕ, ◌+◌, ◌≡◌, ◌≢◌, max, sym, ap, ◌∙◌, inl, inr, Bool, true, false, ◌||◌, ◌&&◌, not, Option, none,
  some, List, [], ◌∷◌, ◌++◌, map, if◌then◌else◌, ◌==◌, nat_eq, list_eq, leb, In, arith, Text, codes,
  strip, is_digits, to_int, starts_with,
}

-- `OPDS_PREFIX`
abbrev pub opds_prefix : Text
opds_prefix = codes "/opds"

-- `t.partition(sep)` for one character: before, whether it is found, and behind
unfoldable pub partition : ℕ → Text → Text × Bool × Text
partition sep [] = ([], false, [])
partition sep (c ∷ t) =
    let (before, found, behind) = partition sep t in
    if c == sep then ([], true, t) else (c ∷ before, found, behind)

-- `t.split(sep)[0]`
abbrev pub before_first : ℕ → Text → Text
before_first sep t = (partition sep t).0

-- `c.lower()`, for ASCII
abbrev pub to_lower : ℕ → ℕ
to_lower c = if leb 65 c && leb c 90 then c + 32 else c

-- `if not username: return False`
credentials_of : Text × Bool × Text → Option (Text × Text)
credentials_of ([], found, password) = none
credentials_of (c ∷ username, found, password) = some (c ∷ username, password)

decoded_credentials : Option Text → Option (Text × Text)
unfolding credentials_of partition
decoded_credentials none = none
decoded_credentials (some t) = credentials_of (partition b':' t)

credentials_in : (Text → Option Text) → Text × Bool × Text → Option (Text × Text)
unfolding decoded_credentials
credentials_in b64decode (scheme, found, encoded) =
    if not (map to_lower scheme == codes "basic") || (encoded == [])
    then none
    else decoded_credentials (b64decode (strip encoded))

-- `_authenticate`, up to the call of the authenticator: the user name and the password
unfoldable pub parse_credentials : (Text → Option Text) → Text → Option (Text × Text)
unfolding credentials_in partition
parse_credentials b64decode header = credentials_in b64decode (partition b' ' header)

-- `(query.get(key) or [default])[0]`
abbrev pub first_or : Text → Option (List Text) → Text
first_or default none = default
first_or default (some []) = default
first_or default (some (t ∷ ts)) = t

-- `_page`
unfoldable pub page_of : Option (List Text) → ℕ
unfolding is_digits to_int
page_of values =
    let raw = first_or (codes "1") values in if is_digits raw then max 1 (to_int 0 raw) else 1

-- What `_origin` reads of the environ; `none` for a key that is missing.
pub record OriginEnviron : Type 0 where
  pub forwarded_proto : Option Text
  pub url_scheme : Option Text
  pub forwarded_host : Option Text
  pub host : Option Text
  pub server_name : Option Text
  pub server_port : Option Text

-- `a or b`
abbrev pub or_else : Option Text → Text → Text
or_else none other = other
or_else (some []) other = other
or_else (some (c ∷ t)) other = c ∷ t

-- `environ.get(key, default)`
abbrev pub get_or : Option Text → Text → Text
get_or none default = default
get_or (some t) default = t

unfoldable pub origin : OriginEnviron → Text
unfolding partition strip
origin e =
    let scheme = or_else e.forwarded_proto (get_or e.url_scheme (codes "http")) in
    let server =
      get_or e.server_name (codes "localhost")
      ++ (codes ":" ++ get_or e.server_port (codes "80")) in
    let host = or_else e.forwarded_host (or_else e.host server) in
    strip (before_first b',' scheme) ++ (codes "://" ++ strip (before_first b',' host))

-- `OpdsDispatcher.__call__`: whether the request goes to the catalog
unfoldable pub goes_to_catalog : Text → Bool
unfolding starts_with
goes_to_catalog path = (path == opds_prefix) || starts_with path (codes "/opds/")

partition-first :
    (sep : ℕ) (before behind : Text)
    → ¬ In sep before
    → partition sep (before ++ (sep ∷ behind)) ≡ (before, true, behind)
unfolding partition
partition-first sep [] behind absent = ground arith
partition-first sep (c ∷ before) behind absent =
    let rest = partition-first sep before behind (λ m. absent (inr m)) in
    let differs : c ≢ sep = λ e. absent (inl (sym e)) in ground (arith, rest, differs)

module _ (b64decode : Text → Option Text) (scheme encoded : Text) where
  -- Past the scheme, the credentials are decoded.
  basic_credentials :
      map to_lower scheme ≡ codes "basic"
      → encoded ≢ []
      → credentials_in b64decode (scheme, true, encoded)
        ≡ decoded_credentials (b64decode (strip encoded))
  unfolding credentials_in
  basic_credentials basic filled = ground (arith, basic, filled)

-- A header with the scheme `Basic`, in any case, whose credentials decode to a user name without a
-- colon, a colon and a password, is read as that name and that password, colons in the password
-- included. The scheme has no space, the name is not empty, and the credentials have no space around
-- them.
pub parse_credentials-read :
    (b64decode : Text → Option Text) (scheme encoded username password : Text) (c : ℕ)
    → ¬ In b' ' scheme
    → map to_lower scheme ≡ codes "basic"
    → encoded ≢ []
    → strip encoded ≡ encoded
    → ¬ In b':' (c ∷ username)
    → b64decode encoded ≡ some ((c ∷ username) ++ (b':' ∷ password))
    → parse_credentials b64decode (scheme ++ (b' ' ∷ encoded)) ≡ some (c ∷ username, password)
unfolding parse_credentials decoded_credentials credentials_of
parse_credentials-read b64decode scheme encoded username password c no_space basic filled clean
      no_colon decodes =
    ap (credentials_in b64decode) (partition-first b' ' scheme encoded no_space) ∙ accepted
  where
    accepted : credentials_in b64decode (scheme, true, encoded) ≡ some (c ∷ username, password)
    accepted =
        basic_credentials b64decode scheme encoded basic filled
        ∙ ap (λ t. decoded_credentials (b64decode t)) clean
        ∙ ap decoded_credentials decodes
        ∙ ap credentials_of (partition-first b':' (c ∷ username) password no_colon)
