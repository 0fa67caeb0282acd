-- ===== src/WebdavServer.antt =====
-- The client detection and the middleware of src/paperless_webdav/webdav_server.py. `lower` is
-- `str.lower`.
use paperless_webdav.Base.{◌||◌, List, [], ◌∷◌, ◌++◌, if◌then◌else◌, Text, codes, is_infix}

pub data WebDavClient : Type 0 where
  windows macos linux cyberduck rclone unknown : WebDavClient

unfoldable pub client_of : Text → WebDavClient
unfolding is_infix
client_of ua_lower =
    if is_infix (codes "cyberduck") ua_lower
    then cyberduck
    else if is_infix (codes "rclone") ua_lower
    then rclone
    else if is_infix (codes "gvfs") ua_lower || is_infix (codes "davfs2") ua_lower
    then linux
    else if is_infix (codes "microsoft-webdav") ua_lower || is_infix (codes "miniredir") ua_lower
    then windows
    else if is_infix (codes "webdavfs") ua_lower || is_infix (codes "darwin") ua_lower
    then macos
    else if is_infix (codes "macos") ua_lower || is_infix (codes "mac os") ua_lower
    then macos
    else unknown

unfoldable pub detect_webdav_client : (Text → Text) → Text → WebDavClient
unfolding client_of
detect_webdav_client lower [] = unknown
detect_webdav_client lower (c ∷ t) = client_of (lower (c ∷ t))

-- `_apply_client_headers`
unfoldable pub apply_client_headers : WebDavClient → List (Text × Text) → List (Text × Text)
apply_client_headers macos headers =
    headers
    ++ ((codes "Cache-Control", codes "no-store, no-cache, must-revalidate")
        ∷ (codes "Pragma", codes "no-cache")
        ∷ [])
apply_client_headers windows headers = headers
apply_client_headers linux headers = headers
apply_client_headers cyberduck headers = headers
apply_client_headers rclone headers = headers
apply_client_headers unknown headers = headers

-- `ClientCompatibilityMiddleware.__call__`, on the headers that the application answers with
unfoldable pub compatible_headers : (Text → Text) → Text → List (Text × Text) → List (Text × Text)
unfolding detect_webdav_client apply_client_headers
compatible_headers lower user_agent headers =
    apply_client_headers (detect_webdav_client lower user_agent) headers
