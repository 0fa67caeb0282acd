-- ===== src/Tests/Server.antt =====
-- The clients of the WebDAV server at concrete texts.
use paperless_webdav.Base.{◌≡◌, refl, codes, is_infix, nat_eq, ℕ_discrete}
use paperless_webdav.WebdavServer.{macos, linux, cyberduck, client_of}

-- Finder names its file system, and Cyberduck its operating system.
clients_detected :
    (client_of (codes "webdavfs/3.0.0 darwin/23.0.0") ≡ macos)
    × (client_of (codes "cyberduck/8.7.0 (mac os x/14.0)") ≡ cyberduck)
    × (client_of (codes "davfs2/1.6.1 neon") ≡ linux)
unfolding client_of is_infix nat_eq ℕ_discrete
clients_detected = (refl, refl, refl)
