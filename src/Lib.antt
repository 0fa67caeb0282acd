-- ===== src/Lib.antt =====
-- A verification library for paperless_webdav, a WebDAV server that shows the documents of a
-- Paperless-ngx instance as shares of folders and files, and that takes back annotated copies.
--
-- The program's parts, and how they interact. Every WebDAV or OPDS request is authenticated first
-- (webdav_auth.py). A WebDAV request comes to the provider (webdav_provider.py), which resolves its
-- path to a resource: the root, a share, a folder of a share, a document, or a macOS metadata file. A
-- listing asks Paperless for the documents with certain tags (paperless_client.py), through the
-- document-list cache (cache.py), and gives each document a file name. A GET of a document is served
-- from the content cache, from a download or from a stream. A MOVE or DELETE of a document adds or
-- takes off the share's done tag in Paperless and drops the share's cached lists. A PUT goes to a sink
-- in the spool directory (spool.py); at its end the sink is published, parked, rescued or dropped,
-- attributed to a document by its size (services/document_sizes.py holds the sizes), and recorded in
-- an index (services/annotations.py). The catalog (opds.py) shows the same shares as feeds. Shares and
-- stored tokens are kept in a database (services/shares.py, encryption.py) and changed through
-- endpoints (api/shares.py) and web forms (ui/routes.py), for the user of a session (auth/paperless.py). All of these are modelled
-- here, from the source files below src/paperless_webdav.
--
-- Which file models which part:
-- - Base and its children: equality, arithmetic tests, lists, dicts and texts as the program uses
--   them. A text is its list of code points; a dict is its list of entries, `insert` overwrites.
-- - Outcome: the exceptions that the modelled code raises, as values. A function that raises and
--   changes state returns its outcome beside the state.
-- - Spool.Attribution: attribute_source. Spool.Store: the directory tree, spool_dirs,
--   sweep_on_start, spool_usage_bytes, prune_ingested. Spool.Upload: SpooledUpload up to `close`.
--   Spool.Release: its ends, park and finalize. Spool.Pending: list_pending. A file is its bytes,
--   its modification time and whether it is fsync'd. Every call of the operating system may raise
--   OSError: an argument says whether the open does, a field of a chunk whether its write does and
--   what the file then holds, and `Faults` which calls of abort, park and finalize do. `Platform`
--   holds the digest and the JSON text.
-- - Services.DocumentSizes and Services.Annotations: the two tables and the functions on them; the
--   argument `down` says that the database raises.
-- - Services.Encryption: TokenEncryption. Services.Shares: the share service, over the two tables as
--   lists of rows; a new id and a nonce are arguments. Api.Shares: the endpoints of the shares.
-- - Auth.Paperless: the login and the sessions. Auth.Webdav: basic_auth_user, with its cache.
-- - Client.Stream: the stream of a download, over the chunks that arrive. Client.Tags: the tag
--   requests of PaperlessClient over `Remote`, the tags that Paperless has; arguments say which
--   requests fail, and whether a PATCH that fails was applied all the same; served_size_from_metadata. Client.Pages: the pages of a query, the search and
--   the test of a token.
-- - Cache.Memory: InMemoryCache, method by method; `now` is the clock at the call.
--   Cache.Redis: RedisCache, over the commands of the server.
-- - Provider.Documents: PaperlessDocument and Share. Provider.Filenames: sanitize_filename and the
--   filename index. Provider.Paths: the parts of a path. Provider.Listing: _load_documents_cached
--   and its key. Provider.Moves: handle_move, copy_move_single, delete. Provider.Folders: the filters
--   of the root and the done folder, the tag folders, get_member, get_member_names,
--   get_resource_inst. Provider.Write: begin_write and end_write. Provider.Prefetch:
--   prefetch_document_sizes, where `measure` is the batch request to Paperless.
--   Provider.Content: _download_content, get_content_length and get_content of a document.
-- - Opds.Quoting: the percent-encoding of names and the header of a download, with a reader that
--   decodes it. Opds.Requests: what the
--   catalog reads of a request. Opds.Entries and Opds.Feeds: the feeds as links and entries.
--   Opds.Routes: _route and the whole call.
-- - WebdavServer: detect_webdav_client and the headers of the middleware.
-- - Ui.Routes: the pages and forms of ui/routes.py, with what a template is given.
-- - Tests and its children: the theorems at concrete inputs.
--
-- Bounds. Sizes, times and ids are natural numbers; times are whole seconds. int(upload_size *
-- 0.05) is modelled as the floor of a twentieth, with which it agrees below 2 ^ 48 bytes. Every
-- loop is structural recursion over a list, but for four. The pages of a query have fuel, and the
-- number of pages is shown to be enough. The slices of the prefetch have the number of ids as fuel,
-- and are shown to be all of them. The skip of a seek has the number of bytes to skip, of which
-- each round skips one at least, and the seek is shown to be that of a cursor. The loop of an OPDS
-- body is given its fuel, and more than the number of bytes is shown to be enough. A digit is an
-- ASCII digit, and the lower case of a scheme is that of ASCII letters.
--
-- Not modelled: what Paperless, the database server, the directory server, the operating system,
-- wsgidav, the XML writer, the digest, the cipher, the Redis server and the serializer of sessions
-- compute (they are arguments), the requests of httpx, the templates, the OIDC redirects, settings
-- and start-up, and two requests at the same time. The records that end in Context, State, View or
-- Environ, and Faults, Platform, Server, Json, Crypto, Directory, Backends, Serializer, Settings,
-- Catalog, Upstream, Attempt, Listing, Request and Database, gather what a function reads of its
-- surroundings, and Chunk what arrives at once; they are no types of the program. A negative Content-Length is not covered. Log
-- lines are left out throughout.
pub mod Base
pub mod Outcome
pub mod Spool
pub mod Services
pub mod Api
pub mod Auth
pub mod Client
pub mod Cache
pub mod Provider
pub mod Opds
pub mod Ui
pub mod WebdavServer
pub mod Tests
