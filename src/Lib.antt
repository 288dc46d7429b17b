-- ===== src/Lib.antt =====
-- quire-server keeps a reader's books, positions and notes in step between devices. It is one Go
-- package, internal/server, over a SQLite database, with a command in cmd/quire-server. This library
-- models the parts of it that decide what is stored, and for whom.
--
-- The parts, and the files that model them:
-- - Base: what the other files share. A Go string is a list of code points (`Text`), whose `len` counts
--   the bytes of its UTF-8 form; an int64 of a request is a `ℤ`; a call that may fail gives a `Result`,
--   with the errors that `failure` tells apart; a table of the database is a list of rows, or of keys
--   with the rest of their rows. Base/Encoding holds the round trips that the tests use.
-- - Folders: internal/server/folders.go, and validFolder and validBookFormat of formats.go. A book's
--   value is a table from the members of its JSON object to their raw text.
-- - Sync: internal/server/sync.go. Sync/Wire has its types, Sync/Validate is validateOperation, and
--   Sync/Apply is the transaction of Store.Sync: what one operation does (apply_operation,
--   accept_operation, store_operation), the loop over a batch, and the page of changes.
-- - Privacy, FolderCatalog and Statistics: privacy.go, folder_catalog.go and statistics.go, the other
--   documents that devices exchange with an account.
-- - MetadataCache: metadata_cache.go, as the two sections that a call of `get` runs under the mutex.
-- - Auth: auth.go, the accounts and the sessions of devices.
-- - Http: what the routes share (http.go: failure, decode, authorized, allowLogin) and the sessions of
--   browsers (browser_session.go).
-- - Exchange: the routes that read one document and hand it to Sync, Privacy, FolderCatalog or
--   Statistics, and those that list and end sessions.
-- - Opds: the passwords of OPDS readers, opds_auth.go.
-- - Oauth: the connection to a tracking provider, tracking_oauth.go.
-- - Settings: settings.go, limits.go and cors.go.
-- - Admin: admin.go, who may register, who is an administrator, and the invites. Its `Directory` holds
--   the accounts of Auth with the tables of invites and libraries; Admin/Routes has the handlers,
--   Admin/Answers what registering answers.
-- - Libraries: libraries.go and library_management.go over the same `Directory`, with deleteLibrary over
--   the tables of a library's owner (`Holdings`). Libraries/Access says who may read a shared book,
--   Libraries/Volumes is metadata_volume.go, and Libraries/Seeds is sharedSeeds with seedBook of
--   files.go; its `full_sync` is Store.Sync with these seeds, and Libraries/Routes the edit of a shared
--   book.
-- - Catalog: opds_sources.go and opds_proxy.go, the catalogs that an account follows. Catalog/Addresses
--   and Catalog/Proxy are the filter of addresses and the loop over redirects, Catalog/Delivery what is
--   passed on to the browser.
-- The routes call Http for the user of a request, and then the operations of one part with that user's
-- id; Auth gives and ends the tokens by which Http finds the user; Sync uses Folders for a book's value,
-- and Libraries writes seeds into the tables of Sync; Catalog finds a source's secret for its proxy.
--
-- What stands outside internal/server is an argument: encoding/json, sha256, argon2 and
-- net.SplitHostPort are the fields of records (Json, Codec, PrivacyCodec, CatalogCodec, ActivityCodec,
-- Crypto, SeedCodec), net/url is Links, regular expressions are VolumeSyntax, and the answers of remote
-- servers a function. Where a theorem needs more of them it says so by `IsLawful`: that what was encoded
-- decodes again. Random ids, tokens, nonces and the time are arguments as well.
--
-- A transaction that fails leaves the database as it was, so an operation gives the new tables only with
-- `ok`; a call of several transactions, as sharedSeeds and Store.Sync, gives the tables beside its
-- result, since what it committed stays when it fails. Faults of the database driver, such as a full
-- disk, are not modelled, nor is an overflow of the 64-bit counters. All loops are recursions on lists,
-- but for two: the fuel of the eviction loop of the cache is the number of entries, which is enough, and
-- fetching a catalog's URL has the six rounds of the source. Not modelled are the uploads, the watched
-- folders and the removal of files on disk, backups, OPDS feeds, the tracking itself, the dialling of
-- connections, and the pages of the web client; of the formats of books only their names are.
mod Base
pub mod Admin
pub mod Libraries
pub mod Catalog
pub mod Folders
pub mod Sync
pub mod Privacy
pub mod FolderCatalog
pub mod Statistics
pub mod MetadataCache
pub mod Auth
pub mod Http
pub mod Exchange
pub mod Opds
pub mod Oauth
pub mod Settings
