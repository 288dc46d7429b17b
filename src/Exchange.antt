-- ===== src/Exchange.antt =====
-- The routes that exchange one JSON document for an account: POST /v1/sync of internal/server/http.go,
-- POST /v1/privacy/sync, /v1/folders/sync and /v1/statistics/sync of the files of their stores, and the
-- list and the end of device sessions.
pub mod Atomic
mod Tests
use quire_server.Base.{ℕ, ◌+◌, ◌*◌, ◌^◌, Bool, Option, List, Text, Result, ok, err, Table}
use quire_server.Auth.{Accounts, Crypto, Session, sessions, revoke}
use quire_server.Http.{Request, Reply, denied, granted, failure_status, decode}
use quire_server.Http.Browser.{authorized, seconds}
use quire_server.Sync.Wire.{SyncRequest, SyncResponse, Codec}
use quire_server.Sync.Apply.{Db}
use quire_server.Admin.{Directory}
use quire_server.MetadataCache.{BookMetadata}
use quire_server.Libraries.{FileRow}
use quire_server.Libraries.Volumes.{VolumeSyntax}
use quire_server.Libraries.Seeds.{SeedCodec}
use quire_server.Libraries.Seeds.Whole.{full_sync}
use quire_server.Privacy.{PrivacyRequest, PrivacyResponse, PrivacyCodec, PrivacyTable, sync_privacy}
use quire_server.FolderCatalog.{
  FolderCatalogRequest, FolderCatalogResponse, CatalogCodec, CatalogTable, sync_catalog,
}
use quire_server.Statistics.{
  StatisticsSyncRequest, StatisticsSyncResponse, ActivityRow, ActivityCodec, sync_statistics,
}

-- The steps of such a route: who the request acts for, its document, and the change of the tables. A
-- transaction that fails leaves them alone.
unfoldable pub exchange :
    {D A B : Type 0} → Reply Text → Reply A → (Text → A → Result (D × B)) → D → D × Reply B
exchange (denied status) input change db = (db, denied status)
exchange (granted user) (denied status) change db = (db, denied status)
exchange (granted user) (granted req) change db = elim (change user req) [
  | err e ↦ (db, denied (failure_status e))
  | ok (db', out) ↦ (db', granted out)
]

abbrev pub replied : {D B : Type 0} → D × Result B → D × Reply B
replied (db, err e) = (db, denied (failure_status e))
replied (db, ok out) = (db, granted out)

-- The same steps, where the change says what the tables are even if it fails.
abbrev pub exchange_kept :
    {D A B : Type 0} → Reply Text → Reply A → (Text → A → D × Result B) → D → D × Reply B
exchange_kept (denied status) input change db = (db, denied status)
exchange_kept (granted user) (denied status) change db = (db, denied status)
exchange_kept (granted user) (granted req) change db = replied (change user req)

module _ (c : Crypto) (origin : Text) (r : Request) (now : ℕ) (accounts : Accounts) where
  -- POST /v1/sync, which keeps what `Store.Sync` has committed before it fails.
  unfoldable pub sync_route :
      Codec
      → VolumeSyntax
      → SeedCodec
      → (Text × Text → BookMetadata)
      → (Text × Text → Text)
      → (d d' : Directory) (fs fs' : List FileRow) → (ℕ → ℕ)
      → (Text → Option (SyncRequest × Bool))
      → Db
      → Db × Reply SyncResponse
  sync_route codec y j metadata ids d d' fs fs' clock read db =
      exchange_kept (authorized c origin r now accounts) (decode read r (2 * 2 ^ 20))
        (λ user req. full_sync codec y j user metadata ids d d' fs fs' clock req db) db

  unfoldable pub privacy_route :
      PrivacyCodec
      → (Text → Option (PrivacyRequest × Bool))
      → PrivacyTable
      → PrivacyTable × Reply PrivacyResponse
  privacy_route codec read t =
      exchange (authorized c origin r now accounts) (decode read r (2 ^ 20))
        (λ user req. sync_privacy codec user req t) t

  unfoldable pub catalog_route :
      CatalogCodec
      → (Text → Option (FolderCatalogRequest × Bool))
      → CatalogTable
      → CatalogTable × Reply FolderCatalogResponse
  catalog_route codec read t =
      exchange (authorized c origin r now accounts) (decode read r (2 ^ 20 + 128))
        (λ user req. sync_catalog codec user req t) t

  unfoldable pub statistics_route :
      ActivityCodec
      → (Text → Option (StatisticsSyncRequest × Bool))
      → List ActivityRow
      → List ActivityRow × Reply StatisticsSyncResponse
  statistics_route codec read rows =
      exchange (authorized c origin r now accounts) (decode read r (2 ^ 20))
        (λ user req. sync_statistics codec user req rows) rows

  -- GET /v1/sessions
  unfoldable pub sessions_route : Reply (List Session)
  sessions_route = elim (authorized c origin r now accounts) [
    | denied status ↦ denied status
    | granted user ↦ granted (sessions user (seconds now) accounts)
  ]

  -- DELETE /v1/sessions/{id}
  unfoldable pub revoke_route : Text → Accounts × Reply (Unit {0})
  revoke_route id = elim (authorized c origin r now accounts) [
    | denied status ↦ (accounts, denied status)
    | granted user ↦ elim (revoke user id accounts) [
      | err e ↦ (accounts, denied (failure_status e))
      | ok db ↦ (db, granted tt)
    ]
  ]
