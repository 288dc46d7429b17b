-- ===== src/Exchange/Atomic.antt =====
-- POST /v1/sync changes the tables only for the account that it acts for.
use quire_server.Base.{
  ℕ, ◌*◌, ◌^◌, ◌≡◌, ◌≢◌, ◌∙◌, refl, Bool, Option, List, Text, find, Result, ok, err, ap, sym,
  text_eq, nat_eq,
}
use quire_server.Auth.{Accounts, Crypto}
use quire_server.Http.{Request, Reply, denied, granted, decode}
use quire_server.Http.Browser.{authorized}
use quire_server.Sync.Wire.{SyncRequest, SyncResponse, Codec, IsLawful}
use quire_server.Sync.Apply.{Db, RecordKey, key_eq, sync}
use quire_server.Sync.Apply.Log.{log}
use quire_server.Sync.Apply.Page.{IsConsistent, sync-IsConsistent}
use quire_server.Sync.Apply.Candidates.{sync_isolated}
use quire_server.MetadataCache.{BookMetadata}
use quire_server.Admin.{Directory}
use quire_server.Libraries.{FileRow}
use quire_server.Libraries.Volumes.{VolumeSyntax}
use quire_server.Libraries.Seeds.{SeedCodec}
use quire_server.Libraries.Seeds.Whole.{shared_seeds, full_sync, synced, sync_seeded}
use quire_server.Libraries.Seeds.Shared.{shared_seeds-IsSeeding}
use quire_server.Exchange.{exchange_kept, replied, sync_route}

-- Consistent tables, in which a user has the records, the changes and the cursor of before.
pub record IsSpared (v : Text) (db db' : Db) : Type 0 where
  pub consistent : IsConsistent db'
  pub records : (k : RecordKey) → k.user ≡ v → find k db'.records ≡ find k db.records
  pub changes : log v db'.changes ≡ log v db.changes
  pub cursor : find v db'.cursors ≡ find v db.cursors

untouched-IsSpared : (v : Text) (db : Db) → IsConsistent db → IsSpared v db db
untouched-IsSpared v db h = record {
  consistent = h;
  records = λ k _. refl;
  changes = refl;
  cursor = refl;
}

module _ (c : Codec) (y : VolumeSyntax) (j : SeedCodec) (lawful : IsLawful c) where
  synced-IsSpared :
      (user v : Text) (clock : ℕ → ℕ) (req : SyncRequest) (db mid : Db)
      (out : Result (Db × SyncResponse))
      → sync c user clock req mid ≡ out
      → v ≢ user
      → IsSpared v db mid
      → IsSpared v db (synced c y j mid out).0
  synced-IsSpared user v clock req db mid (err e) run other s = s
  synced-IsSpared user v clock req db mid (ok (db', res)) run other s =
      let key : RecordKey = record { user = v; book_id = v; kind = v; record_id = v } in
      let apart =
        sync_isolated c user clock req mid db' res v key lawful s.consistent other refl run in
      record {
        consistent = sync-IsConsistent c user clock req mid db' res lawful s.consistent run;
        records = λ k at.
            (sync_isolated c user clock req mid db' res v k lawful s.consistent other at run).0
            ∙ s.records k at;
        changes = apart.1 ∙ s.changes;
        cursor = apart.2 ∙ s.cursor;
      }

  sync_seeded-IsSpared :
      (user v : Text) (clock : ℕ → ℕ) (req : SyncRequest) (db : Db) (seeds : Db × Result (Unit {0}))
      → v ≢ user
      → IsSpared v db seeds.0
      → IsSpared v db (sync_seeded c y j user clock req seeds).0
  sync_seeded-IsSpared user v clock req db (mid, err e) other s = s
  sync_seeded-IsSpared user v clock req db (mid, ok _) other s =
      synced-IsSpared user v clock req db mid (sync c user clock req mid) refl other s

  module _ (metadata : Text × Text → BookMetadata) (ids : Text × Text → Text) (d d' : Directory)
      (fs fs' : List FileRow) (clock : ℕ → ℕ) where
    full_sync-IsSpared :
        (user v : Text) (req : SyncRequest) (db : Db)
        → v ≢ user
        → IsConsistent db
        → IsSpared v db (full_sync c y j user metadata ids d d' fs fs' clock req db).0
    unfolding full_sync
    full_sync-IsSpared user v req db other h =
        let seeds = shared_seeds c y j user metadata ids (clock 0) d d' fs fs' db in
        let own = (shared_seeds-IsSeeding c y j user metadata ids (clock 0) d d' fs fs' db).own in
        sync_seeded-IsSpared user v clock req db seeds other (record {
          consistent = own.consistent h;
          records = λ k at. own.records k (λ same. other (sym at ∙ same));
          changes = own.logs v other;
          cursor = own.cursors v other;
        })

    replied-tables : {B : Type 0} (out : Db × Result B) → (replied out).0 ≡ out.0
    replied-tables (db, err e) = refl
    replied-tables (db, ok res) = refl

    exchange_kept-IsSpared :
        (who : Reply Text) (input : Reply SyncRequest) (v : Text) (db : Db)
        → who ≢ granted v
        → IsConsistent db
        → IsSpared v db
            (exchange_kept who input
              (λ user req. full_sync c y j user metadata ids d d' fs fs' clock req db)
              db).0
    exchange_kept-IsSpared (denied status) input v db other h = untouched-IsSpared v db h
    exchange_kept-IsSpared (granted user) (denied status) v db other h = untouched-IsSpared v db h
    exchange_kept-IsSpared (granted user) (granted req) v db other h =
        rw (replied-tables (full_sync c y j user metadata ids d d' fs fs' clock req db))
          (full_sync-IsSpared user v req db (λ same. other (ap granted (sym same))) h)

    -- POST /v1/sync on consistent tables leaves consistent tables, and every record, change and cursor of
    -- a user that the request does not act for as it was, whatever the request holds and whether it is
    -- refused, fails behind the seeds that are committed before, or succeeds.
    pub sync_route-IsSpared :
        (crypto : Crypto) (origin : Text) (r : Request) (now : ℕ) (accounts : Accounts)
        (read : Text → Option (SyncRequest × Bool)) (db : Db) (v : Text)
        → authorized crypto origin r now accounts ≢ granted v
        → IsConsistent db
        → IsSpared v db
            (sync_route crypto origin r now accounts c y j metadata ids d d' fs fs' clock read db).0
    unfolding sync_route
    sync_route-IsSpared crypto origin r now accounts read db v other h =
        exchange_kept-IsSpared (authorized crypto origin r now accounts)
          (decode read r (2 * 2 ^ 20)) v db other h
