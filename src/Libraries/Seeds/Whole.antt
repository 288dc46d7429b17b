-- ===== src/Libraries/Seeds/Whole.antt =====
-- `sharedSeeds` of internal/server/libraries.go, and `Store.Sync`, whose first call it is.
use quire_server.Base.{
  ℕ, Bool, false, not, ◌&&◌, Option, none, some, List, [], ◌∷◌, Text, codes, any, contains, ◌==◌,
  text_eq, nat_eq, pair_eq, if◌then◌else◌, Table, find, Result, ok, err, ◌>>=◌,
}
use quire_server.MetadataCache.{BookMetadata}
use quire_server.Sync.Wire.{SyncRequest, SyncResponse, Codec}
use quire_server.Sync.Validate.{book}
use quire_server.Sync.Apply.{Db, RecordKey, RecordRow, key_eq, settled, sync}
use quire_server.Admin.{Directory}
use quire_server.Libraries.{FileRow}
use quire_server.Libraries.Access.{is_shared}
use quire_server.Libraries.Volumes.{VolumeSyntax}
use quire_server.Libraries.Seeds.{SeedCodec, Seed, book_key, seed_book}
use quire_server.Libraries.Seeds.Migration.{migrate_shared_membership}

module _ (c : Codec) (y : VolumeSyntax) (j : SeedCodec) where
  -- EXISTS(SELECT 1 FROM files f JOIN libraries l … WHERE m.user_id=? AND f.user_id=? AND f.book_id=?)
  abbrev pub is_available : (user owner book_id : Text) → Directory → List FileRow → Bool
  is_available user owner book_id d fs =
      any (λ f. f.user_id == owner && f.book_id == book_id) fs
      && is_shared user owner d.libraries d.library_members

  -- NOT EXISTS(SELECT 1 FROM records r WHERE r.user_id=? AND r.book_id=? AND r.kind='book')
  abbrev pub has_book : (user book_id : Text) → Table RecordKey RecordRow → Bool
  has_book user book_id t =
      any (λ row. row.0.user == user && row.0.book_id == book_id && row.0.kind == book) t

  -- SELECT DISTINCT f.user_id,f.book_id FROM files f JOIN libraries l …, less the pairs seen
  unfoldable pub shared_items :
      Text → Directory → Db → List (Text × Text) → List FileRow → List (Text × Text)
  shared_items user d db seen [] = []
  shared_items user d db seen (f ∷ fs) =
      let item : Text × Text = (f.user_id, f.book_id) in
      if is_shared user f.user_id d.libraries d.library_members
        && not (has_book user f.book_id db.records)
        && not (contains item seen)
      then item ∷ shared_items user d db (item ∷ seen) fs
      else shared_items user d db seen fs

  -- The metadata of a seed: that of the owner's file and of the owner's only candidate, if it is not a
  -- deletion, outside of the member's own library.
  abbrev merged : Option RecordRow → BookMetadata → BookMetadata
  merged none meta = meta
  merged (some row) meta = elim (c.candidates_of row.candidates) [
    | none ↦ meta
    | some cs ↦ elim (settled cs) [ none ↦ meta | some value ↦ j.merge value meta ]
  ]

  unfoldable pub shared_seed :
      Text → (Text × Text → BookMetadata) → (Text × Text → Text) → ℕ → Db → Text × Text → Seed
  shared_seed user metadata ids now db (owner, book_id) =
      let decoded = record (metadata (owner, book_id)) { cover = codes "" } in
      let meta = merged (find (book_key owner book_id) db.records) decoded in
      record {
        user = user;
        book_id = book_id;
        title = codes "Untitled";
        metadata = record meta { in_library = some false };
        folder = none;
        id = ids (owner, book_id);
        now = now;
      }

  -- The loop over the items.
  unfoldable pub seed_items :
      Text
      → (Text × Text → BookMetadata)
      → (Text × Text → Text)
      → ℕ
      → Directory
      → List FileRow
      → List (Text × Text)
      → Db
      → Result Db
  seed_items user metadata ids now d fs [] db = ok db
  seed_items user metadata ids now d fs (item ∷ items) db =
      if not (is_available user item.0 item.1 d fs)
      then seed_items user metadata ids now d fs items db
      else do
        db' ← seed_book c y j (shared_seed user metadata ids now db item) db
        seed_items user metadata ids now d fs items db'

  -- The tables after a transaction: those that stood before it, where it fails.
  abbrev pub committed : Db → Result Db → Db × Result (Unit {0})
  committed db (err e) = (db, err e)
  committed db (ok db') = (db', ok tt)

  -- The second transaction of `sharedSeeds`, behind the migration, which has committed by then.
  abbrev pub seeded_after :
      Text
      → (Text × Text → BookMetadata)
      → (Text × Text → Text)
      → ℕ
      → (d d' : Directory) (fs fs' : List FileRow) → Db
      → Result Db
      → Db × Result (Unit {0})
  seeded_after user metadata ids now d d' fs fs' db (err e) = (db, err e)
  seeded_after user metadata ids now d d' fs fs' db (ok mid) =
      committed mid (seed_items user metadata ids now d' fs' (shared_items user d mid [] fs) mid)

  -- `sharedSeeds`: the tables afterwards, and whether it succeeded; the memberships and the files may
  -- change while the metadata are decoded.
  unfoldable pub shared_seeds :
      Text
      → (Text × Text → BookMetadata)
      → (Text × Text → Text)
      → ℕ
      → (d d' : Directory) (fs fs' : List FileRow) → Db
      → Db × Result (Unit {0})
  shared_seeds user metadata ids now d d' fs fs' db =
      seeded_after user metadata ids now d d' fs fs' db
        (migrate_shared_membership c y j user d fs db)

  abbrev pub synced : Db → Result (Db × SyncResponse) → Db × Result SyncResponse
  synced db (err e) = (db, err e)
  synced db (ok (db', res)) = (db', ok res)

  abbrev pub sync_seeded :
      Text → (ℕ → ℕ) → SyncRequest → Db × Result (Unit {0}) → Db × Result SyncResponse
  sync_seeded user clock req (db, err e) = (db, err e)
  sync_seeded user clock req (db, ok _) = synced db (sync c user clock req db)

  -- `Store.Sync`: what `sharedSeeds` commits stays, whatever comes of the request.
  unfoldable pub full_sync :
      Text
      → (Text × Text → BookMetadata)
      → (Text × Text → Text)
      → (d d' : Directory) (fs fs' : List FileRow) → (ℕ → ℕ)
      → SyncRequest
      → Db
      → Db × Result SyncResponse
  full_sync user metadata ids d d' fs fs' clock req db =
      sync_seeded user clock req (shared_seeds user metadata ids (clock 0) d d' fs fs' db)
