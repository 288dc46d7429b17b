-- ===== src/Libraries/Seeds/Migration.antt =====
-- `migrateSharedMembership` of internal/server/libraries.go: automatic seeds that are untouched leave the
-- member's own library.
use quire_server.Base.{
  ℕ, ◌+◌, Bool, false, not, ◌&&◌, Option, none, some, List, [], ◌∷◌, Text, codes, any, ◌==◌,
  text_eq, nat_eq, pair_eq, if◌then◌else◌, Table, upsert, Result, ok, err, panics, ◌>>=◌,
}
use quire_server.Folders.{Members}
use quire_server.Sync.Wire.{Candidate, Record, Codec}
use quire_server.Sync.Validate.{book, has}
use quire_server.Sync.Apply.{Db, RecordKey, RecordRow, key_eq}
use quire_server.Admin.{Directory}
use quire_server.Libraries.{FileRow}
use quire_server.Libraries.Access.{is_shared}
use quire_server.Libraries.Volumes.{VolumeSyntax}
use quire_server.Libraries.Seeds.{SeedCodec, note_change, row_candidate}

-- A record whose automatic seed is to leave the member's own library: the revision it has, and the
-- candidate that it gets.
pub record Pending : Type 0 where
  pub book_id : Text
  pub revision : ℕ
  pub candidate : Candidate

module _ (c : Codec) (y : VolumeSyntax) (j : SeedCodec) where
  abbrev pub moved_out : Candidate → Option Members → Result (Option Candidate)
  moved_out old none = err panics
  moved_out old (some m) =
      if has (codes "inLibrary") m
      then ok none
      else ok (
          some
            (record old { value = c.json.object (upsert (codes "inLibrary") (j.boolean false) m) }))

  abbrev pub reread : Candidate → Option (Option Members) → Result (Option Candidate)
  reread old none = ok none
  reread old (some m) = moved_out old m

  abbrev pub upgraded : Option Candidate → Result (Option Candidate)
  upgraded none = ok none
  upgraded (some old) = reread old (j.rewritten old.value)

  abbrev is_borrowed : Text → Directory → List FileRow → RecordKey → Bool
  is_borrowed user d fs key =
      key.user == user
      && key.kind == book
      && not (any (λ f. f.user_id == user && f.book_id == key.book_id) fs)
      && any
          (λ f. f.book_id == key.book_id && is_shared user f.user_id d.libraries d.library_members)
          fs

  abbrev kept_pending : RecordKey → RecordRow → Option Candidate → List Pending → List Pending
  kept_pending key row none ps = ps
  kept_pending key row (some candidate) ps =
      record { book_id = key.book_id; revision = row.revision; candidate = candidate } ∷ ps

  -- The loop over the borrowed books' records.
  unfoldable pub pending :
      Text → Directory → List FileRow → Table RecordKey RecordRow → Result (List Pending)
  pending user d fs [] = ok []
  pending user d fs ((key, row) ∷ t) =
      if not (is_borrowed user d fs key) then pending user d fs t else do
        candidate ← upgraded (row_candidate c y j row)
        ps ← pending user d fs t
        ok (kept_pending key row candidate ps)

  abbrev pub is_pending_row : Text → Pending → RecordKey → RecordRow → Bool
  is_pending_row user p key row =
      key.user == user && key.book_id == p.book_id && key.kind == book && row.revision == p.revision

  -- UPDATE records SET revision=?,candidates=? WHERE … AND revision=?
  unfoldable pub upgraded_rows :
      Text → Pending → Table RecordKey RecordRow → Table RecordKey RecordRow
  upgraded_rows user p [] = []
  upgraded_rows user p ((key, row) ∷ t) =
      (
        key,
        if is_pending_row user p key row
            then record { revision = p.revision + 1; candidates = c.candidates (p.candidate ∷ []) }
            else row,
      )
      ∷ upgraded_rows user p t

  abbrev pub pending_record : Pending → Record
  pending_record p = record {
    book_id = p.book_id;
    kind = book;
    record_id = codes "default";
    revision = p.revision + 1;
    candidates = p.candidate ∷ [];
  }

  -- One round of the transaction: an edited record, or one that has changed, is left alone.
  unfoldable pub upgrade : Text → Pending → Db → Result Db
  upgrade user p db =
      if any (λ row. row.0 == (user, p.candidate.operation_id)) db.operations
      then ok db
      else if not (any (λ row. is_pending_row user p row.0 row.1) db.records)
      then ok db
      else note_change user (c.encode (pending_record p))
          (record db { records = upgraded_rows user p db.records })

  unfoldable pub upgrade_all : Text → List Pending → Db → Result Db
  upgrade_all user [] db = ok db
  upgrade_all user (p ∷ ps) db = do db' ← upgrade user p db; upgrade_all user ps db'

  unfoldable pub migrate_shared_membership : Text → Directory → List FileRow → Db → Result Db
  migrate_shared_membership user d fs db = do
    ps ← pending user d fs db.records
    upgrade_all user ps db
