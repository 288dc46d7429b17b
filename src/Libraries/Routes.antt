-- ===== src/Libraries/Routes.antt =====
-- The handlers of internal/server/libraries.go and internal/server/library_management.go: what stands
-- behind each, and the status of its answer. `who` is what `admin` gave.
use quire_server.Base.{
  ℕ, false, Option, none, some, List, [], ◌∷◌, Text, codes, map, keep, pos, ◌==◌, text_eq, nat_eq,
  find, remove, Result, ok, err,
}
use quire_server.Folders.{Members}
use quire_server.Http.{Reply, denied, granted, failure_status}
use quire_server.MetadataCache.{BookMetadata}
use quire_server.Sync.Wire.{Operation, Codec, SyncResponse, IsLawful}
use quire_server.Sync.Validate.{book, validate_operation}
use quire_server.Sync.Apply.{Db, RecordRow, key_eq}
use quire_server.Sync.Apply.Page.{IsConsistent}
use quire_server.Admin.{Directory}
use quire_server.Admin.Routes.{behind}
use quire_server.Libraries.{
  FileRow, Holdings, create_library, add_member, remove_member, grant_library, rename_library,
  delete_library, owner_of,
}
use quire_server.Libraries.Access.{accessible_owner}
use quire_server.Libraries.Volumes.{VolumeSyntax}
use quire_server.Libraries.Seeds.{SeedCodec, book_key}
use quire_server.Libraries.Seeds.Whole.{full_sync}
use quire_server.Libraries.Seeds.Shared.{full_sync-IsConsistent}

-- The routes that read a name behind `admin`.
abbrev named : Reply Text → Reply Text → ℕ → Directory → (Text → Result Directory) → Directory × ℕ
named (denied status) input done db run = (db, status)
named (granted _) (denied status) done db run = (db, status)
named (granted caller) (granted name) done db run = behind (granted caller) done db (run name)

-- POST /v1/admin/libraries
unfoldable pub post_library :
    Reply Text → Reply Text → (id owner : Text) → Directory → Directory × ℕ
post_library who input id owner db =
    named who input 201 db (λ name. create_library name id owner db)

-- PATCH /v1/admin/libraries/{id}
unfoldable pub patch_library : Reply Text → Reply Text → Text → Directory → Directory × ℕ
patch_library who input id db = named who input 204 db (λ name. rename_library id name db)

-- PUT and DELETE /v1/admin/libraries/{id}/members/{user}
unfoldable pub put_member : Reply Text → (library user : Text) → Directory → Directory × ℕ
put_member who library user db = behind who 204 db (add_member library user db)

unfoldable pub delete_member : Reply Text → (library user : Text) → Directory → Directory × ℕ
delete_member who library user db = behind who 204 db (ok (remove_member library user db))

-- PUT /v1/admin/invites/{id}/libraries/{library}
unfoldable pub put_grant : Reply Text → (invite library : Text) → ℕ → Directory → Directory × ℕ
put_grant who invite library now db = behind who 204 db (grant_library invite library now db)

abbrev held : Holdings → Result Holdings → Holdings × ℕ
held h (err e) = (h, failure_status e)
held h (ok h') = (h', 204)

-- DELETE /v1/admin/libraries/{id}
unfoldable pub delete_library_route : Reply Text → Text → Holdings → Holdings × ℕ
delete_library_route (denied status) id h = (h, status)
delete_library_route (granted _) id h = held h (delete_library id h)

module _ (c : Codec) (y : VolumeSyntax) (j : SeedCodec) (metadata : Text × Text → BookMetadata)
    (ids : Text × Text → Text) (d : Directory) (fs : List FileRow) (clock : ℕ → ℕ) where
  abbrev row_revision : Option RecordRow → ℕ
  row_revision none = 0
  row_revision (some row) = row.revision

  -- The revision that an edit builds on, 0 where there is no record.
  abbrev pub current_revision : (user book_id : Text) → Db → ℕ
  current_revision user book_id db = row_revision (find (book_key user book_id) db.records)

  -- A call of `Store.Sync` with one operation, on the revision that is there.
  abbrev sync_one : Text → Operation → Db → Db × Result SyncResponse
  sync_one user op db =
      let based : Operation = record op {
        base_revision = pos (current_revision user op.book_id db);
      } in
      full_sync c y j user metadata ids d d fs fs clock
        (record { cursor = pos 0; operations = based ∷ [] }) db

  -- The value that members get: whether the book is in a library stays their own.
  abbrev without_library_member : Option Members → Text
  without_library_member none = codes "null"
  without_library_member (some m) = c.json.object (remove (λ row. row.0 == codes "inLibrary") m)

  abbrev member_operation : (Text → Text) → Operation → Text → Operation
  member_operation new_id op member = record op {
    id = new_id member;
    value = without_library_member (c.json.members op.value);
  }

  abbrev edit_after : (Db → Db × ℕ) → Db × Result SyncResponse → Db × ℕ
  edit_after again (db, err e) = (db, failure_status e)
  edit_after again (db, ok _) = again db

  -- The loop over the members ends at the first whose request fails.
  unfoldable pub edit_members : (Text → Text) → Operation → List Text → Db → Db × ℕ
  edit_members new_id op [] db = (db, 204)
  edit_members new_id op (member ∷ members) db =
      edit_after (λ db'. edit_members new_id op members db')
        (sync_one member (member_operation new_id op member) db)

  abbrev edit_found : (Text → Text) → Operation → List Text → Text → Option Text → Db → Db × ℕ
  edit_found new_id op members owner none db = (db, 404)
  edit_found new_id op members owner (some _) db =
      edit_after (λ db'. edit_members new_id op members db') (sync_one owner op db)

  abbrev edit_library : (Text → Text) → Operation → List Text → Option Text → Db → Db × ℕ
  edit_library new_id op members none db = (db, 404)
  edit_library new_id op members (some owner) db =
      edit_found new_id op members owner (accessible_owner owner op.book_id d fs) db

  abbrev edit_checked : (Text → Text) → Operation → Text → Result (Unit {0}) → Db → Db × ℕ
  edit_checked new_id op library (err e) db = (db, failure_status e)
  edit_checked new_id op library (ok _) db =
      edit_library new_id op (map (λ m. m.1) (keep (λ m. m.0 == library) d.library_members))
        (owner_of library d.libraries) db

  -- PUT /v1/admin/libraries/{library}/books/{id}/metadata: the owner's record, then each member's.
  unfoldable pub put_metadata :
      Reply Text → Reply Text → (library book_id op_id : Text) (new_id : Text → Text) → Db → Db × ℕ
  put_metadata (denied status) input library book_id op_id new_id db = (db, status)
  put_metadata (granted _) (denied status) library book_id op_id new_id db = (db, status)
  put_metadata (granted _) (granted value) library book_id op_id new_id db =
      let op : Operation = record {
        id = op_id;
        book_id = book_id;
        kind = book;
        record_id = codes "default";
        base_revision = pos 0;
        deleted = false;
        value = value;
      } in
      edit_checked new_id op library (validate_operation c op) db

  module _ (lawful : IsLawful c) where
    edit_after-IsConsistent :
        (again : Db → Db × ℕ) (out : Db × Result SyncResponse)
        → ((db : Db) → IsConsistent db → IsConsistent (again db).0)
        → IsConsistent out.0
        → IsConsistent (edit_after again out).0
    edit_after-IsConsistent again (db, err e) step h = h
    edit_after-IsConsistent again (db, ok _) step h = step db h

    sync_one-IsConsistent :
        (user : Text) (op : Operation) (db : Db)
        → IsConsistent db
        → IsConsistent (sync_one user op db).0
    sync_one-IsConsistent user op db h =
        full_sync-IsConsistent c y j user metadata ids d d fs fs clock _ db lawful h

    edit_members-IsConsistent :
        (new_id : Text → Text) (op : Operation) (members : List Text) (db : Db)
        → IsConsistent db
        → IsConsistent (edit_members new_id op members db).0
    unfolding edit_members
    edit_members-IsConsistent new_id op [] db h = h
    edit_members-IsConsistent new_id op (member ∷ members) db h =
        edit_after-IsConsistent (λ db'. edit_members new_id op members db')
          (sync_one member (member_operation new_id op member) db)
          (λ db' h'. edit_members-IsConsistent new_id op members db' h')
          (sync_one-IsConsistent member (member_operation new_id op member) db h)

    edit_found-IsConsistent :
        (new_id : Text → Text) (op : Operation) (members : List Text) (owner : Text)
        (o : Option Text) (db : Db)
        → IsConsistent db
        → IsConsistent (edit_found new_id op members owner o db).0
    edit_found-IsConsistent new_id op members owner none db h = h
    edit_found-IsConsistent new_id op members owner (some _) db h =
        edit_after-IsConsistent (λ db'. edit_members new_id op members db') (sync_one owner op db)
          (λ db' h'. edit_members-IsConsistent new_id op members db' h')
          (sync_one-IsConsistent owner op db h)

    edit_library-IsConsistent :
        (new_id : Text → Text) (op : Operation) (members : List Text) (o : Option Text) (db : Db)
        → IsConsistent db
        → IsConsistent (edit_library new_id op members o db).0
    edit_library-IsConsistent new_id op members none db h = h
    edit_library-IsConsistent new_id op members (some owner) db h =
        edit_found-IsConsistent new_id op members owner (accessible_owner owner op.book_id d fs) db
          h

    edit_checked-IsConsistent :
        (new_id : Text → Text) (op : Operation) (library : Text) (checked : Result (Unit {0}))
        (db : Db)
        → IsConsistent db
        → IsConsistent (edit_checked new_id op library checked db).0
    edit_checked-IsConsistent new_id op library (err e) db h = h
    edit_checked-IsConsistent new_id op library (ok _) db h =
        edit_library-IsConsistent new_id op _ (owner_of library d.libraries) db h

    -- An administrator's edit of a shared book runs through the owner and every member, and wherever it
    -- fails on the way, consistent tables stay consistent.
    pub put_metadata-IsConsistent :
        (who input : Reply Text) (library book_id op_id : Text) (new_id : Text → Text) (db : Db)
        → IsConsistent db
        → IsConsistent (put_metadata who input library book_id op_id new_id db).0
    unfolding put_metadata
    put_metadata-IsConsistent (denied status) input library book_id op_id new_id db h = h
    put_metadata-IsConsistent (granted _) (denied status) library book_id op_id new_id db h = h
    put_metadata-IsConsistent (granted _) (granted value) library book_id op_id new_id db h =
        edit_checked-IsConsistent new_id _ library _ db h
