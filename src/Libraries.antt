-- ===== src/Libraries.antt =====
-- Shared libraries: the handlers of internal/server/libraries.go and internal/server/library_management.go
-- that change the tables, behind `admin`. A library's books belong to a disabled account, its owner.
pub mod Soundness
pub mod Updates
pub mod Standings
pub mod Steps
pub mod Reachable
pub mod Deletion
pub mod Access
pub mod Volumes
pub mod Seeds
pub mod Routes
pub mod Tests
use quire_server.Base.{
  ℕ, Bool, true, false, not, ◌&&◌, ◌||◌, Option, none, some, List, [], ◌∷◌, ◌++◌, Text, codes, len,
  any, keep, contains, ltb, ◌==◌, text_eq, nat_eq, pair_eq, if◌then◌else◌, trim_space, Table,
  insert, remove, Result, ok, err, invalid, no_rows, constraint, reject, demand, ◌>>=◌, ◌>>◌,
}
use quire_server.Auth.{User, insert_user}
use quire_server.Admin.{Invite, LibraryRow, Directory, is_owner, is_free, person}
use quire_server.Sync.Apply.{Db, RecordKey, RecordRow, key_eq}

abbrev pub bad_name : Text → Bool
bad_name name = name == codes "" || ltb 100 (len name)

-- The ids and the owners of the libraries are unique.
unfoldable pub insert_library : LibraryRow → List LibraryRow → Option (List LibraryRow)
insert_library l ls =
    if any (λ m. m.id == l.id || m.owner == l.owner) ls then none else some (ls ++ l ∷ [])

-- POST /v1/admin/libraries, with the ids of the library and of its owner.
unfoldable pub create_library : (name id owner : Text) → Directory → Result Directory
unfolding insert_user insert_library
create_library name id owner db = do
  reject (bad_name (trim_space name)) invalid
  let row : User = record {
    id = owner;
    username = codes "library." ++ id;
    salt = [];
    password_hash = [];
    admin = false;
    disabled = true;
  }
  users ← demand constraint (insert_user row db.accounts.users)
  cursors ← demand constraint (insert owner 0 db.accounts.cursors)
  libraries ←
      demand constraint
        (insert_library (record { id = id; name = trim_space name; owner = owner }) db.libraries)
  ok (record db {
    accounts = record (db.accounts) { users = users; cursors = cursors };
    libraries = libraries;
  })

abbrev pub is_library : Text → List LibraryRow → Bool
is_library id ls = any (λ l. l.id == id) ls

abbrev added : Text × Text → List (Text × Text) → List (Text × Text)
added row rows = if contains row rows then rows else rows ++ row ∷ []

abbrev pub add_person : (library user : Text) → Option User → Directory → Result Directory
add_person library user none db = ok db
add_person library user (some _) db = do
  reject (not (is_library library db.libraries)) invalid
  ok (record db { library_members = added (library, user) db.library_members })

-- PUT /v1/admin/libraries/{id}/members/{user}: nothing happens without such a person.
unfoldable pub add_member : (library user : Text) → Directory → Result Directory
add_member library user db = add_person library user (person user db) db

-- DELETE /v1/admin/libraries/{id}/members/{user}
unfoldable pub remove_member : (library user : Text) → Directory → Directory
remove_member library user db = record db {
  library_members = keep (λ m. not (m == (library, user))) db.library_members;
}

-- PUT /v1/admin/invites/{id}/libraries/{library}: nothing happens without such an open invite.
unfoldable pub grant_library : (invite library : Text) (now : ℕ) → Directory → Result Directory
grant_library invite library now db =
    if not (
      any (λ i. i.id == invite && is_free i.redeemed_by && not i.revoked && ltb now i.expires_at)
        db.invites)
    then ok db
    else do
      reject (not (is_library library db.libraries)) invalid
      ok (record db { invite_libraries = added (invite, library) db.invite_libraries })

unfoldable pub renamed : Text → Text → List LibraryRow → List LibraryRow
renamed id name [] = []
renamed id name (l ∷ ls) = (if l.id == id then record l { name = name } else l) ∷ renamed id name ls

-- PATCH /v1/admin/libraries/{id}
unfoldable pub rename_library : (id name : Text) → Directory → Result Directory
unfolding renamed
rename_library id name db = do
  reject (bad_name (trim_space name)) invalid
  reject (not (is_library id db.libraries)) no_rows
  ok (record db { libraries = renamed id (trim_space name) db.libraries })

-- A row of `files`, of `watch_roots`.
pub record FileRow : Type 0 where
  pub user_id : Text
  pub book_id : Text
  pub kind : Text
  pub source : Text
  pub size : ℕ

pub record WatchRow : Type 0 where
  pub id : Text
  pub user_id : Text
  pub root : Text
  pub identity : Text

-- What `scan_status` keeps for a watched folder.
pub record ScanStatus : Type 0 where
  pub last_at : ℕ
  pub error : Text
  pub imported : ℕ
  pub existing : ℕ
  pub skipped : ℕ
  pub skipped_files : Text
  pub omitted_skipped_files : ℕ

-- The tables that a library's owner has rows in; `cursors` stands with the accounts.
pub record Holdings : Type 0 where
  pub directory : Directory
  pub records : Table RecordKey RecordRow
  pub changes : Table (Text × ℕ) Text
  pub operations : Table (Text × Text) (Text × Text)
  pub files : List FileRow
  pub watch_roots : List WatchRow
  pub scan_status : Table Text ScanStatus

-- The tables of the sync engine.
abbrev pub sync_tables : Holdings → Db
sync_tables h = record {
  cursors = h.directory.accounts.cursors;
  records = h.records;
  changes = h.changes;
  operations = h.operations;
}

-- SELECT owner FROM libraries WHERE id=?
unfoldable pub owner_of : Text → List LibraryRow → Option Text
owner_of id [] = none
owner_of id (l ∷ ls) = if l.id == id then some l.owner else owner_of id ls

-- The directory without a library and its owner.
unfoldable pub without_library : (id owner : Text) → Directory → Directory
without_library id owner db = record db {
  accounts = record (db.accounts) {
    users = keep (λ u. not (u.id == owner)) db.accounts.users;
    sessions = keep (λ s. not (s.user_id == owner)) db.accounts.sessions;
    cursors = remove (λ row. row.0 == owner) db.accounts.cursors;
  };
  libraries = keep (λ l. not (l.id == id)) db.libraries;
  library_members = keep (λ m. not (m.0 == id)) db.library_members;
  invite_libraries = keep (λ g. not (g.1 == id)) db.invite_libraries;
}

abbrev pub redeemer_is : Text → Option Text → Bool
redeemer_is user none = false
redeemer_is user (some v) = v == user

-- A row that is left and names the user forbids its deletion.
unfoldable pub is_referenced : Text → Directory → Bool
is_referenced user db =
    any (λ i. redeemer_is user i.redeemed_by) db.invites
    || any (λ m. m.1 == user) db.library_members
    || is_owner user db.libraries

-- `deleteLibrary`, up to the removal of the managed files after its commit.
unfoldable pub delete_library : Text → Holdings → Result Holdings
unfolding owner_of without_library is_referenced
delete_library id h = do
  owner ← demand no_rows (owner_of id h.directory.libraries)
  let directory : Directory = without_library id owner h.directory
  reject (is_referenced owner directory) constraint
  ok (record {
    directory = directory;
    records = remove (λ row. row.0.user == owner) h.records;
    changes = remove (λ row. row.0.0 == owner) h.changes;
    operations = remove (λ row. row.0.0 == owner) h.operations;
    files = keep (λ f. not (f.user_id == owner)) h.files;
    watch_roots = keep (λ w. not (w.user_id == owner)) h.watch_roots;
    scan_status =
        remove (λ row. any (λ w. w.id == row.0 && w.user_id == owner) h.watch_roots) h.scan_status;
  })

-- The object files that a deletion then removes: SELECT DISTINCT book_id FROM files WHERE user_id=?
unfoldable pub distinct_books : List Text → Text → List FileRow → List Text
distinct_books seen owner [] = []
distinct_books seen owner (f ∷ fs) =
    if f.user_id == owner && not (contains f.book_id seen)
    then f.book_id ∷ distinct_books (f.book_id ∷ seen) owner fs
    else distinct_books seen owner fs
