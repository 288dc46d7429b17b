-- ===== src/Admin.antt =====
-- Accounts by invitation and their administration, internal/server/admin.go. The tables of the accounts
-- and the libraries stand in one `Directory`; ids, codes and salts that are drawn are arguments.
pub mod Invites
pub mod Registration
pub mod Endings
pub mod Routes
pub mod Answers
mod Tests
use mathlib.Core.Option
use quire_server.Base.{
  ℕ, ◌+◌, Bool, true, false, not, ◌&&◌, ◌||◌, Option, none, some, List, [], ◌∷◌, ◌++◌, Text, codes,
  len, length, all, any, keep, map, contains, take, ltb, leb, ◌==◌, text_eq, nat_eq, pair_eq,
  if◌then◌else◌, insert, text_leb, Result, ok, err, invalid, unauthorized, conflict, no_rows,
  constraint, reject, demand, ◌>>=◌, ◌>>◌,
}
use quire_server.Auth.{User, Accounts, Crypto, username_pattern, password_valid, insert_user}
use quire_server.Http.{Request, Reply, denied, granted, failure_status}
use quire_server.Http.Browser.{authorized}

pub record UserInfo : Type 0 where
  pub id : Text
  pub username : Text
  pub admin : Bool
  pub disabled : Bool

-- A row of `invites`, of `libraries`.
pub record Invite : Type 0 where
  pub id : Text
  pub code_hash : Text
  pub expires_at : ℕ
  pub redeemed_by : Option Text
  pub revoked : Bool

pub record LibraryRow : Type 0 where
  pub id : Text
  pub name : Text
  pub owner : Text

-- A row of `library_members` is a library and a user, one of `invite_libraries` an invite and a library.
pub record Directory : Type 0 where
  pub accounts : Accounts
  pub invites : List Invite
  pub libraries : List LibraryRow
  pub library_members : List (Text × Text)
  pub invite_libraries : List (Text × Text)

abbrev pub info_of : User → UserInfo
info_of u = record { id = u.id; username = u.username; admin = u.admin; disabled = u.disabled }

-- SELECT … FROM users WHERE id=?
unfoldable pub user_row : Text → List User → Option User
user_row id [] = none
user_row id (u ∷ us) = if u.id == id then some u else user_row id us

unfoldable pub user_info : Text → List User → Option UserInfo
user_info id us = Option.map info_of (user_row id us)

unfoldable pub needs_setup : List User → Bool
needs_setup us = not (any (λ u. u.admin) us)

-- id IN (SELECT owner FROM libraries)
abbrev pub is_owner : Text → List LibraryRow → Bool
is_owner id ls = any (λ l. l.owner == id) ls

abbrev pub admitted : Text → Option UserInfo → Reply Text
admitted id none = denied 404
admitted id (some u) = if u.admin then granted id else denied 403

-- The check of the middleware `admin` behind `authorized`.
unfoldable pub admin_of : Reply Text → List User → Reply Text
admin_of (denied status) us = denied status
admin_of (granted id) us = admitted id (user_info id us)

-- The middleware `admin`.
unfoldable pub admin : Crypto → Text → Request → ℕ → Accounts → Reply Text
admin c origin r now accounts = admin_of (authorized c origin r now accounts) accounts.users

-- WHERE code_hash=? AND expires_at>? AND redeemed_by IS NULL AND revoked=0
abbrev pub is_free : Option Text → Bool
is_free none = true
is_free (some _) = false

abbrev pub is_open : Text → ℕ → Invite → Bool
is_open hash now i =
    i.code_hash == hash && ltb now i.expires_at && is_free i.redeemed_by && not i.revoked

-- UPDATE invites SET redeemed_by=? …
abbrev pub redeemed : Text → Text → ℕ → List Invite → List Invite
redeemed user hash now [] = []
redeemed user hash now (i ∷ is) =
    (if is_open hash now i then record i { redeemed_by = some user } else i)
    ∷ redeemed user hash now is

-- SELECT id FROM invites WHERE code_hash=?
abbrev pub invite_id : Text → List Invite → Option Text
invite_id hash [] = none
invite_id hash (i ∷ is) = if i.code_hash == hash then some i.id else invite_id hash is

-- INSERT INTO library_members SELECT library_id,? FROM invite_libraries WHERE invite_id=?
unfoldable pub join_libraries :
    Text → Text → List (Text × Text) → List (Text × Text) → Option (List (Text × Text))
join_libraries user invite [] members = some members
join_libraries user invite ((i, library) ∷ grants) members =
    if not (i == invite)
    then join_libraries user invite grants members
    else if contains (library, user) members
    then none
    else join_libraries user invite grants (members ++ (library, user) ∷ [])

abbrev pub joined_members : Text → Option Text → Directory → Result (List (Text × Text))
joined_members user none db = ok db.library_members
joined_members user (some invite) db =
    demand constraint (join_libraries user invite db.invite_libraries db.library_members)

-- The part of `register` that redeems an invite for a new user.
unfoldable pub redeem : Text → Text → ℕ → Directory → Result Directory
redeem user hash now db = do
  reject (not (length (keep (is_open hash now) db.invites) == 1)) invalid
  members ← joined_members user (invite_id hash db.invites) db
  ok (record db { invites = redeemed user hash now db.invites; library_members = members })

module _ (c : Crypto) where
  unfoldable pub register :
      (username password code : Text) (setup : Bool) (salt id : Text) (now : ℕ)
      → Directory
      → Result Directory
  unfolding username_pattern password_valid needs_setup insert_user
  register username password code setup salt id now db = do
    reject (not (username_pattern username) || not (password_valid password)) invalid
    reject (setup && not (needs_setup db.accounts.users)) conflict
    let row : User = record {
      id = id;
      username = username;
      salt = salt;
      password_hash = c.password_key password salt;
      admin = setup;
      disabled = false;
    }
    users ← demand conflict (insert_user row db.accounts.users)
    db' ← if setup then ok db else redeem id (c.sha256 code) now db
    cursors ← demand constraint (insert id 0 db.accounts.cursors)
    ok (record db' { accounts = record (db.accounts) { users = users; cursors = cursors } })

-- UPDATE users SET … WHERE id=?, DELETE FROM sessions WHERE user_id=?
abbrev pub update_user : Text → (User → User) → List User → List User
update_user id f [] = []
update_user id f (u ∷ us) = (if u.id == id then f u else u) ∷ update_user id f us

unfoldable pub end_sessions : Text → Directory → Directory
end_sessions id db = record db {
  accounts = record (db.accounts) {
    sessions = keep (λ s. not (s.user_id == id)) db.accounts.sessions;
  };
}

abbrev pub with_users : List User → Directory → Directory
with_users us db = record db { accounts = record (db.accounts) { users = us } }

-- WHERE id=? AND id NOT IN (SELECT owner FROM libraries)
unfoldable pub person : Text → Directory → Option User
unfolding user_row
person id db = if is_owner id db.libraries then none else user_row id db.accounts.users

-- SELECT count(*) FROM users WHERE admin=1 AND disabled=0 AND id<>?
abbrev pub is_active : User → Bool
is_active u = u.admin && not u.disabled

abbrev pub others : Text → List User → ℕ
others id us = length (keep (λ u. is_active u && not (u.id == id)) us)

-- The input of PUT /v1/admin/users/{id}, and the transaction behind it.
pub record Standing : Type 0 where
  pub admin : Bool
  pub disabled : Bool

unfoldable pub set_standing : Text → Standing → Directory → Result Directory
unfolding end_sessions person
set_standing id v db = do
  u ← demand no_rows (person id db)
  reject (u.admin && (not v.admin || v.disabled) && others id db.accounts.users == 0) conflict
  ok (
      end_sessions id (
        with_users
          (update_user id (λ u. record u { admin = v.admin; disabled = v.disabled })
            db.accounts.users)
          db))

-- `Promote`: exactly one row is updated, as usernames are unique.
abbrev pub promotable : Text → Directory → User → Bool
promotable username db u = u.username == username && not (is_owner u.id db.libraries)

abbrev pub promoted : Text → Directory → List User → List User
promoted username db [] = []
promoted username db (u ∷ us) =
    (if promotable username db u then record u { admin = true; disabled = false } else u)
    ∷ promoted username db us

unfoldable pub promote : Text → Directory → Result Directory
promote username db = do
  reject (not (length (keep (promotable username db) db.accounts.users) == 1)) no_rows
  ok (with_users (promoted username db db.accounts.users) db)

-- SELECT salt,password_hash FROM users WHERE id=? AND disabled=0
abbrev pub enabled_row : Text → List User → Option User
enabled_row id [] = none
enabled_row id (u ∷ us) = if u.id == id && not u.disabled then some u else enabled_row id us

-- The transaction of PUT /v1/me/password.
unfoldable pub change_password :
    Crypto → Text → (old new salt : Text) → Directory → Result Directory
unfolding password_valid end_sessions
change_password c id old new salt db = do
  reject (not (password_valid new) || ltb 1024 (len old)) invalid
  u ← demand no_rows (enabled_row id db.accounts.users)
  reject (not (c.password_key old u.salt == u.password_hash)) unauthorized
  ok (
      end_sessions id (
        with_users
          (update_user id (λ u. record u { salt = salt; password_hash = c.password_key new salt })
            db.accounts.users)
          db))
