-- ===== src/Auth.antt =====
-- Accounts and device sessions, internal/server/auth.go. The random ids and salts that a call draws,
-- and the time, are its arguments; argon2 and sha256 are the fields of `Crypto`.
pub mod Rows
pub mod Sessions
pub mod Passwords
mod Tests
use quire_server.Base.{
  ℕ, ◌+◌, Bool, true, false, not, ◌&&◌, ◌||◌, Option, none, some, List, [], ◌∷◌, ◌++◌, Text, codes,
  len, length, all, any, keep, ltb, leb, ◌==◌, text_eq, nat_eq, if◌then◌else◌, trim_space, is_lower,
  is_digit, text_leb, Table, insert, Result, ok, err, invalid, unauthorized, conflict, no_rows,
  constraint, reject, demand, ◌>>=◌, ◌>>◌,
}

-- A row of `users`, of `sessions`.
pub record User : Type 0 where
  pub id : Text
  pub username : Text
  pub salt : Text
  pub password_hash : Text
  pub admin : Bool
  pub disabled : Bool

pub record SessionRow : Type 0 where
  pub id : Text
  pub user_id : Text
  pub token_hash : Text
  pub device_name : Text
  pub created_at : ℕ
  pub expires_at : ℕ

pub record Session : Type 0 where
  pub id : Text
  pub device_name : Text
  pub created_at : ℕ
  pub expires_at : ℕ

pub record LoginResult : Type 0 where
  pub token : Text
  pub session : Session

pub record Accounts : Type 0 where
  pub users : List User
  pub sessions : List SessionRow
  pub cursors : Table Text ℕ

pub record Crypto : Type 0 where
  pub password_key : Text → Text → Text
  pub sha256 : Text → Text

abbrev name_start : ℕ → Bool
name_start c = is_lower c || is_digit c

abbrev name_char : ℕ → Bool
name_char c = name_start c || c == b'.' || c == b'_' || c == b'-'

-- ^[a-z0-9][a-z0-9._-]{0,63}$
unfoldable pub username_pattern : Text → Bool
username_pattern [] = false
username_pattern (c ∷ s) = name_start c && all name_char s && not (ltb 63 (length s))

unfoldable pub password_valid : Text → Bool
password_valid password = leb 12 (len password) && leb (len password) 1024

-- SELECT … FROM users WHERE username=? AND disabled=0
unfoldable pub enabled_user : Text → List User → Option User
enabled_user name [] = none
enabled_user name (u ∷ us) =
    if u.username == name && not u.disabled then some u else enabled_user name us

-- The rows that a password reset changes.
unfoldable pub with_password : Text → Text → Text → List User → List User
with_password name salt key [] = []
with_password name salt key (u ∷ us) =
    (if u.username == name then record u { salt = salt; password_hash = key } else u)
    ∷ with_password name salt key us

-- (SELECT id FROM users WHERE username=?)
unfoldable pub id_of : Text → List User → Option Text
id_of name [] = none
id_of name (u ∷ us) = if u.username == name then some u.id else id_of name us

-- The ids and names of the users are unique.
unfoldable pub insert_user : User → List User → Option (List User)
insert_user u us =
    if any (λ v. v.id == u.id || v.username == u.username) us then none else some (us ++ u ∷ [])

-- The ids and token hashes of the sessions are unique.
unfoldable pub insert_session : SessionRow → List SessionRow → Option (List SessionRow)
insert_session s ss =
    if any (λ t. t.id == s.id || t.token_hash == s.token_hash) ss then none else some (ss ++ s ∷ [])

-- SELECT count(*) FROM sessions WHERE user_id=?
abbrev pub count_of : Text → List SessionRow → ℕ
count_of user ss = length (keep (λ s. s.user_id == user) ss)

-- DELETE FROM sessions WHERE expires_at<=?
abbrev pub unexpired : ℕ → List SessionRow → List SessionRow
unexpired now ss = keep (λ s. not (leb s.expires_at now)) ss

-- The session with a token hash whose user, by the join, is not disabled.
unfoldable pub session_user : Text → ℕ → List User → List SessionRow → Option Text
session_user hash now us [] = none
session_user hash now us (s ∷ ss) =
    if s.token_hash == hash
      && ltb now s.expires_at
      && any (λ u. u.id == s.user_id && not u.disabled) us
    then some s.user_id
    else session_user hash now us ss

-- 30 * 24 * time.Hour, in seconds
abbrev pub session_seconds : ℕ
session_seconds = 2592000

abbrev pub session_of : SessionRow → Session
session_of s = record {
  id = s.id;
  device_name = s.device_name;
  created_at = s.created_at;
  expires_at = s.expires_at;
}

abbrev before : Session → Session → Bool
before s t = ltb s.created_at t.created_at || s.created_at == t.created_at && text_leb s.id t.id

abbrev place_session : Session → List Session → List Session
place_session s [] = s ∷ []
place_session s (t ∷ ts) = if before s t then s ∷ t ∷ ts else t ∷ place_session s ts

-- ORDER BY created_at,id
abbrev pub order_sessions : List SessionRow → List Session
order_sessions [] = []
order_sessions (s ∷ ss) = place_session (session_of s) (order_sessions ss)

unfoldable pub sessions : Text → ℕ → Accounts → List Session
sessions user now db =
    order_sessions (keep (λ s. s.user_id == user && ltb now s.expires_at) db.sessions)

unfoldable pub revoke : Text → Text → Accounts → Result Accounts
revoke user id db =
    let hit : SessionRow → Bool = λ s. s.user_id == user && s.id == id in
    if any hit db.sessions
    then ok (record db { sessions = keep (λ s. not (hit s)) db.sessions })
    else err no_rows

module _ (c : Crypto) where
  unfoldable pub create_user : Text → Text → Text → Text → Accounts → Result Accounts
  unfolding username_pattern password_valid insert_user
  create_user username password salt id db = do
    reject (not (username_pattern username) || not (password_valid password)) invalid
    let row : User = record {
      id = id;
      username = username;
      salt = salt;
      password_hash = c.password_key password salt;
      admin = false;
      disabled = false;
    }
    users ← demand constraint (insert_user row db.users)
    cursors ← demand constraint (insert id 0 db.cursors)
    ok (record db { users = users; cursors = cursors })

  unfoldable pub reset_password : Text → Text → Text → Accounts → Result Accounts
  unfolding password_valid id_of with_password
  reset_password username password salt db = do
    reject (not (password_valid password)) invalid
    id ← demand no_rows (id_of username db.users)
    ok (record db {
      users = with_password username salt (c.password_key password salt) db.users;
      sessions = keep (λ s. not (s.user_id == id)) db.sessions;
    })

  -- The password of a user that is found is the only one that passes; a missing user never does.
  unfoldable pub verified : Text → Option User → Result Text
  verified password none = err unauthorized
  verified password (some u) = do
    reject (not (c.password_key password u.salt == u.password_hash)) unauthorized
    ok u.id

  unfoldable pub login :
      Text
      → Text
      → Text
      → (token : Text) (id : Text) (now : ℕ) → Accounts
      → Result (Accounts × LoginResult)
  unfolding verified enabled_user insert_session
  login username password device token id now db = do
    reject
        (ltb 1024 (len password)
          || ltb 64 (len username)
          || len (trim_space device) == 0
          || ltb 100 (len device))
        invalid
    user ← verified password (enabled_user username db.users)
    let row : SessionRow = record {
      id = id;
      user_id = user;
      token_hash = c.sha256 token;
      device_name = trim_space device;
      created_at = now;
      expires_at = now + session_seconds;
    }
    reject (leb 32 (count_of user (unexpired now db.sessions))) conflict
    rows ← demand constraint (insert_session row (unexpired now db.sessions))
    ok (record db { sessions = rows }, record { token = token; session = session_of row })

  unfoldable pub authenticate : Text → ℕ → Accounts → Result Text
  unfolding session_user
  authenticate token now db = do
    reject (not (len token == 64)) unauthorized
    demand unauthorized (session_user (c.sha256 token) now db.users db.sessions)
