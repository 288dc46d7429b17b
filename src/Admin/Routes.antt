-- ===== src/Admin/Routes.antt =====
-- The handlers of internal/server/admin.go: the directory behind each, and the status of its answer.
-- `who` is what `authorized` or `admin` gave.
use quire_server.Base.{
  ℕ, nat_eq, Bool, not, ◌&&◌, ◌||◌, Option, none, some, List, [], ◌∷◌, Text, codes, leb, keep, ◌==◌,
  text_eq, if◌then◌else◌, text_leb, Result, ok, err,
}
use quire_server.Auth.{User, Crypto}
use quire_server.Http.{
  Request, Reply, denied, granted, failure_status, decode, Attempts, allow_login,
}
use quire_server.Http.Browser.{seconds}
use quire_server.Admin.{
  Directory, UserInfo, Standing, info_of, user_info, needs_setup, is_owner, register,
  change_password, set_standing, end_sessions,
}
use quire_server.Admin.Invites.{create_invite, revoke_invite}

-- The input of POST /v1/setup and /v1/register, and of PUT /v1/me/password.
pub record Registration : Type 0 where
  pub username : Text
  pub password : Text
  pub code : Text

pub record NewPassword : Type 0 where
  pub current : Text
  pub password : Text

pub record Desk : Type 0 where
  pub attempts : Attempts
  pub directory : Directory

abbrev pub answered : ℕ → Desk → Result Directory → Desk × ℕ
answered status s (err e) = (s, failure_status e)
answered status s (ok db) = (record s { directory = db }, status)

-- The routes behind `admin`.
abbrev pub behind : Reply Text → ℕ → Directory → Result Directory → Directory × ℕ
behind (denied s) status db run = (db, s)
behind (granted _) status db (err e) = (db, failure_status e)
behind (granted _) status db (ok db') = (db', status)

-- PUT /v1/admin/users/{id}
unfoldable pub put_user : Reply Text → Reply Standing → Text → Directory → Directory × ℕ
put_user (denied status) input id db = (db, status)
put_user (granted _) (denied status) id db = (db, status)
put_user (granted caller) (granted v) id db = behind (granted caller) 204 db (set_standing id v db)

-- DELETE /v1/admin/users/{id}/sessions
unfoldable pub delete_sessions : Reply Text → Text → Directory → Directory × ℕ
delete_sessions who id db = behind who 204 db (ok (end_sessions id db))

-- POST /v1/admin/invites
unfoldable pub post_invite : Reply Text → (id hash : Text) (now : ℕ) → Directory → Directory × ℕ
post_invite who id hash now db = behind who 201 db (create_invite id hash now db)

-- DELETE /v1/admin/invites/{id}
unfoldable pub delete_invite : Reply Text → Text → Directory → Directory × ℕ
delete_invite who id db = behind who 204 db (ok (revoke_invite id db))

abbrev place_user : UserInfo → List UserInfo → List UserInfo
place_user u [] = u ∷ []
place_user u (v ∷ vs) = if text_leb u.username v.username then u ∷ v ∷ vs else v ∷ place_user u vs

abbrev by_username : List User → List UserInfo
by_username [] = []
by_username (u ∷ us) = place_user (info_of u) (by_username us)

-- GET /v1/setup, and GET /v1/me with what `authorized` gave.
unfoldable pub get_setup : Directory → Bool
get_setup db = needs_setup db.accounts.users

abbrev found_info : Option UserInfo → Reply UserInfo
found_info none = denied 404
found_info (some u) = granted u

unfoldable pub get_me : Reply Text → Directory → Reply UserInfo
get_me (denied status) db = denied status
get_me (granted id) db = found_info (user_info id db.accounts.users)

-- GET /v1/admin/users
unfoldable pub list_users : Reply Text → Directory → Reply (List UserInfo)
list_users (denied status) db = denied status
list_users (granted _) db =
    granted (by_username (keep (λ u. not (is_owner u.id db.libraries)) db.accounts.users))

module _ (c : Crypto) (split_host : Text → Option Text) where
  unfoldable pub change_answer : (id salt : Text) → Reply NewPassword → Desk → Desk × ℕ
  change_answer id salt (denied status) s = (s, status)
  change_answer id salt (granted v) s =
      answered 204 s (change_password c id v.current v.password salt s.directory)

  -- PUT /v1/me/password, with the number of logins in progress.
  unfoldable pub put_password :
      (Text → Option (NewPassword × Bool))
      → Reply Text
      → (busy : ℕ) (salt : Text) → Request
      → ℕ
      → Desk
      → Desk × ℕ
  put_password read (denied status) busy salt r now s = (s, status)
  put_password read (granted id) busy salt r now s =
      let tried = allow_login split_host r.remote now s.attempts in
      let counted : Desk = record s { attempts = tried.0 } in
      if not tried.1
      then (counted, 429)
      else if leb 2 busy
      then (counted, 429)
      else change_answer id salt (decode read r 4096) counted

  -- The code of the server's owner, which the setup asks for.
  abbrev pub wrong_code : (setup_code code : Text) → Bool
  wrong_code setup_code code = setup_code == codes "" || not (code == setup_code)

  unfoldable pub register_answer :
      (setup_code : Text) (setup : Bool) (salt id : Text) (now : ℕ)
      → Reply Registration
      → Desk
      → Desk × ℕ
  register_answer setup_code setup salt id now (denied status) s = (s, status)
  register_answer setup_code setup salt id now (granted v) s =
      if setup && wrong_code setup_code v.code
      then (s, 401)
      else answered 201 s
          (register c v.username v.password v.code setup salt id (seconds now) s.directory)

  -- POST /v1/setup and POST /v1/register
  unfoldable pub post_register :
      (Text → Option (Registration × Bool))
      → (setup_code : Text) (setup : Bool) (busy : ℕ) (salt id : Text) → Request
      → ℕ
      → Desk
      → Desk × ℕ
  post_register read setup_code setup busy salt id r now s =
      let tried = allow_login split_host r.remote now s.attempts in
      let counted : Desk = record s { attempts = tried.0 } in
      if not tried.1
      then (counted, 429)
      else if leb 2 busy
      then (counted, 429)
      else register_answer setup_code setup salt id now (decode read r 4096) counted
