-- ===== src/Http/Browser.antt =====
-- Who a request acts for: `authorized` of internal/server/http.go, and the cookie sessions of
-- internal/server/browser_session.go. `now` is in nanoseconds, the accounts count in seconds.
pub mod Access
pub mod Routes
use quire_server.Base.{
  ℕ, ◌-◌, ◌/◌, Bool, true, false, not, ◌&&◌, ◌||◌, Option, none, some, List, [], ◌∷◌, Text, codes,
  leb, ◌==◌, text_eq, nat_eq, if◌then◌else◌, has_prefix, trim_prefix, ℤ, pos, negsuc, Error,
  unauthorized, no_rows, Result, ok, err, demand, ◌>>=◌,
}
use quire_server.Auth.{
  User, SessionRow, Session, LoginResult, Accounts, Crypto, session_of, login, authenticate, revoke,
}
use quire_server.Http.{
  Request, Reply, denied, granted, reply_of, failure_status, decode, Attempts, allow_login,
}

-- The input of a login.
pub record Credentials : Type 0 where
  pub username : Text
  pub password : Text
  pub device_name : Text

-- The session cookie of a response; its path is /, and it is HttpOnly and SameSite=Strict.
pub record Cookie : Type 0 where
  pub name : Text
  pub value : Text
  pub secure : Bool
  pub max_age : ℤ
  pub expires : ℕ

pub record Answer : Type 0 where
  pub status : ℕ
  pub cookie : Option Cookie

pub record ServerState : Type 0 where
  pub attempts : Attempts
  pub accounts : Accounts

abbrev pub seconds : ℕ → ℕ
seconds now = now / 1000000000

abbrev pub difference : ℕ → ℕ → ℤ
difference a b = if leb b a then pos (a - b) else negsuc (b - a - 1)

abbrev pub is_https : Text → Bool
is_https origin = has_prefix origin (codes "https://")

unfoldable pub cookie_name : Text → Text
cookie_name origin = if is_https origin then codes "__Host-quire-session" else codes "quire-session"

unfoldable pub browser_cookie : Text → Text → ℕ → ℕ → Cookie
browser_cookie origin token expires now = record {
  name = cookie_name origin;
  value = token;
  secure = is_https origin;
  max_age = if token == codes "" then negsuc 0 else difference expires (seconds now);
  expires = expires;
}

unfoldable pub browser_origin : Text → Request → Bool
browser_origin origin r = not (origin == codes "" || not (r.origin == origin))

-- SELECT … FROM sessions WHERE token_hash=? AND user_id=?
unfoldable pub session_row : Text → Text → List SessionRow → Option Session
session_row hash user [] = none
session_row hash user (s ∷ ss) =
    if s.token_hash == hash && s.user_id == user
    then some (session_of s)
    else session_row hash user ss

-- SELECT username FROM users WHERE id=?
unfoldable pub username_of : Text → List User → Option Text
username_of id [] = none
username_of id (u ∷ us) = if u.id == id then some u.username else username_of id us

module _ (c : Crypto) (origin : Text) where
  unfoldable pub cookie_session : Request → ℕ → Accounts → Result (Text × Session)
  cookie_session r now db = do
    token ← demand unauthorized (r.cookie (cookie_name origin))
    user ← authenticate c token (seconds now) db
    session ← demand no_rows (session_row (c.sha256 token) user db.sessions)
    ok (user, session)

  -- The user of a request without the header Authorization.
  unfoldable pub cookie_user : Request → ℕ → Accounts → Reply Text
  cookie_user r now db = elim (r.cookie (cookie_name origin)) [
    | none ↦ denied 401
    | some token ↦
        if not (r.method == codes "GET")
          && not (r.method == codes "HEAD")
          && not (browser_origin origin r)
        then denied 403
        else (elim (cookie_session r now db) [
          | err e ↦ denied (failure_status e)
          | ok (user, session) ↦ if r.session == session.id then granted user else denied 401
        ])
  ]

  unfoldable pub authorized : Request → ℕ → Accounts → Reply Text
  authorized r now db =
      if r.authorization == codes ""
      then cookie_user r now db
      else if not (has_prefix r.authorization (codes "Bearer "))
      then denied 401
      else reply_of
          (authenticate c (trim_prefix r.authorization (codes "Bearer ")) (seconds now) db)

  -- The steps that both login routes share, with the number of logins in progress, the token and the id
  -- that are drawn, and a decoder of the input.
  unfoldable pub enter :
      (Text → Option Text)
      → (Text → Option (Credentials × Bool))
      → (busy : ℕ) (token : Text) (id : Text) → Request
      → ℕ
      → ServerState
      → ServerState × Reply LoginResult
  enter split_host read busy token id r now s =
      let tried = allow_login split_host r.remote now s.attempts in
      let counted : ServerState = record s { attempts = tried.0 } in
      if not tried.1
      then (counted, denied 429)
      else if leb 2 busy
      then (counted, denied 429)
      else (elim (decode read r 4096) [
        | denied status ↦ (counted, denied status)
        | granted input ↦
            elim (login c input.username input.password input.device_name token id (seconds now)
              s.accounts) [
                | err e ↦ (counted, denied (failure_status e))
                | ok (db, out) ↦ (record counted { accounts = db }, granted out)
              ]
      ])

  -- The session of the request's cookie ends, if it has one; errors are passed over.
  unfoldable pub replace_session : Request → ℕ → Accounts → Accounts
  replace_session r now db = elim (cookie_session r now db) [
    | err e ↦ db
    | ok (user, old) ↦ elim (revoke user old.id db) [ err e ↦ db | ok db' ↦ db' ]
  ]

  -- POST /v1/browser/session
  unfoldable pub post_session :
      (Text → Option Text)
      → (Text → Option (Credentials × Bool))
      → (busy : ℕ) (token : Text) (id : Text) → Request
      → ℕ
      → ServerState
      → ServerState × Answer
  post_session split_host read busy token id r now s =
      if not (browser_origin origin r)
      then (s, record { status = 403; cookie = none })
      else let entered = enter split_host read busy token id r now s in
        elim entered.1 [
          | denied status ↦ (entered.0, record { status = status; cookie = none })
          | granted out ↦ (
            record (entered.0) { accounts = replace_session r now entered.0.accounts },
            record {
              status = 201;
              cookie = some (browser_cookie origin out.token out.session.expires_at now);
            },
          )
        ]

  -- GET /v1/browser/session: the name of the user and the session.
  unfoldable pub get_session : Request → ℕ → Accounts → Reply (Text × Session)
  get_session r now db =
      if not (r.origin == codes "") && not (r.origin == origin)
      then denied 403
      else (elim (cookie_session r now db) [
        | err e ↦ denied (failure_status e)
        | ok (user, session) ↦ elim (username_of user db.users) [
          | none ↦ denied (failure_status no_rows)
          | some name ↦ granted (name, session)
        ]
      ])

  abbrev pub is_unauthorized : Error → Bool
  is_unauthorized unauthorized = true
  is_unauthorized _ = false

  abbrev pub cleared : ℕ → Answer
  cleared now = record { status = 204; cookie = some (browser_cookie origin (codes "") 1 now) }

  abbrev pub refused : ℕ → Answer
  refused status = record { status = status; cookie = none }

  -- DELETE /v1/browser/session
  unfoldable pub delete_session : Request → ℕ → Accounts → Accounts × Answer
  delete_session r now db =
      if not (browser_origin origin r) then (db, refused 403) else (elim (cookie_session r now db) [
        | err e ↦ if is_unauthorized e then (db, cleared now) else (db, refused (failure_status e))
        | ok (user, session) ↦
            if not (r.session == session.id)
            then (db, refused 401)
            else (elim (revoke user session.id db) [
              | err e ↦ (db, refused (failure_status e))
              | ok db' ↦ (db', cleared now)
            ])
      ])
