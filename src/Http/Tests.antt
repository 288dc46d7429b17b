-- ===== src/Http/Tests.antt =====
-- The theorems on requests at one account with one session.
use quire_server.Base.{
  ℕ, ◌+◌, ◌≡◌, ◌≢◌, ◌≤◌, ◌⊎◌, refl, arith, Bool, false, true, Option, none, some, List, [], ◌∷◌,
  ◌++◌, Text, codes, find, ok, err, Result, All, ◌==◌, text_eq, nat_eq, if◌then◌else◌, has_prefix,
  trim_prefix,
}
use quire_server.Auth.{SessionRow, Accounts, Crypto, session_of, authenticate, revoke}
use quire_server.Http.{Request, LoginWindow, Attempts, granted}
use quire_server.Http.Limits.{allowed, allowed-le}
use quire_server.Http.Browser.{
  seconds, authorized, cookie_user, cookie_session, browser_origin, session_row, delete_session,
}
use quire_server.Http.Browser.Access.{IsOwn, authorized-IsOwn}

abbrev crypto : Crypto
crypto = record { password_key = λ password salt. salt ++ password; sha256 = λ text. 1 ∷ text }

abbrev token : Text
token = codes "0123456789abcdef0123456789abcdef0123456789abcdef0123456789abcdef"

abbrev row : SessionRow
row = record {
  id = codes "d1";
  user_id = codes "u1";
  token_hash = 1 ∷ token;
  device_name = codes "Phone";
  created_at = 1000;
  expires_at = 2593000;
}

abbrev db : Accounts
db = record {
  users =
      record {
        id = codes "u1";
        username = codes "ann";
        salt = [];
        password_hash = codes "correct horse";
        admin = false;
        disabled = false;
      }
      ∷ [];
  sessions = row ∷ [];
  cursors = [];
}

abbrev origin : Text
origin = codes "https://quire.example"

-- Every cookie of the browser holds the token.
abbrev request : Request
request = record {
  remote = codes "10.0.0.1:9";
  method = codes "POST";
  authorization = [];
  origin = origin;
  session = codes "d1";
  content_type = codes "application/json";
  cookie = λ name. some token;
  body = [];
}

abbrev now : ℕ
now = 5000000000000

acts : authorized crypto origin request now db ≡ granted (codes "u1")
unfolding authorized quire_server.Base.text_beq cookie_user browser_origin cookie_session
    authenticate quire_server.Base.len session_row
acts = refl

authorized-IsOwn_example :
    ((has_prefix request.authorization (codes "Bearer ") ≡ true)
      × (authenticate crypto (trim_prefix request.authorization (codes "Bearer ")) (seconds now) db
          ≡ ok (codes "u1")))
    ⊎ ((request.authorization ≡ codes "") × IsOwn crypto origin request now db (codes "u1"))
authorized-IsOwn_example = authorized-IsOwn crypto origin request now db (codes "u1") acts

live : cookie_session crypto origin request now db ≡ ok (codes "u1", session_of row)
unfolding cookie_session authenticate quire_server.Base.len quire_server.Base.text_beq session_row
live = refl

ended : (delete_session crypto origin request now db).1.status ≡ 204
unfolding delete_session browser_origin quire_server.Base.text_beq cookie_session authenticate
    quire_server.Base.len session_row revoke
ended = refl

abbrev foreign : Request
foreign = record request { origin = codes "https://evil.example" }

forbidden : (delete_session crypto origin foreign now db).1.status ≢ 204
unfolding delete_session browser_origin quire_server.Base.text_beq
forbidden = omega arith

abbrev window : LoginWindow
window = record { count = 9; until = 100 }

abbrev attempts : Attempts
attempts = (codes "10.0.0.1", window) ∷ []

abbrev calls : List (Text × ℕ)
calls = (codes "10.0.0.1", 50) ∷ (codes "10.0.0.2", 60) ∷ (codes "10.0.0.1", 70) ∷ []

first_window : find (codes "10.0.0.1") attempts ≡ some window
unfolding find quire_server.Base.text_beq
first_window = refl

allowed-le_example : 9 + allowed (λ remote. none) (codes "10.0.0.1") calls attempts ≤ 10
allowed-le_example =
    allowed-le (λ remote. none) (codes "10.0.0.1") calls attempts window first_window (omega arith)
      (omega arith, (omega arith, (omega arith, tt)))
