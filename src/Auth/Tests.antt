-- ===== src/Auth/Tests.antt =====
-- The theorems on accounts and sessions at one account.
use quire_server.Base.{
  ℕ, ◌+◌, ◌≡◌, ◌≢◌, ◌≤◌, ◌<◌, refl, arith, Bool, false, true, Option, none, some, List, [], ◌∷◌,
  ◌++◌, Text, codes, len, find, ok, err, unauthorized, Result, ◌==◌, text_eq, nat_eq, if◌then◌else◌,
  insert, keep,
}
use quire_server.Auth.{
  User, SessionRow, LoginResult, Accounts, Crypto, enabled_user, count_of, login, revoke,
  authenticate, create_user, reset_password, id_of,
}
use quire_server.Auth.Sessions.{authenticate-login, revoke-login}
use quire_server.Auth.Passwords.{reset_password-authenticate}

-- Keys and hashes that keep everything apart.
abbrev crypto : Crypto
crypto = record { password_key = λ password salt. salt ++ password; sha256 = λ text. 1 ∷ text }

abbrev ann : User
ann = record {
  id = codes "u1";
  username = codes "ann";
  salt = codes "s1";
  password_hash = codes "s1correct horse";
  admin = false;
  disabled = false;
}

abbrev old_row : SessionRow
old_row = record {
  id = codes "d0";
  user_id = codes "u1";
  token_hash = codes "h0";
  device_name = codes "Tablet";
  created_at = 10;
  expires_at = 2000;
}

abbrev db : Accounts
db = record { users = ann ∷ []; sessions = old_row ∷ []; cursors = (codes "u1", 0) ∷ [] }

abbrev token : Text
token = codes "0123456789abcdef0123456789abcdef0123456789abcdef0123456789abcdef"

abbrev row : SessionRow
row = record {
  id = codes "d1";
  user_id = codes "u1";
  token_hash = 1 ∷ token;
  device_name = codes "Phone";
  created_at = 1000;
  expires_at = 2593000;
}

abbrev entered : Accounts
entered = record db { sessions = old_row ∷ row ∷ [] }

abbrev response : LoginResult
response = record {
  token = token;
  session = record {
    id = codes "d1";
    device_name = codes "Phone";
    created_at = 1000;
    expires_at = 2593000;
  };
}

logged_in :
    login crypto (codes "ann") (codes "correct horse") (codes " Phone ") token (codes "d1") 1000 db
    ≡ ok (entered, response)
unfolding login len quire_server.Base.trim_space quire_server.Base.text_beq
logged_in = refl

authenticate-login_example :
    (u : User) × (enabled_user (codes "ann") db.users ≡ some u)
    × (crypto.password_key (codes "correct horse") u.salt ≡ u.password_hash)
    × (authenticate crypto token 5000 entered ≡ ok u.id)
unfolding len
authenticate-login_example =
    authenticate-login crypto (codes "ann") (codes "correct horse") (codes " Phone ") token
      (codes "d1") 1000 5000 db entered response refl (omega arith) logged_in

few : (v : Text) → count_of v db.sessions ≤ 32
few v = ground arith

known : enabled_user (codes "ann") db.users ≡ some ann
unfolding enabled_user quire_server.Base.text_beq
known = refl

revoked : revoke (codes "u1") (codes "d1") entered ≡ ok db
unfolding revoke quire_server.Base.text_beq
revoked = refl

revoke-login_example : authenticate crypto token 5000 db ≡ err unauthorized
revoke-login_example =
    revoke-login crypto (codes "ann") (codes "correct horse") (codes " Phone ") token (codes "d1")
      1000 5000 db entered db response ann known logged_in revoked

abbrev bob : User
bob = record {
  id = codes "u2";
  username = codes "bob";
  salt = codes "s2";
  password_hash = codes "s2battery staple";
  admin = false;
  disabled = false;
}

abbrev bob_row : SessionRow
bob_row = record row { id = codes "d2"; user_id = codes "u2" }

abbrev both : Accounts
both = record { users = ann ∷ bob ∷ []; sessions = old_row ∷ bob_row ∷ []; cursors = db.cursors }

abbrev reset : Accounts
reset = record both {
  users = record ann { salt = codes "s3"; password_hash = codes "s3new password here" } ∷ bob ∷ [];
  sessions = bob_row ∷ [];
}

ann_known : id_of (codes "ann") both.users ≡ some (codes "u1")
unfolding id_of quire_server.Base.text_beq
ann_known = refl

ann_reset :
    reset_password crypto (codes "ann") (codes "new password here") (codes "s3") both ≡ ok reset
unfolding reset_password len quire_server.Base.text_beq
ann_reset = refl

bob_stays : authenticate crypto token 5000 reset ≡ ok (codes "u2")
unfolding authenticate len quire_server.Base.text_beq
bob_stays = refl

reset_password-authenticate_example : codes "u2" ≢ codes "u1"
reset_password-authenticate_example =
    reset_password-authenticate crypto (codes "ann") (codes "new password here") (codes "s3")
      (codes "u1") token (codes "u2") 5000 both reset ann_known ann_reset bob_stays

ann_enabled : enabled_user (codes "ann") both.users ≡ some ann
unfolding enabled_user quire_server.Base.text_beq
ann_enabled = refl

abbrev created : Accounts
created = record db { users = ann ∷ bob ∷ []; cursors = (codes "u1", 0) ∷ (codes "u2", 0) ∷ [] }

bob_created :
    create_user crypto (codes "bob") (codes "battery staple") (codes "s2") (codes "u2") db
    ≡ ok created
unfolding create_user len quire_server.Base.text_beq insert
bob_created = refl
