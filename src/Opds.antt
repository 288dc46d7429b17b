-- ===== src/Opds.antt =====
-- The passwords of OPDS readers, internal/server/opds_auth.go. `origin_ok` says whether the public URL
-- may carry them, as net/url and net read it; `basic` is the name and the password of the request.
pub mod Passwords
mod Tests
use quire_server.Base.{
  ℕ, ◌||◌, ◌&&◌, Bool, true, false, not, Option, none, some, List, [], ◌∷◌, ◌++◌, Text, codes, len,
  length, any, keep, ltb, leb, ◌==◌, text_eq, nat_eq, if◌then◌else◌, trim_space, text_leb, Result,
  ok, err, invalid, conflict, constraint, reject, demand, ◌>>=◌, ◌>>◌,
}
use quire_server.Auth.{User, Crypto}
use quire_server.Http.{Request, Attempts, allow_login, Reply, denied, granted}

-- A row of `opds_passwords`.
pub record PasswordRow : Type 0 where
  pub id : Text
  pub user_id : Text
  pub name : Text
  pub digest : Text
  pub created_at : ℕ

pub record OpdsPassword : Type 0 where
  pub id : Text
  pub name : Text
  pub created_at : ℕ
  pub password : Text

-- SELECT u.id FROM opds_passwords p JOIN users u … WHERE u.username=? AND u.disabled=0 AND p.digest=?
unfoldable pub password_user : Text → Text → List User → List PasswordRow → Option Text
password_user username digest us [] = none
password_user username digest us (p ∷ ps) =
    if p.digest == digest
      && any (λ u. u.id == p.user_id && u.username == username && not u.disabled) us
    then some p.user_id
    else password_user username digest us ps

abbrev before : OpdsPassword → OpdsPassword → Bool
before p q = ltb p.created_at q.created_at || p.created_at == q.created_at && text_leb p.id q.id

abbrev place_password : OpdsPassword → List OpdsPassword → List OpdsPassword
place_password p [] = p ∷ []
place_password p (q ∷ qs) = if before p q then p ∷ q ∷ qs else q ∷ place_password p qs

abbrev order_passwords : List PasswordRow → List OpdsPassword
order_passwords [] = []
order_passwords (p ∷ ps) =
    place_password
      (record { id = p.id; name = p.name; created_at = p.created_at; password = codes "" })
      (order_passwords ps)

-- GET /v1/opds/passwords
unfoldable pub list_passwords : Text → List PasswordRow → List OpdsPassword
list_passwords user ps = order_passwords (keep (λ p. p.user_id == user) ps)

abbrev pub count_of : Text → List PasswordRow → ℕ
count_of user ps = length (keep (λ p. p.user_id == user) ps)

-- DELETE /v1/opds/passwords/{id}
unfoldable pub remove_password : Text → Text → List PasswordRow → List PasswordRow
remove_password user id ps = keep (λ p. not (p.user_id == user && p.id == id)) ps

-- The ids and the digests are unique.
unfoldable pub insert_password : PasswordRow → List PasswordRow → Option (List PasswordRow)
insert_password p ps =
    if any (λ q. q.id == p.id || q.digest == p.digest) ps then none else some (ps ++ p ∷ [])

module _ (c : Crypto) where
  -- POST /v1/opds/passwords, with the id and the password that are drawn.
  unfoldable pub add_password :
      Text
      → Text
      → (id : Text) (password : Text) (now : ℕ) → List PasswordRow
      → Result (List PasswordRow × OpdsPassword)
  add_password user name id password now ps = do
    reject (len (trim_space name) == 0 || ltb 100 (len (trim_space name))) invalid
    let row : PasswordRow = record {
      id = id;
      user_id = user;
      name = trim_space name;
      digest = c.sha256 password;
      created_at = now;
    }
    reject (leb 50 (count_of user ps)) conflict
    rows ← demand constraint (insert_password row ps)
    ok (rows, record { id = id; name = trim_space name; created_at = now; password = password })

  -- The user whose name and password a request has.
  unfoldable pub basic_user : Option (Text × Text) → List User → List PasswordRow → Option Text
  basic_user none us ps = none
  basic_user (some (username, password)) us ps =
      if leb (len password) 256 && leb (len username) 64
      then password_user username (c.sha256 password) us ps
      else none

  -- `opdsAuthorized`: only requests that fail count as attempts.
  unfoldable pub opds_authorized :
      (Text → Option Text)
      → (origin_ok : Bool) → Option (Text × Text)
      → Request
      → ℕ
      → Attempts
      → List User
      → List PasswordRow
      → Attempts × Reply Text
  opds_authorized split_host origin_ok basic r now attempts us ps =
      if not origin_ok then (attempts, denied 503) else (elim (basic_user basic us ps) [
        | some user ↦ (attempts, granted user)
        | none ↦
            let tried = allow_login split_host r.remote now attempts in
            (tried.0, if tried.1 then denied 401 else denied 429)
      ])
