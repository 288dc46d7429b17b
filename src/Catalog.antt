-- ===== src/Catalog.antt =====
-- The OPDS catalogs that an account follows, internal/server/opds_sources.go, and their stored secrets, of
-- internal/server/opds_proxy.go. `Links` holds what the code uses of net/url and of strings.ToLower.
pub mod Writes
pub mod Secrets
pub mod Addresses
pub mod Proxy
pub mod Delivery
pub mod Routes
mod Tests
use quire_server.Base.{
  ℕ, ◌+◌, Bool, true, false, not, ◌&&◌, ◌||◌, Option, none, some, List, [], ◌∷◌, ◌++◌, Text, codes,
  len, length, any, keep, contains, ltb, leb, ◌==◌, text_eq, nat_eq, pair_eq, if◌then◌else◌,
  trim_space, text_leb, Table, find, upsert, insert, ℤ, is_neg, pos_part, Result, ok, err, invalid,
  conflict, no_rows, decoding, constraint, reject, demand, ◌>>=◌, ◌>>◌,
}
use quire_server.Http.{Reply, denied, granted, failure_status}

pub record CatalogSource : Type 0 where
  pub id : Text
  pub name : Text
  pub url : Text
  pub revision : ℕ
  pub deleted : Bool

pub record CatalogCredentials : Type 0 where
  pub username : Text
  pub password : Text

pub record CatalogSourceWrite : Type 0 where
  pub name : Text
  pub url : Text
  pub base_revision : ℤ
  pub operation_id : Text
  pub deleted : Bool
  pub credentials : Option CatalogCredentials

-- A parsed URL; `text` is what its `String` gives.
pub record Url : Type 0 where
  pub scheme : Text
  pub hostname : Text
  pub port : Text
  pub has_user : Bool
  pub path : Text
  pub raw_query : Text
  pub fragment : Text
  pub text : Text

pub record Links : Type 0 where
  pub parse : Text → Option Url
  pub lower : Text → Text

abbrev pub bad_url : Text → Url → Bool
bad_url raw u =
    ltb 4096 (len raw)
    || u.hostname == codes ""
    || u.has_user
    || not (u.scheme == codes "http") && not (u.scheme == codes "https")
    || not (u.fragment == codes "")

abbrev pub checked_url : Text → Option Url → Option Url
checked_url raw none = none
checked_url raw (some u) = if bad_url raw u then none else some u

-- `catalogURL`
unfoldable pub catalog_url : Links → Text → Option Url
catalog_url l raw = checked_url raw (l.parse raw)

-- net.JoinHostPort
abbrev join_host_port : Text → Text → Text
join_host_port host port =
    if contains b':' host
    then codes "[" ++ host ++ codes "]:" ++ port
    else host ++ codes ":" ++ port

-- `catalogOrigin`
unfoldable pub catalog_origin : Links → Url → Text
catalog_origin l u =
    let port : Text =
      if not (u.port == codes "")
      then u.port
      else if u.scheme == codes "https"
      then codes "443"
      else codes "80" in
    l.lower u.scheme ++ codes "://" ++ join_host_port (l.lower u.hostname) port

-- A row of `catalog_sources` behind its user and id.
pub record SourceRow : Type 0 where
  pub name : Text
  pub url : Text
  pub revision : ℕ
  pub deleted : Bool
  pub secret : Option Text

-- `catalog_operations` keeps the digest and the encoded answer of an operation of a user.
pub record CatalogDb : Type 0 where
  pub sources : Table (Text × Text) SourceRow
  pub operations : Table (Text × Text) (Text × Text)

-- encoding/json and crypto/sha256 on the written and the answered values; the sealing of credentials for
-- a user and a source with a nonce, which fails where the server has no key, and its opening.
pub record CatalogCodec : Type 0 where
  pub digest : Text → CatalogSourceWrite → Text
  pub source : CatalogSource → Text
  pub source_of : Text → Option CatalogSource
  pub seal : (user id nonce : Text) → CatalogCredentials → Result Text
  pub open_sealed : (user id secret : Text) → Result CatalogCredentials

abbrev pub has_any : List ℕ → Text → Bool
has_any cs s = any (λ c. contains c cs) s

abbrev bad_credentials : Option CatalogCredentials → Bool
bad_credentials none = false
bad_credentials (some v) =
    ltb 512 (len v.username)
    || ltb 4096 (len v.password)
    || has_any (b':' ∷ 13 ∷ 10 ∷ []) v.username

-- 1<<53 - 1, as MAX_SAFE_INTEGER of a browser
abbrev pub max_revision : ℕ
max_revision = 9007199254740991

abbrev pub bad_write : Text → CatalogSourceWrite → Bool
bad_write id v =
    len id == 0
    || ltb 128 (len id)
    || has_any (b'/' ∷ b'\\' ∷ 0 ∷ []) id
    || trim_space v.name == codes ""
    || ltb 200 (len (trim_space v.name))
    || len v.operation_id == 0
    || ltb 128 (len v.operation_id)
    || is_neg v.base_revision
    || leb max_revision (pos_part v.base_revision)

abbrev pub is_none {ℓ} : {A : Type ℓ} → Option A → Bool
is_none none = true
is_none (some _) = false

abbrev pub old_revision : Option SourceRow → ℕ
old_revision none = 0
old_revision (some row) = row.revision

abbrev pub same_origin : Links → Option Url → Option Url → Bool
same_origin l none next = false
same_origin l (some u) none = false
same_origin l (some u) (some v) = catalog_origin l u == catalog_origin l v

-- The secret that goes on where the client sends no credentials: only to the same origin.
abbrev pub kept_secret : Links → CatalogSourceWrite → Option SourceRow → Option Text → Option Text
kept_secret l v none sealed = sealed
kept_secret l v (some row) sealed =
    if is_none v.credentials
      && not v.deleted
      && same_origin l (catalog_url l row.url) (catalog_url l v.url)
    then row.secret
    else sealed

abbrev pub count_of : Text → Table (Text × Text) SourceRow → ℕ
count_of user t = length (keep (λ row. row.0.0 == user) t)

module _ (l : Links) (c : CatalogCodec) where
  -- The secret for the credentials of a write.
  abbrev pub sealed_secret :
      (user id nonce : Text) → Bool → Option CatalogCredentials → Result (Option Text)
  sealed_secret user id nonce deleted none = ok none
  sealed_secret user id nonce deleted (some v) =
      if not deleted && (not (v.username == codes "") || not (v.password == codes ""))
      then (c.seal user id nonce v >>= λ secret. ok (some secret))
      else ok none

  abbrev pub answer : Text → CatalogSourceWrite → ℕ → CatalogSource
  answer id v revision = record {
    id = id;
    name = trim_space v.name;
    url = v.url;
    revision = revision;
    deleted = v.deleted;
  }

  abbrev pub new_row : CatalogSourceWrite → Option SourceRow → Option Text → SourceRow
  new_row v old sealed = record {
    name = trim_space v.name;
    url = v.url;
    revision = old_revision old + 1;
    deleted = v.deleted;
    secret = kept_secret l v old sealed;
  }

  -- The writes of an operation that is new.
  abbrev pub write_row :
      (user id : Text) (v : CatalogSourceWrite)
      → Option SourceRow
      → Option Text
      → CatalogDb
      → Result (CatalogDb × CatalogSource)
  write_row user id v old sealed db = do
    reject (not (old_revision old == pos_part v.base_revision)) conflict
    reject (old_revision old == 0 && leb 500 (count_of user db.sources)) conflict
    let out : CatalogSource = answer id v (old_revision old + 1)
    operations ←
        demand constraint
          (insert (user, v.operation_id) (c.digest id v, c.source out) db.operations)
    ok (
      record {
        sources = upsert (user, id) (new_row v old sealed) db.sources;
        operations = operations;
      },
      out,
    )

  abbrev pub write_new :
      (user id : Text) (v : CatalogSourceWrite)
      → Option Text
      → Option (Text × Text)
      → CatalogDb
      → Result (CatalogDb × CatalogSource)
  write_new user id v sealed none db = write_row user id v (find (user, id) db.sources) sealed db
  write_new user id v sealed (some (digest, result)) db = do
    reject (not (digest == c.digest id v)) conflict
    out ← demand decoding (c.source_of result)
    ok (db, out)

  -- `writeCatalogSource`, with the nonce that it draws.
  unfoldable pub write_catalog_source :
      (user id nonce : Text) → CatalogSourceWrite → CatalogDb → Result (CatalogDb × CatalogSource)
  write_catalog_source user id nonce v db = do
    reject (bad_write id v) invalid
    reject (is_none (catalog_url l v.url)) invalid
    reject (bad_credentials v.credentials) invalid
    sealed ← sealed_secret user id nonce v.deleted v.credentials
    write_new user id v sealed (find (user, v.operation_id) db.operations) db

  abbrev pub opened :
      (user id : Text) → SourceRow → Option Text → Result (Text × Option CatalogCredentials)
  opened user id row none = ok (row.url, none)
  opened user id row (some secret) =
      if secret == []
      then ok (row.url, none)
      else c.open_sealed user id secret >>= λ v. ok (row.url, some v)

  abbrev pub live_row :
      (user id : Text) → Option SourceRow → Result (Text × Option CatalogCredentials)
  live_row user id none = err no_rows
  live_row user id (some row) = if row.deleted then err no_rows else opened user id row row.secret

  -- `catalogSourceSecret`: the URL of a source, and its credentials.
  unfoldable pub catalog_source_secret :
      (user id : Text) → CatalogDb → Result (Text × Option CatalogCredentials)
  catalog_source_secret user id db = live_row user id (find (user, id) db.sources)
