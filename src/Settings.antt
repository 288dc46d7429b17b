-- ===== src/Settings.antt =====
-- The settings of the server: internal/server/settings.go,
-- the upload limit of internal/server/limits.go, and the browser origins of internal/server/cors.go.
use quire_server.Base.{
  ℕ, ◌||◌, ◌&&◌, ◌^◌, ◌*◌, Bool, not, Option, none, some, List, Text, codes, len, ltb, keep,
  contains, ◌==◌, text_eq, nat_eq, if◌then◌else◌, trim_space, ℤ, is_neg, pos_part,
}
use quire_server.Http.{Request, Reply, denied, granted}

pub record ServerSettings : Type 0 where
  pub name : Text
  pub scan_seconds : ℤ

-- `Settings`, with the only row that the table may have.
unfoldable pub settings : Option ServerSettings → ServerSettings → ServerSettings
settings none fallback = fallback
settings (some v) fallback = v

unfoldable pub settings_invalid : ServerSettings → Bool
settings_invalid v =
    v.name == codes ""
    || ltb 100 (len v.name)
    || is_neg v.scan_seconds
    || ltb 86400 (pos_part v.scan_seconds)
    || not (pos_part v.scan_seconds == 0) && ltb (pos_part v.scan_seconds) 60

-- PUT /v1/admin/settings: the row behind it, and the status.
unfoldable pub put_settings :
    Reply Text → Reply ServerSettings → Option ServerSettings → Option ServerSettings × ℕ
put_settings (denied status) input row = (row, status)
put_settings (granted id) (denied status) row = (row, status)
put_settings (granted id) (granted v) row =
    let trimmed : ServerSettings = record v { name = trim_space v.name } in
    if settings_invalid trimmed then (row, 400) else (some trimmed, 204)

-- 8 << 30
abbrev pub max_stored_book_bytes : ℕ
max_stored_book_bytes = 8 * 2 ^ 30

-- `StoreOptions.validate`; true where it returns no error.
unfoldable pub valid_limit : ℤ → Bool
valid_limit n = not (is_neg n || ltb (pos_part n) 1 || ltb max_stored_book_bytes (pos_part n))

-- What `WithCORS` does with a request: it goes on to the handlers, or is answered with a status.
pub data CorsTurn : Type 0 where
  passed : CorsTurn
  answered : ℕ → CorsTurn

unfoldable pub allowed_origins : List Text → List Text
allowed_origins origins = keep (λ o. not (o == codes "") && not (o == codes "*")) origins

unfoldable pub with_cors : List Text → Request → CorsTurn
with_cors origins r =
    if r.origin == codes ""
    then passed
    else if not (contains r.origin (allowed_origins origins))
    then answered 403
    else if r.method == codes "OPTIONS"
    then answered 204
    else passed
