-- ===== src/Http.antt =====
-- What the routes of internal/server/http.go share: the status of an error, the reading of a JSON body,
-- and the limit on login attempts. A reply is its status; its body is not modelled.
pub mod Limits
pub mod Browser
mod Tests
use quire_server.Base.{
  ℕ, ◌+◌, Bool, true, false, not, Option, none, some, List, [], ◌∷◌, Text, codes, len, length, keep,
  ltb, leb, ◌==◌, text_eq, nat_eq, if◌then◌else◌, split, Table, find, upsert, Error, invalid,
  unauthorized, conflict, no_rows, too_large, watched, decoding, constraint, panics, Result, ok,
  err,
}
use quire_server.Folders.{first}
use quire_server.Sync.Validate.{strict_json}

-- The statuses of `failure`.
unfoldable pub failure_status : Error → ℕ
failure_status too_large = 413
failure_status invalid = 400
failure_status unauthorized = 401
failure_status conflict = 409
failure_status no_rows = 404
failure_status _ = 500

-- A request, as far as the handlers look at it: the peer, its method, the headers Authorization, Origin,
-- X-Quire-Session and Content-Type (empty where they are missing), its cookies, and its body.
pub record Request : Type 0 where
  pub remote : Text
  pub method : Text
  pub authorization : Text
  pub origin : Text
  pub session : Text
  pub content_type : Text
  pub cookie : Text → Option Text
  pub body : Text

-- A value, or the status that was answered instead.
pub data Reply (A : Type 0) : Type 0 where
  denied : ℕ → Reply A
  granted : A → Reply A

abbrev pub reply_of : {A : Type 0} → Result A → Reply A
reply_of (ok v) = granted v
reply_of (err e) = denied (failure_status e)

-- `decode`, for a decoder that says whether the end of the body follows the value.
unfoldable pub decode : {A : Type 0} → (Text → Option (A × Bool)) → Request → ℕ → Reply A
unfolding strict_json
decode read r limit =
    if not (first (split r.content_type b';') == codes "application/json")
    then denied 415
    else if ltb limit (len r.body)
    then denied 413
    else reply_of (strict_json read r.body)

-- The attempts of a host, until its window ends; times are in nanoseconds.
pub record LoginWindow : Type 0 where
  pub count : ℕ
  pub until : ℕ

abbrev pub Attempts : Type 0
Attempts = Table Text LoginWindow

-- delete(a.attempts, k) for every window that is over
unfoldable pub current : ℕ → Attempts → Attempts
current now t = keep (λ row. not (ltb row.1.until now)) t

abbrev pub minute : ℕ
minute = 60000000000

-- An attempt at time `now` in the window that is found, or in a new one.
unfoldable pub attempt : Text → LoginWindow → Attempts → Attempts × Bool
attempt host w t =
    if leb 10 w.count then (t, false) else (upsert host (record w { count = w.count + 1 }) t, true)

-- `allowLogin`; `split_host` is net.SplitHostPort, which gives no host where it fails.
unfoldable pub allow_login : (Text → Option Text) → Text → ℕ → Attempts → Attempts × Bool
unfolding current attempt
allow_login split_host remote now attempts =
    let host : Text = elim (split_host remote) [ none ↦ remote | some h ↦ h ] in
    let t = current now attempts in
    elim (find host t) [
      | some w ↦ attempt host w t
      | none ↦
          if leb 4096 (length t)
          then (t, false)
          else attempt host (record { count = 0; until = now + minute }) t
    ]
