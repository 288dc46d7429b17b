-- ===== src/Oauth.antt =====
-- The connection to a MangaBaka account, internal/server/tracking_oauth.go: the pending connections
-- between `start`, `callback` and `finish`. The random texts that a call draws are its arguments; times
-- are in nanoseconds. What the provider answers is the argument of `finish`.
pub mod Tokens
pub mod Reachable
mod Tests
use quire_server.Base.{
  ℕ, ◌+◌, ◌*◌, ◌||◌, ◌&&◌, Bool, true, false, not, Option, none, some, List, [], ◌∷◌, Text, codes,
  len, length, any, keep, ltb, leb, ◌==◌, text_eq, nat_eq, if◌then◌else◌, Table, find, upsert,
  Result, ok, err, unauthorized, demand, reject, ◌>>=◌, ◌>>◌,
}
use quire_server.Auth.{Session}
use quire_server.Http.{Reply, denied, granted, minute, failure_status}

pub record OauthConfig : Type 0 where
  pub client_id : Text
  pub client_secret : Text

unfoldable pub enabled : OauthConfig → Bool
enabled c = not (c.client_id == codes "") && not (c.client_secret == codes "")

pub record OauthPending : Type 0 where
  pub user : Text
  pub session : Text
  pub nonce : Text
  pub verifier : Text
  pub code : Text
  pub error : Text
  pub expires : ℕ
  pub received : Bool

-- o.pending, by state
abbrev pub Pendings : Type 0
Pendings = List (Text × OauthPending)

-- delete(o.pending, state)
unfoldable pub without : Text → Pendings → Pendings
without state t = keep (λ row. not (row.0 == state)) t

unfoldable pub consume : Text → Text → Text → ℕ → Pendings → Result (Pendings × OauthPending)
consume state user session now t = do
  p ← demand unauthorized (find state t)
  reject (ltb p.expires now || not (p.user == user) || not (p.session == session) || not p.received)
      unauthorized
  ok (without state t, p)

-- Expired connections and those of the session are given up.
unfoldable pub swept : ℕ → Text → Pendings → Pendings
swept now session t = keep (λ row. not (ltb row.1.expires now || row.1.session == session)) t

abbrev pub new_pending : Text → Text → Text → Text → ℕ → OauthPending
new_pending user session nonce verifier now = record {
  user = user;
  session = session;
  nonce = nonce;
  verifier = verifier;
  code = codes "";
  error = codes "";
  expires = now + 10 * minute;
  received = false;
}

-- `start` behind `authorized` and `cookieSession`, which give the user and the session of the cookie;
-- the reply is the value of the cookie.
unfoldable pub start :
    OauthConfig
    → Reply Text
    → Result (Text × Session)
    → (state : Text) (nonce : Text) (verifier : Text) → ℕ
    → Pendings
    → Pendings × Reply Text
start config (denied status) cookie state nonce verifier now t = (t, denied status)
start config (granted user) (err e) state nonce verifier now t = (t, denied 401)
start config (granted user) (ok (owner, session)) state nonce verifier now t =
    if not (owner == user)
    then (t, denied 401)
    else if not (enabled config)
    then (t, denied 503)
    else if leb 1024 (length (swept now session.id t))
    then (swept now session.id t, denied 429)
    else (
      upsert state (new_pending user session.id nonce verifier now) (swept now session.id t),
      granted nonce,
    )

-- The query of the provider's redirect, empty where a value is missing.
pub record CallbackQuery : Type 0 where
  pub state : Text
  pub code : Text
  pub error : Text
  pub iss : Text

abbrev pub issuer : Text
issuer = codes "https://mangabaka.org/auth"

abbrev pub cancelled : Text
cancelled = codes "MangaBaka connection was cancelled. Your existing links are unchanged."

unfoldable pub callback_bad : CallbackQuery → Text → OauthPending → ℕ → Bool
callback_bad q cookie p now =
    p.received
    || ltb p.expires now
    || not (cookie == p.nonce)
    || ltb 8192 (len q.code)
    || not (q.iss == codes "") && not (q.iss == issuer)

unfoldable pub answered : CallbackQuery → OauthPending → OauthPending
answered q p = record p {
  received = true;
  code = q.code;
  error = if not (q.error == codes "") || q.code == codes "" then cancelled else p.error;
}

-- `callback`; the reply is the state that the browser is sent on with.
unfoldable pub callback : CallbackQuery → Option Text → ℕ → Pendings → Pendings × Reply Text
callback q none now t = (t, denied 400)
callback q (some cookie) now t = elim (find q.state t) [
  | none ↦ (t, denied 400)
  | some p ↦
      if callback_bad q cookie p now
      then (t, denied 400)
      else (upsert q.state (answered q p) t, granted q.state)
]

-- The first steps of `finish`, up to the exchange of the code: the connection that is taken out.
unfoldable pub take_pending :
    Reply Text → Result (Text × Session) → Reply Text → ℕ → Pendings → Pendings × Reply OauthPending
take_pending (denied status) cookie state now t = (t, denied status)
take_pending (granted user) (err e) state now t = (t, denied 401)
take_pending (granted user) (ok (owner, session)) state now t =
    if not (owner == user) then (t, denied 401) else (elim state [
      | denied status ↦ (t, denied status)
      | granted s ↦ elim (consume s user session.id now t) [
        | err e ↦ (t, denied 400)
        | ok (t', p) ↦ (t', if not (p.error == codes "") then denied 400 else granted p)
      ]
    ])
