-- ===== src/Oauth/Tokens.antt =====
-- The credential of a connection: `exchange` and `trackingAccessToken` of
-- internal/server/tracking_oauth.go. Times are in seconds.
pub mod Refresh
use quire_server.Base.{
  ℕ, ◌+◌, ◌*◌, ◌||◌, ◌&&◌, Bool, true, false, not, Option, none, some, List, [], ◌∷◌, ◌++◌, Text,
  codes, len, any, map, ltb, ◌==◌, text_eq, nat_eq, if◌then◌else◌, is_space, is_upper, has_prefix,
  ℤ, is_neg, pos_part,
}
use quire_server.Oauth.{OauthConfig, enabled}

pub record OauthCredential : Type 0 where
  pub access_token : Text
  pub refresh_token : Text
  pub expires_at : ℕ
  pub retry_at : ℕ
  pub reconnect : Bool

-- The answer of the provider: no connection, or a status and the body, as far as it was read.
pub data TokenAnswer : Type 0 where
  unreachable : TokenAnswer
  status_body : ℕ → Text → TokenAnswer

pub record TokenBody : Type 0 where
  pub access_token : Text
  pub refresh_token : Text
  pub token_type : Text
  pub expires_in : ℤ
  pub scope : Text

-- A credential, the demand to connect anew, or another error.
pub data Exchanged : Type 0 where
  exchanged : OauthCredential → Exchanged
  reconnect_needed : Exchanged
  failed : Exchanged

-- strings.Fields
unfoldable pub fields_from : Text → Text → List Text
fields_from cur [] = if cur == codes "" then [] else cur ∷ []
fields_from cur (c ∷ s) =
    let cut = fields_from [] s in
    let longer = fields_from (cur ++ c ∷ []) s in
    if is_space c then (if cur == codes "" then cut else cur ∷ cut) else longer

unfoldable pub has_scope : Text → Text → Bool
has_scope scopes want = any (λ s. s == want) (fields_from [] scopes)

abbrev lower : ℕ → ℕ
lower c = if is_upper c then c + 32 else c

-- strings.EqualFold with a word whose letters fold with ASCII letters only
abbrev pub equal_fold : Text → Text → Bool
equal_fold s t = map lower s == map lower t

-- 365 days
abbrev pub year : ℕ
year = 31536000

unfoldable pub token_body_invalid : TokenBody → Bool
token_body_invalid v =
    v.access_token == codes ""
    || not (equal_fold v.token_type (codes "Bearer"))
    || is_neg v.expires_in
    || pos_part v.expires_in == 0
    || ltb year (pos_part v.expires_in)

-- `exchange` behind the request, with encoding/json as `read`.
unfoldable pub exchange_answer : (Text → Option TokenBody) → TokenAnswer → ℕ → Exchanged
exchange_answer read unreachable now = failed
exchange_answer read (status_body status body) now =
    if status == 400 || status == 401 || status == 403
    then reconnect_needed
    else if not (status == 200) || ltb 65536 (len body)
    then failed
    else (elim (read body) [
      | none ↦ failed
      | some v ↦
          if token_body_invalid v
            || not (v.scope == codes "")
              && (not (has_scope v.scope (codes "library.read"))
                  || not (has_scope v.scope (codes "library.write")))
          then failed
          else exchanged (record {
            access_token = v.access_token;
            refresh_token = v.refresh_token;
            expires_at = now + pos_part v.expires_in;
            retry_at = 0;
            reconnect = false;
          })
    ])

-- A token to use, or none where the call fails.
pub record TokenTurn : Type 0 where
  pub stored : OauthCredential
  pub asked : Bool
  pub token : Option Text

abbrev kept_turn : OauthCredential → Option Text → TokenTurn
kept_turn c token = record { stored = c; asked = false; token = token }

-- What a refresh leaves, by the provider's answer.
unfoldable pub refreshed : OauthCredential → ℕ → Exchanged → TokenTurn
refreshed c now (exchanged next) =
    let kept : OauthCredential =
      if next.refresh_token == codes ""
      then record next { refresh_token = c.refresh_token }
      else next in
    record { stored = kept; asked = true; token = some kept.access_token }
refreshed c now reconnect_needed = record {
  stored = record c { retry_at = now + 60; reconnect = true };
  asked = true;
  token = none;
}
refreshed c now failed = record {
  stored = record c { retry_at = now + 60; reconnect = false };
  asked = true;
  token = none;
}

-- `trackingAccessToken` on a stored OAuth credential, for the answer that a refresh would get: the
-- credential that is stored afterwards, and whether the provider was asked.
unfoldable pub access_token_turn : OauthConfig → OauthCredential → ℕ → Exchanged → TokenTurn
access_token_turn config c now answer =
    if c.reconnect
    then kept_turn c none
    else if ltb (now + 60) c.expires_at
    then kept_turn c (some c.access_token)
    else if ltb now c.retry_at
    then kept_turn c none
    else if not (enabled config) || c.refresh_token == codes ""
    then kept_turn c none
    else refreshed c now answer
