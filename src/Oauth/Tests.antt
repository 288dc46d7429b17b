-- ===== src/Oauth/Tests.antt =====
-- The theorems on the pending connections at one connection.
use quire_server.Base.{
  ◌+◌, ◌<◌, ◌≡◌, ◌≢◌, ◌≤◌, arith, false, eq_iff, text_eq, nat_eq, ◌==◌, refl, true, none, some,
  List, [], ◌∷◌, Text, codes, length, ok, err, unauthorized,
}
use quire_server.Auth.{Session}
use quire_server.Http.{granted}
use quire_server.Oauth.{
  OauthConfig, OauthPending, Pendings, CallbackQuery, consume, start, callback,
}
use quire_server.Oauth.Tokens.{
  OauthCredential, Exchanged, exchanged, reconnect_needed, refreshed, access_token_turn,
}
use quire_server.Oauth.Tokens.Refresh.{IsRotated, IsPaced, access_token_turn_lem}
use quire_server.Oauth.Reachable.{
  IsReachable, at_start, after, started, called_back, consume-consume, IsReachable-le,
}

abbrev config : OauthConfig
config = record { client_id = codes "quire"; client_secret = codes "secret" }

abbrev session : Session
session = record { id = codes "d1"; device_name = codes "Browser"; created_at = 1; expires_at = 9 }

abbrev begun : Pendings
begun =
    (start config (granted (codes "u1")) (ok (codes "u1", session)) (codes "state") (codes "nonce")
      (codes "verifier") 5 []).0

abbrev query : CallbackQuery
query = record { state = codes "state"; code = codes "code"; error = []; iss = [] }

abbrev answered_once : Pendings
answered_once = (callback query (some (codes "nonce")) 6 begun).0

reached : IsReachable answered_once
reached =
    after begun answered_once
      (after [] begun at_start (
        started config (granted (codes "u1")) (ok (codes "u1", session)) (codes "state")
          (codes "nonce") (codes "verifier") 5 []))
      (called_back query (some (codes "nonce")) 6 begun)

IsReachable-le_example : length answered_once ≤ 1024
IsReachable-le_example = IsReachable-le answered_once reached

abbrev pending : OauthPending
pending = record {
  user = codes "u1";
  session = codes "d1";
  nonce = codes "nonce";
  verifier = codes "verifier";
  code = codes "code";
  error = [];
  expires = 600000000005;
  received = true;
}

consumed : consume (codes "state") (codes "u1") (codes "d1") 7 answered_once ≡ ok ([], pending)
unfolding consume start callback quire_server.Base.find quire_server.Base.text_beq
    quire_server.Oauth.enabled quire_server.Oauth.swept quire_server.Base.upsert
    quire_server.Oauth.callback_bad quire_server.Base.len quire_server.Oauth.answered
    quire_server.Oauth.without
consumed = refl

consume-consume_example :
    (pending.user ≡ codes "u1")
    × (pending.session ≡ codes "d1")
    × (pending.received ≡ true)
    × (7 ≤ pending.expires)
    × (consume (codes "state") (codes "u1") (codes "d1") 8 [] ≡ err unauthorized)
consume-consume_example =
    consume-consume (codes "state") (codes "u1") (codes "d1") (codes "u1") (codes "d1") 7 8
      answered_once [] pending consumed

abbrev credential : OauthCredential
credential = record {
  access_token = codes "old";
  refresh_token = codes "refresh";
  expires_at = 100;
  retry_at = 0;
  reconnect = false;
}

has_refresh : credential.refresh_token ≢ codes ""
unfolding quire_server.Base.text_beq
has_refresh = λ h. cc ((eq_iff (codes "refresh") (codes "")).1 h)

-- The provider grants a credential without a refresh token.
abbrev answer : Exchanged
answer =
    exchanged
      (record credential { access_token = codes "new"; refresh_token = []; expires_at = 9000 })

asked : (access_token_turn config credential 90 answer).asked ≡ true
unfolding access_token_turn quire_server.Oauth.enabled quire_server.Base.text_beq refreshed
asked = refl

access_token_turn_lem_example :
    let turn = access_token_turn config credential 90 answer in
    (turn.stored.refresh_token ≢ codes "")
    × IsRotated credential answer turn.stored
    × IsPaced config turn 120 reconnect_needed
access_token_turn_lem_example =
    access_token_turn_lem config credential 90 120 answer reconnect_needed has_refresh asked
      (omega arith)
