-- ===== src/Exchange/Tests.antt =====
-- The theorem on the routes at a request with an outbox.
use quire_server.Base.{
  ◌≡◌, ◌≢◌, refl, Bool, false, true, none, some, Option, [], ◌∷◌, Text, codes, eq_iff, text_eq,
}
use quire_server.Auth.{Accounts, Crypto}
use quire_server.Http.{Request, Reply, granted}
use quire_server.Http.Browser.{authorized}
use quire_server.Sync.Wire.{SyncRequest}
use quire_server.Sync.Tests.{codec, before, clock, codec-IsLawful, before-IsConsistent}
use quire_server.Sync.Tests
use quire_server.Libraries.Tests.{syntax, seed_codec, metadata, ids, shared, file}
use quire_server.Exchange.{sync_route}
use quire_server.Exchange.Atomic.{IsSpared, sync_route-IsSpared}

abbrev crypto : Crypto
crypto = record { password_key = λ password salt. password; sha256 = λ text. text }

abbrev token : Text
token = codes "0123456789abcdef0123456789abcdef0123456789abcdef0123456789abcdef"

abbrev accounts : Accounts
accounts = record {
  users =
      record {
        id = codes "u1";
        username = codes "ann";
        salt = [];
        password_hash = codes "correct horse";
        admin = false;
        disabled = false;
      }
      ∷ [];
  sessions =
      record {
        id = codes "d1";
        user_id = codes "u1";
        token_hash = token;
        device_name = codes "Phone";
        created_at = 1000;
        expires_at = 2593000;
      }
      ∷ [];
  cursors = (codes "u1", 0) ∷ [];
}

abbrev request : Request
request = record {
  remote = codes "10.0.0.1:9";
  method = codes "POST";
  authorization = codes "Bearer 0123456789abcdef0123456789abcdef0123456789abcdef0123456789abcdef";
  origin = [];
  session = [];
  content_type = codes "application/json";
  cookie = λ name. none;
  body = codes "{\"cursor\":0}";
}

granted_unique : {out : Reply Text} {u v : Text} → out ≡ granted u → out ≡ granted v → u ≡ v
granted_unique a b = cc

abbrev read : Text → Option (SyncRequest × Bool)
read text = some (quire_server.Sync.Tests.request, true)

acts : authorized crypto [] request 5000000000000 accounts ≡ granted (codes "u1")
unfolding authorized quire_server.Base.text_beq quire_server.Auth.authenticate
    quire_server.Auth.session_user quire_server.Base.len quire_server.Base.has_prefix
    quire_server.Base.trim_prefix
acts = refl

not_ann : authorized crypto [] request 5000000000000 accounts ≢ granted (codes "u")
unfolding quire_server.Base.text_beq
not_ann = λ h. cc ((eq_iff (codes "u1") (codes "u")).1 (granted_unique acts h))

-- The request acts for u1, and the log is that of u.
sync_route-IsSpared_example :
    IsSpared
      (codes "u")
      before
      (sync_route crypto [] request 5000000000000 accounts codec syntax seed_codec metadata ids
        shared shared
        (file ∷ [])
        (file ∷ [])
        clock
        read
        before).0
sync_route-IsSpared_example =
    sync_route-IsSpared codec syntax seed_codec codec-IsLawful metadata ids shared shared
      (file ∷ []) (file ∷ []) clock crypto [] request 5000000000000 accounts read before (codes "u")
      not_ann before-IsConsistent
