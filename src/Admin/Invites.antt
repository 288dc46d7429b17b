-- ===== src/Admin/Invites.antt =====
-- The handlers of the invites in internal/server/admin.go, behind `admin`.
use quire_server.Base.{
  ℕ, ◌+◌, Bool, true, false, not, ◌&&◌, ◌||◌, none, List, [], ◌∷◌, ◌++◌, Text, any, take, map, leb,
  ◌==◌, text_eq, nat_eq, if◌then◌else◌, text_leb, Result, ok, err, constraint,
}
use quire_server.Admin.{Invite, LibraryRow, Directory, is_free}

pub data InviteStatus : Type 0 where
  is_pending is_revoked is_redeemed is_expired : InviteStatus

pub record InviteItem : Type 0 where
  pub id : Text
  pub expires_at : ℕ
  pub status : InviteStatus
  pub libraries : List (Text × Text)

-- 7 * 24 * time.Hour, in seconds
abbrev pub invite_seconds : ℕ
invite_seconds = 604800

-- POST /v1/admin/invites, with the digest of the code that is drawn; ids and digests are unique.
unfoldable pub create_invite : (id hash : Text) (now : ℕ) → Directory → Result Directory
create_invite id hash now db =
    if any (λ i. i.id == id || i.code_hash == hash) db.invites
    then err constraint
    else ok (record db {
      invites =
          db.invites
          ++ record {
            id = id;
            code_hash = hash;
            expires_at = now + invite_seconds;
            redeemed_by = none;
            revoked = false;
          }
            ∷ [];
    })

-- UPDATE invites SET revoked=1 WHERE id=? AND redeemed_by IS NULL
unfoldable pub revoked_invites : Text → List Invite → List Invite
revoked_invites id [] = []
revoked_invites id (i ∷ is) =
    (if i.id == id && is_free i.redeemed_by then record i { revoked = true } else i)
    ∷ revoked_invites id is

-- DELETE /v1/admin/invites/{id}
unfoldable pub revoke_invite : Text → Directory → Directory
unfolding revoked_invites
revoke_invite id db = record db { invites = revoked_invites id db.invites }

unfoldable pub invite_status : ℕ → Invite → InviteStatus
invite_status now i =
    if i.revoked
    then is_revoked
    else if not (is_free i.redeemed_by)
    then is_redeemed
    else if leb i.expires_at now
    then is_expired
    else is_pending

abbrev place_invite : Invite → List Invite → List Invite
place_invite i [] = i ∷ []
place_invite i (j ∷ js) =
    if leb j.expires_at i.expires_at then i ∷ j ∷ js else j ∷ place_invite i js

-- ORDER BY expires_at DESC
abbrev by_expiry : List Invite → List Invite
by_expiry [] = []
by_expiry (i ∷ is) = place_invite i (by_expiry is)

abbrev name_before : Text × Text → Text × Text → Bool
name_before (i, m) (j, n) = if m == n then text_leb i j else text_leb m n

abbrev place_library : Text × Text → List (Text × Text) → List (Text × Text)
place_library p [] = p ∷ []
place_library p (q ∷ qs) = if name_before p q then p ∷ q ∷ qs else q ∷ place_library p qs

-- SELECT l.id,l.name … ORDER BY l.name,l.id, for one invite
abbrev granted_libraries : Text → List (Text × Text) → List LibraryRow → List (Text × Text)
granted_libraries invite grants [] = []
granted_libraries invite grants (l ∷ ls) =
    if any (λ g. g.0 == invite && g.1 == l.id) grants
    then place_library (l.id, l.name) (granted_libraries invite grants ls)
    else granted_libraries invite grants ls

-- GET /v1/admin/invites
unfoldable pub list_invites : ℕ → Directory → List InviteItem
unfolding invite_status
list_invites now db =
    map
      (λ i. record {
        id = i.id;
        expires_at = i.expires_at;
        status = invite_status now i;
        libraries = granted_libraries i.id db.invite_libraries db.libraries;
      })
      (take 200 (by_expiry db.invites))
