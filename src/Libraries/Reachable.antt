-- ===== src/Libraries/Reachable.antt =====
-- What the accounts, the invites and the libraries come to from an empty database, by any sequence of the
-- operations that change them.
use quire_server.Base.{
  ℕ, ◌≡◌, refl, sym, ap, subst, Bool, not, ◌&&◌, ◌||◌, [], Text, any, ltb, ◌==◌, text_eq, nat_eq,
  trim_space, ok, invalid, no_rows, reject, >>=-eq-ok, ok_unique, Bool-cases, inl, inr,
  Option-cases,
}
use quire_server.Auth.{Accounts, Crypto, LoginResult, login, revoke, create_user, reset_password}
use quire_server.Auth.Sessions.{login-IsLogin}
use quire_server.Http.{Request, granted}
use quire_server.Admin.{
  Directory, Standing, admin, register, change_password, set_standing, person, end_sessions,
  promote, is_free,
}
use quire_server.Admin.Invites.{create_invite, revoke_invite}
use quire_server.Libraries.{
  Holdings, create_library, add_member, add_person, remove_member, grant_library, rename_library,
  delete_library, is_library, bad_name,
}
use quire_server.Libraries.Standings.{renamed-IsSound}
use quire_server.Libraries.Deletion.{delete_library-IsDeleted, without_library-IsSound}
use quire_server.Libraries.Steps.{
  IsSoundDirectory, admin-any, register-IsSound, change_password-IsSound, set_standing-IsSound,
  promote-IsSound, create_library-IsSound, create_user-IsSound, reset_password-IsSound,
}

-- One operation that succeeds. A change of somebody's standing has an administrator who asks for it.
pub data Step (c : Crypto) : Directory → Directory → Type 0 where
  registered :
      (username password code : Text) (setup : Bool) (salt id : Text) (now : ℕ) (db db' : Directory)
      → register c username password code setup salt id now db ≡ ok db'
      → Step c db db'
  changed_password :
      (id old new salt : Text) (db db' : Directory)
      → change_password c id old new salt db ≡ ok db'
      → Step c db db'
  stood :
      (origin : Text) (r : Request) (now : ℕ) (caller id : Text) (v : Standing) (db db' : Directory)
      → admin c origin r now db.accounts ≡ granted caller
      → set_standing id v db ≡ ok db'
      → Step c db db'
  ended : (id : Text) (db : Directory) → Step c db (end_sessions id db)
  promoted : (username : Text) (db db' : Directory) → promote username db ≡ ok db' → Step c db db'
  invited :
      (id hash : Text) (now : ℕ) (db db' : Directory)
      → create_invite id hash now db ≡ ok db'
      → Step c db db'
  uninvited : (id : Text) (db : Directory) → Step c db (revoke_invite id db)
  founded :
      (name id owner : Text) (db db' : Directory)
      → create_library name id owner db ≡ ok db'
      → Step c db db'
  joined :
      (library user : Text) (db db' : Directory)
      → add_member library user db ≡ ok db'
      → Step c db db'
  left : (library user : Text) (db : Directory) → Step c db (remove_member library user db)
  opened :
      (invite library : Text) (now : ℕ) (db db' : Directory)
      → grant_library invite library now db ≡ ok db'
      → Step c db db'
  named : (id name : Text) (db db' : Directory) → rename_library id name db ≡ ok db' → Step c db db'
  deleted :
      (id : Text) (h h' : Holdings) → delete_library id h ≡ ok h' → Step c h.directory h'.directory
  created :
      (username password salt id : Text) (db : Directory) (accounts : Accounts)
      → create_user c username password salt id db.accounts ≡ ok accounts
      → Step c db (record db { accounts = accounts })
  reset :
      (username password salt : Text) (db : Directory) (accounts : Accounts)
      → reset_password c username password salt db.accounts ≡ ok accounts
      → Step c db (record db { accounts = accounts })
  logged_in :
      (username password device token id : Text) (now : ℕ) (db : Directory) (accounts : Accounts)
      (out : LoginResult)
      → login c username password device token id now db.accounts ≡ ok (accounts, out)
      → Step c db (record db { accounts = accounts })
  signed_off :
      (user id : Text) (db : Directory) (accounts : Accounts)
      → revoke user id db.accounts ≡ ok accounts
      → Step c db (record db { accounts = accounts })

abbrev pub no_accounts : Accounts
no_accounts = record { users = []; sessions = []; cursors = [] }

abbrev pub empty_directory : Directory
empty_directory = record {
  accounts = no_accounts;
  invites = [];
  libraries = [];
  library_members = [];
  invite_libraries = [];
}

pub data IsReachable (c : Crypto) : Directory → Type 0 where
  at_start : IsReachable c empty_directory
  after : (db db' : Directory) → IsReachable c db → Step c db db' → IsReachable c db'

-- An operation that leaves the users and the libraries leaves them sound.
untouched :
    (db db' : Directory)
    → db'.accounts.users ≡ db.accounts.users
    → db'.libraries ≡ db.libraries
    → IsSoundDirectory db
    → IsSoundDirectory db'
untouched db db' u l s = rw (u, l) s

create_invite_lem :
    (id hash : Text) (now : ℕ) (db db' : Directory)
    → create_invite id hash now db ≡ ok db'
    → IsSoundDirectory db
    → IsSoundDirectory db'
unfolding create_invite
create_invite_lem id hash now db db' e s =
    elim (Bool-cases (any (λ i. i.id == id || i.code_hash == hash) db.invites)) [
      | inl taken ↦ cc (simp taken at e)
      | inr fresh ↦ subst IsSoundDirectory (ok_unique _ refl (simp fresh at e)) s
    ]

add_member_lem :
    (library user : Text) (db db' : Directory)
    → add_member library user db ≡ ok db'
    → IsSoundDirectory db
    → IsSoundDirectory db'
unfolding add_member
add_member_lem library user db db' e s = elim (Option-cases (person user db)) [
  | inl missing ↦
      let e' = subst (λ o. add_person library user o db ≡ ok db') missing e in
      subst IsSoundDirectory (ok_unique (ok db) refl e') s
  | inr (u, found) ↦
      let e' = subst (λ o. add_person library user o db ≡ ok db') found e in
      let (_, _, e₁) = >>=-eq-ok (reject (not (is_library library db.libraries)) invalid) _ e' in
      subst IsSoundDirectory (ok_unique _ refl e₁) s
]

grant_library_lem :
    (invite library : Text) (now : ℕ) (db db' : Directory)
    → grant_library invite library now db ≡ ok db'
    → IsSoundDirectory db
    → IsSoundDirectory db'
unfolding grant_library
grant_library_lem invite library now db db' e s =
    elim (Bool-cases (
      any (λ i. i.id == invite && is_free i.redeemed_by && not i.revoked && ltb now i.expires_at)
        db.invites)) [
          | inr shut ↦ subst IsSoundDirectory (ok_unique (ok db) refl (simp shut at e)) s
          | inl open_one ↦
              let (_, _, e₁) =
                >>=-eq-ok (reject (not (is_library library db.libraries)) invalid) _
                  (simp open_one at e) in
              subst IsSoundDirectory (ok_unique _ refl e₁) s
        ]

rename_library_lem :
    (id name : Text) (db db' : Directory)
    → rename_library id name db ≡ ok db'
    → IsSoundDirectory db
    → IsSoundDirectory db'
unfolding rename_library
rename_library_lem id name db db' e s =
    let (_, _, e₁) = >>=-eq-ok (reject (bad_name (trim_space name)) invalid) _ e in
    let (_, _, e₂) = >>=-eq-ok (reject (not (is_library id db.libraries)) no_rows) _ e₁ in
    subst IsSoundDirectory (ok_unique _ refl e₂)
      (renamed-IsSound id (trim_space name) db.accounts.users db.libraries s)

delete_library_sound :
    (id : Text) (h h' : Holdings)
    → delete_library id h ≡ ok h'
    → IsSoundDirectory h.directory
    → IsSoundDirectory h'.directory
delete_library_sound id h h' e s =
    let d = delete_library-IsDeleted id h h' e in
    rw d.stored (without_library-IsSound id d.owner h.directory d.found d.free s)

revoke-users :
    (user id : Text) (db db' : Accounts) → revoke user id db ≡ ok db' → db'.users ≡ db.users
unfolding revoke
revoke-users user id db db' e =
    elim (Bool-cases (any (λ s. s.user_id == user && s.id == id) db.sessions)) [
      | inl found ↦ sym (ap (λ d. d.users) (ok_unique _ refl (simp found at e)))
      | inr none_left ↦ cc (simp none_left at e)
    ]

module _ (c : Crypto) where
  pub Step-IsSound :
      {db db' : Directory} → Step c db db' → IsSoundDirectory db → IsSoundDirectory db'
  unfolding end_sessions revoke_invite remove_member
  Step-IsSound (registered n p code setup salt id now db db' e) =
      register-IsSound c n p code setup salt id now db db' e
  Step-IsSound (changed_password id old new salt db db' e) =
      change_password-IsSound c id old new salt db db' e
  Step-IsSound (stood origin r now caller id v db db' who e) =
      set_standing-IsSound id v db db' (admin-any c origin r now db.accounts caller who) e
  Step-IsSound (ended id db) = λ s. s
  Step-IsSound (promoted username db db' e) = promote-IsSound username db db' e
  Step-IsSound (invited id hash now db db' e) = create_invite_lem id hash now db db' e
  Step-IsSound (uninvited id db) = λ s. s
  Step-IsSound (founded name id owner db db' e) = create_library-IsSound name id owner db db' e
  Step-IsSound (joined library user db db' e) = add_member_lem library user db db' e
  Step-IsSound (left library user db) = λ s. s
  Step-IsSound (opened invite library now db db' e) = grant_library_lem invite library now db db' e
  Step-IsSound (named id name db db' e) = rename_library_lem id name db db' e
  Step-IsSound (deleted id h h' e) = delete_library_sound id h h' e
  Step-IsSound (created n p salt id db accounts e) =
      create_user-IsSound c n p salt id db.accounts accounts db.libraries e
  Step-IsSound (reset n p salt db accounts e) =
      reset_password-IsSound c n p salt db.accounts accounts db.libraries e
  Step-IsSound (logged_in n p device token id now db accounts out e) =
      let l = login-IsLogin c n p device token id now db.accounts accounts out e in
      untouched db (record db { accounts = accounts }) (ap (λ a. a.users) l.stored) refl
  Step-IsSound (signed_off user id db accounts e) =
      untouched db (record db { accounts = accounts }) (revoke-users user id db.accounts accounts e)
        refl

  -- In every state that is reached from an empty database, where there is an administrator one of them
  -- is not disabled, no two users share an id and no two libraries an owner, and every library's owner
  -- is an account that is disabled and no administrator.
  pub IsReachable-IsSound : {db : Directory} → IsReachable c db → IsSoundDirectory db
  IsReachable-IsSound at_start = record {
    led = λ h. h;
    ids = refl;
    owners = refl;
    all_owned = refl;
  }
  IsReachable-IsSound (after db db' r step) = Step-IsSound step (IsReachable-IsSound r)
