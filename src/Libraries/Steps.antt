-- ===== src/Libraries/Steps.antt =====
-- Each operation on the accounts, the invites and the libraries keeps the tables sound.
use mathlib.Core.Option
use quire_server.Base.{
  ℕ, ◌≡◌, refl, sym, ap, subst, Bool, true, false, not, ◌&&◌, ◌||◌, some, List, [], ◌∷◌, ◌++◌, map,
  codes, Text, len, any, keep, length, ltb, ◌==◌, text_eq, nat_eq, eq_iff, insert, if◌then◌else◌,
  trim_space, ok, invalid, conflict, constraint, unauthorized, no_rows, reject, demand,
  demand-eq-ok, reject-eq-ok, reject-not-eq-ok, >>=-eq-ok, ok_unique, arith, Bool-cases, inl, inr,
  Option-cases,
}
use quire_server.Auth.{
  User, Accounts, Crypto, create_user, reset_password, insert_user, username_pattern,
  password_valid, id_of,
}
use quire_server.Http.{Request, Reply, granted, denied}
use quire_server.Http.Browser.{authorized}
use quire_server.Admin.{
  Directory, LibraryRow, Standing, admin, admin_of, admitted, user_info, user_row, is_owner, others,
  register, redeem, needs_setup, change_password, set_standing, person, end_sessions, promote,
  promotable, promoted, enabled_row, joined_members, invite_id, is_open, info_of,
}
use quire_server.Libraries.{create_library, insert_library, bad_name}
use quire_server.Libraries.Soundness.{IsSound, insert_user-IsSound, insert_user-owned}
use quire_server.Libraries.Updates.{same_standing-IsSound, update_user-map, with_password-map}
use quire_server.Libraries.Standings.{restood-IsSound, insert_library-IsSound, promoted-IsSound}

abbrev pub IsSoundDirectory : Directory → Type 0
IsSoundDirectory db = IsSound db.accounts.users db.libraries

redeem-libraries :
    (user hash : Text) (now : ℕ) (db db' : Directory)
    → redeem user hash now db ≡ ok db'
    → db'.libraries ≡ db.libraries
unfolding redeem
redeem-libraries user hash now db db' e =
    let (_, _, e₁) =
      >>=-eq-ok (reject (not (length (keep (is_open hash now) db.invites) == 1)) invalid) _ e in
    let (members, _, e₂) = >>=-eq-ok (joined_members user (invite_id hash db.invites) db) _ e₁ in
    sym (ap (λ d. d.libraries) (ok_unique _ refl e₂))

user_row-any :
    (id : Text) (us : List User) (u : User)
    → user_row id us ≡ some u
    → u.admin ≡ true
    → any (λ w. w.admin) us ≡ true
unfolding user_row
user_row-any id [] u h a = cc
user_row-any id (w ∷ us) u h a = elim (Bool-cases (w.id == id)) [
  | inl same ↦ let here : w ≡ u = cc (simp same at h) in rw (here, a) refl
  | inr other ↦ ground (arith, user_row-any id us u (simp other at h) a)
]

admin_of-any :
    (who : Reply Text) (us : List User) (id : Text)
    → admin_of who us ≡ granted id
    → any (λ u. u.admin) us ≡ true
unfolding admin_of user_info
admin_of-any (denied status) us id e = cc
admin_of-any (granted user) us id e = elim (Option-cases (user_row user us)) [
  | inl missing ↦ cc (subst (λ o. admitted user (Option.map info_of o) ≡ granted id) missing e)
  | inr (u, found) ↦
      let e' = subst (λ o. admitted user (Option.map info_of o) ≡ granted id) found e in
      elim (Bool-cases u.admin) [
        | inl high ↦ user_row-any user us u found high
        | inr low ↦ cc (simp low at e')
      ]
]

-- Only where there is an administrator is a request one's.
pub admin-any :
    (c : Crypto) (origin : Text) (r : Request) (now : ℕ) (accounts : Accounts) (id : Text)
    → admin c origin r now accounts ≡ granted id
    → any (λ u. u.admin) accounts.users ≡ true
unfolding admin
admin-any c origin r now accounts id e =
    admin_of-any (authorized c origin r now accounts) accounts.users id e

promoted-map :
    (username : Text) (db : Directory) (us : List User)
    → promoted username db us
      ≡ map
          (λ u. if promotable username db u then record u { admin = true; disabled = false } else u)
          us
promoted-map username db [] = refl
promoted-map username db (u ∷ us) =
    ap
      (λ rest.
        (if promotable username db u then record u { admin = true; disabled = false } else u)
        ∷ rest)
      (promoted-map username db us)

some_kept : (p : User → Bool) (us : List User) → length (keep p us) ≡ 1 → any p us ≡ true
some_kept p [] h = cc
some_kept p (u ∷ us) h = ground (arith, some_kept p us)

pub set_standing-IsSound :
    (id : Text) (v : Standing) (db db' : Directory)
    → any (λ u. u.admin) db.accounts.users ≡ true
    → set_standing id v db ≡ ok db'
    → IsSoundDirectory db
    → IsSoundDirectory db'
unfolding set_standing end_sessions person
set_standing-IsSound id v db db' some_admin e s =
    let (u, f, e₁) = >>=-eq-ok (demand no_rows (person id db)) _ e in
    let dropped : Bool =
      u.admin && (not v.admin || v.disabled) && others id db.accounts.users == 0 in
    let (_, g, e₂) = >>=-eq-ok (reject dropped conflict) _ e₁ in
    let found = demand-eq-ok no_rows (person id db) u f in
    elim (Bool-cases (is_owner id db.libraries)) [
      | inl taken ↦ cc (simp taken at found)
      | inr free ↦ subst IsSoundDirectory (ok_unique _ refl e₂) (
          rw
            (update_user-map id (λ u. record u { admin = v.admin; disabled = v.disabled })
              db.accounts.users)
            (restood-IsSound id v db.accounts.users db.libraries u some_admin free
              (simp free at found) (reject-eq-ok dropped conflict g) s))
    ]

pub promote-IsSound :
    (username : Text) (db db' : Directory)
    → promote username db ≡ ok db'
    → IsSoundDirectory db
    → IsSoundDirectory db'
unfolding promote
promote-IsSound username db db' e s =
    let p = promotable username db in
    let us = db.accounts.users in
    let (_, g, e₁) = >>=-eq-ok (reject (not (length (keep p us) == 1)) no_rows) _ e in
    let one : length (keep p us) ≡ 1 =
      (eq_iff (length (keep p us)) 1).0 (reject-not-eq-ok (length (keep p us) == 1) no_rows g) in
    subst IsSoundDirectory (ok_unique _ refl e₁) (
      rw (promoted-map username db us)
        (promoted-IsSound p us db.libraries (λ u h. ground (arith, h)) (some_kept p us one) s))

module _ (c : Crypto) where
  pub register-IsSound :
      (username password code : Text) (setup : Bool) (salt id : Text) (now : ℕ) (db db' : Directory)
      → register c username password code setup salt id now db ≡ ok db'
      → IsSoundDirectory db
      → IsSoundDirectory db'
  unfolding register
  register-IsSound username password code setup salt id now db db' e s =
      let row : User = record {
        id = id;
        username = username;
        salt = salt;
        password_hash = c.password_key password salt;
        admin = setup;
        disabled = false;
      } in
      let bad : Bool = not (username_pattern username) || not (password_valid password) in
      let (_, _, e₁) = >>=-eq-ok (reject bad invalid) _ e in
      let (_, _, e₂) =
        >>=-eq-ok (reject (setup && not (needs_setup db.accounts.users)) conflict) _ e₁ in
      let (us, i, e₃) = >>=-eq-ok (demand conflict (insert_user row db.accounts.users)) _ e₂ in
      let (mid, m, e₄) =
        >>=-eq-ok (if setup then ok db else redeem id (c.sha256 code) now db) _ e₃ in
      let (cursors, _, e₅) = >>=-eq-ok (demand constraint (insert id 0 db.accounts.cursors)) _ e₄ in
      let same : mid.libraries ≡ db.libraries = elim (Bool-cases setup) [
        | inl first ↦ sym (ap (λ d. d.libraries) (ok_unique (ok db) refl (simp first at m)))
        | inr later ↦ redeem-libraries id (c.sha256 code) now db mid (simp later at m)
      ] in
      let grown =
        insert_user-IsSound row db.accounts.users us db.libraries (ground arith)
          (demand-eq-ok conflict (insert_user row db.accounts.users) us i) s in
      subst IsSoundDirectory (ok_unique _ refl e₅) (subst (λ ls. IsSound us ls) (sym same) grown)

  pub create_user-IsSound :
      (username password salt id : Text) (db : Accounts) (db' : Accounts) (ls : List LibraryRow)
      → create_user c username password salt id db ≡ ok db'
      → IsSound db.users ls
      → IsSound db'.users ls
  unfolding create_user
  create_user-IsSound username password salt id db db' ls e s =
      let row : User = record {
        id = id;
        username = username;
        salt = salt;
        password_hash = c.password_key password salt;
        admin = false;
        disabled = false;
      } in
      let bad : Bool = not (username_pattern username) || not (password_valid password) in
      let (_, _, e₁) = >>=-eq-ok (reject bad invalid) _ e in
      let (us, i, e₂) = >>=-eq-ok (demand constraint (insert_user row db.users)) _ e₁ in
      let (cursors, _, e₃) = >>=-eq-ok (demand constraint (insert id 0 db.cursors)) _ e₂ in
      subst (λ d. IsSound d.users ls) (ok_unique _ refl e₃)
        (insert_user-IsSound row db.users us ls refl
          (demand-eq-ok constraint (insert_user row db.users) us i) s)

  pub reset_password-IsSound :
      (username password salt : Text) (db db' : Accounts) (ls : List LibraryRow)
      → reset_password c username password salt db ≡ ok db'
      → IsSound db.users ls
      → IsSound db'.users ls
  unfolding reset_password
  reset_password-IsSound username password salt db db' ls e s =
      let (_, _, e₁) = >>=-eq-ok (reject (not (password_valid password)) invalid) _ e in
      let (id, _, e₂) = >>=-eq-ok (demand no_rows (id_of username db.users)) _ e₁ in
      subst (λ d. IsSound d.users ls) (ok_unique _ refl e₂)
        (rw (with_password-map username salt (c.password_key password salt) db.users) (
          same_standing-IsSound _ db.users ls
            (λ u. elim (Bool-cases (u.username == username)) [
              | inl same ↦ simp same (refl, refl, refl)
              | inr other ↦ simp other (refl, refl, refl)
            ])
            s))

  pub change_password-IsSound :
      (id old new salt : Text) (db db' : Directory)
      → change_password c id old new salt db ≡ ok db'
      → IsSoundDirectory db
      → IsSoundDirectory db'
  unfolding change_password end_sessions
  change_password-IsSound id old new salt db db' e s =
      let bad : Bool = not (password_valid new) || ltb 1024 (len old) in
      let (_, _, e₁) = >>=-eq-ok (reject bad invalid) _ e in
      let (u, _, e₂) = >>=-eq-ok (demand no_rows (enabled_row id db.accounts.users)) _ e₁ in
      let (_, _, e₃) =
        >>=-eq-ok (reject (not (c.password_key old u.salt == u.password_hash)) unauthorized) _ e₂ in
      subst IsSoundDirectory (ok_unique _ refl e₃) (
        rw
          (update_user-map id
            (λ u. record u { salt = salt; password_hash = c.password_key new salt })
            db.accounts.users)
          (same_standing-IsSound _ db.accounts.users db.libraries
            (λ u. elim (Bool-cases (u.id == id)) [
              | inl same ↦ simp same (refl, refl, refl)
              | inr other ↦ simp other (refl, refl, refl)
            ])
            s))

pub create_library-IsSound :
    (name id owner : Text) (db db' : Directory)
    → create_library name id owner db ≡ ok db'
    → IsSoundDirectory db
    → IsSoundDirectory db'
unfolding create_library
create_library-IsSound name id owner db db' e s =
    let row : User = record {
      id = owner;
      username = codes "library." ++ id;
      salt = [];
      password_hash = [];
      admin = false;
      disabled = true;
    } in
    let l : LibraryRow = record { id = id; name = trim_space name; owner = owner } in
    let (_, _, e₁) = >>=-eq-ok (reject (bad_name (trim_space name)) invalid) _ e in
    let (us, i, e₂) = >>=-eq-ok (demand constraint (insert_user row db.accounts.users)) _ e₁ in
    let (cursors, _, e₃) =
      >>=-eq-ok (demand constraint (insert owner 0 db.accounts.cursors)) _ e₂ in
    let (ls, j, e₄) = >>=-eq-ok (demand constraint (insert_library l db.libraries)) _ e₃ in
    let stored = demand-eq-ok constraint (insert_user row db.accounts.users) us i in
    let grown = insert_user-IsSound row db.accounts.users us db.libraries refl stored s in
    subst IsSoundDirectory (ok_unique _ refl e₄) (
      insert_library-IsSound l us db.libraries ls
        (insert_user-owned row db.accounts.users us l stored refl refl)
        (demand-eq-ok constraint (insert_library l db.libraries) ls j) grown)
