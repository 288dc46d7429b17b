-- ===== src/Admin/Endings.antt =====
-- The sessions that the changes of an account end.
use quire_server.Base.{
  ℕ, ◌≡◌, ◌≢◌, refl, sym, ap, subst, Bool, not, ◌&&◌, ◌||◌, some, Text, len, keep, ltb, ◌==◌,
  text_eq, nat_eq, eq_iff, ok, invalid, unauthorized, conflict, no_rows, reject, demand,
  demand-eq-ok, reject-not-eq-ok, >>=-eq-ok, ok_unique,
}
use quire_server.Auth.{User, Accounts, Crypto, password_valid, session_user, authenticate}
use quire_server.Auth.Passwords.{session_user-keep}
use quire_server.Admin.{
  Directory, Standing, change_password, set_standing, person, others, enabled_row, end_sessions,
}

module _ (c : Crypto) where
  ended-authenticate :
      (id token v : Text) (now : ℕ) (db db' : Accounts)
      → keep (λ s. not (s.user_id == id)) db.sessions ≡ db'.sessions
      → authenticate c token now db' ≡ ok v
      → v ≢ id
  unfolding authenticate
  ended-authenticate id token v now db db' cut auth =
      let (_, _, a) = >>=-eq-ok (reject (not (len token == 64)) unauthorized) _ auth in
      let at =
        demand-eq-ok unauthorized (session_user (c.sha256 token) now db'.users db'.sessions) v a in
      session_user-keep (c.sha256 token) id v now db'.users db.sessions
        (subst (λ ss. session_user (c.sha256 token) now db'.users ss ≡ some v) (sym cut) at)

  -- A password is changed only by one whose key is the stored one, and no token authenticates as the
  -- account after the change.
  pub change_password-authenticate :
      (id old new salt token v : Text) (now : ℕ) (db db' : Directory)
      → change_password c id old new salt db ≡ ok db'
      → ((u : User) × (enabled_row id db.accounts.users ≡ some u)
          × (c.password_key old u.salt ≡ u.password_hash))
        × (authenticate c token now db'.accounts ≡ ok v → v ≢ id)
  unfolding change_password end_sessions
  change_password-authenticate id old new salt token v now db db' e =
      let bad : Bool = not (password_valid new) || ltb 1024 (len old) in
      let (_, _, e₁) = >>=-eq-ok (reject bad invalid) _ e in
      let (u, f, e₂) = >>=-eq-ok (demand no_rows (enabled_row id db.accounts.users)) _ e₁ in
      let (_, m, e₃) =
        >>=-eq-ok (reject (not (c.password_key old u.salt == u.password_hash)) unauthorized) _ e₂ in
      let d = ok_unique _ refl e₃ in
      (
        (
          u,
          demand-eq-ok no_rows (enabled_row id db.accounts.users) u f,
          (eq_iff (c.password_key old u.salt) u.password_hash).0
              (reject-not-eq-ok (c.password_key old u.salt == u.password_hash) unauthorized m),
        ),
        ended-authenticate id token v now db.accounts db'.accounts
            (ap (λ x. x.accounts.sessions) d),
      )

  -- After a change of its standing no token authenticates as an account.
  pub set_standing-authenticate :
      (id token w : Text) (v : Standing) (now : ℕ) (db db' : Directory)
      → set_standing id v db ≡ ok db'
      → authenticate c token now db'.accounts ≡ ok w
      → w ≢ id
  unfolding set_standing end_sessions
  set_standing-authenticate id token w v now db db' e =
      let (u, _, e₁) = >>=-eq-ok (demand no_rows (person id db)) _ e in
      let dropped : Bool =
        u.admin && (not v.admin || v.disabled) && others id db.accounts.users == 0 in
      let (_, _, e₂) = >>=-eq-ok (reject dropped conflict) _ e₁ in
      ended-authenticate id token w now db.accounts db'.accounts
        (ap (λ x. x.accounts.sessions) (ok_unique _ refl e₂))
