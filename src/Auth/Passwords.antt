-- ===== src/Auth/Passwords.antt =====
-- What creating an account and resetting its password do.
use quire_server.Base.{
  ℕ, ◌≡◌, ◌≢◌, refl, sym, ap, subst, Bool, false, not, ◌&&◌, ◌||◌, Option, some, List, [], ◌∷◌,
  ◌++◌, Text, len, any, keep, ltb, ◌==◌, text_eq, nat_eq, eq_iff, eq_refl, if◌then◌else◌, insert,
  find, find-append, Table, Option-cases, ok, err, invalid, unauthorized, no_rows, constraint,
  reject, demand, demand-eq-ok, >>=-eq-ok, ok_unique, arith, Bool-cases, inl, inr,
}
use quire_server.Auth.{
  User, SessionRow, Accounts, Crypto, username_pattern, password_valid, enabled_user, with_password,
  id_of, insert_user, session_user, create_user, reset_password, verified, authenticate,
}

pub session_user-keep :
    (hash id v : Text) (now : ℕ) (us : List User) (ss : List SessionRow)
    → session_user hash now us (keep (λ s. not (s.user_id == id)) ss) ≡ some v
    → v ≢ id
unfolding session_user
session_user-keep hash id v now us [] h = cc
session_user-keep hash id v now us (s ∷ ss) h = elim (Bool-cases (s.user_id == id)) [
  | inl same ↦ session_user-keep hash id v now us ss (simp same at h)
  | inr other ↦
      let h' = simp other at h in
      let apart : s.user_id ≢ id = ground (arith, eq_iff s.user_id id) in
      elim (Bool-cases (
        s.token_hash == hash
        && ltb now s.expires_at
        && any (λ u. u.id == s.user_id && not u.disabled) us)) [
          | inl hit ↦ let own : s.user_id ≡ v = cc (simp hit at h') in subst (λ w. w ≢ id) own apart
          | inr miss ↦ session_user-keep hash id v now us ss (simp miss at h')
        ]
]

enabled_user-with_password :
    (name salt key : Text) (us : List User) (u : User)
    → enabled_user name us ≡ some u
    → enabled_user name (with_password name salt key us)
      ≡ some (record u { salt = salt; password_hash = key })
unfolding enabled_user with_password
enabled_user-with_password name salt key [] u h = cc
enabled_user-with_password name salt key (v ∷ us) u h = elim (Bool-cases (v.username == name)) [
  | inr other ↦ simp other (enabled_user-with_password name salt key us u (simp other at h))
  | inl same ↦ elim (Bool-cases v.disabled) [
    | inl off ↦
        simp (same, off) (enabled_user-with_password name salt key us u (simp (same, off) at h))
    | inr on ↦
        let v_eq : v ≡ u = cc (simp (same, on) at h) in
        let f : User → Option User = λ w. some (record w { salt = salt; password_hash = key }) in
        let f_eq : f v ≡ f u = ap f v_eq in ground (arith, f_eq)
  ]
]

enabled_user-append :
    (u : User) (us : List User)
    → any (λ v. v.id == u.id || v.username == u.username) us ≡ false
    → u.disabled ≡ false
    → enabled_user u.username (us ++ u ∷ []) ≡ some u
unfolding enabled_user
enabled_user-append u [] _ on = ground (arith, eq_refl u.username)
enabled_user-append u (v ∷ us) h on = ground (arith, enabled_user-append u us)

insert_user-eq-some :
    (u : User) (us users : List User)
    → insert_user u us ≡ some users
    → u.disabled ≡ false
    → enabled_user u.username users ≡ some u
unfolding insert_user
insert_user-eq-some u us users h on =
    elim (Bool-cases (any (λ v. v.id == u.id || v.username == u.username) us)) [
      | inl taken ↦ cc (simp taken at h)
      | inr fresh ↦
          let grown : us ++ u ∷ [] ≡ users = cc (simp fresh at h) in
          rw (← grown) (enabled_user-append u us fresh on)
    ]

find-insert : (k : Text) (n : ℕ) (t t' : Table Text ℕ) → insert k n t ≡ some t' → find k t' ≡ some n
unfolding insert
find-insert k n t t' h = elim (Option-cases (find k t)) [
  | inr (m, taken) ↦ cc (rw (taken, insert) at h)
  | inl fresh ↦
      let grown : t ++ (k, n) ∷ [] ≡ t' = cc (rw (fresh, insert) at h) in
      rw (← grown) (rw (find-append k k n t fresh) (simp (eq_refl k) refl))
]

module _ (c : Crypto) where
  reset_password-eq-ok :
      (username password salt : Text) (db db' : Accounts)
      → reset_password c username password salt db ≡ ok db'
      → (id : Text) × (id_of username db.users ≡ some id)
        × (record db {
          users = with_password username salt (c.password_key password salt) db.users;
          sessions = keep (λ s. not (s.user_id == id)) db.sessions;
        }
            ≡ db')
  unfolding reset_password
  reset_password-eq-ok username password salt db db' e =
      let (_, _, e₁) = >>=-eq-ok (reject (not (password_valid password)) invalid) _ e in
      let (found, k, e₂) = >>=-eq-ok (demand no_rows (id_of username db.users)) _ e₁ in
      (found, demand-eq-ok no_rows (id_of username db.users) found k, ok_unique _ refl e₂)

  -- A password reset ends every session of the account: no token authenticates as it any more.
  pub reset_password-authenticate :
      (username password salt id token v : Text) (now : ℕ) (db db' : Accounts)
      → id_of username db.users ≡ some id
      → reset_password c username password salt db ≡ ok db'
      → authenticate c token now db' ≡ ok v
      → v ≢ id
  unfolding authenticate
  reset_password-authenticate username password salt id token v now db db' known e auth =
      let (found, k, after) = reset_password-eq-ok username password salt db db' e in
      let (_, _, a) = >>=-eq-ok (reject (not (len token == 64)) unauthorized) _ auth in
      let at =
        demand-eq-ok unauthorized (session_user (c.sha256 token) now db'.users db'.sessions) v a in
      let same : found ≡ id = cc (k, known) in
      let cut : keep (λ s. not (s.user_id == found)) db.sessions ≡ db'.sessions =
        ap (λ d. d.sessions) after in
      subst (λ i. v ≢ i) same
        (session_user-keep (c.sha256 token) found v now db'.users db.sessions
          (subst (λ ss. session_user (c.sha256 token) now db'.users ss ≡ some v) (sym cut) at))

  -- After a reset the account takes exactly the passwords that have the new one's key under the new salt.
  pub reset_password-verified :
      (username password salt other : Text) (db db' : Accounts) (u : User)
      → enabled_user username db.users ≡ some u
      → reset_password c username password salt db ≡ ok db'
      → verified c other (enabled_user username db'.users) ≡ (
          if c.password_key other salt == c.password_key password salt
          then ok u.id
          else err unauthorized)
  unfolding verified
  reset_password-verified username password salt other db db' u found e =
      let (_, _, after) = reset_password-eq-ok username password salt db db' e in
      let key = c.password_key password salt in
      let changed = enabled_user-with_password username salt key db.users u found in
      subst
        (λ d.
          verified c other (enabled_user username d.users)
          ≡ (if c.password_key other salt == key then ok u.id else err unauthorized))
        after (rw (changed, verified) (ground arith))

  -- An account that was created can be entered by its name with its password, and its log is empty.
  pub create_user-verified :
      (username password salt id : Text) (db db' : Accounts)
      → create_user c username password salt id db ≡ ok db'
      → (verified c password (enabled_user username db'.users) ≡ ok id)
        × (find id db'.cursors ≡ some 0)
  unfolding create_user verified
  create_user-verified username password salt id db db' e =
      let bad : Bool = not (username_pattern username) || not (password_valid password) in
      let (_, _, e₁) = >>=-eq-ok (reject bad invalid) _ e in
      let row : User = record {
        id = id;
        username = username;
        salt = salt;
        password_hash = c.password_key password salt;
        admin = false;
        disabled = false;
      } in
      let (users, i, e₂) = >>=-eq-ok (demand constraint (insert_user row db.users)) _ e₁ in
      let (cursors, j, e₃) = >>=-eq-ok (demand constraint (insert id 0 db.cursors)) _ e₂ in
      let users_eq =
        insert_user-eq-some row db.users users (demand-eq-ok constraint _ users i) refl in
      let cursors_at = find-insert id 0 db.cursors cursors (demand-eq-ok constraint _ cursors j) in
      subst
        (λ d.
          (verified c password (enabled_user username d.users) ≡ ok id)
          × (find id d.cursors ≡ some 0))
        (ok_unique _ refl e₃)
        (rw (users_eq, verified) (simp (eq_refl (c.password_key password salt)) refl), cursors_at)
