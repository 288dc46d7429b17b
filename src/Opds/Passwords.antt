-- ===== src/Opds/Passwords.antt =====
-- A password that was made lets its account in, until it is removed.
use quire_server.Base.{
  ℕ, ◌≤◌, ◌≡◌, refl, sym, ap, ◌∙◌, Bool, true, false, not, ◌&&◌, ◌||◌, none, some, List, [], ◌∷◌,
  ◌++◌, Text, len, any, ltb, leb, ◌==◌, text_eq, nat_eq, eq_refl, trim_space, ok, invalid, conflict,
  constraint, reject, demand, demand-eq-ok, >>=-eq-ok, ok_unique, arith, Bool-cases, inl, inr,
}
use quire_server.Auth.{User, Crypto}
use quire_server.Opds.{
  PasswordRow, OpdsPassword, password_user, count_of, remove_password, insert_password,
  add_password, basic_user,
}

missing_user :
    (name : Text) (us : List User) (p : PasswordRow) (ps : List PasswordRow)
    → any (λ q. q.id == p.id || q.digest == p.digest) ps ≡ false
    → password_user name p.digest us ps ≡ none
unfolding password_user
missing_user name us p [] _ = refl
missing_user name us p (q ∷ ps) h = ground (arith, missing_user name us p ps)

password_user-append :
    (name digest : Text) (us : List User) (ps : List PasswordRow) (p : PasswordRow)
    → password_user name digest us ps ≡ none
    → password_user name digest us (ps ++ p ∷ []) ≡ password_user name digest us (p ∷ [])
unfolding password_user
password_user-append name digest us [] p _ = refl
password_user-append name digest us (q ∷ ps) p h =
    ground (arith, password_user-append name digest us ps p)

removed :
    (name digest user id : Text) (us : List User) (ps : List PasswordRow)
    → password_user name digest us ps ≡ none
    → password_user name digest us (remove_password user id ps) ≡ none
unfolding password_user remove_password
removed name digest user id us [] _ = refl
removed name digest user id us (q ∷ ps) h = ground (arith, removed name digest user id us ps)

remove_password-append :
    (p : PasswordRow) (ps : List PasswordRow)
    → remove_password p.user_id p.id (ps ++ p ∷ []) ≡ remove_password p.user_id p.id ps
unfolding remove_password
remove_password-append p [] = ground (arith, eq_refl p.user_id, eq_refl p.id)
remove_password-append p (q ∷ ps) = ground (arith, remove_password-append p ps)

lets_in :
    (name digest : Text) (us : List User) (p : PasswordRow)
    → any (λ u. u.id == p.user_id && u.username == name && not u.disabled) us ≡ true
    → password_user name p.digest us (p ∷ []) ≡ some p.user_id
unfolding password_user
lets_in name digest us p enabled = ground (arith, eq_refl p.digest)

insert_password-eq-some :
    (p : PasswordRow) (ps rows : List PasswordRow)
    → insert_password p ps ≡ some rows
    → (any (λ q. q.id == p.id || q.digest == p.digest) ps ≡ false) × (rows ≡ ps ++ p ∷ [])
unfolding insert_password
insert_password-eq-some p ps rows h =
    elim (Bool-cases (any (λ q. q.id == p.id || q.digest == p.digest) ps)) [
      | inl taken ↦ cc (simp taken at h)
      | inr fresh ↦ (fresh, cc (simp fresh at h))
    ]

module _ (c : Crypto) where
  -- A password of at most 256 bytes that was made for an account lets in whoever gives it with the
  -- name, of at most 64 bytes, of the account, if that is enabled; once it is removed it lets in
  -- nobody, under any name.
  pub basic_user-add_password :
      (user name id password username other : Text) (now : ℕ) (us : List User)
      (ps rows : List PasswordRow) (out : OpdsPassword)
      → len password ≤ 256
      → len username ≤ 64
      → any (λ u. u.id == user && u.username == username && not u.disabled) us ≡ true
      → add_password c user name id password now ps ≡ ok (rows, out)
      → (basic_user c (some (username, password)) us rows ≡ some user)
        × (basic_user c (some (other, password)) us (remove_password user id rows) ≡ none)
  unfolding add_password basic_user
  basic_user-add_password user name id password username other now us ps rows out short named
        enabled e =
      let n = trim_space name in
      let row : PasswordRow = record {
        id = id;
        user_id = user;
        name = n;
        digest = c.sha256 password;
        created_at = now;
      } in
      let bad : Bool = len n == 0 || ltb 100 (len n) in
      let (_, _, e₁) = >>=-eq-ok (reject bad invalid) _ e in
      let (_, _, e₂) = >>=-eq-ok (reject (leb 50 (count_of user ps)) conflict) _ e₁ in
      let (rows', i, e₃) = >>=-eq-ok (demand constraint (insert_password row ps)) _ e₂ in
      let (fresh, grown) =
        insert_password-eq-some row ps rows'
          (demand-eq-ok constraint (insert_password row ps) rows' i) in
      let same : rows' ≡ rows = ap (λ p. p.0) (ok_unique _ refl e₃) in
      let rows_eq : rows ≡ ps ++ row ∷ [] = sym same ∙ grown in
      let missing = missing_user username us row ps fresh in
      let enters : password_user username (c.sha256 password) us (ps ++ row ∷ []) ≡ some user =
        password_user-append username (c.sha256 password) us ps row missing
        ∙ lets_in username (c.sha256 password) us row enabled in
      let locked : password_user other (c.sha256 password) us
            (remove_password user id (ps ++ row ∷ []))
          ≡ none =
        rw (remove_password-append row ps)
          (removed other (c.sha256 password) user id us ps (missing_user other us row ps fresh)) in
      let fits : leb (len password) 256 ≡ true = ground arith in
      let fits' : leb (len username) 64 ≡ true = ground arith in
      rw rows_eq (
        simp (fits, fits', enters) refl,
        elim (Bool-cases (leb (len other) 64)) [
          | inl short' ↦ simp (fits, short', locked) refl
          | inr long ↦ simp (fits, long) refl
        ],
      )
