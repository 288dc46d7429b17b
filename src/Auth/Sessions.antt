-- ===== src/Auth/Sessions.antt =====
-- What a login leaves, who a token authenticates, and what revoking it does.
use quire_server.Base.{
  ℕ, ◌+◌, ◌≤◌, ◌<◌, ◌≡◌, refl, sym, ap, ◌∙◌, subst, Bool, true, false, not, ◌&&◌, ◌||◌, Option,
  none, some, List, [], ◌∷◌, ◌++◌, Text, len, any, keep, ltb, leb, ◌==◌, text_eq, nat_eq, eq_iff,
  eq_refl, trim_space, ok, err, invalid, unauthorized, conflict, constraint, reject, reject-eq-ok,
  reject-not-eq-ok, demand, demand-eq-ok, >>=-eq-ok, ok_unique, arith, Bool-cases, inl, inr,
}
use quire_server.Auth.{
  User, SessionRow, LoginResult, Accounts, Crypto, enabled_user, insert_session, count_of,
  unexpired, session_user, session_seconds, session_of, revoke, verified, login, authenticate,
}
use quire_server.Auth.Rows.{
  insert_session-eq-some, count-append, count-unexpired, session_user_missing, session_user-append,
  enabled_user-any,
}

module _ (c : Crypto) where
  -- What a login that succeeds has checked, and the session that it adds.
  pub record IsLogin (username password token : Text) (now : ℕ) (db db' : Accounts)
      (r : LoginResult) : Type 0 where
    pub user : User
    pub found : enabled_user username db.users ≡ some user
    pub matches : c.password_key password user.salt ≡ user.password_hash
    pub row : SessionRow
    pub owner : row.user_id ≡ user.id
    pub hashed : row.token_hash ≡ c.sha256 token
    pub lasting : row.expires_at ≡ now + session_seconds
    pub result : r ≡ record { token = token; session = session_of row }
    pub room : count_of user.id (unexpired now db.sessions) < 32
    pub fresh :
        any (λ t. t.id == row.id || t.token_hash == row.token_hash) (unexpired now db.sessions)
        ≡ false
    pub stored : db' ≡ record db { sessions = unexpired now db.sessions ++ row ∷ [] }

  verified-eq-ok :
      (password id : Text) (o : Option User)
      → verified c password o ≡ ok id
      → (u : User) × (o ≡ some u) × (c.password_key password u.salt ≡ u.password_hash) × (u.id ≡ id)
  unfolding verified
  verified-eq-ok password id none h = cc
  verified-eq-ok password id (some u) h =
      let (_, m, e) =
        >>=-eq-ok (reject (not (c.password_key password u.salt == u.password_hash)) unauthorized) _
          h in
      let same =
        reject-not-eq-ok (c.password_key password u.salt == u.password_hash) unauthorized m in
      (
        u,
        refl,
        (eq_iff (c.password_key password u.salt) u.password_hash).0 same,
        ok_unique _ refl e,
      )

  pub login-IsLogin :
      (username password device token id : Text) (now : ℕ) (db db' : Accounts) (r : LoginResult)
      → login c username password device token id now db ≡ ok (db', r)
      → IsLogin username password token now db db' r
  unfolding login
  login-IsLogin username password device token id now db db' r e =
      let bad : Bool =
        ltb 1024 (len password)
        || ltb 64 (len username)
        || len (trim_space device) == 0
        || ltb 100 (len device) in
      let (_, _, e₁) = >>=-eq-ok (reject bad invalid) _ e in
      let (uid, v, e₂) = >>=-eq-ok (verified c password (enabled_user username db.users)) _ e₁ in
      let (u, found, matches, same) =
        verified-eq-ok password uid (enabled_user username db.users) v in
      let left = unexpired now db.sessions in
      let row : SessionRow = record {
        id = id;
        user_id = uid;
        token_hash = c.sha256 token;
        device_name = trim_space device;
        created_at = now;
        expires_at = now + session_seconds;
      } in
      let (_, w, e₃) = >>=-eq-ok (reject (leb 32 (count_of uid left)) conflict) _ e₂ in
      let (rows, i, e₄) = >>=-eq-ok (demand constraint (insert_session row left)) _ e₃ in
      let (fresh, rows_eq) =
        insert_session-eq-some row left rows
          (demand-eq-ok constraint (insert_session row left) rows i) in
      let full = reject-eq-ok (leb 32 (count_of uid left)) conflict w in
      let pair = ok_unique _ refl e₄ in
      let db_eq : record db { sessions = rows } ≡ db' = ap (λ p. p.0) pair in
      let stored : record db { sessions = left ++ row ∷ [] } ≡ db' =
        subst (λ rs. record db { sessions = rs } ≡ db') rows_eq db_eq in
      let room : count_of uid left < 32 = ground (arith, full) in
      record {
        user = u;
        found = found;
        matches = matches;
        row = row;
        owner = sym same;
        hashed = refl;
        lasting = refl;
        result = sym (ap (λ p. p.1) pair);
        room = rw same room;
        fresh = fresh;
        stored = sym stored;
      }

  -- The token of 64 bytes that a login gives authenticates as the enabled account whose name and
  -- password were sent, at every time before the session ends 30 days later.
  pub authenticate-login :
      (username password device token id : Text) (now later : ℕ) (db db' : Accounts)
      (r : LoginResult)
      → len token ≡ 64
      → later < now + session_seconds
      → login c username password device token id now db ≡ ok (db', r)
      → (u : User) × (enabled_user username db.users ≡ some u)
        × (c.password_key password u.salt ≡ u.password_hash)
        × (authenticate c token later db' ≡ ok u.id)
  unfolding authenticate session_user
  authenticate-login username password device token id now later db db' r size early e =
      let l = login-IsLogin username password device token id now db db' r e in
      let left = unexpired now db.sessions in
      let missed = session_user_missing l.row later db.users left l.fresh in
      let sized : (len token == 64) ≡ true = (eq_iff (len token) 64).1 size in
      let at : session_user l.row.token_hash later db.users (left ++ l.row ∷ [])
          ≡ some l.row.user_id =
        rw (session_user-append l.row.token_hash later db.users left l.row missed) (
          ground (
            arith,
            eq_refl l.row.token_hash,
            enabled_user-any username db.users l.user l.found,
            l.owner,
            l.lasting,
          )) in
      let at' : session_user (c.sha256 token) later db.users (left ++ l.row ∷ []) ≡ some l.user.id =
        subst (λ h. session_user h later db.users (left ++ l.row ∷ []) ≡ some l.user.id) l.hashed
          (rw (← l.owner) at) in
      (
        l.user,
        l.found,
        l.matches,
        subst (λ d. authenticate c token later d ≡ ok l.user.id) (sym l.stored)
            (simp (sized, at') refl),
      )

  -- Where no account has more than 32 sessions, none has after a login that succeeds.
  pub login-IsLimited :
      (username password device token id : Text) (now : ℕ) (db db' : Accounts) (r : LoginResult)
      → ((v : Text) → count_of v db.sessions ≤ 32)
      → login c username password device token id now db ≡ ok (db', r)
      → (v : Text) → count_of v db'.sessions ≤ 32
  login-IsLimited username password device token id now db db' r limited e v =
      let l = login-IsLogin username password device token id now db db' r e in
      let left = unexpired now db.sessions in
      let before : count_of v left ≤ 32 =
        omega (arith, count-unexpired v now db.sessions, limited v) in
      subst (λ d. count_of v d.sessions ≤ 32) (sym l.stored)
        (rw (count-append v l.row left) (elim (Bool-cases (l.row.user_id == v)) [
          | inl same ↦
              let at : l.user.id ≡ v = sym l.owner ∙ (eq_iff l.row.user_id v).0 same in
              simp same (omega (arith, subst (λ u. count_of u left < 32) at l.room))
          | inr other ↦ simp other before
        ]))

  missing_kept :
      (hash : Text) (now : ℕ) (us : List User) (hit : SessionRow → Bool) (ss : List SessionRow)
      → session_user hash now us ss ≡ none
      → session_user hash now us (keep hit ss) ≡ none
  unfolding session_user
  missing_kept hash now us hit [] h = h
  missing_kept hash now us hit (s ∷ ss) h = ground (arith, missing_kept hash now us hit ss)

  keep-append :
      (hit : SessionRow → Bool) (ss : List SessionRow) (s : SessionRow)
      → hit s ≡ false
      → keep hit (ss ++ s ∷ []) ≡ keep hit ss
  keep-append hit [] s h = simp h refl
  keep-append hit (t ∷ ss) s h = ground (arith, keep-append hit ss s h)

  revoked_row :
      (row : SessionRow) (left : List SessionRow) (later : ℕ) (db db' : Accounts)
      → any (λ t. t.id == row.id || t.token_hash == row.token_hash) left ≡ false
      → db.sessions ≡ left ++ row ∷ []
      → revoke row.user_id row.id db ≡ ok db'
      → session_user row.token_hash later db'.users db'.sessions ≡ none
  unfolding revoke
  revoked_row row left later db db' fresh stored e =
      let hit : SessionRow → Bool = λ s. s.user_id == row.user_id && s.id == row.id in
      let own : not (hit row) ≡ false = ground (arith, eq_refl row.user_id, eq_refl row.id) in
      let cut : keep (λ s. not (hit s)) db.sessions ≡ keep (λ s. not (hit s)) left =
        rw stored (keep-append (λ s. not (hit s)) left row own) in
      elim (Bool-cases (any hit db.sessions)) [
        | inr none_left ↦ cc (simp none_left at e)
        | inl found ↦
            let after : record db { sessions = keep (λ s. not (hit s)) db.sessions } ≡ db' =
              ok_unique _ refl (simp found at e) in
            subst (λ d. session_user row.token_hash later d.users d.sessions ≡ none) after
              (rw cut (
                missing_kept row.token_hash later db.users (λ s. not (hit s)) left
                  (session_user_missing row later db.users left fresh)))
      ]

  -- A login's session that its account then revokes is over at once: its token authenticates
  -- nobody at any time.
  pub revoke-login :
      (username password device token id : Text) (now later : ℕ) (db db' db'' : Accounts)
      (r : LoginResult) (u : User)
      → enabled_user username db.users ≡ some u
      → login c username password device token id now db ≡ ok (db', r)
      → revoke u.id r.session.id db' ≡ ok db''
      → authenticate c token later db'' ≡ err unauthorized
  unfolding authenticate
  revoke-login username password device token id now later db db' db'' r u found e gone =
      let l = login-IsLogin username password device token id now db db' r e in
      let here : r.session.id ≡ l.row.id = ap (λ x. x.session.id) l.result in
      let mine : l.user ≡ u = cc (l.found, found) in
      let owner : u.id ≡ l.row.user_id = sym (l.owner ∙ ap (λ x. x.id) mine) in
      let gone' : revoke l.row.user_id l.row.id db' ≡ ok db'' =
        subst (λ i. revoke i l.row.id db' ≡ ok db'') owner
          (subst (λ i. revoke u.id i db' ≡ ok db'') here gone) in
      let missing =
        revoked_row l.row (unexpired now db.sessions) later db' db'' l.fresh
          (ap (λ d. d.sessions) l.stored) gone' in
      let missing' : session_user (c.sha256 token) later db''.users db''.sessions ≡ none =
        subst (λ h. session_user h later db''.users db''.sessions ≡ none) l.hashed missing in
      elim (Bool-cases (len token == 64)) [
        | inl sized ↦ simp (sized, missing') refl
        | inr other ↦ simp other refl
      ]
