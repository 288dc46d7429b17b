-- ===== src/Http/Browser/Routes.antt =====
-- What the routes of the browser's session do.
use quire_server.Base.{
  ℕ, ◌≡◌, ◌≢◌, refl, subst, Bool, true, false, not, ◌&&◌, some, List, [], ◌∷◌, Text, any, keep,
  ◌==◌, text_eq, nat_eq, eq_iff, Error, invalid, unauthorized, conflict, no_rows, too_large,
  watched, decoding, constraint, panics, ok, demand, demand-eq-ok, >>=-eq-ok, ok_unique, arith,
  Bool-cases, Result-cases, inl, inr,
}
use quire_server.Auth.{SessionRow, Session, Accounts, Crypto, session_of, authenticate, revoke}
use quire_server.Http.{Request, failure_status}
use quire_server.Http.Browser.{
  seconds, cookie_name, browser_origin, session_row, cookie_session, replace_session,
  delete_session, is_unauthorized,
}

abbrev pub has_session : Text → Text → List SessionRow → Bool
has_session user id ss = any (λ s. s.user_id == user && s.id == id) ss

has-session_row :
    (hash user : Text) (ss : List SessionRow) (s : Session)
    → session_row hash user ss ≡ some s
    → has_session user s.id ss ≡ true
unfolding session_row
has-session_row hash user [] s h = cc
has-session_row hash user (t ∷ ss) s h =
    elim (Bool-cases (t.token_hash == hash && t.user_id == user)) [
      | inl found ↦
          let t_eq : session_of t ≡ s = cc (simp found at h) in
          rw (← t_eq) (ground (arith, eq_iff t.user_id user, eq_iff t.id t.id))
      | inr other ↦ ground (arith, has-session_row hash user ss s (simp other at h))
    ]

has-keep :
    (user id : Text) (ss : List SessionRow)
    → has_session user id (keep (λ s. not (s.user_id == user && s.id == id)) ss) ≡ false
has-keep user id [] = refl
has-keep user id (s ∷ ss) = ground (arith, has-keep user id ss)

revoke_found :
    (user id : Text) (db : Accounts)
    → has_session user id db.sessions ≡ true
    → (db' : Accounts) × (revoke user id db ≡ ok db') × (has_session user id db'.sessions ≡ false)
unfolding revoke
revoke_found user id db h = (
  record db { sessions = keep (λ s. not (s.user_id == user && s.id == id)) db.sessions },
  simp h refl,
  has-keep user id db.sessions,
)

failure_status_lem : (e : Error) → (failure_status e ≢ 201) × (failure_status e ≢ 204)
unfolding failure_status
failure_status_lem invalid = omega arith
failure_status_lem unauthorized = omega arith
failure_status_lem conflict = omega arith
failure_status_lem no_rows = omega arith
failure_status_lem too_large = omega arith
failure_status_lem watched = omega arith
failure_status_lem decoding = omega arith
failure_status_lem constraint = omega arith
failure_status_lem panics = omega arith

module _ (c : Crypto) (origin : Text) where
  cookie_session-has_session :
      (r : Request) (now : ℕ) (db : Accounts) (user : Text) (s : Session)
      → cookie_session c origin r now db ≡ ok (user, s)
      → has_session user s.id db.sessions ≡ true
  unfolding cookie_session
  cookie_session-has_session r now db user s e =
      let (token, _, e₁) = >>=-eq-ok (demand unauthorized (r.cookie (cookie_name origin))) _ e in
      let (u, _, e₂) = >>=-eq-ok (authenticate c token (seconds now) db) _ e₁ in
      let (t, d, e₃) =
        >>=-eq-ok (demand no_rows (session_row (c.sha256 token) u db.sessions)) _ e₂ in
      let same = ok_unique _ refl e₃ in
      let row = demand-eq-ok no_rows (session_row (c.sha256 token) u db.sessions) t d in
      subst (λ p. has_session p.0 p.1.id db.sessions ≡ true) same
        (has-session_row (c.sha256 token) u db.sessions t row)

  -- Logging in with a browser ends the session that its cookie still named.
  pub replace_session-cookie_session :
      (r : Request) (now : ℕ) (db : Accounts) (user : Text) (old : Session)
      → cookie_session c origin r now db ≡ ok (user, old)
      → has_session user old.id (replace_session c origin r now db).sessions ≡ false
  unfolding replace_session
  replace_session-cookie_session r now db user old e =
      let (db', done, gone) =
        revoke_found user old.id db (cookie_session-has_session r now db user old e) in
      rw (e, replace_session) (rw (done) gone)

  -- DELETE on the browser's session answers 204 only to a request from the server's own origin; where
  -- the cookie has a live session, that session is the one that the client named, and it is over.
  pub delete_session-cookie_session :
      (r : Request) (now : ℕ) (db : Accounts) (user : Text) (s : Session)
      → cookie_session c origin r now db ≡ ok (user, s)
      → (delete_session c origin r now db).1.status ≡ 204
      → (browser_origin origin r ≡ true)
        × (r.session ≡ s.id)
        × (has_session user s.id (delete_session c origin r now db).0.sessions ≡ false)
  unfolding delete_session
  delete_session-cookie_session r now db user s e h = elim (Bool-cases (browser_origin origin r)) [
    | inr foreign ↦
        let h' = simp foreign at h in let never : ⊥ = omega (arith, h') in elim never [ ]
    | inl own ↦
        let h₁ = simp (own, e) at h in
        elim (Bool-cases (r.session == s.id)) [
          | inr apart ↦
              let h' = simp apart at h₁ in let never : ⊥ = omega (arith, h') in elim never [ ]
          | inl named ↦
              let (db', done, gone) =
                revoke_found user s.id db (cookie_session-has_session r now db user s e) in
              simp (own, e, named, done) (refl, (eq_iff r.session s.id).0 named, gone)
        ]
  ]

  -- Any other answer of DELETE leaves the accounts as they are.
  pub delete_session_kept :
      (r : Request) (now : ℕ) (db : Accounts)
      → (delete_session c origin r now db).1.status ≢ 204
      → (delete_session c origin r now db).0 ≡ db
  unfolding delete_session
  delete_session_kept r now db h = elim (Bool-cases (browser_origin origin r)) [
    | inr foreign ↦ simp foreign refl
    | inl own ↦ elim (Result-cases (cookie_session c origin r now db)) [
      | inr (d, failed) ↦ elim (Bool-cases (is_unauthorized c origin d)) [
        | inl out ↦ simp (own, failed, out) refl
        | inr other ↦ simp (own, failed, other) refl
      ]
      | inl ((user, s), live) ↦ elim (Bool-cases (r.session == s.id)) [
        | inr apart ↦ simp (own, live, apart) refl
        | inl named ↦ elim (Result-cases (revoke user s.id db)) [
          | inr (d, failed) ↦ simp (own, live, named, failed) refl
          | inl (db', done) ↦ let h' = simp (own, live, named, done) at h in elim (h' refl) [ ]
        ]
      ]
    ]
  ]
