-- ===== src/Http/Browser/Access.antt =====
-- When a request acts for a user.
use quire_server.Base.{
  ℕ, ◌≡◌, ◌≢◌, ◌⊎◌, inl, inr, true, false, not, ◌&&◌, Text, codes, ◌==◌, text_eq, nat_eq, eq_iff,
  has_prefix, trim_prefix, ok, arith, Bool-cases, Option-cases, Result-cases,
}
use quire_server.Auth.{Session, Accounts, Crypto, authenticate}
use quire_server.Http.{Request, granted}
use quire_server.Http.Browser.{
  seconds, cookie_name, browser_origin, cookie_session, cookie_user, authorized,
}

module _ (c : Crypto) (origin : Text) where
  -- A cookie's user is the one of a live session, which the client names; unless it only reads, the
  -- request comes from the server's own origin.
  pub record IsOwn (r : Request) (now : ℕ) (db : Accounts) (user : Text) : Type 0 where
    pub session : Session
    pub live : cookie_session c origin r now db ≡ ok (user, session)
    pub named : r.session ≡ session.id
    pub same_origin :
        ((r.method ≡ codes "GET") ⊎ (r.method ≡ codes "HEAD"))
        ⊎ ((origin ≢ codes "") × (r.origin ≡ origin))

  same_origin_of :
      (r : Request)
      → (not (r.method == codes "GET")
          && not (r.method == codes "HEAD")
          && not (browser_origin origin r))
        ≡ false
      → ((r.method ≡ codes "GET") ⊎ (r.method ≡ codes "HEAD"))
        ⊎ ((origin ≢ codes "") × (r.origin ≡ origin))
  unfolding browser_origin
  same_origin_of r h = elim (Bool-cases (r.method == codes "GET")) [
    | inl get ↦ inl (inl ((eq_iff r.method (codes "GET")).0 get))
    | inr other ↦ elim (Bool-cases (r.method == codes "HEAD")) [
      | inl head ↦ inl (inr ((eq_iff r.method (codes "HEAD")).0 head))
      | inr another ↦ inr (
        ground (arith, eq_iff origin (codes ""), eq_iff r.origin origin),
        ground (arith, eq_iff origin (codes ""), eq_iff r.origin origin),
      )
    ]
  ]

  cookie_user-IsOwn :
      (r : Request) (now : ℕ) (db : Accounts) (user : Text)
      → cookie_user c origin r now db ≡ granted user
      → IsOwn r now db user
  unfolding cookie_user
  cookie_user-IsOwn r now db user e = elim (Option-cases (r.cookie (cookie_name origin))) [
    | inl missing ↦ cc (rw (missing, cookie_user) at e)
    | inr (token, found) ↦
        let e₁ = rw (found, cookie_user) at e in
        elim (Bool-cases (
          not (r.method == codes "GET")
          && not (r.method == codes "HEAD")
          && not (browser_origin origin r))) [
            | inl foreign ↦ cc (simp foreign at e₁)
            | inr own ↦
                let e₂ = simp own at e₁ in
                elim (Result-cases (cookie_session c origin r now db)) [
                  | inr (d, failed) ↦ cc (simp failed at e₂)
                  | inl ((u, session), live) ↦
                      let e₃ = simp live at e₂ in
                      elim (Bool-cases (r.session == session.id)) [
                        | inr apart ↦ cc (simp apart at e₃)
                        | inl named ↦
                            let at : u ≡ user = cc (simp named at e₃) in
                            record {
                              session = session;
                              live = rw (← at) live;
                              named = (eq_iff r.session session.id).0 named;
                              same_origin = same_origin_of r own;
                            }
                      ]
                ]
          ]
  ]

  -- A request acts for a user only by a bearer token that authenticates as that user, or, without the
  -- header Authorization, by the cookie of a live session of that user. With the cookie, it also names
  -- the session, and unless its method is GET or HEAD, its origin is the server's own.
  pub authorized-IsOwn :
      (r : Request) (now : ℕ) (db : Accounts) (user : Text)
      → authorized c origin r now db ≡ granted user
      → ((has_prefix r.authorization (codes "Bearer ") ≡ true)
          × (authenticate c (trim_prefix r.authorization (codes "Bearer ")) (seconds now) db
              ≡ ok user))
        ⊎ ((r.authorization ≡ codes "") × IsOwn r now db user)
  unfolding authorized
  authorized-IsOwn r now db user e = elim (Bool-cases (r.authorization == codes "")) [
    | inl empty ↦ inr (
      (eq_iff r.authorization (codes "")).0 empty,
      cookie_user-IsOwn r now db user (simp empty at e),
    )
    | inr given ↦
        let e₁ = simp given at e in
        elim (Bool-cases (has_prefix r.authorization (codes "Bearer "))) [
          | inr other ↦ cc (simp other at e₁)
          | inl bearer ↦
              let e₂ = simp bearer at e₁ in
              elim (Result-cases
                (authenticate c (trim_prefix r.authorization (codes "Bearer ")) (seconds now) db)) [
                  | inr (d, failed) ↦ cc (simp failed at e₂)
                  | inl (u, auth) ↦
                      let at : u ≡ user = cc (simp auth at e₂) in inl (bearer, rw (← at) auth)
                ]
        ]
  ]
