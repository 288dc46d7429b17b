-- ===== src/Oauth/Reachable.antt =====
-- The pending connections that the three handlers can reach, and whose they are.
use quire_server.Base.{
  ℕ, suc, ◌≤◌, ◌≡◌, inl, inr, refl, ap, subst, Bool, true, not, ◌||◌, Option, none, some, [], ◌∷◌,
  Text, length, length-keep-le, ltb, ◌==◌, text_eq, nat_eq, eq_iff, find, upsert, Result, ok, err,
  unauthorized, demand, reject, reject-eq-ok, >>=-eq-ok, ok_unique, arith, Bool-cases, Option-cases,
  Result-cases,
}
use quire_server.Auth.{Session}
use quire_server.Http.{Reply, denied, granted}
use quire_server.Oauth.{
  OauthConfig, OauthPending, Pendings, CallbackQuery, without, consume, swept, new_pending, start,
  callback_bad, answered, callback, take_pending,
}

-- One request at one of the three handlers.
pub data Step : Pendings → Pendings → Type 0 where
  started :
      (config : OauthConfig) (who : Reply Text) (cookie : Result (Text × Session))
      (state nonce verifier : Text) (now : ℕ) (t : Pendings)
      → Step t (start config who cookie state nonce verifier now t).0
  called_back :
      (q : CallbackQuery) (cookie : Option Text) (now : ℕ) (t : Pendings)
      → Step t (callback q cookie now t).0
  finished :
      (who : Reply Text) (cookie : Result (Text × Session)) (state : Reply Text) (now : ℕ)
      (t : Pendings)
      → Step t (take_pending who cookie state now t).0

-- What the server comes to from its start, when nothing is pending.
pub data IsReachable : Pendings → Type 0 where
  at_start : IsReachable []
  after : (t u : Pendings) → IsReachable t → Step t u → IsReachable u

length-upsert :
    (k : Text) (p : OauthPending) (t : Pendings) → length (upsert k p t) ≤ suc (length t)
unfolding upsert
length-upsert k p [] = omega arith
length-upsert k p ((j, q) ∷ t) = ground (arith, length-upsert k p t)

length-upsert-found :
    (k : Text) (p q : OauthPending) (t : Pendings)
    → find k t ≡ some q
    → length (upsert k p t) ≡ length t
unfolding upsert find
length-upsert-found k p q [] h = cc
length-upsert-found k p q ((j, r) ∷ t) h = elim (Bool-cases (j == k)) [
  | inl same ↦ simp same refl
  | inr other ↦ simp other (ap (λ n. suc n) (length-upsert-found k p q t (simp other at h)))
]

start-le :
    (config : OauthConfig) (who : Reply Text) (cookie : Result (Text × Session))
    (state nonce verifier : Text) (now : ℕ) (t : Pendings)
    → length t ≤ 1024
    → length (start config who cookie state nonce verifier now t).0 ≤ 1024
unfolding start swept
start-le config (denied s) cookie state nonce verifier now t h = h
start-le config (granted u) (err e) state nonce verifier now t h = h
start-le config (granted u) (ok (owner, session)) state nonce verifier now t h =
    let rest = swept now session.id t in
    let fewer : length rest ≤ length t =
      length-keep-le (λ row. not (ltb row.1.expires now || row.1.session == session.id)) t in
    ground (arith, fewer, length-upsert state (new_pending u session.id nonce verifier now) rest)

callback-le :
    (q : CallbackQuery) (cookie : Option Text) (now : ℕ) (t : Pendings)
    → length t ≤ 1024
    → length (callback q cookie now t).0 ≤ 1024
unfolding callback
callback-le q none now t h = h
callback-le q (some cookie) now t h = elim (Option-cases (find q.state t)) [
  | inl missing ↦ rw (missing, callback) h
  | inr (p, found) ↦ elim (Bool-cases (callback_bad q cookie p now)) [
    | inl bad ↦ rw (found, callback) (simp bad h)
    | inr good ↦
        rw (found, callback)
          (simp good (rw (length-upsert-found q.state (answered q p) p t found) h))
  ]
]

find-without : (state : Text) (t : Pendings) → find state (without state t) ≡ none
unfolding find without
find-without state [] = refl
find-without state ((k, p) ∷ t) = ground (arith, find-without state t)

-- A connection is consumed by the user and in the session that started it, after the provider has
-- answered it and before it is over; and only once: whoever tries its state again is refused.
pub consume-consume :
    (state user session other session' : Text) (now later : ℕ) (t t' : Pendings) (p : OauthPending)
    → consume state user session now t ≡ ok (t', p)
    → (p.user ≡ user)
      × (p.session ≡ session)
      × (p.received ≡ true)
      × (now ≤ p.expires)
      × (consume state other session' later t' ≡ err unauthorized)
unfolding consume
consume-consume state user session other session' now later t t' p e =
    let (q, d, e₁) = >>=-eq-ok (demand unauthorized (find state t)) _ e in
    let bad : Bool =
      ltb q.expires now || not (q.user == user) || not (q.session == session) || not q.received in
    let (_, w, e₂) = >>=-eq-ok (reject bad unauthorized) _ e₁ in
    let good = reject-eq-ok bad unauthorized w in
    let pair = ok_unique _ refl e₂ in
    let gone : find state (without state t) ≡ none = find-without state t in
    let again : consume state other session' later (without state t) ≡ err unauthorized =
      rw (gone, consume) refl in
    subst
      (λ x.
        (x.1.user ≡ user)
        × (x.1.session ≡ session)
        × (x.1.received ≡ true)
        × (now ≤ x.1.expires)
        × (consume state other session' later x.0 ≡ err unauthorized))
      pair
      (
        ground (arith, eq_iff q.user user),
        ground (arith, eq_iff q.session session),
        ground arith,
        ground arith,
        again,
      )

take_pending-le :
    (who : Reply Text) (cookie : Result (Text × Session)) (state : Reply Text) (now : ℕ)
    (t : Pendings)
    → length (take_pending who cookie state now t).0 ≤ length t
unfolding take_pending consume without
take_pending-le (denied s) cookie state now t = omega arith
take_pending-le (granted u) (err e) state now t = omega arith
take_pending-le (granted u) (ok (owner, session)) (denied s) now t = ground arith
take_pending-le (granted u) (ok (owner, session)) (granted state) now t =
    elim (Bool-cases (owner == u)) [
      | inr other ↦ simp other (omega arith)
      | inl own ↦ elim (Result-cases (consume state u session.id now t)) [
        | inr (e, failed) ↦ simp (own, failed) (omega arith)
        | inl ((t', p), done) ↦
            let fewer = length-keep-le (λ row. not (row.0 == state)) t in
            let (q, d, e₁) = >>=-eq-ok (demand unauthorized (find state t)) _ done in
            let bad : Bool =
              ltb q.expires now
              || not (q.user == u)
              || not (q.session == session.id)
              || not q.received in
            let (_, _, e₂) = >>=-eq-ok (reject bad unauthorized) _ e₁ in
            let left : without state t ≡ t' = ap (λ x. x.0) (ok_unique _ refl e₂) in
            simp (own, done) (subst (λ x. length x ≤ length t) left fewer)
      ]
    ]

Step-le : (t u : Pendings) → Step t u → length t ≤ 1024 → length u ≤ 1024
Step-le t u (started config who cookie state nonce verifier now _) h =
    start-le config who cookie state nonce verifier now t h
Step-le t u (called_back q cookie now _) h = callback-le q cookie now t h
Step-le t u (finished who cookie state now _) h =
    omega (arith, take_pending-le who cookie state now t, h)

-- Whatever requests come, no more than 1024 connections are ever pending.
pub IsReachable-le : (t : Pendings) → IsReachable t → length t ≤ 1024
IsReachable-le t at_start = omega arith
IsReachable-le t (after s _ reached step) = Step-le s t step (IsReachable-le s reached)
