-- ===== src/Auth/Rows.antt =====
-- The rows of sessions and accounts that a login reads and adds.
use quire_server.Base.{
  ℕ, ◌+◌, ◌≤◌, ◌≡◌, refl, true, false, not, ◌&&◌, ◌||◌, none, some, List, [], ◌∷◌, ◌++◌, Text, any,
  ◌==◌, text_eq, nat_eq, eq_refl, if◌then◌else◌, arith, Bool-cases, inl, inr,
}
use quire_server.Auth.{
  User, SessionRow, enabled_user, insert_session, count_of, unexpired, session_user,
}

pub insert_session-eq-some :
    (s : SessionRow) (ss rows : List SessionRow)
    → insert_session s ss ≡ some rows
    → (any (λ t. t.id == s.id || t.token_hash == s.token_hash) ss ≡ false) × (rows ≡ ss ++ s ∷ [])
unfolding insert_session
insert_session-eq-some s ss rows h =
    elim (Bool-cases (any (λ t. t.id == s.id || t.token_hash == s.token_hash) ss)) [
      | inl taken ↦ cc (simp taken at h)
      | inr fresh ↦ (fresh, cc (simp fresh at h))
    ]

pub count-append :
    (v : Text) (s : SessionRow) (ss : List SessionRow)
    → count_of v (ss ++ s ∷ []) ≡ (if s.user_id == v then count_of v ss + 1 else count_of v ss)
count-append v s [] = ground arith
count-append v s (t ∷ ss) = ground (arith, count-append v s ss)

pub count-unexpired :
    (v : Text) (now : ℕ) (ss : List SessionRow) → count_of v (unexpired now ss) ≤ count_of v ss
count-unexpired v now [] = omega arith
count-unexpired v now (s ∷ ss) = ground (arith, count-unexpired v now ss)

-- No row that is kept out by its token hash authenticates.
pub session_user_missing :
    (s : SessionRow) (now : ℕ) (us : List User) (ss : List SessionRow)
    → any (λ t. t.id == s.id || t.token_hash == s.token_hash) ss ≡ false
    → session_user s.token_hash now us ss ≡ none
unfolding session_user
session_user_missing s now us [] _ = refl
session_user_missing s now us (t ∷ ss) h = ground (arith, session_user_missing s now us ss)

pub session_user-append :
    (hash : Text) (now : ℕ) (us : List User) (ss : List SessionRow) (s : SessionRow)
    → session_user hash now us ss ≡ none
    → session_user hash now us (ss ++ s ∷ []) ≡ session_user hash now us (s ∷ [])
unfolding session_user
session_user-append hash now us [] s _ = refl
session_user-append hash now us (t ∷ ss) s h = ground (arith, session_user-append hash now us ss s)

pub enabled_user-any :
    (name : Text) (us : List User) (u : User)
    → enabled_user name us ≡ some u
    → any (λ v. v.id == u.id && not v.disabled) us ≡ true
unfolding enabled_user
enabled_user-any name [] u h = cc
enabled_user-any name (v ∷ us) u h = elim (Bool-cases (v.username == name && not v.disabled)) [
  | inl found ↦
      let v_eq : v ≡ u = cc (simp found at h) in rw (← v_eq) (ground (arith, eq_refl v.id))
  | inr other ↦ ground (arith, enabled_user-any name us u (simp other at h))
]
