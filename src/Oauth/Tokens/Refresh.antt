-- ===== src/Oauth/Tokens/Refresh.antt =====
-- What the calls for a token do to the stored credential.
use quire_server.Base.{
  ℕ, ◌+◌, ◌<◌, ◌≡◌, ◌≢◌, refl, sym, subst, true, false, not, ◌||◌, none, some, codes, ◌⊎◌, ltb,
  ◌==◌, text_eq, nat_eq, eq_iff, arith, Bool-cases, inl, inr,
}
use quire_server.Oauth.{OauthConfig, enabled}
use quire_server.Oauth.Tokens.{
  OauthCredential, TokenTurn, Exchanged, exchanged, reconnect_needed, failed, refreshed,
  access_token_turn,
}

refreshed_keeps :
    (c : OauthCredential) (now : ℕ) (answer : Exchanged)
    → c.refresh_token ≢ codes ""
    → (refreshed c now answer).stored.refresh_token ≢ codes ""
unfolding refreshed
refreshed_keeps c now (exchanged next) h = elim (Bool-cases (next.refresh_token == codes "")) [
  | inl empty ↦ simp empty h
  | inr given ↦ simp given (ground (arith, eq_iff next.refresh_token (codes "")))
]
refreshed_keeps c now reconnect_needed h = h
refreshed_keeps c now failed h = h

refreshed_waits :
    (config : OauthConfig) (c : OauthCredential) (now later : ℕ) (answer answer' : Exchanged)
    → (refreshed c now answer).token ≡ none
    → later < now + 60
    → (access_token_turn config (refreshed c now answer).stored later answer').asked ≡ false
unfolding refreshed access_token_turn
refreshed_waits config c now later (exchanged next) answer' h early = cc
refreshed_waits config c now later reconnect_needed answer' h early = refl
refreshed_waits config c now later failed answer' h early =
    elim (Bool-cases (ltb (later + 60) c.expires_at)) [
      | inl fresh ↦ simp fresh refl
      | inr stale ↦ let soon : ltb later (now + 60) ≡ true = ground arith in simp (stale, soon) refl
    ]

asked_refreshed :
    (config : OauthConfig) (c : OauthCredential) (now : ℕ) (answer : Exchanged)
    → (access_token_turn config c now answer).asked ≡ true
    → access_token_turn config c now answer ≡ refreshed c now answer
unfolding access_token_turn
asked_refreshed config c now answer asked = elim (Bool-cases c.reconnect) [
  | inl broken ↦ cc (rw (broken, access_token_turn) at asked)
  | inr whole ↦ elim (Bool-cases (ltb (now + 60) c.expires_at)) [
    | inl fresh ↦ cc (simp (whole, fresh) at asked)
    | inr stale ↦ elim (Bool-cases (ltb now c.retry_at)) [
      | inl waits ↦ cc (simp (whole, stale, waits) at asked)
      | inr due ↦ elim (Bool-cases (not (enabled config) || c.refresh_token == codes "")) [
        | inl unable ↦ cc (simp (whole, stale, due, unable) at asked)
        | inr able ↦ simp (whole, stale, due, able) refl
      ]
    ]
  ]
]

-- The refresh token after an answer: the provider's new one, or the old one.
abbrev pub IsRotated : OauthCredential → Exchanged → OauthCredential → Type 0
IsRotated c answer stored =
    (stored.refresh_token ≡ c.refresh_token)
    ⊎ ((next : OauthCredential) × (answer ≡ exchanged next)
        × (next.refresh_token ≢ codes "")
        × (stored.refresh_token ≡ next.refresh_token))

refreshed-IsRotated :
    (c : OauthCredential) (now : ℕ) (answer : Exchanged)
    → IsRotated c answer (refreshed c now answer).stored
unfolding refreshed
refreshed-IsRotated c now (exchanged next) = elim (Bool-cases (next.refresh_token == codes "")) [
  | inl empty ↦ inl (simp empty refl)
  | inr given ↦
      inr (next, refl, ground (arith, eq_iff next.refresh_token (codes "")), simp given refl)
]
refreshed-IsRotated c now reconnect_needed = inl refl
refreshed-IsRotated c now failed = inl refl

-- The token of a turn, if there is one, is the stored one; else the provider is left alone.
abbrev pub IsPaced : OauthConfig → TokenTurn → (later : ℕ) → Exchanged → Type 0
IsPaced config turn later answer =
    (turn.token ≡ some turn.stored.access_token)
    ⊎ ((turn.token ≡ none) × ((access_token_turn config turn.stored later answer).asked ≡ false))

refreshed-IsPaced :
    (config : OauthConfig) (c : OauthCredential) (now later : ℕ) (answer answer' : Exchanged)
    → later < now + 60
    → IsPaced config (refreshed c now answer) later answer'
unfolding refreshed
refreshed-IsPaced config c now later (exchanged next) answer' early = inl refl
refreshed-IsPaced config c now later reconnect_needed answer' early =
    inr (refl, refreshed_waits config c now later reconnect_needed answer' refl early)
refreshed-IsPaced config c now later failed answer' early =
    inr (refl, refreshed_waits config c now later failed answer' refl early)

-- Where the stored credential has a refresh token, a call that asks the provider stores one, whether
-- the provider grants a credential or not: the provider's new one where it names one, else the old one.
-- And it gives the access token that is stored, or gives none and no call within a minute of it asks
-- the provider again.
pub access_token_turn_lem :
    (config : OauthConfig) (c : OauthCredential) (now later : ℕ) (answer answer' : Exchanged)
    → c.refresh_token ≢ codes ""
    → (access_token_turn config c now answer).asked ≡ true
    → later < now + 60
    → let turn = access_token_turn config c now answer in
      (turn.stored.refresh_token ≢ codes "")
      × IsRotated c answer turn.stored
      × IsPaced config turn later answer'
access_token_turn_lem config c now later answer answer' h asked early =
    subst
      (λ turn.
        (turn.stored.refresh_token ≢ codes "")
        × IsRotated c answer turn.stored
        × IsPaced config turn later answer')
      (sym (asked_refreshed config c now answer asked))
      (
        refreshed_keeps c now answer h,
        refreshed-IsRotated c now answer,
        refreshed-IsPaced config c now later answer answer' early,
      )
