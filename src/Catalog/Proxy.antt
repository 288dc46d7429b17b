-- ===== src/Catalog/Proxy.antt =====
-- `catalogTransport` of internal/server/opds_proxy.go: the requests that fetching a catalog's URL makes,
-- redirect by redirect, and the route behind it. `remote` answers a request; its first argument counts
-- the redirects.
use quire_server.Base.{
  ℕ, zero, suc, ◌≤◌, ◌≡◌, ◌∙◌, ◌⊎◌, refl, sym, ap, subst, Bool, true, false, not, ◌&&◌, ◌||◌,
  Option, none, some, List, [], ◌∷◌, Text, codes, length, contains, leb, ◌==◌, text_eq, nat_eq,
  if◌then◌else◌, trim_space, arith, Bool-cases, inl, inr,
}
use quire_server.Catalog.{Links, Url, CatalogCredentials, catalog_url, catalog_origin}

-- The origins of `newCatalogTransport`.
abbrev opened_origin : Links → Option Url → List Text → List Text
opened_origin l none rest = rest
opened_origin l (some u) rest =
    if (u.path == codes "" || u.path == codes "/") && u.raw_query == codes ""
    then catalog_origin l u ∷ rest
    else rest

unfoldable pub new_catalog_transport : Links → List Text → List Text
new_catalog_transport l [] = []
new_catalog_transport l (raw ∷ raws) =
    opened_origin l (catalog_url l (trim_space raw)) (new_catalog_transport l raws)

-- A request: its URL, the permission for addresses of the local network, and its basic authentication.
pub record Sent : Type 0 where
  pub url : Url
  pub lan : Bool
  pub auth : Option CatalogCredentials

-- An answer of the remote server: `location` is that of `Response.Location`, and no answer an error.
pub record Response : Type 0 where
  pub status : ℕ
  pub location : Option Text
  pub content_length : Option ℕ
  pub content_type : Text
  pub body : Text

-- The requests that were made, and the response; without one, the fetch failed.
abbrev pub Fetched : Type 0
Fetched = List Sent × Option Response

module _ (l : Links) (allowed : List Text) (remote : ℕ → Sent → Option Response) where
  abbrev pub is_redirect : Response → Bool
  is_redirect r = leb 300 r.status && leb r.status 399

  -- What a request carries, or that it is not made.
  abbrev pub auth_of :
      (lan crossed : Bool) → Option CatalogCredentials → Url → Option (Option CatalogCredentials)
  auth_of lan crossed none u = some none
  auth_of lan crossed (some v) u =
      if crossed
      then some none
      else if not (u.scheme == codes "https") && not lan
      then none
      else some (some v)

  abbrev pub crossed_to : Url → Bool → Url → Bool
  crossed_to origin crossed u = crossed || not (catalog_origin l u == catalog_origin l origin)

  abbrev pub add : Sent → Fetched → Fetched
  add s (made, out) = (s ∷ made, out)

  abbrev pub is_downgrade : Url → Url → Bool
  is_downgrade origin u = origin.scheme == codes "https" && not (u.scheme == codes "https")

  abbrev pub sent_with :
      (lan crossed : Bool) → Url → Option (Option CatalogCredentials) → Option (Bool × Sent)
  sent_with lan crossed u none = none
  sent_with lan crossed u (some auth) = some (crossed, record { url = u; lan = lan; auth = auth })

  -- The request of a round, and whether the fetch has left the origin of its source by then.
  abbrev pub round : Url → Option CatalogCredentials → Bool → Option Url → Option (Bool × Sent)
  round origin credentials crossed none = none
  round origin credentials crossed (some u) =
      if is_downgrade origin u
      then none
      else let lan : Bool = contains (catalog_origin l u) allowed in
        let crossed' : Bool = crossed_to origin crossed u in
        sent_with lan crossed' u (auth_of lan crossed' credentials u)

  -- The end of the fetch, or the URL of the next round.
  abbrev pub next_round : Option Response → Option Response ⊎ Text
  next_round none = inl none
  next_round (some r) =
      if is_redirect r
      then (elim r.location [ none ↦ inl none | some next ↦ inr next ])
      else inl (some r)

  -- What follows a request, and a round; `again` is the rest of the loop.
  abbrev pub after_answer : (Text → Fetched) → Sent → Option Response ⊎ Text → Fetched
  after_answer again s (inl out) = (s ∷ [], out)
  after_answer again s (inr next) = add s (again next)

  abbrev pub after_round : ℕ → (Bool → Text → Fetched) → Option (Bool × Sent) → Fetched
  after_round n again none = ([], none)
  after_round n again (some (crossed, s)) = after_answer (again crossed) s (next_round (remote n s))

  -- The loop of `fetch`, with the rounds that are left.
  unfoldable pub fetch_from : ℕ → Url → Option CatalogCredentials → Bool → Text → Fetched
  fetch_from zero origin credentials crossed raw = ([], none)
  fetch_from (suc n) origin credentials crossed raw =
      after_round n (λ crossed' next. fetch_from n origin credentials crossed' next)
        (round origin credentials crossed (catalog_url l raw))

  abbrev pub fetch_of : Option Url → Option CatalogCredentials → Text → Fetched
  fetch_of none credentials raw = ([], none)
  fetch_of (some origin) credentials raw = fetch_from 6 origin credentials false raw

  -- `fetch`: five redirects are followed.
  unfoldable pub fetch : (raw source : Text) → Option CatalogCredentials → Fetched
  fetch raw source credentials = fetch_of (catalog_url l source) credentials raw

  -- What holds of the requests of a fetch: a source with https is never left for another scheme; the
  -- permission is that of the request's own origin; and credentials are only sent to the source's origin,
  -- by https or with the permission, and never once another origin has been asked.
  abbrev pub Guarded : Url → Option CatalogCredentials → Bool → List Sent → Type 0
  Guarded origin credentials crossed [] = Unit
  Guarded origin credentials crossed (s ∷ rest) =
      (is_downgrade origin s.url ≡ false)
      × (s.lan ≡ contains (catalog_origin l s.url) allowed)
      × ((v : CatalogCredentials)
          → s.auth ≡ some v
          → (credentials ≡ some v)
            × (crossed ≡ false)
            × ((catalog_origin l s.url == catalog_origin l origin) ≡ true)
            × ((s.url.scheme == codes "https" || s.lan) ≡ true))
      × Guarded origin credentials (crossed_to origin crossed s.url) rest

  auth_of-some :
      (lan crossed : Bool) (o : Option CatalogCredentials) (u : Url) (v : CatalogCredentials)
      → auth_of lan crossed o u ≡ some (some v)
      → (o ≡ some v) × (crossed ≡ false) × ((u.scheme == codes "https" || lan) ≡ true)
  auth_of-some lan crossed none u v e = cc
  auth_of-some lan crossed (some w) u v e = elim (Bool-cases crossed) [
    | inl gone ↦ cc (simp gone at e)
    | inr here ↦ elim (Bool-cases (not (u.scheme == codes "https") && not lan)) [
      | inl plain ↦ cc (simp (here, plain) at e)
      | inr secure ↦
          let e' : some (some w) ≡ some (some v) = simp (here, secure) at e in
          (cc, here, ground (arith, secure))
    ]
  ]

  -- What a request of a round has been checked for.
  abbrev pub IsSent : Url → Option CatalogCredentials → Bool → Bool → Sent → Type 0
  IsSent origin credentials crossed crossed' s =
      (is_downgrade origin s.url ≡ false)
      × (s.lan ≡ contains (catalog_origin l s.url) allowed)
      × (crossed' ≡ crossed_to origin crossed s.url)
      × (auth_of s.lan crossed' credentials s.url ≡ some s.auth)

  sent_with-eq :
      (lan crossed : Bool) (u : Url) (o : Option (Option CatalogCredentials)) (crossed' : Bool)
      (s : Sent)
      → sent_with lan crossed u o ≡ some (crossed', s)
      → (crossed ≡ crossed') × (u ≡ s.url) × (lan ≡ s.lan) × (o ≡ some s.auth)
  sent_with-eq lan crossed u none crossed' s e = cc
  sent_with-eq lan crossed u (some auth) crossed' s e =
      let made : Bool × Sent = (crossed, record { url = u; lan = lan; auth = auth }) in
      let wanted : Bool × Sent = (crossed', s) in
      let got : made ≡ wanted = cc in
      (
        ap (λ p. p.0) got,
        ap (λ p. p.1.url) got,
        ap (λ p. p.1.lan) got,
        ap (λ p. some (p.1.auth)) got,
      )

  round-IsSent :
      (origin : Url) (credentials : Option CatalogCredentials) (crossed : Bool) (o : Option Url)
      (crossed' : Bool) (s : Sent)
      → round origin credentials crossed o ≡ some (crossed', s)
      → IsSent origin credentials crossed crossed' s
  round-IsSent origin credentials crossed none crossed' s e = cc
  round-IsSent origin credentials crossed (some u) crossed' s e =
      elim (Bool-cases (is_downgrade origin u)) [
        | inl down ↦ cc (simp down at e)
        | inr kept ↦
            let lan : Bool = contains (catalog_origin l u) allowed in
            let now : Bool = crossed_to origin crossed u in
            let (c, at, may, auth) =
              sent_with-eq lan now u (auth_of lan now credentials u) crossed' s (simp kept at e) in
            (
              subst (λ w. is_downgrade origin w ≡ false) at kept,
              subst (λ w. s.lan ≡ contains (catalog_origin l w) allowed) at (sym may),
              subst (λ w. crossed' ≡ crossed_to origin crossed w) at (sym c),
              subst (λ w. auth_of s.lan crossed' credentials w ≡ some s.auth) at
                  (subst (λ b. auth_of s.lan b credentials u ≡ some s.auth) c
                    (subst (λ b. auth_of b now credentials u ≡ some s.auth) may auth)),
            )
      ]

  sent-Guarded :
      (origin : Url) (credentials : Option CatalogCredentials) (crossed crossed' : Bool) (s : Sent)
      (rest : List Sent)
      → IsSent origin credentials crossed crossed' s
      → Guarded origin credentials crossed' rest
      → Guarded origin credentials crossed (s ∷ rest)
  sent-Guarded origin credentials crossed crossed' s rest (down, lan, turn, auth) h = (
    down,
    lan,
    λ v with_them.
        let (given, here, secure) =
          auth_of-some s.lan crossed' credentials s.url v (auth ∙ ap some with_them) in
        (given, ground (arith, turn, here), ground (arith, turn, here), secure),
    subst (λ b. Guarded origin credentials b rest) turn h,
  )

  abbrev Fits : ℕ → Url → Option CatalogCredentials → Bool → Fetched → Type 0
  Fits n origin credentials crossed f = (length f.0 ≤ n) × Guarded origin credentials crossed f.0

  after_answer-Fits :
      (n : ℕ) (origin : Url) (credentials : Option CatalogCredentials) (crossed crossed' : Bool)
      (again : Text → Fetched) (s : Sent) (x : Option Response ⊎ Text)
      → ((next : Text) → Fits n origin credentials crossed' (again next))
      → IsSent origin credentials crossed crossed' s
      → Fits (suc n) origin credentials crossed (after_answer again s x)
  after_answer-Fits n origin credentials crossed crossed' again s (inl out) h sent =
      (omega arith, sent-Guarded origin credentials crossed crossed' s [] sent tt)
  after_answer-Fits n origin credentials crossed crossed' again s (inr next) h sent =
      let (few, later) = h next in
      (
        omega (arith, few),
        sent-Guarded origin credentials crossed crossed' s (again next).0 sent later,
      )

  after_round-Fits :
      (n : ℕ) (origin : Url) (credentials : Option CatalogCredentials) (crossed : Bool)
      (again : Bool → Text → Fetched) (u : Option Url) (o : Option (Bool × Sent))
      → ((x : Bool) (next : Text) → Fits n origin credentials x (again x next))
      → round origin credentials crossed u ≡ o
      → Fits (suc n) origin credentials crossed (after_round n again o)
  after_round-Fits n origin credentials crossed again u none h made = (omega arith, tt)
  after_round-Fits n origin credentials crossed again u (some (crossed', s)) h made =
      after_answer-Fits n origin credentials crossed crossed' (again crossed') s
        (next_round (remote n s)) (h crossed')
        (round-IsSent origin credentials crossed u crossed' s made)

  fetch_from-Fits :
      (n : ℕ) (origin : Url) (credentials : Option CatalogCredentials) (crossed : Bool) (raw : Text)
      → Fits n origin credentials crossed (fetch_from n origin credentials crossed raw)
  unfolding fetch_from
  fetch_from-Fits zero origin credentials crossed raw = (omega arith, tt)
  fetch_from-Fits (suc n) origin credentials crossed raw =
      after_round-Fits n origin credentials crossed
        (λ x next. fetch_from n origin credentials x next) (catalog_url l raw)
        (round origin credentials crossed (catalog_url l raw))
        (λ x next. fetch_from-Fits n origin credentials x next) refl

  -- However the remote servers answer, a fetch makes at most six requests, and all are guarded.
  pub fetch-Guarded :
      (raw source : Text) (credentials : Option CatalogCredentials) (origin : Url)
      → catalog_url l source ≡ some origin
      → (length (fetch raw source credentials).0 ≤ 6)
        × Guarded origin credentials false (fetch raw source credentials).0
  unfolding fetch
  fetch-Guarded raw source credentials origin known =
      subst (λ o. Fits 6 origin credentials false (fetch_of o credentials raw)) (sym known)
        (fetch_from-Fits 6 origin credentials false raw)
