-- ===== src/Catalog/Delivery.antt =====
-- POST /v1/catalog-sources/{id}/fetch of internal/server/opds_proxy.go: what a browser gets of a catalog's
-- response. Reading errors, and the deadline of the request, are not modelled.
use quire_server.Base.{
  ℕ, ◌≤◌, ◌≡◌, ◌*◌, ◌^◌, refl, Bool, true, false, not, ◌&&◌, ◌||◌, Option, none, some, List, [],
  ◌∷◌, Text, codes, len, contains, ltb, ◌==◌, text_eq, nat_eq, eq_iff, if◌then◌else◌, Result, ok,
  err, arith, Bool-cases, inl, inr,
}
use quire_server.Http.{Request, Reply, denied, granted, failure_status, decode}
use quire_server.Settings.{max_stored_book_bytes}
use quire_server.Catalog.{Links, CatalogCredentials, CatalogDb, CatalogCodec, catalog_source_secret}
use quire_server.Catalog.Proxy.{Sent, Response, Fetched, fetch}

pub record FetchInput : Type 0 where
  pub url : Text
  pub kind : Text

-- An answer: a status, a feed with its URL, or a stream; a stream that is too long is broken off.
pub data Delivery : Type 0 where
  refused : ℕ → Delivery
  feed : (body content_type url : Text) → Delivery
  stream : (content_type body : Text) → Delivery
  aborted : Delivery

unfoldable pub kind_limit : Text → Option ℕ
kind_limit kind =
    if kind == codes "feed"
    then some (4 * 2 ^ 20)
    else if kind == codes "cover"
    then some (8 * 2 ^ 20)
    else if kind == codes "book"
    then some max_stored_book_bytes
    else none

abbrev pub image_types : List Text
image_types = codes "image/jpeg" ∷ codes "image/png" ∷ codes "image/webp" ∷ codes "image/gif" ∷ []

abbrev too_long : Option ℕ → ℕ → Bool
too_long none limit = false
too_long (some n) limit = ltb limit n

abbrev last_url : List Sent → Text
last_url [] = []
last_url (s ∷ []) = s.url.text
last_url (s ∷ t ∷ rest) = last_url (t ∷ rest)

-- The copy of a body that the limit bounds.
abbrev streamed : Text → ℕ → Text → Delivery
streamed content_type limit body =
    if ltb limit (len body) then aborted else stream content_type body

abbrev delivered : Text → ℕ → Text → Response → Delivery
delivered kind limit url r =
    if kind == codes "feed"
    then if ltb limit (len r.body) then refused 502 else feed r.body r.content_type url
    else if kind == codes "cover" && not (contains r.content_type image_types)
    then refused 502
    else if kind == codes "book"
    then streamed (codes "application/octet-stream") limit r.body
    else streamed r.content_type limit r.body

unfoldable pub deliver : Text → ℕ → Fetched → Delivery
deliver kind limit (made, none) = refused 502
deliver kind limit (made, some r) =
    if r.status == 401 || r.status == 403
    then refused 401
    else if not (r.status == 200) || too_long r.content_length limit
    then refused 502
    else delivered kind limit (last_url made) r

module _ (l : Links) (c : CatalogCodec) (allowed : List Text)
    (remote : ℕ → Sent → Option Response) where
  abbrev fetch_kind : Text → Text → Option CatalogCredentials → Text → Option ℕ → Delivery
  fetch_kind url source credentials kind none = refused 400
  fetch_kind url source credentials kind (some limit) =
      deliver kind limit (fetch l allowed remote url source credentials)

  abbrev fetch_input : Text → Option CatalogCredentials → Reply FetchInput → Delivery
  fetch_input source credentials (denied status) = refused status
  fetch_input source credentials (granted v) =
      fetch_kind v.url source credentials v.kind (kind_limit v.kind)

  abbrev fetch_source : Result (Text × Option CatalogCredentials) → Reply FetchInput → Delivery
  fetch_source (err e) input = refused (failure_status e)
  fetch_source (ok (source, credentials)) input = fetch_input source credentials input

  -- The route, with the user that `authorized` gave.
  unfoldable pub post_fetch :
      (Text → Option (FetchInput × Bool)) → Reply Text → Text → Request → CatalogDb → Delivery
  post_fetch read (denied status) id r db = refused status
  post_fetch read (granted user) id r db =
      fetch_source (catalog_source_secret l c user id db) (decode read r 8192)

-- What may be delivered for a kind.
abbrev pub IsDelivered : Text → ℕ → Delivery → Type 0
IsDelivered kind limit (refused status) = Unit
IsDelivered kind limit (feed body content_type url) = (kind ≡ codes "feed") × (len body ≤ limit)
IsDelivered kind limit (stream content_type body) =
    (len body ≤ limit)
    × (kind ≡ codes "book" → content_type ≡ codes "application/octet-stream")
    × (kind ≡ codes "cover" → contains content_type image_types ≡ true)
IsDelivered kind limit aborted = Unit

streamed-IsDelivered :
    (kind : Text) (limit : ℕ) (content_type body : Text)
    → (kind ≡ codes "book" → content_type ≡ codes "application/octet-stream")
    → (kind ≡ codes "cover" → contains content_type image_types ≡ true)
    → IsDelivered kind limit (streamed content_type limit body)
streamed-IsDelivered kind limit content_type body book cover =
    elim (Bool-cases (ltb limit (len body))) [
      | inl long ↦ simp long tt
      | inr short ↦ simp short (ground (arith, short), book, cover)
    ]

delivered-IsDelivered :
    (kind : Text) (limit : ℕ) (url : Text) (r : Response)
    → IsDelivered kind limit (delivered kind limit url r)
delivered-IsDelivered kind limit url r = elim (Bool-cases (kind == codes "feed")) [
  | inl is_feed ↦ elim (Bool-cases (ltb limit (len r.body))) [
    | inl long ↦ simp (is_feed, long) tt
    | inr short ↦
        simp (is_feed, short) ((eq_iff kind (codes "feed")).0 is_feed, ground (arith, short))
  ]
  | inr other ↦
      elim (Bool-cases (kind == codes "cover" && not (contains r.content_type image_types))) [
        | inl active ↦ simp (other, active) tt
        | inr shown ↦ elim (Bool-cases (kind == codes "book")) [
          | inl is_book ↦
              simp (other, shown, is_book)
                (streamed-IsDelivered kind limit (codes "application/octet-stream") r.body
                  (λ _. refl) (λ at. ground (arith, (eq_iff kind (codes "book")).0 is_book, at)))
          | inr no_book ↦
              simp (other, shown, no_book)
                (streamed-IsDelivered kind limit r.content_type r.body
                  (λ at. cc (simp ((eq_iff kind (codes "book")).1 at) at no_book))
                  (λ at. ground (arith, shown, (eq_iff kind (codes "cover")).1 at)))
        ]
      ]
]

-- Whatever a catalog answers, a body that is delivered is no longer than the limit of its kind, a book is
-- never delivered as a type that a browser shows, and a cover only as one of four image types.
pub deliver-IsDelivered :
    (kind : Text) (limit : ℕ) (f : Fetched) → IsDelivered kind limit (deliver kind limit f)
unfolding deliver
deliver-IsDelivered kind limit (made, none) = tt
deliver-IsDelivered kind limit (made, some r) =
    elim (Bool-cases (r.status == 401 || r.status == 403)) [
      | inl barred ↦ simp barred tt
      | inr let_in ↦ elim (Bool-cases (not (r.status == 200) || too_long r.content_length limit)) [
        | inl bad ↦ simp (let_in, bad) tt
        | inr good ↦ simp (let_in, good) (delivered-IsDelivered kind limit (last_url made) r)
      ]
    ]
