-- ===== src/Catalog/Secrets.antt =====
-- Whom the stored secrets of the catalog sources may be sent to.
use mathlib.Core.Option
use quire_server.Base.{
  ◌≡◌, ◌∙◌, ◌⊎◌, refl, sym, ap, subst, Bool, true, false, not, ◌&&◌, ◌||◌, Option, none, some, List,
  [], ◌∷◌, Text, codes, ◌==◌, text_eq, nat_eq, pair_eq, eq_iff, eq_refl, if◌then◌else◌, find,
  find-upsert, ok, >>=-eq-ok, ok_unique, arith, Bool-cases, inl, inr,
}
use quire_server.Catalog.{
  CatalogSource, CatalogSourceWrite, CatalogCredentials, Links, Url, SourceRow, CatalogDb,
  CatalogCodec, catalog_url, catalog_origin, is_none, same_origin, kept_secret, sealed_secret,
  new_row, write_catalog_source, catalog_source_secret,
}
use quire_server.Catalog.Writes.{IsWritten, write_catalog_source-IsWrite}

-- One write, as it was asked for.
pub record WriteRequest : Type 0 where
  pub user : Text
  pub id : Text
  pub nonce : Text
  pub write : CatalogSourceWrite

-- The origin of a URL that is taken.
abbrev pub origin_of : Links → Text → Option Text
origin_of l raw = Option.map (catalog_origin l) (catalog_url l raw)

module _ (l : Links) (c : CatalogCodec) where
  -- A request gave credentials that were sealed to a secret, for a source at an origin.
  abbrev pub Gives : WriteRequest → (user id secret url : Text) → Type 0
  Gives r user id secret url =
      (r.user ≡ user)
      × (r.id ≡ id)
      × ((v : CatalogCredentials) × (r.write.credentials ≡ some v)
          × (c.seal user id r.nonce v ≡ ok secret))
      × (origin_of l r.write.url ≡ origin_of l url)

  abbrev pub IsGiven : List WriteRequest → (user id secret url : Text) → Type 0
  IsGiven [] user id secret url = ⊥
  IsGiven (r ∷ rs) user id secret url = Gives r user id secret url ⊎ IsGiven rs user id secret url

  -- The tables after the requests that succeeded, the last one first.
  pub data IsReachable : List WriteRequest → CatalogDb → Type 0 where
    at_start : IsReachable [] (record { sources = []; operations = [] })
    after :
        (r : WriteRequest) (rs : List WriteRequest) (db db' : CatalogDb) (out : CatalogSource)
        → IsReachable rs db
        → write_catalog_source l c r.user r.id r.nonce r.write db ≡ ok (db', out)
        → IsReachable (r ∷ rs) db'

  same_origin-eq :
      (a b : Option Url)
      → same_origin l a b ≡ true
      → Option.map (catalog_origin l) a ≡ Option.map (catalog_origin l) b
  same_origin-eq none b h = cc
  same_origin-eq (some u) none h = cc
  same_origin-eq (some u) (some v) h =
      ap some ((eq_iff (catalog_origin l u) (catalog_origin l v)).0 h)

  IsGiven-origin :
      (rs : List WriteRequest) (user id secret url url' : Text)
      → origin_of l url ≡ origin_of l url'
      → IsGiven rs user id secret url
      → IsGiven rs user id secret url'
  IsGiven-origin [] user id secret url url' same h = h
  IsGiven-origin (r ∷ rs) user id secret url url' same (inl (u, i, v, o)) = inl (u, i, v, o ∙ same)
  IsGiven-origin (r ∷ rs) user id secret url url' same (inr h) =
      inr (IsGiven-origin rs user id secret url url' same h)

  sealed_secret-seal :
      (user id nonce : Text) (deleted : Bool) (o : Option CatalogCredentials) (secret : Text)
      → sealed_secret l c user id nonce deleted o ≡ ok (some secret)
      → (v : CatalogCredentials) × (o ≡ some v) × (c.seal user id nonce v ≡ ok secret)
  sealed_secret-seal user id nonce deleted none secret e = cc
  sealed_secret-seal user id nonce deleted (some v) secret e =
      let wanted : Bool =
        not deleted && (not (v.username == codes "") || not (v.password == codes "")) in
      elim (Bool-cases wanted) [
        | inr plain ↦ cc (simp plain at e)
        | inl sealed ↦
            let (s, run, e₁) = >>=-eq-ok (c.seal user id nonce v) _ (simp sealed at e) in
            let same : some s ≡ some secret = ok_unique _ refl e₁ in
            let at : s ≡ secret = cc in (v, refl, run ∙ ap ok at)
      ]

  -- The secret of a row that is written is new, or that of the row before it at the same origin.
  kept_secret-eq :
      (v : CatalogSourceWrite) (o : Option SourceRow) (sealed : Option Text) (secret : Text)
      → kept_secret l v o sealed ≡ some secret
      → (sealed ≡ some secret)
        ⊎ ((row : SourceRow) × (o ≡ some row)
            × (row.secret ≡ some secret)
            × (origin_of l row.url ≡ origin_of l v.url))
  kept_secret-eq v none sealed secret e = inl e
  kept_secret-eq v (some row) sealed secret e =
      let same = same_origin l (catalog_url l row.url) (catalog_url l v.url) in
      elim (Bool-cases (is_none v.credentials && not v.deleted && same)) [
        | inr other ↦ inl (simp other at e)
        | inl keeps ↦ inr (
          row,
          refl,
          simp keeps at e,
          same_origin-eq (catalog_url l row.url) (catalog_url l v.url) (ground (arith, keeps)),
        )
      ]

  kept_new :
      (v : CatalogSourceWrite) (o : Option SourceRow) (sealed : Option Text)
      (cr : CatalogCredentials)
      → v.credentials ≡ some cr
      → kept_secret l v o sealed ≡ sealed
  kept_new v none sealed cr h = refl
  kept_new v (some row) sealed cr h = rw h refl

  sealed_now :
      (user id nonce : Text) (v : CatalogSourceWrite) (cr : CatalogCredentials)
      (sealed : Option Text)
      → v.credentials ≡ some cr
      → (cr.username == codes "" && cr.password == codes "") ≡ false
      → v.deleted ≡ false
      → sealed_secret l c user id nonce v.deleted v.credentials ≡ ok sealed
      → (secret : Text) × (sealed ≡ some secret) × (c.seal user id nonce cr ≡ ok secret)
  sealed_now user id nonce v cr sealed with_them some_text live e =
      let e' : sealed_secret l c user id nonce false (some cr) ≡ ok sealed =
        subst (λ b. sealed_secret l c user id nonce b (some cr) ≡ ok sealed) live
          (subst (λ o. sealed_secret l c user id nonce v.deleted o ≡ ok sealed) with_them e) in
      let wanted : (not (cr.username == codes "") || not (cr.password == codes "")) ≡ true =
        ground (arith, some_text) in
      let (secret, run, e₁) = >>=-eq-ok (c.seal user id nonce cr) _ (simp wanted at e') in
      (secret, sym (ok_unique _ refl e₁), run)

  -- Every stored secret was given by one of the requests.
  abbrev pub IsBound : List WriteRequest → CatalogDb → Type 0
  IsBound rs db =
      (user id secret : Text) (row : SourceRow)
      → find (user, id) db.sources ≡ some row
      → row.secret ≡ some secret
      → IsGiven rs user id secret row.url

  written-IsBound :
      (r : WriteRequest) (rs : List WriteRequest) (db db' : CatalogDb) (out : CatalogSource)
      (sealed : Option Text)
      → sealed_secret l c r.user r.id r.nonce r.write.deleted r.write.credentials ≡ ok sealed
      → IsWritten l c r.user r.id r.write sealed db db' out
      → IsBound rs db
      → IsBound (r ∷ rs) db'
  written-IsBound r rs db db' out sealed seals w bound user id secret row found held =
      let key : Text × Text = (r.user, r.id) in
      let at : Text × Text = (user, id) in
      let old = find key db.sources in
      let next = new_row l c r.write old sealed in
      let found' : (if key == at then some next else find at db.sources) ≡ some row =
        sym (ap (λ t. find at t) w.stored ∙ find-upsert key at next db.sources) ∙ found in
      elim (Bool-cases (key == at)) [
        | inr other ↦ inr (bound user id secret row (simp other at found') held)
        | inl same ↦
            let here : next ≡ row = cc (simp same at found') in
            let here_key : key ≡ at = (eq_iff key at).0 same in
            let mine : IsGiven (r ∷ rs) r.user r.id secret r.write.url =
              elim (kept_secret-eq r.write old sealed secret (ap (λ x. x.secret) here ∙ held)) [
                | inl new ↦ inl (
                  refl,
                  refl,
                  sealed_secret-seal r.user r.id r.nonce r.write.deleted r.write.credentials secret
                      (seals ∙ ap ok new),
                  refl,
                )
                | inr (row', known, kept, origin) ↦ inr (
                    IsGiven-origin rs r.user r.id secret row'.url r.write.url origin
                      (bound r.user r.id secret row' known kept))
              ] in
            subst (λ u. IsGiven (r ∷ rs) user id secret u) (ap (λ x. x.url) here)
              (subst (λ k. IsGiven (r ∷ rs) k.0 k.1 secret r.write.url) here_key mine)
      ]

  -- In every reachable state a secret that is stored for a source of a user is one that this user's
  -- credentials for this source were sealed to, in a request for a URL of the same origin as the URL
  -- that the source has now: a change of the URL never takes a secret to another origin.
  pub IsReachable-IsBound :
      {rs : List WriteRequest} {db : CatalogDb} → IsReachable rs db → IsBound rs db
  unfolding find
  IsReachable-IsBound at_start user id secret row found held = cc
  IsReachable-IsBound (after r rs db db' out reach run) user id secret row found held =
      let w = write_catalog_source-IsWrite l c r.user r.id r.nonce r.write db db' out run in
      elim w.outcome [
        | inl (_, _, _, same) ↦ inr (
            IsReachable-IsBound reach user id secret row
              (subst (λ d. find (user, id) d.sources ≡ some row) same found) held)
        | inr new ↦
            written-IsBound r rs db db' out w.sealed w.sealing new (IsReachable-IsBound reach) user
              id secret row found held
      ]

  -- The credentials of a write that is new are read again with the URL that it named; the sealing opens
  -- again for the same user and source, and seals to no empty text.
  pub catalog_source_secret-write_catalog_source :
      (user id nonce : Text) (v : CatalogSourceWrite) (cr : CatalogCredentials) (db db' : CatalogDb)
      (out : CatalogSource)
      → ((n : Text) (x : CatalogCredentials) (s : Text)
          → c.seal user id n x ≡ ok s
          → (c.open_sealed user id s ≡ ok x) × ((s == []) ≡ false))
      → v.credentials ≡ some cr
      → (cr.username == codes "" && cr.password == codes "") ≡ false
      → v.deleted ≡ false
      → find (user, v.operation_id) db.operations ≡ none
      → write_catalog_source l c user id nonce v db ≡ ok (db', out)
      → catalog_source_secret l c user id db' ≡ ok (v.url, some cr)
  unfolding catalog_source_secret
  catalog_source_secret-write_catalog_source user id nonce v cr db db' out opens with_them some_text
        live fresh run =
      let w = write_catalog_source-IsWrite l c user id nonce v db db' out run in
      elim w.outcome [
        | inl (_, known, _, _) ↦ cc
        | inr new ↦
            let (secret, sealed_eq, seals) =
              sealed_now user id nonce v cr w.sealed with_them some_text live w.sealing in
            let key : Text × Text = (user, id) in
            let old = find key db.sources in
            let found : find key db'.sources ≡ some (new_row l c v old w.sealed) =
              ap (λ t. find key t) new.stored
              ∙ find-upsert key key (new_row l c v old w.sealed) db.sources
              ∙ simp (eq_refl key) refl in
            let kept : kept_secret l v old w.sealed ≡ some secret =
              kept_new v old w.sealed cr with_them ∙ sealed_eq in
            let (opened, full) = opens nonce cr secret seals in
            rw found (simp (live, kept, full, opened) refl)
      ]
