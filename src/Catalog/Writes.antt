-- ===== src/Catalog/Writes.antt =====
-- What a write of a catalog source has checked and done.
use quire_server.Base.{
  ◌+◌, ◌≡◌, ◌∙◌, ◌⊎◌, refl, sym, ap, subst, false, not, ◌&&◌, Option, none, some, [], ◌∷◌, ◌++◌,
  Text, leb, ◌==◌, text_eq, nat_eq, pair_eq, eq_iff, eq_refl, Table, find, upsert, insert,
  find-append, pos_part, ok, invalid, conflict, decoding, constraint, reject, demand, demand-eq-ok,
  reject-eq-ok, reject-not-eq-ok, >>=-eq-ok, ok_unique, Option-cases, inl, inr,
}
use quire_server.Catalog.{
  CatalogSource, CatalogSourceWrite, Links, CatalogDb, CatalogCodec, catalog_url, bad_write,
  bad_credentials, is_none, old_revision, count_of, sealed_secret, answer, new_row, write_row,
  write_new, write_catalog_source,
}

module _ (l : Links) (c : CatalogCodec) where
  -- A write that is new: the revision was the one that the client knew, and the row and the remembered
  -- answer are stored.
  pub record IsWritten (user id : Text) (v : CatalogSourceWrite) (sealed : Option Text)
      (db db' : CatalogDb) (out : CatalogSource) : Type 0 where
    pub known : old_revision (find (user, id) db.sources) ≡ pos_part v.base_revision
    pub given : out ≡ answer l c id v (old_revision (find (user, id) db.sources) + 1)
    pub fresh : find (user, v.operation_id) db.operations ≡ none
    pub remembered :
        db'.operations
        ≡ db.operations ++ ((user, v.operation_id), (c.digest id v, c.source out)) ∷ []
    pub stored :
        db'.sources
        ≡ upsert (user, id) (new_row l c v (find (user, id) db.sources) sealed) db.sources

  insert-eq-some :
      (k : Text × Text) (v : Text × Text) (t t' : Table (Text × Text) (Text × Text))
      → insert k v t ≡ some t'
      → t' ≡ t ++ (k, v) ∷ []
  unfolding insert
  insert-eq-some k v t t' h = elim (Option-cases (find k t)) [
    | inl fresh ↦ cc (rw (fresh, insert) at h)
    | inr (w, taken) ↦ cc (rw (taken, insert) at h)
  ]

  write_row-IsWritten :
      (user id : Text) (v : CatalogSourceWrite) (sealed : Option Text) (db db' : CatalogDb)
      (out : CatalogSource)
      → find (user, v.operation_id) db.operations ≡ none
      → write_row l c user id v (find (user, id) db.sources) sealed db ≡ ok (db', out)
      → IsWritten user id v sealed db db' out
  write_row-IsWritten user id v sealed db db' out fresh e =
      let old = find (user, id) db.sources in
      let (_, r, e₁) =
        >>=-eq-ok (reject (not (old_revision old == pos_part v.base_revision)) conflict) _ e in
      let (_, _, e₂) =
        >>=-eq-ok (reject (old_revision old == 0 && leb 500 (count_of user db.sources)) conflict) _
          e₁ in
      let result = answer l c id v (old_revision old + 1) in
      let (t, i, e₃) =
        >>=-eq-ok
          (demand constraint
            (insert (user, v.operation_id) (c.digest id v, c.source result) db.operations))
          _ e₂ in
      let same = ok_unique _ refl e₃ in
      let out_eq : result ≡ out = ap (λ p. p.1) same in
      let ops : db'.operations
          ≡ db.operations ++ ((user, v.operation_id), (c.digest id v, c.source result)) ∷ [] =
        sym (ap (λ p. p.0.operations) same)
        ∙ insert-eq-some (user, v.operation_id) (c.digest id v, c.source result) db.operations t
            (demand-eq-ok constraint
              (insert (user, v.operation_id) (c.digest id v, c.source result) db.operations) t i) in
      record {
        known =
            (eq_iff (old_revision old) (pos_part v.base_revision)).0
              (reject-not-eq-ok (old_revision old == pos_part v.base_revision) conflict r);
        given = sym out_eq;
        fresh = fresh;
        remembered =
            subst
              (λ x.
                db'.operations
                ≡ db.operations ++ ((user, v.operation_id), (c.digest id v, c.source x)) ∷ [])
              out_eq ops;
        stored = sym (ap (λ p. p.0.sources) same);
      }

  -- A replayed operation, or a new one.
  abbrev pub IsOutcome :
      (user id : Text) (v : CatalogSourceWrite) (sealed : Option Text) (db db' : CatalogDb)
      (out : CatalogSource)
      → Type 0
  IsOutcome user id v sealed db db' out =
      ((result : Text) × (find (user, v.operation_id) db.operations ≡ some (c.digest id v, result))
        × (c.source_of result ≡ some out)
        × (db' ≡ db))
      ⊎ IsWritten user id v sealed db db' out

  write_new-IsOutcome :
      (user id : Text) (v : CatalogSourceWrite) (sealed : Option Text) (o : Option (Text × Text))
      (db db' : CatalogDb) (out : CatalogSource)
      → find (user, v.operation_id) db.operations ≡ o
      → write_new l c user id v sealed o db ≡ ok (db', out)
      → IsOutcome user id v sealed db db' out
  write_new-IsOutcome user id v sealed none db db' out at e =
      inr (write_row-IsWritten user id v sealed db db' out at e)
  write_new-IsOutcome user id v sealed (some (digest, result)) db db' out at e =
      let (_, r, e₁) = >>=-eq-ok (reject (not (digest == c.digest id v)) conflict) _ e in
      let (out', d, e₂) = >>=-eq-ok (demand decoding (c.source_of result)) _ e₁ in
      let same = ok_unique _ refl e₂ in
      let digest_eq : digest ≡ c.digest id v =
        (eq_iff digest (c.digest id v)).0 (reject-not-eq-ok (digest == c.digest id v) conflict r) in
      inl (
        result,
        subst (λ x. find (user, v.operation_id) db.operations ≡ some (x, result)) digest_eq at,
        demand-eq-ok decoding (c.source_of result) out' d ∙ ap (λ p. some (p.1)) same,
        sym (ap (λ p. p.0) same),
      )

  pub record IsWrite (user id nonce : Text) (v : CatalogSourceWrite) (db db' : CatalogDb)
      (out : CatalogSource) : Type 0 where
    pub fine : bad_write id v ≡ false
    pub linked : is_none (catalog_url l v.url) ≡ false
    pub signed : bad_credentials v.credentials ≡ false
    pub sealed : Option Text
    pub sealing : sealed_secret l c user id nonce v.deleted v.credentials ≡ ok sealed
    pub outcome : IsOutcome user id v sealed db db' out

  pub write_catalog_source-IsWrite :
      (user id nonce : Text) (v : CatalogSourceWrite) (db db' : CatalogDb) (out : CatalogSource)
      → write_catalog_source l c user id nonce v db ≡ ok (db', out)
      → IsWrite user id nonce v db db' out
  unfolding write_catalog_source
  write_catalog_source-IsWrite user id nonce v db db' out e =
      let (_, a, e₁) = >>=-eq-ok (reject (bad_write id v) invalid) _ e in
      let (_, b, e₂) = >>=-eq-ok (reject (is_none (catalog_url l v.url)) invalid) _ e₁ in
      let (_, d, e₃) = >>=-eq-ok (reject (bad_credentials v.credentials) invalid) _ e₂ in
      let (sealed, s, e₄) =
        >>=-eq-ok (sealed_secret l c user id nonce v.deleted v.credentials) _ e₃ in
      record {
        fine = reject-eq-ok (bad_write id v) invalid a;
        linked = reject-eq-ok (is_none (catalog_url l v.url)) invalid b;
        signed = reject-eq-ok (bad_credentials v.credentials) invalid d;
        sealed = sealed;
        sealing = s;
        outcome =
            write_new-IsOutcome user id v sealed (find (user, v.operation_id) db.operations) db db'
              out refl e₄;
      }

  -- The answer of an operation of a user that has been written is given again to the same operation, and
  -- nothing changes; the codec reads back what it has written.
  pub write_catalog_source-again :
      (user id nonce nonce' : Text) (v : CatalogSourceWrite) (db db' : CatalogDb)
      (out : CatalogSource) (sealed : Option Text)
      → ((s : CatalogSource) → c.source_of (c.source s) ≡ some s)
      → sealed_secret l c user id nonce' v.deleted v.credentials ≡ ok sealed
      → write_catalog_source l c user id nonce v db ≡ ok (db', out)
      → write_catalog_source l c user id nonce' v db' ≡ ok (db', out)
  unfolding write_catalog_source
  write_catalog_source-again user id nonce nonce' v db db' out sealed lawful seals e =
      let w = write_catalog_source-IsWrite user id nonce v db db' out e in
      let key : Text × Text = (user, v.operation_id) in
      let again : (result : Text) × (find (user, v.operation_id) db'.operations
            ≡ some (c.digest id v, result))
          × (c.source_of result ≡ some out) =
        elim w.outcome [
          | inl (result, found, read, same) ↦ (result, rw same found, read)
          | inr new ↦ (
            c.source out,
            rw
                (
                  new.remembered,
                  find-append key key (c.digest id v, c.source out) db.operations new.fresh,
                )
                (simp (eq_refl key) refl),
            lawful out,
          )
        ] in
      rw (w.fine, w.linked, w.signed, seals, again.1) (simp (eq_refl (c.digest id v), again.2) refl)
