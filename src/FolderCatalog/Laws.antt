-- ===== src/FolderCatalog/Laws.antt =====
-- What a synchronisation of the folder catalog does.
use quire_server.Base.{
  ℕ, ◌+◌, ◌≤◌, ◌≡◌, ◌≢◌, inl, inr, refl, subst, true, false, some, Text, ltb, ◌==◌, text_eq, nat_eq,
  eq_iff, eq_refl, upsert, find-upsert, pos, ok, invalid, conflict, reject, reject-eq-ok, >>=-eq-ok,
  ok_unique, arith, Bool-cases,
}
use quire_server.Privacy.{max_revision}
use quire_server.FolderCatalog.{
  FolderCatalog, FolderCatalogResponse, CatalogCodec, IsLawful, CatalogTable, validated_catalog,
  load_catalog, write_catalog, checked_state, sync_catalog,
}

module _ (c : CatalogCodec) (user : Text) where
  pub data Outcome (base : ℕ) (new : FolderCatalog) (revision : ℕ) (old : FolderCatalog)
      (t : CatalogTable) : CatalogTable → FolderCatalogResponse → Type 0 where
    refused :
        base ≢ revision
        → c.encode new ≢ c.encode old
        → Outcome base new revision old t t
            (record { revision = revision; state = old; accepted = false })
    same :
        c.encode new ≡ c.encode old
        → Outcome base new revision old t t
            (record { revision = revision; state = old; accepted = true })
    written :
        base ≡ revision
        → c.encode new ≢ c.encode old
        → Outcome base new revision old t
            (upsert user (revision + 1, c.encode new) t)
            (record { revision = revision + 1; state = new; accepted = true })

  write_catalog-Outcome :
      (base : ℕ) (new : FolderCatalog) (revision : ℕ) (old : FolderCatalog) (t t' : CatalogTable)
      (r : FolderCatalogResponse)
      → write_catalog c user base new revision old t ≡ ok (t', r)
      → Outcome base new revision old t t' r
  unfolding write_catalog
  write_catalog-Outcome base new revision old t t' r e =
      elim (Bool-cases (c.encode new == c.encode old)) [
        | inl equal ↦ elim (Bool-cases (base == revision)) [
          | inl at ↦
              subst (λ p. Outcome base new revision old t p.0 p.1)
                (ok_unique _ refl (simp (equal, at) at e))
                (same ((eq_iff (c.encode new) (c.encode old)).0 equal))
          | inr other ↦
              subst (λ p. Outcome base new revision old t p.0 p.1)
                (ok_unique _ refl (simp (equal, other) at e))
                (same ((eq_iff (c.encode new) (c.encode old)).0 equal))
        ]
        | inr differs ↦
            let apart : c.encode new ≢ c.encode old =
              ground (arith, eq_iff (c.encode new) (c.encode old)) in
            elim (Bool-cases (base == revision)) [
              | inl at ↦
                  subst (λ p. Outcome base new revision old t p.0 p.1)
                    (ok_unique _ refl (simp (differs, at) at e)) (written (ground arith) apart)
              | inr other ↦
                  subst (λ p. Outcome base new revision old t p.0 p.1)
                    (ok_unique _ refl (simp (differs, other) at e)) (refused (ground arith) apart)
            ]
      ]

  pub record IsWrite (base : ℕ) (sent : FolderCatalog) (t t' : CatalogTable)
      (r : FolderCatalogResponse) : Type 0 where
    pub new : FolderCatalog
    pub validated : validated_catalog c sent ≡ ok new
    pub revision : ℕ
    pub old : FolderCatalog
    pub loaded : load_catalog c user t ≡ ok (revision, old)
    pub within : base ≤ revision
    pub outcome : Outcome base new revision old t t' r

  -- Writing is a compare-and-swap: a request that succeeds names a revision that is not past the
  -- stored one. A catalog equal to the stored one is accepted and stores nothing; another one is stored
  -- under the next revision if the request names the current revision, and is refused if it names an
  -- older one, when nothing is stored and the client gets the current catalog.
  pub sync_catalog-IsWrite :
      (base : ℕ) (sent : FolderCatalog) (t t' : CatalogTable) (r : FolderCatalogResponse)
      → sync_catalog c user (record { revision = pos base; state = some sent }) t ≡ ok (t', r)
      → IsWrite base sent t t' r
  unfolding sync_catalog checked_state
  sync_catalog-IsWrite base sent t t' r e =
      let (_, _, e₁) = >>=-eq-ok (reject (ltb max_revision base) invalid) _ e in
      let (st, s, e₂) = >>=-eq-ok (checked_state c (some sent)) _ e₁ in
      let (new, v, s₁) = >>=-eq-ok (validated_catalog c sent) _ s in
      let st_eq : some new ≡ st = ok_unique _ refl s₁ in
      let (found, l, e₃) = >>=-eq-ok (load_catalog c user t) _ e₂ in
      let e₄ = rw (← st_eq) at e₃ in
      let (_, w, e₅) = >>=-eq-ok (reject (ltb found.0 base) conflict) _ e₄ in
      record {
        new = new;
        validated = v;
        revision = found.0;
        old = found.1;
        loaded = l;
        within = ground (arith, reject-eq-ok (ltb found.0 base) conflict w);
        outcome = write_catalog-Outcome base new found.0 found.1 t t' r e₅;
      }

  load_catalog-upsert :
      (n : ℕ) (s : FolderCatalog) (t : CatalogTable)
      → IsLawful c
      → load_catalog c user (upsert user (n, c.encode s) t) ≡ ok (n, s)
  unfolding load_catalog
  load_catalog-upsert n s t lawful =
      rw (find-upsert user user (n, c.encode s) t, load_catalog)
        (simp (eq_refl user, lawful.back s) refl)

  sync_catalog_again :
      (base n : ℕ) (sent new : FolderCatalog) (t : CatalogTable)
      → ltb max_revision base ≡ false
      → validated_catalog c sent ≡ ok new
      → load_catalog c user t ≡ ok (n, new)
      → base ≤ n
      → sync_catalog c user (record { revision = pos base; state = some sent }) t
        ≡ ok (t, record { revision = n; state = new; accepted = true })
  unfolding sync_catalog checked_state write_catalog
  sync_catalog_again base n sent new t bounded v l le =
      let within : ltb n base ≡ false = ground arith in
      simp (bounded, v, l, within, eq_refl (c.encode new)) (ground arith)

  -- A write that was accepted and whose response was lost can be sent again: it is accepted once more,
  -- with the same response, and stores nothing.
  pub sync_catalog_retry :
      (base : ℕ) (sent : FolderCatalog) (t t' : CatalogTable) (r : FolderCatalogResponse)
      → IsLawful c
      → r.accepted ≡ true
      → sync_catalog c user (record { revision = pos base; state = some sent }) t ≡ ok (t', r)
      → sync_catalog c user (record { revision = pos base; state = some sent }) t' ≡ ok (t', r)
  unfolding sync_catalog
  sync_catalog_retry base sent t t' r lawful accepted e =
      let (_, b, _) = >>=-eq-ok (reject (ltb max_revision base) invalid) _ e in
      let w = sync_catalog-IsWrite base sent t t' r e in
      again w.new w.revision w.old (reject-eq-ok (ltb max_revision base) invalid b) w.validated
        w.loaded w.within accepted w.outcome
    where
      again :
          (new : FolderCatalog) (revision : ℕ) (old : FolderCatalog)
          → ltb max_revision base ≡ false
          → validated_catalog c sent ≡ ok new
          → load_catalog c user t ≡ ok (revision, old)
          → base ≤ revision
          → {t' : CatalogTable} {r : FolderCatalogResponse} → r.accepted ≡ true
          → Outcome base new revision old t t' r
          → sync_catalog c user (record { revision = pos base; state = some sent }) t' ≡ ok (t', r)
      again new revision old b v l le accepted (refused _ _) = cc
      again new revision old b v l le accepted (same equal) =
          let new_eq : new ≡ old = cc (lawful.back new, lawful.back old, equal) in
          rw (← new_eq) (sync_catalog_again base revision sent new t b v (rw new_eq l) le)
      again new revision old b v l le accepted (written at _) =
          sync_catalog_again base (revision + 1) sent new _ b v
            (load_catalog-upsert (revision + 1) new t lawful) (omega arith)
