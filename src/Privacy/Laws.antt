-- ===== src/Privacy/Laws.antt =====
-- What a synchronisation of the privacy settings does.
use quire_server.Base.{
  ℕ, ◌+◌, ◌≤◌, ◌≡◌, ◌≢◌, inl, inr, refl, subst, ap, sym, ◌∙◌, true, false, not, ◌||◌, Option, none,
  some, Text, ltb, ◌==◌, text_eq, nat_eq, eq_iff, eq_refl, upsert, find-upsert, ℤ, pos, negsuc,
  is_neg, pos_part, ok, invalid, conflict, reject, reject-eq-ok, >>=-eq-ok, ok_unique, arith,
  Bool-cases,
}
use quire_server.Privacy.{
  PrivacySettings, PrivacyRequest, PrivacyResponse, PrivacyCodec, IsLawful, PrivacyTable,
  valid_settings, drops_passcode, max_revision, load_settings, write_settings, sync_privacy,
}

module _ (c : PrivacyCodec) (user : Text) where
  -- What a write leaves behind: nothing where it is refused or brings nothing new; else the new
  -- settings at the next revision.
  pub data Outcome (base : ℕ) (new : PrivacySettings) (revision : ℕ) (old : PrivacySettings)
      (t : PrivacyTable) : PrivacyTable → PrivacyResponse → Type 0 where
    refused :
        base ≢ revision
        → Outcome base new revision old t t
            (record { revision = revision; state = old; accepted = false })
    same :
        base ≡ revision
        → c.encode new ≡ c.encode old
        → drops_passcode old new ≡ false
        → Outcome base new revision old t t
            (record { revision = revision; state = old; accepted = true })
    written :
        base ≡ revision
        → c.encode new ≢ c.encode old
        → drops_passcode old new ≡ false
        → Outcome base new revision old t
            (upsert user (revision + 1, c.encode new) t)
            (record { revision = revision + 1; state = new; accepted = true })

  write_settings-Outcome :
      (base : ℕ) (new : PrivacySettings) (revision : ℕ) (old : PrivacySettings)
      (t t' : PrivacyTable) (r : PrivacyResponse)
      → write_settings c user base new revision old t ≡ ok (t', r)
      → Outcome base new revision old t t' r
  unfolding write_settings
  write_settings-Outcome base new revision old t t' r e = elim (Bool-cases (base == revision)) [
    | inr other ↦
        subst (λ p. Outcome base new revision old t p.0 p.1) (ok_unique _ refl (simp other at e))
          (refused (ground arith))
    | inl at ↦
        let (_, kept, e₁) = >>=-eq-ok (reject (drops_passcode old new) invalid) _ (simp at at e) in
        let keeps = reject-eq-ok (drops_passcode old new) invalid kept in
        let base_eq : base ≡ revision = ground arith in
        elim (Bool-cases (c.encode new == c.encode old)) [
          | inl equal ↦
              subst (λ p. Outcome base new revision old t p.0 p.1)
                (ok_unique _ refl (simp equal at e₁))
                (same base_eq ((eq_iff (c.encode new) (c.encode old)).0 equal) keeps)
          | inr differs ↦
              subst (λ p. Outcome base new revision old t p.0 p.1)
                (ok_unique _ refl (simp differs at e₁))
                (written base_eq (ground (arith, eq_iff (c.encode new) (c.encode old))) keeps)
        ]
  ]

  -- A request with a state that succeeds is a write over the settings that the user has.
  pub record IsWrite (base : ℕ) (new : PrivacySettings) (t t' : PrivacyTable) (r : PrivacyResponse)
      : Type 0 where
    pub revision : ℕ
    pub old : PrivacySettings
    pub loaded : load_settings c user t ≡ ok (revision, old)
    pub valid : valid_settings new ≡ true
    pub within : base ≤ revision
    pub outcome : Outcome base new revision old t t' r

  -- Writing is a compare-and-swap: a request that succeeds names a revision that is not past the
  -- stored one. At an older revision nothing is stored and the client gets the current settings; at the
  -- current one the settings are stored under the next revision, or nothing is if they are the same.
  pub sync_privacy-IsWrite :
      (base : ℕ) (new : PrivacySettings) (t t' : PrivacyTable) (r : PrivacyResponse)
      → sync_privacy c user (record { revision = pos base; state = some new }) t ≡ ok (t', r)
      → IsWrite base new t t' r
  unfolding sync_privacy
  sync_privacy-IsWrite base new t t' r e =
      let (_, _, e₁) = >>=-eq-ok (reject (ltb max_revision base) invalid) _ e in
      let (_, v, e₂) = >>=-eq-ok (reject (not (valid_settings new)) invalid) _ e₁ in
      let (found, l, e₃) = >>=-eq-ok (load_settings c user t) _ e₂ in
      let (_, w, e₄) = >>=-eq-ok (reject (ltb found.0 base) conflict) _ e₃ in
      record {
        revision = found.0;
        old = found.1;
        loaded = l;
        valid = ground (arith, reject-eq-ok (not (valid_settings new)) invalid v);
        within = ground (arith, reject-eq-ok (ltb found.0 base) conflict w);
        outcome = write_settings-Outcome base new found.0 found.1 t t' r e₄;
      }

  load_settings-upsert :
      (n : ℕ) (s : PrivacySettings) (t : PrivacyTable)
      → IsLawful c
      → load_settings c user (upsert user (n, c.encode s) t) ≡ ok (n, s)
  unfolding load_settings
  load_settings-upsert n s t lawful =
      rw (find-upsert user user (n, c.encode s) t, load_settings)
        (simp (eq_refl user, lawful.back s) refl)

  -- After a request with a state that succeeds, the user's stored revision and settings are exactly those of the response.
  pub sync_privacy_stored :
      (base : ℕ) (new : PrivacySettings) (t t' : PrivacyTable) (r : PrivacyResponse)
      → IsLawful c
      → sync_privacy c user (record { revision = pos base; state = some new }) t ≡ ok (t', r)
      → load_settings c user t' ≡ ok (r.revision, r.state)
  sync_privacy_stored base new t t' r lawful e =
      let w = sync_privacy-IsWrite base new t t' r e in stored w.revision w.old w.loaded w.outcome
    where
      stored :
          (revision : ℕ) (old : PrivacySettings)
          → load_settings c user t ≡ ok (revision, old)
          → {t' : PrivacyTable} {r : PrivacyResponse} → Outcome base new revision old t t' r
          → load_settings c user t' ≡ ok (r.revision, r.state)
      stored revision old l (refused _) = l
      stored revision old l (same _ _ _) = l
      stored revision old l (written _ _ _) = load_settings-upsert (revision + 1) new t lawful

  abbrev pub HasPasscode : PrivacySettings → Type 0
  HasPasscode s = s.credential ≢ none

  negative_refused :
      (n : ℕ) (new : PrivacySettings) (t : PrivacyTable) (out : PrivacyTable × PrivacyResponse)
      → sync_privacy c user (record { revision = negsuc n; state = some new }) t ≢ ok out
  unfolding sync_privacy
  negative_refused n new t out e = cc

  -- A request without a state only reads.
  sync_privacy_reads :
      (base : ℤ) (t t' : PrivacyTable) (r : PrivacyResponse) (revision : ℕ) (old : PrivacySettings)
      → load_settings c user t ≡ ok (revision, old)
      → sync_privacy c user (record { revision = base; state = none }) t ≡ ok (t', r)
      → (t' ≡ t) × (r.revision ≡ revision) × (r.state ≡ old)
  unfolding sync_privacy
  sync_privacy_reads base t t' r revision old l e =
      let (_, _, e₁) =
        >>=-eq-ok (reject (is_neg base || ltb max_revision (pos_part base)) invalid) _ e in
      let (found, l', e₂) = >>=-eq-ok (load_settings c user t) _ e₁ in
      let pair = ok_unique (load_settings c user t) l' l in
      let out = ok_unique _ refl e₂ in
      (
        sym (ap (λ p. p.0) out),
        sym (ap (λ p. p.1.revision) out) ∙ ap (λ p. p.0) pair,
        sym (ap (λ p. p.1.state) out) ∙ ap (λ p. p.1) pair,
      )

  -- No request takes a passcode away: where the stored settings had one and a request succeeds, with or
  -- without a state, the settings that are stored afterwards are those of the response, and they have
  -- one.
  pub sync_privacy_keeps_passcode :
      (req : PrivacyRequest) (revision : ℕ) (old : PrivacySettings) (t t' : PrivacyTable)
      (r : PrivacyResponse)
      → IsLawful c
      → load_settings c user t ≡ ok (revision, old)
      → HasPasscode old
      → sync_privacy c user req t ≡ ok (t', r)
      → (load_settings c user t' ≡ ok (r.revision, r.state)) × HasPasscode r.state
  sync_privacy_keeps_passcode req revision old t t' r lawful l has e = go req.revision req.state e
    where
      kept :
          (new : PrivacySettings) (base revision : ℕ) (old : PrivacySettings)
          → HasPasscode old
          → {t' : PrivacyTable} {r : PrivacyResponse} → Outcome base new revision old t t' r
          → HasPasscode r.state
      kept new base revision old has (refused _) = has
      kept new base revision old has (same _ _ _) = has
      kept new base revision old has (written _ _ keeps) = ground arith

      go :
          (base : ℤ) (state : Option PrivacySettings)
          → sync_privacy c user (record { revision = base; state = state }) t ≡ ok (t', r)
          → (load_settings c user t' ≡ ok (r.revision, r.state)) × HasPasscode r.state
      go base none e =
          let (t_eq, n_eq, s_eq) = sync_privacy_reads base t t' r revision old l e in
          (rw (t_eq, n_eq, s_eq) l, rw s_eq has)
      go (negsuc n) (some new) e = absurd (negative_refused n new t (t', r) e)
      go (pos base) (some new) e =
          let w = sync_privacy-IsWrite base new t t' r e in
          let old_eq : w.old ≡ old =
            ap (λ p. p.1) (ok_unique (load_settings c user t) w.loaded l) in
          (
            sync_privacy_stored base new t t' r lawful e,
            kept new base w.revision w.old (rw old_eq has) w.outcome,
          )
