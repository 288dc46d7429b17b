-- ===== src/Sync/Apply/Candidates.antt =====
-- What a record's candidates become.
use quire_server.Base.{
  ℕ, ◌+◌, ◌≤◌, ◌<◌, Bool, not, none, some, List, [], ◌∷◌, ◌++◌, Text, length, length-append, ◌==◌,
  text_eq, pair_eq, nat_eq, eq_iff, eq_refl, if◌then◌else◌, find, find-upsert, pos_part, ok,
  conflict, decoding, demand, reject, >>=-eq-ok, ok_unique, ◌≡◌, ◌≢◌, ◌⊎◌, inl, inr, refl, sym, ap,
  subst, arith, Bool-cases, Option-cases,
}
use quire_server.Sync.Wire.{Operation, Candidate, SyncRequest, SyncResponse, Codec, IsLawful}
use quire_server.Sync.Apply.{
  Db, RecordKey, RecordRow, key_eq, key_of, Progress, load_record, apply_operation,
  apply_operations, sync,
}
use quire_server.Sync.Apply.Log.{log, IsLogged, IsLogged-find}
use quire_server.Sync.Apply.Batch.{IsAccepted, accept_operation-IsAccepted, written}
use quire_server.Sync.Apply.Steps.{apply_operation-IsStep}
use quire_server.Sync.Apply.Page.{IsConsistent, sync-IsSynced, start, IsSynced-IsStep, find-cursors}

module _ (c : Codec) (user : Text) where
  -- An operation that succeeds was known before, and the tables stay; or it is accepted.
  apply_operation-cases :
      (clock : ℕ → ℕ) (op : Operation) (p p' : Progress)
      → IsLogged user p.cursor p.db.changes
      → apply_operation c user clock op p ≡ ok p'
      → (p'.db ≡ p.db) ⊎ IsAccepted c user clock op p p'
  unfolding apply_operation
  apply_operation-cases clock op p p' h e =
      elim (Option-cases (find (user, op.id) p.db.operations)) [
        | inl new ↦ inr (
            accept_operation-IsAccepted c user clock op p p'
              (IsLogged-find user p.cursor p.db.changes h) new (rw (new, apply_operation) at e))
        | inr (row, found) ↦
            let e' = rw (found, apply_operation) at e in
            let (_, _, e₁) = >>=-eq-ok (reject (not (c.digest op == row.0)) conflict) _ e' in
            let (result, _, e₂) = >>=-eq-ok (demand decoding (c.result_of row.1)) _ e₁ in
            inl (ap (λ q. q.db) (sym (ok_unique _ refl e₂)))
      ]

  -- The record that a new operation leaves, from the revision and the candidates that it found.
  pub record IsSettled (clock : ℕ → ℕ) (op : Operation) (p p' : Progress) : Type 0 where
    pub revision : ℕ
    pub candidates : List Candidate
    pub loaded : load_record c (key_of user op) p.db ≡ ok (revision, candidates)
    pub base : pos_part op.base_revision ≤ revision
    pub stale : Bool
    pub stale_iff : stale ≡ not (pos_part op.base_revision == revision)
    pub candidate : Candidate
    pub named : (candidate.operation_id ≡ op.id) × (candidate.deleted ≡ op.deleted)
    pub stored :
        find (key_of user op) p'.db.records
        ≡ some (record {
          revision = revision + 1;
          candidates = c.candidates ((if stale then candidates else []) ++ candidate ∷ []);
        })
    pub bounded : length ((if stale then candidates else []) ++ candidate ∷ []) ≤ 16
    pub answered :
        p'.results
        ≡ p.results ++ record { id = op.id; revision = revision + 1; conflict = stale } ∷ []

  -- A new operation that is accepted raises the record's revision by one. If its base revision is the
  -- current one, its candidate replaces all others; if it is older, its candidate is added behind
  -- them, none is lost, and the result reports the conflict. A record never gets past 16 candidates.
  pub apply_operation-IsSettled :
      (clock : ℕ → ℕ) (op : Operation) (p p' : Progress)
      → IsLogged user p.cursor p.db.changes
      → find (user, op.id) p.db.operations ≡ none
      → apply_operation c user clock op p ≡ ok p'
      → IsSettled clock op p p'
  unfolding apply_operation
  apply_operation-IsSettled clock op p p' h new e =
      let a =
        accept_operation-IsAccepted c user clock op p p'
          (IsLogged-find user p.cursor p.db.changes h) new (rw (new, apply_operation) at e) in
      let candidate : Candidate = record {
        operation_id = op.id;
        deleted = op.deleted;
        value = a.value;
        created_at = clock p.cursor;
      } in
      let before = if a.stale then a.candidates else [] in
      let row : RecordRow = record {
        revision = a.revision + 1;
        candidates = c.candidates (before ++ candidate ∷ []);
      } in
      record {
        revision = a.revision;
        candidates = a.candidates;
        loaded = a.loaded;
        base = a.current;
        stale = a.stale;
        stale_iff = a.stale_iff;
        candidate = candidate;
        named = (refl, refl);
        stored = rw (a.wrote) (
            rw (find-upsert (key_of user op) (key_of user op) row p.db.records)
              (simp (eq_refl (key_of user op)) refl));
        bounded = omega (arith, a.room, length-append {0} before (candidate ∷ []));
        answered = ap (λ q. q.results) a.wrote;
      }

  -- Every record holds between 1 and 16 candidates.
  pub record IsBounded (db : Db) : Type 0 where
    pub at_key :
        (k : RecordKey) (row : RecordRow)
        → find k db.records ≡ some row
        → (cs : List Candidate) × (c.candidates_of row.candidates ≡ some cs)
          × (1 ≤ length cs)
          × (length cs ≤ 16)

  written-IsBounded :
      (op : Operation) (revision : ℕ) (before : List Candidate) (last : Candidate) (stale : Bool)
      (p : Progress)
      → IsLawful c
      → length before < 16
      → IsBounded p.db
      → IsBounded (written c user op revision (before ++ last ∷ []) stale p).db
  written-IsBounded op revision before last stale p lawful room h =
      let cs = before ++ last ∷ [] in
      let row : RecordRow = record { revision = revision + 1; candidates = c.candidates cs } in
      record {
        at_key = λ k found e.
            let e' = rw (find-upsert (key_of user op) k row p.db.records) at e in
            elim (Bool-cases (key_of user op == k)) [
              | inl same ↦
                  let (back, read, size) = lawful.candidates_back cs in
                  let e'' : row ≡ found = cc (simp same at e') in
                  (
                    back,
                    rw (← e'') read,
                    omega (arith, length-append {0} before (last ∷ [])),
                    omega (arith, length-append {0} before (last ∷ [])),
                  )
              | inr other ↦ h.at_key k found (simp other at e')
            ];
      }

  apply_operations-IsBounded :
      (clock : ℕ → ℕ) (ops : List Operation) (p p' : Progress)
      → IsLawful c
      → IsLogged user p.cursor p.db.changes
      → IsBounded p.db
      → apply_operations c user clock ops p ≡ ok p'
      → IsBounded p'.db
  unfolding apply_operations
  apply_operations-IsBounded clock [] p p' lawful h b e =
      subst (λ q. IsBounded q.db) (ok_unique (apply_operations c user clock [] p) refl e) b
  apply_operations-IsBounded clock (op ∷ ops) p p' lawful h b e =
      let (q, e₁, e₂) = >>=-eq-ok (apply_operation c user clock op p) _ e in
      let s = apply_operation-IsStep c user clock op p q lawful h e₁ in
      let b' : IsBounded q.db = elim (apply_operation-cases clock op p q h e₁) [
        | inl same ↦ rw same b
        | inr a ↦ rw (a.wrote) (
            written-IsBounded op a.revision (if a.stale then a.candidates else []) _ a.stale p
              lawful a.room b)
      ] in
      apply_operations-IsBounded clock ops q p' lawful s.logged b' e₂

  -- A successful request on consistent tables keeps every record within 1 and 16 candidates.
  pub sync-IsBounded :
      (clock : ℕ → ℕ) (req : SyncRequest) (db db' : Db) (res : SyncResponse)
      → IsLawful c
      → IsConsistent db
      → IsBounded db
      → sync c user clock req db ≡ ok (db', res)
      → IsBounded db'
  sync-IsBounded clock req db db' res lawful consistent b e =
      let s = sync-IsSynced c user clock req db db' res e in
      let b' =
        apply_operations-IsBounded clock req.operations (start c user clock req db s.cursor) s.end
          lawful (consistent.logged user s.cursor s.known) b s.applied in
      rw (s.db_eq) (record { at_key = b'.at_key })

  -- A successful request on consistent tables leaves every record of another user, and that user's
  -- changes and cursor, as they are.
  pub sync_isolated :
      (clock : ℕ → ℕ) (req : SyncRequest) (db db' : Db) (res : SyncResponse) (v : Text)
      (k : RecordKey)
      → IsLawful c
      → IsConsistent db
      → v ≢ user
      → k.user ≡ v
      → sync c user clock req db ≡ ok (db', res)
      → (find k db'.records ≡ find k db.records)
        × (log v db'.changes ≡ log v db.changes)
        × (find v db'.cursors ≡ find v db.cursors)
  sync_isolated clock req db db' res v k lawful consistent other at e =
      let s = sync-IsSynced c user clock req db db' res e in
      let step = IsSynced-IsStep c user clock req db db' res lawful consistent s in
      let changes_eq : db'.changes ≡ s.end.db.changes = ap (λ d. d.changes) s.db_eq in
      let records_eq : db'.records ≡ s.end.db.records = ap (λ d. d.records) s.db_eq in
      (
        rw records_eq (step.foreign k (rw at other)),
        rw changes_eq (step.others v other),
        rw (find-cursors c user clock req db db' res lawful consistent s v)
            (ground (arith, eq_iff user v)),
      )
