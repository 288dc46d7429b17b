-- ===== src/Sync/Apply/Batch.antt =====
-- What an operation and a batch of them do to the tables.
use quire_server.Base.{
  ℕ, ◌+◌, ◌≤◌, ◌<◌, Bool, not, none, List, [], ◌∷◌, ◌++◌, Text, length, ltb, leb, ◌==◌, text_eq,
  nat_eq, pair_eq, if◌then◌else◌, find, insert_fresh, upsert, pos_part, ok, conflict, reject,
  reject-eq-ok, >>=-eq-ok, ok_unique, ◌≡◌, refl, arith,
}
use quire_server.Sync.Wire.{Operation, Candidate, Record, OperationResult, Codec}
use quire_server.Sync.Apply.{
  key_eq, key_of, Progress, load_record, settle_value, store_operation, accept_operation,
}

module _ (c : Codec) (user : Text) where
  abbrev pub result_of : Operation → ℕ → Bool → OperationResult
  result_of op revision stale = record { id = op.id; revision = revision + 1; conflict = stale }

  abbrev pub entry_of : Operation → ℕ → List Candidate → Record
  entry_of op revision cs = record {
    book_id = op.book_id;
    kind = op.kind;
    record_id = op.record_id;
    revision = revision + 1;
    candidates = cs;
  }

  -- The progress after the writes of an accepted operation.
  abbrev pub written : Operation → ℕ → List Candidate → Bool → Progress → Progress
  written op revision cs stale p = record {
    db = record {
      cursors = p.db.cursors;
      records =
          upsert (key_of user op) (record { revision = revision + 1; candidates = c.candidates cs })
            p.db.records;
      changes = p.db.changes ++ ((user, p.cursor + 1), c.encode (entry_of op revision cs)) ∷ [];
      operations =
          p.db.operations
          ++ ((user, op.id), (c.digest op, c.result (result_of op revision stale))) ∷ [];
    };
    cursor = p.cursor + 1;
    results = p.results ++ result_of op revision stale ∷ [];
  }

  pub store_operation_lem :
      (now : ℕ) (op : Operation) (revision : ℕ) (cs : List Candidate) (stale : Bool) (p : Progress)
      → find (user, p.cursor + 1) p.db.changes ≡ none
      → find (user, op.id) p.db.operations ≡ none
      → store_operation c user now op revision cs stale p ≡ ok (written op revision cs stale p)
  unfolding store_operation
  store_operation_lem now op revision cs stale p free new = simp (
    insert_fresh (user, p.cursor + 1) (c.encode (entry_of op revision cs)) p.db.changes free,
    insert_fresh (user, op.id) (c.digest op, c.result (result_of op revision stale)) p.db.operations
        new,
  )

  -- An accepted operation, with the record that it found and what it wrote.
  pub record IsAccepted (clock : ℕ → ℕ) (op : Operation) (p p' : Progress) : Type 0 where
    pub revision : ℕ
    pub candidates : List Candidate
    pub loaded : load_record c (key_of user op) p.db ≡ ok (revision, candidates)
    pub current : pos_part op.base_revision ≤ revision
    pub value : Text
    pub stale : Bool
    pub stale_iff : stale ≡ not (pos_part op.base_revision == revision)
    pub value_settled : settle_value c op candidates stale ≡ ok value
    pub room : length (if stale then candidates else []) < 16
    pub wrote :
        p'
        ≡ written op revision
            ((if stale then candidates else [])
              ++ record {
                operation_id = op.id;
                deleted = op.deleted;
                value = value;
                created_at = clock p.cursor;
              }
                ∷ [])
            stale
            p

  pub accept_operation-IsAccepted :
      (clock : ℕ → ℕ) (op : Operation) (p p' : Progress)
      → find (user, p.cursor + 1) p.db.changes ≡ none
      → find (user, op.id) p.db.operations ≡ none
      → accept_operation c user clock op p ≡ ok p'
      → IsAccepted clock op p p'
  unfolding accept_operation
  accept_operation-IsAccepted clock op p p' free new h =
      let (found, loaded, h₁) = >>=-eq-ok (load_record c (key_of user op) p.db) _ h in
      let (_, fresh, h₂) =
        >>=-eq-ok (reject (ltb found.0 (pos_part op.base_revision)) conflict) _ h₁ in
      let stale = not (pos_part op.base_revision == found.0) in
      let (value, value_settled, h₃) = >>=-eq-ok (settle_value c op found.1 stale) _ h₂ in
      let (_, space, h₄) =
        >>=-eq-ok (reject (leb 16 (length (if stale then found.1 else []))) conflict) _ h₃ in
      record {
        revision = found.0;
        candidates = found.1;
        loaded = loaded;
        current = ground (arith, reject-eq-ok _ conflict fresh);
        value = value;
        stale = stale;
        stale_iff = refl;
        value_settled = value_settled;
        room =
            ground (
              arith,
              reject-eq-ok (leb 16 (length (if stale then found.1 else []))) conflict space,
            );
        wrote = ok_unique _ h₄ (store_operation_lem (clock p.cursor) op found.0 _ stale p free new);
      }
