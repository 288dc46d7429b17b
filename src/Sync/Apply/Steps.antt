-- ===== src/Sync/Apply/Steps.antt =====
-- What each step of the loop over a batch guarantees, and so the whole loop.
use quire_server.Base.{
  ℕ, ◌+◌, Bool, not, none, some, List, [], ◌∷◌, ◌++◌, Text, ◌==◌, text_eq, nat_eq, pair_eq, eq_iff,
  eq_refl, find, find-upsert, find-append, find-some-append, Table, ok, conflict, decoding, demand,
  ◌>>=◌, ◌>>◌, reject, reject-eq-ok, >>=-eq-ok, ok_unique, ◌≡◌, ◌≢◌, ◌∙◌, refl, sym, subst, arith,
  Option-cases, inl, inr, append_assoc, append-nil,
}
use quire_server.Sync.Wire.{Operation, Candidate, OperationResult, Codec, IsLawful}
use quire_server.Sync.Apply.{RecordKey, key_eq, key_of, Progress, apply_operation, apply_operations}
use quire_server.Sync.Apply.Log.{log, log-append, IsLogged, IsLogged-append, IsLogged-find}
use quire_server.Sync.Apply.Batch.{result_of, entry_of, written, accept_operation-IsAccepted}

module _ (c : Codec) (user : Text) where
  -- The rows of `operations` answer each operation of a batch with a result.
  abbrev pub Answers :
      Table (Text × Text) (Text × Text) → List Operation → List OperationResult → Type 0
  Answers t [] [] = Unit
  Answers t [] (r ∷ rs) = ⊥
  Answers t (op ∷ ops) [] = ⊥
  Answers t (op ∷ ops) (r ∷ rs) =
      ((stored : Text) × (find (user, op.id) t ≡ some (c.digest op, stored))
        × (c.result_of stored ≡ some r))
      × Answers t ops rs

  Answers-append :
      (t u : Table (Text × Text) (Text × Text)) (ops : List Operation) (rs : List OperationResult)
      → Answers t ops rs
      → Answers (t ++ u) ops rs
  Answers-append t u [] [] _ = tt
  Answers-append t u [] (r ∷ rs) h = absurd h
  Answers-append t u (op ∷ ops) [] h = absurd h
  Answers-append t u (op ∷ ops) (r ∷ rs) ((stored, found, read), h) = (
    (stored, find-some-append (user, op.id) (c.digest op, stored) t u found, read),
    Answers-append t u ops rs h,
  )

  -- What a step of the loop guarantees.
  pub record IsStep (ops : List Operation) (p p' : Progress) : Type 0 where
    pub logged : IsLogged user p'.cursor p'.db.changes
    pub more : List (ℕ × Text)
    pub extends : log user p'.db.changes ≡ log user p.db.changes ++ more
    pub others : (v : Text) → v ≢ user → log v p'.db.changes ≡ log v p.db.changes
    pub foreign : (k : RecordKey) → k.user ≢ user → find k p'.db.records ≡ find k p.db.records
    pub cursors : p'.db.cursors ≡ p.db.cursors
    pub added : Table (Text × Text) (Text × Text)
    pub operations : p'.db.operations ≡ p.db.operations ++ added
    pub outcome : List OperationResult
    pub results : p'.results ≡ p.results ++ outcome
    pub answers : Answers p'.db.operations ops outcome

  IsStep-nil : (p : Progress) → IsLogged user p.cursor p.db.changes → IsStep [] p p
  IsStep-nil p h = record {
    logged = h;
    more = [];
    extends = sym (append-nil _);
    others = λ v _. refl;
    foreign = λ k _. refl;
    cursors = refl;
    added = [];
    operations = sym (append-nil _);
    outcome = [];
    results = sym (append-nil _);
    answers = tt;
  }

  written-IsStep :
      (op : Operation) (revision : ℕ) (cs : List Candidate) (stale : Bool) (p : Progress)
      → IsLawful c
      → IsLogged user p.cursor p.db.changes
      → find (user, op.id) p.db.operations ≡ none
      → IsStep (op ∷ []) p (written c user op revision cs stale p)
  written-IsStep op revision cs stale p lawful h new =
      let text = c.encode (entry_of c user op revision cs) in
      let stored : Text × Text = (c.digest op, c.result (result_of c user op revision stale)) in
      record {
        logged = IsLogged-append user p.cursor text p.db.changes h;
        more = (p.cursor + 1, text) ∷ [];
        extends = rw (log-append user user) (simp (eq_refl user) refl);
        others = λ v other.
            ground (arith, log-append user v (p.cursor + 1) text p.db.changes, eq_iff user v);
        foreign = λ k other. ground (
          arith,
          find-upsert (key_of user op) k
              (record { revision = revision + 1; candidates = c.candidates cs }) p.db.records,
          eq_iff user k.user,
        );
        cursors = refl;
        added = ((user, op.id), stored) ∷ [];
        operations = refl;
        outcome = result_of c user op revision stale ∷ [];
        results = refl;
        answers = (
          (
            stored.1,
            (rw (find-append (user, op.id) (user, op.id) stored p.db.operations new)
                (simp (eq_refl user, eq_refl op.id) refl)),
            lawful.result_back _,
          ),
          tt,
        );
      }

  known_operation-IsStep :
      (op : Operation) (p p' : Progress) (row : Text × Text)
      → IsLogged user p.cursor p.db.changes
      → find (user, op.id) p.db.operations ≡ some row
      → (reject (not (c.digest op == row.0)) conflict
          >> (demand decoding (c.result_of row.1) >>= λ result.
              ok (record p { results = p.results ++ result ∷ [] })))
        ≡ ok p'
      → IsStep (op ∷ []) p p'
  known_operation-IsStep op p p' row h found e =
      let (_, e₁, e₂) = >>=-eq-ok (reject (not (c.digest op == row.0)) conflict) _ e in
      let (result, e₃, e₄) = >>=-eq-ok (demand decoding (c.result_of row.1)) _ e₂ in
      let same : c.digest op ≡ row.0 = ground (
        arith,
        reject-eq-ok (not (c.digest op == row.0)) conflict e₁,
        eq_iff (c.digest op) row.0,
      ) in
      subst (IsStep (op ∷ []) p) (ok_unique _ refl e₄) (record {
        logged = h;
        more = [];
        extends = sym (append-nil _);
        others = λ v _. refl;
        foreign = λ k _. refl;
        cursors = refl;
        added = [];
        operations = sym (append-nil _);
        outcome = result ∷ [];
        results = refl;
        answers = ((row.1, ground (arith), ground (arith)), tt);
      })

  pub apply_operation-IsStep :
      (clock : ℕ → ℕ) (op : Operation) (p p' : Progress)
      → IsLawful c
      → IsLogged user p.cursor p.db.changes
      → apply_operation c user clock op p ≡ ok p'
      → IsStep (op ∷ []) p p'
  unfolding apply_operation
  apply_operation-IsStep clock op p p' lawful h e =
      elim (Option-cases (find (user, op.id) p.db.operations)) [
        | inl new ↦
            let a =
              accept_operation-IsAccepted c user clock op p p'
                (IsLogged-find user p.cursor p.db.changes h) new (rw (new, apply_operation) at e) in
            rw (a.wrote) (written-IsStep op a.revision _ a.stale p lawful h new)
        | inr (row, found) ↦
            known_operation-IsStep op p p' row h found (rw (found, apply_operation) at e)
      ]

  Answers-cons :
      (t : Table (Text × Text) (Text × Text)) (op : Operation) (ops : List Operation)
      (rs rs' : List OperationResult)
      → Answers t (op ∷ []) rs
      → Answers t ops rs'
      → Answers t (op ∷ ops) (rs ++ rs')
  Answers-cons t op ops [] rs' h _ = absurd h
  Answers-cons t op ops (r ∷ []) rs' (h, _) k = (h, k)
  Answers-cons t op ops (r ∷ r' ∷ rs) rs' (h, h') k = absurd h'

  IsStep-append :
      (op : Operation) (ops : List Operation) (p q r : Progress)
      → IsStep (op ∷ []) p q
      → IsStep ops q r
      → IsStep (op ∷ ops) p r
  IsStep-append op ops p q r s t = record {
    logged = t.logged;
    more = s.more ++ t.more;
    extends = simp (t.extends, s.extends, append_assoc);
    others = λ v other. t.others v other ∙ s.others v other;
    foreign = λ k other. t.foreign k other ∙ s.foreign k other;
    cursors = t.cursors ∙ s.cursors;
    added = s.added ++ t.added;
    operations = simp (t.operations, s.operations, append_assoc);
    outcome = s.outcome ++ t.outcome;
    results = simp (t.results, s.results, append_assoc);
    answers =
        Answers-cons r.db.operations op ops s.outcome t.outcome
          (rw (t.operations) (Answers-append q.db.operations t.added (op ∷ []) s.outcome s.answers))
          t.answers;
  }

  pub apply_operations-IsStep :
      (clock : ℕ → ℕ) (ops : List Operation) (p p' : Progress)
      → IsLawful c
      → IsLogged user p.cursor p.db.changes
      → apply_operations c user clock ops p ≡ ok p'
      → IsStep ops p p'
  unfolding apply_operations
  apply_operations-IsStep clock [] p p' lawful h e =
      subst (IsStep [] p) (ok_unique _ refl e) (IsStep-nil p h)
  apply_operations-IsStep clock (op ∷ ops) p p' lawful h e =
      let (q, e₁, e₂) = >>=-eq-ok (apply_operation c user clock op p) _ e in
      let s = apply_operation-IsStep clock op p q lawful h e₁ in
      IsStep-append op ops p q p' s (apply_operations-IsStep clock ops q p' lawful (s.logged) e₂)
