-- ===== src/Sync/Apply/Retry.antt =====
-- A batch may be sent again: the stored results are given once more and nothing is written.
use quire_server.Base.{
  ℕ, ◌≤◌, length-append, false, ◌||◌, some, List, [], ◌∷◌, ◌++◌, Text, ltb, text_eq, pair_eq,
  eq_refl, find, find-upsert, upsert, upsert-upsert, pos_part, is_neg, length, ok, ◌≡◌, ◌∙◌, refl,
  sym, ap, arith, append-nil, append_assoc,
}
use quire_server.Sync.Wire.{
  Operation, Change, OperationResult, SyncRequest, SyncResponse, Codec, IsLawful,
}
use quire_server.Sync.Apply.{
  Db, Progress, page_rows, read_page, apply_operation, apply_operations, validate_operations, sync,
}
use quire_server.Sync.Apply.Log.{log}
use quire_server.Sync.Apply.Steps.{Answers}
use quire_server.Sync.Apply.Page.{IsConsistent, sync-IsSynced, start, IsSynced-IsStep}

le→ltb_false : {n m : ℕ} → m ≤ n → ltb n m ≡ false
le→ltb_false h = ground arith

module _ (c : Codec) (user : Text) where
  apply_operation-answered :
      (clock : ℕ → ℕ) (op : Operation) (p : Progress) (stored : Text) (r : OperationResult)
      → find (user, op.id) p.db.operations ≡ some (c.digest op, stored)
      → c.result_of stored ≡ some r
      → apply_operation c user clock op p ≡ ok (record p { results = p.results ++ r ∷ [] })
  unfolding apply_operation
  apply_operation-answered clock op p stored r found read =
      rw (found, apply_operation) (simp (eq_refl (c.digest op), read) refl)

  apply_operations-answered :
      (clock : ℕ → ℕ) (ops : List Operation) (rs : List OperationResult) (p : Progress)
      → Answers c user p.db.operations ops rs
      → apply_operations c user clock ops p ≡ ok (record p { results = p.results ++ rs })
  unfolding apply_operations
  apply_operations-answered clock [] [] p _ = rw (append-nil p.results)
  apply_operations-answered clock [] (r ∷ rs) p h = absurd h
  apply_operations-answered clock (op ∷ ops) [] p h = absurd h
  apply_operations-answered clock (op ∷ ops) (r ∷ rs) p ((stored, found, read), h) =
      rw (apply_operation-answered clock op p stored r found read) (
        rw (apply_operations-answered clock ops rs (record p { results = p.results ++ r ∷ [] }) h)
          (simp append_assoc refl))

  sync_of :
      (clock : ℕ → ℕ) (req : SyncRequest) (db : Db) (n : ℕ) (p : Progress) (page : List Change × ℕ)
      → (is_neg req.cursor || ltb 50 (length req.operations)) ≡ false
      → validate_operations c req.operations ≡ ok tt
      → find user db.cursors ≡ some n
      → ltb n (pos_part req.cursor) ≡ false
      → apply_operations c user clock req.operations (start c user clock req db n) ≡ ok p
      → read_page c (page_rows user (pos_part req.cursor) p.db) (pos_part req.cursor) ≡ ok page
      → sync c user clock req db
        ≡ ok (
          record (p.db) { cursors = upsert user p.cursor p.db.cursors },
          record {
            results = p.results;
            changes = page.0;
            cursor = page.1;
            has_more = ltb page.1 p.cursor;
          },
        )
  unfolding sync
  sync_of clock req db n p page bounded validated known within applied paged =
      simp (bounded, validated, known, within, applied, paged) refl

  -- A request that succeeded on consistent tables can be sent again to the tables that it left, at
  -- any later time: it succeeds with the same response and leaves the tables exactly as they are.
  pub sync-retry :
      (clock clock' : ℕ → ℕ) (req : SyncRequest) (db db' : Db) (res : SyncResponse)
      → IsLawful c
      → IsConsistent db
      → sync c user clock req db ≡ ok (db', res)
      → sync c user clock' req db' ≡ ok (db', res)
  sync-retry clock clock' req db db' res lawful consistent e =
      let s = sync-IsSynced c user clock req db db' res e in
      let step = IsSynced-IsStep c user clock req db db' res lawful consistent s in
      let from = pos_part req.cursor in
      let n = s.end.cursor in
      let q : Progress = record { db = db'; cursor = n; results = s.end.results } in
      let cursors_eq : upsert user n db'.cursors ≡ db'.cursors =
        rw (s.db_eq) (upsert-upsert user n s.end.db.cursors) in
      let known : find user db'.cursors ≡ some n =
        rw (s.db_eq) (rw (find-upsert user user n s.end.db.cursors) (simp (eq_refl user) refl)) in
      let operations_eq : db'.operations ≡ s.end.db.operations = ap (λ d. d.operations) s.db_eq in
      let answers : Answers c user db'.operations req.operations step.outcome =
        rw operations_eq step.answers in
      let applied : apply_operations c user clock' req.operations (start c user clock' req db' n)
          ≡ ok q =
        rw (step.results) (
          apply_operations-answered clock' req.operations step.outcome
            (start c user clock' req db' n) answers) in
      let before : length (log user db.changes) ≡ s.cursor =
        (consistent.logged user s.cursor s.known).1 in
      let after : length (log user db.changes ++ step.more) ≡ n =
        rw (← step.extends) step.logged.1 in
      let within : ltb n from ≡ false = le→ltb_false (
        omega
          (arith, before, after, s.within, length-append {0} (log user db.changes) step.more)) in
      let same_db : record db' { cursors = upsert user n db'.cursors } ≡ db' =
        λ i. record db' { cursors = cursors_eq i } in
      let given : SyncResponse = record {
        results = s.end.results;
        changes = res.changes;
        cursor = res.cursor;
        has_more = ltb res.cursor n;
      } in
      let same_res : given ≡ res = λ i. record {
        results = sym (s.results) i;
        changes = res.changes;
        cursor = res.cursor;
        has_more = sym (s.has_more) i;
      } in
      sync_of clock' req db' n q (res.changes, res.cursor) s.bounded s.validated known within
        applied s.page
      ∙ (λ i. ok (same_db i, same_res i))
