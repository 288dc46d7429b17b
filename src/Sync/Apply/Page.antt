-- ===== src/Sync/Apply/Page.antt =====
-- The response of `Store.Sync`: the invariant of the tables, and the page of changes.
use quire_server.Base.{
  ℕ, suc, ◌+◌, ◌≤◌, false, ◌||◌, some, List, [], ◌∷◌, Text, length, take, drop, ltb, ◌==◌, text_eq,
  nat_eq, eq_iff, if◌then◌else◌, find, find-upsert, upsert, is_neg, pos_part, ok, invalid, conflict,
  no_rows, decoding, demand, reject, reject-eq-ok, >>=-eq-ok, ok_unique, demand-eq-ok, ◌≡◌, ◌≢◌,
  refl, ap, subst, arith, Bool-cases, inl, inr,
}
use quire_server.Sync.Wire.{Change, SyncRequest, SyncResponse, Codec, IsLawful}
use quire_server.Sync.Apply.{
  Db, Progress, page_rows, apply_operations, validate_operations, read_page, sync,
}
use quire_server.Sync.Apply.Log.{
  log, IsLogged, Numbered, Numbered-drop, Numbered-take, page_rows_lem,
}
use quire_server.Sync.Apply.Steps.{IsStep, apply_operations-IsStep}

-- Every user's log holds the cursors 1 to n, where n is the user's row of `cursors`.
pub record IsConsistent (db : Db) : Type 0 where
  pub logged : (user : Text) (n : ℕ) → find user db.cursors ≡ some n → IsLogged user n db.changes

module _ (c : Codec) where
  -- The changes of a page are the rows of a piece of the log, decoded.
  abbrev pub Serves : List (ℕ × Text) → List Change → Type 0
  Serves [] [] = Unit
  Serves [] (ch ∷ chs) = ⊥
  Serves ((n, text) ∷ rows) [] = ⊥
  Serves ((n, text) ∷ rows) (ch ∷ chs) =
      (ch.cursor ≡ n) × (c.decode text ≡ some ch.of) × Serves rows chs

  pub read_page-Serves :
      (k : ℕ) (rows : List (ℕ × Text)) (chs : List Change) (last : ℕ)
      → Numbered k rows
      → read_page c rows k ≡ ok (chs, last)
      → Serves rows chs × (last ≡ k + length chs)
  unfolding read_page
  read_page-Serves k [] chs last _ e =
      let same = ok_unique (read_page c [] k) refl e in
      let none : [] ≡ chs = ap (λ t. t.0) same in
      let at : k ≡ last = ap (λ t. t.1) same in
      subst (λ chs. Serves [] chs × (last ≡ k + length chs)) none (tt, omega arith)
  read_page-Serves k ((n, text) ∷ rows) chs last (here, later) e =
      let (rec, e₁, e₂) = >>=-eq-ok (demand decoding (c.decode text)) _ e in
      let (rest, e₃, e₄) = >>=-eq-ok (read_page c rows n) _ e₂ in
      let e₅ : read_page c rows (suc k) ≡ ok (rest.0, rest.1) = rw (← here) e₃ in
      let (served, at) = read_page-Serves (suc k) rows rest.0 rest.1 later e₅ in
      let same = ok_unique _ refl e₄ in
      let chs_eq : record { cursor = n; of = rec } ∷ rest.0 ≡ chs = ap (λ t. t.0) same in
      let last_eq : rest.1 ≡ last = ap (λ t. t.1) same in
      subst (λ chs. Serves ((n, text) ∷ rows) chs × (last ≡ k + length chs)) chs_eq
        ((refl, ground arith, served), omega arith)

  module _ (user : Text) (clock : ℕ → ℕ) (req : SyncRequest) (db : Db) where
    abbrev pub start : ℕ → Progress
    start n = record { db = db; cursor = n; results = [] }

    -- A request that succeeded.
    pub record IsSynced (db' : Db) (res : SyncResponse) : Type 0 where
      pub cursor : ℕ
      pub known : find user db.cursors ≡ some cursor
      pub within : pos_part req.cursor ≤ cursor
      pub bounded : (is_neg req.cursor || ltb 50 (length req.operations)) ≡ false
      pub validated : validate_operations c req.operations ≡ ok tt
      pub end : Progress
      pub applied : apply_operations c user clock req.operations (start cursor) ≡ ok end
      pub db_eq : db' ≡ record (end.db) { cursors = upsert user end.cursor end.db.cursors }
      pub page :
          read_page c (page_rows user (pos_part req.cursor) db') (pos_part req.cursor)
          ≡ ok (res.changes, res.cursor)
      pub results : res.results ≡ end.results
      pub has_more : res.has_more ≡ ltb res.cursor end.cursor

    pub sync-IsSynced :
        (db' : Db) (res : SyncResponse)
        → sync c user clock req db ≡ ok (db', res)
        → IsSynced db' res
    unfolding sync
    sync-IsSynced db' res e =
        let (_, b, e₁) =
          >>=-eq-ok (reject (is_neg req.cursor || ltb 50 (length req.operations)) invalid) _ e in
        let (_, v, e₂) = >>=-eq-ok (validate_operations c req.operations) _ e₁ in
        let (n, k, e₃) = >>=-eq-ok (demand no_rows (find user db.cursors)) _ e₂ in
        let (_, w, e₄) = >>=-eq-ok (reject (ltb n (pos_part req.cursor)) conflict) _ e₃ in
        let (p, a, e₅) = >>=-eq-ok (apply_operations c user clock req.operations (start n)) _ e₄ in
        let db'' : Db = record (p.db) { cursors = upsert user p.cursor p.db.cursors } in
        let from = pos_part req.cursor in
        let (pg, r, e₆) = >>=-eq-ok (read_page c (page_rows user from db'') from) _ e₅ in
        subst (λ t. IsSynced t.0 t.1) (ok_unique _ refl e₆)
          (record {
            cursor = n;
            known = demand-eq-ok no_rows (find user db.cursors) n k;
            within = ground (arith, reject-eq-ok (ltb n (pos_part req.cursor)) conflict w);
            bounded = reject-eq-ok (is_neg req.cursor || ltb 50 (length req.operations)) invalid b;
            validated = v;
            end = p;
            applied = a;
            db_eq = refl;
            page = r;
            results = refl;
            has_more = refl;
          })

    module _ (db' : Db) (res : SyncResponse) (lawful : IsLawful c)
        (consistent : IsConsistent db) where
      pub IsSynced-IsStep :
          (s : IsSynced db' res) → IsStep c user req.operations (start s.cursor) s.end
      IsSynced-IsStep s =
          apply_operations-IsStep c user clock req.operations (start s.cursor) s.end lawful
            (consistent.logged user s.cursor s.known) s.applied

      pub find-cursors :
          (s : IsSynced db' res) (v : Text)
          → find v db'.cursors ≡ (if user == v then some s.end.cursor else find v db.cursors)
      find-cursors s v =
          rw (s.db_eq) (
            rw (find-upsert user v s.end.cursor s.end.db.cursors)
              (rw ((IsSynced-IsStep s).cursors)))

      -- A successful request leaves consistent tables consistent: every user's log still holds the
      -- cursors 1 to n without a gap, where n is the user's row of `cursors`.
      pub sync-IsConsistent : sync c user clock req db ≡ ok (db', res) → IsConsistent db'
      sync-IsConsistent e =
          let s = sync-IsSynced db' res e in
          let step = IsSynced-IsStep s in
          let changes_eq : db'.changes ≡ s.end.db.changes = ap (λ d. d.changes) s.db_eq in
          record {
            logged = λ v n k. elim (Bool-cases (user == v)) [
              | inl same ↦
                  let k' : some s.end.cursor ≡ some n = simp same at (rw (find-cursors s v) at k) in
                  let at : s.end.cursor ≡ n = cc k' in
                  rw (changes_eq, ← (eq_iff user v).0 same, ← at) step.logged
              | inr other ↦
                  let k' : find v db.cursors ≡ some n =
                    simp other at (rw (find-cursors s v) at k) in
                  let apart : v ≢ user = ground (arith, eq_iff user v) in
                  rw (changes_eq, step.others v apart) (consistent.logged v n k')
            ];
          }

      -- On consistent tables, the page of a successful request is the piece of the user's log that
      -- follows the client's cursor, decoded: the next 100 changes in order without a gap, or all
      -- that are left. The response's cursor is that of the last of them, or the client's, and
      -- `hasMore` says exactly whether the log goes on.
      pub sync-page :
          sync c user clock req db ≡ ok (db', res)
          → Serves (take 100 (drop (pos_part req.cursor) (log user db'.changes))) res.changes
            × (res.cursor ≡ pos_part req.cursor + length res.changes)
            × (res.has_more ≡ ltb res.cursor (length (log user db'.changes)))
      sync-page e =
          let s = sync-IsSynced db' res e in
          let step = IsSynced-IsStep s in
          let from = pos_part req.cursor in
          let (numbered, size) = step.logged in
          let changes_eq : db'.changes ≡ s.end.db.changes = ap (λ d. d.changes) s.db_eq in
          let rows = take 100 (drop from (log user db'.changes)) in
          let logged : IsLogged user s.end.cursor db'.changes = rw changes_eq step.logged in
          let paged : read_page c rows from ≡ ok (res.changes, res.cursor) =
            rw (← page_rows_lem user from s.end.cursor db' logged) s.page in
          let start' : 0 + from ≡ from = omega arith in
          let ordered : Numbered from rows =
            Numbered-take from 100 (drop from (log user db'.changes))
              (rw start' at (Numbered-drop 0 from (log user db'.changes) logged.0)) in
          let (served, at) = read_page-Serves from rows res.changes res.cursor ordered paged in
          (served, at, rw (logged.1) (s.has_more))
