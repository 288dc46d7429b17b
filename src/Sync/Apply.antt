-- ===== src/Sync/Apply.antt =====
-- The transaction of `Store.Sync` in internal/server/sync.go: the tables, what one operation does to
-- them, the loop over a batch, and the page of changes.
pub mod Log
pub mod Batch
pub mod Steps
pub mod Page
pub mod Pending
pub mod Drain
pub mod Retry
pub mod Candidates
use quire_server.Base.{
  ℕ, ◌+◌, Bool, true, false, not, ◌&&◌, ◌||◌, Option, none, some, List, [], ◌∷◌, ◌++◌, Text, codes,
  length, take, keep, ltb, leb, ◌==◌, text_eq, nat_eq, pair_eq, Eq, if◌then◌else◌, Table, find,
  upsert, insert, is_neg, pos_part, Result, ok, err, invalid, conflict, no_rows, decoding,
  constraint, panics, reject, demand, ◌>>=◌, ◌>>◌, ◌↔◌, ◌≡◌, eq_iff, arith,
}
use quire_server.Folders.{canonical_book_folders, Members}
use quire_server.Sync.Wire.{
  Operation, Candidate, Record, Change, OperationResult, SyncRequest, SyncResponse, Codec,
}
use quire_server.Sync.Validate.{validate_operation, book, has}

-- The primary key of `records`.
pub record RecordKey : Type 0 where
  pub user : Text
  pub book_id : Text
  pub kind : Text
  pub record_id : Text

abbrev pub key_beq : RecordKey → RecordKey → Bool
key_beq a b =
    a.user == b.user && a.book_id == b.book_id && a.kind == b.kind && a.record_id == b.record_id

pub key_beq_iff : (a b : RecordKey) → (key_beq a b ≡ true) ↔ (a ≡ b)
key_beq_iff a b = ground (
  arith,
  eq_iff a.user b.user,
  eq_iff a.book_id b.book_id,
  eq_iff a.kind b.kind,
  eq_iff a.record_id b.record_id,
)

instance abbrev pub key_eq : Eq RecordKey
key_eq = record { same = key_beq; same_iff = key_beq_iff }

-- A row of `records` behind its key: the revision and the encoded candidates.
pub record RecordRow : Type 0 where
  pub revision : ℕ
  pub candidates : Text

-- The tables of the sync engine; a change is keyed by its user and cursor, an operation by its user
-- and id.
pub record Db : Type 0 where
  pub cursors : Table Text ℕ
  pub records : Table RecordKey RecordRow
  pub changes : Table (Text × ℕ) Text
  pub operations : Table (Text × Text) (Text × Text)

abbrev pub key_of : Text → Operation → RecordKey
key_of user op = record {
  user = user;
  book_id = op.book_id;
  kind = op.kind;
  record_id = op.record_id;
}

-- What the loop over a batch carries.
pub record Progress : Type 0 where
  pub db : Db
  pub cursor : ℕ
  pub results : List OperationResult

-- The raw value of the only candidate, if it is not a deletion.
abbrev pub settled : List Candidate → Option Text
settled [] = none
settled (c ∷ []) = if c.deleted then none else some c.value
settled (c ∷ d ∷ cs) = none

-- ORDER BY cursor
abbrev pub place : ℕ × Text → List (ℕ × Text) → List (ℕ × Text)
place row [] = row ∷ []
place (n, r) ((m, s) ∷ rows) =
    if leb n m then (n, r) ∷ (m, s) ∷ rows else (m, s) ∷ place (n, r) rows

abbrev pub by_cursor : List (ℕ × Text) → List (ℕ × Text)
by_cursor [] = []
by_cursor (row ∷ rows) = place row (by_cursor rows)

-- SELECT cursor,record FROM changes WHERE user_id=? AND cursor>?, in the order of the table
unfoldable pub changes_after : Text → ℕ → Table (Text × ℕ) Text → List (ℕ × Text)
changes_after user from [] = []
changes_after user from (((u, n), text) ∷ t) =
    if u == user && ltb from n
    then (n, text) ∷ changes_after user from t
    else changes_after user from t

-- The rows of a page: ORDER BY cursor LIMIT 100.
unfoldable pub page_rows : Text → ℕ → Db → List (ℕ × Text)
unfolding changes_after
page_rows user from db = take 100 (by_cursor (changes_after user from db.changes))

module _ (c : Codec) where
  -- The revision and the candidates of the record that an operation names.
  unfoldable pub load_record : RecordKey → Db → Result (ℕ × List Candidate)
  load_record key db = elim (find key db.records) [
    | none ↦ ok (0, [])
    | some row ↦ do cs ← demand decoding (c.candidates_of row.candidates); ok (row.revision, cs)
  ]

  -- The members of a value that keeps the stored `inLibrary` where the client sends none; the second
  -- part is the value itself.
  unfoldable pub with_library : Text → List Candidate → Result (Option Members × Text)
  with_library value cs =
      let incoming = c.json.members value in
      elim (settled cs) [
        | none ↦ ok (incoming, value)
        | some stored ↦ elim (c.json.members stored) [
          | none ↦ ok (incoming, value)
          | some existing ↦ elim (find (codes "inLibrary") existing) [
            | none ↦ ok (incoming, value)
            | some raw ↦ elim incoming [
              | none ↦ err panics
              | some m ↦
                  let m' = upsert (codes "inLibrary") raw m in
                  if has (codes "inLibrary") m
                  then ok (some m, value)
                  else ok (some m', c.json.object m')
            ]
          ]
        ]
      ]

  -- The value that is stored for a book.
  unfoldable pub settle_book : Text → List Candidate → Bool → Result Text
  unfolding with_library canonical_book_folders
  settle_book value cs stale = do
    (incoming, value') ← with_library value cs
    let previous = if stale then none else settled cs
    let named : Bool = elim incoming [ none ↦ false | some m ↦ has (codes "folders") m ]
    if not stale || named then canonical_book_folders c.json value' previous else ok value'

  unfoldable pub settle_value : Operation → List Candidate → Bool → Result Text
  unfolding settle_book
  settle_value op cs stale =
      if op.kind == book && not op.deleted then settle_book op.value cs stale else ok op.value

  -- The writes of an accepted operation, at time `now`.
  unfoldable pub store_operation :
      Text → ℕ → Operation → ℕ → List Candidate → Bool → Progress → Result Progress
  store_operation user now op revision cs stale p = do
    let entry : Record = record {
      book_id = op.book_id;
      kind = op.kind;
      record_id = op.record_id;
      revision = revision + 1;
      candidates = cs;
    }
    let row : RecordRow = record { revision = revision + 1; candidates = c.candidates cs }
    let result : OperationResult = record { id = op.id; revision = revision + 1; conflict = stale }
    changes ← demand constraint (insert (user, p.cursor + 1) (c.encode entry) p.db.changes)
    operations ←
        demand constraint (insert (user, op.id) (c.digest op, c.result result) p.db.operations)
    ok (record {
      db = record {
        cursors = p.db.cursors;
        records = upsert (key_of user op) row p.db.records;
        changes = changes;
        operations = operations;
      };
      cursor = p.cursor + 1;
      results = p.results ++ result ∷ [];
    })

  -- An operation that has not been seen before.
  unfoldable pub accept_operation : Text → (ℕ → ℕ) → Operation → Progress → Result Progress
  unfolding load_record settle_value store_operation
  accept_operation user clock op p = do
    (revision, cs) ← load_record (key_of user op) p.db
    reject (ltb revision (pos_part op.base_revision)) conflict
    let stale = not (pos_part op.base_revision == revision)
    value ← settle_value op cs stale
    let before = if stale then cs else []
    reject (leb 16 (length before)) conflict
    let candidate : Candidate = record {
      operation_id = op.id;
      deleted = op.deleted;
      value = value;
      created_at = clock p.cursor;
    }
    store_operation user (clock p.cursor) op revision (before ++ candidate ∷ []) stale p

  -- One round of the loop over the operations: a known operation gives its stored result again.
  unfoldable pub apply_operation : Text → (ℕ → ℕ) → Operation → Progress → Result Progress
  unfolding accept_operation
  apply_operation user clock op p = elim (find (user, op.id) p.db.operations) [
    | none ↦ accept_operation user clock op p
    | some (digest, previous) ↦ do
      reject (not (c.digest op == digest)) conflict
      result ← demand decoding (c.result_of previous)
      ok (record p { results = p.results ++ result ∷ [] })
  ]

  unfoldable pub apply_operations : Text → (ℕ → ℕ) → List Operation → Progress → Result Progress
  apply_operations user clock [] p = ok p
  apply_operations user clock (op ∷ ops) p = do
    p' ← apply_operation user clock op p
    apply_operations user clock ops p'

  unfoldable pub validate_operations : List Operation → Result (Unit {0})
  validate_operations [] = ok tt
  validate_operations (op ∷ ops) = do validate_operation c op; validate_operations ops

  -- The loop over the rows of a page: the decoded changes, and the cursor of the last.
  unfoldable pub read_page : List (ℕ × Text) → ℕ → Result (List Change × ℕ)
  read_page [] last = ok ([], last)
  read_page ((n, text) ∷ rows) last = do
    rec ← demand decoding (c.decode text)
    (changes, last') ← read_page rows n
    ok (record { cursor = n; of = rec } ∷ changes, last')

  -- `Store.Sync` behind its first call, `sharedSeeds`. The database is left alone where it fails.
  unfoldable pub sync : Text → (ℕ → ℕ) → SyncRequest → Db → Result (Db × SyncResponse)
  unfolding validate_operations apply_operations apply_operation page_rows read_page
  sync user clock req db = do
    reject (is_neg req.cursor || ltb 50 (length req.operations)) invalid
    validate_operations req.operations
    cursor ← demand no_rows (find user db.cursors)
    reject (ltb cursor (pos_part req.cursor)) conflict
    p ←
        apply_operations user clock req.operations
          (record { db = db; cursor = cursor; results = [] })
    let db' = record (p.db) { cursors = upsert user p.cursor p.db.cursors }
    (changes, last) ← read_page (page_rows user (pos_part req.cursor) db') (pos_part req.cursor)
    ok (
      db',
      record {
        results = p.results;
        changes = changes;
        cursor = last;
        has_more = ltb last p.cursor;
      },
    )
