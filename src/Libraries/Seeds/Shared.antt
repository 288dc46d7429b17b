-- ===== src/Libraries/Seeds/Shared.antt =====
-- What the whole of `sharedSeeds`, and so `Store.Sync`, does to the tables.
use mathlib.Core.Option
use quire_server.Base.{
  ℕ, ◌+◌, ◌≤◌, ◌≡◌, ◌≢◌, ◌∙◌, refl, sym, ap, subst, true, false, not, Option, none, some, List, [],
  ◌∷◌, Text, any, ◌==◌, text_eq, nat_eq, pair_eq, eq_iff, eq_refl, if◌then◌else◌, Table, find,
  find-upsert, Result, ok, err, >>=-eq-ok, ok_unique, arith, Bool-cases, inl, inr,
}
use quire_server.MetadataCache.{BookMetadata}
use quire_server.Sync.Wire.{Codec, SyncRequest, SyncResponse, IsLawful}
use quire_server.Sync.Validate.{book}
use quire_server.Sync.Apply.{Db, RecordKey, RecordRow, key_eq, sync}
use quire_server.Sync.Apply.Page.{IsConsistent, sync-IsConsistent}
use quire_server.Admin.{Directory}
use quire_server.Libraries.{FileRow}
use quire_server.Libraries.Volumes.{VolumeSyntax}
use quire_server.Libraries.Seeds.{SeedCodec, Seed, book_key, seed_book}
use quire_server.Libraries.Seeds.Migration.{
  Pending, pending, upgrade, upgrade_all, upgraded_rows, pending_record, is_pending_row,
  migrate_shared_membership,
}
use quire_server.Libraries.Seeds.Whole.{
  shared_seed, shared_items, seed_items, is_available, shared_seeds, full_sync, synced, sync_seeded,
  committed, seeded_after,
}
use quire_server.Libraries.Seeds.Own.{IsOwnStep, IsOwnStep-refl, IsOwnStep-trans, written-IsOwnStep}
use quire_server.Libraries.Seeds.Single.{IsSeedOf, seed_book-IsSeedOf}

-- Records stay, at no lower revision, and only those of books change.
pub record IsGrown (t t' : Table RecordKey RecordRow) : Type 0 where
  pub grown :
      (k : RecordKey) (row : RecordRow)
      → find k t ≡ some row
      → (row' : RecordRow) × (find k t' ≡ some row')
        × (row.revision ≤ row'.revision)
        × ((k.kind == book) ≡ false → row' ≡ row)

IsGrown-refl : (t : Table RecordKey RecordRow) → IsGrown t t
IsGrown-refl t = record { grown = λ k row e. (row, e, omega arith, λ _. refl) }

IsGrown-trans : (s t u : Table RecordKey RecordRow) → IsGrown s t → IsGrown t u → IsGrown s u
IsGrown-trans s t u a b = record {
  grown = λ k row e.
      let (row', e', le, same) = a.grown k row e in
      let (row'', e'', le', same') = b.grown k row' e' in
      (row'', e'', omega (arith, le, le'), λ other. same' other ∙ same other);
}

module _ (c : Codec) (y : VolumeSyntax) (j : SeedCodec) where
  -- A step of `sharedSeeds` for a user.
  pub record IsSeeding (user : Text) (db db' : Db) : Type 0 where
    pub own : IsOwnStep user db db'
    pub grown : IsGrown db.records db'.records

  IsSeeding-refl : (user : Text) (db : Db) → IsSeeding user db db
  IsSeeding-refl user db = record { own = IsOwnStep-refl user db; grown = IsGrown-refl db.records }

  IsSeeding-trans :
      (user : Text) (a b d : Db) → IsSeeding user a b → IsSeeding user b d → IsSeeding user a d
  IsSeeding-trans user a b d s t = record {
    own = IsOwnStep-trans user a b d s.own t.own;
    grown = IsGrown-trans a.records b.records d.records s.grown t.grown;
  }

  abbrev upgraded_row : Text → Pending → RecordKey → RecordRow → RecordRow
  upgraded_row user p k row =
      if is_pending_row c y j user p k row
      then record { revision = p.revision + 1; candidates = c.candidates (p.candidate ∷ []) }
      else row

  find-upgraded_rows :
      (user : Text) (p : Pending) (k : RecordKey) (t : Table RecordKey RecordRow)
      → find k (upgraded_rows c y j user p t) ≡ Option.map (upgraded_row user p k) (find k t)
  unfolding find upgraded_rows
  find-upgraded_rows user p k [] = refl
  find-upgraded_rows user p k ((i, row) ∷ t) = elim (Bool-cases (i == k)) [
    | inl same ↦ simp same (ap (λ x. some (upgraded_row user p x row)) ((eq_iff i k).0 same))
    | inr other ↦ simp other (find-upgraded_rows user p k t)
  ]

  foreign_row :
      (user : Text) (p : Pending) (k : RecordKey) (o : Option RecordRow)
      → k.user ≢ user
      → Option.map (upgraded_row user p k) o ≡ o
  foreign_row user p k none other = refl
  foreign_row user p k (some row) other = elim (Bool-cases (k.user == user)) [
    | inl same ↦ absurd (other ((eq_iff k.user user).0 same))
    | inr apart ↦ simp apart refl
  ]

  upgraded_rows-IsGrown :
      (user : Text) (p : Pending) (t : Table RecordKey RecordRow)
      → IsGrown t (upgraded_rows c y j user p t)
  upgraded_rows-IsGrown user p t = record {
    grown = λ k row e.
        let at : find k (upgraded_rows c y j user p t) ≡ some (upgraded_row user p k row) =
          find-upgraded_rows user p k t ∙ ap (λ o. Option.map (upgraded_row user p k) o) e in
        elim (Bool-cases (is_pending_row c y j user p k row)) [
          | inr other ↦ (row, simp other at at, omega arith, λ _. refl)
          | inl hit ↦ (
            record { revision = p.revision + 1; candidates = c.candidates (p.candidate ∷ []) },
            simp hit at at,
            ground (arith, hit),
            λ h. let never : true ≡ false = ground (arith, hit, h) in cc,
          )
        ];
  }

  upgrade-IsSeeding :
      (user : Text) (p : Pending) (db db' : Db)
      → upgrade c y j user p db ≡ ok db'
      → IsSeeding user db db'
  unfolding upgrade
  upgrade-IsSeeding user p db db' e =
      elim (Bool-cases (any (λ row. row.0 == (user, p.candidate.operation_id)) db.operations)) [
        | inl edited ↦
            subst (IsSeeding user db) (ok_unique (ok db) refl (simp edited at e))
              (IsSeeding-refl user db)
        | inr untouched ↦
            elim (Bool-cases
              (not (any (λ row. is_pending_row c y j user p row.0 row.1) db.records))) [
                | inl moved ↦
                    subst (IsSeeding user db)
                      (ok_unique (ok db) refl (simp (untouched, moved) at e))
                      (IsSeeding-refl user db)
                | inr there ↦
                    let rows = upgraded_rows c y j user p db.records in
                    let (own, same) =
                      written-IsOwnStep user (c.encode (pending_record c y j p)) db db' rows
                        (λ k other.
                          find-upgraded_rows user p k db.records
                          ∙ foreign_row user p k (find k db.records) other)
                        (simp (untouched, there) at e) in
                    record { own = own; grown = rw same (upgraded_rows-IsGrown user p db.records) }
              ]
      ]

  upgrade_all-IsSeeding :
      (user : Text) (ps : List Pending) (db db' : Db)
      → upgrade_all c y j user ps db ≡ ok db'
      → IsSeeding user db db'
  unfolding upgrade_all
  upgrade_all-IsSeeding user [] db db' e =
      subst (IsSeeding user db) (ok_unique (ok db) refl e) (IsSeeding-refl user db)
  upgrade_all-IsSeeding user (p ∷ ps) db db' e =
      let (mid, first, later) = >>=-eq-ok (upgrade c y j user p db) _ e in
      IsSeeding-trans user db mid db' (upgrade-IsSeeding user p db mid first)
        (upgrade_all-IsSeeding user ps mid db' later)

  seeded-IsGrown :
      (s : Seed) (o : Option RecordRow) (db db' : Db)
      → find (book_key s.user s.book_id) db.records ≡ o
      → IsSeedOf c y j s o db db'
      → IsGrown db.records db'.records
  seeded-IsGrown s none db db' known seeded = record {
    grown = λ k row e.
        let key = book_key s.user s.book_id in
        let at = ap (λ t. find k t) seeded.stored ∙ find-upsert key k _ db.records in
        elim (Bool-cases (key == k)) [
          | inl same ↦
              let here : find key db.records ≡ some row =
                subst (λ x. find x db.records ≡ some row) (sym ((eq_iff key k).0 same)) e in
              cc
          | inr other ↦ (row, simp other at at ∙ e, omega arith, λ _. refl)
        ];
  }
  seeded-IsGrown s (some old) db db' known r = record {
    grown = λ k row e.
        let key = book_key s.user s.book_id in
        let at = ap (λ t. find k t) r.seeded.stored ∙ find-upsert key k _ db.records in
        elim (Bool-cases (key == k)) [
          | inl same ↦
              let here : find key db.records ≡ some row =
                subst (λ x. find x db.records ≡ some row) (sym ((eq_iff key k).0 same)) e in
              let this : old ≡ row = cc in
              (
                _,
                simp same at at,
                subst (λ r. r.revision ≤ old.revision + 1) this (omega arith),
                λ h.
                    let never : true ≡ false =
                      sym (eq_refl book)
                      ∙ subst (λ x. (x.kind == book) ≡ false) (sym ((eq_iff key k).0 same)) h in
                    cc,
              )
          | inr other ↦ (row, simp other at at ∙ e, omega arith, λ _. refl)
        ];
  }

  seed_book-IsSeeding :
      (s : Seed) (db db' : Db) → seed_book c y j s db ≡ ok db' → IsSeeding s.user db db'
  seed_book-IsSeeding s db db' e =
      let (own, out) = seed_book-IsSeedOf c y j s db db' e in
      elim out [
        | inl same ↦ subst (IsSeeding s.user db) (sym same) (IsSeeding-refl s.user db)
        | inr seeded ↦ record {
          own = own;
          grown = seeded-IsGrown s (find (book_key s.user s.book_id) db.records) db db' refl seeded;
        }
      ]

  module _ (user : Text) (metadata : Text × Text → BookMetadata) (ids : Text × Text → Text) where
    seed_items-IsSeeding :
        (now : ℕ) (d : Directory) (fs : List FileRow) (items : List (Text × Text)) (db db' : Db)
        → seed_items c y j user metadata ids now d fs items db ≡ ok db'
        → IsSeeding user db db'
    unfolding seed_items shared_seed
    seed_items-IsSeeding now d fs [] db db' e =
        subst (IsSeeding user db) (ok_unique (ok db) refl e) (IsSeeding-refl user db)
    seed_items-IsSeeding now d fs ((owner, book_id) ∷ items) db db' e =
        elim (Bool-cases (not (is_available c y j user owner book_id d fs))) [
          | inl gone ↦ seed_items-IsSeeding now d fs items db db' (simp gone at e)
          | inr there ↦
              let s = shared_seed c y j user metadata ids now db (owner, book_id) in
              let (mid, first, later) = >>=-eq-ok (seed_book c y j s db) _ (simp there at e) in
              IsSeeding-trans user db mid db' (seed_book-IsSeeding s db mid first)
                (seed_items-IsSeeding now d fs items mid db' later)
        ]

    committed-IsSeeding :
        (db mid : Db) (run : Result Db)
        → ((db' : Db) → run ≡ ok db' → IsSeeding user mid db')
        → IsSeeding user db mid
        → IsSeeding user db (committed c y j mid run).0
    committed-IsSeeding db mid (err e) later first = first
    committed-IsSeeding db mid (ok db') later first =
        IsSeeding-trans user db mid db' first (later db' refl)

    seeded_after-IsSeeding :
        (now : ℕ) (d d' : Directory) (fs fs' : List FileRow) (db : Db) (run : Result Db)
        → ((mid : Db) → run ≡ ok mid → IsSeeding user db mid)
        → IsSeeding user db (seeded_after c y j user metadata ids now d d' fs fs' db run).0
    seeded_after-IsSeeding now d d' fs fs' db (err e) first = IsSeeding-refl user db
    seeded_after-IsSeeding now d d' fs fs' db (ok mid) first =
        let items = shared_items c y j user d mid [] fs in
        committed-IsSeeding db mid (seed_items c y j user metadata ids now d' fs' items mid)
          (λ db' e. seed_items-IsSeeding now d' fs' items mid db' e) (first mid refl)

    -- The seeds of a user's shared books change that user's tables only, whoever else reads the books, and
    -- whether seeding succeeds or fails at any point: all logs stay consistent, no remembered operation
    -- changes, every record stays at no lower revision, and the records of positions and annotations are
    -- untouched.
    pub shared_seeds-IsSeeding :
        (now : ℕ) (d d' : Directory) (fs fs' : List FileRow) (db : Db)
        → IsSeeding user db (shared_seeds c y j user metadata ids now d d' fs fs' db).0
    unfolding shared_seeds migrate_shared_membership
    shared_seeds-IsSeeding now d d' fs fs' db =
        seeded_after-IsSeeding now d d' fs fs' db (migrate_shared_membership c y j user d fs db)
          (λ mid first.
            let (ps, _, run) = >>=-eq-ok (pending c y j user d fs db.records) _ first in
            upgrade_all-IsSeeding user ps db mid run)

    synced-IsConsistent :
        (clock : ℕ → ℕ) (req : SyncRequest) (mid : Db) (out : Result (Db × SyncResponse))
        → sync c user clock req mid ≡ out
        → IsLawful c
        → IsConsistent mid
        → IsConsistent (synced c y j mid out).0
    synced-IsConsistent clock req mid (err e) run lawful h = h
    synced-IsConsistent clock req mid (ok (db', res)) run lawful h =
        sync-IsConsistent c user clock req mid db' res lawful h run

    sync_seeded-IsConsistent :
        (clock : ℕ → ℕ) (req : SyncRequest) (seeds : Db × Result (Unit {0}))
        → IsLawful c
        → IsConsistent seeds.0
        → IsConsistent (sync_seeded c y j user clock req seeds).0
    sync_seeded-IsConsistent clock req (db, err e) lawful h = h
    sync_seeded-IsConsistent clock req (db, ok _) lawful h =
        synced-IsConsistent clock req db (sync c user clock req db) refl lawful h

    -- Every call of `Store.Sync`, the seeds of the shared books before it included, leaves consistent
    -- tables consistent, whether it succeeds or fails at any point, what the seeds have committed before
    -- a failure included: every user's log holds the cursors 1 to n without a gap, where n is the user's
    -- row of `cursors`.
    pub full_sync-IsConsistent :
        (d d' : Directory) (fs fs' : List FileRow) (clock : ℕ → ℕ) (req : SyncRequest) (db : Db)
        → IsLawful c
        → IsConsistent db
        → IsConsistent (full_sync c y j user metadata ids d d' fs fs' clock req db).0
    unfolding full_sync
    full_sync-IsConsistent d d' fs fs' clock req db lawful h =
        sync_seeded-IsConsistent clock req
          (shared_seeds c y j user metadata ids (clock 0) d d' fs fs' db) lawful
          ((shared_seeds-IsSeeding (clock 0) d d' fs fs' db).own.consistent h)
