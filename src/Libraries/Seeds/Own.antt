-- ===== src/Libraries/Seeds/Own.antt =====
-- Steps in the name of a user that leave all others as they are.
use quire_server.Base.{
  ℕ, ◌+◌, ◌≡◌, ◌≢◌, ◌∙◌, refl, sym, ap, subst, false, Option, none, some, [], ◌∷◌, ◌++◌, Text, ◌==◌,
  text_eq, nat_eq, pair_eq, eq_iff, if◌then◌else◌, Table, find, upsert, insert, find-upsert, ok,
  constraint, demand, demand-eq-ok, >>=-eq-ok, ok_unique, Bool-cases, Option-cases, inl, inr,
}
use quire_server.Sync.Apply.{Db, RecordKey, RecordRow, key_eq}
use quire_server.Sync.Apply.Log.{log, log-append, IsLogged, IsLogged-append}
use quire_server.Sync.Apply.Page.{IsConsistent}
use quire_server.Libraries.Seeds.{book_key, note_change, note_at}

-- A step in the name of a user that leaves all others, and the remembered operations, as they are.
pub record IsOwnStep (user : Text) (db db' : Db) : Type 0 where
  pub consistent : IsConsistent db → IsConsistent db'
  pub logs : (v : Text) → v ≢ user → log v db'.changes ≡ log v db.changes
  pub cursors : (v : Text) → v ≢ user → find v db'.cursors ≡ find v db.cursors
  pub records : (k : RecordKey) → k.user ≢ user → find k db'.records ≡ find k db.records
  pub operations : db'.operations ≡ db.operations

pub IsOwnStep-refl : (user : Text) (db : Db) → IsOwnStep user db db
IsOwnStep-refl user db = record {
  consistent = λ h. h;
  logs = λ v _. refl;
  cursors = λ v _. refl;
  records = λ k _. refl;
  operations = refl;
}

pub IsOwnStep-trans :
    (user : Text) (a b c : Db) → IsOwnStep user a b → IsOwnStep user b c → IsOwnStep user a c
IsOwnStep-trans user a b c s t = record {
  consistent = λ h. t.consistent (s.consistent h);
  logs = λ v o. t.logs v o ∙ s.logs v o;
  cursors = λ v o. t.cursors v o ∙ s.cursors v o;
  records = λ k o. t.records k o ∙ s.records k o;
  operations = t.operations ∙ s.operations;
}

insert-eq-some :
    (k : Text × ℕ) (text : Text) (t t' : Table (Text × ℕ) Text)
    → insert k text t ≡ some t'
    → t ++ (k, text) ∷ [] ≡ t'
unfolding insert
insert-eq-some k text t t' h = elim (Option-cases (find k t)) [
  | inl fresh ↦ cc (rw (fresh, insert) at h)
  | inr (v, taken) ↦ cc (rw (taken, insert) at h)
]

apart : (u v : Text) → v ≢ u → (u == v) ≡ false
apart u v other = elim (Bool-cases (u == v)) [
  | inr differ ↦ differ
  | inl same ↦ absurd (other (sym ((eq_iff u v).0 same)))
]

-- The log of a user after one more change.
noted_log :
    (user v : Text) (n m : ℕ) (text : Text) (db : Db)
    → find user db.cursors ≡ some n
    → IsConsistent db
    → find v (upsert user (n + 1) db.cursors) ≡ some m
    → IsLogged v m (db.changes ++ ((user, n + 1), text) ∷ [])
noted_log user v n m text db known h at = elim (Bool-cases (user == v)) [
  | inl same ↦
      let u : user ≡ v = (eq_iff user v).0 same in
      let now : (if user == v then some (n + 1) else find v db.cursors) ≡ some m =
        sym (find-upsert user v (n + 1) db.cursors) ∙ at in
      let size : n + 1 ≡ m = cc (simp same at now) in
      subst (λ w. IsLogged w m (db.changes ++ ((user, n + 1), text) ∷ [])) u
        (subst (λ k. IsLogged user k (db.changes ++ ((user, n + 1), text) ∷ [])) size
          (IsLogged-append user n text db.changes (h.logged user n known)))
  | inr other ↦
      let now : (if user == v then some (n + 1) else find v db.cursors) ≡ some m =
        sym (find-upsert user v (n + 1) db.cursors) ∙ at in
      let still : find v db.cursors ≡ some m = simp other at now in
      let same_log : log v (db.changes ++ ((user, n + 1), text) ∷ []) ≡ log v db.changes =
        log-append user v (n + 1) text db.changes ∙ simp other refl in
      rw same_log (h.logged v m still)
]

note_at-IsOwnStep :
    (user text : Text) (o : Option ℕ) (db db' : Db)
    → find user db.cursors ≡ o
    → note_at user text o db ≡ ok db'
    → IsOwnStep user db db' × (db'.records ≡ db.records)
note_at-IsOwnStep user text none db db' known e =
    let same : db ≡ db' = ok_unique (ok db) refl e in
    subst (λ d. IsOwnStep user db d × (d.records ≡ db.records)) same (IsOwnStep-refl user db, refl)
note_at-IsOwnStep user text (some n) db db' known e =
    let (t, i, e₁) = >>=-eq-ok (demand constraint (insert (user, n + 1) text db.changes)) _ e in
    let grown : db.changes ++ ((user, n + 1), text) ∷ [] ≡ t =
      insert-eq-some (user, n + 1) text db.changes t
        (demand-eq-ok constraint (insert (user, n + 1) text db.changes) t i) in
    let after : record db {
      cursors = upsert user (n + 1) db.cursors;
      changes = db.changes ++ ((user, n + 1), text) ∷ [];
    }
        ≡ db' =
      ap (λ rows. record db { cursors = upsert user (n + 1) db.cursors; changes = rows }) grown
      ∙ ok_unique _ refl e₁ in
    subst (λ d. IsOwnStep user db d × (d.records ≡ db.records)) after
      (
        record {
          consistent = λ h. record { logged = λ v m at. noted_log user v n m text db known h at };
          logs =
              λ v other. log-append user v (n + 1) text db.changes ∙ simp (apart user v other) refl;
          cursors =
              λ v other. find-upsert user v (n + 1) db.cursors ∙ simp (apart user v other) refl;
          records = λ k _. refl;
          operations = refl;
        },
        refl,
      )

pub note_change-IsOwnStep :
    (user text : Text) (db db' : Db)
    → note_change user text db ≡ ok db'
    → IsOwnStep user db db' × (db'.records ≡ db.records)
unfolding note_change
note_change-IsOwnStep user text db db' e =
    note_at-IsOwnStep user text (find user db.cursors) db db' refl e

-- A change of the user's own records before the change is noted.
pub written-IsOwnStep :
    (user text : Text) (db db' : Db) (rows : Table RecordKey RecordRow)
    → ((k : RecordKey) → k.user ≢ user → find k rows ≡ find k db.records)
    → note_change user text (record db { records = rows }) ≡ ok db'
    → IsOwnStep user db db' × (db'.records ≡ rows)
written-IsOwnStep user text db db' rows own e =
    let (s, same) = note_change-IsOwnStep user text (record db { records = rows }) db' e in
    (
      record {
        consistent = λ h. s.consistent (record { logged = h.logged });
        logs = s.logs;
        cursors = s.cursors;
        records = λ k other. s.records k other ∙ own k other;
        operations = s.operations;
      },
      same,
    )

pub key_apart :
    (user book_id : Text) (k : RecordKey) → k.user ≢ user → (book_key user book_id == k) ≡ false
key_apart user book_id k other = elim (Bool-cases (book_key user book_id == k)) [
  | inr no_match ↦ no_match
  | inl same ↦ absurd (other (sym (ap (λ x. x.user) ((eq_iff (book_key user book_id) k).0 same))))
]
