-- ===== src/Sync/Tests.antt =====
-- The theorems on the sync engine at a first operation on a book.
mod Drain
use quire_server.Base.{
  ℕ, zero, suc, ◌+◌, ◌≡◌, ◌≢◌, ◌≤◌, refl, arith, Bool, true, false, Option, none, some, List, [],
  ◌∷◌, ◌++◌, Text, codes, length, pos, ℤ, Result, ok, take, drop, ltb, find, eq_iff, text_eq,
  nat_eq, pair_eq, ◌==◌, Bool-cases, inl, inr, pos_part,
}
use quire_server.Folders.{Json, Members}
use quire_server.Sync.Wire.{
  Operation, Candidate, Record, OperationResult, SyncRequest, SyncResponse, BookValue, Codec,
  IsLawful,
}
use quire_server.Sync.Apply.{
  Db, Progress, RecordKey, key_eq, sync, apply_operation, accept_operation, store_operation,
  load_record,
}
use quire_server.Sync.Apply.Log.{log, IsLogged}
use quire_server.Sync.Apply.Page.{IsConsistent, Serves, sync-IsConsistent, sync-page}
use quire_server.Sync.Apply.Retry.{sync-retry}
use quire_server.Sync.Apply.Candidates.{
  IsSettled, IsBounded, apply_operation-IsSettled, sync-IsBounded, sync_isolated,
}

abbrev pub digits : Text
digits = codes "0123456789abcdef0123456789abcdef"

-- Every object has one member, the title.
abbrev json : Json
json = record {
  members = λ raw. some ((codes "title", raw) ∷ []);
  object = λ m. codes "{}";
  string_of = λ raw. raw;
  strings_of = λ raw. some (raw ∷ []);
  string = λ s. s;
  strings = λ ss. codes "[]";
}

abbrev book : BookValue
book = record {
  in_library = none;
  title = codes "T";
  format = [];
  folder = [];
  folders = none;
  author = [];
  series = [];
  volume = none;
}

-- Of a list of candidates one mark is kept for each.
abbrev marks : List Candidate → Text
marks [] = []
marks (c ∷ cs) = 0 ∷ marks cs

abbrev of_marks : Text → List Candidate
of_marks [] = []
of_marks (n ∷ s) =
    record { operation_id = []; deleted = false; value = []; created_at = 0 } ∷ of_marks s

length-of_marks : (cs : List Candidate) → length (of_marks (marks cs)) ≡ length cs
length-of_marks [] = refl
length-of_marks (c ∷ cs) = omega (arith, length-of_marks cs)

abbrev of_result : Text → Option OperationResult
of_result (n ∷ zero ∷ id) = some (record { id = id; revision = n; conflict = false })
of_result (n ∷ suc _ ∷ id) = some (record { id = id; revision = n; conflict = true })
of_result _ = none

abbrev flag : Bool → ℕ
flag false = 0
flag true = 1

abbrev pub stored : Record
stored = record {
  book_id = digits ++ digits;
  kind = codes "book";
  record_id = codes "default";
  revision = 1;
  candidates = [];
}

abbrev pub codec : Codec
codec = record {
  json = json;
  decode_book = λ raw. some (book, true);
  decode_position = λ raw. none;
  decode_annotation = λ raw. none;
  digest = λ op. op.value;
  candidates = marks;
  candidates_of = λ text. some (of_marks text);
  encode = λ r. r.record_id;
  decode = λ text. some stored;
  result = λ r. r.revision ∷ flag r.conflict ∷ r.id;
  result_of = of_result;
}

of_result_lem :
    (n : ℕ) (b : Bool) (id : Text)
    → of_result (n ∷ flag b ∷ id) ≡ some (record { id = id; revision = n; conflict = b })
of_result_lem n false id = refl
of_result_lem n true id = refl

pub codec-IsLawful : IsLawful codec
codec-IsLawful = record {
  candidates_back = λ cs. (of_marks (marks cs), refl, length-of_marks cs);
  decode_back = λ r. (stored, refl);
  result_back = λ r. of_result_lem r.revision r.conflict r.id;
}

abbrev operation : Operation
operation = record {
  id = codes "op-1";
  book_id = digits ++ digits;
  kind = codes "book";
  record_id = codes "default";
  base_revision = pos 0;
  deleted = false;
  value = codes "{}";
}

abbrev pub request : SyncRequest
request = record { cursor = pos 0; operations = operation ∷ [] }

abbrev pub before : Db
before = record { cursors = (codes "u", 0) ∷ []; records = []; changes = []; operations = [] }

abbrev key : RecordKey
key = record {
  user = codes "u";
  book_id = digits ++ digits;
  kind = codes "book";
  record_id = codes "default";
}

abbrev result : OperationResult
result = record { id = codes "op-1"; revision = 1; conflict = false }

abbrev pub after : Db
after = record {
  cursors = (codes "u", 1) ∷ [];
  records = (key, record { revision = 1; candidates = 0 ∷ [] }) ∷ [];
  changes = ((codes "u", 1), codes "default") ∷ [];
  operations = ((codes "u", codes "op-1"), (codes "{}", 1 ∷ 0 ∷ codes "op-1")) ∷ [];
}

abbrev response : SyncResponse
response = record {
  results = result ∷ [];
  changes = record { cursor = 1; of = stored } ∷ [];
  cursor = 1;
  has_more = false;
}

abbrev pub clock : ℕ → ℕ
clock n = 100 + n

synced : sync codec (codes "u") clock request before ≡ ok (after, response)
unfolding sync quire_server.Sync.Validate.validate_operation quire_server.Base.len
    quire_server.Base.text_beq quire_server.Folders.valid_folder find quire_server.Base.insert
    quire_server.Base.upsert
synced = refl

pub before-IsConsistent : IsConsistent before
unfolding find log
before-IsConsistent = record {
  logged = λ user n known. elim (Bool-cases (codes "u" == user)) [
    | inl same ↦ (tt, cc (simp same at known))
    | inr other ↦ (tt, cc (simp other at known))
  ];
}

sync-page_example :
    Serves codec (take 100 (drop 0 (log (codes "u") after.changes))) response.changes
    × (response.cursor ≡ 0 + length response.changes)
    × (response.has_more ≡ ltb response.cursor (length (log (codes "u") after.changes)))
sync-page_example =
    sync-page codec (codes "u") clock request before after response codec-IsLawful
      before-IsConsistent synced

sync-retry_example : sync codec (codes "u") (λ n. 900) request after ≡ ok (after, response)
sync-retry_example =
    sync-retry codec (codes "u") clock (λ n. 900) request before after response codec-IsLawful
      before-IsConsistent synced

before-IsBounded : IsBounded codec (codes "u") before
unfolding find
before-IsBounded = record { at_key = λ k row known. cc }

sync-IsBounded_example : IsBounded codec (codes "u") after
sync-IsBounded_example =
    sync-IsBounded codec (codes "u") clock request before after response codec-IsLawful
      before-IsConsistent before-IsBounded synced

other_user : codes "v" ≢ codes "u"
unfolding quire_server.Base.text_beq
other_user = λ h. cc ((eq_iff (codes "v") (codes "u")).1 h)

abbrev foreign : RecordKey
foreign = record key { user = codes "v" }

sync_isolated_example :
    (find foreign after.records ≡ find foreign before.records)
    × (log (codes "v") after.changes ≡ log (codes "v") before.changes)
    × (find (codes "v") after.cursors ≡ find (codes "v") before.cursors)
sync_isolated_example =
    sync_isolated codec (codes "u") clock request before after response (codes "v") foreign
      codec-IsLawful before-IsConsistent other_user refl synced

abbrev start : Progress
start = record { db = before; cursor = 0; results = [] }

abbrev end : Progress
end = record {
  db = record after { cursors = (codes "u", 0) ∷ [] };
  cursor = 1;
  results = result ∷ [];
}

start-IsLogged : IsLogged (codes "u") start.cursor start.db.changes
unfolding log
start-IsLogged = (tt, refl)

unknown : find (codes "u", codes "op-1") start.db.operations ≡ none
unfolding find
unknown = refl

applied : apply_operation codec (codes "u") clock operation start ≡ ok end
unfolding apply_operation accept_operation store_operation load_record find
    quire_server.Base.text_beq quire_server.Base.insert quire_server.Base.upsert
applied = refl

apply_operation-IsSettled_example : IsSettled codec (codes "u") clock operation start end
apply_operation-IsSettled_example =
    apply_operation-IsSettled codec (codes "u") clock operation start end start-IsLogged unknown
      applied
