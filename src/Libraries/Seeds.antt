-- ===== src/Libraries/Seeds.antt =====
-- The records that shared books bring a member: `migrateSharedMembership` and `sharedSeeds` of
-- internal/server/libraries.go, `seedBook` of internal/server/files.go. They are the first call of
-- `Store.Sync`. Random ids, the time and the metadata of the files are arguments.
pub mod Own
pub mod Single
pub mod Migration
pub mod Whole
pub mod Shared
use quire_server.Base.{
  ℕ, ◌+◌, Bool, true, false, not, ◌&&◌, ◌||◌, Option, none, some, List, [], ◌∷◌, ◌++◌, Text, codes,
  len, any, contains, ◌==◌, text_eq, nat_eq, pair_eq, if◌then◌else◌, Table, find, upsert, insert,
  Result, ok, err, constraint, panics, demand, ◌>>=◌, ◌>>◌,
}
use quire_server.Base.Floats.{Float}
use quire_server.Folders.{Members, valid_folder, valid_folders, canonical_book_folders}
use quire_server.MetadataCache.{BookMetadata}
use quire_server.Sync.Wire.{Candidate, Record, SyncRequest, SyncResponse, Codec}
use quire_server.Sync.Validate.{book, has}
use quire_server.Sync.Apply.{Db, RecordKey, RecordRow, key_eq, settled, sync}
use quire_server.Admin.{Directory}
use quire_server.Libraries.{FileRow}
use quire_server.Libraries.Access.{is_shared}
use quire_server.Libraries.Volumes.{VolumeSyntax, infer_metadata_volume}

-- What seeding uses of encoding/json besides: the value of a member that is a string, the members of a
-- `map[string]any` as they are written again (a nil map is `some none`, an error `none`), the text of a nullable number and of a Boolean, and
-- `json.Unmarshal` into metadata that is there already.
pub record SeedCodec : Type 0 where
  pub text_of : Text → Option Text
  pub rewritten : Text → Option (Option Members)
  pub volume : Option Float → Text
  pub boolean : Bool → Text
  pub merge : Text → BookMetadata → BookMetadata

-- The arguments of `seedBook`, with the id and the time that it draws; `folder` is the optional one.
pub record Seed : Type 0 where
  pub user : Text
  pub book_id : Text
  pub title : Text
  pub metadata : BookMetadata
  pub folder : Option Text
  pub id : Text
  pub now : ℕ

abbrev pub book_key : Text → Text → RecordKey
book_key user book_id = record {
  user = user;
  book_id = book_id;
  kind = book;
  record_id = codes "default";
}

abbrev pub note_at : Text → Text → Option ℕ → Db → Result Db
note_at user text none db = ok db
note_at user text (some n) db = do
  changes ← demand constraint (insert (user, n + 1) text db.changes)
  ok (record db { cursors = upsert user (n + 1) db.cursors; changes = changes })

-- UPDATE cursors SET value=value+1 WHERE user_id=?; INSERT INTO changes SELECT user_id,value,? FROM cursors
unfoldable pub note_change : Text → Text → Db → Result Db
note_change user text db = note_at user text (find user db.cursors) db

-- The value of a record that only an automatic seed has written: their ids have 64 letters.
abbrev pub seed_candidate : List Candidate → Option Candidate
seed_candidate [] = none
seed_candidate (c ∷ []) = if c.deleted || not (len c.operation_id == 64) then none else some c
seed_candidate (c ∷ d ∷ cs) = none

abbrev pub only_seed : Option (List Candidate) → Option Candidate
only_seed none = none
only_seed (some cs) = seed_candidate cs

abbrev pub is_text : Text → Option Text → Bool
is_text t none = false
is_text t (some u) = u == t

abbrev pub is_nonempty : Text → Bool
is_nonempty t = not (t == codes "")

module _ (c : Codec) (y : VolumeSyntax) (j : SeedCodec) where
  -- previous[key] == text
  abbrev pub member_is : Text → Text → Members → Bool
  member_is key text m = elim (find key m) [
    | none ↦ false
    | some raw ↦ is_text text (j.text_of raw)
  ]

  abbrev pub is_bare : Text → Option Members → Bool
  is_bare title none = false
  is_bare title (some m) =
      member_is (codes "title") title m && member_is (codes "author") (codes "") m

  abbrev optional : Bool → Text → Text → Members → Members
  optional wanted key raw m = if wanted then upsert key raw m else m

  abbrev flagged : Option Bool → Members → Members
  flagged none m = m
  flagged (some b) m = upsert (codes "inLibrary") (j.boolean b) m

  abbrev placed : BookMetadata → Option Text → Members → Members
  placed meta none m = elim meta.folders [
    | none ↦ m
    | some folders ↦ optional (valid_folders folders) (codes "folders") (c.json.strings folders) m
  ]
  placed meta (some folder) m =
      optional (is_nonempty folder) (codes "folder") (c.json.string folder) m

  -- The fields of a seed.
  unfoldable pub seed_fields : Text → BookMetadata → Option Text → Members
  seed_fields title meta folder =
      let title' : Text = if is_nonempty meta.title then meta.title else title in
      let base : Members =
        (codes "title", c.json.string title')
        ∷ (codes "author", c.json.string meta.author)
        ∷ (codes "series", c.json.string meta.series)
        ∷ (codes "volume", j.volume meta.volume)
        ∷ [] in
      let formatted =
        optional (is_nonempty meta.format) (codes "format") (c.json.string meta.format)
          (flagged meta.in_library base) in
      placed meta folder (
        optional (is_nonempty meta.folder && valid_folder meta.folder) (codes "folder")
          (c.json.string meta.folder) formatted)

  abbrev pub seed_record : Seed → ℕ → Text → Record
  seed_record s revision value = record {
    book_id = s.book_id;
    kind = book;
    record_id = codes "default";
    revision = revision;
    candidates =
        record { operation_id = s.id; deleted = false; value = value; created_at = s.now } ∷ [];
  }

  -- The record and the change of a seed.
  abbrev pub write_seed : Seed → ℕ → Text → Db → Result Db
  write_seed s revision value db =
      let entry = seed_record s revision value in
      note_change s.user (c.encode entry) (record db {
        records =
            upsert (book_key s.user s.book_id)
              (record { revision = revision; candidates = c.candidates entry.candidates })
              db.records;
      })

  -- A seed is written unless the record holds its value already.
  abbrev pub put_seed : Seed → ℕ → Option Text → BookMetadata → Db → Result Db
  put_seed s revision old meta db = do
    value ← canonical_book_folders c.json (c.json.object (seed_fields s.title meta s.folder)) none
    if is_text value old then ok db else write_seed s revision value db

  -- A record that is there: only a bare seed is replaced, and only by metadata with a title or an author.
  abbrev pub reseed : Seed → ℕ → BookMetadata → Option Candidate → Db → Result Db
  reseed s revision meta none db = ok db
  reseed s revision meta (some old) db =
      if not (is_bare s.title (c.json.members old.value))
        || not (is_nonempty meta.title || is_nonempty meta.author)
      then ok db
      else put_seed s (revision + 1) (some old.value) meta db

  abbrev pub row_candidate : RecordRow → Option Candidate
  row_candidate row = only_seed (c.candidates_of row.candidates)

  abbrev pub seed_row : Seed → BookMetadata → Option RecordRow → Db → Result Db
  seed_row s meta none db = put_seed s 1 none meta db
  seed_row s meta (some row) db = reseed s row.revision meta (row_candidate row) db

  -- `seedBook`
  unfoldable pub seed_book : Seed → Db → Result Db
  seed_book s db =
      seed_row s (infer_metadata_volume y s.metadata s.title)
        (find (book_key s.user s.book_id) db.records) db
