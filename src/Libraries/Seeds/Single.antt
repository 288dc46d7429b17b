-- ===== src/Libraries/Seeds/Single.antt =====
-- What one seed, or one upgrade of a seed, does to the tables.
use quire_server.Base.{
  ℕ, ◌+◌, ◌≡◌, ◌≢◌, ◌∙◌, ◌⊎◌, refl, sym, ap, subst, Bool, true, false, not, ◌||◌, Option, none,
  some, List, [], ◌∷◌, len, codes, Text, ◌==◌, text_eq, nat_eq, pair_eq, eq_iff, find, upsert,
  find-upsert, ok, >>=-eq-ok, ok_unique, arith, Bool-cases, Option-cases, inl, inr,
}
use quire_server.Folders.{Members, canonical_book_folders}
use quire_server.MetadataCache.{BookMetadata}
use quire_server.Sync.Wire.{Candidate, Codec}
use quire_server.Sync.Apply.{Db, RecordRow, key_eq}
use quire_server.Libraries.Volumes.{VolumeSyntax, infer_metadata_volume}
use quire_server.Libraries.Seeds.{
  SeedCodec, Seed, book_key, row_candidate, is_bare, put_seed, reseed, seed_row, seed_book,
  seed_fields, seed_record, only_seed, member_is, is_text, is_nonempty,
}
use quire_server.Libraries.Seeds.Own.{key_apart, IsOwnStep, IsOwnStep-refl, written-IsOwnStep}

module _ (c : Codec) (y : VolumeSyntax) (j : SeedCodec) where
  -- What a seed that is written leaves: one candidate, the seed's own, at the given revision, with the
  -- fields of the seed in canonical form.
  pub record IsSeeded (s : Seed) (meta : BookMetadata) (revision : ℕ) (db db' : Db) : Type 0 where
    pub value : Text
    pub written :
        canonical_book_folders c.json (c.json.object (seed_fields c y j s.title meta s.folder)) none
        ≡ ok value
    pub stored :
        db'.records
        ≡ upsert
            (book_key s.user s.book_id)
            (record {
              revision = revision;
              candidates = c.candidates (seed_record c y j s revision value).candidates;
            })
            db.records

  -- A written seed whose value is not the one that was there.
  abbrev pub IsChanged : Seed → BookMetadata → ℕ → Option Text → Db → Db → Type 0
  IsChanged s meta revision old db db' =
      (seeded : IsSeeded s meta revision db db') × (is_text seeded.value old ≡ false)

  put_seed-IsSeeded :
      (s : Seed) (revision : ℕ) (old : Option Text) (meta : BookMetadata) (db db' : Db)
      → put_seed c y j s revision old meta db ≡ ok db'
      → IsOwnStep s.user db db' × ((db' ≡ db) ⊎ IsChanged s meta revision old db db')
  put_seed-IsSeeded s revision old meta db db' e =
      let fields = seed_fields c y j s.title meta s.folder in
      let (value, canonical, e₁) =
        >>=-eq-ok (canonical_book_folders c.json (c.json.object fields) none) _ e in
      elim (Bool-cases (is_text value old)) [
        | inl same ↦
            let at : db ≡ db' = ok_unique (ok db) refl (simp same at e₁) in
            (subst (IsOwnStep s.user db) at (IsOwnStep-refl s.user db), inl (sym at))
        | inr changed ↦
            let key = book_key s.user s.book_id in
            let row : RecordRow = record {
              revision = revision;
              candidates = c.candidates (seed_record c y j s revision value).candidates;
            } in
            let (step, stored) =
              written-IsOwnStep s.user (c.encode (seed_record c y j s revision value)) db db'
                (upsert key row db.records)
                (λ k other.
                  find-upsert key k row db.records ∙ simp (key_apart s.user s.book_id k other) refl)
                (simp changed at e₁) in
            (step, inr (record { value = value; written = canonical; stored = stored }, changed))
      ]

  -- A member of a JSON object that is a string.
  abbrev pub HasText : Members → Text → Text → Type 0
  HasText m key text = (raw : Text) × (find key m ≡ some raw) × (j.text_of raw ≡ some text)

  -- What a seed may replace: a single candidate that is no deletion, whose operation id has 64 bytes, and
  -- whose value has the title of the seed and an empty author.
  pub record IsBare (s : Seed) (row : RecordRow) (old : Candidate) : Type 0 where
    pub only : c.candidates_of row.candidates ≡ some (old ∷ [])
    pub alive : old.deleted ≡ false
    pub sized : len old.operation_id ≡ 64
    pub fields : Members
    pub parsed : c.json.members old.value ≡ some fields
    pub title : HasText fields (codes "title") s.title
    pub author : HasText fields (codes "author") (codes "")

  only_seed-some :
      (o : Option (List Candidate)) (old : Candidate)
      → only_seed o ≡ some old
      → (o ≡ some (old ∷ [])) × (old.deleted ≡ false) × (len old.operation_id ≡ 64)
  only_seed-some none old e = cc
  only_seed-some (some []) old e = cc
  only_seed-some (some (d ∷ d' ∷ ds)) old e = cc
  only_seed-some (some (d ∷ [])) old e =
      elim (Bool-cases (d.deleted || not (len d.operation_id == 64))) [
        | inl bad ↦ cc (simp bad at e)
        | inr good ↦
            let same : d ≡ old = cc (simp good at e) in
            subst
              (λ k.
                (some (d ∷ []) ≡ some (k ∷ [])) × (k.deleted ≡ false) × (len k.operation_id ≡ 64))
              same (refl, ground (arith, good), ground (arith, good))
      ]

  text_is : (text : Text) (o : Option Text) → is_text text o ≡ true → o ≡ some text
  text_is text none e = cc
  text_is text (some u) e = ap some ((eq_iff u text).0 e)

  member_is-HasText :
      (key text : Text) (m : Members) → member_is c y j key text m ≡ true → HasText m key text
  member_is-HasText key text m e = elim (Option-cases (find key m)) [
    | inl missing ↦ cc (rw (missing, member_is) at e)
    | inr (raw, found) ↦ (raw, found, text_is text (j.text_of raw) (rw (found, member_is) at e))
  ]

  bare_fields :
      (title : Text) (o : Option Members)
      → is_bare c y j title o ≡ true
      → (m : Members) × (o ≡ some m)
        × HasText m (codes "title") title
        × HasText m (codes "author") (codes "")
  bare_fields title none e = cc
  bare_fields title (some m) e = (
    m,
    refl,
    member_is-HasText (codes "title") title m (ground (arith, e)),
    member_is-HasText (codes "author") (codes "") m (ground (arith, e)),
  )

  IsBare-row_candidate :
      (s : Seed) (row : RecordRow) (old : Candidate)
      → row_candidate c y j row ≡ some old
      → is_bare c y j s.title (c.json.members old.value) ≡ true
      → IsBare s row old
  IsBare-row_candidate s row old found bare =
      let (only, alive, sized) = only_seed-some (c.candidates_of row.candidates) old found in
      let (m, parsed, title, author) = bare_fields s.title (c.json.members old.value) bare in
      record {
        only = only;
        alive = alive;
        sized = sized;
        fields = m;
        parsed = parsed;
        title = title;
        author = author;
      }

  -- What a seed over a record does that changes something.
  pub record IsReseeded (s : Seed) (meta : BookMetadata) (row : RecordRow) (db db' : Db)
      : Type 0 where
    pub old : Candidate
    pub bare : IsBare s row old
    pub known : (is_nonempty meta.title || is_nonempty meta.author) ≡ true
    pub seeded : IsSeeded s meta (row.revision + 1) db db'
    pub changed : seeded.value ≢ old.value

  reseed-IsReseeded :
      (s : Seed) (row : RecordRow) (meta : BookMetadata) (o : Option Candidate) (db db' : Db)
      → row_candidate c y j row ≡ o
      → reseed c y j s row.revision meta o db ≡ ok db'
      → IsOwnStep s.user db db' × ((db' ≡ db) ⊎ IsReseeded s meta row db db')
  reseed-IsReseeded s row meta none db db' found e =
      let at : db ≡ db' = ok_unique (ok db) refl e in
      (subst (IsOwnStep s.user db) at (IsOwnStep-refl s.user db), inl (sym at))
  reseed-IsReseeded s row meta (some old) db db' found e =
      let kept : Bool =
        not (is_bare c y j s.title (c.json.members old.value))
        || not (is_nonempty meta.title || is_nonempty meta.author) in
      elim (Bool-cases kept) [
        | inl keeps ↦
            let at : db ≡ db' = ok_unique (ok db) refl (simp keeps at e) in
            (subst (IsOwnStep s.user db) at (IsOwnStep-refl s.user db), inl (sym at))
        | inr bare ↦
            let (step, out) =
              put_seed-IsSeeded s (row.revision + 1) (some old.value) meta db db'
                (simp bare at e) in
            (
              step,
              elim out [
                | inl same ↦ inl same
                | inr (seeded, differs) ↦ inr (record {
                  old = old;
                  bare = IsBare-row_candidate s row old found (ground (arith, bare));
                  known = ground (arith, bare);
                  seeded = seeded;
                  changed = λ same.
                      let never : true ≡ false =
                        sym ((eq_iff old.value seeded.value).1 (sym same)) ∙ differs in
                      cc;
                })
              ],
            )
      ]

  abbrev pub IsSeedOf : Seed → Option RecordRow → Db → Db → Type 0
  IsSeedOf s none db db' = IsSeeded s (infer_metadata_volume y s.metadata s.title) 1 db db'
  IsSeedOf s (some row) db db' =
      IsReseeded s (infer_metadata_volume y s.metadata s.title) row db db'

  seed_row-IsSeedOf :
      (s : Seed) (o : Option RecordRow) (db db' : Db)
      → seed_row c y j s (infer_metadata_volume y s.metadata s.title) o db ≡ ok db'
      → IsOwnStep s.user db db' × ((db' ≡ db) ⊎ IsSeedOf s o db db')
  seed_row-IsSeedOf s none db db' e =
      let (step, out) =
        put_seed-IsSeeded s 1 none (infer_metadata_volume y s.metadata s.title) db db' e in
      (step, elim out [ inl same ↦ inl same | inr (seeded, other) ↦ inr seeded ])
  seed_row-IsSeedOf s (some row) db db' e =
      reseed-IsReseeded s row (infer_metadata_volume y s.metadata s.title) (row_candidate c y j row)
        db db' refl e

  -- A seed changes nothing, or gives its book one candidate of its own, whose value is the seed's fields
  -- in canonical form: at revision 1 where the user has no record of the book; else at the next revision,
  -- with another value than before, only for metadata with a title or an author, and only over a single
  -- candidate that is no deletion, whose operation id has 64 bytes, and whose title is the seed's and
  -- author empty. Other users, and the remembered operations, are left alone, and every log stays
  -- consistent.
  pub seed_book-IsSeedOf :
      (s : Seed) (db db' : Db)
      → seed_book c y j s db ≡ ok db'
      → IsOwnStep s.user db db'
        × ((db' ≡ db) ⊎ IsSeedOf s (find (book_key s.user s.book_id) db.records) db db')
  unfolding seed_book
  seed_book-IsSeedOf s db db' e =
      seed_row-IsSeedOf s (find (book_key s.user s.book_id) db.records) db db' e
