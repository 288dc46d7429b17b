-- ===== src/Sync/Validate.antt =====
-- `strictJSON` and `validateOperation` of internal/server/sync.go.
use quire_server.Base.{
  ℕ, Bool, true, false, not, ◌&&◌, ◌||◌, Option, none, some, List, [], ◌∷◌, Text, codes, len,
  length, all, ltb, ◌==◌, nat_eq, text_eq, if◌then◌else◌, is_lower, is_upper, is_digit, hex_pattern,
  trim_space, find, ℤ, is_neg, pos_part, Result, ok, err, invalid, reject, ◌>>=◌, ◌>>◌,
}
use quire_server.Base.Floats.{below_zero, above, equals}
use quire_server.Folders.{valid_folder, valid_folders, valid_book_format, Members, first}
use quire_server.Sync.Wire.{Operation, Codec, BookValue, PositionValue, AnnotationValue}

-- ^[a-f0-9]{64}$
unfoldable pub book_pattern : Text → Bool
unfolding hex_pattern
book_pattern = hex_pattern 64

abbrev id_start : ℕ → Bool
id_start c = is_upper c || is_lower c || is_digit c

abbrev id_char : ℕ → Bool
id_char c = id_start c || c == b'.' || c == b'_' || c == b':' || c == b'-'

-- ^[A-Za-z0-9][A-Za-z0-9._:-]{0,127}$
unfoldable pub id_pattern : Text → Bool
id_pattern [] = false
id_pattern (c ∷ s) = id_start c && all id_char s && not (ltb 127 (length s))

-- The value of a document that holds nothing after it.
single : {A : Type 0} → Option (A × Bool) → Result A
single none = err invalid
single (some (v, false)) = err invalid
single (some (v, true)) = ok v

strict_object : {A : Type 0} → (Text → Option (A × Bool)) → Text → Result A
strict_object decode [] = err invalid
strict_object decode (c ∷ s) = if c == b'{' then single (decode (c ∷ s)) else err invalid

unfoldable pub strict_json : {A : Type 0} → (Text → Option (A × Bool)) → Text → Result A
unfolding single strict_object trim_space
strict_json decode raw = strict_object decode (trim_space raw)

abbrev pub null : Text
null = codes "null"

abbrev pub has : Text → Members → Bool
has k m = elim (find k m) [ none ↦ false | some raw ↦ true ]

-- bytes.Equal(bytes.TrimSpace(fields[k]), []byte("null"))
unfoldable pub is_null : Text → Members → Bool
unfolding trim_space
is_null k m = elim (find k m) [ none ↦ false | some raw ↦ trim_space raw == null ]

-- a nil slice has no folder
abbrev folders_of : BookValue → List Text
folders_of v = elim v.folders [ none ↦ [] | some fs ↦ fs ]

unfoldable pub folders_invalid : BookValue → Members → Bool
unfolding is_null
folders_invalid v fields =
    if has (codes "folders") fields
    then is_null (codes "folders") fields
      || not (valid_folders (folders_of v))
      || has (codes "folder") fields && not (v.folder == first (folders_of v))
    else false

-- case "book"
unfoldable pub book_invalid : BookValue → Bool
book_invalid v =
    v.title == codes ""
    || ltb 2048 (len v.title)
    || ltb 2048 (len v.author)
    || ltb 2048 (len v.series)
    || not (valid_folder v.folder)
    || not (v.format == codes "") && not (valid_book_format v.format)

unfoldable pub book_fields_invalid : BookValue → Members → Bool
unfolding folders_invalid
book_fields_invalid v fields =
    has (codes "format") fields && not (valid_book_format v.format)
    || folders_invalid v fields
    || is_null (codes "folder") fields
    || is_null (codes "format") fields
    || is_null (codes "inLibrary") fields

-- an optional chapter within its bounds
abbrev pub chapter_outside : ℕ → Option ℤ → Bool
chapter_outside least none = false
chapter_outside least (some n) = is_neg n || ltb (pos_part n) least || ltb 100000 (pos_part n)

-- case "position"
unfoldable pub position_invalid : PositionValue → Bool
position_invalid v = elim v.cfi [
  | none ↦ true
  | some cfi ↦ elim v.fraction [
    | none ↦ true
    | some f ↦
        ltb 8192 (len cfi)
        || below_zero f
        || above f 1 1
        || cfi == codes "" && not (equals f 1)
        || ltb 2048 (len v.at_section)
        || chapter_outside 0 v.completed_chapter
        || chapter_outside 1 v.current_chapter
  ]
]

-- case "annotation"
unfoldable pub annotation_invalid : AnnotationValue → Bool
annotation_invalid v =
    not (v.kind == codes "bookmark") && not (v.kind == codes "highlight")
    || v.cfi == codes ""
    || ltb 8192 (len v.cfi)
    || ltb 2048 (len v.at_section)

unfoldable pub header_invalid : Operation → Bool
unfolding book_pattern id_pattern
header_invalid op =
    not (id_pattern op.id)
    || not (id_pattern op.record_id)
    || not (book_pattern op.book_id)
    || is_neg op.base_revision
    || ltb 32768 (len op.value)

abbrev pub book : Text
book = codes "book"

abbrev pub position : Text
position = codes "position"

abbrev pub annotation : Text
annotation = codes "annotation"

unfoldable pub kind_invalid : Operation → Bool
kind_invalid op =
    not (op.kind == book) && not (op.kind == position) && not (op.kind == annotation)
    || not (op.kind == annotation) && not (op.record_id == codes "default")

module _ (c : Codec) where
  unfoldable pub validate_book : Text → Result (Unit {0})
  unfolding strict_json book_invalid book_fields_invalid
  validate_book value = do
    v ← strict_json c.decode_book value
    reject (book_invalid v) invalid
    elim (c.json.members value) [
      | none ↦ err invalid
      | some fields ↦ reject (book_fields_invalid v fields) invalid
    ]

  unfoldable pub validate_position : Text → Result (Unit {0})
  unfolding strict_json position_invalid
  validate_position value = do
    v ← strict_json c.decode_position value
    reject (position_invalid v) invalid

  unfoldable pub validate_annotation : Text → Result (Unit {0})
  unfolding strict_json annotation_invalid
  validate_annotation value = do
    v ← strict_json c.decode_annotation value
    reject (annotation_invalid v) invalid

  unfoldable pub validate_value : Operation → Result (Unit {0})
  unfolding validate_book validate_position validate_annotation
  validate_value op =
      if op.kind == book
      then validate_book op.value
      else if op.kind == position
      then validate_position op.value
      else if op.kind == annotation
      then validate_annotation op.value
      else ok tt

  unfoldable pub validate_operation : Operation → Result (Unit {0})
  unfolding header_invalid kind_invalid validate_value
  validate_operation op = do
    reject (header_invalid op) invalid
    reject (kind_invalid op) invalid
    if op.deleted
        then reject (ltb 0 (len op.value) && not (op.value == null)) invalid
        else if len op.value == 0 || op.value == null
        then err invalid
        else validate_value op
