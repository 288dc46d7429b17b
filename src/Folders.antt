-- ===== src/Folders.antt =====
-- Folder names and a book's folder memberships: `validFolder` and `validBookFormat` of
-- internal/server/formats.go, and internal/server/folders.go. A JSON object is a table from its keys
-- to the raw text of its members.
pub mod Names
pub mod Memberships
mod Tests
use quire_server.Base.{
  ℕ, Bool, true, false, not, ◌&&◌, ◌||◌, Option, none, some, List, [], ◌∷◌, ◌++◌, Text, codes, len,
  length, all, any, contains, keep, ltb, ◌==◌, nat_eq, text_eq, if◌then◌else◌, is_control,
  trim_space, split, Table, find, upsert, Result, ok, err, panics,
}

abbrev pub book_formats : List Text
book_formats =
    codes "epub"
    ∷ codes "cbz"
    ∷ codes "cbr"
    ∷ codes "cb7"
    ∷ codes "fb2"
    ∷ codes "fbz"
    ∷ codes "mobi"
    ∷ codes "azw3"
    ∷ codes "pdf"
    ∷ []

unfoldable pub valid_book_format : Text → Bool
valid_book_format format = any (λ f. f == format) book_formats

-- one round of the loop over the parts of a path
unfoldable pub valid_part : Text → Bool
valid_part p = not (
    p == codes ""
    || p == codes "."
    || p == codes ".."
    || ltb 255 (len p)
    || not (trim_space p == p))

unfoldable pub valid_folder : Text → Bool
unfolding valid_part
valid_folder folder =
    if folder == codes ""
    then true
    else if ltb 1024 (len folder)
        || any (λ c. c == b'\\' || c == b':') folder
        || any is_control folder
    then false
    else if ltb 32 (length (split folder b'/'))
    then false
    else all valid_part (split folder b'/')

-- the loop of `validFolders` over the folders seen so far
unfoldable pub distinct_folders : List Text → List Text → Bool
distinct_folders seen [] = true
distinct_folders seen (folder ∷ folders) =
    if folder == codes "" || not (valid_folder folder) || contains folder seen
    then false
    else distinct_folders (folder ∷ seen) folders

unfoldable pub valid_folders : List Text → Bool
unfolding distinct_folders
valid_folders folders = if ltb 32 (length folders) then false else distinct_folders [] folders

-- a nil slice is `none`
unfoldable pub metadata_folders : Text → Option (List Text) → List Text
metadata_folders folder (some folders) = folders
metadata_folders folder none =
    if not (folder == codes "") && valid_folder folder then folder ∷ [] else []

abbrev pub Members : Type 0
Members = Table Text Text

-- encoding/json, as far as a book's value is concerned: `json.Unmarshal` into a map, whose nil is
-- `none`; the variable after `json.Unmarshal` into a string or a nil slice; `json.Marshal`.
pub record Json : Type 0 where
  pub members : Text → Option Members
  pub object : Members → Text
  pub string_of : Text → Text
  pub strings_of : Text → Option (List Text)
  pub string : Text → Text
  pub strings : List Text → Text

abbrev pub first : List Text → Text
first [] = []
first (f ∷ fs) = f

abbrev pub rest : List Text → List Text
rest [] = []
rest (f ∷ fs) = fs

-- An old client's change of the primary folder.
unfoldable pub replace_primary : Text → List Text → List Text
replace_primary folder folders =
    (if folder == codes "" then [] else folder ∷ []) ++ keep (λ f. not (f == folder)) (rest folders)

module _ (j : Json) where
  -- The string that a member holds; a missing member leaves the variable empty.
  unfoldable pub text_member : Text → Members → Text
  text_member k m = elim (find k m) [ none ↦ [] | some raw ↦ j.string_of raw ]

  unfoldable pub list_member : Text → Members → Option (List Text)
  list_member k m = elim (find k m) [ none ↦ none | some raw ↦ j.strings_of raw ]

  unfoldable pub previous_members : Option Text → Members
  previous_members none = []
  previous_members (some raw) = elim (j.members raw) [ none ↦ [] | some m ↦ m ]

  -- The memberships that `canonicalBookFolders` settles on.
  unfoldable pub settled_folders : Members → Members → List Text
  unfolding text_member list_member metadata_folders replace_primary
  settled_folders incoming old = elim (find (codes "folders") incoming) [
    | some raw ↦ elim (j.strings_of raw) [ none ↦ [] | some folders ↦ folders ]
    | none ↦
        let folders =
          metadata_folders (text_member (codes "folder") old) (list_member (codes "folders") old) in
        let folder = text_member (codes "folder") incoming in
        elim (find (codes "folder") incoming) [
          | none ↦ folders
          | some raw ↦ if folder == first folders then folders else replace_primary folder folders
        ]
  ]

  unfoldable pub keep_format : Members → Members → Members
  keep_format incoming old = elim (find (codes "format") incoming) [
    | some raw ↦ incoming
    | none ↦ elim (find (codes "format") old) [
      | none ↦ incoming
      | some raw ↦ upsert (codes "format") raw incoming
    ]
  ]

  unfoldable pub canonical_members : Members → Members → Members
  unfolding settled_folders keep_format
  canonical_members incoming old =
      let folders = settled_folders incoming old in
      let named = upsert (codes "folder") (j.string (first folders)) incoming in
      keep_format (upsert (codes "folders") (j.strings folders) named) old

  -- Writing to a nil map panics.
  unfoldable pub canonical_book_folders : Text → Option Text → Result Text
  unfolding previous_members canonical_members
  canonical_book_folders value previous = elim (j.members value) [
    | none ↦ err panics
    | some incoming ↦ ok (j.object (canonical_members incoming (previous_members previous)))
  ]
