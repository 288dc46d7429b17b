-- ===== src/Folders/Tests.antt =====
-- The theorems on folders at concrete names.
use quire_server.Base.{
  ◌≡◌, ◌≢◌, ◌≤◌, ◌↔◌, refl, arith, true, Bool, Option, none, some, List, [], ◌∷◌, Text, codes,
  length, contains, text_eq, nat_eq, find, All,
}
use quire_server.Folders.{
  valid_folder, valid_part, distinct_folders, valid_folders, Members, Json, text_member,
  list_member, settled_folders, metadata_folders, first,
}
use quire_server.Folders.Names.{IsFolder, IsDistinct, valid_folders_iff}
use quire_server.Folders.Memberships.{settled_folders-valid, held}

abbrev manga : Text
manga = codes "Manga/Seinen"

abbrev read : Text
read = codes "Read"

abbrev two : List Text
two = manga ∷ read ∷ []

valid_folders_iff_example :
    (valid_folders two ≡ true) ↔ ((length two ≤ 32) × All IsFolder two × IsDistinct two)
valid_folders_iff_example = valid_folders_iff two

two_valid : valid_folders two ≡ true
unfolding valid_folders distinct_folders valid_folder valid_part quire_server.Base.text_beq
    quire_server.Base.len quire_server.Base.is_control quire_server.Base.split
    quire_server.Base.trim_space
two_valid = refl

new_valid : valid_folder (codes "New") ≡ true
unfolding valid_folder valid_part quire_server.Base.text_beq quire_server.Base.len
    quire_server.Base.is_control quire_server.Base.split quire_server.Base.trim_space
new_valid = refl

named : codes "New" ≢ codes ""
named = λ h. cc

has_read : contains read (read ∷ []) ≡ true
unfolding quire_server.Base.text_beq
has_read = refl

-- A member's text is taken as it stands; of a list only its first string is written.
abbrev plain : Json
plain = record {
  members = λ raw. some ((codes "folder", raw) ∷ []);
  object = λ m. first (raws m);
  string_of = λ raw. raw;
  strings_of = λ raw. some (raw ∷ []);
  string = λ s. s;
  strings = λ ss. first ss;
}
  where
    raws : Members → List Text
    raws [] = []
    raws ((k, raw) ∷ m) = raw ∷ raws m

abbrev incoming : Members
incoming = (codes "title", codes "T") ∷ (codes "folder", codes "New") ∷ []

abbrev old : Members
old = (codes "folders", manga) ∷ []

title_other : codes "title" ≢ codes "format"
title_other = λ h. cc

not_sent :
    (fs : List Text)
    → list_member plain (codes "folders") incoming ≡ some fs
    → valid_folders fs ≡ true
unfolding list_member find quire_server.Base.text_beq
not_sent fs h = cc

new_member_valid : valid_folder (text_member plain (codes "folder") incoming) ≡ true
unfolding text_member find quire_server.Base.text_beq
new_member_valid = new_valid

held_valid : valid_folders (held plain old) ≡ true
unfolding valid_folders distinct_folders valid_folder valid_part text_member list_member find
    metadata_folders quire_server.Base.text_beq quire_server.Base.len quire_server.Base.is_control
    quire_server.Base.split quire_server.Base.trim_space
held_valid = refl

settled_folders-valid_example : valid_folders (settled_folders plain incoming old) ≡ true
settled_folders-valid_example =
    settled_folders-valid plain incoming old not_sent new_member_valid held_valid
