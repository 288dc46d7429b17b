-- ===== src/Libraries/Tests.antt =====
-- The theorems on shared libraries, where ann is a member of one that holds one book.
use quire_server.Base.{
  ℕ, ◌≡◌, ◌⊎◌, ◌&&◌, ◌||◌, not, refl, inl, inr, Bool, true, false, Option, none, some, List, [],
  ◌∷◌, ◌++◌, Text, codes, any, keep, contains, find, if◌then◌else◌, ◌==◌, text_eq, nat_eq, pair_eq,
  Result, ok, err,
}
use quire_server.Auth.{User, Crypto}
use quire_server.MetadataCache.{BookMetadata}
use quire_server.Sync.Apply.{Db, key_eq}
use quire_server.Sync.Apply.Page.{IsConsistent}
use quire_server.Sync.Tests.{codec, before, clock, request, codec-IsLawful, before-IsConsistent}
use quire_server.Admin.{Directory, LibraryRow, register}
use quire_server.Libraries.{
  FileRow, Holdings, create_library, delete_library, remove_member, owner_of, redeemer_is,
}
use quire_server.Libraries.Reachable.{
  IsReachable, at_start, after, registered, founded, empty_directory, IsReachable-IsSound,
}
use quire_server.Libraries.Steps.{IsSoundDirectory}
use quire_server.Libraries.Deletion.{IsWithout, delete_library_lem}
use quire_server.Libraries.Access.{accessible_owner, is_shared, accessible_owner-is_shared}
use quire_server.Libraries.Volumes.{VolumeSyntax}
use quire_server.Libraries.Seeds.{SeedCodec, Seed, book_key, seed_book}
use quire_server.Libraries.Seeds.Whole.{shared_seed, shared_seeds, full_sync}
use quire_server.Libraries.Seeds.Own.{IsOwnStep}
use quire_server.Libraries.Seeds.Single.{IsSeedOf, seed_book-IsSeedOf}
use quire_server.Libraries.Seeds.Shared.{IsSeeding, shared_seeds-IsSeeding, full_sync-IsConsistent}

abbrev crypto : Crypto
crypto = record { password_key = λ password salt. password; sha256 = λ text. text }

abbrev root : User
root = record {
  id = codes "r";
  username = codes "root";
  salt = codes "s";
  password_hash = codes "root's password";
  admin = true;
  disabled = false;
}

abbrev owner : User
owner = record {
  id = codes "o";
  username = codes "library.l";
  salt = [];
  password_hash = [];
  admin = false;
  disabled = true;
}

abbrev set_up : Directory
set_up = record empty_directory {
  accounts = record { users = root ∷ []; sessions = []; cursors = (codes "r", 0) ∷ [] };
}

abbrev library : LibraryRow
library = record { id = codes "l"; name = codes "Shelf"; owner = codes "o" }

abbrev with_library : Directory
with_library = record set_up {
  accounts = record {
    users = root ∷ owner ∷ [];
    sessions = [];
    cursors = (codes "r", 0) ∷ (codes "o", 0) ∷ [];
  };
  libraries = library ∷ [];
}

sets_up :
    register crypto
      (codes "root")
      (codes "root's password")
      (codes "code")
      true
      (codes "s")
      (codes "r")
      50
      empty_directory
    ≡ ok set_up
unfolding register quire_server.Base.len quire_server.Base.insert
sets_up = refl

founds : create_library (codes "Shelf") (codes "l") (codes "o") set_up ≡ ok with_library
unfolding create_library quire_server.Base.text_beq quire_server.Base.trim_space
    quire_server.Base.len quire_server.Base.insert
founds = refl

reached : IsReachable crypto with_library
reached =
    after set_up with_library
      (after empty_directory set_up at_start (
        registered (codes "root") (codes "root's password") (codes "code") true (codes "s")
          (codes "r") 50 empty_directory set_up sets_up))
      (founded (codes "Shelf") (codes "l") (codes "o") set_up with_library founds)

IsReachable-IsSound_example : IsSoundDirectory with_library
IsReachable-IsSound_example = IsReachable-IsSound crypto {db = with_library} reached

abbrev pub shared : Directory
shared = record with_library { library_members = (codes "l", codes "u") ∷ [] }

abbrev pub file : FileRow
file = record {
  user_id = codes "o";
  book_id = codes "k";
  kind = codes "upload";
  source = codes "k.epub";
  size = 9;
}

abbrev holdings : Holdings
holdings = record {
  directory = shared;
  records = [];
  changes = [];
  operations = [];
  files = file ∷ [];
  watch_roots = [];
  scan_status = [];
}

abbrev deleted : Holdings
deleted = record holdings { directory = record set_up { library_members = [] }; files = [] }

deletes : delete_library (codes "l") holdings ≡ ok deleted
unfolding delete_library quire_server.Base.text_beq quire_server.Base.remove
deletes = refl

delete_library_lem_example :
    (o : Text) × (owner_of (codes "l") shared.libraries ≡ some o)
    × IsWithout (codes "l") o holdings deleted
    × (any (λ l. l.owner == o) deleted.directory.libraries ≡ false)
    × (any (λ m. m.1 == o) deleted.directory.library_members ≡ false)
    × (any (λ i. redeemer_is o i.redeemed_by) deleted.directory.invites ≡ false)
delete_library_lem_example = delete_library_lem (codes "l") holdings deleted deletes

accessible_owner-is_shared_example :
    ((o : Text)
      → accessible_owner (codes "u") (codes "k") shared (file ∷ []) ≡ some o
      → (any (λ f. f.book_id == codes "k" && f.user_id == o) (file ∷ []) ≡ true)
        × ((o ≡ codes "u")
            ⊎ (is_shared (codes "u") o shared.libraries shared.library_members ≡ true)))
    × ((o : Text)
        → accessible_owner (codes "u") (codes "k") shared (file ∷ []) ≡ none
        → ((o == codes "u") || is_shared (codes "u") o shared.libraries shared.library_members)
          ≡ true
        → any (λ f. f.book_id == codes "k" && f.user_id == o) (file ∷ []) ≡ false)
accessible_owner-is_shared_example =
    accessible_owner-is_shared (codes "u") (codes "k") shared (file ∷ [])

abbrev pub syntax : VolumeSyntax
syntax = record {
  explicit_volume = λ s. none;
  volume_suffix = λ s. false;
  volume_marker = λ s. false;
  parse_float = λ s. none;
  lower = λ s. s;
}

abbrev pub seed_codec : SeedCodec
seed_codec = record {
  text_of = λ raw. some raw;
  rewritten = λ raw. some none;
  volume = λ v. codes "null";
  boolean = λ b. if b then codes "true" else codes "false";
  merge = λ raw meta. meta;
}

abbrev pub metadata : Text × Text → BookMetadata
metadata item = record {
  in_library = none;
  folders = none;
  folder = [];
  format = codes "epub";
  title = codes "T";
  author = codes "A";
  series = [];
  volume = none;
  cover = [];
}

abbrev pub ids : Text × Text → Text
ids item = codes "id"

abbrev seeded : Db
seeded = record before {
  cursors = (codes "u", 1) ∷ [];
  records = (book_key (codes "u") (codes "k"), record { revision = 1; candidates = 0 ∷ [] }) ∷ [];
  changes = ((codes "u", 1), codes "default") ∷ [];
}

seeds :
    shared_seeds codec syntax seed_codec
      (codes "u")
      metadata
      ids
      100
      shared
      shared
      (file ∷ [])
      (file ∷ [])
      before
    ≡ (seeded, ok tt)
unfolding shared_seeds quire_server.Libraries.Seeds.Migration.migrate_shared_membership
    quire_server.Libraries.Seeds.Migration.pending
    quire_server.Libraries.Seeds.Migration.upgrade_all quire_server.Libraries.Seeds.Whole.seed_items
    quire_server.Libraries.Seeds.Whole.shared_items quire_server.Base.text_beq seed_book find
    quire_server.Folders.canonical_book_folders quire_server.Libraries.Seeds.note_change shared_seed
    quire_server.Base.insert quire_server.Base.upsert
seeds = refl

shared_seeds-IsSeeding_example :
    IsSeeding codec syntax seed_codec
      (codes "u")
      before
      (shared_seeds codec syntax seed_codec
        (codes "u")
        metadata
        ids
        100
        shared
        shared
        (file ∷ [])
        (file ∷ [])
        before).0
shared_seeds-IsSeeding_example =
    shared_seeds-IsSeeding codec syntax seed_codec (codes "u") metadata ids 100 shared shared
      (file ∷ []) (file ∷ []) before

full_sync-IsConsistent_example :
    IsConsistent
      (full_sync codec syntax seed_codec
        (codes "u")
        metadata
        ids
        shared
        shared
        (file ∷ [])
        (file ∷ [])
        clock
        request
        before).0
full_sync-IsConsistent_example =
    full_sync-IsConsistent codec syntax seed_codec (codes "u") metadata ids shared shared
      (file ∷ []) (file ∷ []) clock request before codec-IsLawful before-IsConsistent

abbrev seed : Seed
seed =
    shared_seed codec syntax seed_codec (codes "u") metadata ids 100 before (codes "o", codes "k")

seeds_one : seed_book codec syntax seed_codec seed before ≡ ok seeded
unfolding seed_book find quire_server.Folders.canonical_book_folders
    quire_server.Libraries.Seeds.note_change quire_server.Base.text_beq shared_seed
    quire_server.Base.insert quire_server.Base.upsert
seeds_one = refl

seed_book-IsSeedOf_example :
    IsOwnStep (codes "u") before seeded
    × ((seeded ≡ before)
        ⊎ IsSeedOf codec syntax seed_codec seed
            (find (book_key seed.user seed.book_id) before.records)
            before
            seeded)
unfolding shared_seed
seed_book-IsSeedOf_example = seed_book-IsSeedOf codec syntax seed_codec seed before seeded seeds_one
