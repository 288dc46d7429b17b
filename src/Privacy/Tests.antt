-- ===== src/Privacy/Tests.antt =====
-- The theorems on the privacy settings at a first passcode.
use quire_server.Base.{
  ◌≡◌, ◌≢◌, refl, ap, ◌∙◌, true, false, Option, none, some, List, [], ◌∷◌, ◌++◌, Text, codes, find,
  upsert, Table, pos, ℤ, ok,
}
use quire_server.Base.Encoding.{
  Encoding, text_encoding, option_encoding, list_encoding, pair_encoding,
}
use quire_server.Privacy.{
  PrivacyCredential, PrivacySettings, PrivacyResponse, PrivacyCodec, IsLawful, PrivacyTable,
  load_settings, sync_privacy, write_settings, check_state, valid_settings,
}
use quire_server.Sync.Validate.{book_pattern}
use quire_server.Privacy.Laws.{
  IsWrite, HasPasscode, sync_privacy-IsWrite, sync_privacy_keeps_passcode,
}

abbrev settings_encoding : Encoding (Option (Text × Text) × Option (Table Text Text))
settings_encoding =
    pair_encoding (option_encoding (pair_encoding text_encoding text_encoding))
      (option_encoding (list_encoding (pair_encoding text_encoding text_encoding)))

abbrev pair_of : Option PrivacyCredential → Option (Text × Text)
pair_of none = none
pair_of (some k) = some (k.salt, k.hash)

abbrev credential_of : Option (Text × Text) → Option PrivacyCredential
credential_of none = none
credential_of (some (salt, hash)) = some (record { salt = salt; hash = hash })

credential_of-pair_of : (k : Option PrivacyCredential) → credential_of (pair_of k) ≡ k
credential_of-pair_of none = refl
credential_of-pair_of (some k) = refl

abbrev settings_of :
    Option ((Option (Text × Text) × Option (Table Text Text)) × Text) → Option PrivacySettings
settings_of none = none
settings_of (some ((k, books), _)) = some (record { credential = credential_of k; books = books })

abbrev codec : PrivacyCodec
codec = record {
  encode = λ s. settings_encoding.put (pair_of s.credential, s.books) [];
  decode = λ text. settings_of (settings_encoding.get text);
}

codec-IsLawful : IsLawful codec
codec-IsLawful = record {
  back = λ s.
      let book_list : Option (Table Text Text) = s.books in
      let rebuild : Option PrivacyCredential → Option PrivacySettings =
        λ k. some (record { credential = k; books = book_list }) in
      ap settings_of (settings_encoding.back (pair_of s.credential, s.books) [])
      ∙ ap rebuild (credential_of-pair_of s.credential);
}

abbrev digits : Text
digits = codes "0123456789abcdef0123456789abcdef"

abbrev locked : PrivacySettings
locked = record {
  credential = some (record { salt = digits; hash = digits ++ digits });
  books = some ((digits ++ digits, codes "locked") ∷ []);
}

abbrev table : PrivacyTable
table = (codes "u", (1, codec.encode locked)) ∷ []

abbrev first_response : PrivacyResponse
first_response = record { revision = 1; state = locked; accepted = true }

set_passcode :
    sync_privacy codec (codes "u") (record { revision = pos 0; state = some locked }) []
    ≡ ok (table, first_response)
unfolding sync_privacy load_settings write_settings check_state valid_settings find upsert
    book_pattern quire_server.Base.text_beq
set_passcode = refl

sync_privacy-IsWrite_example : IsWrite codec (codes "u") 0 locked [] table first_response
sync_privacy-IsWrite_example =
    sync_privacy-IsWrite codec (codes "u") 0 locked [] table first_response set_passcode

abbrev moved : PrivacySettings
moved = record locked { books = some [] }

abbrev second_response : PrivacyResponse
second_response = record { revision = 2; state = moved; accepted = true }

abbrev second_table : PrivacyTable
second_table = (codes "u", (2, codec.encode moved)) ∷ []

unlock :
    sync_privacy codec (codes "u") (record { revision = pos 1; state = some moved }) table
    ≡ ok (second_table, second_response)
unfolding sync_privacy load_settings write_settings check_state valid_settings find upsert
    quire_server.Base.text_beq
unlock = refl

loaded : load_settings codec (codes "u") table ≡ ok (1, locked)
unfolding load_settings find quire_server.Base.text_beq
loaded = refl

has_passcode : HasPasscode codec (codes "u") locked
has_passcode = λ h. cc

sync_privacy_keeps_passcode_example :
    (load_settings codec (codes "u") second_table
      ≡ ok (second_response.revision, second_response.state))
    × HasPasscode codec (codes "u") second_response.state
sync_privacy_keeps_passcode_example =
    sync_privacy_keeps_passcode codec (codes "u") (record { revision = pos 1; state = some moved })
      1 locked table second_table second_response codec-IsLawful loaded has_passcode unlock
