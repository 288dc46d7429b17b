-- ===== src/Privacy.antt =====
-- Privacy settings, internal/server/privacy.go: the account-wide compare-and-swap of `SyncPrivacy`.
-- A Go map is the table of its entries in the order of their keys.
pub mod Laws
mod Tests
use quire_server.Base.{
  ℕ, ◌+◌, ◌≡◌, Bool, true, false, not, ◌&&◌, ◌||◌, Option, none, some, List, [], ◌∷◌, Text, codes,
  length, all, ltb, ◌==◌, text_eq, nat_eq, if◌then◌else◌, Table, find, upsert, hex_pattern, ℤ,
  is_neg, pos_part, Result, ok, err, invalid, conflict, decoding, reject, demand, ◌>>=◌, ◌>>◌,
}
use quire_server.Sync.Validate.{book_pattern}

pub record PrivacyCredential : Type 0 where
  pub salt : Text
  pub hash : Text

-- `books` is `none` for a nil map.
pub record PrivacySettings : Type 0 where
  pub credential : Option PrivacyCredential
  pub books : Option (Table Text Text)

pub record PrivacyRequest : Type 0 where
  pub revision : ℤ
  pub state : Option PrivacySettings

pub record PrivacyResponse : Type 0 where
  pub revision : ℕ
  pub state : PrivacySettings
  pub accepted : Bool

-- encoding/json on the settings
pub record PrivacyCodec : Type 0 where
  pub encode : PrivacySettings → Text
  pub decode : Text → Option PrivacySettings

pub record IsLawful (c : PrivacyCodec) : Type 0 where
  pub back : (s : PrivacySettings) → c.decode (c.encode s) ≡ some s

abbrev mode_ok : Text × Text → Bool
mode_ok (id, mode) = book_pattern id && (mode == codes "hidden" || mode == codes "locked")

abbrev credential_ok : Option PrivacyCredential → Bool
credential_ok none = true
credential_ok (some k) = hex_pattern 32 k.salt && book_pattern k.hash

abbrev is_nil {ℓ} : {A : Type ℓ} → Option A → Bool
is_nil none = true
is_nil (some a) = false

-- `PrivacySettings.validate`; true where it returns no error.
unfoldable pub valid_settings : PrivacySettings → Bool
unfolding book_pattern
valid_settings p = elim p.books [
  | none ↦ false
  | some books ↦
      not (ltb 10000 (length books) || is_nil p.credential && ltb 0 (length books))
      && credential_ok p.credential
      && all mode_ok books
]

abbrev pub empty_settings : PrivacySettings
empty_settings = record { credential = none; books = some [] }

-- 2^53 - 1
abbrev pub max_revision : ℕ
max_revision = 9007199254740991

-- No passcode is taken away.
abbrev pub drops_passcode : PrivacySettings → PrivacySettings → Bool
drops_passcode old new = not (is_nil old.credential) && is_nil new.credential

-- The table `privacy_settings`: a revision and the encoded settings for each user.
abbrev pub PrivacyTable : Type 0
PrivacyTable = Table Text (ℕ × Text)

module _ (c : PrivacyCodec) where
  unfoldable pub load_settings : Text → PrivacyTable → Result (ℕ × PrivacySettings)
  load_settings user t = elim (find user t) [
    | none ↦ ok (0, empty_settings)
    | some row ↦ do s ← demand decoding (c.decode row.1); ok (row.0, s)
  ]

  -- A write at revision `base` over the stored state.
  unfoldable pub write_settings :
      Text
      → ℕ
      → PrivacySettings
      → ℕ
      → PrivacySettings
      → PrivacyTable
      → Result (PrivacyTable × PrivacyResponse)
  write_settings user base new revision old t =
      if base == revision
      then (do
        reject (drops_passcode old new) invalid
        if c.encode new == c.encode old
            then ok (t, record { revision = revision; state = old; accepted = true })
            else ok (
              upsert user (revision + 1, c.encode new) t,
              record { revision = revision + 1; state = new; accepted = true },
            ))
      else ok (t, record { revision = revision; state = old; accepted = false })

  unfoldable pub check_state : Option PrivacySettings → Result (Unit {0})
  unfolding valid_settings
  check_state none = ok tt
  check_state (some s) = reject (not (valid_settings s)) invalid

  unfoldable pub sync_privacy :
      Text → PrivacyRequest → PrivacyTable → Result (PrivacyTable × PrivacyResponse)
  unfolding load_settings write_settings check_state
  sync_privacy user req t = do
    reject (is_neg req.revision || ltb max_revision (pos_part req.revision)) invalid
    check_state req.state
    (revision, old) ← load_settings user t
    elim req.state [
      | none ↦ ok (t, record { revision = revision; state = old; accepted = true })
      | some new ↦ do
        reject (ltb revision (pos_part req.revision)) conflict
        write_settings user (pos_part req.revision) new revision old t
    ]
