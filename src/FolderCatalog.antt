-- ===== src/FolderCatalog.antt =====
-- The folder catalog of an account, internal/server/folder_catalog.go.
pub mod Laws
pub mod Sorting
mod Tests
use quire_server.Base.{
  ℕ, ◌+◌, ◌^◌, ◌≡◌, Bool, true, false, not, ◌||◌, Option, none, some, List, [], ◌∷◌, Text, codes,
  len, length, ltb, ◌==◌, text_eq, nat_eq, if◌then◌else◌, sort_texts, Table, find, upsert, ℤ,
  is_neg, pos_part, Result, ok, err, invalid, conflict, decoding, reject, demand, ◌>>=◌, ◌>>◌,
}
use quire_server.Folders.{distinct_folders}
use quire_server.Privacy.{max_revision}

-- A nil slice is `none`.
pub record FolderCatalog : Type 0 where
  pub library : Option (List Text)
  pub hidden : Option (List Text)

pub record FolderCatalogRequest : Type 0 where
  pub revision : ℤ
  pub state : Option FolderCatalog

pub record FolderCatalogResponse : Type 0 where
  pub revision : ℕ
  pub state : FolderCatalog
  pub accepted : Bool

-- encoding/json on the catalog
pub record CatalogCodec : Type 0 where
  pub encode : FolderCatalog → Text
  pub decode : Text → Option FolderCatalog

-- Distinct catalogs have distinct texts, and a text decodes to what was encoded.
pub record IsLawful (c : CatalogCodec) : Type 0 where
  pub back : (s : FolderCatalog) → c.decode (c.encode s) ≡ some s

-- One round of the loop of `validate`: the paths in order.
unfoldable pub checked_paths : Option (List Text) → Result (List Text)
checked_paths none = err invalid
checked_paths (some paths) = do
  reject (ltb 5000 (length paths)) invalid
  reject (not (distinct_folders [] paths)) invalid
  ok (sort_texts paths)

abbrev pub empty_catalog : FolderCatalog
empty_catalog = record { library = some []; hidden = some [] }

-- The table `folder_catalog`: a revision and the encoded catalog for each user.
abbrev pub CatalogTable : Type 0
CatalogTable = Table Text (ℕ × Text)

module _ (c : CatalogCodec) where
  -- `FolderCatalog.validate`, which sorts the paths in place: the catalog as it stands afterwards.
  unfoldable pub validated_catalog : FolderCatalog → Result FolderCatalog
  unfolding checked_paths
  validated_catalog p = do
    library ← checked_paths p.library
    hidden ← checked_paths p.hidden
    let sorted : FolderCatalog = record { library = some library; hidden = some hidden }
    reject (ltb (2 ^ 20) (len (c.encode sorted))) invalid
    ok sorted

  unfoldable pub load_catalog : Text → CatalogTable → Result (ℕ × FolderCatalog)
  load_catalog user t = elim (find user t) [
    | none ↦ ok (0, empty_catalog)
    | some row ↦ do s ← demand decoding (c.decode row.1); ok (row.0, s)
  ]

  -- A write at revision `base` over the stored state.
  unfoldable pub write_catalog :
      Text
      → ℕ
      → FolderCatalog
      → ℕ
      → FolderCatalog
      → CatalogTable
      → Result (CatalogTable × FolderCatalogResponse)
  write_catalog user base new revision old t =
      let same = c.encode new == c.encode old in
      if base == revision || same
      then (if same
          then ok (t, record { revision = revision; state = old; accepted = true })
          else ok (
            upsert user (revision + 1, c.encode new) t,
            record { revision = revision + 1; state = new; accepted = true },
          ))
      else ok (t, record { revision = revision; state = old; accepted = false })

  unfoldable pub checked_state : Option FolderCatalog → Result (Option FolderCatalog)
  unfolding validated_catalog
  checked_state none = ok none
  checked_state (some s) = do s' ← validated_catalog s; ok (some s')

  unfoldable pub sync_catalog :
      Text → FolderCatalogRequest → CatalogTable → Result (CatalogTable × FolderCatalogResponse)
  unfolding load_catalog write_catalog checked_state
  sync_catalog user req t = do
    reject (is_neg req.revision || ltb max_revision (pos_part req.revision)) invalid
    state ← checked_state req.state
    (revision, old) ← load_catalog user t
    elim state [
      | none ↦ ok (t, record { revision = revision; state = old; accepted = true })
      | some new ↦ do
        reject (ltb revision (pos_part req.revision)) conflict
        write_catalog user (pos_part req.revision) new revision old t
    ]
