-- ===== src/FolderCatalog/Tests.antt =====
-- The theorems on the folder catalog at a first write.
use quire_server.Base.{
  ◌≡◌, ◌≤◌, ◌^◌, refl, ap, ◌∙◌, true, Option, none, some, List, [], ◌∷◌, Text, codes, len, pos, ℤ,
  ok,
}
use quire_server.Base.Encoding.{
  Encoding, text_encoding, option_encoding, list_encoding, pair_encoding,
}
use quire_server.Folders.{distinct_folders, valid_folder, valid_part}
use quire_server.FolderCatalog.{
  FolderCatalog, FolderCatalogResponse, CatalogCodec, IsLawful, CatalogTable, checked_paths,
  validated_catalog, load_catalog, write_catalog, checked_state, sync_catalog,
}
use quire_server.FolderCatalog.Laws.{IsWrite, sync_catalog-IsWrite}
use quire_server.FolderCatalog.Sorting.{IsStored, validated_catalog-IsStored}

abbrev catalog_encoding : Encoding (Option (List Text) × Option (List Text))
catalog_encoding =
    pair_encoding (option_encoding (list_encoding text_encoding))
      (option_encoding (list_encoding text_encoding))

abbrev catalog_of : Option ((Option (List Text) × Option (List Text)) × Text) → Option FolderCatalog
catalog_of none = none
catalog_of (some ((library, hidden), _)) = some (record { library = library; hidden = hidden })

abbrev codec : CatalogCodec
codec = record {
  encode = λ s. catalog_encoding.put (s.library, s.hidden) [];
  decode = λ text. catalog_of (catalog_encoding.get text);
}

codec-IsLawful : IsLawful codec
codec-IsLawful = record {
  back = λ s. ap catalog_of (catalog_encoding.back (s.library, s.hidden) []);
}

abbrev sent : FolderCatalog
sent = record { library = some (codes "B" ∷ codes "A/C" ∷ []); hidden = some (codes "B" ∷ []) }

abbrev sorted : FolderCatalog
sorted = record { library = some (codes "A/C" ∷ codes "B" ∷ []); hidden = some (codes "B" ∷ []) }

accepted : validated_catalog codec sent ≡ ok sorted
unfolding validated_catalog checked_paths distinct_folders valid_folder valid_part
    quire_server.Base.text_beq len quire_server.Base.is_control quire_server.Base.split
    quire_server.Base.trim_space
accepted = refl

validated_catalog-IsStored_example :
    (library hidden : List Text) × (sorted
      ≡ record { library = some library; hidden = some hidden })
    × IsStored library
    × IsStored hidden
    × (len (codec.encode sorted) ≤ 2 ^ 20)
validated_catalog-IsStored_example = validated_catalog-IsStored codec sent sorted accepted

abbrev table : CatalogTable
table = (codes "u", (1, codec.encode sorted)) ∷ []

abbrev response : FolderCatalogResponse
response = record { revision = 1; state = sorted; accepted = true }

first_write :
    sync_catalog codec (codes "u") (record { revision = pos 0; state = some sent }) []
    ≡ ok (table, response)
unfolding sync_catalog load_catalog write_catalog checked_state validated_catalog checked_paths
    distinct_folders valid_folder valid_part quire_server.Base.text_beq len
    quire_server.Base.is_control quire_server.Base.split quire_server.Base.trim_space
    quire_server.Base.find quire_server.Base.upsert
first_write = refl

sync_catalog-IsWrite_example : IsWrite codec (codes "u") 0 sent [] table response
sync_catalog-IsWrite_example =
    sync_catalog-IsWrite codec (codes "u") 0 sent [] table response first_write
