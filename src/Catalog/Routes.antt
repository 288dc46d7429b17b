-- ===== src/Catalog/Routes.antt =====
-- The list of an account's catalog sources, and the routes of internal/server/opds_sources.go.
use quire_server.Base.{
  Bool, List, [], ◌∷◌, Text, ◌==◌, text_eq, nat_eq, pair_eq, if◌then◌else◌, text_leb, Table, Result,
  ok, err,
}
use quire_server.Http.{Reply, denied, granted, failure_status}
use quire_server.Catalog.{
  CatalogSource, CatalogSourceWrite, SourceRow, CatalogDb, Links, CatalogCodec,
  write_catalog_source,
}

abbrev source_before : CatalogSource → CatalogSource → Bool
source_before a b = if a.name == b.name then text_leb a.id b.id else text_leb a.name b.name

abbrev place_source : CatalogSource → List CatalogSource → List CatalogSource
place_source a [] = a ∷ []
place_source a (b ∷ bs) = if source_before a b then a ∷ b ∷ bs else b ∷ place_source a bs

-- `catalogSources`: ORDER BY name,id
unfoldable pub catalog_sources : Text → Table (Text × Text) SourceRow → List CatalogSource
catalog_sources user [] = []
catalog_sources user (((u, id), row) ∷ t) =
    let rest = catalog_sources user t in
    if u == user
    then place_source
        (record {
          id = id;
          name = row.name;
          url = row.url;
          revision = row.revision;
          deleted = row.deleted;
        })
        rest
    else rest

-- GET /v1/catalog-sources
unfoldable pub get_sources : Reply Text → CatalogDb → Reply (List CatalogSource)
get_sources (denied status) db = denied status
get_sources (granted user) db = granted (catalog_sources user db.sources)

abbrev stored_answer :
    CatalogDb → Result (CatalogDb × CatalogSource) → CatalogDb × Reply CatalogSource
stored_answer db (err e) = (db, denied (failure_status e))
stored_answer db (ok (db', out)) = (db', granted out)

-- PUT /v1/catalog-sources/{id}
unfoldable pub put_source :
    Links
    → CatalogCodec
    → Reply Text
    → Reply CatalogSourceWrite
    → (id nonce : Text) → CatalogDb
    → CatalogDb × Reply CatalogSource
put_source l c (denied status) input id nonce db = (db, denied status)
put_source l c (granted user) (denied status) id nonce db = (db, denied status)
put_source l c (granted user) (granted v) id nonce db =
    stored_answer db (write_catalog_source l c user id nonce v db)
