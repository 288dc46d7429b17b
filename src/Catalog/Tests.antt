-- ===== src/Catalog/Tests.antt =====
-- The theorems on catalog sources, at one source of one account.
use quire_server.Base.{
  ℕ, ◌≡◌, ◌≤◌, ◌&&◌, ◌||◌, not, refl, Bool, true, false, Option, none, some, List, [], ◌∷◌, ◌++◌,
  Text, codes, length, contains, ◌==◌, text_eq, nat_eq, if◌then◌else◌, pos, Result, ok, has_prefix,
  find, pair_eq,
}
use quire_server.Catalog.{
  CatalogSource, CatalogCredentials, CatalogSourceWrite, Url, Links, SourceRow, CatalogDb,
  CatalogCodec, catalog_url, write_catalog_source,
}
use quire_server.Catalog.Secrets.{
  IsReachable, at_start, after, WriteRequest, IsBound, IsReachable-IsBound,
}
use quire_server.Catalog.Addresses.{
  ipv4, ipv6, covers, loop4, home4, closed4, loop6, home6, closed6, catalog_ip_allowed,
  catalog_ip_allowed_lem,
}
use quire_server.Catalog.Proxy.{Sent, Response, fetch, Guarded, fetch-Guarded}

-- Every text that begins with https:// is the URL of one host.
abbrev host : Text → Url
host raw = record {
  scheme = codes "https";
  hostname = codes "books.example";
  port = [];
  has_user = false;
  path = [];
  raw_query = [];
  fragment = [];
  text = raw;
}

abbrev links : Links
links = record {
  parse = λ raw. if has_prefix raw (codes "https://") then some (host raw) else none;
  lower = λ s. s;
}

-- Every stored answer reads as the source below; credentials are sealed as name:password.
abbrev source : CatalogSource
source = record {
  id = codes "a";
  name = codes "Books";
  url = codes "https://books.example/opds";
  revision = 1;
  deleted = false;
}

abbrev credentials : CatalogCredentials
credentials = record { username = codes "ann"; password = codes "secret" }

abbrev write : CatalogSourceWrite
write = record {
  name = codes "Books";
  url = codes "https://books.example/opds";
  base_revision = pos 0;
  operation_id = codes "op";
  deleted = false;
  credentials = some credentials;
}

abbrev codec : CatalogCodec
codec = record {
  digest = λ id v. id ++ v.name;
  source = λ s. s.name;
  source_of = λ text. some source;
  seal = λ user id nonce v. ok (v.username ++ 58 ∷ v.password);
  open_sealed = λ user id secret. ok credentials;
}

abbrev before : CatalogDb
before = record { sources = []; operations = [] }

abbrev row : SourceRow
row = record {
  name = codes "Books";
  url = codes "https://books.example/opds";
  revision = 1;
  deleted = false;
  secret = some (codes "ann:secret");
}

abbrev written : CatalogDb
written = record {
  sources = ((codes "u", codes "a"), row) ∷ [];
  operations = ((codes "u", codes "op"), (codes "aBooks", codes "Books")) ∷ [];
}

writes :
    write_catalog_source links codec (codes "u") (codes "a") (codes "n") write before
    ≡ ok (written, source)
unfolding write_catalog_source quire_server.Base.len quire_server.Base.text_beq
    quire_server.Base.trim_space catalog_url has_prefix find quire_server.Base.insert
    quire_server.Base.upsert
writes = refl

abbrev request : WriteRequest
request = record { user = codes "u"; id = codes "a"; nonce = codes "n"; write = write }

reached : IsReachable links codec (request ∷ []) written
reached = after request [] before written source at_start writes

IsReachable-IsBound_example : IsBound links codec (request ∷ []) written
IsReachable-IsBound_example =
    IsReachable-IsBound links codec {rs = request ∷ []} {db = written} reached

abbrev origin : Url
origin = host (codes "https://books.example/opds")

linked : catalog_url links (codes "https://books.example/opds") ≡ some origin
unfolding catalog_url has_prefix quire_server.Base.len quire_server.Base.text_beq
linked = refl

-- A server that redirects every request to the same host.
abbrev remote : ℕ → Sent → Option Response
remote n s = some (record {
  status = 302;
  location = some (codes "https://books.example/next");
  content_length = none;
  content_type = [];
  body = [];
})

fetch-Guarded_example :
    (length
        (fetch links [] remote
          (codes "https://books.example/opds/1")
          (codes "https://books.example/opds")
          (some credentials)).0
      ≤ 6)
    × Guarded links [] remote origin
        (some credentials)
        false
        (fetch links [] remote
          (codes "https://books.example/opds/1")
          (codes "https://books.example/opds")
          (some credentials)).0
fetch-Guarded_example =
    fetch-Guarded links [] remote (codes "https://books.example/opds/1")
      (codes "https://books.example/opds") (some credentials) origin linked

-- 10.0.0.7
catalog_ip_allowed_lem_example :
    (catalog_ip_allowed (ipv4 167772167) false
      ≡ not (covers 167772167 loop4 || covers 167772167 home4 || covers 167772167 closed4))
    × (catalog_ip_allowed (ipv4 167772167) true
        ≡ (covers 167772167 loop4 || not (covers 167772167 closed4)))
    × (catalog_ip_allowed (ipv6 167772167) false
        ≡ not (covers 167772167 loop6 || covers 167772167 home6 || covers 167772167 closed6))
    × (catalog_ip_allowed (ipv6 167772167) true
        ≡ (covers 167772167 loop6 || not (covers 167772167 closed6)))
catalog_ip_allowed_lem_example = catalog_ip_allowed_lem 167772167
