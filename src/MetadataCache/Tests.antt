-- ===== src/MetadataCache/Tests.antt =====
-- The theorems on the metadata cache at a cache of one entry.
use quire_server.Base.{
  ◌≡◌, ◌≢◌, ◌≤◌, refl, arith, false, Option, none, some, List, [], ◌∷◌, map, Text, codes, eq_iff,
  text_eq, nat_eq,
}
use quire_server.MetadataCache.{BookMetadata, MetadataCache, new_cache, settle, is_flying}
use quire_server.MetadataCache.Bounds.{IsValid, total}
use quire_server.MetadataCache.Flights.{settle-IsValid}
use quire_server.MetadataCache.Refinement.{get_all, get_all-new_cache}

abbrev metadata : BookMetadata
metadata = record {
  in_library = none;
  folders = none;
  folder = [];
  format = [];
  title = codes "T";
  author = [];
  series = [];
  volume = none;
  cover = [];
}

abbrev cache : MetadataCache
cache = record {
  lru = record { key = codes "a"; value = metadata; size = 10 } ∷ [];
  flights = codes "b" ∷ [];
  max_entries = 1;
  max_bytes = 100;
  bytes = 10;
}

apart : codes "a" ≢ codes "b"
unfolding quire_server.Base.text_beq
apart = λ h. cc ((eq_iff (codes "a") (codes "b")).1 h)

cache-IsValid : IsValid cache
unfolding total
cache-IsValid = record {
  counted = refl;
  in_bytes = omega arith;
  in_entries = omega arith;
  distinct = (tt, tt);
  single = (tt, tt);
  separate = ((apart, tt), tt);
}

settle-IsValid_example :
    (d : MetadataCache) × (settle (codes "b") metadata cache ≡ some d)
    × IsValid d
    × (is_flying (codes "b") d.flights ≡ false)
settle-IsValid_example = settle-IsValid (codes "b") metadata cache cache-IsValid (apart, tt)

get_all-new_cache_example :
    get_all (λ key. metadata) (codes "a" ∷ codes "b" ∷ codes "a" ∷ []) (new_cache 1 100)
    ≡ some (map (λ key. metadata) (codes "a" ∷ codes "b" ∷ codes "a" ∷ []))
get_all-new_cache_example =
    get_all-new_cache (λ key. metadata) (codes "a" ∷ codes "b" ∷ codes "a" ∷ []) 1 100
