-- ===== src/MetadataCache.antt =====
-- The metadata cache, internal/server/metadata_cache.go: a bounded cache in order of use, and the
-- flights by which concurrent readers of one object share one decoding. A call of `get` runs in
-- sections under the mutex: `lookup` at its start, and `settle` after it has loaded the value.
pub mod Bounds
pub mod Flights
pub mod Refinement
mod Tests
use quire_server.Base.{
  ℕ, zero, suc, ◌+◌, ◌-◌, ◌≡◌, Bool, true, false, not, ◌&&◌, ◌||◌, Option, none, some, List, [],
  ◌∷◌, ◌++◌, Text, len, length, keep, ltb, leb, ◌==◌, text_eq, nat_eq, if◌then◌else◌, Table, find,
  upsert, remove,
}
use quire_server.Base.Floats.{Float}

pub record BookMetadata : Type 0 where
  pub in_library : Option Bool
  pub folders : Option (List Text)
  pub folder : Text
  pub format : Text
  pub title : Text
  pub author : Text
  pub series : Text
  pub volume : Option Float
  pub cover : Text

pub record MetadataEntry : Type 0 where
  pub key : Text
  pub value : BookMetadata
  pub size : ℕ

-- The list `lru`, the most recently used entry first; the map `entries` points into it. A flight is
-- the value that its waiters get, once it has landed.
pub record MetadataCache : Type 0 where
  pub lru : List MetadataEntry
  pub flights : List Text
  pub max_entries : ℕ
  pub max_bytes : ℕ
  pub bytes : ℕ

unfoldable pub new_cache : ℕ → ℕ → MetadataCache
new_cache entries bytes = record {
  lru = [];
  flights = [];
  max_entries = entries;
  max_bytes = bytes;
  bytes = 0;
}

unfoldable pub entry_size : Text → BookMetadata → ℕ
entry_size key v = len key + len v.title + len v.author + len v.series + len v.cover + 8

-- c.entries[key]
unfoldable pub entry_of : Text → List MetadataEntry → Option MetadataEntry
entry_of key [] = none
entry_of key (e ∷ es) = if e.key == key then some e else entry_of key es

unfoldable pub without : Text → List MetadataEntry → List MetadataEntry
without key [] = []
without key (e ∷ es) = if e.key == key then es else e ∷ without key es

-- c.lru.MoveToFront(e)
unfoldable pub move_to_front : MetadataEntry → List MetadataEntry → List MetadataEntry
unfolding without
move_to_front e es = e ∷ without e.key es

unfoldable pub is_flying : Text → List Text → Bool
is_flying key [] = false
is_flying key (k ∷ ks) = k == key || is_flying key ks

unfoldable pub landed : Text → List Text → List Text
landed key [] = []
landed key (k ∷ ks) = if k == key then landed key ks else k ∷ landed key ks

-- How a call goes on behind its first section: with the cached value, waiting for the flight of another
-- call, or loading itself.
pub data Turn : Type 0 where
  hit : BookMetadata → Turn
  wait : Turn
  load : Turn

-- The first section of `get`.
unfoldable pub lookup : Text → MetadataCache → MetadataCache × Turn
unfolding entry_of move_to_front is_flying
lookup key c = elim (entry_of key c.lru) [
  | some e ↦ (record c { lru = move_to_front e c.lru }, hit e.value)
  | none ↦
      if is_flying key c.flights then (c, wait) else (record c { flights = key ∷ c.flights }, load)
]

-- c.lru.Back(), and the list without it
unfoldable pub back : List MetadataEntry → Option (List MetadataEntry × MetadataEntry)
back [] = none
back (e ∷ es) = elim (back es) [ none ↦ some ([], e) | some (rest, last) ↦ some (e ∷ rest, last) ]

unfoldable pub is_full : ℕ → MetadataCache → Bool
is_full size c = leb c.max_entries (length c.lru) || ltb c.max_bytes (c.bytes + size)

-- The eviction loop, for at most `fuel` rounds; `none` is a round that finds no entry to evict, which
-- would be a nil pointer, or the end of the fuel.
unfoldable pub evict : ℕ → ℕ → MetadataCache → Option MetadataCache
unfolding back
evict zero size c = if is_full size c then none else some c
evict (suc fuel) size c = elim (is_full size c) [
  | false ↦ some c
  | true ↦ elim (back c.lru) [
    | none ↦ none
    | some (rest, last) ↦ evict fuel size (record c { lru = rest; bytes = c.bytes - last.size })
  ]
]

abbrev pub insert_entry : Text → BookMetadata → ℕ → MetadataCache → MetadataCache
insert_entry key value size c = record c {
  lru = record { key = key; value = value; size = size } ∷ c.lru;
  bytes = c.bytes + size;
}

abbrev pub land : Text → MetadataCache → MetadataCache
land key c = record c { flights = landed key c.flights }

-- The second section of `get`, with the value that was loaded. A loop over a cache of n entries makes
-- at most n rounds.
unfoldable pub settle : Text → BookMetadata → MetadataCache → Option MetadataCache
unfolding evict landed
settle key value c =
    let size = entry_size key value in
    if ltb 0 c.max_entries && leb size c.max_bytes
    then (elim (evict (length c.lru) size c) [
      | none ↦ none
      | some d ↦ some (land key (insert_entry key value size d))
    ])
    else some (land key c)
