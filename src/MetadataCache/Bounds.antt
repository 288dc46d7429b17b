-- ===== src/MetadataCache/Bounds.antt =====
-- The cache stays within its limits, and the eviction loop ends.
use quire_server.Base.{
  ℕ, suc, ◌+◌, ◌≤◌, ◌≡◌, ◌≢◌, refl, false, none, some, List, [], ◌∷◌, Text, length, All, All-map,
  subst, ◌==◌, text_eq, nat_eq, eq_iff, arith, Bool-cases, Option-cases, inl, inr,
}
use quire_server.MetadataCache.{
  MetadataEntry, MetadataCache, new_cache, entry_of, without, move_to_front, is_flying, lookup,
}

unfoldable pub total : List MetadataEntry → ℕ
total [] = 0
total (e ∷ es) = e.size + total es

abbrev pub Apart : Text → List MetadataEntry → Type 0
Apart key es = All (λ e. e.key ≢ key) es

abbrev pub HasDistinctKeys : List MetadataEntry → Type 0
HasDistinctKeys [] = Unit
HasDistinctKeys (e ∷ es) = Apart e.key es × HasDistinctKeys es

abbrev pub HasDistinctFlights : List Text → Type 0
HasDistinctFlights [] = Unit
HasDistinctFlights (k ∷ ks) = All (λ j. j ≢ k) ks × HasDistinctFlights ks

-- `bytes` is the sum of the sizes of the entries and within its limit, so is the number of entries;
-- no key stands twice among the entries or among the flights, or in both.
pub record IsValid (c : MetadataCache) : Type 0 where
  pub counted : c.bytes ≡ total c.lru
  pub in_bytes : c.bytes ≤ c.max_bytes
  pub in_entries : length c.lru ≤ c.max_entries
  pub distinct : HasDistinctKeys c.lru
  pub single : HasDistinctFlights c.flights
  pub separate : All (λ k. Apart k c.lru) c.flights

pub new_cache-IsValid : (entries bytes : ℕ) → IsValid (new_cache entries bytes)
unfolding new_cache total
new_cache-IsValid entries bytes = record {
  counted = refl;
  in_bytes = omega arith;
  in_entries = omega arith;
  distinct = tt;
  single = tt;
  separate = tt;
}

pub without-parts :
    (key : Text) (es : List MetadataEntry) (e : MetadataEntry)
    → entry_of key es ≡ some e
    → (e.key ≡ key)
      × (total es ≡ e.size + total (without key es))
      × (length es ≡ suc (length (without key es)))
unfolding entry_of without total
without-parts key [] e h = cc
without-parts key (x ∷ es) e h = elim (Bool-cases (x.key == key)) [
  | inl same ↦
      let x_eq : x ≡ e = cc (simp same at h) in
      simp same (rw (← x_eq) ((eq_iff x.key key).0 same, refl, refl))
  | inr other ↦
      let (at, sum, size) = without-parts key es e (simp other at h) in
      simp other (at, omega (arith, sum), omega (arith, size))
]

Apart-without : (k key : Text) (es : List MetadataEntry) → Apart k es → Apart k (without key es)
unfolding without
Apart-without k key [] _ = tt
Apart-without k key (x ∷ es) (h, hs) = elim (Bool-cases (x.key == key)) [
  | inl same ↦ simp same hs
  | inr other ↦ simp other (h, Apart-without k key es hs)
]

without-distinct :
    (key : Text) (es : List MetadataEntry)
    → HasDistinctKeys es
    → Apart key (without key es) × HasDistinctKeys (without key es)
unfolding without
without-distinct key [] _ = (tt, tt)
without-distinct key (x ∷ es) (h, hs) = elim (Bool-cases (x.key == key)) [
  | inl same ↦ simp same (rw (← (eq_iff x.key key).0 same) h, hs)
  | inr other ↦
      let (apart, rest) = without-distinct key es hs in
      simp other ((ground (arith, eq_iff x.key key), apart), (Apart-without x.key key es h, rest))
]

pub Apart-missed : (key : Text) (es : List MetadataEntry) → entry_of key es ≡ none → Apart key es
unfolding entry_of
Apart-missed key [] _ = tt
Apart-missed key (x ∷ es) h = elim (Bool-cases (x.key == key)) [
  | inl same ↦ cc (simp same at h)
  | inr other ↦ (ground (arith, eq_iff x.key key), Apart-missed key es (simp other at h))
]

missing_flight : (key : Text) (ks : List Text) → is_flying key ks ≡ false → All (λ j. j ≢ key) ks
unfolding is_flying
missing_flight key [] _ = tt
missing_flight key (k ∷ ks) h = elim (Bool-cases (k == key)) [
  | inl same ↦ cc (simp same at h)
  | inr other ↦ (ground (arith, eq_iff k key), missing_flight key ks (simp other at h))
]

-- An entry of the list stays apart from every key that the list is apart from.
Apart-entry :
    (k key : Text) (es : List MetadataEntry) (e : MetadataEntry)
    → entry_of key es ≡ some e
    → Apart k es
    → e.key ≢ k
unfolding entry_of
Apart-entry k key [] e h _ = cc
Apart-entry k key (x ∷ es) e h (p, ps) = elim (Bool-cases (x.key == key)) [
  | inl same ↦ let x_eq : x ≡ e = cc (simp same at h) in subst (λ y. y.key ≢ k) x_eq p
  | inr other ↦ Apart-entry k key es e (simp other at h) ps
]

hit-IsValid :
    (e : MetadataEntry) (c : MetadataCache)
    → IsValid c
    → entry_of e.key c.lru ≡ some e
    → IsValid (record c { lru = move_to_front e c.lru })
unfolding move_to_front total
hit-IsValid e c v found =
    let (_, sum, size) = without-parts e.key c.lru e found in
    record {
      counted = omega (arith, v.counted, sum);
      in_bytes = v.in_bytes;
      in_entries = omega (arith, v.in_entries, size);
      distinct = without-distinct e.key c.lru v.distinct;
      single = v.single;
      separate =
          All-map (λ k. Apart k c.lru) (λ k. (e.key ≢ k) × Apart k (without e.key c.lru)) c.flights
            (λ k p. (Apart-entry k e.key c.lru e found p, Apart-without k e.key c.lru p))
            v.separate;
    }

-- The first section of `get` keeps a valid cache valid, whatever key it looks for.
pub lookup-IsValid : (key : Text) (c : MetadataCache) → IsValid c → IsValid (lookup key c).0
unfolding lookup
lookup-IsValid key c v = elim (Option-cases (entry_of key c.lru)) [
  | inr (e, found) ↦
      let found_own : entry_of e.key c.lru ≡ some e =
        simp ((without-parts key c.lru e found).0) found in
      rw (found, lookup) (hit-IsValid e c v found_own)
  | inl missed ↦ elim (Bool-cases (is_flying key c.flights)) [
    | inl e ↦ rw (missed, lookup) (simp e v)
    | inr e ↦
        rw (missed, lookup)
          (simp e (record {
            counted = v.counted;
            in_bytes = v.in_bytes;
            in_entries = v.in_entries;
            distinct = v.distinct;
            single = (missing_flight key c.flights e, v.single);
            separate = (Apart-missed key c.lru missed, v.separate);
          }))
  ]
]
