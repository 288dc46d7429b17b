-- ===== src/MetadataCache/Flights.antt =====
-- The second section of `get`: the eviction loop ends without running out of entries, and the flight
-- lands.
use quire_server.Base.{
  ℕ, zero, suc, ◌+◌, ◌-◌, ◌≤◌, ◌<◌, ◌≡◌, ◌≢◌, refl, ap, true, false, ◌&&◌, Option, none, some, List,
  [], ◌∷◌, ◌++◌, Text, length, All, All-map, ltb, leb, ◌==◌, text_eq, nat_eq, eq_iff, arith,
  Bool-cases, Option-cases, inl, inr, subst, ◌∙◌, length-append,
}
use quire_server.MetadataCache.{
  BookMetadata, MetadataEntry, MetadataCache, entry_size, landed, is_flying, back, is_full, evict,
  insert_entry, land, settle,
}
use quire_server.MetadataCache.Bounds.{total, Apart, HasDistinctKeys, HasDistinctFlights, IsValid}

back_some : (e : MetadataEntry) (es : List MetadataEntry) → back (e ∷ es) ≢ none
unfolding back
back_some e es = elim (Option-cases (back es)) [
  | inl gone ↦ simp gone (λ h. cc)
  | inr ((r, l), left) ↦ simp left (λ h. cc)
]

back_empty : (es : List MetadataEntry) → back es ≡ none → es ≡ []
back_empty [] _ = refl
back_empty (e ∷ es) h = elim (back_some e es h) [ ]

pub back-append :
    (es rest : List MetadataEntry) (last : MetadataEntry)
    → back es ≡ some (rest, last)
    → es ≡ rest ++ last ∷ []
unfolding back
back-append [] rest last h = cc
back-append (e ∷ es) rest last h = elim (Option-cases (back es)) [
  | inl gone ↦
      let eq : some ([], e) ≡ some (rest, last) = simp gone at h in
      let empty : es ≡ [] = back_empty es gone in
      let got : List MetadataEntry × MetadataEntry = ([], e) in
      let p : got ≡ (rest, last) = cc in ap (λ xs. e ∷ xs) empty ∙ ap (λ q. q.0 ++ q.1 ∷ []) p
  | inr ((r, l), left) ↦
      let eq : some (e ∷ r, l) ≡ some (rest, last) = simp left at h in
      let whole : es ≡ r ++ l ∷ [] = back-append es r l left in
      let got : List MetadataEntry × MetadataEntry = (e ∷ r, l) in
      let p : got ≡ (rest, last) = cc in ap (λ xs. e ∷ xs) whole ∙ ap (λ q. q.0 ++ q.1 ∷ []) p
]

total-append : (es fs : List MetadataEntry) → total (es ++ fs) ≡ total es + total fs
unfolding total
total-append [] fs = omega arith
total-append (e ∷ es) fs = omega (arith, total-append es fs)

Apart-prefix : (k : Text) (es fs : List MetadataEntry) → Apart k (es ++ fs) → Apart k es
Apart-prefix k [] fs _ = tt
Apart-prefix k (e ∷ es) fs (h, hs) = (h, Apart-prefix k es fs hs)

distinct_prefix : (es fs : List MetadataEntry) → HasDistinctKeys (es ++ fs) → HasDistinctKeys es
distinct_prefix [] fs _ = tt
distinct_prefix (e ∷ es) fs (h, hs) = (Apart-prefix e.key es fs h, distinct_prefix es fs hs)

-- What the eviction loop leaves of a cache.
record IsReduced (c d : MetadataCache) : Type 0 where
  counted : d.bytes ≡ total d.lru
  same_limits : (d.max_bytes ≡ c.max_bytes) × (d.max_entries ≡ c.max_entries)
  same_flights : d.flights ≡ c.flights
  distinct : HasDistinctKeys d.lru
  apart : (k : Text) → Apart k c.lru → Apart k d.lru

-- With nothing left to evict, the new entry fits.
empty_room :
    (size : ℕ) (c : MetadataCache)
    → c.bytes ≡ total c.lru
    → c.lru ≡ []
    → 0 < c.max_entries
    → size ≤ c.max_bytes
    → is_full size c ≡ false
unfolding is_full total
empty_room size c counted empty some_room small =
    let none_left : c.bytes ≡ 0 = counted ∙ ap total empty in rw (none_left, empty) (ground arith)

not_le_zero : (n : ℕ) → ¬ (suc n ≤ 0)
not_le_zero n = omega arith

no_entry : (es : List MetadataEntry) → length es ≤ 0 → es ≡ []
no_entry [] h = refl
no_entry (e ∷ es) h = elim (not_le_zero (length es) h) [ ]

IsReduced-same : (c : MetadataCache) → c.bytes ≡ total c.lru → HasDistinctKeys c.lru → IsReduced c c
IsReduced-same c counted distinct = record {
  counted = counted;
  same_limits = (refl, refl);
  same_flights = refl;
  distinct = distinct;
  apart = λ k h. h;
}

pub evict_round :
    (fuel size : ℕ) (c : MetadataCache) (o : Option (List MetadataEntry × MetadataEntry))
    → is_full size c ≡ true
    → back c.lru ≡ o
    → evict (suc fuel) size c ≡ (elim o [
      | none ↦ none
      | some (rest, last) ↦ evict fuel size (record c { lru = rest; bytes = c.bytes - last.size })
    ])
unfolding evict
evict_round fuel size c o full left = rw (← left) (rw (full, evict) refl)

evict_lem :
    (fuel size : ℕ) (c : MetadataCache)
    → c.bytes ≡ total c.lru
    → HasDistinctKeys c.lru
    → length c.lru ≤ fuel
    → 0 < c.max_entries
    → size ≤ c.max_bytes
    → (d : MetadataCache) × (evict fuel size c ≡ some d) × (is_full size d ≡ false) × IsReduced c d
unfolding evict total
evict_lem zero size c counted distinct fits some_room small =
    let room = empty_room size c counted (no_entry c.lru fits) some_room small in
    (c, rw (room, evict) refl, room, IsReduced-same c counted distinct)
evict_lem (suc fuel) size c counted distinct fits some_room small =
    elim (Bool-cases (is_full size c)) [
      | inl full ↦ elim (Option-cases (back c.lru)) [
        | inl gone ↦
            let room = empty_room size c counted (back_empty c.lru gone) some_room small in cc
        | inr ((rest, last), left) ↦
            let whole = back-append c.lru rest last left in
            let next : MetadataCache = record c { lru = rest; bytes = c.bytes - last.size } in
            let sum : total c.lru ≡ total rest + (last.size + 0) =
              ap total whole ∙ total-append rest (last ∷ []) in
            let size_eq : length c.lru ≡ length rest + 1 =
              ap (λ es. length es) whole ∙ length-append rest (last ∷ []) in
            let (d, run, room, r) =
              evict_lem fuel size next (omega (arith, counted, sum))
                (distinct_prefix rest (last ∷ []) (subst HasDistinctKeys whole distinct))
                (omega (arith, fits, size_eq)) some_room small in
            (
              d,
              evict_round fuel size c (some (rest, last)) full left ∙ run,
              room,
              record {
                counted = r.counted;
                same_limits = r.same_limits;
                same_flights = r.same_flights;
                distinct = r.distinct;
                apart =
                    λ k h. r.apart k (Apart-prefix k rest (last ∷ []) (subst (Apart k) whole h));
              },
            )
      ]
      | inr room ↦ (c, rw (room, evict) refl, room, IsReduced-same c counted distinct)
    ]

landed-apart :
    (key : Text) (ks : List Text) (P : Text → Type 0)
    → All P ks
    → All (λ k. (key ≢ k) × P k) (landed key ks)
unfolding landed
landed-apart key [] P _ = tt
landed-apart key (k ∷ ks) P (p, ps) = elim (Bool-cases (k == key)) [
  | inl same ↦ simp same (landed-apart key ks P ps)
  | inr other ↦ simp other ((ground (arith, eq_iff k key), p), landed-apart key ks P ps)
]

landed-distinct :
    (key : Text) (ks : List Text) → HasDistinctFlights ks → HasDistinctFlights (landed key ks)
unfolding landed
landed-distinct key [] _ = tt
landed-distinct key (k ∷ ks) (h, hs) = elim (Bool-cases (k == key)) [
  | inl same ↦ simp same (landed-distinct key ks hs)
  | inr other ↦ simp other (
    All-map (λ j. (key ≢ j) × (j ≢ k)) (λ j. j ≢ k) (landed key ks) (λ _ p. p.1)
        (landed-apart key ks (λ j. j ≢ k) h),
    landed-distinct key ks hs,
  )
]

landed_lem : (key : Text) (ks : List Text) → is_flying key (landed key ks) ≡ false
unfolding landed is_flying
landed_lem key [] = refl
landed_lem key (k ∷ ks) = elim (Bool-cases (k == key)) [
  | inl same ↦ simp same (landed_lem key ks)
  | inr other ↦ simp (other, other) (landed_lem key ks)
]

land-IsValid : (key : Text) (c : MetadataCache) → IsValid c → IsValid (land key c)
land-IsValid key c v = record {
  counted = v.counted;
  in_bytes = v.in_bytes;
  in_entries = v.in_entries;
  distinct = v.distinct;
  single = landed-distinct key c.flights v.single;
  separate =
      All-map (λ k. (key ≢ k) × Apart k c.lru) (λ k. Apart k c.lru) (landed key c.flights)
        (λ _ p. p.1) (landed-apart key c.flights (λ k. Apart k c.lru) v.separate);
}

room_parts :
    (size : ℕ) (d : MetadataCache)
    → is_full size d ≡ false
    → (length d.lru < d.max_entries) × (d.bytes + size ≤ d.max_bytes)
unfolding is_full
room_parts size d room = (ground arith, ground arith)

insert_entry-IsValid :
    (key : Text) (value : BookMetadata) (size : ℕ) (c d : MetadataCache)
    → IsValid c
    → Apart key c.lru
    → IsReduced c d
    → is_full size d ≡ false
    → IsValid (land key (insert_entry key value size d))
unfolding total
insert_entry-IsValid key value size c d v apart r room =
    let (fewer, fits) = room_parts size d room in
    let apart_all : All (λ k. Apart k d.lru) d.flights =
      rw r.same_flights
        (All-map (λ k. Apart k c.lru) (λ k. Apart k d.lru) c.flights r.apart v.separate) in
    record {
      counted = omega (arith, r.counted);
      in_bytes = omega (arith, fits);
      in_entries = omega (arith, fewer);
      distinct = (r.apart key apart, r.distinct);
      single = landed-distinct key d.flights (rw r.same_flights v.single);
      separate = landed-apart key d.flights (λ k. Apart k d.lru) apart_all;
    }

-- The second section of `get` on a valid cache, by a call whose key is not in it: the eviction
-- loop returns, the cache is valid again, and the key flies no more.
pub settle-IsValid :
    (key : Text) (value : BookMetadata) (c : MetadataCache)
    → IsValid c
    → Apart key c.lru
    → (d : MetadataCache) × (settle key value c ≡ some d)
      × IsValid d
      × (is_flying key d.flights ≡ false)
unfolding settle
settle-IsValid key value c v apart =
    let size = entry_size key value in
    elim (Bool-cases (ltb 0 c.max_entries && leb size c.max_bytes)) [
      | inl cached ↦
          let some_room : 0 < c.max_entries = ground arith in
          let small : size ≤ c.max_bytes = ground arith in
          let (d, run, room, r) =
            evict_lem (length c.lru) size c v.counted v.distinct (omega arith) some_room small in
          (
            land key (insert_entry key value size d),
            simp (cached, run) refl,
            insert_entry-IsValid key value size c d v apart r room,
            landed_lem key d.flights,
          )
      | inr passed ↦ (land key c, simp passed refl, land-IsValid key c v, landed_lem key c.flights)
    ]
