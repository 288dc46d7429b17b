-- ===== src/MetadataCache/Refinement.antt =====
-- The cache against what it stands for: the function that reads a file's metadata.
use mathlib.Core.Option
use quire_server.Base.{
  ℕ, zero, suc, ◌-◌, ◌≡◌, ◌∙◌, refl, sym, ap, subst, false, ◌&&◌, Option, none, some, List, [], ◌∷◌,
  ◌++◌, map, length, leb, ltb, Text, All, ◌==◌, text_eq, eq_refl, Bool-cases, Option-cases, inl,
  inr,
}
use quire_server.MetadataCache.{
  BookMetadata, MetadataEntry, MetadataCache, new_cache, entry_of, entry_size, without,
  move_to_front, is_flying, landed, Turn, hit, wait, load, lookup, back, is_full, evict,
  insert_entry, land, settle,
}
use quire_server.MetadataCache.Bounds.{
  IsValid, new_cache-IsValid, lookup-IsValid, without-parts, Apart-missed,
}
use quire_server.MetadataCache.Flights.{back-append, evict_round, settle-IsValid}

All-prefix : (P : MetadataEntry → Type 0) (es fs : List MetadataEntry) → All P (es ++ fs) → All P es
All-prefix P [] fs h = tt
All-prefix P (e ∷ es) fs (p, h) = (p, All-prefix P es fs h)

All-without :
    (P : MetadataEntry → Type 0) (key : Text) (es : List MetadataEntry)
    → All P es
    → All P (without key es)
unfolding without
All-without P key [] h = tt
All-without P key (e ∷ es) (p, h) = elim (Bool-cases (e.key == key)) [
  | inl same ↦ simp same h
  | inr other ↦ simp other (p, All-without P key es h)
]

All-entry_of :
    (P : MetadataEntry → Type 0) (key : Text) (es : List MetadataEntry) (e : MetadataEntry)
    → entry_of key es ≡ some e
    → All P es
    → P e
unfolding entry_of
All-entry_of P key [] e found h = cc
All-entry_of P key (x ∷ es) e found (p, h) = elim (Bool-cases (x.key == key)) [
  | inl same ↦ let here : x ≡ e = cc (simp same at found) in subst P here p
  | inr other ↦ All-entry_of P key es e (simp other at found) h
]

-- The eviction loop only takes entries away.
evict-All :
    (P : MetadataEntry → Type 0) (fuel size : ℕ) (c d : MetadataCache)
    → evict fuel size c ≡ some d
    → All P c.lru
    → All P d.lru × (d.flights ≡ c.flights)
unfolding evict
evict-All P zero size c d e h = elim (Bool-cases (is_full size c)) [
  | inl full ↦ cc (simp full at e)
  | inr room ↦
      let here : c ≡ d = cc (simp room at e) in
      subst (λ x. All P x.lru × (x.flights ≡ c.flights)) here (h, refl)
]
evict-All P (suc fuel) size c d e h = elim (Bool-cases (is_full size c)) [
  | inr room ↦
      let here : c ≡ d = cc (rw (room, evict) at e) in
      subst (λ x. All P x.lru × (x.flights ≡ c.flights)) here (h, refl)
  | inl full ↦ elim (Option-cases (back c.lru)) [
    | inl empty ↦ cc (evict_round fuel size c none full empty, e)
    | inr ((rest, last), left) ↦
        evict-All P fuel size (record c { lru = rest; bytes = c.bytes - last.size }) d
          (sym (evict_round fuel size c (some (rest, last)) full left) ∙ e)
          (All-prefix P rest (last ∷ []) (subst (All P) (back-append c.lru rest last left) h))
  ]
]

settle-All :
    (P : MetadataEntry → Type 0) (key : Text) (value : BookMetadata) (c d : MetadataCache)
    → settle key value c ≡ some d
    → P (record { key = key; value = value; size = entry_size key value })
    → All P c.lru
    → All P d.lru × (d.flights ≡ landed key c.flights)
unfolding settle
settle-All P key value c d e p h =
    let size = entry_size key value in
    elim (Bool-cases (ltb 0 c.max_entries && leb size c.max_bytes)) [
      | inr passed ↦
          let here : land key c ≡ d = cc (simp passed at e) in
          subst (λ x. All P x.lru × (x.flights ≡ landed key c.flights)) here (h, refl)
      | inl cached ↦ elim (Option-cases (evict (length c.lru) size c)) [
        | inl stuck ↦ cc (simp (cached, stuck) at e)
        | inr (m, run) ↦
            let (kept, same) = evict-All P (length c.lru) size c m run h in
            let here : land key (insert_entry key value size m) ≡ d =
              cc (simp (cached, run) at e) in
            subst (λ x. All P x.lru × (x.flights ≡ landed key c.flights)) here
              ((p, kept), ap (landed key) same)
      ]
    ]

module _ (read : Text → BookMetadata) where
  -- A whole call of `get`, whose second section follows its first: the new cache and the value.
  abbrev pub answered : Text → MetadataCache × Turn → Option (MetadataCache × BookMetadata)
  answered key (c, hit v) = some (c, v)
  answered key (c, wait) = none
  answered key (c, load) = Option.map (λ d. (d, read key)) (settle key (read key) c)

  abbrev pub get_once : Text → MetadataCache → Option (MetadataCache × BookMetadata)
  get_once key c = answered key (lookup key c)

  abbrev pub then_all :
      (MetadataCache → Option (List BookMetadata))
      → Option (MetadataCache × BookMetadata)
      → Option (List BookMetadata)
  then_all again none = none
  then_all again (some (c, v)) = Option.map (λ vs. v ∷ vs) (again c)

  abbrev pub get_all : List Text → MetadataCache → Option (List BookMetadata)
  get_all [] c = some []
  get_all (key ∷ keys) c = then_all (λ d. get_all keys d) (get_once key c)

  abbrev Holds : MetadataEntry → Type 0
  Holds e = e.value ≡ read e.key

  -- The cache holds what would be read, and nobody is reading.
  abbrev IsQuiet : MetadataCache → Type 0
  IsQuiet c = IsValid c × (c.flights ≡ []) × All Holds c.lru

  get_once-IsQuiet :
      (key : Text) (c : MetadataCache)
      → IsQuiet c
      → (d : MetadataCache) × (get_once key c ≡ some (d, read key)) × IsQuiet d
  unfolding lookup move_to_front is_flying landed
  get_once-IsQuiet key c (valid, quiet, holds) = elim (Option-cases (entry_of key c.lru)) [
    | inr (e, found) ↦
        let at : e.key ≡ key = (without-parts key c.lru e found).0 in
        let looked : lookup key c ≡ (record c { lru = move_to_front e c.lru }, hit e.value) =
          rw (found, lookup) refl in
        let value : e.value ≡ read key = All-entry_of Holds key c.lru e found holds ∙ ap read at in
        (
          record c { lru = move_to_front e c.lru },
          ap (answered key) looked
              ∙ ap (λ v. some (record c { lru = move_to_front e c.lru }, v)) value,
          (
            subst (λ p. IsValid p.0) looked (lookup-IsValid key c valid),
            quiet,
            (All-entry_of Holds key c.lru e found holds, All-without Holds e.key c.lru holds),
          ),
        )
    | inl missed ↦
        let grounded : is_flying key c.flights ≡ false = rw quiet refl in
        let mid : MetadataCache = record c { flights = key ∷ c.flights } in
        let looked : lookup key c ≡ (mid, load) = rw (missed, lookup) (simp grounded refl) in
        let mid_valid = subst (λ p. IsValid p.0) looked (lookup-IsValid key c valid) in
        let (d, run, d_valid, _) =
          settle-IsValid key (read key) mid mid_valid (Apart-missed key c.lru missed) in
        let (kept, flights) = settle-All Holds key (read key) mid d run refl holds in
        (
          d,
          ap (answered key) looked ∙ ap (λ o. Option.map (λ x. (x, read key)) o) run,
          (d_valid, flights ∙ rw quiet (simp (eq_refl key) refl), kept),
        )
  ]

  get_all-IsQuiet :
      (keys : List Text) (c : MetadataCache) → IsQuiet c → get_all keys c ≡ some (map read keys)
  get_all-IsQuiet [] c h = refl
  get_all-IsQuiet (key ∷ keys) c h =
      let (d, run, quiet) = get_once-IsQuiet key c h in
      ap (then_all (λ x. get_all keys x)) run
      ∙ ap (λ o. Option.map (λ vs. read key ∷ vs) o) (get_all-IsQuiet keys d quiet)

  -- A cache of any limits refines the function that reads a file's metadata: calls for any keys, one after
  -- the other from an empty cache, all return, and each with what reading gives for its key.
  pub get_all-new_cache :
      (keys : List Text) (entries bytes : ℕ)
      → get_all keys (new_cache entries bytes) ≡ some (map read keys)
  unfolding new_cache
  get_all-new_cache keys entries bytes =
      get_all-IsQuiet keys (new_cache entries bytes) (new_cache-IsValid entries bytes, refl, tt)
