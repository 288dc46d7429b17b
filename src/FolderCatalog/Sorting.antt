-- ===== src/FolderCatalog/Sorting.antt =====
-- The catalog that `validate` leaves: its paths are sorted.
use quire_server.Base.{
  ◌≤◌, ◌^◌, ◌≡◌, ◌≢◌, inl, inr, refl, sym, subst, true, false, not, Option, none, some, List, [],
  ◌∷◌, Text, len, length, All, All-map, ltb, text_eq, nat_eq, place_text, sort_texts, text_leb, ok,
  invalid, reject, reject-eq-ok, >>=-eq-ok, ok_unique, arith, Bool-cases,
}
use quire_server.Folders.{distinct_folders}
use quire_server.Folders.Names.{IsFolder, IsDistinct, distinct_folders_sound}
use quire_server.FolderCatalog.{FolderCatalog, CatalogCodec, checked_paths, validated_catalog}

text_leb_total : (s t : Text) → text_leb s t ≡ false → text_leb t s ≡ true
text_leb_total [] t h = cc
text_leb_total (c ∷ s) [] h = refl
text_leb_total (c ∷ s) (d ∷ t) h = ground (arith, text_leb_total s t)

text_leb_trans : (s t u : Text) → text_leb s t ≡ true → text_leb t u ≡ true → text_leb s u ≡ true
text_leb_trans [] t u h k = refl
text_leb_trans (c ∷ s) [] u h k = cc
text_leb_trans (c ∷ s) (d ∷ t) [] h k = cc
text_leb_trans (c ∷ s) (d ∷ t) (e ∷ u) h k = ground (arith, text_leb_trans s t u)

-- The paths in ascending order.
abbrev pub IsSorted : List Text → Type 0
IsSorted [] = Unit
IsSorted (s ∷ ts) = All (λ t. text_leb s t ≡ true) ts × IsSorted ts

All-place_text {ℓ} :
    (P : Text → Type ℓ) (s : Text) (ts : List Text) → P s → All P ts → All P (place_text s ts)
All-place_text P s [] p _ = (p, tt)
All-place_text P s (t ∷ ts) p (q, h) = elim (Bool-cases (text_leb s t)) [
  | inl e ↦ simp e (p, (q, h))
  | inr e ↦ simp e (q, All-place_text P s ts p h)
]

IsSorted-place_text : (s : Text) (ts : List Text) → IsSorted ts → IsSorted (place_text s ts)
IsSorted-place_text s [] _ = (tt, tt)
IsSorted-place_text s (t ∷ ts) (least, h) = elim (Bool-cases (text_leb s t)) [
  | inl e ↦ simp e ((refl, All-map _ _ ts (λ u k. text_leb_trans s t u e k) least), (least, h))
  | inr e ↦ simp e (
    All-place_text (λ u. text_leb t u ≡ true) s ts (text_leb_total s t e) least,
    IsSorted-place_text s ts h,
  )
]

IsSorted-sort_texts : (ts : List Text) → IsSorted (sort_texts ts)
IsSorted-sort_texts [] = tt
IsSorted-sort_texts (t ∷ ts) = IsSorted-place_text t (sort_texts ts) (IsSorted-sort_texts ts)

All-sort_texts {ℓ} : (P : Text → Type ℓ) (ts : List Text) → All P ts → All P (sort_texts ts)
All-sort_texts P [] _ = tt
All-sort_texts P (t ∷ ts) (p, h) = All-place_text P t (sort_texts ts) p (All-sort_texts P ts h)

IsDistinct-place_text :
    (s : Text) (ts : List Text) → All (λ t. t ≢ s) ts → IsDistinct ts → IsDistinct (place_text s ts)
IsDistinct-place_text s [] _ _ = (tt, tt)
IsDistinct-place_text s (t ∷ ts) (apart, h) (least, d) = elim (Bool-cases (text_leb s t)) [
  | inl e ↦ simp e ((apart, h), (least, d))
  | inr e ↦
      simp e (
        All-place_text (λ u. u ≢ t) s ts (λ k. apart (sym k)) least,
        IsDistinct-place_text s ts h d,
      )
]

IsDistinct-sort_texts : (ts : List Text) → IsDistinct ts → IsDistinct (sort_texts ts)
IsDistinct-sort_texts [] _ = tt
IsDistinct-sort_texts (t ∷ ts) (apart, d) =
    IsDistinct-place_text t (sort_texts ts) (All-sort_texts (λ u. u ≢ t) ts apart)
      (IsDistinct-sort_texts ts d)

-- A list of paths as the catalog stores it.
abbrev pub IsStored : List Text → Type 0
IsStored paths = All IsFolder paths × IsDistinct paths × IsSorted paths

checked_paths-IsStored :
    (sent : Option (List Text)) (paths : List Text) → checked_paths sent ≡ ok paths → IsStored paths
unfolding checked_paths
checked_paths-IsStored none paths e = cc
checked_paths-IsStored (some ps) paths e =
    let (_, _, e₁) = >>=-eq-ok (reject (ltb 5000 (length ps)) invalid) _ e in
    let (_, d, e₂) = >>=-eq-ok (reject (not (distinct_folders [] ps)) invalid) _ e₁ in
    let distinct : distinct_folders [] ps ≡ true =
      ground (arith, reject-eq-ok (not (distinct_folders [] ps)) invalid d) in
    let found = distinct_folders_sound [] ps distinct in
    subst IsStored (ok_unique _ refl e₂)
      (All-sort_texts IsFolder ps found.0, IsDistinct-sort_texts ps found.1, IsSorted-sort_texts ps)

-- A catalog that `validate` accepts holds, in both of its lists, valid and non-empty folders, pairwise
-- different and in ascending order, and its encoding takes at most a mebibyte.
pub validated_catalog-IsStored :
    (c : CatalogCodec) (sent new : FolderCatalog)
    → validated_catalog c sent ≡ ok new
    → (library hidden : List Text) × (new ≡ record { library = some library; hidden = some hidden })
      × IsStored library
      × IsStored hidden
      × (len (c.encode new) ≤ 2 ^ 20)
unfolding validated_catalog
validated_catalog-IsStored c sent new e =
    let (library, l, e₁) = >>=-eq-ok (checked_paths sent.library) _ e in
    let (hidden, h, e₂) = >>=-eq-ok (checked_paths sent.hidden) _ e₁ in
    let sorted : FolderCatalog = record { library = some library; hidden = some hidden } in
    let (_, size, e₃) = >>=-eq-ok (reject (ltb (2 ^ 20) (len (c.encode sorted))) invalid) _ e₂ in
    let new_eq : sorted ≡ new = ok_unique _ refl e₃ in
    let fits : len (c.encode sorted) ≤ 2 ^ 20 =
      ground (arith, reject-eq-ok (ltb (2 ^ 20) (len (c.encode sorted))) invalid size) in
    (
      library,
      hidden,
      sym new_eq,
      checked_paths-IsStored sent.library library l,
      checked_paths-IsStored sent.hidden hidden h,
      rw (← new_eq) fits,
    )
