-- ===== src/Folders/Names.antt =====
-- Which folder lists `validFolders` accepts.
use quire_server.Base.{
  ◌≤◌, ◌≡◌, ◌≢◌, ◌↔◌, refl, true, false, List, [], ◌∷◌, Text, codes, length, contains, All, nat_eq,
  text_eq, eq_iff, arith,
}
use quire_server.Folders.{valid_folder, distinct_folders, valid_folders}

-- A folder that a book may belong to.
abbrev pub IsFolder : Text → Type 0
IsFolder f = (f ≢ codes "") × (valid_folder f ≡ true)

abbrev pub IsDistinct : List Text → Type 0
IsDistinct [] = Unit
IsDistinct (f ∷ fs) = All (λ g. g ≢ f) fs × IsDistinct fs

abbrev pub Misses : List Text → List Text → Type 0
Misses seen fs = All (λ g. contains g seen ≡ false) fs

Misses-cons :
    (f : Text) (seen fs : List Text) → All (λ g. g ≢ f) fs → Misses seen fs → Misses (f ∷ seen) fs
Misses-cons f seen [] _ _ = tt
Misses-cons f seen (g ∷ fs) (p, h) (q, k) = (ground (arith, eq_iff f g), Misses-cons f seen fs h k)

Misses-uncons :
    (f : Text) (seen fs : List Text) → Misses (f ∷ seen) fs → All (λ g. g ≢ f) fs × Misses seen fs
Misses-uncons f seen [] _ = (tt, tt)
Misses-uncons f seen (g ∷ fs) (p, h) =
    let (apart, later) = Misses-uncons f seen fs h in
    ((ground (arith, eq_iff f g), apart), (ground (arith, eq_iff f g), later))

pub distinct_folders_sound :
    (seen fs : List Text)
    → distinct_folders seen fs ≡ true
    → All IsFolder fs × IsDistinct fs × Misses seen fs
unfolding distinct_folders
distinct_folders_sound seen [] h = (tt, tt, tt)
distinct_folders_sound seen (f ∷ fs) h =
    let later : distinct_folders (f ∷ seen) fs ≡ true = ground (arith, eq_iff f (codes "")) in
    let (folders, distinct, missed) = distinct_folders_sound (f ∷ seen) fs later in
    let (apart, missed') = Misses-uncons f seen fs missed in
    (
      ((ground (arith, eq_iff f (codes "")), ground (arith, eq_iff f (codes ""))), folders),
      (apart, distinct),
      (ground (arith, eq_iff f (codes "")), missed'),
    )

distinct_folders_complete :
    (seen fs : List Text)
    → All IsFolder fs
    → IsDistinct fs
    → Misses seen fs
    → distinct_folders seen fs ≡ true
unfolding distinct_folders
distinct_folders_complete seen [] _ _ _ = refl
distinct_folders_complete seen (f ∷ fs) ((named, valid), hs) (apart, ds) (missed, ms) = ground (
  arith,
  eq_iff f (codes ""),
  distinct_folders_complete (f ∷ seen) fs hs ds (Misses-cons f seen fs apart ms),
)

Misses-nil : (fs : List Text) → Misses [] fs
Misses-nil [] = tt
Misses-nil (f ∷ fs) = (refl, Misses-nil fs)

-- `validFolders` accepts exactly the lists of at most 32 valid, non-empty, pairwise different
-- folders.
pub valid_folders_iff :
    (fs : List Text)
    → (valid_folders fs ≡ true) ↔ ((length fs ≤ 32) × All IsFolder fs × IsDistinct fs)
unfolding valid_folders
valid_folders_iff fs = (
  λ h. let found = distinct_folders_sound [] fs (ground arith) in (ground arith, found.0, found.1),
  λ h. ground (arith, distinct_folders_complete [] fs h.1 h.2 (Misses-nil fs)),
)
