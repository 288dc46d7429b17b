-- ===== src/Folders/Memberships.antt =====
-- What becomes of a book's memberships in `canonicalBookFolders`.
use quire_server.Base.{
  ◌≤◌, ◌≡◌, ◌≢◌, ◌⊎◌, inl, inr, refl, Bool, true, false, not, some, List, [], ◌∷◌, Text, codes,
  length, contains, keep, All, find, find-upsert, ◌==◌, nat_eq, text_eq, eq_iff, if◌then◌else◌,
  arith, Bool-cases, Option-cases, length-keep-le,
}
use quire_server.Folders.{
  valid_folder, valid_folders, metadata_folders, Members, Json, first, rest, replace_primary,
  text_member, list_member, settled_folders, keep_format, canonical_members,
}
use quire_server.Folders.Names.{IsFolder, IsDistinct, valid_folders_iff}

All-keep {ℓ} : (P : Text → Type ℓ) (p : Text → Bool) (fs : List Text) → All P fs → All P (keep p fs)
All-keep P p [] _ = tt
All-keep P p (f ∷ fs) (h, hs) = elim (Bool-cases (p f)) [
  | inl e ↦ simp e (h, All-keep P p fs hs)
  | inr e ↦ simp e (All-keep P p fs hs)
]

IsDistinct-keep : (p : Text → Bool) (fs : List Text) → IsDistinct fs → IsDistinct (keep p fs)
IsDistinct-keep p [] _ = tt
IsDistinct-keep p (f ∷ fs) (h, hs) = elim (Bool-cases (p f)) [
  | inl e ↦ simp e (All-keep _ p fs h, IsDistinct-keep p fs hs)
  | inr e ↦ simp e (IsDistinct-keep p fs hs)
]

apart-keep : (f : Text) (fs : List Text) → All (λ g. g ≢ f) (keep (λ g. not (g == f)) fs)
apart-keep f [] = tt
apart-keep f (g ∷ fs) = elim (Bool-cases (g == f)) [
  | inl e ↦ simp e (apart-keep f fs)
  | inr e ↦ simp e (ground (arith, eq_iff g f), apart-keep f fs)
]

All-rest {ℓ} : (P : Text → Type ℓ) (fs : List Text) → All P fs → All P (rest fs)
All-rest P [] _ = tt
All-rest P (f ∷ fs) (h, hs) = hs

IsDistinct-rest : (fs : List Text) → IsDistinct fs → IsDistinct (rest fs)
IsDistinct-rest [] _ = tt
IsDistinct-rest (f ∷ fs) (h, hs) = hs

length-rest-le :
    (fs : List Text) → length (rest fs) ≤ 31 ⊎ (32 ≤ length (rest fs)) × (33 ≤ length fs)
length-rest-le [] = omega arith
length-rest-le (f ∷ fs) = omega arith

-- Replacing the primary folder of a valid list by a valid folder gives a valid list: at most 32
-- folders, all valid, named and pairwise different.
pub replace_primary-valid_folders :
    (folder : Text) (folders : List Text)
    → valid_folder folder ≡ true
    → valid_folders folders ≡ true
    → valid_folders (replace_primary folder folders) ≡ true
unfolding replace_primary
replace_primary-valid_folders folder folders valid h =
    let (short, good, distinct) = (valid_folders_iff folders).0 h in
    let others = keep (λ f. not (f == folder)) (rest folders) in
    let good' =
      All-keep IsFolder (λ f. not (f == folder)) (rest folders) (All-rest IsFolder folders good) in
    let distinct' =
      IsDistinct-keep (λ f. not (f == folder)) (rest folders) (IsDistinct-rest folders distinct) in
    let size = length-keep-le (λ f. not (f == folder)) (rest folders) in
    let short' = length-rest-le folders in
    elim (Bool-cases (folder == codes "")) [
      | inl e ↦ simp e ((valid_folders_iff others).1 (omega arith, good', distinct'))
      | inr e ↦ simp e (
          (valid_folders_iff (folder ∷ others)).1 (
            omega arith,
            ((ground (arith, eq_iff folder (codes "")), valid), good'),
            (apart-keep folder (rest folders), distinct'),
          ))
    ]

contains-keep :
    (p : Text → Bool) (g : Text) (fs : List Text)
    → p g ≡ true
    → contains g fs ≡ true
    → contains g (keep p fs) ≡ true
contains-keep p g [] _ h = h
contains-keep p g (f ∷ fs) pass h = elim (Bool-cases (f == g)) [
  | inl same ↦
      let e = (eq_iff f g).0 same in
      let passed : p f ≡ true = rw e pass in simp passed (simp same refl)
  | inr other ↦
      let later = contains-keep p g fs pass (simp other at h) in
      elim (Bool-cases (p f)) [ inl e ↦ simp e (simp (other, later) refl) | inr e ↦ simp e later ]
]

-- An old client's change of the primary folder to a named one replaces only that membership: the
-- new primary folder stands first, and every other membership of the book is kept.
pub replace_primary_keeps_others :
    (folder primary g : Text) (others : List Text)
    → folder ≢ codes ""
    → contains g others ≡ true
    → (first (replace_primary folder (primary ∷ others)) ≡ folder)
      × (contains g (replace_primary folder (primary ∷ others)) ≡ true)
unfolding replace_primary
replace_primary_keeps_others folder primary g others named h =
    let unnamed : (folder == codes "") ≡ false = ground (arith, eq_iff folder (codes "")) in
    elim (Bool-cases (folder == g)) [
      | inl same ↦ simp (unnamed, same) (refl, refl)
      | inr other ↦
          let kept =
            contains-keep (λ f. not (f == folder)) g others
              (ground (arith, eq_iff folder g, eq_iff g folder)) h in
          simp (unnamed, other, kept) (refl, refl)
    ]

module _ (j : Json) where
  -- The memberships that a stored value stands for.
  abbrev pub held : Members → List Text
  held m = metadata_folders (text_member j (codes "folder") m) (list_member j (codes "folders") m)

  keep_format_other :
      (k : Text) (incoming old : Members)
      → k ≢ codes "format"
      → find k (keep_format j incoming old) ≡ find k incoming
  unfolding keep_format
  keep_format_other k incoming old h = elim (Option-cases (find (codes "format") incoming)) [
    | inr (raw, e) ↦ rw (e, keep_format)
    | inl e ↦ elim (Option-cases (find (codes "format") old)) [
      | inl e' ↦ rw (e, e', keep_format)
      | inr (raw, e') ↦
          rw (e, e', keep_format)
            (ground (arith, find-upsert (codes "format") k raw incoming, eq_iff (codes "format") k))
    ]
  ]

  -- The settled value names its folders in `folders`, and the first of them (or none) in `folder`; a
  -- member under any other key than `format` is as the client sent it.
  pub canonical_members_lem :
      (incoming old : Members) (k : Text)
      → k ≢ codes "format"
      → find k (canonical_members j incoming old) ≡ (
          if codes "folders" == k
          then some (j.strings (settled_folders j incoming old))
          else if codes "folder" == k
          then some (j.string (first (settled_folders j incoming old)))
          else find k incoming)
  unfolding canonical_members
  canonical_members_lem incoming old k h =
      rw (keep_format_other k _ old h)
        (rw (find-upsert (codes "folders") k) (rw (find-upsert (codes "folder") k)))

  -- The settled memberships are a valid list of folders, if the client's `folders` (where it sends
  -- them) and `folder` are valid and the stored value's memberships are.
  pub settled_folders-valid :
      (incoming old : Members)
      → ((fs : List Text)
          → list_member j (codes "folders") incoming ≡ some fs
          → valid_folders fs ≡ true)
      → valid_folder (text_member j (codes "folder") incoming) ≡ true
      → valid_folders (held old) ≡ true
      → valid_folders (settled_folders j incoming old) ≡ true
  unfolding settled_folders list_member
  settled_folders-valid incoming old sent valid stored =
      elim (Option-cases (find (codes "folders") incoming)) [
        | inr (raw, e) ↦ elim (Option-cases (j.strings_of raw)) [
          | inl e' ↦ rw (e, settled_folders) (rw e' (unfold valid_folders in refl))
          | inr (fs, e') ↦ rw (e, settled_folders) (rw e' (sent fs (rw (e, list_member) e')))
        ]
        | inl e ↦ elim (Option-cases (find (codes "folder") incoming)) [
          | inl e' ↦ rw (e, e', settled_folders) stored
          | inr (raw, e') ↦
              let new = text_member j (codes "folder") incoming in
              elim (Bool-cases (new == first (held old))) [
                | inl same ↦ rw (e, e', settled_folders) (simp same stored)
                | inr other ↦
                    rw (e, e', settled_folders)
                      (simp other (replace_primary-valid_folders new (held old) valid stored))
              ]
        ]
      ]
