-- ===== src/Libraries/Deletion.antt =====
-- What `deleteLibrary` removes, and what it leaves.
use quire_server.Base.{
  ℕ, ◌≡◌, refl, sym, subst, ◌∙◌, Bool, true, false, not, ◌&&◌, ◌||◌, none, some, List, [], ◌∷◌,
  Text, any, all, keep, ◌==◌, text_eq, nat_eq, pair_eq, Eq, eq_iff, if◌then◌else◌, Table, find,
  remove, ok, no_rows, constraint, reject, demand, demand-eq-ok, reject-eq-ok, >>=-eq-ok, ok_unique,
  arith, Bool-cases, inl, inr,
}
use quire_server.Auth.{User}
use quire_server.Admin.{LibraryRow, Directory, is_owner, is_active}
use quire_server.Libraries.{
  Holdings, owner_of, without_library, is_referenced, redeemer_is, delete_library,
}
use quire_server.Libraries.Soundness.{IsSound, owned, distinct_ids, distinct_owners}
use quire_server.Sync.Apply.{RecordKey, key_eq}

any-keep {ℓ} :
    {A : Type ℓ} (p q : A → Bool) (xs : List A)
    → ((x : A) → p x ≡ true → q x ≡ true)
    → any p (keep q xs) ≡ any p xs
any-keep p q [] h = refl
any-keep p q (x ∷ xs) h = ground (arith, h x, any-keep p q xs h)

all-keep {ℓ} :
    {A : Type ℓ} (p q : A → Bool) (xs : List A) → all p xs ≡ true → all p (keep q xs) ≡ true
all-keep p q [] h = refl
all-keep p q (x ∷ xs) h = ground (arith, all-keep p q xs)

any_kept {ℓ} :
    {A : Type ℓ} (p q : A → Bool) (xs : List A) → any p (keep q xs) ≡ true → any p xs ≡ true
any_kept p q [] h = h
any_kept p q (x ∷ xs) h = ground (arith, any_kept p q xs)

distinct_ids-keep :
    (q : User → Bool) (us : List User) → distinct_ids us ≡ true → distinct_ids (keep q us) ≡ true
distinct_ids-keep q [] h = refl
distinct_ids-keep q (u ∷ us) h =
    ground (arith, distinct_ids-keep q us, all-keep (λ v. not (v.id == u.id)) q us)

distinct_owners-keep :
    (q : LibraryRow → Bool) (ls : List LibraryRow)
    → distinct_owners ls ≡ true
    → distinct_owners (keep q ls) ≡ true
distinct_owners-keep q [] h = refl
distinct_owners-keep q (l ∷ ls) h =
    ground (arith, distinct_owners-keep q ls, all-keep (λ m. not (m.owner == l.owner)) q ls)

-- An owner's account is not active.
owner_inactive :
    (id owner : Text) (us : List User) (ls : List LibraryRow)
    → owner_of id ls ≡ some owner
    → all (owned us) ls ≡ true
    → all (λ u. not (u.id == owner) || u.disabled && not u.admin) us ≡ true
unfolding owner_of
owner_inactive id owner us [] e h = cc
owner_inactive id owner us (l ∷ ls) e h = elim (Bool-cases (l.id == id)) [
  | inl same ↦
      let here : l.owner ≡ owner = cc (simp same at e) in
      subst (λ o. all (λ u. not (u.id == o) || u.disabled && not u.admin) us ≡ true) here
        (ground (arith, h))
  | inr other ↦ owner_inactive id owner us ls (simp other at e) (ground (arith, h))
]

led-keep :
    (owner : Text) (us : List User)
    → all (λ u. not (u.id == owner) || u.disabled && not u.admin) us ≡ true
    → any is_active us ≡ any is_active (keep (λ u. not (u.id == owner)) us)
led-keep owner [] h = refl
led-keep owner (u ∷ us) h = ground (arith, led-keep owner us)

owned-keep :
    (owner : Text) (us : List User) (l : LibraryRow)
    → (l.owner == owner) ≡ false
    → owned us l ≡ true
    → owned (keep (λ u. not (u.id == owner)) us) l ≡ true
owned-keep owner us l apart h =
    let out : (u : User) → (u.id == l.owner) ≡ true → not (u.id == owner) ≡ true =
      λ u at. ground (arith, eq_iff u.id l.owner, eq_iff u.id owner, eq_iff l.owner owner) in
    ground (
      arith,
      any-keep (λ u. u.id == l.owner) (λ u. not (u.id == owner)) us out,
      all-keep (λ u. not (u.id == l.owner) || u.disabled && not u.admin) (λ u. not (u.id == owner))
          us,
    )

all-owned-keep :
    (id owner : Text) (us : List User) (ls : List LibraryRow)
    → is_owner owner (keep (λ l. not (l.id == id)) ls) ≡ false
    → all (owned us) ls ≡ true
    → all (owned (keep (λ u. not (u.id == owner)) us)) (keep (λ l. not (l.id == id)) ls) ≡ true
all-owned-keep id owner us [] f h = refl
all-owned-keep id owner us (l ∷ ls) f h = elim (Bool-cases (l.id == id)) [
  | inl same ↦ simp same (all-owned-keep id owner us ls (simp same at f) (ground (arith, h)))
  | inr other ↦ ground (arith, owned-keep owner us l, all-owned-keep id owner us ls)
]

-- What a deletion that succeeds has found and done.
pub record IsDeleted (id : Text) (h h' : Holdings) : Type 0 where
  pub owner : Text
  pub found : owner_of id h.directory.libraries ≡ some owner
  pub free : is_referenced owner (without_library id owner h.directory) ≡ false
  pub stored : h' ≡ record {
    directory = without_library id owner h.directory;
    records = remove (λ row. row.0.user == owner) h.records;
    changes = remove (λ row. row.0.0 == owner) h.changes;
    operations = remove (λ row. row.0.0 == owner) h.operations;
    files = keep (λ f. not (f.user_id == owner)) h.files;
    watch_roots = keep (λ w. not (w.user_id == owner)) h.watch_roots;
    scan_status =
        remove (λ row. any (λ w. w.id == row.0 && w.user_id == owner) h.watch_roots) h.scan_status;
  }

pub delete_library-IsDeleted :
    (id : Text) (h h' : Holdings) → delete_library id h ≡ ok h' → IsDeleted id h h'
unfolding delete_library
delete_library-IsDeleted id h h' e =
    let (owner, f, e₁) = >>=-eq-ok (demand no_rows (owner_of id h.directory.libraries)) _ e in
    let directory = without_library id owner h.directory in
    let (_, r, e₂) = >>=-eq-ok (reject (is_referenced owner directory) constraint) _ e₁ in
    record {
      owner = owner;
      found = demand-eq-ok no_rows (owner_of id h.directory.libraries) owner f;
      free = reject-eq-ok (is_referenced owner directory) constraint r;
      stored = sym (ok_unique _ refl e₂);
    }

pub without_library-IsSound :
    (id owner : Text) (db : Directory)
    → owner_of id db.libraries ≡ some owner
    → is_referenced owner (without_library id owner db) ≡ false
    → IsSound db.accounts.users db.libraries
    → IsSound (without_library id owner db).accounts.users (without_library id owner db).libraries
unfolding without_library is_referenced
without_library-IsSound id owner db found free s =
    let us = db.accounts.users in
    let idle = owner_inactive id owner us db.libraries found s.all_owned in
    record {
      led = λ h.
          sym (led-keep owner us idle)
          ∙ s.led (any_kept (λ u. u.admin) (λ u. not (u.id == owner)) us h);
      ids = distinct_ids-keep (λ u. not (u.id == owner)) us s.ids;
      owners = distinct_owners-keep (λ l. not (l.id == id)) db.libraries s.owners;
      all_owned = all-owned-keep id owner us db.libraries (ground (arith, free)) s.all_owned;
    }

find-remove {ℓ κ} :
    {K : Type ℓ} {V : Type κ} ⦃e : Eq K⦄ (gone : K → Bool) (k : K) (t : Table K V)
    → find k (remove (λ row. gone row.0) t) ≡ (if gone k then none else find k t)
unfolding find remove
find-remove gone k [] = ground arith
find-remove gone k ((j, v) ∷ t) = ground (arith, eq_iff j k, find-remove gone k t)

keep-keep {ℓ} :
    {A : Type ℓ} (key : A → Text) (gone v : Text) (xs : List A)
    → keep (λ x. key x == v) (keep (λ x. not (key x == gone)) xs)
      ≡ (if v == gone then [] else keep (λ x. key x == v) xs)
keep-keep key gone v [] = ground arith
keep-keep key gone v (x ∷ xs) =
    ground (arith, eq_iff (key x) v, eq_iff (key x) gone, eq_iff v gone, keep-keep key gone v xs)

-- The rows of a table by a key: none for the key that is gone, for any other key those of before.
abbrev pub IsPurged {ℓ} : {A : Type ℓ} → (A → Text) → Text → (xs xs' : List A) → Type ℓ
IsPurged key gone xs xs' =
    (v : Text) → keep (λ x. key x == v) xs' ≡ (if v == gone then [] else keep (λ x. key x == v) xs)

-- The tables without a library and its owner, and with all else.
pub record IsWithout (id owner : Text) (h h' : Holdings) : Type 0 where
  pub records :
      (k : RecordKey) → find k h'.records ≡ (if k.user == owner then none else find k h.records)
  pub changes :
      (v : Text) (n : ℕ)
      → find (v, n) h'.changes ≡ (if v == owner then none else find (v, n) h.changes)
  pub operations :
      (v o : Text)
      → find (v, o) h'.operations ≡ (if v == owner then none else find (v, o) h.operations)
  pub cursors :
      (v : Text)
      → find v h'.directory.accounts.cursors
        ≡ (if v == owner then none else find v h.directory.accounts.cursors)
  pub files : IsPurged (λ f. f.user_id) owner h.files h'.files
  pub watch_roots : IsPurged (λ w. w.user_id) owner h.watch_roots h'.watch_roots
  pub scan_status :
      (k : Text)
      → find k h'.scan_status ≡ (
          if any (λ w. w.id == k && w.user_id == owner) h.watch_roots
          then none
          else find k h.scan_status)
  pub users : IsPurged (λ u. u.id) owner h.directory.accounts.users h'.directory.accounts.users
  pub sessions :
      IsPurged (λ s. s.user_id) owner h.directory.accounts.sessions h'.directory.accounts.sessions
  pub libraries : IsPurged (λ l. l.id) id h.directory.libraries h'.directory.libraries
  pub members : IsPurged (λ m. m.0) id h.directory.library_members h'.directory.library_members
  pub grants : IsPurged (λ g. g.1) id h.directory.invite_libraries h'.directory.invite_libraries
  pub invites : h'.directory.invites ≡ h.directory.invites

-- A library that is deleted takes with it its memberships and invite grants, and the account, sessions,
-- cursor, records, log, remembered operations, files and watched folders with their scans of its owner;
-- every other library and every other user keeps all of theirs, and the invites stay. It is deleted only
-- where no row that stays names the owner.
pub delete_library_lem :
    (id : Text) (h h' : Holdings)
    → delete_library id h ≡ ok h'
    → (owner : Text) × (owner_of id h.directory.libraries ≡ some owner)
      × IsWithout id owner h h'
      × (any (λ l. l.owner == owner) h'.directory.libraries ≡ false)
      × (any (λ m. m.1 == owner) h'.directory.library_members ≡ false)
      × (any (λ i. redeemer_is owner i.redeemed_by) h'.directory.invites ≡ false)
unfolding without_library is_referenced
delete_library_lem id h h' e =
    let d = delete_library-IsDeleted id h h' e in
    let a = h.directory.accounts in
    (
      d.owner,
      d.found,
      subst (IsWithout id d.owner h) (sym d.stored) (record {
        records = λ k. find-remove (λ j. j.user == d.owner) k h.records;
        changes = λ v n. find-remove (λ j. j.0 == d.owner) (v, n) h.changes;
        operations = λ v o. find-remove (λ j. j.0 == d.owner) (v, o) h.operations;
        cursors = λ v. find-remove (λ j. j == d.owner) v a.cursors;
        files = λ v. keep-keep (λ f. f.user_id) d.owner v h.files;
        watch_roots = λ v. keep-keep (λ w. w.user_id) d.owner v h.watch_roots;
        scan_status = λ k.
            find-remove (λ j. any (λ w. w.id == j && w.user_id == d.owner) h.watch_roots) k
              h.scan_status;
        users = λ v. keep-keep (λ u. u.id) d.owner v a.users;
        sessions = λ v. keep-keep (λ s. s.user_id) d.owner v a.sessions;
        libraries = λ v. keep-keep (λ l. l.id) id v h.directory.libraries;
        members = λ v. keep-keep (λ m. m.0) id v h.directory.library_members;
        grants = λ v. keep-keep (λ g. g.1) id v h.directory.invite_libraries;
        invites = refl;
      }),
      rw d.stored (ground (arith, d.free)),
      rw d.stored (ground (arith, d.free)),
      rw d.stored (ground (arith, d.free)),
    )
