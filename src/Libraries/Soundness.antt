-- ===== src/Libraries/Soundness.antt =====
-- The users and the libraries that keep the server administrable, and what the changes of the tables do
-- to them.
use quire_server.Base.{
  ◌≡◌, refl, sym, subst, Bool, true, false, not, ◌&&◌, ◌||◌, some, List, [], ◌∷◌, ◌++◌, any, all,
  ◌==◌, text_eq, nat_eq, eq_iff, eq_refl, arith, Bool-cases, inl, inr,
}
use quire_server.Auth.{User, insert_user}
use quire_server.Admin.{LibraryRow, is_active}

-- The owner of a library has an account, which is disabled and no administrator.
abbrev pub owned : List User → LibraryRow → Bool
owned us l =
    any (λ u. u.id == l.owner) us
    && all (λ u. not (u.id == l.owner) || u.disabled && not u.admin) us

abbrev pub distinct_ids : List User → Bool
distinct_ids [] = true
distinct_ids (u ∷ us) = all (λ v. not (v.id == u.id)) us && distinct_ids us

abbrev pub distinct_owners : List LibraryRow → Bool
distinct_owners [] = true
distinct_owners (l ∷ ls) = all (λ m. not (m.owner == l.owner)) ls && distinct_owners ls

-- Where there is an administrator, one of them is not disabled.
pub record IsSound (us : List User) (ls : List LibraryRow) : Type 0 where
  pub led : any (λ u. u.admin) us ≡ true → any is_active us ≡ true
  pub ids : distinct_ids us ≡ true
  pub owners : distinct_owners ls ≡ true
  pub all_owned : all (owned us) ls ≡ true

pub any-append {ℓ} :
    {A : Type ℓ} (p : A → Bool) (xs : List A) (x : A) → any p (xs ++ x ∷ []) ≡ (any p xs || p x)
any-append p [] x = ground arith
any-append p (y ∷ xs) x = ground (arith, any-append p xs x)

pub all-append {ℓ} :
    {A : Type ℓ} (p : A → Bool) (xs : List A) (x : A) → all p (xs ++ x ∷ []) ≡ (all p xs && p x)
all-append p [] x = ground arith
all-append p (y ∷ xs) x = ground (arith, all-append p xs x)

-- What holds of each element where it holds of all.
pub all_impl {ℓ} :
    {A : Type ℓ} (p q : A → Bool) (xs : List A)
    → ((x : A) → p x ≡ true → q x ≡ true)
    → all p xs ≡ true
    → all q xs ≡ true
all_impl p q [] step h = refl
all_impl p q (x ∷ xs) step h = ground (arith, step x, all_impl p q xs step)

pub insert_user-eq-some :
    (u : User) (us us' : List User)
    → insert_user u us ≡ some us'
    → (any (λ v. v.id == u.id || v.username == u.username) us ≡ false) × (us' ≡ us ++ u ∷ [])
unfolding insert_user
insert_user-eq-some u us us' h =
    elim (Bool-cases (any (λ v. v.id == u.id || v.username == u.username) us)) [
      | inl taken ↦ cc (simp taken at h)
      | inr fresh ↦ (fresh, cc (simp fresh at h))
    ]

distinct_ids-append :
    (u : User) (us : List User)
    → any (λ v. v.id == u.id || v.username == u.username) us ≡ false
    → distinct_ids us ≡ true
    → distinct_ids (us ++ u ∷ []) ≡ true
distinct_ids-append u [] f d = refl
distinct_ids-append u (v ∷ us) f d = ground (
  arith,
  all-append (λ w. not (w.id == v.id)) us u,
  distinct_ids-append u us,
  eq_iff v.id u.id,
  eq_iff u.id v.id,
)

owner_fresh :
    (u : User) (us : List User) (l : LibraryRow)
    → any (λ v. v.id == u.id || v.username == u.username) us ≡ false
    → any (λ v. v.id == l.owner) us ≡ true
    → (u.id == l.owner) ≡ false
owner_fresh u [] l f h = cc
owner_fresh u (v ∷ us) l f h =
    ground (arith, owner_fresh u us l, eq_iff v.id l.owner, eq_iff v.id u.id, eq_iff u.id l.owner)

owned-append :
    (u : User) (us : List User) (l : LibraryRow)
    → any (λ v. v.id == u.id || v.username == u.username) us ≡ false
    → owned us l ≡ true
    → owned (us ++ u ∷ []) l ≡ true
owned-append u us l f h = ground (
  arith,
  any-append (λ v. v.id == l.owner) us u,
  all-append (λ v. not (v.id == l.owner) || v.disabled && not v.admin) us u,
  owner_fresh u us l f,
)

pub insert_user-IsSound :
    (u : User) (us us' : List User) (ls : List LibraryRow)
    → (not u.admin || not u.disabled) ≡ true
    → insert_user u us ≡ some us'
    → IsSound us ls
    → IsSound us' ls
insert_user-IsSound u us us' ls may e s =
    let (fresh, e') = insert_user-eq-some u us us' e in
    subst (λ rows. IsSound rows ls) (sym e')
      (record {
        led = λ h. ground (arith, any-append is_active us u, any-append (λ v. v.admin) us u, s.led);
        ids = distinct_ids-append u us fresh s.ids;
        owners = s.owners;
        all_owned =
            all_impl (owned us) (owned (us ++ u ∷ [])) ls (λ l. owned-append u us l fresh)
              s.all_owned;
      })

owner_alone :
    (u : User) (us : List User)
    → any (λ v. v.id == u.id || v.username == u.username) us ≡ false
    → all (λ v. not (v.id == u.id) || v.disabled && not v.admin) us ≡ true
owner_alone u [] f = refl
owner_alone u (v ∷ us) f = ground (arith, owner_alone u us)

-- A disabled account that is added owns a library of its own.
pub insert_user-owned :
    (u : User) (us us' : List User) (l : LibraryRow)
    → insert_user u us ≡ some us'
    → (u.disabled && not u.admin) ≡ true
    → l.owner ≡ u.id
    → owned us' l ≡ true
insert_user-owned u us us' l e idle mine =
    let (fresh, e') = insert_user-eq-some u us us' e in
    rw (mine, e')
      (ground (
        arith,
        idle,
        eq_refl u.id,
        owner_alone u us fresh,
        any-append (λ v. v.id == u.id) us u,
        all-append (λ v. not (v.id == u.id) || v.disabled && not v.admin) us u,
      ))
